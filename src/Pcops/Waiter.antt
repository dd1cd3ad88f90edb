-- ===== src/Pcops/Waiter.antt =====
-- internal/pcops/submitwaiter.go and the handlers of submit.go: what a submit's handlers share with
-- its attempt loop. A handler and a declaration of readiness run beside each other: each is cut
-- where it takes or releases the lock or uses a channel. The channels, all of capacity one, are
-- options.
use parallel_consciousness.Prelude.{
  ℕ, String, ◌==◌, Bool, true, false, not, ◌&&◌, Option, none, some, List, [], if◌then◌else◌, ltb,
  get_or, or_else, is_some,
}
use parallel_consciousness.Dict.{Dict, lookup}
use parallel_consciousness.Protocol.{Intent, Message, as_flag, text_field}
use parallel_consciousness.Protocol.Body.{versions, strings}
use parallel_consciousness.Gate.{Verdict}

-- `submitWaiter`
pub record Waiter : Type 0 where
  pub ready_at : ℕ
  pub recorded : Bool
  pub verdicts : Option Verdict
  pub acked : Option (List String)
  pub nacked : Option (Dict String)
  pub declined : Bool
  pub mismatched : Option String

-- `newSubmitWaiter`
unfoldable pub new_submit_waiter : Waiter
new_submit_waiter = record {
  ready_at = 0;
  recorded = false;
  verdicts = none;
  acked = none;
  nacked = none;
  declined = false;
  mismatched = none;
}

-- `fresh`
unfoldable pub fresh : Waiter → Message → Bool
fresh w m = not (ltb m.timestamp w.ready_at)

-- The statements of `declareReady`, in order: the stamp, the reset, the five drains, the publish.
pub data Stage : Type 0 where
  stamping resetting : Stage
  draining_verdicts draining_acked draining_nacked draining_declined draining_mismatched : Stage
  publishing : Stage

-- What a statement of `declareReady` does to the waiter at time `now`.
unfoldable pub declare_ready : Stage → ℕ → Waiter → Waiter
declare_ready stamping now w = record w { ready_at = now }
declare_ready resetting now w = record w { recorded = false }
declare_ready draining_verdicts now w = record w { verdicts = none }
declare_ready draining_acked now w = record w { acked = none }
declare_ready draining_nacked now w = record w { nacked = none }
declare_ready draining_declined now w = record w { declined = false }
declare_ready draining_mismatched now w = record w { mismatched = none }
declare_ready publishing now w = w

-- `offerVerdict`: a signal for a full channel is dropped.
unfoldable pub offer_verdict : Verdict → Waiter → Waiter
offer_verdict v w = record w { verdicts = or_else w.verdicts (some v) }

-- The send of `offerAck`.
unfoldable pub offer_ack : List String → Waiter → Waiter
offer_ack outstanding w = record w { acked = or_else w.acked (some outstanding) }

-- The send of `offerNack`.
unfoldable pub offer_nack : Dict String → Waiter → Waiter
offer_nack testing w = record w { nacked = or_else w.nacked (some testing) }

-- `offerDeclined`
unfoldable pub offer_declined : Waiter → Waiter
offer_declined w = record w { declined = true }

-- `offerMismatch`
unfoldable pub offer_mismatch : String → Waiter → Waiter
offer_mismatch tested w = record w { mismatched = or_else w.mismatched (some tested) }

-- One call of `Submit`: its gate, its agent and the version that it declares.
pub record Submission : Type 0 where
  pub gate_id : String
  pub agent : String
  pub version : String

-- What an inform message says to a submission: nothing, its verdict, the version at which it names the
-- agent instead, or that a round without the agent has ended.
pub data Inform : Type 0 where
  ignored foreign : Inform
  answers : Verdict → Inform
  names : String → Inform

unfoldable pub classify : Submission → Message → Inform
classify s m =
    let vs = get_or (versions (lookup "versions" m.body)) [] in
    if not (text_field "gate" m.body == s.gate_id)
    then ignored
    else elim (as_flag (lookup "passed" m.body)) [
      | none ↦ ignored
      | some passed ↦
          let detail = if passed then "" else text_field "text" m.body in
          let v : Verdict = record {
            gate_id = s.gate_id;
            passed = passed;
            detail = detail;
            versions = vs;
          } in
          if get_or (lookup s.agent vs) "" == s.version
          then answers v
          else elim (lookup s.agent vs) [ none ↦ foreign | some tested ↦ names tested ]
    ]

-- A signal for the attempt loop, by its channel.
pub data Signal : Type 0 where
  gives_verdict : Verdict → Signal
  gives_ack : List String → Signal
  gives_nack : Dict String → Signal
  gives_declined : Signal
  gives_mismatch : String → Signal

-- The handler on the agent's dispatch goroutine: none runs, one has found its message fresh, or one has
-- its signal to send.
pub data Handler : Type 0 where
  idle : Handler
  judged : Message → Handler
  sending : Message → Signal → Handler

-- The checks of a handler before the one of `fresh`, by its intent.
unfoldable pub concerns : Submission → Intent → Message → Bool
concerns s Intent.inform m =
    (text_field "gate" m.body == s.gate_id) && is_some (as_flag (lookup "passed" m.body))
concerns s Intent.ack m = text_field "gate" m.body == s.gate_id
concerns s Intent.nack m = text_field "gate" m.body == s.gate_id
concerns s _ m = false

-- A handler from its call up to the unlock in `fresh`.
unfoldable pub hear : Submission → Message → Waiter → Handler
hear s m w = if concerns s m.intent m && fresh w m then judged m else idle

-- What the handler of `IntentInform` has to send, with `isRecorded` read under its own lock.
unfoldable pub signal : Inform → Waiter → Option Signal
signal ignored w = none
signal foreign w = some gives_declined
signal (answers v) w = some (gives_verdict v)
signal (names tested) w = some (if w.recorded then gives_mismatch tested else gives_declined)

-- A handler behind `fresh`, up to its send: `isRecorded` is read, or `setRecorded` is called.
unfoldable pub decide : Submission → Intent → Message → Waiter → Waiter × Option Signal
decide s Intent.inform m w = (w, signal (classify s m) w)
decide s Intent.ack m w = (
  record w { recorded = true },
  some (gives_ack (get_or (strings (lookup "outstanding" m.body)) [])),
)
decide s Intent.nack m w = (
  record w { recorded = false },
  some (gives_nack (get_or (versions (lookup "testing" m.body)) [])),
)
decide s _ m w = (w, none)

-- The send of a signal.
unfoldable pub send : Signal → Waiter → Waiter
send (gives_verdict v) w = offer_verdict v w
send (gives_ack outstanding) w = offer_ack outstanding w
send (gives_nack testing) w = offer_nack testing w
send gives_declined w = offer_declined w
send (gives_mismatch tested) w = offer_mismatch tested w
