-- ===== src/Pcops/Submit.antt =====
-- internal/pcops/submit.go: the attempt loop of `Submit`, beside the handlers of its agent. A choice of
-- a select, a statement of `declareReady` and a part of a handler are one step each.
pub mod Hearing
pub mod Fence
pub mod Honest
pub mod Gap
use parallel_consciousness.Prelude.{
  ℕ, suc, ◌+◌, String, ◌==◌, Bool, true, false, not, Option, none, some, List, [], ◌∷◌,
  if◌then◌else◌, ltb, get_or, or_else,
}
use parallel_consciousness.Dict.{Dict, lookup}
use parallel_consciousness.Protocol.{Intent, Message, Stamp, Body, as_flag, text_field}
use parallel_consciousness.Gate.{Verdict, ready_message}
use parallel_consciousness.Pcops.Waiter.{
  Waiter, new_submit_waiter, Stage, stamping, resetting, draining_verdicts, draining_acked,
  draining_nacked, draining_declined, draining_mismatched, publishing, declare_ready, Submission,
  Handler, idle, judged, sending, Signal, hear, decide, send,
}

-- What `Submit` returns.
pub data Result : Type 0 where
  verdict : Verdict → Result
  no_verdict not_acknowledged not_declared : Result
  version_mismatch : String → Result

-- Where the attempt loop stands: at a statement of `declareReady`, before the acknowledgement, behind
-- it, at the first look of `waitForRoundToResolve`, at its select, or returned.
pub data Phase : Type 0 where
  declaring : Stage → Phase
  unacknowledged acknowledged displaced resolving : Phase
  returned : Result → Phase

-- A running submit; `heard` is what its subscription has delivered, newest first, `declared` the
-- readiness messages published, and `straddling` the message whose handler was behind `fresh` and not
-- yet done at the last stamp.
pub record Submit : Type 0 where
  pub waiter : Waiter
  pub handler : Handler
  pub phase : Phase
  pub heard : List Message
  pub declared : ℕ
  pub straddling : Option Message

-- What happens next: a message is dispatched, its handler comes to its signal, or sends it; the loop
-- goes on with its declaration at some time, or finds that the publish fails, takes a signal from a
-- channel, looks at the verdicts without blocking, or finds a timer or its context expired.
pub data Event : Type 0 where
  hears : Message → Event
  decides sends : Event
  proceeds : ℕ → Event
  fails : Event
  takes_verdict takes_ack takes_nack takes_mismatch looks ack_timeout cancelled : Event
  takes_declined takes_displaced_mismatch : Event

-- The head of `Submit`: an empty version is refused. The agent runs before the first declaration.
unfoldable pub begin_submit : Submission → Option Submit
begin_submit s =
    if s.version == ""
    then none
    else some (record {
      waiter = new_submit_waiter;
      handler = idle;
      phase = declaring stamping;
      heard = [];
      declared = 0;
      straddling = none;
    })

-- The message of a handler that is behind `fresh`.
unfoldable pub in_flight : Handler → Option Message
in_flight idle = none
in_flight (judged m) = some m
in_flight (sending m g) = some m

-- What follows a statement of `declareReady`.
unfoldable pub after_stage : Stage → Phase
after_stage stamping = declaring resetting
after_stage resetting = declaring draining_verdicts
after_stage draining_verdicts = declaring draining_acked
after_stage draining_acked = declaring draining_nacked
after_stage draining_nacked = declaring draining_declined
after_stage draining_declined = declaring draining_mismatched
after_stage draining_mismatched = declaring publishing
after_stage publishing = unacknowledged

-- One statement of `declareReady` at time `now`.
unfoldable pub declare_stage : Stage → ℕ → Submit → Submit
declare_stage stamping now u = record u {
  waiter = declare_ready stamping now u.waiter;
  phase = after_stage stamping;
  straddling = in_flight u.handler;
}
declare_stage publishing now u = record u {
  phase = after_stage publishing;
  declared = suc u.declared;
}
declare_stage st now u = record u { waiter = declare_ready st now u.waiter; phase = after_stage st }

-- `return v, nil` for the buffered verdict.
return_verdict : Submit → Option Submit
return_verdict u = elim u.waiter.verdicts [
  | none ↦ none
  | some v ↦
      some (record u { waiter = record u.waiter { verdicts = none }; phase = returned (verdict v) })
]

return_mismatch : Submit → Option Submit
return_mismatch u = elim u.waiter.mismatched [
  | none ↦ none
  | some tested ↦ some (record u {
    waiter = record u.waiter { mismatched = none };
    phase = returned (version_mismatch tested);
  })
]

-- A nack sends the attempt to `waitForRoundToResolve`.
give_way : Submit → Option Submit
give_way u = elim u.waiter.nacked [
  | none ↦ none
  | some testing ↦ some (record u { waiter = record u.waiter { nacked = none }; phase = displaced })
]

-- The arms of the four selects and the statements of a declaration; `none` is one that is not ready, or
-- not there.
unfoldable pub arm : Phase → Event → Submit → Option Submit
unfolding return_verdict return_mismatch give_way
arm (declaring st) (proceeds now) u = some (declare_stage st now u)
arm (declaring publishing) fails u = some (record u { phase = returned not_declared })
arm unacknowledged takes_ack u = elim u.waiter.acked [
  | none ↦ none
  | some outstanding ↦
      some (record u { waiter = record u.waiter { acked = none }; phase = acknowledged })
]
arm unacknowledged takes_nack u = give_way u
arm unacknowledged takes_verdict u = return_verdict u
arm unacknowledged takes_mismatch u = return_mismatch u
arm unacknowledged ack_timeout u = some (record u { phase = returned not_acknowledged })
arm unacknowledged cancelled u = some (record u { phase = returned no_verdict })
arm acknowledged takes_verdict u = return_verdict u
arm acknowledged takes_mismatch u = return_mismatch u
arm acknowledged takes_nack u = give_way u
arm acknowledged cancelled u = some (record u { phase = returned no_verdict })
arm displaced looks u = elim u.waiter.verdicts [
  | none ↦ some (record u { phase = resolving })
  | some v ↦
      some (record u { waiter = record u.waiter { verdicts = none }; phase = returned (verdict v) })
]
arm resolving takes_declined u =
    if u.waiter.declined
    then some
        (record u { waiter = record u.waiter { declined = false }; phase = declaring stamping })
    else none
arm resolving takes_verdict u = return_verdict u
arm resolving takes_displaced_mismatch u = elim u.waiter.mismatched [
  | none ↦ none
  | some tested ↦
      some (record u { waiter = record u.waiter { mismatched = none }; phase = declaring stamping })
]
arm resolving cancelled u = some (record u { phase = returned no_verdict })
arm _ _ u = none

-- A handler behind `fresh`.
unfoldable pub decide_step : Submission → Submit → Option Submit
decide_step s u = elim u.handler [
  | idle ↦ none
  | sending m g ↦ none
  | judged m ↦
      let (w, g) = decide s m.intent m u.waiter in
      elim g [
        | none ↦ some (record u { waiter = w; handler = idle })
        | some x ↦ some (record u { waiter = w; handler = sending m x })
      ]
]

-- The send at its end.
unfoldable pub send_step : Submit → Option Submit
send_step u = elim u.handler [
  | idle ↦ none
  | judged m ↦ none
  | sending m g ↦ some (record u { waiter = send g u.waiter; handler = idle })
]

-- The call of a handler, one at a time.
unfoldable pub hear_step : Submission → Message → Submit → Option Submit
hear_step s m u = elim u.handler [
  | idle ↦ some (record u { handler = hear s m u.waiter; heard = m ∷ u.heard })
  | judged x ↦ none
  | sending x g ↦ none
]

-- One event of `Submit`.
unfoldable pub submit_step : Submission → Event → Submit → Option Submit
submit_step s (hears m) u = hear_step s m u
submit_step s decides u = decide_step s u
submit_step s sends u = send_step u
submit_step s e u = arm u.phase e u

unfoldable pub run : Submission → List Event → Submit → Option Submit
run s [] u = some u
run s (e ∷ es) u = elim (submit_step s e u) [ none ↦ none | some u' ↦ run s es u' ]
