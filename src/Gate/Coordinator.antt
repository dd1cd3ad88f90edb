-- ===== src/Gate/Coordinator.antt =====
-- pkg/gate/gate.go: the coordinator, which hosts several gates on one agent. Its agent dispatches one
-- message at a time; the runner timers are the only other entrants, and each takes two steps.
pub mod Reach
pub mod Timers
use parallel_consciousness.Prelude.{
  ℕ, suc, String, Bool, true, false, ◌&&◌, ◌||◌, not, Option, none, some, List, [], ◌∷◌, eqb,
  get_or, if◌then◌else◌,
}
use parallel_consciousness.Dict.{Dict, lookup, insert}
use parallel_consciousness.Protocol.{Intent, Message, Stamp, text_field}
use parallel_consciousness.Protocol.Body.{versions}
use parallel_consciousness.Gate.{Spec, Verdict, GateState, Host, Timer, Effects, new_gate}
use parallel_consciousness.Gate.Round.{resolve, ready_at}

-- `Coordinator`; `expired` holds the timers whose callback has found its round unresolved and has
-- yet to call `resolve`.
pub record Coordinator : Type 0 where
  pub host : Host
  pub gates : Dict GateState
  pub effects : Effects
  pub expired : List Timer

-- `NewCoordinator`, with a timeout of five seconds.
unfoldable pub new_coordinator : String → (ℕ → Stamp) → Coordinator
new_coordinator name stamps = record {
  host = record { name = name; timeout = 5_000_000_000; hooked = false; stamps = stamps };
  gates = [];
  effects = record { sent = []; timers = []; reported = []; built = 0 };
  expired = [];
}

-- `SetRunnerTimeout`
unfoldable pub set_runner_timeout : ℕ → Coordinator → Coordinator
set_runner_timeout d c = record c { host = record c.host { timeout = d } }

-- `Register`
unfoldable pub register : Spec → Coordinator → Coordinator
register spec c = record c { gates = insert spec.id (new_gate spec) c.gates }

-- `OnVerdict`
unfoldable pub on_verdict : Coordinator → Coordinator
on_verdict c = record c { host = record c.host { hooked = true } }

-- The gate's new state in its place, and what has been done.
unfoldable pub put : String → GateState → Effects → Coordinator → Coordinator
put gate_id gs e c = record c { gates = insert gate_id gs c.gates; effects = e }

-- `onReady`
unfoldable pub on_ready : Coordinator → Message → Coordinator × Option Message
on_ready c m =
    let gate_id = text_field "gate" m.body in
    elim (lookup gate_id c.gates) [
      | none ↦ (c, none)
      | some gs ↦ let r = ready_at c.host gate_id m gs c.effects in (put gate_id r.0 r.1 c, r.2)
    ]

-- `m.Intent == protocol.IntentDone`
abbrev pub is_done : Intent → Bool
is_done Intent.done = true
is_done _ = false

-- The verdict that `onVerdictMsg` reads from a runner's message.
unfoldable pub read_verdict : Message → Verdict
read_verdict m = record {
  gate_id = text_field "gate" m.body;
  passed = is_done m.intent;
  detail = text_field "detail" m.body;
  versions = get_or (versions (lookup "versions" m.body)) [];
}

-- `resolve` of the gate that `id` names.
unfoldable pub resolve_gate : String → Verdict → Bool → Coordinator → Coordinator
resolve_gate gate_id v stalled c = elim (lookup gate_id c.gates) [
  | none ↦ c
  | some gs ↦ let r = resolve c.host v stalled false gs c.effects in put gate_id r.0 r.1 c
]

-- `onVerdictMsg`
unfoldable pub on_verdict_msg : Coordinator → Message → Coordinator × Option Message
on_verdict_msg c m = (resolve_gate (text_field "gate" m.body) (read_verdict m) false c, none)

-- The handlers that `NewCoordinator` registers on its agent, by intent.
unfoldable pub handle : Intent → Coordinator → Message → Coordinator × Option Message
handle Intent.ready c m = on_ready c m
handle Intent.done c m = on_verdict_msg c m
handle Intent.disagree c m = on_verdict_msg c m
handle Intent.block c m = on_verdict_msg c m
handle _ c m = (c, none)

-- The first half of the timer's callback in `open`, under the lock: is the round still unresolved?
unfoldable pub is_stale : Timer → GateState → Bool
is_stale t gs = not (eqb gs.gen t.gen) || not gs.inflight

unfoldable pub check_timer : Timer → Coordinator → Coordinator
check_timer t c = elim (lookup t.gate_id c.gates) [
  | none ↦ c
  | some gs ↦ if is_stale t gs then c else record c { expired = t ∷ c.expired }
]

-- The verdict of a runner that did not answer.
unfoldable pub unresponsive : Timer → Verdict
unresponsive t = record {
  gate_id = t.gate_id;
  passed = false;
  detail = "runner unresponsive";
  versions = [];
}

-- The second half of the callback, after the lock was released and taken again.
unfoldable pub stall : Timer → Coordinator → Coordinator
stall t c = resolve_gate t.gate_id (unresponsive t) true c
