-- ===== src/Gate/Coordinator/Reach.antt =====
-- Every coordinator that messages and timers can lead to has sound gates (pkg/gate/gate.go).
use mathlib.Core.List.{Memᴰ}
use parallel_consciousness.Prelude.{
  ℕ, ◌<◌, String, ◌==◌, ◌≡◌, subst, inl, inr, Bool, true, some, arith, length, Distinct, Bool-cases,
  Option-cases,
}
use parallel_consciousness.Dict.{lookup, lookup-insert}
use parallel_consciousness.Protocol.{Intent, Message, Stamp, text_field}
use parallel_consciousness.Gate.{Spec, Verdict, GateState, Timer, Effects, new_gate}
use parallel_consciousness.Gate.Phase.{IsSound, new_gate-IsSound}
use parallel_consciousness.Gate.Phase.Moves.{resolve-IsSound, ready_at-IsSound}
use parallel_consciousness.Gate.Coordinator.{
  Coordinator, new_coordinator, set_runner_timeout, register, on_verdict, put, on_ready,
  on_verdict_msg, resolve_gate, handle, check_timer, stall,
}

-- What can happen next: the host configures the coordinator, the agent dispatches a message, or a
-- timer's callback takes one of its two steps. A stalled verdict needs a timer that passed its check,
-- at any time before.
pub data Step (c : Coordinator) : Coordinator → Type 0 where
  timeouts : (d : ℕ) → Step c (set_runner_timeout d c)
  hooks : Step c (on_verdict c)
  registers :
      (spec : Spec) → Distinct spec.required → 0 < length spec.required → Step c (register spec c)
  delivers : (m : Message) → Step c (handle m.intent c m).0
  checks : (t : Timer) → Step c (check_timer t c)
  stalls : (t : Timer) → Memᴰ t c.expired → Step c (stall t c)

pub data Reach (c : Coordinator) : Coordinator → Type 0 where
  here : Reach c c
  next : {d e : Coordinator} → Reach c d → Step d e → Reach c e

abbrev pub AllSound : Coordinator → Type 0
AllSound c = (gate_id : String) (gs : GateState) → lookup gate_id c.gates ≡ some gs → IsSound gs

put-AllSound :
    (gate_id : String) (gs : GateState) (e : Effects) (c : Coordinator)
    → AllSound c
    → IsSound gs
    → AllSound (put gate_id gs e c)
unfolding put
put-AllSound gate_id gs e c a s id gs' found = elim (Bool-cases (gate_id == id)) [
  | inl same ↦ subst IsSound (ground (arith, lookup-insert gate_id id gs c.gates)) s
  | inr other ↦ a id gs' (ground (arith, lookup-insert gate_id id gs c.gates))
]

resolve_gate-AllSound :
    (gate_id : String) (v : Verdict) (stalled : Bool) (c : Coordinator)
    → AllSound c
    → AllSound (resolve_gate gate_id v stalled c)
unfolding resolve_gate
resolve_gate-AllSound gate_id v stalled c a = elim (Option-cases (lookup gate_id c.gates)) [
  | inl e ↦ rw (e, resolve_gate) a
  | inr (gs, e) ↦
      rw (e, resolve_gate)
        (put-AllSound gate_id _ _ c a
          (resolve-IsSound c.host c.effects v stalled gs (a gate_id gs e)))
]

on_ready-AllSound : (c : Coordinator) (m : Message) → AllSound c → AllSound (on_ready c m).0
unfolding on_ready
on_ready-AllSound c m a = elim (Option-cases (lookup (text_field "gate" m.body) c.gates)) [
  | inl e ↦ rw (e, on_ready) a
  | inr (gs, e) ↦
      rw (e, on_ready)
        (put-AllSound _ _ _ c a
          (ready_at-IsSound c.host c.effects _ m gs (a (text_field "gate" m.body) gs e)))
]

handle-AllSound :
    (i : Intent) (c : Coordinator) (m : Message) → AllSound c → AllSound (handle i c m).0
unfolding handle on_verdict_msg
handle-AllSound Intent.ready c m a = on_ready-AllSound c m a
handle-AllSound Intent.done c m a = resolve_gate-AllSound _ _ _ c a
handle-AllSound Intent.disagree c m a = resolve_gate-AllSound _ _ _ c a
handle-AllSound Intent.block c m a = resolve_gate-AllSound _ _ _ c a
handle-AllSound _ c m a = a

check_timer-AllSound : (t : Timer) (c : Coordinator) → AllSound c → AllSound (check_timer t c)
unfolding check_timer
check_timer-AllSound t c a id gs found = a id gs (ground arith)

Step-AllSound : {c d : Coordinator} → Step c d → AllSound c → AllSound d
unfolding set_runner_timeout on_verdict register stall put
Step-AllSound (timeouts d) a = a
Step-AllSound hooks a = a
Step-AllSound {c} (registers spec d n) a =
    put-AllSound spec.id (new_gate spec) c.effects c a (new_gate-IsSound spec d n)
Step-AllSound {c} (delivers m) a = handle-AllSound m.intent c m a
Step-AllSound {c} (checks t) a = check_timer-AllSound t c a
Step-AllSound {c} (stalls t _) a = resolve_gate-AllSound t.gate_id _ true c a

-- Whatever messages arrive, in whatever order, with whatever contents, and whenever the timers run,
-- every gate of a coordinator that registers only gates with distinct required participants, at least
-- one, is collecting, running or settled, with its claims confined to the required participants.
pub Reach-AllSound :
    (name : String) (stamps : ℕ → Stamp) {c : Coordinator}
    → Reach (new_coordinator name stamps) c
    → AllSound c
unfolding new_coordinator lookup
Reach-AllSound name stamps here = λ id gs found. cc found
Reach-AllSound name stamps (next r s) = Step-AllSound s (Reach-AllSound name stamps r)
