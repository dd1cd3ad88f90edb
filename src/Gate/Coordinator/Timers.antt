-- ===== src/Gate/Coordinator/Timers.antt =====
-- The runner timer of pkg/gate/gate.go: what the generation counter fences, and what it does not.
use parallel_consciousness.Prelude.{
  suc, ◌≤◌, String, ◌≡◌, refl, Bool, true, false, arith, contains, Option-cases, inl, inr,
}
use parallel_consciousness.Dict.{lookup}
use parallel_consciousness.Protocol.{Message, text_field}
use parallel_consciousness.Gate.{Verdict, GateState, Host, Timer, Effects}
use parallel_consciousness.Gate.Round.{
  resolve, filled, settle, open_round, ready_at, cached_answer, invalidate, record_ready,
}
use parallel_consciousness.Gate.Versions.{lookup-filled}
use parallel_consciousness.Gate.Phase.{Running, Settled, resolve-Settled}
use parallel_consciousness.Gate.Phase.Moves.{ready_at_cached, ready_at_uncached}
use parallel_consciousness.Gate.Coordinator.{Coordinator, is_stale, unresponsive}
use parallel_consciousness.Gate.Coordinator.Reach.{Reach}

-- What a gate goes through after it is registered.
pub data GateStep (gs : GateState) : GateState → Type 0 where
  hears :
      (h : Host) (gate_id : String) (m : Message) (e : Effects)
      → GateStep gs (ready_at h gate_id m gs e).0
  rules :
      (h : Host) (v : Verdict) (stalled : Bool) (e : Effects)
      → GateStep gs (resolve h v stalled false gs e).0

pub data GateSteps (gs : GateState) : GateState → Type 0 where
  stays : GateSteps gs gs
  goes : {s t : GateState} → GateSteps gs s → GateStep s t → GateSteps gs t

gen-resolve :
    (h : Host) (v : Verdict) (stalled from_cache : Bool) (gs : GateState) (e : Effects)
    → gs.gen ≤ (resolve h v stalled from_cache gs e).0.gen
unfolding resolve settle
gen-resolve h v stalled from_cache gs e = ground arith

gen-record_ready :
    (h : Host) (gate_id : String) (m : Message) (version : String) (required required' : Bool)
    (gs : GateState) (e : Effects)
    → (record_ready h gate_id m version required (invalidate required' gs) e).0.gen ≡ gs.gen
unfolding record_ready invalidate open_round
gen-record_ready h gate_id m version required required' gs e = ground arith

gen-ready_at :
    (h : Host) (gate_id : String) (m : Message) (gs : GateState) (e : Effects)
    → gs.gen ≤ (ready_at h gate_id m gs e).0.gen
gen-ready_at h gate_id m gs e =
    let version = text_field "version" m.body in
    let required = contains gs.spec.required m.from.agent in
    elim (Option-cases (cached_answer gs required m.from.agent version)) [
      | inl c ↦
          rw (ready_at_uncached h gate_id m gs e c)
            (omega (arith, gen-record_ready h gate_id m version required required gs e))
      | inr (v, c) ↦
          rw (ready_at_cached h gate_id m gs e v c)
            (gen-resolve h v gs.last_stalled true (record gs { inflight = true }) e)
    ]

gen-GateStep : {s t : GateState} → GateStep s t → s.gen ≤ t.gen
gen-GateStep {s} (hears h gate_id m e) = gen-ready_at h gate_id m s e
gen-GateStep {s} (rules h v stalled e) = gen-resolve h v stalled false s e

gen-GateSteps : {s t : GateState} → GateSteps s t → s.gen ≤ t.gen
gen-GateSteps stays = omega arith
gen-GateSteps (goes r st) = omega (arith, gen-GateSteps r, gen-GateStep st)

module _ (h : Host) (gs : GateState) (e : Effects) (running : gs.inflight ≡ true) where
  -- The timer of a round passes its check for as long as the round is unresolved, and never again once
  -- a verdict has settled the round, whatever the gate goes through afterwards.
  pub timer_checks :
      (v : Verdict) (stalled : Bool) (t : Timer) (gs' : GateState)
      → t.gen ≡ gs.gen
      → GateSteps (resolve h v stalled false gs e).0 gs'
      → (is_stale t gs ≡ false) × (is_stale t gs' ≡ true)
  unfolding is_stale
  timer_checks v stalled t gs' same after =
      (ground arith, ground (arith, gen-GateSteps after, gen-resolved v stalled))
    where
      gen-resolved :
          (v : Verdict) (stalled : Bool) → (resolve h v stalled false gs e).0.gen ≡ suc gs.gen
      gen-resolved v stalled = unfold resolve settle in ground arith

-- A runner that does not answer settles its round as a failure that names every required participant
-- at the version that it declared.
pub unresponsive-Settled :
    (h : Host) (t : Timer) (gs : GateState) (e : Effects)
    → Running gs
    → let r = resolve h (unresponsive t) true false gs e in
      (v : Verdict) × Settled r.0 v
      × (v.passed ≡ false)
      × (v.detail ≡ "runner unresponsive")
      × (r.0.last_stalled ≡ true)
      × ((p : String)
          → contains gs.spec.required p ≡ true
          → lookup p v.versions ≡ lookup p gs.ready)
unfolding resolve settle filled unresponsive lookup
unresponsive-Settled h t gs e running = (
  filled gs (unresponsive t),
  resolve-Settled h (unresponsive t) true false gs e running.busy running.quorum,
  refl,
  refl,
  ground (arith, running.busy),
  λ p r. ground (arith, lookup-filled gs (unresponsive t) p),
)
