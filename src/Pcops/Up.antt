-- ===== src/Pcops/Up.antt =====
-- The coordinator of a scenario (`StartCoordinator` and `Up` of internal/pcops/up.go). Whether the bus
-- opens and whether the agent joins are inputs; the agent's loop is the moves that follow.
use parallel_consciousness.Prelude.{
  ℕ, String, ◌≡◌, refl, Bool, true, false, Option, none, Option-cases, is_some, not, List, sym,
  subst, [], eq_refl, Bool-cases, some, if◌then◌else◌, arith, inl, inr,
}
use parallel_consciousness.Prelude.Int.{ℤ, pos, negsuc, leb_ℤ}
use parallel_consciousness.Dict.{Dict, lookup, lookup-insert}
use parallel_consciousness.Protocol.{Stamp}
use parallel_consciousness.Gate.{Spec, Verdict, new_gate}
use parallel_consciousness.Gate.Coordinator.{
  Coordinator, new_coordinator, set_runner_timeout, register, on_verdict,
}
use parallel_consciousness.Gate.Coordinator.Reach.{
  Reach, here, next, timeouts, hooks, registers, AllSound, Reach-AllSound,
}
use parallel_consciousness.Pcops.Config.{
  Config, RawConfig, load_config, effective_runner_timeout, default_runner_timeout,
}
use parallel_consciousness.Pcops.Runner.{Tools, Ran, merged, merge_all, execute}
use parallel_consciousness.Pcops.Config.Valid.{Valid, load_config-Valid}

-- A duration as the coordinator holds it. Only positive ones are handed over.
unfoldable nanoseconds : ℤ → ℕ
nanoseconds (pos n) = n
nanoseconds (negsuc n) = 0

-- The gate of a scenario, as `StartCoordinator` registers it.
abbrev pub spec_of : Config → Spec
spec_of cfg = record { id = cfg.gate_id; required = cfg.gate.required; runner = cfg.gate.runner }

-- `NewCoordinator`, `SetRunnerTimeout` and `Register` as `StartCoordinator` calls them.
abbrev with_gate : (ℕ → Stamp) → Config → Coordinator
with_gate stamps cfg =
    let c0 = new_coordinator "coordinator" stamps in
    register (spec_of cfg) (set_runner_timeout (nanoseconds (effective_runner_timeout cfg)) c0)

-- The coordinator that `StartCoordinator` sets up; `hooked` says whether `onVerdict` is not nil.
pub hosted : (ℕ → Stamp) → Config → Bool → Coordinator
hosted stamps cfg hooked =
    if hooked then on_verdict (with_gate stamps cfg) else with_gate stamps cfg

-- What `StartCoordinator` leaves: whether its bus is open, and the coordinator unless it failed.
record StartedUp : Type 0 where
  bus_open : Bool
  coordinator : Option Coordinator

-- `StartCoordinator`
start_coordinator : (opens joins : Bool) → (ℕ → Stamp) → Config → Bool → StartedUp
start_coordinator opens joins stamps cfg hooked =
    if opens
    then if joins
      then record { bus_open = true; coordinator = some (hosted stamps cfg hooked) }
      else record { bus_open = false; coordinator = none }
    else record { bus_open = false; coordinator = none }

-- `Up`, which waits for the end of the context: the bus is closed when it returns.
up : (opens joins : Bool) → (ℕ → Stamp) → Config → Bool → StartedUp
up opens joins stamps cfg hooked =
    let s = start_coordinator opens joins stamps cfg hooked in
    elim s.coordinator [ none ↦ s | some c ↦ record s { bus_open = false } ]

Reach-trans : {c d e : Coordinator} → Reach c d → Reach d e → Reach c e
Reach-trans r here = r
Reach-trans r (next s x) = next (Reach-trans r s) x

with_gate-Reach :
    (stamps : ℕ → Stamp) (cfg : Config)
    → Valid cfg
    → Reach (new_coordinator "coordinator" stamps) (with_gate stamps cfg)
with_gate-Reach stamps cfg v =
    next (next here (timeouts (nanoseconds (effective_runner_timeout cfg))))
      (registers (spec_of cfg) v.required_distinct v.required_some)

hosted-Reach :
    (stamps : ℕ → Stamp) (cfg : Config) (hooked : Bool)
    → Valid cfg
    → Reach (new_coordinator "coordinator" stamps) (hosted stamps cfg hooked)
unfolding hosted
hosted-Reach stamps cfg true v = next (with_gate-Reach stamps cfg v) hooks
hosted-Reach stamps cfg false v = with_gate-Reach stamps cfg v

nanoseconds-positive :
    (z : ℤ)
    → pos (nanoseconds (if leb_ℤ z (pos 0) then default_runner_timeout else z))
      ≡ (if leb_ℤ z (pos 0) then default_runner_timeout else z)
unfolding nanoseconds
nanoseconds-positive (negsuc n) = refl
nanoseconds-positive (pos n) = elim (Bool-cases (leb_ℤ (pos n) (pos 0))) [
  | inl e ↦ rw e refl
  | inr e ↦ rw e refl
]

with_gate-lookup :
    (stamps : ℕ → Stamp) (cfg : Config)
    → lookup cfg.gate_id (with_gate stamps cfg).gates ≡ some (new_gate (spec_of cfg))
unfolding set_runner_timeout register new_coordinator
with_gate-lookup stamps cfg =
    ground (
      arith,
      lookup-insert cfg.gate_id cfg.gate_id (new_gate (spec_of cfg)) [],
      eq_refl cfg.gate_id,
    )

hosted-lookup :
    (stamps : ℕ → Stamp) (cfg : Config) (hooked : Bool)
    → lookup cfg.gate_id (hosted stamps cfg hooked).gates ≡ some (new_gate (spec_of cfg))
unfolding hosted on_verdict
hosted-lookup stamps cfg true = with_gate-lookup stamps cfg
hosted-lookup stamps cfg false = with_gate-lookup stamps cfg

-- The two timeouts agree.
hosted-timeout :
    (stamps : ℕ → Stamp) (cfg : Config) (hooked : Bool)
    → pos (hosted stamps cfg hooked).host.timeout ≡ effective_runner_timeout cfg
unfolding hosted nanoseconds effective_runner_timeout set_runner_timeout register on_verdict
hosted-timeout stamps cfg true = nanoseconds-positive cfg.runner_timeout
hosted-timeout stamps cfg false = nanoseconds-positive cfg.runner_timeout

-- For a scenario that loads, `StartCoordinator` hosts its gate, with no claims yet; and whatever messages
-- arrive from then on, and whenever the timers run, every gate is collecting, running or settled, with
-- its claims confined to the required participants.
pub hosted-AllSound :
    (parse : String → Option ℤ) (pc_db : String) (raw : RawConfig) (cfg : Config)
    (stamps : ℕ → Stamp) (hooked : Bool) {c : Coordinator}
    → load_config parse pc_db raw ≡ inl cfg
    → Reach (hosted stamps cfg hooked) c
    → (lookup cfg.gate_id (hosted stamps cfg hooked).gates ≡ some (new_gate (spec_of cfg)))
      × AllSound c
hosted-AllSound parse pc_db raw cfg stamps hooked {c} e r =
    let v = (load_config-Valid parse pc_db raw cfg e).0 in
    (
      hosted-lookup stamps cfg hooked,
      Reach-AllSound "coordinator" stamps (Reach-trans (hosted-Reach stamps cfg hooked v) r),
    )

-- What an execution comes to behind a merge, given the run of its test command.
abbrev pub Comes : {D : Type 0} → Verdict × Option D × D → D → Ran × D → Type 0
Comes x d1 ran = (x.0.passed ≡ not (is_some ran.0.error)) × (x.1 ≡ some d1) × (x.2 ≡ ran.1)

execute-merged :
    {D : Type 0} (t : Tools D) (cfg : Config) (dir : String) (branches : List String)
    (gate_id : String) (d d1 : D) (shas : Dict String)
    → merge_all t dir branches d ≡ (merged shas, d1)
    → Comes
        (execute t cfg dir branches gate_id d)
        d1
        (t.shell dir cfg.gate.run (effective_runner_timeout cfg) d1)
unfolding execute
execute-merged t cfg dir branches gate_id d d1 shas e =
    let ran = t.shell dir cfg.gate.run (effective_runner_timeout cfg) d1 in
    elim (Option-cases ran.0.error) [
      | inl q ↦ (ground (arith, e, q), ground (arith, e, q), ground (arith, e, q))
      | inr (x, q) ↦ (ground (arith, e, q), ground (arith, e, q), ground (arith, e, q))
    ]

-- The coordinator waits for its runner exactly as long as the runner lets its test command run: when the
-- branches merge, the outcome of an execution, and the state behind it, are those of a shell that runs
-- the gate's command with the very timeout that the coordinator of the same scenario holds.
pub execute-timeout :
    {D : Type 0} (t : Tools D) (stamps : ℕ → Stamp) (cfg : Config) (hooked : Bool) (dir : String)
    (branches : List String) (gate_id : String) (d d1 : D) (shas : Dict String)
    → merge_all t dir branches d ≡ (merged shas, d1)
    → Comes
        (execute t cfg dir branches gate_id d)
        d1
        (t.shell dir cfg.gate.run (pos (hosted stamps cfg hooked).host.timeout) d1)
execute-timeout t stamps cfg hooked dir branches gate_id d d1 shas e =
    subst (λ z. Comes (execute t cfg dir branches gate_id d) d1 (t.shell dir cfg.gate.run z d1))
      (sym (hosted-timeout stamps cfg hooked))
      (execute-merged t cfg dir branches gate_id d d1 shas e)
