-- ===== src/Gate/Phase.antt =====
-- pkg/gate/gate.go: a gate collects readiness, runs a round, or has settled one, and how a message
-- moves it between the three.
pub mod Moves
use parallel_consciousness.Prelude.{
  ◌<◌, String, eq_iff, ◌≡◌, refl, sym, subst, ◌⊎◌, inl, inr, Bool, true, false, none, some, List,
  [], ◌∷◌, arith, eqb, length, contains, Distinct, Bool-cases, Option-cases,
}
use parallel_consciousness.Dict.{lookup, insert, Keyed, insert-Keyed}
use parallel_consciousness.Protocol.{Message, text_field}
use parallel_consciousness.Gate.{Spec, Verdict, GateState, Host, Effects, new_gate}
use parallel_consciousness.Gate.Round.{
  filled, settle, resolve, open_round, cached_answer, invalidate, record_ready, ready_at,
}
use parallel_consciousness.Gate.Quorum.{
  Within, Covers, insert-Within, quorum_exact, merge_tested-Covers, merge_tested-Keyed,
  merge_tested-Within,
}
use parallel_consciousness.Gate.Versions.{settle_claims}

-- What holds of a gate in every phase: the claims form a map over the required participants, who are
-- distinct and at least one.
pub record Base (gs : GateState) : Type 0 where
  pub distinct : Distinct gs.spec.required
  pub nonempty : 0 < length gs.spec.required
  pub keyed : Keyed gs.ready
  pub within : Within gs.spec.required gs.ready

-- The verdict names each required participant at its standing claim.
abbrev pub Agrees : Verdict → GateState → Type 0
Agrees v gs =
    (p : String) → contains gs.spec.required p ≡ true → lookup p v.versions ≡ lookup p gs.ready

-- Somebody is outstanding, and nothing is remembered.
pub record Collecting (gs : GateState) : Type 0 where
  pub idle : gs.inflight ≡ false
  pub untested : gs.last_verdict ≡ none
  pub waiting : ¬ Covers gs.ready gs.spec.required

-- The runner is testing a full quorum.
pub record Running (gs : GateState) : Type 0 where
  pub busy : gs.inflight ≡ true
  pub untested : gs.last_verdict ≡ none
  pub quorum : Covers gs.ready gs.spec.required

-- The last round's verdict is remembered, and still describes every claim.
pub record Settled (gs : GateState) (v : Verdict) : Type 0 where
  pub idle : gs.inflight ≡ false
  pub tested : gs.last_verdict ≡ some v
  pub quorum : Covers gs.ready gs.spec.required
  pub agrees : Agrees v gs

abbrev pub Phase : GateState → Type 0
Phase gs = Collecting gs ⊎ (Running gs ⊎ ((v : Verdict) × Settled gs v))

pub record IsSound (gs : GateState) : Type 0 where
  pub base : Base gs
  pub phase : Phase gs

pub not-Covers-nil : (req : List String) → 0 < length req → ¬ Covers [] req
unfolding lookup
not-Covers-nil [] n c = absurd (omega arith)
not-Covers-nil (p ∷ ps) n c = cc (c.0)

-- A registered gate collects.
pub new_gate-IsSound :
    (spec : Spec) → Distinct spec.required → 0 < length spec.required → IsSound (new_gate spec)
unfolding new_gate
new_gate-IsSound spec d n = record {
  base = record { distinct = d; nonempty = n; keyed = tt; within = tt };
  phase = inl (record { idle = refl; untested = refl; waiting = not-Covers-nil spec.required n });
}

pub settle-Base :
    (v : Verdict) (stalled : Bool) (gs : GateState) → Base gs → Base (settle v stalled gs)
unfolding settle
settle-Base v stalled gs b = record {
  distinct = b.distinct;
  nonempty = b.nonempty;
  keyed = merge_tested-Keyed gs.spec.required v.versions gs.ready b.keyed;
  within = merge_tested-Within gs.spec.required v.versions gs.ready b.within;
}

pub settle-Settled :
    (v : Verdict) (stalled : Bool) (gs : GateState)
    → Covers gs.ready gs.spec.required
    → Settled (settle (filled gs v) stalled gs) (filled gs v)
unfolding settle
settle-Settled v stalled gs c = record {
  idle = refl;
  tested = refl;
  quorum = merge_tested-Covers gs.spec.required gs.spec.required (filled gs v).versions gs.ready c;
  agrees = λ p r. ground (arith, settle_claims gs v stalled p);
}

-- A verdict for a round in flight settles it, whatever it names.
pub resolve-Settled :
    (h : Host) (v : Verdict) (stalled from_cache : Bool) (gs : GateState) (e : Effects)
    → gs.inflight ≡ true
    → Covers gs.ready gs.spec.required
    → Settled (resolve h v stalled from_cache gs e).0 (filled gs v)
unfolding resolve
resolve-Settled h v stalled from_cache gs e i c = simp i (settle-Settled v stalled gs c)
