-- ===== src/Gate/Versions.antt =====
-- Which version a settled round names for each participant (`resolve` of pkg/gate/gate.go).
use parallel_consciousness.Prelude.{
  String, ◌==◌, eq_iff, ◌≡◌, ap, ◌∙◌, Bool, none, List, [], ◌∷◌, arith, if◌then◌else◌, contains,
  or_else, Bool-cases, Option-cases, subst, inl, inr,
}
use parallel_consciousness.Dict.{Dict, lookup, copy_map, lookup-insert, lookup-copy_map}
use parallel_consciousness.Gate.{Verdict, GateState}
use parallel_consciousness.Gate.Round.{backfill_one, backfill, merge_tested, filled, settle}

lookup-backfill_one :
    (q : String) (ready vs : Dict String) (p : String)
    → lookup p (backfill_one q ready vs)
      ≡ or_else (lookup p vs) (if q == p then lookup p ready else none)
unfolding backfill_one
lookup-backfill_one q ready vs p = elim (Bool-cases (q == p)) [
  | inl e ↦
      subst
        (λ x.
          lookup x (backfill_one q ready vs)
          ≡ or_else (lookup x vs) (if q == x then lookup x ready else none))
        ((eq_iff q p).0 e) (backfill_one_self q ready vs)
  | inr e ↦ elim (Option-cases (lookup q ready)) [
    | inl l ↦ ground (arith)
    | inr (r, l) ↦ ground (arith, lookup-insert q p r vs)
  ]
]
  where
    backfill_one_self :
        (q : String) (ready vs : Dict String)
        → lookup q (backfill_one q ready vs)
          ≡ or_else (lookup q vs) (if q == q then lookup q ready else none)
    backfill_one_self q ready vs = elim (Option-cases (lookup q ready)) [
      | inl l ↦ ground (arith, eq_iff q q)
      | inr (r, l) ↦ ground (arith, eq_iff q q, lookup-insert q q r vs)
    ]

-- What the report names stays; a required participant that it does not name gets its recorded claim.
pub lookup-backfill :
    (req : List String) (ready vs : Dict String) (p : String)
    → lookup p (backfill req ready vs)
      ≡ or_else (lookup p vs) (if contains req p then lookup p ready else none)
unfolding backfill contains
lookup-backfill [] ready vs p = ground arith
lookup-backfill (q ∷ qs) ready vs p =
    ground (
      arith,
      lookup-backfill qs ready (backfill_one q ready vs) p,
      lookup-backfill_one q ready vs p,
    )

-- A required participant's claim becomes the tested version, if there is one; no other claim changes.
pub lookup-merge_tested :
    (req : List String) (vs ready : Dict String) (p : String)
    → lookup p (merge_tested req vs ready)
      ≡ (if contains req p then or_else (lookup p vs) (lookup p ready) else lookup p ready)
unfolding merge_tested lookup
lookup-merge_tested req [] ready p = ground arith
lookup-merge_tested req ((q, v) ∷ vs) ready p = ground (
  arith,
  eq_iff q p,
  lookup-merge_tested req vs ready p,
  lookup-insert q p v (merge_tested req vs ready),
)

module _ (gs : GateState) (v : Verdict) where
  -- A settled round names a participant at the version that the runner reported, and where the runner
  -- reported none, at the version that a required participant had declared; nobody else is named.
  pub lookup-filled :
      (p : String)
      → lookup p (filled gs v).versions
        ≡ or_else
            (lookup p v.versions)
            (if contains gs.spec.required p then lookup p gs.ready else none)
  unfolding filled
  lookup-filled p =
      lookup-backfill gs.spec.required gs.ready (copy_map v.versions) p
      ∙ ap (λ o. or_else o (if contains gs.spec.required p then lookup p gs.ready else none))
          (lookup-copy_map p v.versions)

  -- Once a round is settled, the standing claim of every required participant is the version that the
  -- verdict names for it, and no other claim has changed.
  pub settle_claims :
      (stalled : Bool) (p : String)
      → lookup p (settle (filled gs v) stalled gs).ready ≡ (
          if contains gs.spec.required p
          then lookup p (filled gs v).versions
          else lookup p gs.ready)
  unfolding settle
  settle_claims stalled p = ground (
    arith,
    lookup-filled p,
    lookup-merge_tested gs.spec.required (filled gs v).versions gs.ready p,
  )
