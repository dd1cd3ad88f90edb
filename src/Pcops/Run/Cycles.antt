-- ===== src/Pcops/Run/Cycles.antt =====
-- Which failing verdicts end a fix cycle (`fixCycle.completes` of internal/pcops/run.go).
use parallel_consciousness.Prelude.{
  suc, ◌≤◌, ◌<◌, String, ◌==◌, eq_iff, ◌≡◌, refl, ap, sym, inl, inr, Bool, true, false, List, [],
  ◌∷◌, arith, if◌then◌else◌, contains, length, Bool-cases,
}
use parallel_consciousness.Dict.{Dict}
use parallel_consciousness.Gate.{Verdict}
use parallel_consciousness.Pcops.Run.{FixCycle, start, moved_now, note_moved, completes}

-- The required participants that have not moved in this cycle.
pub unmoved : List String → List String → List String
unmoved [] moved = []
unmoved (p ∷ ps) moved = let rest = unmoved ps moved in if contains moved p then rest else p ∷ rest

pub unmoved-nil : (req : List String) → length (unmoved req []) ≡ length req
unfolding unmoved contains
unmoved-nil [] = refl
unmoved-nil (p ∷ ps) = ap suc (unmoved-nil ps)

pub unmoved-le : (req moved : List String) → length (unmoved req moved) ≤ length req
unfolding unmoved
unmoved-le [] moved = omega arith
unmoved-le (p ∷ ps) moved = ground (arith, unmoved-le ps moved)

unmoved-cons_le :
    (req : List String) (p : String) (moved : List String)
    → length (unmoved req (p ∷ moved)) ≤ length (unmoved req moved)
unfolding unmoved contains
unmoved-cons_le [] p moved = omega arith
unmoved-cons_le (q ∷ qs) p moved = ground (arith, unmoved-cons_le qs p moved)

unmoved-cons_lt :
    (req : List String) (p : String) (moved : List String)
    → contains req p ≡ true
    → contains moved p ≡ false
    → length (unmoved req (p ∷ moved)) < length (unmoved req moved)
unfolding unmoved contains
unmoved-cons_lt [] p moved r m = cc
unmoved-cons_lt (q ∷ qs) p moved r m = elim (Bool-cases (q == p)) [
  | inl e ↦
      let same : q ≡ p = (eq_iff q p).0 e in
      let skip : contains moved q ≡ false = rw same m in
      ground (arith, eq_iff p q, sym same, skip, unmoved-cons_le qs p moved)
  | inr e ↦ ground (arith, unmoved-cons_lt qs p moved)
]

note_moved-le :
    (req moved now : List String) (fresh : Bool)
    → length (unmoved req (note_moved moved now fresh).1) ≤ length (unmoved req moved)
unfolding note_moved
note_moved-le req moved [] fresh = omega arith
note_moved-le req moved (p ∷ ps) fresh = elim (Bool-cases (contains moved p)) [
  | inl e ↦ rw (e, note_moved) (note_moved-le req moved ps fresh)
  | inr e ↦
      rw (e, note_moved)
        (omega (arith, note_moved-le req (p ∷ moved) ps true, unmoved-cons_le req p moved))
]

-- Each name of the second list is in the first.
abbrev pub Among : List String → List String → Type 0
Among req [] = Unit
Among req (p ∷ ps) = (contains req p ≡ true) × Among req ps

note_moved-lt :
    (req moved now : List String)
    → Among req now
    → (note_moved moved now false).0 ≡ true
    → length (unmoved req (note_moved moved now false).1) < length (unmoved req moved)
unfolding note_moved
note_moved-lt req moved [] a f = cc
note_moved-lt req moved (p ∷ ps) a f = elim (Bool-cases (contains moved p)) [
  | inl e ↦ rw (e, note_moved) (note_moved-lt req moved ps a.1 (rw (e, note_moved) at f))
  | inr e ↦
      rw (e, note_moved)
        (omega (arith, note_moved-le req (p ∷ moved) ps true, unmoved-cons_lt req p moved a.0 e))
]

Among-cons : (req now : List String) (q : String) → Among req now → Among (q ∷ req) now
unfolding contains
Among-cons req [] q a = tt
Among-cons req (p ∷ ps) q a = ground (arith, Among-cons req ps q a.1)

moved_now-Among :
    (base : Dict String) (v : Verdict) (req : List String) → Among req (moved_now base v req)
unfolding moved_now contains
moved_now-Among base v [] = tt
moved_now-Among base v (p ∷ ps) =
    let ih = Among-cons ps (moved_now base v ps) p (moved_now-Among base v ps) in
    ground (arith, ih, eq_iff p p)

-- A verdict that does not count leaves fewer participants that have still to move in the cycle.
pub completes-lt :
    (fc : FixCycle) (v : Verdict)
    → (completes fc v).0 ≡ false
    → (fc.started ≡ true)
      × ((completes fc v).1.started ≡ true)
      × ((completes fc v).1.required ≡ fc.required)
      × (length (unmoved fc.required (completes fc v).1.moved)
          < length (unmoved fc.required fc.moved))
unfolding completes
completes-lt fc v e = ground (
  arith,
  note_moved-lt fc.required fc.moved (moved_now fc.base v fc.required)
      (moved_now-Among fc.base v fc.required),
)

-- A verdict that counts starts the next cycle.
pub completes_restarts :
    (fc : FixCycle) (v : Verdict)
    → (completes fc v).0 ≡ true
    → ((completes fc v).1.started ≡ true)
      × ((completes fc v).1.required ≡ fc.required)
      × ((completes fc v).1.moved ≡ [])
unfolding completes start
completes_restarts fc v e = ground arith
