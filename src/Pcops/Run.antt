-- ===== src/Pcops/Run.antt =====
-- internal/pcops/run.go: the round cap of a scenario, and the loop of `Run` that it bounds.
pub mod Cycles
pub mod Cap
pub mod Setup
pub mod Sessions
use parallel_consciousness.Prelude.{
  ℕ, zero, suc, ◌+◌, String, ◌==◌, Bool, true, false, ◌&&◌, not, Option, none, some, List, [], ◌∷◌,
  if◌then◌else◌, contains, eqb, leb, length,
}
use parallel_consciousness.Dict.{Dict, lookup, copy_map}
use parallel_consciousness.Gate.{Verdict}

-- `maxRounds`
abbrev pub max_rounds : ℕ
max_rounds = 3

-- `fixCycle`; `moved` is the keys of its map, which holds no key with the value false.
pub record FixCycle : Type 0 where
  pub required : List String
  pub started : Bool
  pub base : Dict String
  pub moved : List String

-- `newFixCycle`
unfoldable pub new_fix_cycle : List String → FixCycle
new_fix_cycle required = record { required = required; started = false; base = []; moved = [] }

-- `fixCycle.start`
unfoldable pub start : Verdict → FixCycle → FixCycle
start v fc = record fc { started = true; base = copy_map v.versions; moved = [] }

-- `tested, named := v.Versions[p]; named && tested != fc.base[p]`, where a key that the base does not
-- hold reads as the empty string.
unfoldable pub has_moved : Dict String → Verdict → String → Bool
has_moved base v p = elim (lookup p v.versions) [
  | none ↦ false
  | some tested ↦ not (tested == (elim (lookup p base) [ none ↦ "" | some b ↦ b ]))
]

-- The loop that fills `movedNow`.
unfoldable pub moved_now : Dict String → Verdict → List String → List String
moved_now base v [] = []
moved_now base v (p ∷ ps) =
    let rest = moved_now base v ps in if has_moved base v p then p ∷ rest else rest

-- The loop over `movedNow`: whether one of them is new, and all that have moved.
unfoldable pub note_moved : List String → List String → Bool → Bool × List String
note_moved moved [] fresh = (fresh, moved)
note_moved moved (p ∷ ps) fresh =
    note_moved (if contains moved p then moved else p ∷ moved) ps
      (if contains moved p then fresh else true)

-- `fixCycle.completes`
unfoldable pub completes : FixCycle → Verdict → Bool × FixCycle
completes fc v =
    let now = moved_now fc.base v fc.required in
    let (fresh, moved) = note_moved fc.moved now false in
    if not fc.started
    then (true, start v fc)
    else if eqb (length now) (length fc.required)
    then (true, start v fc)
    else if not fresh
    then (true, start v (record fc { moved = moved }))
    else (false, record fc { moved = moved })

-- What the loop of `Run` selects next: a verdict, a session's terminal event, a lost lease, or the end
-- of its context.
pub data Signal : Type 0 where
  verdict : Verdict → Signal
  failure lost : String → Signal
  done : Signal

-- How `Run` ends: `capped` is the error that names the round cap.
pub data Outcome : Type 0 where
  passed : Verdict → Outcome
  capped : Verdict → ℕ → Outcome
  died lease_lost : String → Outcome
  exhausted : Outcome

-- The loop of `Run` over the signals in the order in which it selects them; `none` is a loop that
-- still waits.
unfoldable pub run_loop : ℕ → FixCycle → List Signal → Option Outcome
run_loop rounds fc [] = none
run_loop rounds fc (done ∷ ss) = some exhausted
run_loop rounds fc (failure agent ∷ ss) = some (died agent)
run_loop rounds fc (lost agent ∷ ss) = some (lease_lost agent)
run_loop rounds fc (verdict v ∷ ss) =
    let (counts, fc') = completes fc v in
    let counted = run_loop (suc rounds) fc' ss in
    let going_on = run_loop rounds fc' ss in
    if v.passed
    then some (passed v)
    else if not counts
    then going_on
    else if leb max_rounds (suc rounds)
    then some (capped v (suc rounds))
    else counted
