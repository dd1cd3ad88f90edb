-- ===== src/Pcops/Run/Cap.antt =====
-- The round cap ends the loop of `Run` (internal/pcops/run.go).
use parallel_consciousness.Prelude.{
  ℕ, zero, suc, ◌+◌, ◌*◌, ◌≤◌, ◌<◌, String, ◌≡◌, refl, true, false, some, List, [], ◌∷◌, arith,
  if◌then◌else◌, leb, length, Bool-cases, inl, inr,
}
use parallel_consciousness.Gate.{Verdict}
use parallel_consciousness.Pcops.Run.{
  FixCycle, new_fix_cycle, completes, Signal, verdict, failure, lost, done, Outcome, run_loop,
  max_rounds, passed, capped, died, lease_lost, exhausted,
}
use parallel_consciousness.Pcops.Run.Cycles.{unmoved, unmoved-le, completes-lt, completes_restarts}

-- How many more signals the current cycle can take without counting.
slack : FixCycle → ℕ
slack fc = if fc.started then length (unmoved fc.required fc.moved) else 0

-- After a verdict that does not count the slack has fallen, and after one that counts it is at most
-- the number of required participants.
completes-slack :
    (fc : FixCycle) (v : Verdict)
    → let (counts, fc') = completes fc v in
      (fc'.required ≡ fc.required)
      × (slack fc' ≤ length fc.required)
      × (counts ≡ false → slack fc' < slack fc)
unfolding slack
completes-slack fc v = elim (Bool-cases (completes fc v).0) [
  | inl e ↦
      let (s, r, _) = completes_restarts fc v e in
      (r, rw (s, r) (unmoved-le fc.required (completes fc v).1.moved), λ f. cc (e, f))
  | inr e ↦
      let (s, s', r, l) = completes-lt fc v e in
      (
        r,
        rw (s', r) (unmoved-le fc.required (completes fc v).1.moved),
        λ _. ground (arith, s, s', r, l),
      )
]

-- A step of the loop that goes on: without a count, and with one below the cap.
run_loop-verdict :
    (rounds : ℕ) (fc : FixCycle) (v : Verdict) (ss : List Signal)
    → run_loop rounds fc (verdict v ∷ ss) ≡ (
        if v.passed
        then some (passed v)
        else if (completes fc v).0
        then (if leb max_rounds (suc rounds)
            then some (capped v (suc rounds))
            else run_loop (suc rounds) (completes fc v).1 ss)
        else run_loop rounds (completes fc v).1 ss)
unfolding run_loop
run_loop-verdict rounds fc v ss = ground arith

-- Enough signals end the loop, from any point of it.
run_loop_ends :
    (left rounds : ℕ) (fc : FixCycle) (ss : List Signal)
    → rounds + left ≡ 2
    → left * suc (length fc.required) + slack fc < length ss
    → (o : Outcome) × (run_loop rounds fc ss ≡ some o)
run_loop_ends left rounds fc [] r l = absurd (omega arith)
run_loop_ends left rounds fc (failure a ∷ ss) r l = (died a, unfold run_loop in refl)
run_loop_ends left rounds fc (lost a ∷ ss) r l = (lease_lost a, unfold run_loop in refl)
run_loop_ends left rounds fc (done ∷ ss) r l = (exhausted, unfold run_loop in refl)
run_loop_ends zero rounds fc (verdict v ∷ ss) r l =
    let (same, bound, falls) = completes-slack fc v in
    let full : leb max_rounds (suc rounds) ≡ true = ground arith in
    rw (run_loop-verdict rounds fc v ss) (elim (Bool-cases v.passed) [
      | inl p ↦ (passed v, rw p)
      | inr p ↦ elim (Bool-cases (completes fc v).0) [
        | inl c ↦ (capped v (suc rounds), ground (arith))
        | inr c ↦
            let (o, e) =
              run_loop_ends zero rounds (completes fc v).1 ss r (omega (arith, falls c)) in
            (o, ground (arith, e))
      ]
    ])
run_loop_ends (suc k) rounds fc (verdict v ∷ ss) r l =
    let (same, bound, falls) = completes-slack fc v in
    let below : leb max_rounds (suc rounds) ≡ false = ground arith in
    let req : length (completes fc v).1.required ≡ length fc.required = rw same in
    rw (run_loop-verdict rounds fc v ss) (elim (Bool-cases v.passed) [
      | inl p ↦ (passed v, rw p)
      | inr p ↦ elim (Bool-cases (completes fc v).0) [
        | inl c ↦
            let (o, e) =
              run_loop_ends k (suc rounds) (completes fc v).1 ss (omega arith)
                (rw req (omega arith)) in
            (o, ground (arith, e))
        | inr c ↦
            let (o, e) =
              run_loop_ends (suc k) rounds (completes fc v).1 ss r
                (rw req (omega (arith, falls c))) in
            (o, ground (arith, e))
      ]
    ])

-- A scenario with n required participants ends by the time that 2n + 3 signals have been selected,
-- whatever they are: no stream of failing verdicts keeps it running, also where nobody moves.
pub run_loop_bounded :
    (required : List String) (ss : List Signal)
    → 2 * suc (length required) < length ss
    → (o : Outcome) × (run_loop 0 (new_fix_cycle required) ss ≡ some o)
unfolding new_fix_cycle slack
run_loop_bounded required ss l = run_loop_ends 2 0 (new_fix_cycle required) ss refl (omega arith)
