-- ===== src/Pcops/Runner/Verdicts.antt =====
-- What the verdict of the spanning test says of the run (the executor of StartRunner in
-- internal/pcops/rungate.go).
use parallel_consciousness.Prelude.{
  String, ◌≡◌, refl, sym, ap, subst, ◌∙◌, Bool, true, none, some, List, [], ◌∷◌, Option-cases, inl,
  inr, ◌⊎◌, contains,
}
use parallel_consciousness.Dict.{Dict, lookup, insert}
use parallel_consciousness.Pcops.Config.{Config, effective_runner_timeout}
use parallel_consciousness.Pcops.Runner.{
  Failure, Tools, Merged, merged, not_merged, merge_all, participant_of, tested_by, execute,
}
use parallel_consciousness.Pcops.Runner.Merging.{
  Every, Every-insert, Every-lookup, Laws, Resolved, IsIn, merge_all_truthful,
}

-- The tested commits by participant are those of the branches.
pub tested_by-Every :
    (P Q : String → String → Type 0) (owner shas acc : Dict String)
    → ((br sha name : String) → lookup br owner ≡ some name → P br sha → Q name sha)
    → Every P shas
    → Every Q acc
    → Every Q (tested_by owner shas acc)
unfolding tested_by
tested_by-Every P Q owner [] acc f h k = k
tested_by-Every P Q owner ((br, sha) ∷ m) acc f (p, h) k = elim (Option-cases (lookup br owner)) [
  | inl e ↦
      let g : tested_by owner m acc ≡ tested_by owner ((br, sha) ∷ m) acc = cc in
      subst (Every Q) g (tested_by-Every P Q owner m acc f h k)
  | inr (name, e) ↦
      let g : tested_by owner m (insert name sha acc) ≡ tested_by owner ((br, sha) ∷ m) acc = cc in
      subst (Every Q) g (
        tested_by-Every P Q owner m (insert name sha acc) f h
          (Every-insert Q name sha acc (f br sha name e p) k))
]

-- A merge of all branches ends in one of two ways.
pub merge-cases :
    {D : Type 0}
    → (r : Merged × D)
    → ((detail : String) × (e : Failure) × (r.0 ≡ not_merged detail e))
      ⊎ ((shas : Dict String) × (r.0 ≡ merged shas))
merge-cases (merged shas, d) = inr (shas, refl)
merge-cases (not_merged detail e, d) = inl (detail, e, refl)

module _ {D : Type 0} (t : Tools D) (cfg : Config) (dir : String) (branches : List String) where
  -- Whatever the verdict of a run says of a participant is true of the worktree that the test ran on: the
  -- test did run, the commit is in the history of that worktree, and git had resolved a branch of the
  -- participant to it. In particular a run that could not merge names no versions.
  pub versions_tested :
      (holds : D → String → Bool)
      → Laws t dir holds
      → (gate_id name sha : String) (d : D)
      → lookup name (execute t cfg dir branches gate_id d).0.versions ≡ some sha
      → (on : D) × (br : String) × ((execute t cfg dir branches gate_id d).1 ≡ some on)
        × (lookup br (participant_of cfg.agents []) ≡ some name)
        × (holds on sha ≡ true)
        × Resolved t dir br sha
  unfolding execute lookup
  versions_tested holds l gate_id name sha d e =
      let m = merge_all t dir branches d in
      elim (merge-cases m) [
        | inl (detail, x, q) ↦ absurd cc
        | inr (shas, q) ↦
            let owner = participant_of cfg.agents [] in
            let z : m ≡ (merged shas, m.1) = cc in
            let h = merge_all_truthful t dir holds l branches shas d m.1 z in
            let Q : String → String → Type 0 =
              λ n s. (br : String) × (lookup br owner ≡ some n) × IsIn t dir holds m.1 br s in
            let k =
              tested_by-Every (IsIn t dir holds m.1) Q owner shas [] (λ br s n a p. (br, a, p)) h.1
                tt in
            let v : (execute t cfg dir branches gate_id d).0.versions ≡ tested_by owner shas [] =
              elim (Option-cases
                (t.shell dir cfg.gate.run (effective_runner_timeout cfg) m.1).0.error) [
                  | inl a ↦ cc
                  | inr (x, a) ↦ cc
                ] in
            let w : (execute t cfg dir branches gate_id d).1 ≡ some m.1 =
              elim (Option-cases
                (t.shell dir cfg.gate.run (effective_runner_timeout cfg) m.1).0.error) [
                  | inl a ↦ cc
                  | inr (x, a) ↦ cc
                ] in
            let (br, a, p) =
              Every-lookup Q name sha (tested_by owner shas []) k (ap (lookup name) (sym v) ∙ e) in
            (m.1, br, w, a, p.0, p.1)
      ]

  -- A run passes only when the test command exited without error on a worktree into which every branch
  -- was merged: each of them at a commit that git had resolved it to.
  pub passed_merged :
      (holds : D → String → Bool)
      → Laws t dir holds
      → (gate_id br : String) (d : D) → (execute t cfg dir branches gate_id d).0.passed ≡ true
      → contains branches br ≡ true
      → (on : D) × (sha : String) × ((execute t cfg dir branches gate_id d).1 ≡ some on)
        × ((t.shell dir cfg.gate.run (effective_runner_timeout cfg) on).0.error ≡ none)
        × (holds on sha ≡ true)
        × Resolved t dir br sha
  unfolding execute
  passed_merged holds l gate_id br d e b =
      let m = merge_all t dir branches d in
      elim (merge-cases m) [
        | inl (detail, x, q) ↦ absurd cc
        | inr (shas, q) ↦
            let z : m ≡ (merged shas, m.1) = cc in
            let (names, h) = merge_all_truthful t dir holds l branches shas d m.1 z in
            let y = names br in
            elim (Option-cases (lookup br shas)) [
              | inl a ↦ absurd cc
              | inr (sha, a) ↦
                  let (p, r) = Every-lookup (IsIn t dir holds m.1) br sha shas h a in
                  elim (Option-cases
                    (t.shell dir cfg.gate.run (effective_runner_timeout cfg) m.1).0.error) [
                      | inr (x, c) ↦ absurd cc
                      | inl c ↦ (m.1, sha, cc, c, p, r)
                    ]
            ]
      ]
