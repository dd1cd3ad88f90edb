-- ===== src/Pcops/Runner/Merging.antt =====
-- What a merge of all branches leaves in the runner's worktree (`mergeAll` of
-- internal/pcops/rungate.go).
use parallel_consciousness.Prelude.{
  String, ◌==◌, eq_iff, ◌≡◌, ◌≢◌, refl, sym, subst, Bool, true, false, ◌||◌, none, some, List, [],
  ◌∷◌, arith, Bool-cases, Option-cases, String-cases, inl, inr, contains,
}
use parallel_consciousness.Dict.{Dict, lookup, has, insert, lookup-insert}
use parallel_consciousness.Pcops.Runner.{
  Failure, Tools, merged, trim, git_in, is_merge_conflict, has_unmerged_paths, abandon,
  merge_branches, merge_all,
}

-- Every entry of a map has a property.
abbrev pub Every : (String → String → Type 0) → Dict String → Type 0
Every P [] = Unit
Every P ((k, v) ∷ m) = P k v × Every P m

pub Every-insert :
    (P : String → String → Type 0) (k v : String) (m : Dict String)
    → P k v
    → Every P m
    → Every P (insert k v m)
unfolding insert
Every-insert P k v [] p h = (p, tt)
Every-insert P k v ((i, w) ∷ m) p (q, h) = elim (String-cases i k) [
  | inl e ↦
      let f : i == k ≡ true = ground (arith, eq_iff i k) in
      let g : (i, v) ∷ m ≡ insert k v ((i, w) ∷ m) = cc in
      subst (Every P) g (subst (λ y. P y v) (sym e) p, h)
  | inr e ↦
      let f : i == k ≡ false = ground (arith, eq_iff i k) in
      let g : (i, w) ∷ insert k v m ≡ insert k v ((i, w) ∷ m) = cc in
      subst (Every P) g (q, Every-insert P k v m p h)
]

pub Every-map :
    (P Q : String → String → Type 0) (m : Dict String)
    → ((k v : String) → P k v → Q k v)
    → Every P m
    → Every Q m
Every-map P Q [] f h = tt
Every-map P Q ((k, v) ∷ m) f (p, h) = (f k v p, Every-map P Q m f h)

pub Every-lookup :
    (P : String → String → Type 0) (k v : String) (m : Dict String)
    → Every P m
    → lookup k m ≡ some v
    → P k v
unfolding lookup
Every-lookup P k v [] h e = absurd cc
Every-lookup P k v ((i, w) ∷ m) (q, h) e = elim (String-cases i k) [
  | inl z ↦
      let f : i == k ≡ true = ground (arith, eq_iff i k) in
      let g : w ≡ v = cc in subst (λ y. P y v) z (subst (P i) g q)
  | inr z ↦ let f : i == k ≡ false = ground (arith, eq_iff i k) in Every-lookup P k v m h cc
]

module _ {D : Type 0} (t : Tools D) (dir : String) where
  -- What git does to a worktree, as far as the code relies on it: `holds d sha` says that the commit
  -- `sha` is in the history of the worktree's head.
  pub record Laws (holds : D → String → Bool) : Type 0 where
    pub merge_adds :
        (sha : String) (d : D)
        → (git_in t dir ("merge" ∷ "--no-edit" ∷ "-q" ∷ sha ∷ []) d).0.error ≡ none
        → holds (git_in t dir ("merge" ∷ "--no-edit" ∷ "-q" ∷ sha ∷ []) d).1 sha ≡ true
    pub merge_keeps :
        (sha old : String) (d : D)
        → (git_in t dir ("merge" ∷ "--no-edit" ∷ "-q" ∷ sha ∷ []) d).0.error ≡ none
        → holds d old ≡ true
        → holds (git_in t dir ("merge" ∷ "--no-edit" ∷ "-q" ∷ sha ∷ []) d).1 old ≡ true
    pub resolve_keeps :
        (br old : String) (d : D)
        → holds d old ≡ true
        → holds (git_in t dir ("rev-parse" ∷ br ∷ []) d).1 old ≡ true

  -- At some moment git resolved the branch to the commit.
  pub record Resolved (br sha : String) : Type 0 where
    pub seen_on : D
    pub printed : trim (git_in t dir ("rev-parse" ∷ br ∷ []) seen_on).0.out ≡ sha
    pub no_error : (git_in t dir ("rev-parse" ∷ br ∷ []) seen_on).0.error ≡ none

  -- A commit that is in the worktree and that its branch was resolved to.
  abbrev pub IsIn : (D → String → Bool) → D → String → String → Type 0
  IsIn holds d br sha = (holds d sha ≡ true) × Resolved br sha

  -- An abandoned merge reports no commits.
  pub abandon-not_merged :
      (br : String) (e : Failure) (out : String) (d : D) (shas : Dict String)
      → (abandon t dir br e out d).0 ≢ merged shas
  unfolding abandon
  abandon-not_merged br e out d shas z =
      let known = is_merge_conflict e out in
      elim (Bool-cases (known || (has_unmerged_paths t dir d).0)) [
        | inl q ↦ absurd cc
        | inr q ↦ absurd cc
      ]

  pub merge_branches-IsIn :
      (holds : D → String → Bool)
      → Laws holds
      → (branches : List String) (acc shas : Dict String) (d d' : D) → Every (IsIn holds d) acc
      → merge_branches t dir branches acc d ≡ (merged shas, d')
      → Every (IsIn holds d') shas
  unfolding merge_branches
  merge_branches-IsIn holds l [] acc shas d d' h e =
      let p : acc ≡ shas = cc in
      let q : d ≡ d' = cc in
      subst (λ y. Every (IsIn holds y) shas) q (subst (Every (IsIn holds d)) p h)
  merge_branches-IsIn holds l (br ∷ rest) acc shas d d' h e =
      let d1 = (git_in t dir ("rev-parse" ∷ br ∷ []) d).1 in
      let out = (git_in t dir ("rev-parse" ∷ br ∷ []) d).0.out in
      let sha = trim out in
      let r = git_in t dir ("merge" ∷ "--no-edit" ∷ "-q" ∷ sha ∷ []) d1 in
      elim (Option-cases (git_in t dir ("rev-parse" ∷ br ∷ []) d).0.error) [
        | inr (x, a) ↦ absurd cc
        | inl a ↦ elim (Option-cases r.0.error) [
          | inr (x, b) ↦ absurd (abandon-not_merged br x r.0.out r.1 shas cc)
          | inl b ↦
              let now : IsIn holds r.1 br sha =
                (l.merge_adds sha d1 b, record { seen_on = d; printed = refl; no_error = a }) in
              let old =
                Every-map (IsIn holds d) (IsIn holds r.1) acc
                  (λ k v (p, z). (l.merge_keeps sha v d1 b (l.resolve_keeps br v d p), z)) h in
              merge_branches-IsIn holds l rest (insert br sha acc) shas r.1 d'
                (Every-insert (IsIn holds r.1) br sha acc now old) cc
        ]
      ]

  -- The branches that the loop names are those that it is given.
  pub merge_branches-names :
      (branches : List String) (acc shas : Dict String) (d d' : D) (br : String)
      → merge_branches t dir branches acc d ≡ (merged shas, d')
      → has br shas ≡ (has br acc || contains branches br)
  unfolding merge_branches contains
  merge_branches-names [] acc shas d d' br e = let p : acc ≡ shas = cc in ground (arith, p)
  merge_branches-names (b ∷ rest) acc shas d d' br e =
      let d1 = (git_in t dir ("rev-parse" ∷ b ∷ []) d).1 in
      let sha = trim (git_in t dir ("rev-parse" ∷ b ∷ []) d).0.out in
      let r = git_in t dir ("merge" ∷ "--no-edit" ∷ "-q" ∷ sha ∷ []) d1 in
      elim (Option-cases (git_in t dir ("rev-parse" ∷ b ∷ []) d).0.error) [
        | inr (x, a) ↦ absurd cc
        | inl a ↦ elim (Option-cases r.0.error) [
          | inr (x, c) ↦ absurd (abandon-not_merged b x r.0.out r.1 shas cc)
          | inl c ↦
              let ih = merge_branches-names rest (insert b sha acc) shas r.1 d' br cc in
              let q = lookup-insert b br sha acc in
              elim (String-cases b br) [
                | inl p ↦
                    let f : b == br ≡ true = ground (arith, eq_iff b br) in
                    elim (Bool-cases (has br acc)) [ inl y ↦ cc | inr y ↦ cc ]
                | inr p ↦ let f : b == br ≡ false = ground (arith, eq_iff b br) in cc
              ]
        ]
      ]

  -- The preparation does not fail, and the branches are then merged from it.
  pub merge_all-merged :
      (branches : List String) (shas : Dict String) (d d' : D)
      → merge_all t dir branches d ≡ (merged shas, d')
      → (d0 : D) × (merge_branches t dir branches [] d0 ≡ (merged shas, d'))
  unfolding merge_all
  merge_all-merged branches shas d d' e =
      let r = git_in t dir ("reset" ∷ "--hard" ∷ "-q" ∷ "main" ∷ []) d in
      let c = git_in t dir ("clean" ∷ "-qfd" ∷ []) r.1 in
      elim (Option-cases r.0.error) [
        | inr (x, a) ↦ absurd cc
        | inl a ↦ elim (Option-cases c.0.error) [ inr (x, b) ↦ absurd cc | inl b ↦ (c.1, cc) ]
      ]

  -- A merge that succeeds names exactly the branches that it was given; each with a commit that git
  -- resolved the branch to, and that is in the history of the worktree that it leaves.
  pub merge_all_truthful :
      (holds : D → String → Bool)
      → Laws holds
      → (branches : List String) (shas : Dict String) (d d' : D)
      → merge_all t dir branches d ≡ (merged shas, d')
      → ((br : String) → has br shas ≡ contains branches br) × Every (IsIn holds d') shas
  unfolding contains lookup
  merge_all_truthful holds l branches shas d d' e =
      let (d0, q) = merge_all-merged branches shas d d' e in
      (
        λ br. merge_branches-names branches [] shas d0 d' br q,
        merge_branches-IsIn holds l branches [] shas d0 d' tt q,
      )
