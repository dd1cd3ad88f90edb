-- ===== src/Bus/Sqlite/Cursors.antt =====
-- Stored cursors and pruning (`saveCursor`, `initCursor` and `Prune` of pkg/bus/sqlite/sqlite.go).
use parallel_consciousness.Prelude.{
  ℕ, suc, ◌≤◌, String, ◌≡◌, refl, ap, sym, subst, ◌∙◌, Bool, true, false, not, ◌&&◌, some, List, [],
  ◌∷◌, arith, ltb, keep, take, Bool-cases, inl, inr, String-cases, get_or, if◌then◌else◌,
}
use parallel_consciousness.Dict.{lookup, lookup-insert_same, lookup-insert_other}
use parallel_consciousness.Bus.Sqlite.{
  Columns, Stored, Store, init_cursor, save_cursor, select_query, addressed, prune,
}

pub init_cursor-stored :
    (replay_zero : Bool) (agent : String) (s : Store) (n : ℕ)
    → lookup agent s.cursors ≡ some n
    → init_cursor replay_zero agent s ≡ n
unfolding init_cursor
init_cursor-stored replay_zero agent s n e = cc

-- The larger of a stored and a saved cursor.
pub max_bounds : (k q : ℕ) → (k ≤ (if ltb k q then q else k)) × (q ≤ (if ltb k q then q else k))
max_bounds k q = (ground arith, ground arith)

-- However saves under one name or several are ordered, a stored cursor never moves back, so a later
-- subscription resumes behind everything that was saved; and it is at least the cursor saved last,
-- if that save succeeded.
pub save_cursor_monotone :
    (agent other : String) (seq n : ℕ) (fails replay_zero : Bool) (s : Store)
    → lookup other s.cursors ≡ some n
    → (n ≤ init_cursor replay_zero other (save_cursor agent seq fails s))
      × (seq ≤ init_cursor replay_zero agent (save_cursor agent seq false s))
unfolding save_cursor
save_cursor_monotone agent other seq n fails replay_zero s e =
    let kept = get_or (lookup agent s.cursors) 0 in
    let v = if ltb kept seq then seq else kept in
    let (least, covers) = max_bounds kept seq in
    let after = save_cursor agent seq false s in
    let same = lookup-insert_same agent v s.cursors in
    let one : n ≤ init_cursor replay_zero other after = elim (String-cases other agent) [
      | inl p ↦
          let q : lookup other after.cursors ≡ some v = ap (λ x. lookup x after.cursors) p ∙ same in
          let w : kept ≡ n =
            ap (λ x. get_or (lookup x s.cursors) 0) (sym p) ∙ ap (λ x. get_or x 0) e in
          subst (λ x. n ≤ x) (sym (init_cursor-stored replay_zero other after v q))
            (subst (λ x. x ≤ v) w least)
      | inr p ↦
          let q = lookup-insert_other agent other v s.cursors p ∙ e in
          subst (λ x. n ≤ x) (sym (init_cursor-stored replay_zero other after n q)) (omega arith)
    ] in
    let two =
      subst (λ x. seq ≤ x) (sym (init_cursor-stored replay_zero agent after v same)) covers in
    elim (Bool-cases fails) [
      | inl f ↦
          let q : n ≤ init_cursor replay_zero other (save_cursor agent seq true s) =
            subst (λ x. n ≤ x) (sym (init_cursor-stored replay_zero other s n e)) (omega arith) in
          (
            subst (λ x. n ≤ init_cursor replay_zero other (save_cursor agent seq x s)) (sym f) q,
            two,
          )
      | inr f ↦ (
        subst (λ x. n ≤ init_cursor replay_zero other (save_cursor agent seq x s)) (sym f) one,
        two,
      )
    ]

pub keep-prune :
    (p : Columns → Bool) (before cursor : ℕ) (rows : List Stored)
    → before ≤ suc cursor
    → keep (λ r. ltb cursor r.seq && p r.columns) (keep (λ r. not (ltb r.seq before)) rows)
      ≡ keep (λ r. ltb cursor r.seq && p r.columns) rows
keep-prune p before cursor [] le = refl
keep-prune p before cursor (r ∷ rs) le =
    let z = keep-prune p before cursor rs le in
    elim (Bool-cases (ltb r.seq before)) [
      | inl e ↦ let q : ltb cursor r.seq ≡ false = ground arith in cc
      | inr e ↦ elim (Bool-cases (ltb cursor r.seq && p r.columns)) [ inl q ↦ cc | inr q ↦ cc ]
    ]

-- Pruning below the position of a subscriber, or just behind it, takes nothing that it has still to
-- receive, and leaves every stored cursor.
pub prune_safe :
    (before cursor batch : ℕ) (agent : String) (topics : List String) (s : Store)
    → before ≤ suc cursor
    → (select_query agent topics cursor batch (prune before s).1.messages
        ≡ select_query agent topics cursor batch s.messages)
      × ((prune before s).1.cursors ≡ s.cursors)
unfolding select_query prune
prune_safe before cursor batch agent topics s le =
    (ap (take batch) (keep-prune (addressed agent topics) before cursor s.messages le), refl)
