-- ===== src/Bus/Sqlite/Polling/Ranges.antt =====
-- Ranges of the log's rows, and how a batch moves along them (`selectQuery` and `deliverBatch` of
-- pkg/bus/sqlite/sqlite.go).
use mathlib.Core.List.{append-nil}
use parallel_consciousness.Prelude.{
  ℕ, zero, suc, ◌≤◌, ◌<◌, ◌≡◌, refl, sym, ap, subst, ◌∙◌, Bool, true, false, ◌&&◌, List, [], ◌∷◌,
  ◌++◌, arith, Bool-cases, inl, inr, ltb, leb, take, keep, keep-append,
}
use parallel_consciousness.Bus.Sqlite.{Columns, Stored}
use parallel_consciousness.Bus.Sqlite.Polling.Batches.{last_seq}

-- The rows stand in the order of their keys, all above `n`.
abbrev pub Ascending : ℕ → List Stored → Type 0
Ascending n [] = Unit
Ascending n (r ∷ rs) = (n < r.seq) × Ascending r.seq rs

-- The rows above one key, up to another, that pass a test.
abbrev pub between : (Columns → Bool) → ℕ → ℕ → List Stored → List Stored
between p a b rows = keep (λ r. (ltb a r.seq && leb r.seq b) && p r.columns) rows

-- The rows above a key that pass a test.
abbrev pub above : (Columns → Bool) → ℕ → List Stored → List Stored
above p a rows = keep (λ r. ltb a r.seq && p r.columns) rows

pub Ascending-weaken : (a b : ℕ) (rows : List Stored) → a ≤ b → Ascending b rows → Ascending a rows
Ascending-weaken a b [] le h = tt
Ascending-weaken a b (r ∷ rs) le (h, hs) = (omega arith, hs)

-- The last key of a batch from rows above `n` is at least `n`.
pub last_seq-take :
    (p : Columns → Bool) (n k : ℕ) (rows : List Stored)
    → Ascending n rows
    → n ≤ last_seq n (take k (keep (λ r. p r.columns) rows))
last_seq-take p n zero rows h = ground arith
last_seq-take p n (suc k) [] h = ground arith
last_seq-take p n (suc k) (r ∷ rs) (h, hs) = elim (Bool-cases (p r.columns)) [
  | inl e ↦
      let z = last_seq-take p r.seq k rs hs in
      let q : last_seq n (take (suc k) (keep (λ r. p r.columns) (r ∷ rs)))
          ≡ last_seq r.seq (take k (keep (λ r. p r.columns) rs)) =
        cc in
      omega (arith, q, z)
  | inr e ↦
      let z = last_seq-take p n (suc k) rs (Ascending-weaken n r.seq rs (omega arith) hs) in
      let q : last_seq n (take (suc k) (keep (λ r. p r.columns) (r ∷ rs)))
          ≡ last_seq n (take (suc k) (keep (λ r. p r.columns) rs)) =
        cc in
      omega (arith, q, z)
]

-- Rows above a key are not up to it.
pub between-none :
    (p : Columns → Bool) (a n : ℕ) (rows : List Stored) → Ascending n rows → between p a n rows ≡ []
between-none p a n [] h = refl
between-none p a n (r ∷ rs) (h, hs) =
    let z = between-none p a n rs (Ascending-weaken n r.seq rs (omega arith) hs) in
    elim (Bool-cases ((ltb a r.seq && leb r.seq n) && p r.columns)) [
      | inl e ↦ absurd (ground arith)
      | inr e ↦ cc
    ]

-- A row among those between two keys, and one that is not.
pub between-in :
    (p : Columns → Bool) (a b : ℕ) (r : Stored) (rs : List Stored)
    → a < r.seq
    → r.seq ≤ b
    → p r.columns ≡ true
    → between p a b (r ∷ rs) ≡ r ∷ between p a b rs
between-in p a b r rs h k e = elim (Bool-cases ((ltb a r.seq && leb r.seq b) && p r.columns)) [
  | inl q ↦ cc
  | inr q ↦ absurd (ground arith)
]

pub between-out :
    (p : Columns → Bool) (a b : ℕ) (r : Stored) (rs : List Stored)
    → (ltb a r.seq && leb r.seq b) && p r.columns ≡ false
    → between p a b (r ∷ rs) ≡ between p a b rs
between-out p a b r rs e = cc

-- A batch from rows that are all above the cursor is the rows up to its last key.
pub batch_between :
    (p : Columns → Bool) (a n k : ℕ) (rows : List Stored)
    → a ≤ n
    → Ascending n rows
    → between p a (last_seq n (take k (keep (λ r. p r.columns) rows))) rows
      ≡ take k (keep (λ r. p r.columns) rows)
batch_between p a n zero rows le h = between-none p a n rows h
batch_between p a n (suc k) [] le h = refl
batch_between p a n (suc k) (r ∷ rs) le (h, hs) = elim (Bool-cases (p r.columns)) [
  | inl e ↦
      let z = batch_between p a r.seq k rs (omega arith) hs in
      let w = last_seq-take p r.seq k rs hs in
      let t = take k (keep (λ x. p x.columns) rs) in
      let q : take (suc k) (keep (λ x. p x.columns) (r ∷ rs)) ≡ r ∷ t = cc in
      ap (λ x. between p a (last_seq n x) (r ∷ rs)) q
      ∙ between-in p a (last_seq r.seq t) r rs (omega arith) w e
      ∙ ap (λ x. r ∷ x) z
      ∙ sym q
  | inr e ↦
      let z = batch_between p a n (suc k) rs le (Ascending-weaken n r.seq rs (omega arith) hs) in
      let t = take (suc k) (keep (λ x. p x.columns) rs) in
      let q : take (suc k) (keep (λ x. p x.columns) (r ∷ rs)) ≡ t = cc in
      ap (λ x. between p a (last_seq n x) (r ∷ rs)) q
      ∙ between-out p a (last_seq n t) r rs (ground arith)
      ∙ z
      ∙ sym q
]

-- Rows that are all above a key are not bounded by it.
pub above-all :
    (p : Columns → Bool) (n : ℕ) (rows : List Stored)
    → Ascending n rows
    → above p n rows ≡ keep (λ r. p r.columns) rows
above-all p n [] h = refl
above-all p n (r ∷ rs) (h, hs) =
    let z = above-all p n rs (Ascending-weaken n r.seq rs (omega arith) hs) in
    elim (Bool-cases (p r.columns)) [
      | inl e ↦ let q : ltb n r.seq && p r.columns ≡ true = ground arith in cc
      | inr e ↦ let q : ltb n r.seq && p r.columns ≡ false = ground arith in cc
    ]

pub above-out :
    (p : Columns → Bool) (n : ℕ) (r : Stored) (rs : List Stored)
    → r.seq ≤ n
    → above p n (r ∷ rs) ≡ above p n rs
above-out p n r rs h = let q : ltb n r.seq ≡ false = ground arith in cc

-- The cursor never moves back.
pub last_seq-above :
    (p : Columns → Bool) (n lo k : ℕ) (rows : List Stored)
    → Ascending lo rows
    → n ≤ last_seq n (take k (above p n rows))
last_seq-above p n lo zero [] h = ground arith
last_seq-above p n lo (suc k) [] h = ground arith
last_seq-above p n lo k (r ∷ rs) (h, hs) = elim (Bool-cases (leb r.seq n)) [
  | inl e ↦
      subst (λ x. n ≤ last_seq n (take k x)) (sym (above-out p n r rs (ground arith)))
        (last_seq-above p n r.seq k rs hs)
  | inr e ↦
      let g : Ascending n (r ∷ rs) = (ground arith, hs) in
      subst (λ x. n ≤ last_seq n (take k x)) (sym (above-all p n (r ∷ rs) g))
        (last_seq-take p n k (r ∷ rs) g)
]

-- A batch adds the rows up to the new cursor, behind those up to the old one.
pub batch_extends :
    (p : Columns → Bool) (a n lo k : ℕ) (rows : List Stored)
    → a ≤ n
    → Ascending lo rows
    → between p a (last_seq n (take k (above p n rows))) rows
      ≡ between p a n rows ++ take k (above p n rows)
batch_extends p a n lo zero [] le h = refl
batch_extends p a n lo (suc k) [] le h = refl
batch_extends p a n lo k (r ∷ rs) le (h, hs) = elim (Bool-cases (leb r.seq n)) [
  | inl e ↦
      let z = batch_extends p a n r.seq k rs le hs in
      let w = last_seq-above p n r.seq k rs hs in
      let q = above-out p n r rs (ground arith) in
      let m = last_seq n (take k (above p n rs)) in
      ap (λ x. between p a (last_seq n (take k x)) (r ∷ rs)) q
      ∙ elim (Bool-cases (ltb a r.seq && p r.columns)) [
        | inl i ↦
            between-in p a m r rs (ground arith) (ground arith) (ground arith)
            ∙ ap (λ x. r ∷ x) z
            ∙ sym (
                ap (λ x. x ++ take k (above p n (r ∷ rs)))
                  (between-in p a n r rs (ground arith) (ground arith) (ground arith))
                ∙ ap (λ x. r ∷ (between p a n rs ++ take k x)) q)
        | inr i ↦
            between-out p a m r rs (ground arith)
            ∙ z
            ∙ sym (
                ap (λ x. x ++ take k (above p n (r ∷ rs))) (between-out p a n r rs (ground arith))
                ∙ ap (λ x. between p a n rs ++ take k x) q)
      ]
  | inr e ↦
      let g : Ascending n (r ∷ rs) = (ground arith, hs) in
      let q = above-all p n (r ∷ rs) g in
      let t = between-none p a n (r ∷ rs) g in
      ap (λ x. between p a (last_seq n (take k x)) (r ∷ rs)) q
      ∙ batch_between p a n k (r ∷ rs) le g
      ∙ sym (ap (λ x. x ++ take k (above p n (r ∷ rs))) t ∙ ap (take k) q)
]

-- The rows have keys up to a bound.
abbrev pub Bounded : ℕ → List Stored → Type 0
Bounded n [] = Unit
Bounded n (r ∷ rs) = (r.seq ≤ n) × Bounded n rs

pub Bounded-weaken : (a b : ℕ) (rows : List Stored) → a ≤ b → Bounded a rows → Bounded b rows
Bounded-weaken a b [] le h = tt
Bounded-weaken a b (r ∷ rs) le (h, hs) = (omega arith, Bounded-weaken a b rs le hs)

-- A row with a new key keeps the order and extends the bound.
pub append-Ascending :
    (lo hi : ℕ) (rows : List Stored) (r : Stored)
    → Ascending lo rows
    → Bounded hi rows
    → lo ≤ hi
    → r.seq ≡ suc hi
    → Ascending lo (rows ++ r ∷ []) × Bounded (suc hi) (rows ++ r ∷ [])
append-Ascending lo hi [] r h b le e = ((omega arith, tt), (omega arith, tt))
append-Ascending lo hi (x ∷ xs) r (h, hs) (b, bs) le e =
    let (p, q) = append-Ascending x.seq hi xs r hs bs b e in ((h, p), (omega arith, q))

-- A new row is not among those up to an old key.
pub between-append :
    (p : Columns → Bool) (a n hi : ℕ) (rows : List Stored) (r : Stored)
    → n ≤ hi
    → r.seq ≡ suc hi
    → between p a n (rows ++ r ∷ []) ≡ between p a n rows
between-append p a n hi rows r le e =
    let z = keep-append (λ x. (ltb a x.seq && leb x.seq n) && p x.columns) rows (r ∷ []) in
    let o = between-out p a n r [] (ground arith) in
    let y = append-nil (between p a n rows) in z ∙ ap (λ x. between p a n rows ++ x) o ∙ y

-- A cursor stays within the keys given.
pub last_seq-Bounded :
    (p : Columns → Bool) (n d hi k : ℕ) (rows : List Stored)
    → d ≤ hi
    → Bounded hi rows
    → last_seq d (take k (above p n rows)) ≤ hi
last_seq-Bounded p n d hi zero rows le b = le
last_seq-Bounded p n d hi (suc k) [] le b = le
last_seq-Bounded p n d hi (suc k) (r ∷ rs) le (b, bs) =
    elim (Bool-cases (ltb n r.seq && p r.columns)) [
      | inl e ↦
          let z = last_seq-Bounded p n r.seq hi k rs b bs in
          let q : take (suc k) (above p n (r ∷ rs)) ≡ r ∷ take k (above p n rs) = cc in
          subst (λ x. last_seq d x ≤ hi) (sym q) z
      | inr e ↦
          let z = last_seq-Bounded p n d hi (suc k) rs le bs in
          let q : take (suc k) (above p n (r ∷ rs)) ≡ take (suc k) (above p n rs) = cc in
          subst (λ x. last_seq d x ≤ hi) (sym q) z
    ]
