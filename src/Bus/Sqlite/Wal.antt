-- ===== src/Bus/Sqlite/Wal.antt =====
-- The bounded retries that switch a database to WAL (`ensureWAL` of pkg/bus/sqlite/sqlite.go). What
-- each attempt meets is an input; the comparison of modes and the search in a text are parameters.
use parallel_consciousness.Prelude.{
  ℕ, zero, suc, ◌+◌, ◌≤◌, String, ◌≡◌, Bool, true, false, ◌||◌, not, Option, none, some, arith, eqb,
  ◌⊎◌, inl, inr, if◌then◌else◌, ap, ◌∙◌,
}

-- An error of the driver: its result code, if it is the driver's own type, and its text.
pub record DbError : Type 0 where
  pub code : Option ℕ
  pub text : String

-- `isSQLiteBusy`
unfoldable pub is_sqlite_busy : (String → String → Bool) → DbError → Bool
is_sqlite_busy holds e = elim e.code [
  | some n ↦ eqb n 5
  | none ↦ holds e.text "SQLITE_BUSY" || holds e.text "database is locked"
]

-- An attempt: what `readJournalMode` returns, whether the budget is spent by then, and whether the
-- context ends during the wait that would follow.
pub record Attempt : Type 0 where
  pub answer : DbError ⊎ String
  pub late : Bool
  pub cancelled : Bool

pub data WalResult : Type 0 where
  enabled interrupted : WalResult
  other_mode : String → WalResult
  refused gave_up : DbError → WalResult

module _ (busy : DbError → Bool) (is_wal : String → Bool) (tries : ℕ → Attempt) where
  -- The loop of `ensureWAL` from attempt `i` on, with `n` further attempts behind it; the number is of
  -- the attempts made.
  unfoldable pub ensure_from : ℕ → ℕ → WalResult × ℕ
  ensure_from zero i = elim (tries i).answer [
    | inr mode ↦ if not (is_wal mode) then (other_mode mode, 1) else (enabled, 1)
    | inl e ↦ if not (busy e) then (refused e, 1) else (gave_up e, 1)
  ]
  ensure_from (suc n) i =
      let (r, k) = ensure_from n (suc i) in
      elim (tries i).answer [
        | inr mode ↦ if not (is_wal mode) then (other_mode mode, 1) else (enabled, 1)
        | inl e ↦
            if not (busy e)
            then (refused e, 1)
            else if (tries i).late
            then (gave_up e, 1)
            else if (tries i).cancelled
            then (interrupted, 1)
            else (r, suc k)
      ]

  -- `ensureWAL`: eight attempts (`walRetryAttempts`).
  unfoldable pub ensure_wal : WalResult × ℕ
  ensure_wal = ensure_from 7 0

  -- An attempt that finds the database busy, with time left and no end of the context, is followed by
  -- another.
  abbrev pub Retried : ℕ → Type 0
  Retried j =
      (e : DbError) × ((tries j).answer ≡ inl e)
      × (busy e ≡ true)
      × ((tries j).late ≡ false)
      × ((tries j).cancelled ≡ false)

  pub ensure_from-bound : (n i : ℕ) → (ensure_from n i).1 ≤ suc n
  unfolding ensure_from
  ensure_from-bound zero i = ground arith
  ensure_from-bound (suc n) i = ground (arith, ensure_from-bound n (suc i))

  pub ensure_from-Retried :
      (k n i : ℕ) (mode : String)
      → k ≤ n
      → ((j : ℕ) → i ≤ j → suc j ≤ i + k → Retried j)
      → (tries (i + k)).answer ≡ inr mode
      → is_wal mode ≡ true
      → ensure_from n i ≡ (enabled, suc k)
  unfolding ensure_from
  ensure_from-Retried zero zero i mode le h e w =
      let q : (tries i).answer ≡ inr mode = ap (λ x. (tries x).answer) (omega arith) ∙ e in cc
  ensure_from-Retried zero (suc n) i mode le h e w =
      let q : (tries i).answer ≡ inr mode = ap (λ x. (tries x).answer) (omega arith) ∙ e in cc
  ensure_from-Retried (suc k) zero i mode le h e w = absurd (omega arith)
  ensure_from-Retried (suc k) (suc n) i mode le h e w =
      let (x, a, b, c, d) = h i (omega arith) (omega arith) in
      let q : (tries (suc i + k)).answer ≡ inr mode =
        ap (λ y. (tries y).answer) (omega arith) ∙ e in
      let z =
        ensure_from-Retried k n (suc i) mode (omega arith)
          (λ j p s. h j (omega arith) (omega arith)) q w in
      cc

  -- Whatever the attempts meet, `ensureWAL` ends after at most eight of them.
  pub ensure_wal_bounded : ensure_wal.1 ≤ 8
  unfolding ensure_wal
  ensure_wal_bounded = ensure_from-bound 7 0

  -- `ensureWAL` succeeds at an attempt that reads the mode "wal", if that is one of the eight and each
  -- before it found the database busy, in time and with the context alive.
  pub ensure_wal_succeeds :
      (k : ℕ) (mode : String)
      → k ≤ 7
      → ((j : ℕ) → suc j ≤ k → Retried j)
      → (tries k).answer ≡ inr mode
      → is_wal mode ≡ true
      → (ensure_wal.0 ≡ enabled) × (ensure_wal.1 ≡ suc k)
  unfolding ensure_wal
  ensure_wal_succeeds k mode le h e w =
      let q : (tries (0 + k)).answer ≡ inr mode = ap (λ x. (tries x).answer) (omega arith) ∙ e in
      let z = ensure_from-Retried k 7 0 mode le (λ j p s. h j (omega arith)) q w in
      (ap (λ x. x.0) z, ap (λ x. x.1) z)
