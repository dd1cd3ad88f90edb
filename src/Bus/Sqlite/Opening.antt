-- ===== src/Bus/Sqlite/Opening.antt =====
-- The opening and the closing of a bus (`Option`, `Open`, `OpenDB`, `Close` and `walBackoff` of
-- pkg/bus/sqlite/sqlite.go). Which calls of the driver fail is an input; error hooks are a parameter.
use Prim.Native.Nat.{◌^◌}
use parallel_consciousness.Prelude.{
  ℕ, zero, suc, ◌+◌, ◌*◌, ◌%◌, ◌-◌, ◌≤◌, String, ◌<>◌, ◌≡◌, refl, ap, ◌∙◌, Bool, true, false, ◌||◌,
  Option, none, some, List, [], ◌∷◌, ◌++◌, if◌then◌else◌, ltb, leb, eqb, arith, ◌⊎◌, inl, inr,
}
use parallel_consciousness.Prelude.Int.{ℤ, pos}
use parallel_consciousness.Bus.Sqlite.Wal.{
  DbError, Attempt, WalResult, enabled, interrupted, other_mode, refused, gave_up, ensure_wal,
}

-- The fields of `Bus` that options set.
pub record Settings (H : Type 0) : Type 0 where
  pub poll_interval : ℤ
  pub batch : ℤ
  pub on_err : H
  pub replay_zero : Bool

-- The options, by the functions that make them.
pub data Setting (H : Type 0) : Type 0 where
  with_poll_interval : ℤ → Setting H
  with_batch_size : ℤ → Setting H
  with_error_hook : H → Setting H
  with_replay_from_zero : Setting H

-- What an option does to a bus.
set : {H : Type 0} → Setting H → Settings H → Settings H
set (with_poll_interval d) b = record b { poll_interval = d }
set (with_batch_size n) b = record b { batch = n }
set (with_error_hook hook) b = record b { on_err = hook }
set with_replay_from_zero b = record b { replay_zero = true }

-- `for _, o := range opts`
pub set_all : {H : Type 0} → List (Setting H) → Settings H → Settings H
set_all [] b = b
set_all (o ∷ os) b = set_all os (set o b)

-- The bus that `Open` starts from; `log` is the hook that prints.
abbrev pub default_settings : {H : Type 0} → H → Settings H
default_settings log = record {
  poll_interval = pos 25000000;
  batch = pos 256;
  on_err = log;
  replay_zero = false;
}

-- A call of the driver; a failed `sql.Open` gives no handle and is not among them. `wal_set` holds the
-- number of attempts.
pub data DbCall : Type 0 where
  db_opened : String → DbCall
  db_pinged schema_run db_closed : DbCall
  wal_set : ℕ → DbCall

pub data OpenError : Type 0 where
  open_failed connect_failed : String → OpenError
  wal_failed : String → WalResult → OpenError
  schema_failed : OpenError

-- The calls of the driver that fail.
pub record Failures : Type 0 where
  pub open_fails : Bool
  pub ping_fails : Bool
  pub schema_fails : Bool

-- The DSN of `OpenDB`.
abbrev dsn : String → String
dsn path = "file:" <> path <> "?_pragma=busy_timeout(5000)&_pragma=synchronous(NORMAL)"

-- `ensureWAL` returns no error.
is_enabled : WalResult → Bool
is_enabled enabled = true
is_enabled interrupted = false
is_enabled (other_mode mode) = false
is_enabled (refused e) = false
is_enabled (gave_up e) = false

-- `OpenDB`, given what `ensureWAL` comes to: the calls it makes, and its error.
open_db : Failures → WalResult × ℕ → String → List DbCall × Option OpenError
open_db f (r, n) path =
    if f.open_fails
    then ([], some (open_failed path))
    else if f.ping_fails
    then (db_opened (dsn path) ∷ db_pinged ∷ db_closed ∷ [], some (connect_failed path))
    else if is_enabled r
    then (db_opened (dsn path) ∷ db_pinged ∷ wal_set n ∷ [], none)
    else (db_opened (dsn path) ∷ db_pinged ∷ wal_set n ∷ db_closed ∷ [], some (wal_failed path r))

-- `Open`: the calls of the driver, and the error or the bus.
pub open_bus :
    {H : Type 0}
    → Failures
    → WalResult × ℕ
    → H
    → String
    → List (Setting H)
    → List DbCall × (OpenError ⊎ Settings H)
open_bus f wal log path opts =
    let (calls, e) = open_db f wal path in
    elim e [
      | some x ↦ (calls, inl x)
      | none ↦
          if f.schema_fails
          then (calls ++ schema_run ∷ db_closed ∷ [], inl schema_failed)
          else (calls ++ schema_run ∷ [], inr (set_all opts (default_settings log)))
    ]

-- What `Close` changes: `closeOnce`, how often `closed` is closed, and how often the database.
record Closing : Type 0 where
  pub once : Bool
  pub channel : ℕ
  pub database : ℕ

-- `Close`
unfoldable close_bus : Closing → Closing
close_bus c =
    if c.once
    then record c { database = suc c.database }
    else record { once = true; channel = suc c.channel; database = suc c.database }

-- The longest wait behind an attempt, in nanoseconds: `base` in `walBackoff`, a signed number of 64
-- bits.
unfoldable wal_ceiling : ℕ → ℕ
wal_ceiling attempt =
    let base = (15000000 * 2 ^ attempt) % 2 ^ 64 in
    if eqb base 0 || leb (2 ^ 63) base || ltb 250000000 base then 250000000 else base

-- `walBackoff`; `draw` is `rand.Int63n`.
unfoldable wal_backoff : (ℕ → ℕ) → ℕ → ℕ
wal_backoff draw attempt = draw (suc (wal_ceiling attempt))

-- How many handles are open behind some calls, from `n` open ones.
pub handles : ℕ → List DbCall → ℕ
handles n [] = n
handles n (db_opened path ∷ calls) = handles (suc n) calls
handles n (db_closed ∷ calls) = handles (n - 1) calls
handles n (db_pinged ∷ calls) = handles n calls
handles n (schema_run ∷ calls) = handles n calls
handles n (wal_set k ∷ calls) = handles n calls

-- What an opening that has made some calls may return: an error with no handle left open, or the bus
-- that the options configure, on one open handle of a database that is in WAL mode.
abbrev pub Owned :
    {H : Type 0} → WalResult × ℕ → Settings H → List DbCall × (OpenError ⊎ Settings H) → Type 0
Owned wal b r =
    ((x : OpenError) × (r.1 ≡ inl x) × (handles 0 r.0 ≡ 0))
    ⊎ ((r.1 ≡ inr b) × (handles 0 r.0 ≡ 1) × (wal.0 ≡ enabled))

open_bus-cases :
    {H : Type 0} (o p s : Bool) (w : WalResult) (n : ℕ) (log : H) (path : String)
    (opts : List (Setting H))
    → Owned
        (w, n)
        (set_all opts (default_settings log))
        (open_bus
          (record { open_fails = o; ping_fails = p; schema_fails = s })
          (w, n)
          log
          path
          opts)
unfolding open_bus open_db handles is_enabled
open_bus-cases true p s w n log path opts = inl (_, refl, refl)
open_bus-cases false true s w n log path opts = inl (_, refl, refl)
open_bus-cases false false true enabled n log path opts = inl (_, refl, refl)
open_bus-cases false false false enabled n log path opts = inr (refl, refl, refl)
open_bus-cases false false s interrupted n log path opts = inl (_, refl, refl)
open_bus-cases false false s (other_mode mode) n log path opts = inl (_, refl, refl)
open_bus-cases false false s (refused e) n log path opts = inl (_, refl, refl)
open_bus-cases false false s (gave_up e) n log path opts = inl (_, refl, refl)

-- Whichever calls of the driver fail and whatever the attempts to set the mode meet, `Open` leaves no
-- handle behind an error, and a bus that it returns is the one that the options configure, over
-- exactly one open handle of a database for which `ensureWAL` has read the mode "wal".
pub open_bus-Owned :
    {H : Type 0} (busy : DbError → Bool) (is_wal : String → Bool) (tries : ℕ → Attempt)
    (f : Failures) (log : H) (path : String) (opts : List (Setting H))
    → Owned
        (ensure_wal busy is_wal tries)
        (set_all opts (default_settings log))
        (open_bus f (ensure_wal busy is_wal tries) log path opts)
open_bus-Owned busy is_wal tries f log path opts =
    let (w, n) = ensure_wal busy is_wal tries in
    open_bus-cases f.open_fails f.ping_fails f.schema_fails w n log path opts

-- `n` calls of `Close`.
unfoldable close_times : ℕ → Closing → Closing
close_times zero c = c
close_times (suc n) c = close_times n (close_bus c)

-- A bus whose database has been closed `k` times.
abbrev closed_by : ℕ → Closing
closed_by k = record { once = true; channel = 1; database = k }

close_times-once : (n k : ℕ) → close_times n (closed_by k) ≡ closed_by (k + n)
unfolding close_times close_bus
close_times-once zero k = ap closed_by (omega arith)
close_times-once (suc n) k = close_times-once n (suc k) ∙ ap closed_by (omega arith)

-- However often a bus is closed, its channel is closed once, so that no call panics.
closed_once :
    (n : ℕ)
    → close_times (suc n) (record { once = false; channel = 0; database = 0 })
      ≡ record { once = true; channel = 1; database = suc n }
unfolding close_times close_bus
closed_once n = close_times-once n 1 ∙ ap closed_by (omega arith)

-- No attempt, however late, has a ceiling above the cap.
wal_ceiling-le : (attempt : ℕ) → wal_ceiling attempt ≤ 250000000
unfolding wal_ceiling
wal_ceiling-le attempt = ground arith

first_ceilings :
    (wal_ceiling 0 ≡ 15000000)
    × (wal_ceiling 1 ≡ 30000000)
    × (wal_ceiling 2 ≡ 60000000)
    × (wal_ceiling 3 ≡ 120000000)
unfolding wal_ceiling
first_ceilings = (refl, refl, refl, refl)

-- The sum of the waits behind the first `n` attempts.
unfoldable waited : (ℕ → ℕ → ℕ) → ℕ → ℕ
waited draw zero = 0
waited draw (suc n) = wal_backoff (draw n) n + waited draw n

-- The seven waits of `ensureWAL` take less than one second together, whatever is drawn, so they leave
-- half of its budget of two seconds to the statements.
waits_within_budget :
    (draw : ℕ → ℕ → ℕ) → ((i n : ℕ) → draw i (suc n) ≤ n) → waited draw 7 ≤ 975000000
unfolding waited wal_backoff
waits_within_budget draw h =
    let b : (i : ℕ) → draw i (suc (wal_ceiling i)) ≤ wal_ceiling i = λ i. h i (wal_ceiling i) in
    let (c0, c1, c2, c3) = first_ceilings in
    omega (
      arith,
      b 0,
      b 1,
      b 2,
      b 3,
      b 4,
      b 5,
      b 6,
      wal_ceiling-le 4,
      wal_ceiling-le 5,
      wal_ceiling-le 6,
    )
