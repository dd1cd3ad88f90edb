-- ===== src/Bus/Sqlite/History.antt =====
-- pkg/bus/sqlite/history.go: reading the log as an observer. `History` reads all of it behind a key;
-- `Tail` reads it again and again, and sends what is new.
pub mod Exact
use parallel_consciousness.Prelude.{
  ℕ, zero, suc, String, ◌⊎◌, inl, inr, Bool, true, false, Option, none, some, List, [], ◌∷◌, ◌++◌,
  if◌then◌else◌, ltb, keep,
}
use parallel_consciousness.Protocol.{Message}
use parallel_consciousness.Bus.Sqlite.{Stored, Codec, build_message}

-- `Record`
pub record Record : Type 0 where
  pub seq : ℕ
  pub msg : Message

-- The error of a read: of the query behind a key, of a scan, of the decoding of a row, of `rows.Err`.
pub data ReadError : Type 0 where
  read_from : ℕ → ReadError
  scan_row : ReadError
  decode_row : ℕ → String → ReadError
  iterate_rows : ReadError

-- What fails in one read: the query, the scan of each row, counted from 0, and the iteration.
pub record Faults : Type 0 where
  pub query : Bool
  pub scan : ℕ → Bool
  pub iterate : Bool

-- The loop of `History` over its rows.
unfoldable pub read_rows : Codec → Faults → ℕ → List Stored → ReadError ⊎ List Record
read_rows c f i [] = if f.iterate then inl iterate_rows else inr []
read_rows c f i (r ∷ rs) =
    let rest = read_rows c f (suc i) rs in
    if f.scan i then inl scan_row else elim (build_message c r.columns) [
      | inl e ↦ inl (decode_row r.seq e)
      | inr m ↦ elim rest [
        | inl e ↦ inl e
        | inr recs ↦ inr ((record { seq = r.seq; msg = m }) ∷ recs)
      ]
    ]

-- `History`
unfoldable pub history : Codec → Faults → ℕ → List Stored → ReadError ⊎ List Record
history c f from rows =
    let found = read_rows c f 0 (keep (λ r. ltb from r.seq) rows) in
    if f.query then inl (read_from from) else found

-- The goroutine of `Tail`: what it sent, whether it has closed its channel, and the error it reported.
pub record Tailing : Type 0 where
  pub cursor : ℕ
  pub sent : List Record
  pub ended : Bool
  pub reported : Option ReadError

-- `Tail`, up to its goroutine's loop.
unfoldable pub tail : ℕ → Tailing
tail from = record { cursor = from; sent = []; ended = false; reported = none }

-- The loop over the records read; the context ends or the bus closes when `room` of them are sent.
unfoldable pub send_records : ℕ → List Record → Tailing → Tailing
send_records room [] t = t
send_records zero (r ∷ rs) t = record t { ended = true }
send_records (suc room) (r ∷ rs) t =
    send_records room rs (record t { cursor = r.seq; sent = t.sent ++ r ∷ [] })

-- What happens to a tail: a turn of its loop, where `stopping` says that the context has ended or the
-- bus is closed when a read fails; or one of the two while it waits for its next turn.
pub data TailEvent : Type 0 where
  turns : Faults → Bool → ℕ → TailEvent
  stops : TailEvent

unfoldable pub tail_step : Codec → TailEvent → List Stored → Tailing → Tailing
tail_step c stops rows t = record t { ended = true }
tail_step c (turns f stopping room) rows t =
    let read = history c f t.cursor rows in
    if t.ended then t else elim read [
      | inl e ↦ record t { ended = true; reported = if stopping then none else some e }
      | inr recs ↦ send_records room recs t
    ]
