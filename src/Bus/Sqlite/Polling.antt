-- ===== src/Bus/Sqlite/Polling.antt =====
-- The poller of pkg/bus/sqlite/sqlite.go: a batch (`deliverBatch`), and a turn of the loop of `poll_`.
pub mod Batches
pub mod Ranges
pub mod Delivery
use parallel_consciousness.Prelude.{
  ℕ, suc, String, Bool, true, false, List, [], ◌∷◌, ◌++◌, if◌then◌else◌, ltb, inl, inr,
}
use parallel_consciousness.Protocol.{Message}
use parallel_consciousness.Bus.Sqlite.{
  Columns, Stored, Codec, Store, build_message, select_query, save_cursor, publish,
}

-- What becomes of a row of a batch: it is read and, if it decodes, sent; its `Scan` fails; or the
-- context or the bus ends while its message waits for room in the channel.
pub data Fate : Type 0 where
  passes unscanned stopped : Fate

-- The results of `deliverBatch`, and the messages that it sent.
pub record Batch : Type 0 where
  pub count : ℕ
  pub last : ℕ
  pub failed : Bool
  pub sent : List Message

-- `b.onErr` and `out <- m`, either of which moves the batch past the row; `none` is a row that does not
-- decode.
unfoldable pub pass_row : Codec → Stored → Batch → Batch
pass_row c r b = elim (build_message c r.columns) [
  | inl e ↦ record b { count = suc b.count; last = r.seq }
  | inr m ↦ record b { count = suc b.count; last = r.seq; sent = b.sent ++ m ∷ [] }
]

-- The loop of `deliverBatch` over its rows. `fate` says what becomes of each, counted from 0, and
-- `broken` whether `rows.Err` reports an error. A row that does not decode never waits for room.
unfoldable pub deliver_rows : Codec → (ℕ → Fate) → Bool → ℕ → List Stored → Batch → Batch
deliver_rows c fate broken i [] b = record b { failed = broken }
deliver_rows c fate broken i (r ∷ rs) b =
    let rest = deliver_rows c fate broken (suc i) rs (pass_row c r b) in
    elim (fate i) [
      | passes ↦ rest
      | unscanned ↦ record b { failed = true }
      | stopped ↦ elim (build_message c r.columns) [
        | inl e ↦ rest
        | inr m ↦ record b { failed = true }
      ]
    ]

-- A subscription.
pub record Subscriber : Type 0 where
  pub agent : String
  pub topics : List String
  pub cursor : ℕ
  pub received : List Message

-- `deliverBatch`, its query not failing.
unfoldable pub deliver_batch : Codec → ℕ → (ℕ → Fate) → Bool → Subscriber → List Stored → Batch
deliver_batch c batch fate broken u rows =
    deliver_rows c fate broken 0 (select_query u.agent u.topics u.cursor batch rows)
      (record { count = 0; last = u.cursor; failed = false; sent = [] })

-- A turn of the loop of `poll_`. A failed batch moves neither cursor, though what it sent is sent.
unfoldable pub poll : Codec → ℕ → (ℕ → Fate) → Bool → Bool → Subscriber → Store → Subscriber × Store
poll c batch fate broken unsaved u s =
    let b = deliver_batch c batch fate broken u s.messages in
    let u' = record u { received = u.received ++ b.sent } in
    if b.failed
    then (u', s)
    else if ltb u.cursor b.last
    then (record u' { cursor = b.last }, save_cursor u.agent b.last unsaved s)
    else (u', s)
