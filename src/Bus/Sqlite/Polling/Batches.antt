-- ===== src/Bus/Sqlite/Polling/Batches.antt =====
-- What a batch sends when nothing fails, and what is left of one that fails
-- (`deliverBatch` and `poll_` of pkg/bus/sqlite/sqlite.go).
use mathlib.Core.List.{append-nil, append_assoc}
use parallel_consciousness.Prelude.{
  ℕ, suc, ◌+◌, ◌≤◌, ◌≡◌, ap, ◌∙◌, Bool, true, false, List, [], ◌∷◌, ◌++◌, arith, length, Bool-cases,
  Sum-cases, inl, inr, ltb,
}
use parallel_consciousness.Protocol.{Message}
use parallel_consciousness.Bus.Sqlite.{
  Stored, Codec, Store, build_message, select_query, save_cursor,
}
use parallel_consciousness.Bus.Sqlite.Polling.{
  Fate, passes, Batch, Subscriber, pass_row, deliver_rows, deliver_batch, poll,
}

-- The messages of the rows that decode, in order.
abbrev pub decoded : Codec → List Stored → List Message
decoded c [] = []
decoded c (r ∷ rs) = elim (build_message c r.columns) [
  | inl e ↦ decoded c rs
  | inr m ↦ m ∷ decoded c rs
]

-- The key of the last row.
abbrev pub last_seq : ℕ → List Stored → ℕ
last_seq n [] = n
last_seq n (r ∷ rs) = last_seq r.seq rs

pub deliver_rows-passes :
    (c : Codec) (fate : ℕ → Fate) (i : ℕ) (rows : List Stored) (b : Batch)
    → ((k : ℕ) → fate k ≡ passes)
    → deliver_rows c fate false i rows b ≡ record {
      count = b.count + length rows;
      last = last_seq b.last rows;
      failed = false;
      sent = b.sent ++ decoded c rows;
    }
unfolding deliver_rows pass_row
deliver_rows-passes c fate i [] b h =
    let z = append-nil b.sent in let w : b.count + 0 ≡ b.count = omega arith in cc
deliver_rows-passes c fate i (r ∷ rs) b h =
    let f = h i in
    let rec = deliver_rows-passes c fate (suc i) rs (pass_row c r b) h in
    elim (Sum-cases (build_message c r.columns)) [
      | inl (e, p) ↦ let w : suc b.count + length rs ≡ b.count + suc (length rs) = omega arith in cc
      | inr (m, p) ↦
          let w : suc b.count + length rs ≡ b.count + suc (length rs) = omega arith in
          let z = append_assoc b.sent (m ∷ []) (decoded c rs) in cc
    ]

-- A failed batch sends what it could, and moves nothing else.
pub poll_failed :
    (c : Codec) (batch : ℕ) (fate : ℕ → Fate) (broken unsaved : Bool) (u : Subscriber) (s : Store)
    → (deliver_batch c batch fate broken u s.messages).failed ≡ true
    → poll c batch fate broken unsaved u s ≡ (
      record u { received = u.received ++ (deliver_batch c batch fate broken u s.messages).sent },
      s,
    )
unfolding poll
poll_failed c batch fate broken unsaved u s e = cc

-- What a turn without a failure has received.
pub poll_received :
    (c : Codec) (batch : ℕ) (fate : ℕ → Fate) (unsaved : Bool) (u : Subscriber) (s : Store)
    → ((k : ℕ) → fate k ≡ passes)
    → (poll c batch fate false unsaved u s).0.received
      ≡ u.received ++ decoded c (select_query u.agent u.topics u.cursor batch s.messages)
unfolding poll deliver_batch
poll_received c batch fate unsaved u s h =
    let rows = select_query u.agent u.topics u.cursor batch s.messages in
    let start : Batch = record { count = 0; last = u.cursor; failed = false; sent = [] } in
    let z = deliver_rows-passes c fate 0 rows start h in
    elim (Bool-cases (ltb u.cursor (last_seq u.cursor rows))) [ inl q ↦ cc | inr q ↦ cc ]

-- A turn without a failure: the cursor moves to the batch's last key, and the log stays.
pub poll_healthy :
    (c : Codec) (batch : ℕ) (fate : ℕ → Fate) (unsaved : Bool) (u : Subscriber) (s : Store)
    → ((k : ℕ) → fate k ≡ passes)
    → let rows = select_query u.agent u.topics u.cursor batch s.messages in
      u.cursor ≤ last_seq u.cursor rows
      → ((poll c batch fate false unsaved u s).0
          ≡ record u { cursor = last_seq u.cursor rows; received = u.received ++ decoded c rows })
        × ((poll c batch fate false unsaved u s).1.messages ≡ s.messages)
        × ((poll c batch fate false unsaved u s).1.last_key ≡ s.last_key)
unfolding poll deliver_batch save_cursor
poll_healthy c batch fate unsaved u s h le =
    let rows = select_query u.agent u.topics u.cursor batch s.messages in
    let start : Batch = record { count = 0; last = u.cursor; failed = false; sent = [] } in
    let z = deliver_rows-passes c fate 0 rows start h in
    elim (Bool-cases (ltb u.cursor (last_seq u.cursor rows))) [
      | inl q ↦ elim (Bool-cases unsaved) [ inl v ↦ (cc, cc, cc) | inr v ↦ (cc, cc, cc) ]
      | inr q ↦ let w : last_seq u.cursor rows ≡ u.cursor = ground arith in (cc, cc, cc)
    ]

-- A batch that fails moves no cursor, so the next turn that does not fail, with nothing published or
-- removed in between, sends the whole batch again behind what the failed one has sent.
pub failed_batch_resent :
    (c : Codec) (batch : ℕ) (fate healthy : ℕ → Fate) (broken unsaved unsaved' : Bool)
    (u : Subscriber) (s : Store)
    → (deliver_batch c batch fate broken u s.messages).failed ≡ true
    → ((k : ℕ) → healthy k ≡ passes)
    → let first = poll c batch fate broken unsaved u s in
      let second = poll c batch healthy false unsaved' first.0 first.1 in
      (first.1 ≡ s)
      × (first.0.cursor ≡ u.cursor)
      × (second.0.received
          ≡ u.received
            ++ (deliver_batch c batch fate broken u s.messages).sent
            ++ decoded c (select_query u.agent u.topics u.cursor batch s.messages))
failed_batch_resent c batch fate healthy broken unsaved unsaved' u s e h =
    let sent = (deliver_batch c batch fate broken u s.messages).sent in
    let u' = record u { received = u.received ++ sent } in
    let rows = select_query u.agent u.topics u.cursor batch s.messages in
    let p = poll_failed c batch fate broken unsaved u s e in
    let q = poll_received c batch healthy unsaved' u' s h in
    let a = append_assoc u.received sent (decoded c rows) in
    (
      ap (λ x. x.1) p,
      ap (λ x. x.0.cursor) p,
      ap (λ x. (poll c batch healthy false unsaved' x.0 x.1).0.received) p ∙ q,
    )
