-- ===== src/Bus/Sqlite/Polling/Delivery.antt =====
-- A subscription over a log that grows: every message addressed to it, once, in order
-- (pkg/bus/sqlite/sqlite.go).
use parallel_consciousness.Prelude.{
  ℕ, suc, ◌≤◌, String, ◌≡◌, refl, sym, ap, subst, ◌⊎◌, ◌∙◌, Bool, false, List, [], ◌∷◌, ◌++◌, arith,
  Sum-cases, inl, inr, Option, none, some,
}
use parallel_consciousness.Protocol.{Message}
use parallel_consciousness.Bus.Sqlite.{
  Stored, Codec, Store, build_message, select_query, addressed, publish, encode,
}
use parallel_consciousness.Bus.Sqlite.Polling.{Fate, passes, Subscriber, poll}
use parallel_consciousness.Bus.Sqlite.Polling.Batches.{decoded, last_seq, poll_healthy}
use parallel_consciousness.Bus.Sqlite.Polling.Ranges.{
  Ascending, between, Bounded, append-Ascending, between-append, last_seq-Bounded, last_seq-above,
  batch_extends,
}

pub decoded-append :
    (c : Codec) (xs ys : List Stored) → decoded c (xs ++ ys) ≡ decoded c xs ++ decoded c ys
decoded-append c [] ys = refl
decoded-append c (r ∷ rs) ys =
    let z = decoded-append c rs ys in
    elim (Sum-cases (build_message c r.columns)) [ inl (e, q) ↦ cc | inr (m, q) ↦ cc ]

-- What happens to the log while a subscriber reads it: a message is published, its insert failing or
-- not, or the subscriber takes a turn that saves its cursor or fails to.
pub data Turn : Type 0 where
  publishes : Message → Option String → Turn
  polls : Bool → Turn

abbrev pub healthy : ℕ → Fate
healthy k = passes

module _ (c : Codec) (batch : ℕ) where
  unfoldable pub take_turn : Turn → Subscriber × Store → Subscriber × Store
  take_turn (publishes m fault) (u, s) = (u, (publish c m fault s).1)
  take_turn (polls unsaved) (u, s) = poll c batch healthy false unsaved u s

  unfoldable pub take_turns : List Turn → Subscriber × Store → Subscriber × Store
  take_turns [] s = s
  take_turns (t ∷ ts) s = take_turns ts (take_turn t s)

  -- The log is in order of its keys up to the last one given, and the subscriber, which began behind
  -- key `a`, has received the messages for it up to its cursor.
  pub record UpTo (a : ℕ) (u : Subscriber) (s : Store) : Type 0 where
    pub ordered : Ascending 0 s.messages
    pub bounded : Bounded s.last_key s.messages
    pub started : a ≤ u.cursor
    pub reached : u.cursor ≤ s.last_key
    pub exact : u.received ≡ decoded c (between (addressed u.agent u.topics) a u.cursor s.messages)

  -- The store after a publish: as it was, or with a row under a new key.
  pub publish-cases :
      (m : Message) (fault : Option String) (s : Store)
      → ((publish c m fault s).1 ≡ s)
        ⊎ ((row : Stored) × (row.seq ≡ suc s.last_key)
            × ((publish c m fault s).1
                ≡ record s { messages = s.messages ++ row ∷ []; last_key = suc s.last_key }))
  unfolding publish
  publish-cases m (some e) s = elim (Sum-cases (encode c m)) [
    | inl (x, q) ↦ inl cc
    | inr (r, q) ↦ inl cc
  ]
  publish-cases m none s = elim (Sum-cases (encode c m)) [
    | inl (x, q) ↦ inl cc
    | inr (r, q) ↦ inr (record { seq = suc s.last_key; columns = r }, refl, cc)
  ]

  pub publish-UpTo :
      (a : ℕ) (m : Message) (fault : Option String) (u : Subscriber) (s : Store)
      → UpTo a u s
      → UpTo a u (publish c m fault s).1
  publish-UpTo a m fault u s h = elim (publish-cases m fault s) [
    | inl q ↦ subst (UpTo a u) (sym q) h
    | inr (row, e, q) ↦
        let p = addressed u.agent u.topics in
        let k = s.last_key in
        let (o, b) = append-Ascending 0 k s.messages row h.ordered h.bounded (omega arith) e in
        let z = between-append p a u.cursor k s.messages row h.reached e in
        let next : UpTo a u (record s { messages = s.messages ++ row ∷ []; last_key = suc k }) =
          record {
            ordered = o;
            bounded = b;
            started = h.started;
            reached = let r = h.reached in omega arith;
            exact = h.exact ∙ ap (decoded c) (sym z);
          } in
        subst (UpTo a u) (sym q) next
  ]

  pub poll-UpTo :
      (a : ℕ) (unsaved : Bool) (u : Subscriber) (s : Store)
      → UpTo a u s
      → UpTo a (poll c batch healthy false unsaved u s).0 (poll c batch healthy false unsaved u s).1
  unfolding select_query
  poll-UpTo a unsaved u s h =
      let p = addressed u.agent u.topics in
      let rows = select_query u.agent u.topics u.cursor batch s.messages in
      let le = last_seq-above p u.cursor 0 batch s.messages h.ordered in
      let (x, y, z) = poll_healthy c batch healthy unsaved u s (λ k. refl) le in
      let s' = (poll c batch healthy false unsaved u s).1 in
      let more = batch_extends p a u.cursor 0 batch s.messages h.started h.ordered in
      let v : Subscriber = record u {
        cursor = last_seq u.cursor rows;
        received = u.received ++ decoded c rows;
      } in
      let got : v.received ≡ decoded c (between p a v.cursor s.messages) =
        ap (λ l. l ++ decoded c rows) h.exact
        ∙ sym (decoded-append c (between p a u.cursor s.messages) rows)
        ∙ ap (decoded c) (sym more) in
      let next : UpTo a v s' = record {
        ordered = subst (Ascending 0) (sym y) h.ordered;
        bounded =
            subst (λ l. Bounded l s'.messages) (sym z)
              (subst (Bounded s.last_key) (sym y) h.bounded);
        started = let w = h.started in omega (arith, w, le);
        reached =
            subst (λ l. v.cursor ≤ l) (sym z)
              (last_seq-Bounded p u.cursor u.cursor s.last_key batch s.messages h.reached
                h.bounded);
        exact = got ∙ ap (λ l. decoded c (between p a v.cursor l)) (sym y);
      } in
      subst (λ w. UpTo a w s') (sym x) next

  take_turn-UpTo :
      (a : ℕ) (t : Turn) (u : Subscriber) (s : Store)
      → UpTo a u s
      → UpTo a (take_turn t (u, s)).0 (take_turn t (u, s)).1
  unfolding take_turn
  take_turn-UpTo a (publishes m fault) u s h = publish-UpTo a m fault u s h
  take_turn-UpTo a (polls unsaved) u s h = poll-UpTo a unsaved u s h

  -- From a state in which the subscriber has received exactly the messages for it up to its cursor,
  -- any publishes, failed ones too, and any turns without a failed batch lead to such a state: each
  -- message addressed to it that decodes, from behind key `a` up to its cursor, is received once and
  -- in the order of the log.
  pub delivered_exact :
      (a : ℕ) (ts : List Turn) (u : Subscriber) (s : Store)
      → UpTo a u s
      → UpTo a (take_turns ts (u, s)).0 (take_turns ts (u, s)).1
  unfolding take_turns
  delivered_exact a [] u s h = h
  delivered_exact a (t ∷ ts) u s h =
      let (u', s') = take_turn t (u, s) in delivered_exact a ts u' s' (take_turn-UpTo a t u s h)
