-- ===== src/Bus/Sqlite/History/Exact.antt =====
-- What a tail sends over a log that grows, and what stops it (pkg/bus/sqlite/history.go).
use mathlib.Core.List.{append-nil, append_assoc}
use parallel_consciousness.Prelude.{
  ℕ, zero, suc, ◌<◌, ◌≤◌, String, ◌≡◌, refl, sym, subst, inl, inr, Bool, true, Option, List, [],
  ◌∷◌, ◌++◌, arith, ltb, keep, keep-append, take, take-nil, Bool-cases, Sum-cases,
}
use parallel_consciousness.Protocol.{Message}
use parallel_consciousness.Bus.Sqlite.{Columns, Stored, Codec, Store, build_message, publish}
use parallel_consciousness.Bus.Sqlite.Polling.Batches.{last_seq}
use parallel_consciousness.Bus.Sqlite.Polling.Ranges.{
  Ascending, between, above, Bounded, append-Ascending, between-append, last_seq-Bounded,
  last_seq-above, batch_extends,
}
use parallel_consciousness.Bus.Sqlite.Polling.Delivery.{publish-cases}
use parallel_consciousness.Bus.Sqlite.History.{
  Record, ReadError, read_from, scan_row, decode_row, Faults, read_rows, history, Tailing,
  send_records, TailEvent, turns, stops, tail_step,
}

-- The records are those of the rows: each row's key and its message, in order, no row left out.
abbrev pub Reads : Codec → List Stored → List Record → Type 0
Reads c [] [] = Unit
Reads c [] (x ∷ xs) = ⊥
Reads c (r ∷ rs) [] = ⊥
Reads c (r ∷ rs) (x ∷ xs) =
    (x.seq ≡ r.seq) × (build_message c r.columns ≡ inr x.msg) × Reads c rs xs

-- The observer's test of a row, which all pass.
abbrev pub any_row : Columns → Bool
any_row r = true

module _ (c : Codec) where
  pub read_rows-Reads :
      (f : Faults) (i : ℕ) (rows : List Stored) (recs : List Record)
      → read_rows c f i rows ≡ inr recs
      → Reads c rows recs
  unfolding read_rows
  read_rows-Reads f i [] [] e = tt
  read_rows-Reads f i [] (x ∷ xs) e = elim (Bool-cases f.iterate) [
    | inl q ↦ absurd cc
    | inr q ↦ absurd cc
  ]
  read_rows-Reads f i (r ∷ rs) recs e = elim (Bool-cases (f.scan i)) [
    | inl q ↦ absurd cc
    | inr q ↦ elim (Sum-cases (build_message c r.columns)) [
      | inl (x, d) ↦ absurd cc
      | inr (m, d) ↦ elim (Sum-cases (read_rows c f (suc i) rs)) [
        | inl (x, g) ↦ absurd cc
        | inr (l, g) ↦
            let z : (record { seq = r.seq; msg = m }) ∷ l ≡ recs = cc in
            subst (Reads c (r ∷ rs)) z (refl, d, read_rows-Reads f (suc i) rs l g)
      ]
    ]
  ]

  pub Reads-append :
      (rs ss : List Stored) (xs ys : List Record)
      → Reads c rs xs
      → Reads c ss ys
      → Reads c (rs ++ ss) (xs ++ ys)
  Reads-append [] ss [] ys h k = k
  Reads-append [] ss (x ∷ xs) ys h k = absurd h
  Reads-append (r ∷ rs) ss [] ys h k = absurd h
  Reads-append (r ∷ rs) ss (x ∷ xs) ys (a, b, h) k = (a, b, Reads-append rs ss xs ys h k)

  pub Reads-take :
      (n : ℕ) (rs : List Stored) (xs : List Record)
      → Reads c rs xs
      → Reads c (take n rs) (take n xs)
  Reads-take zero rs xs h = tt
  Reads-take (suc n) [] [] h = tt
  Reads-take (suc n) [] (x ∷ xs) h = absurd h
  Reads-take (suc n) (r ∷ rs) [] h = absurd h
  Reads-take (suc n) (r ∷ rs) (x ∷ xs) (a, b, h) = (a, b, Reads-take n rs xs h)

  pub send_records-take :
      (room : ℕ) (rs : List Stored) (xs : List Record) (t : Tailing)
      → Reads c rs xs
      → ((send_records room xs t).sent ≡ t.sent ++ take room xs)
        × ((send_records room xs t).cursor ≡ last_seq t.cursor (take room rs))
  unfolding send_records
  send_records-take room [] [] t h =
      let a = append-nil t.sent in
      let b = take-nil {A = Record} room in let d = take-nil {A = Stored} room in (cc, cc)
  send_records-take room [] (x ∷ xs) t h = absurd h
  send_records-take room (r ∷ rs) [] t h = absurd h
  send_records-take zero (r ∷ rs) (x ∷ xs) t h = let a = append-nil t.sent in (cc, cc)
  send_records-take (suc room) (r ∷ rs) (x ∷ xs) t (a, b, h) =
      let t' : Tailing = record t { cursor = x.seq; sent = t.sent ++ x ∷ [] } in
      let (p, q) = send_records-take room rs xs t' h in
      let z = append_assoc t.sent (x ∷ []) (take room xs) in (cc, cc)

  -- A bad row among those read makes the read fail.
  pub read_rows-undecodable :
      (f : Faults) (i : ℕ) (before after : List Stored) (bad : Stored) (x : String)
      → build_message c bad.columns ≡ inl x
      → (e : ReadError) × (read_rows c f i (before ++ bad ∷ after) ≡ inl e)
  unfolding read_rows
  read_rows-undecodable f i [] after bad x e = elim (Bool-cases (f.scan i)) [
    | inl q ↦ (scan_row, cc)
    | inr q ↦ (decode_row bad.seq x, cc)
  ]
  read_rows-undecodable f i (r ∷ rs) after bad x e =
      let (w, z) = read_rows-undecodable f (suc i) rs after bad x e in
      elim (Bool-cases (f.scan i)) [
        | inl q ↦ (scan_row, cc)
        | inr q ↦ elim (Sum-cases (build_message c r.columns)) [
          | inl (y, d) ↦ (decode_row r.seq y, cc)
          | inr (m, d) ↦ (w, cc)
        ]
      ]

  -- A row behind the key that does not decode makes every read of the log from there fail, and ends a
  -- tail that gets to it without sending a record, where the poller of a subscription skips the row.
  pub undecodable_ends :
      (f : Faults) (stopping : Bool) (room : ℕ) (t : Tailing)
      → (before after : List Stored) (bad : Stored) (x : String) → t.cursor < bad.seq
      → build_message c bad.columns ≡ inl x
      → ((e : ReadError) × (history c f t.cursor (before ++ bad ∷ after) ≡ inl e))
        × ((tail_step c (turns f stopping room) (before ++ bad ∷ after) t).ended ≡ true)
        × ((tail_step c (turns f stopping room) (before ++ bad ∷ after) t).sent ≡ t.sent)
  unfolding history tail_step
  undecodable_ends f stopping room t before after bad x h e =
      let p : Stored → Bool = λ r. ltb t.cursor r.seq in
      let k = keep-append p before (bad ∷ after) in
      let q : p bad ≡ true = ground arith in
      let (w, z) = read_rows-undecodable f 0 (keep p before) (keep p after) bad x e in
      elim (Bool-cases t.ended) [
        | inl a ↦ elim (Bool-cases f.query) [
          | inl b ↦ ((read_from t.cursor, cc), cc, cc)
          | inr b ↦ ((w, cc), cc, cc)
        ]
        | inr a ↦ elim (Bool-cases f.query) [
          | inl b ↦ ((read_from t.cursor, cc), cc, cc)
          | inr b ↦ ((w, cc), cc, cc)
        ]
      ]

  -- What happens to the log while it is followed: a message is published, its insert failing or not, or
  -- the tail takes a step.
  pub data Moment : Type 0 where
    publishes : Message → Option String → Moment
    tails : TailEvent → Moment

  unfoldable pub pass : Moment → Tailing × Store → Tailing × Store
  pass (publishes m fault) (t, s) = (t, (publish c m fault s).1)
  pass (tails e) (t, s) = (tail_step c e s.messages t, s)

  unfoldable pub pass_all : List Moment → Tailing × Store → Tailing × Store
  pass_all [] s = s
  pass_all (e ∷ es) s = pass_all es (pass e s)

  -- The log is in order of its keys up to the last one given, and the tail, which began behind key `a`,
  -- has sent the record of every row up to its cursor.
  pub record Follows (a : ℕ) (t : Tailing) (s : Store) : Type 0 where
    pub ordered : Ascending 0 s.messages
    pub bounded : Bounded s.last_key s.messages
    pub started : a ≤ t.cursor
    pub reached : t.cursor ≤ s.last_key
    pub exact : Reads c (between any_row a t.cursor s.messages) t.sent

  pub publish-Follows :
      (a : ℕ) (m : Message) (fault : Option String) (t : Tailing) (s : Store)
      → Follows a t s
      → Follows a t (publish c m fault s).1
  publish-Follows a m fault t s h = elim (publish-cases c 0 m fault s) [
    | inl q ↦ subst (Follows a t) (sym q) h
    | inr (row, e, q) ↦
        let k = s.last_key in
        let (o, b) = append-Ascending 0 k s.messages row h.ordered h.bounded (omega arith) e in
        let z = between-append any_row a t.cursor k s.messages row h.reached e in
        let next : Follows a t (record s { messages = s.messages ++ row ∷ []; last_key = suc k }) =
          record {
            ordered = o;
            bounded = b;
            started = h.started;
            reached = let r = h.reached in omega arith;
            exact = subst (λ l. Reads c l t.sent) (sym z) h.exact;
          } in
        subst (Follows a t) (sym q) next
  ]

  pub above-any : (n : ℕ) (rows : List Stored) → keep (λ r. ltb n r.seq) rows ≡ above any_row n rows
  above-any n [] = refl
  above-any n (r ∷ rs) =
      let z = above-any n rs in elim (Bool-cases (ltb n r.seq)) [ inl q ↦ cc | inr q ↦ cc ]

  -- Only what a tail has sent and its cursor matter.
  pub Follows-same :
      (a : ℕ) (t t' : Tailing) (s : Store)
      → t'.cursor ≡ t.cursor
      → t'.sent ≡ t.sent
      → Follows a t s
      → Follows a t' s
  Follows-same a t t' s p q h = record {
    ordered = h.ordered;
    bounded = h.bounded;
    started = subst (λ n. a ≤ n) (sym p) h.started;
    reached = subst (λ n. n ≤ s.last_key) (sym p) h.reached;
    exact =
        subst (λ n. Reads c (between any_row a n s.messages) t'.sent) (sym p)
          (subst (Reads c (between any_row a t.cursor s.messages)) (sym q) h.exact);
  }

  pub send-Follows :
      (a room : ℕ) (t : Tailing) (s : Store) (recs : List Record)
      → Follows a t s
      → Reads c (above any_row t.cursor s.messages) recs
      → Follows a (send_records room recs t) s
  send-Follows a room t s recs h k =
      let rows = above any_row t.cursor s.messages in
      let (p, q) = send_records-take room rows recs t k in
      let le = last_seq-above any_row t.cursor 0 room s.messages h.ordered in
      let up =
        last_seq-Bounded any_row t.cursor t.cursor s.last_key room s.messages h.reached h.bounded in
      let more = batch_extends any_row a t.cursor 0 room s.messages h.started h.ordered in
      let all =
        Reads-append (between any_row a t.cursor s.messages) (take room rows) t.sent
          (take room recs) h.exact (Reads-take room rows recs k) in
      let t' : Tailing = record t {
        cursor = last_seq t.cursor (take room rows);
        sent = t.sent ++ take room recs;
      } in
      Follows-same a t' (send_records room recs t) s q p (record {
        ordered = h.ordered;
        bounded = h.bounded;
        started = let w = h.started in omega (arith, w, le);
        reached = up;
        exact = subst (λ l. Reads c l t'.sent) (sym more) all;
      })

  pub tail_step-Follows :
      (a : ℕ) (e : TailEvent) (t : Tailing) (s : Store)
      → Follows a t s
      → Follows a (tail_step c e s.messages t) s
  unfolding tail_step history
  tail_step-Follows a stops t s h = Follows-same a t _ s refl refl h
  tail_step-Follows a (turns f stopping room) t s h = elim (Bool-cases t.ended) [
    | inl q ↦ Follows-same a t (tail_step c (turns f stopping room) s.messages t) s (cc) (cc) h
    | inr q ↦ elim (Sum-cases (history c f t.cursor s.messages)) [
      | inl (x, d) ↦
          Follows-same a t (tail_step c (turns f stopping room) s.messages t) s (cc) (cc) h
      | inr (recs, d) ↦
          let rows = keep (λ r. ltb t.cursor r.seq) s.messages in
          let g : read_rows c f 0 rows ≡ inr recs = elim (Bool-cases f.query) [
            | inl z ↦ absurd cc
            | inr z ↦ cc
          ] in
          let k =
            subst (λ l. Reads c l recs) (above-any t.cursor s.messages)
              (read_rows-Reads f 0 rows recs g) in
          let same : tail_step c (turns f stopping room) s.messages t ≡ send_records room recs t =
            cc in
          subst (λ y. Follows a y s) (sym same) (send-Follows a room t s recs h k)
    ]
  ]

  -- From a state in which a tail has sent the record of every row behind key `a` up to its cursor, any
  -- publishes and any steps of the tail, with failed reads and a context or bus that ends anywhere, lead
  -- to such a state: no row is left out, sent twice or out of order, and each row is sent as it decodes.
  pub tail_exact :
      (a : ℕ) (es : List Moment) (t : Tailing) (s : Store)
      → Follows a t s
      → Follows a (pass_all es (t, s)).0 (pass_all es (t, s)).1
  unfolding pass_all pass
  tail_exact a [] t s h = h
  tail_exact a (publishes m fault ∷ es) t s h =
      tail_exact a es t (publish c m fault s).1 (publish-Follows a m fault t s h)
  tail_exact a (tails e ∷ es) t s h =
      tail_exact a es (tail_step c e s.messages t) s (tail_step-Follows a e t s h)
