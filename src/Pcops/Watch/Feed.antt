-- ===== src/Pcops/Watch/Feed.antt =====
-- What `Watch` writes of a log, however it ends (internal/pcops/watch.go).
use parallel_consciousness.Prelude.{
  ℕ, suc, String, ◌≡◌, refl, ◌⊎◌, inl, inr, Bool, Option, none, some, List, [], ◌∷◌, ◌++◌,
  if◌then◌else◌, ltb, keep, Bool-cases, Option-cases, Sum-cases,
}
use parallel_consciousness.Bus.Sqlite.{Stored, Codec}
use parallel_consciousness.Bus.Sqlite.History.{
  Record, ReadError, Faults, history, read_rows, Tailing,
}
use parallel_consciousness.Bus.Sqlite.History.Exact.{Reads, read_rows-Reads}
use parallel_consciousness.Pcops.Watch.{
  format_record, matches_gate, write_lines, watch, watch_tail, finished, unread, unwritten,
  cancelled,
}

module _ (clock : ℕ → String) (full : Bool) (gate_id : String) (writer : ℕ → Option String) where
  -- The feed of a list of records: the lines of those that belong to the gate, in order.
  abbrev pub feed : List Record → List String
  feed [] = []
  feed (r ∷ rs) =
      let rest = feed rs in
      if matches_gate r gate_id then format_record clock r full ∷ rest else rest

  -- What is written is the feed, or the part of it before a line that the writer refused.
  pub write_lines-feed :
      (n : ℕ) (recs : List Record)
      → (rest : List String) × (feed recs
          ≡ (write_lines clock full gate_id writer n recs).0 ++ rest)
        × (((write_lines clock full gate_id writer n recs).1 ≡ none) × (rest ≡ [])
            ⊎ ((x : String) × (write_lines clock full gate_id writer n recs).1 ≡ some x))
  unfolding write_lines
  write_lines-feed n [] = ([], refl, inl (refl, refl))
  write_lines-feed n (r ∷ rs) = elim (Bool-cases (matches_gate r gate_id)) [
    | inr q ↦
        let (rest, e, w) = write_lines-feed n rs in
        let same : write_lines clock full gate_id writer n (r ∷ rs)
            ≡ write_lines clock full gate_id writer n rs =
          cc in
        elim w [ inl (a, b) ↦ (rest, cc, inl (cc, b)) | inr (x, a) ↦ (rest, cc, inr (x, cc)) ]
    | inl q ↦ elim (Option-cases (writer n)) [
      | inr (x, d) ↦ (feed (r ∷ rs), cc, inr (x, cc))
      | inl d ↦
          let (rest, e, w) = write_lines-feed (suc n) rs in
          elim w [ inl (a, b) ↦ (rest, cc, inl (cc, b)) | inr (x, a) ↦ (rest, cc, inr (x, cc)) ]
    ]
  ]

  -- A feed that is not followed never passes a part of the log off as all of it: either every row was
  -- read and decoded, and the lines are the feed of the whole log when it ends without error, and the
  -- part of it before a line that the writer refused when it ends with the writer's error; or it ends
  -- with the error of the read, and writes nothing.
  pub watch_honest :
      (c : Codec) (f : Faults) (rows : List Stored)
      → ((recs : List Record) × (rest : List String) × Reads c (keep (λ r. ltb 0 r.seq) rows) recs
          × (feed recs ≡ (watch clock full gate_id writer c f rows).0 ++ rest)
          × (((watch clock full gate_id writer c f rows).1 ≡ finished) × (rest ≡ [])
              ⊎ ((x : String) × (watch clock full gate_id writer c f rows).1 ≡ unwritten x)))
        ⊎ ((e : ReadError) × (watch clock full gate_id writer c f rows ≡ ([], unread e)))
  unfolding watch history
  watch_honest c f rows = elim (Sum-cases (history c f 0 rows)) [
    | inl (e, q) ↦ inr (e, cc)
    | inr (recs, q) ↦
        let below = keep (λ r. ltb 0 r.seq) rows in
        let g : read_rows c f 0 below ≡ inr recs = elim (Bool-cases f.query) [
          | inl z ↦ absurd cc
          | inr z ↦ cc
        ] in
        let (rest, e, w) = write_lines-feed 0 recs in
        inl (
          recs,
          rest,
          read_rows-Reads c f 0 below recs g,
          cc,
          elim w [ inl (a, b) ↦ inl (cc, b) | inr (x, a) ↦ inr (x, cc) ],
        )
  ]

  -- A feed that is followed writes the feed of what its tail sent, or a part of it from the start when
  -- the writer failed; a read error that stopped the tail is never lost, not even to a context that has
  -- ended as well.
  pub watch_tail_honest :
      (over : Bool) (t : Tailing)
      → (rest : List String) × (feed t.sent
          ≡ (watch_tail clock full gate_id writer over t).0 ++ rest)
        × (((x : String) × (watch_tail clock full gate_id writer over t).1 ≡ unwritten x)
            ⊎ ((rest ≡ [])
                × ((watch_tail clock full gate_id writer over t).1 ≡ elim t.reported [
                  | some x ↦ unread x
                  | none ↦ if over then cancelled else finished
                ])))
  unfolding watch_tail
  watch_tail_honest over t =
      let (rest, e, w) = write_lines-feed 0 t.sent in
      (rest, cc, elim w [ inl (a, b) ↦ inr (b, cc) | inr (x, a) ↦ inl (x, cc) ])
