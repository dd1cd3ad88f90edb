-- ===== src/Pcops/Watch.antt =====
-- The activity feed (internal/pcops/watch.go, and describeVersions of submit.go): one line for each
-- record of the log that belongs to a gate.
pub mod Lines
pub mod Feed
use parallel_consciousness.Prelude.{
  ℕ, suc, ◌-◌, String, ◌==◌, ◌<>◌, rune_count, ◌⊎◌, inl, inr, Bool, true, false, not, ◌&&◌, Option,
  none, some, List, [], ◌∷◌, ◌++◌, if◌then◌else◌, ltb, leb, eqb, get_or, length, map,
}
use parallel_consciousness.Prelude.Texts.{
  trim_space, trim_spaces_right, take_runes, join_lines, pad_right,
}
use parallel_consciousness.Prelude.Sorting.{sort_strings}
use parallel_consciousness.Dict.{Dict, lookup}
use parallel_consciousness.Protocol.{
  Value, text, Body, Intent, intent_text, Message, as_text, as_flag,
}
use parallel_consciousness.Protocol.Body.{versions, strings}
use parallel_consciousness.Gate.{topic}
use parallel_consciousness.Bus.Sqlite.{Stored, Codec}
use parallel_consciousness.Bus.Sqlite.History.{Record, ReadError, Faults, history, Tailing}

-- `maxSummary`
abbrev pub max_summary : ℕ
max_summary = 120

-- `abbrevVersion`
unfoldable pub abbrev_version : String → String
abbrev_version v = if ltb 8 (rune_count v) then take_runes 8 v else v

-- `strings.Join`
unfoldable pub join_texts : String → List String → String
join_texts sep [] = ""
join_texts sep (x ∷ []) = x
join_texts sep (x ∷ y ∷ rest) = x <> sep <> join_texts sep (y ∷ rest)

-- The loop of `describeVersions`.
unfoldable pub parts_of : Dict String → List String
parts_of [] = []
parts_of ((name, v) ∷ vs) = (name <> "@" <> abbrev_version v) ∷ parts_of vs

-- `describeVersions`
unfoldable pub describe_versions : Dict String → String
describe_versions vs =
    if eqb (length vs) 0
    then "an unreported version set"
    else join_texts ", " (sort_strings (parts_of vs))

-- The loop of `summarise` over the names of a request's versions.
unfoldable pub names_of : Dict String → List String
names_of [] = []
names_of ((n, v) ∷ vs) = n ∷ names_of vs

-- Its loop over the sorted names; `vs[n]` of a missing name is the empty text.
unfoldable pub request_parts : Dict String → List String → List String
request_parts vs [] = []
request_parts vs (n ∷ ns) =
    (n <> "=" <> abbrev_version (get_or (lookup n vs) "")) ∷ request_parts vs ns

-- `clip`
unfoldable pub clip : String → Bool → String
clip s full =
    let s' = join_lines (trim_space s) in
    if full
    then s'
    else if leb (rune_count s') max_summary
    then s'
    else take_runes max_summary s' <> "…"

-- `s, ok := v.(string)`
unfoldable pub asserted_text : Option Value → Option String
asserted_text (some (text s)) = some s
asserted_text _ = none

-- The loop of `summarise` over the fields that people read.
unfoldable pub readable : Body → Bool → String
readable b full =
    let t = as_text (lookup "text" b) in
    let d = as_text (lookup "detail" b) in
    if not (t == "") then clip t full else if not (d == "") then clip d full else ""

-- The field that is the most informative for the intent; `none` where the switch falls through.
unfoldable pub informative : Message → Bool → Option String
informative m full = elim m.intent [
  | Intent.ready ↦ elim (asserted_text (lookup "version" m.body)) [
    | none ↦ none
    | some v ↦ some ("v=" <> abbrev_version v)
  ]
  | Intent.request ↦
      let vs = get_or (versions (lookup "versions" m.body)) [] in
      if ltb 0 (length vs)
      then some (join_texts " " (request_parts vs (sort_strings (names_of vs))))
      else none
  | Intent.ack ↦
      let out = get_or (strings (lookup "outstanding" m.body)) [] in
      if ltb 0 (length out)
      then some ("waiting on " <> join_texts ", " out)
      else if get_or (as_flag (lookup "running" m.body)) false
      then some "round running"
      else none
  | Intent.nack ↦
      let testing = get_or (versions (lookup "testing" m.body)) [] in
      if ltb 0 (length testing)
      then some ("mid-round, testing " <> describe_versions testing)
      else none
  | Intent.inform ↦
      let vs = get_or (versions (lookup "versions" m.body)) [] in
      let summary = clip (as_text (lookup "text" m.body)) full in
      let tail = "(" <> describe_versions vs <> ")" in
      if ltb 0 (length vs)
      then some (if summary == "" then tail else summary <> " " <> tail)
      else none
  | _ ↦ none
]

-- `summarise`
unfoldable pub summarise : Message → Bool → String
summarise m full =
    let other = readable m.body full in elim (informative m full) [ none ↦ other | some s ↦ s ]

-- `FormatRecord`; the layout of a time of day is a parameter.
unfoldable pub format_record : (ℕ → String) → Record → Bool → String
format_record clock r full =
    let to = if r.msg.to.agent == "" then "#" <> r.msg.to.topic else r.msg.to.agent in
    trim_spaces_right (
      clock r.msg.timestamp
      <> "  "
      <> pad_right 11 r.msg.from.agent
      <> " → "
      <> pad_right 15 to
      <> " "
      <> pad_right 10 (intent_text r.msg.intent)
      <> " "
      <> summarise r.msg full)

-- `matchesGate`
unfoldable pub matches_gate : Record → String → Bool
matches_gate r gate_id =
    let direct = (r.msg.to.topic == "") && not (r.msg.to.agent == "") in
    if gate_id == ""
    then true
    else if r.msg.to.topic == topic gate_id
    then true
    else elim (asserted_text (lookup "gate" r.msg.body)) [ none ↦ direct | some id ↦ id == gate_id ]

-- How `Watch` ends: without error, with an error of the read, of the writer, or of the context.
pub data Ending : Type 0 where
  finished : Ending
  unread : ReadError → Ending
  unwritten : String → Ending
  cancelled : Ending

-- A loop of `Watch` over records: the lines written and the writer's error. `writer` is the error of
-- the write of the n-th line.
unfoldable pub write_lines :
    (ℕ → String)
    → Bool
    → String
    → (ℕ → Option String)
    → ℕ
    → List Record
    → List String × Option String
write_lines clock full gate_id writer n [] = ([], none)
write_lines clock full gate_id writer n (r ∷ rs) =
    let skipped = write_lines clock full gate_id writer n rs in
    let rest = write_lines clock full gate_id writer (suc n) rs in
    if matches_gate r gate_id
    then elim (writer n) [
      | none ↦ (format_record clock r full ∷ rest.0, rest.1)
      | some e ↦ ([], some e)
    ]
    else skipped

-- `Watch` without `follow`, on an open bus.
unfoldable pub watch :
    (ℕ → String)
    → Bool
    → String
    → (ℕ → Option String)
    → Codec
    → Faults
    → List Stored
    → List String × Ending
watch clock full gate_id writer c f rows = elim (history c f 0 rows) [
  | inl e ↦ ([], unread e)
  | inr recs ↦
      let (lines, e) = write_lines clock full gate_id writer 0 recs in
      (lines, elim e [ none ↦ finished | some x ↦ unwritten x ])
]

-- `Watch` with `follow`, once the channel of its tail is closed: what the tail sent, and the error that
-- the hook kept. `over` says that the context has ended.
unfoldable pub watch_tail :
    (ℕ → String) → Bool → String → (ℕ → Option String) → Bool → Tailing → List String × Ending
watch_tail clock full gate_id writer over t =
    let (lines, e) = write_lines clock full gate_id writer 0 t.sent in
    (
      lines,
      elim e [
        | some x ↦ unwritten x
        | none ↦ elim t.reported [ some x ↦ unread x | none ↦ if over then cancelled else finished ]
      ],
    )
