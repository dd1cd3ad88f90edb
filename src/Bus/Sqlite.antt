-- ===== src/Bus/Sqlite.antt =====
-- pkg/bus/sqlite/sqlite.go: the durable log of messages, with a read cursor for each agent. A
-- statement of SQLite is one atomic step on the tables; its error, and what stops a poller, are
-- inputs. encoding/json and the layout of times are parameters (Codec).
pub mod History
pub mod Cursors
pub mod Encoding
pub mod Polling
pub mod Wal
pub mod Opening
use parallel_consciousness.Prelude.{
  ℕ, suc, ◌+◌, String, ◌==◌, Bool, true, false, ◌&&◌, ◌||◌, not, Option, none, some, List, [], ◌∷◌,
  ◌++◌, if◌then◌else◌, ltb, eqb, length, contains, take, keep, get_or, ◌⊎◌, inl, inr,
}
use parallel_consciousness.Dict.{Dict, lookup, insert}
use parallel_consciousness.Protocol.{intent_text, Body, Address, Intent, other, Message}

-- The columns of `messages` but its key; a NULL deadline is `none`.
pub record Columns : Type 0 where
  pub id : String
  pub conversation_id : String
  pub in_reply_to : String
  pub from_agent : String
  pub to_agent : String
  pub to_topic : String
  pub intent : String
  pub body : String
  pub ts : String
  pub deadline : Option String

-- A row of `messages`.
pub record Stored : Type 0 where
  pub seq : ℕ
  pub columns : Columns

-- `json.Marshal`, `json.Unmarshal` into a map, and a time's UTC text in `time.RFC3339Nano`.
pub record Codec : Type 0 where
  pub marshal : Body → String ⊎ String
  pub unmarshal : String → String ⊎ Body
  pub format : ℕ → String
  pub parse : String → String ⊎ ℕ

-- The tables: `messages` in the order of its key, `cursors`, and the key that AUTOINCREMENT gave last,
-- which no later row has again.
pub record Store : Type 0 where
  pub messages : List Stored
  pub cursors : Dict ℕ
  pub last_key : ℕ

-- `protocol.Intent(intent)`: a text that is one of the constants is that constant.
unfoldable pub intent_named : List Intent → String → Intent
intent_named [] s = other s
intent_named (i ∷ is) s = if intent_text i == s then i else intent_named is s

abbrev pub intents : List Intent
intents =
    Intent.request ∷ Intent.propose ∷ Intent.agree ∷ Intent.disagree ∷ Intent.inform ∷ Intent.block
    ∷ Intent.done ∷ Intent.ready ∷ Intent.ack ∷ Intent.nack ∷ Intent.yield ∷ []

module _ (c : Codec) where
  -- The arguments of the insert of `Publish`, given the body's text.
  unfoldable pub columns_of : Message → String → Columns
  columns_of m body = record {
    id = m.id;
    conversation_id = m.conversation_id;
    in_reply_to = m.in_reply_to;
    from_agent = m.from.agent;
    to_agent = m.to.agent;
    to_topic = m.to.topic;
    intent = intent_text m.intent;
    body = body;
    ts = c.format m.timestamp;
    deadline = if eqb m.deadline 0 then none else some (c.format m.deadline);
  }

  -- `Publish` up to its insert. A nil body is the empty one here; a map that is empty and not nil is
  -- stored as a text of its own by the source, and read back as empty too.
  unfoldable pub encode : Message → String ⊎ Columns
  encode m =
      if eqb (length m.body) 0
      then inr (columns_of m "")
      else elim (c.marshal m.body) [ inl e ↦ inl e | inr raw ↦ inr (columns_of m raw) ]

  -- The body of `buildMessage`: an empty text is no body.
  unfoldable pub build_body : String → String ⊎ Body
  build_body s = if s == "" then inr [] else c.unmarshal s

  -- The deadline of `buildMessage`.
  unfoldable pub build_deadline : Option String → String ⊎ ℕ
  build_deadline none = inr 0
  build_deadline (some s) = if s == "" then inr 0 else c.parse s

  -- `buildMessage`
  unfoldable pub build_message : Columns → String ⊎ Message
  build_message r = elim (build_body r.body) [
    | inl e ↦ inl e
    | inr body ↦ elim (c.parse r.ts) [
      | inl e ↦ inl e
      | inr t ↦ elim (build_deadline r.deadline) [
        | inl e ↦ inl e
        | inr d ↦ inr (record {
          id = r.id;
          conversation_id = r.conversation_id;
          in_reply_to = r.in_reply_to;
          from = record { agent = r.from_agent; topic = "" };
          to = record { agent = r.to_agent; topic = r.to_topic };
          intent = intent_named intents r.intent;
          body = body;
          timestamp = t;
          deadline = d;
        })
      ]
    ]
  ]

  -- `Publish`: `fault` is the error of the insert.
  unfoldable pub publish : Message → Option String → Store → Option String × Store
  publish m (some e) s = elim (encode m) [ inl x ↦ (some x, s) | inr r ↦ (some e, s) ]
  publish m none s = elim (encode m) [
    | inl x ↦ (some x, s)
    | inr r ↦
        let key = suc s.last_key in
        (
          none,
          record s {
            messages = s.messages ++ (record { seq = key; columns = r }) ∷ [];
            last_key = key;
          },
        )
  ]

-- `SELECT MAX(seq) FROM messages`, and 0 for the NULL of an empty table (`headSeq`).
unfoldable pub head_seq : List Stored → ℕ
head_seq [] = 0
head_seq (r ∷ rs) = let rest = head_seq rs in if ltb rest r.seq then r.seq else rest

-- `initCursor`, its statements not failing.
unfoldable pub init_cursor : Bool → String → Store → ℕ
init_cursor replay_zero agent s = elim (lookup agent s.cursors) [
  | some last ↦ last
  | none ↦ if replay_zero then 0 else head_seq s.messages
]

-- The condition of the statement that `selectQuery` builds, less its bound on `seq`. The part on
-- topics is there when there are topics.
unfoldable pub addressed : String → List String → Columns → Bool
addressed agent topics r =
    (r.to_agent == agent)
    || (ltb 0 (length topics) && contains topics r.to_topic && not (r.from_agent == agent))

-- The rows of the statement that `selectQuery` builds.
unfoldable pub select_query : String → List String → ℕ → ℕ → List Stored → List Stored
select_query agent topics cursor batch rows =
    take batch (keep (λ r. ltb cursor r.seq && addressed agent topics r.columns) rows)

-- `saveCursor`: an upsert with MAX. Its error changes nothing.
unfoldable pub save_cursor : String → ℕ → Bool → Store → Store
save_cursor agent seq fails s =
    let kept = get_or (lookup agent s.cursors) 0 in
    if fails
    then s
    else record s { cursors = insert agent (if ltb kept seq then seq else kept) s.cursors }

-- `Prune`, its statement not failing; the count is of the rows that it removed.
unfoldable pub prune : ℕ → Store → ℕ × Store
prune before s =
    let removed = keep (λ r. ltb r.seq before) s.messages in
    let kept = keep (λ r. not (ltb r.seq before)) s.messages in
    (length removed, record s { messages = kept })
