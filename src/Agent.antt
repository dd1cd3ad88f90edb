-- ===== src/Agent.antt =====
-- pkg/agent/agent.go: an agent's dispatch of the messages that it receives. A handler is an argument:
-- it changes a state of its own, may send messages, and may return a reply.
pub mod Replies
use parallel_consciousness.Prelude.{
  ℕ, suc, String, ◌==◌, Bool, true, false, ◌&&◌, not, Option, none, some, List, [], ◌∷◌, ◌++◌,
  if◌then◌else◌, ltb, length,
}
use parallel_consciousness.Dict.{Dict, lookup, insert}
use parallel_consciousness.Protocol.{
  Intent, intent_text, Message, Stamp, to_agent, reply, wants_response,
}

-- What a handler does with a message: what it sends, its reply, and its next state.
pub record Reaction (S : Type 0) : Type 0 where
  pub sends : List Message
  pub answer : Option Message
  pub after : S

-- `Handler`
abbrev pub Handler : Type 0 → Type 0
Handler S = Message → S → Reaction S

-- `Agent`: its handlers by the text of their intent, the urgent channel, oldest first, the state that
-- its handlers share, and the messages that it has handed to the bus.
pub record Agent (S : Type 0) : Type 0 where
  pub name : String
  pub handlers : Dict (Handler S)
  pub urgent : List Message
  pub state : S
  pub sent : List Message

-- What `dispatch` sends after the handler: its reply, or the automatic acknowledgement, whose body
-- is nil.
unfoldable pub closing : Stamp → Message → String → Option Message → List Message
closing s m name (some r) = r ∷ []
closing s m name none =
    if wants_response m.intent && not (m.from.agent == "")
    then reply m (to_agent name) Intent.ack [] s ∷ []
    else []

module _ {S : Type 0} where
  -- `New`, its subscription made.
  unfoldable pub new_agent : String → S → Agent S
  new_agent name state = record {
    name = name;
    handlers = [];
    urgent = [];
    state = state;
    sent = [];
  }

  -- `On`
  unfoldable pub on : Intent → Handler S → Agent S → Agent S
  on intent h a = record a { handlers = insert (intent_text intent) h a.handlers }

  -- `Interrupted`
  unfoldable pub interrupted : Agent S → Option Message × Agent S
  interrupted a = elim a.urgent [ [] ↦ (none, a) | m ∷ ms ↦ (some m, record a { urgent = ms }) ]

  -- The channel of urgent messages has room for eight; a block for a full one is not put into it.
  unfoldable pub note_urgent : Message → Agent S → Agent S
  note_urgent m a =
      if (intent_text m.intent == "block") && ltb (length a.urgent) 8
      then record a { urgent = a.urgent ++ m ∷ [] }
      else a

  -- The call of the registered handler, if there is one.
  unfoldable pub react : Message → Agent S → Reaction S
  react m a = elim (lookup (intent_text m.intent) a.handlers) [
    | none ↦ record { sends = []; answer = none; after = a.state }
    | some h ↦ h m a.state
  ]

  -- `dispatch`
  unfoldable pub dispatch : Stamp → Message → Agent S → Agent S
  dispatch s m a =
      let noted = note_urgent m a in
      let r = react m noted in
      record noted { state = r.after; sent = noted.sent ++ r.sends ++ closing s m a.name r.answer }

  -- `Run` on the messages of its channel, each with the stamp that an acknowledgement of it would get.
  unfoldable pub run_agent : List (Stamp × Message) → Agent S → Agent S
  run_agent [] a = a
  run_agent ((s, m) ∷ ms) a = run_agent ms (dispatch s m a)
