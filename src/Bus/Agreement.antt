-- ===== src/Bus/Agreement.antt =====
-- The two transports select the same messages (`Publish` of pkg/bus/bus.go, `selectQuery` of
-- pkg/bus/sqlite/sqlite.go), for messages that name an agent or a topic, and not both.
use parallel_consciousness.Prelude.{
  String, eq_iff, ◌≡◌, ◌≢◌, true, false, ◌⊎◌, inl, inr, List, [], ◌∷◌, arith, ltb, length, contains,
  Bool-cases,
}
use parallel_consciousness.Protocol.{Message}
use parallel_consciousness.Bus.Memory.Routing.{wanted}
use parallel_consciousness.Bus.Sqlite.{Codec, columns_of, addressed}

-- A list that contains something is not empty.
contains-pos : (xs : List String) (s : String) → contains xs s ≡ true → ltb 0 (length xs) ≡ true
unfolding contains
contains-pos [] s e = absurd cc
contains-pos (x ∷ xs) s e = ground arith

-- A row that the SQLite bus stores for a message is selected for a subscription exactly when the
-- in-memory bus would route the message to it: the agent has a name, no topic that it listens on is
-- empty, and the message names an agent or a topic, not both.
pub addressed-wanted :
    (c : Codec) (agent : String) (topics : List String) (m : Message) (body : String)
    → agent ≢ ""
    → contains topics "" ≡ false
    → (m.to.agent ≡ "") ⊎ (m.to.topic ≡ "")
    → addressed agent topics (columns_of c m body) ≡ wanted agent topics m
unfolding addressed columns_of
addressed-wanted c agent topics m body n e (inl a) =
    elim (Bool-cases (contains topics m.to.topic)) [
      | inl h ↦
          let p = contains-pos topics m.to.topic h in
          ground (
            arith,
            p,
            eq_iff m.to.agent "",
            eq_iff m.to.topic "",
            eq_iff m.to.agent agent,
            eq_iff m.from.agent agent,
            eq_iff agent m.from.agent,
          )
      | inr h ↦ ground (arith, eq_iff m.to.agent "", eq_iff m.to.agent agent)
    ]
addressed-wanted c agent topics m body n e (inr a) =
    let h : contains topics m.to.topic ≡ false = cc in
    ground (arith, h, eq_iff m.to.agent "", eq_iff m.to.topic "", eq_iff m.to.agent agent)

-- A message that names both another agent and a topic that a third agent listens on is selected for that
-- third agent by the SQLite bus, and not routed to it by the in-memory one.
pub both_differ :
    (c : Codec) (agent : String) (topics : List String) (m : Message) (body : String)
    → m.to.agent ≢ ""
    → m.to.agent ≢ agent
    → m.from.agent ≢ agent
    → contains topics m.to.topic ≡ true
    → (addressed agent topics (columns_of c m body) ≡ true) × (wanted agent topics m ≡ false)
unfolding addressed columns_of
both_differ c agent topics m body n o f h =
    let p = contains-pos topics m.to.topic h in
    (
      ground (arith, p, eq_iff m.from.agent agent),
      ground (arith, eq_iff m.to.agent "", eq_iff m.to.agent agent),
    )
