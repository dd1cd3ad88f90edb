-- ===== src/Bus/Memory.antt =====
-- pkg/bus/bus.go: the bus inside one process. A call holds the bus's mutex, so it is one step; a
-- channel is known by a number, so that two subscriptions under one name have two channels.
pub mod Contract
pub mod Open
pub mod Routing
use parallel_consciousness.Prelude.{
  ℕ, suc, String, ◌==◌, Bool, true, false, not, Option, none, some, List, [], ◌∷◌, ◌++◌,
  if◌then◌else◌, ltb, eqb, length, get_or,
}
use parallel_consciousness.Dict.{Dict, lookup, insert, delete}
use parallel_consciousness.Protocol.{Message}

-- An inbox: what it holds, oldest first, and whether it was closed.
pub record Chan : Type 0 where
  pub held : List Message
  pub closed : Bool

-- `map[string]struct{}`
abbrev pub Names : Type 0
Names = Dict (Unit {0})

-- `InMemory`, with the channels made so far, numbered from 0.
pub record InMemory : Type 0 where
  pub agents : Dict ℕ
  pub topics : Dict Names
  pub buf : ℕ
  pub chans : ℕ → Chan
  pub made : ℕ

-- `NewInMemory`; a size of 0 or less, here 0, means 64.
unfoldable pub new_in_memory : ℕ → InMemory
new_in_memory buf = record {
  agents = [];
  topics = [];
  buf = if eqb buf 0 then 64 else buf;
  chans = λ i. record { held = []; closed = false };
  made = 0;
}

-- A write to one channel.
unfoldable pub set_chan : ℕ → Chan → (ℕ → Chan) → ℕ → Chan
set_chan i c cs j = if eqb i j then c else cs j

-- The loop of `Subscribe` over its topics.
unfoldable pub join_topics : String → List String → Dict Names → Dict Names
join_topics agent [] ts = ts
join_topics agent (t ∷ rest) ts =
    join_topics agent rest (insert t (insert agent tt (get_or (lookup t ts) [])) ts)

-- `Subscribe`, up to its teardown, and the number of its channel.
unfoldable pub subscribe : String → List String → InMemory → ℕ × InMemory
subscribe agent topics b = (
  b.made,
  record b {
    agents = insert agent b.made b.agents;
    topics = join_topics agent topics b.topics;
    chans = set_chan b.made (record { held = []; closed = false }) b.chans;
    made = suc b.made;
  },
)

-- The loop of the teardown over the topics.
unfoldable pub leave_topics : String → Dict Names → Dict Names
leave_topics agent [] = []
leave_topics agent ((t, subs) ∷ ts) = (t, delete agent subs) ∷ leave_topics agent ts

-- The teardown of `Subscribe`, once its context ends: by the agent's name, and its own channel.
unfoldable pub tear_down : String → ℕ → InMemory → InMemory
tear_down agent i b = record b {
  agents = delete agent b.agents;
  topics = leave_topics agent b.topics;
  chans = set_chan i (record (b.chans i) { closed = true }) b.chans;
}

-- `deliver`; `none` is the panic of a send on a closed channel.
unfoldable pub deliver : ℕ → Message → InMemory → Option InMemory
deliver i m b =
    let c = b.chans i in
    if c.closed
    then none
    else if ltb (length c.held) b.buf
    then some (record b { chans = set_chan i (record c { held = c.held ++ m ∷ [] }) b.chans })
    else some b

-- `if ch, ok := b.agents[agent]; ok { b.deliver(ch, m) }`
unfoldable pub deliver_to : String → Message → InMemory → Option InMemory
deliver_to agent m b = elim (lookup agent b.agents) [ none ↦ some b | some i ↦ deliver i m b ]

-- The loop of `Publish` over a topic's subscribers, in any one order of the map.
unfoldable pub fan_out : Names → Message → InMemory → Option InMemory
fan_out [] m b = some b
fan_out ((agent, _) ∷ rest) m b =
    let next = if agent == m.from.agent then some b else deliver_to agent m b in
    elim next [ none ↦ none | some b' ↦ fan_out rest m b' ]

-- `Publish`
unfoldable pub publish : Message → InMemory → Option InMemory
publish m b =
    if not (m.to.agent == "")
    then deliver_to m.to.agent m b
    else if not (m.to.topic == "")
    then fan_out (get_or (lookup m.to.topic b.topics) []) m b
    else some b

-- A receive from a channel: the oldest message that it holds.
unfoldable pub receive : ℕ → InMemory → Option Message × InMemory
receive i b = elim (b.chans i).held [
  | [] ↦ (none, b)
  | m ∷ ms ↦ (some m, record b { chans = set_chan i (record (b.chans i) { held = ms }) b.chans })
]
