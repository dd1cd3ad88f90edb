-- ===== src/Examples/Buses.antt =====
-- A subscription on the in-memory bus (pkg/bus/bus.go), and the same messages on the SQLite one.
use parallel_consciousness.Prelude.{
  ℕ, contains, eq_iff, String, ◌≡◌, refl, true, false, some, [], ◌∷◌, List, inl, arith, eqb,
  if◌then◌else◌,
}
use parallel_consciousness.Dict.{lookup}
use parallel_consciousness.Protocol.{Intent, Message}
use parallel_consciousness.Bus.Memory.{InMemory, new_in_memory, subscribe, tear_down, publish}
use parallel_consciousness.Bus.Memory.Open.{
  Event, subscribes, ends, publishes, receives, System, happen_all, new_in_memory-IsOpen,
  subscribe-IsOpen, never_panics,
}
use parallel_consciousness.Bus.Memory.Routing.{wanted}
use parallel_consciousness.Bus.Memory.Contract.{
  publish_all, inbox_refines, subscribe-Joined, tear_down_silences,
}
use parallel_consciousness.Bus.Sqlite.{columns_of, addressed}
use parallel_consciousness.Bus.Agreement.{addressed-wanted, both_differ}
use parallel_consciousness.Examples.Logs.{codec}

abbrev letter : String → String → String → Message
letter from agent topic = record {
  id = "m";
  conversation_id = "m";
  in_reply_to = "";
  from = record { agent = from; topic = "" };
  to = record { agent = agent; topic = topic };
  intent = Intent.inform;
  body = [];
  timestamp = 8;
  deadline = 0;
}

abbrev nobody : ℕ → String
nobody i = ""

abbrev events : List Event
events =
    subscribes "billing" ("gate/currency" ∷ [])
    ∷ subscribes "billing" []
    ∷ ends 0
    ∷ publishes (letter "gateway" "billing" "")
    ∷ publishes (letter "gateway" "" "gate/currency")
    ∷ receives 1
    ∷ []

never_panics_example :
    (s : System) × (happen_all events (record { bus = new_in_memory 0; owner = nobody }) ≡ some s)
never_panics_example = never_panics 0 nobody events

-- Room for two messages, and one subscription.
abbrev joined : InMemory
joined = (subscribe "billing" ("gate/currency" ∷ []) (new_in_memory 2)).1

abbrev letters : List Message
letters =
    letter "gateway" "billing" ""
    ∷ letter "gateway" "gateway" ""
    ∷ letter "billing" "" "gate/currency"
    ∷ letter "gateway" "" "gate/currency"
    ∷ letter "gateway" "billing" ""
    ∷ []

inbox_refines_example :
    (b' : InMemory) × (publish_all letters joined ≡ some b')
    × ((b'.chans 0).held ≡ letter "gateway" "billing" "" ∷ letter "gateway" "" "gate/currency" ∷ [])
unfolding subscribe new_in_memory lookup contains
inbox_refines_example =
    let start : System = record { bus = new_in_memory 2; owner = nobody } in
    let open_ = new_in_memory-IsOpen 2 nobody in
    let (here, empty) =
      subscribe-Joined nobody "billing" ("gate/currency" ∷ []) (new_in_memory 2) open_ (λ t. refl)
        (λ t. tt) in
    inbox_refines "billing" ("gate/currency" ∷ []) 0 (λ i. if eqb 0 i then "billing" else nobody i)
      letters joined (subscribe-IsOpen "billing" ("gate/currency" ∷ []) start open_) here empty

tear_down_silences_example :
    publish (letter "gateway" "billing" "") (
      tear_down "billing" 0 (subscribe "billing" [] (subscribe "billing" [] (new_in_memory 2)).1).1)
    ≡ some (
        tear_down "billing" 0
          (subscribe "billing" [] (subscribe "billing" [] (new_in_memory 2)).1).1)
tear_down_silences_example =
    tear_down_silences "billing" 0 (letter "gateway" "billing" "")
      (subscribe "billing" [] (subscribe "billing" [] (new_in_memory 2)).1).1 refl (λ e. cc)

addressed-wanted_example :
    addressed "billing"
      ("gate/currency" ∷ [])
      (columns_of codec (letter "gateway" "" "gate/currency") "")
    ≡ wanted "billing" ("gate/currency" ∷ []) (letter "gateway" "" "gate/currency")
unfolding contains
addressed-wanted_example =
    addressed-wanted codec "billing" ("gate/currency" ∷ []) (letter "gateway" "" "gate/currency") ""
      (λ e. cc) refl (inl refl)

-- To the agent gateway and to a topic at once, on which billing listens.
both_differ_example :
    (addressed "billing"
        ("gate/currency" ∷ [])
        (columns_of codec (letter "coordinator" "gateway" "gate/currency") "")
      ≡ true)
    × (wanted "billing" ("gate/currency" ∷ []) (letter "coordinator" "gateway" "gate/currency")
        ≡ false)
unfolding contains
both_differ_example =
    both_differ codec "billing" ("gate/currency" ∷ [])
      (letter "coordinator" "gateway" "gate/currency") "" (λ e. cc)
      (λ e. ground (arith, eq_iff "gateway" "billing", e))
      (λ e. ground (arith, eq_iff "coordinator" "billing", e)) refl
