-- ===== src/Gate.antt =====
-- pkg/gate/gate.go: the data of a gate and the messages that its two sides exchange.
pub mod Quorum
pub mod Versions
pub mod Round
pub mod Phase
pub mod Answers
pub mod Runner
pub mod Coordinator
use parallel_consciousness.Prelude.{
  ℕ, zero, suc, ◌+◌, String, ◌<>◌, Bool, true, false, ◌&&◌, not, Option, none, some, List, [], ◌∷◌,
  ◌++◌, if◌then◌else◌, contains, ltb, length, ◌==◌, get_or,
}
use parallel_consciousness.Dict.{Dict, lookup, has, insert, copy_map}
use parallel_consciousness.Protocol.{
  Value, text, flag, text_map, text_list, Body, Address, to_agent, to_topic, Intent, Message, Stamp,
  new, reply, text_field,
}
use parallel_consciousness.Protocol.Body.{versions}

-- `Topic`
unfoldable pub topic : String → String
topic gate_id = "gate." <> gate_id

-- `Spec`
pub record Spec : Type 0 where
  pub id : String
  pub required : List String
  pub runner : String

-- `Verdict`; the nil version map is the empty one, which every use of it treats alike.
pub record Verdict : Type 0 where
  pub gate_id : String
  pub passed : Bool
  pub detail : String
  pub versions : Dict String

-- `gateState`
pub record GateState : Type 0 where
  pub spec : Spec
  pub ready : Dict String
  pub inflight : Bool
  pub gen : ℕ
  pub last_verdict : Option Verdict
  pub last_stalled : Bool

-- `&gateState{spec: spec, ready: make(map[string]string)}` of `Register`
unfoldable pub new_gate : Spec → GateState
new_gate spec = record {
  spec = spec;
  ready = [];
  inflight = false;
  gen = 0;
  last_verdict = none;
  last_stalled = false;
}

-- What a coordinator is configured with: its agent's name, the runner timeout, and whether a hook
-- is registered. `stamps` is the identifier and time that each message it builds receives.
pub record Host : Type 0 where
  pub name : String
  pub timeout : ℕ
  pub hooked : Bool
  pub stamps : ℕ → Stamp

-- A runner timer that `open` armed: what its closure captured, and its delay.
pub record Timer : Type 0 where
  pub gate_id : String
  pub gen : ℕ
  pub delay : ℕ

-- What the coordinator has done to the world so far: the messages handed to `Agent.Send`, the timers
-- armed, and the hook's calls, oldest first; and how many messages it has built.
pub record Effects : Type 0 where
  pub sent : List Message
  pub timers : List Timer
  pub reported : List Verdict
  pub built : ℕ

-- `c.a.Send(ctx, …)` of a message built on the spot.
unfoldable pub send : Host → (Stamp → Message) → Effects → Effects
send h f e = record e { sent = e.sent ++ f (h.stamps e.built) ∷ []; built = suc e.built }

-- `Ready`: the message with which a participant declares its readiness.
unfoldable pub ready_message : String → String → String → Stamp → Message
ready_message agent gate_id version =
    new (to_agent agent) (to_topic (topic gate_id)) Intent.ready
      (("gate", text gate_id) ∷ ("version", text version) ∷ [])

-- The request that `open` sends to the runner, its deadline set after `protocol.New`.
unfoldable pub request_message : Host → Spec → Dict String → Stamp → Message
request_message h spec tested s =
    let body : Body = ("gate", text spec.id) ∷ ("versions", text_map tested) ∷ [] in
    let m = new (to_agent h.name) (to_agent spec.runner) Intent.request body s in
    record m { deadline = m.timestamp + h.timeout }

-- The body of a runner's report; an empty version map is left out.
unfoldable pub report_body : String → Verdict → Body
report_body gate_id v =
    let body : Body = ("gate", text gate_id) ∷ ("detail", text v.detail) ∷ [] in
    if ltb 0 (length v.versions) then insert "versions" (text_map v.versions) body else body

-- The handler that `ServeRunner` registers: `fn` is the caller's test executor.
unfoldable pub serve_request :
    (String → Dict String → Verdict) → String → Stamp → Message → Option Message
serve_request fn agent s m =
    let gate_id = text_field "gate" m.body in
    let v = fn gate_id (get_or (versions (lookup "versions" m.body)) []) in
    let intent = if v.passed then Intent.done else Intent.disagree in
    if gate_id == "" then none else some (reply m (to_agent agent) intent (report_body gate_id v) s)
