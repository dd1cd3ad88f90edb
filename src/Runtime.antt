-- ===== src/Runtime.antt =====
-- pkg/runtime/runtime.go: what a session of a coding agent reports. The time and the agent that an event
-- carries are left out.
pub mod Fake
use parallel_consciousness.Prelude.{ℕ, String, Bool}

-- `ToolUse`
pub record ToolUse : Type 0 where
  pub name : String
  pub target : String
  pub detail : String
  pub ok : Bool

-- `Queue`
pub record Queue : Type 0 where
  pub steering : ℕ
  pub follow_up : ℕ

-- `Event`, by its `EventKind`.
pub data Event : Type 0 where
  started turn_began turn_ended idle exited : Event
  tool_used : ToolUse → Event
  queue_changed : Queue → Event
  errored : String → Event

-- `ExitReason`
pub data ExitReason : Type 0 where
  completed interrupted budget failed : ExitReason
