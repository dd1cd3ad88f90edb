-- ===== src/Pcops/Run/Setup.antt =====
-- The set-up and the teardown of `Run` (internal/pcops/run.go): what it starts, in order, and the calls
-- that it defers. Which calls fail is an input.
use parallel_consciousness.Prelude.{
  String, ◌≡◌, Bool, false, Option, none, some, List, [], ◌∷◌, if◌then◌else◌,
}
use parallel_consciousness.Prelude.Int.{ℤ}
use parallel_consciousness.Dict.{Dict}
use parallel_consciousness.Pcops.Config.{Config, AgentDef, effective_submit_timeout}

-- What `Run` starts or opens: agents, and the runner, by their names.
pub data Resource : Type 0 where
  manager coordinator runner bus : Resource
  lease heartbeat session courier : String → Resource

-- The calls that fail: the courier of an agent has no call that ends it, its context does.
abbrev pub Failing : Type 0
Failing = Resource → Bool

-- How far a set-up came: what it started, newest first, the calls that it deferred, last first, and what
-- failed.
pub record SetUp : Type 0 where
  pub started : List Resource
  pub deferred : List Resource
  pub failed : Option Resource

-- A call that starts something, unless an earlier one failed.
unfoldable pub start_one : Failing → Resource → SetUp → SetUp
start_one fails r s = elim s.failed [
  | some x ↦ s
  | none ↦ if fails r then record s { failed = some r } else record s { started = r ∷ s.started }
]

-- The `defer` of the call that ends something; a failed set-up has returned before it.
unfoldable pub defer_one : Resource → SetUp → SetUp
defer_one r s = elim s.failed [ some x ↦ s | none ↦ record s { deferred = r ∷ s.deferred } ]

-- A call that cannot fail.
abbrev pub surely : Failing
surely r = false

-- The environment of a session's `runtime.Spec`; `text` is a duration's text.
unfoldable pub session_env : (ℤ → String) → Config → AgentDef → Dict String
session_env text cfg def =
    ("PC_AGENT", def.name)
    ∷ ("PC_DB", cfg.db)
    ∷ ("PC_SUBMIT_TIMEOUT", text (effective_submit_timeout cfg))
    ∷ []

-- One turn of the loop over the agents.
unfoldable pub start_agent : Failing → AgentDef → SetUp → SetUp
start_agent fails def s =
    let leased = defer_one (lease def.name) (start_one fails (lease def.name) s) in
    let beating = defer_one (heartbeat def.name) (start_one surely (heartbeat def.name) leased) in
    let running = defer_one (session def.name) (start_one fails (session def.name) beating) in
    start_one fails (courier def.name) running

-- The loop over the agents.
unfoldable pub start_agents : Failing → List AgentDef → SetUp → SetUp
start_agents fails [] s = s
start_agents fails (def ∷ defs) s = start_agents fails defs (start_agent fails def s)

-- `Run` up to the loop over its agents.
unfoldable pub set_up_shared : Failing → Config → SetUp
set_up_shared fails cfg =
    let s0 : SetUp = record { started = []; deferred = []; failed = none } in
    let s1 = defer_one manager (start_one fails manager s0) in
    let s2 = defer_one coordinator (start_one fails coordinator s1) in
    let held = lease cfg.runner.name in
    let s3 = defer_one held (start_one fails held s2) in
    let beat = heartbeat cfg.runner.name in
    let s4 = defer_one beat (start_one surely beat s3) in
    let s5 = defer_one runner (start_one fails runner s4) in defer_one bus (start_one fails bus s5)

-- `Run` up to its loop over the signals.
unfoldable pub set_up : Failing → Config → SetUp
set_up fails cfg = start_agents fails cfg.agents (set_up_shared fails cfg)

-- What is ended by a deferred call: all but couriers.
unfoldable pub ended : List Resource → List Resource
ended [] = []
ended (courier a ∷ rs) = ended rs
ended (r ∷ rs) = r ∷ ended rs

-- Of things started, newest first: a heartbeat comes right behind its lease, and a session right behind
-- the heartbeat of its agent.
unfoldable pub Nested : List Resource → Type 0
Nested [] = Unit
Nested (heartbeat a ∷ rs) = ((older : List Resource) × (rs ≡ lease a ∷ older)) × Nested rs
Nested (session a ∷ rs) = ((older : List Resource) × (rs ≡ heartbeat a ∷ older)) × Nested rs
Nested (r ∷ rs) = Nested rs

abbrev Orderly : SetUp → Type 0
Orderly s = (s.deferred ≡ ended s.started) × Nested s.started
