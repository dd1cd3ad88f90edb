-- ===== src/Pcops/Config.antt =====
-- internal/pcops/config.go: the scenario, and what `validate` accepts.
pub mod Loops
pub mod Valid
pub mod Timeouts
use parallel_consciousness.Prelude.{
  ℕ, ◌*◌, String, ◌==◌, ◌≡◌, Bool, true, false, not, Option, none, some, List, [], ◌∷◌, ◌++◌,
  if◌then◌else◌, contains, ◌⊎◌, inl, inr, or_else,
}
use parallel_consciousness.Prelude.Int.{ℤ, pos, negsuc, leb_ℤ}

-- Durations are nanoseconds, as in `time.Duration`, and may be negative.
abbrev pub minute : ℕ
minute = 60_000_000_000

-- `DefaultSubmitTimeout` and `DefaultRunnerTimeout`
abbrev pub default_submit_timeout : ℤ
default_submit_timeout = pos (12 * minute)

abbrev pub default_runner_timeout : ℤ
default_runner_timeout = pos (10 * minute)

-- `GateDef`
pub record GateDef : Type 0 where
  pub required : List String
  pub runner : String
  pub run : String

-- `AgentDef`
pub record AgentDef : Type 0 where
  pub name : String
  pub branch : String
  pub role : String
  pub task : String

-- `Config`
pub record Config : Type 0 where
  pub repo : String
  pub db : String
  pub gate_id : String
  pub gate : GateDef
  pub agents : List AgentDef
  pub runner : AgentDef
  pub submit_timeout : ℤ
  pub runner_timeout : ℤ
  pub wall : ℤ

-- The reasons for which `validate` and `LoadConfig` refuse a scenario, in the order of the checks.
pub data Refusal : Type 0 where
  no_gate_id no_runner : Refusal
  runner_mismatch : String → String → Refusal
  no_required no_agent_name : Refusal
  no_branch duplicate_name duplicate_branch : String → Refusal
  unknown_required duplicate_required : String → Refusal
  submit_too_short : ℤ → ℤ → Refusal
  no_database : Refusal
  bad_duration : String → Refusal

-- The loop over the agents and the runner; `names` and `branches` are the keys seen so far. On
-- success the names are passed on.
unfoldable pub check_agents : List String → List String → List AgentDef → List String ⊎ Refusal
check_agents names branches [] = inl names
check_agents names branches (a ∷ more) =
    let rest = check_agents (a.name ∷ names) (a.branch ∷ branches) more in
    if a.name == ""
    then inr no_agent_name
    else if a.branch == ""
    then inr (no_branch a.name)
    else if contains names a.name
    then inr (duplicate_name a.name)
    else if contains branches a.branch
    then inr (duplicate_branch a.branch)
    else rest

-- The loop over `gate.required`.
unfoldable pub check_required : List String → List String → List String → Option Refusal
check_required names seen [] = none
check_required names seen (r ∷ rs) =
    let rest = check_required names (r ∷ seen) rs in
    if not (contains names r)
    then some (unknown_required r)
    else if contains seen r
    then some (duplicate_required r)
    else rest

-- The comparison of the two timeouts that ends `validate`.
unfoldable pub check_timeouts : Config → Option Refusal
check_timeouts c =
    if leb_ℤ c.submit_timeout c.runner_timeout
    then some (submit_too_short c.submit_timeout c.runner_timeout)
    else none

-- The checks of `validate` behind the loop over the agents.
unfoldable pub check_names : Config → List String ⊎ Refusal → Option Refusal
check_names c (inr e) = some e
check_names c (inl names) = or_else (check_required names [] c.gate.required) (check_timeouts c)

unfoldable pub is_empty : List String → Bool
is_empty [] = true
is_empty (x ∷ xs) = false

-- `Config.validate`
unfoldable pub validate : Config → Option Refusal
validate c =
    if c.gate_id == ""
    then some no_gate_id
    else if c.gate.runner == ""
    then some no_runner
    else if not (c.gate.runner == c.runner.name)
    then some (runner_mismatch c.gate.runner c.runner.name)
    else if is_empty c.gate.required
    then some no_required
    else check_names c (check_agents [] [] (c.agents ++ c.runner ∷ []))

-- `rawConfig`, as the YAML decoder fills it.
pub record RawConfig : Type 0 where
  pub repo : String
  pub db : String
  pub gate_id : String
  pub gate : GateDef
  pub agents : List AgentDef
  pub runner : AgentDef
  pub wall : String
  pub submit_timeout : String
  pub runner_timeout : String

-- A budget entry: what is not given keeps its default, and what does not parse is refused.
unfoldable pub budget_entry : (String → Option ℤ) → String → String → ℤ → ℤ ⊎ Refusal
budget_entry parse field value default =
    if value == ""
    then inl default
    else elim (parse value) [ none ↦ inr (bad_duration field) | some d ↦ inl d ]

abbrev pub ◌>>=◌ : {A B : Type 0} → A ⊎ Refusal → (A → B ⊎ Refusal) → B ⊎ Refusal
inl a >>= f = f a
inr e >>= f = inr e

infixl 5 ◌>>=◌
abbrev pub accept_unless : Config → Option Refusal → Config ⊎ Refusal
accept_unless c none = inl c
accept_unless c (some e) = inr e

-- `LoadConfig` once the file is read and decoded: `pc_db` is $PC_DB, and `parse` time.ParseDuration.
unfoldable pub load_config : (String → Option ℤ) → String → RawConfig → Config ⊎ Refusal
load_config parse pc_db raw =
    let db = if pc_db == "" then raw.db else pc_db in
    let loaded : Config ⊎ Refusal = do
      wall ← budget_entry parse "wall" raw.wall (pos 0)
      submit ← budget_entry parse "submit_timeout" raw.submit_timeout default_submit_timeout
      runner ← budget_entry parse "runner_timeout" raw.runner_timeout default_runner_timeout
      let c : Config = record {
        repo = raw.repo;
        db = db;
        gate_id = raw.gate_id;
        gate = raw.gate;
        agents = raw.agents;
        runner = raw.runner;
        submit_timeout = submit;
        runner_timeout = runner;
        wall = wall;
      }
      accept_unless c (validate c)
    in if db == "" then inr no_database else loaded

-- The timeout that `Submit` uses: a configured value of 0 or less means the default.
unfoldable pub effective_submit_timeout : Config → ℤ
effective_submit_timeout c =
    if leb_ℤ c.submit_timeout (pos 0) then default_submit_timeout else c.submit_timeout

-- The timeout that `StartCoordinator` and `StartRunner` use, by the same rule.
unfoldable pub effective_runner_timeout : Config → ℤ
effective_runner_timeout c =
    if leb_ℤ c.runner_timeout (pos 0) then default_runner_timeout else c.runner_timeout
