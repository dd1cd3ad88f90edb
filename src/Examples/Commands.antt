-- ===== src/Examples/Commands.antt =====
-- The commands in an environment with a scenario file and a database (cmd/pc/main.go).
use parallel_consciousness.Prelude.{
  String, eq_iff, ◌≡◌, ◌≢◌, refl, inl, true, some, arith, contains,
}
use parallel_consciousness.Prelude.Int.{pos}
use parallel_consciousness.Prelude.Texts.{is_empty}
use parallel_consciousness.Pcops.Config.{
  Config, AgentDef, load_config, validate, check_agents, check_required, check_timeouts,
  check_names, budget_entry,
}
use parallel_consciousness.Pcops.Config as Configs
use parallel_consciousness.Pcops.Submit.{Submit}
use parallel_consciousness.Cmd.{Env, SubmitFlags, load_any, load_file, resolve_config, env_config}
use parallel_consciousness.Cmd.Scenarios.{one_database}
use parallel_consciousness.Examples.Scenarios.{raw, scenario}

abbrev env : Env
env = record {
  pc_db = "shared.db";
  pc_agent = "billing";
  pc_submit_timeout = "";
  has_default = true;
  read = λ path. inl raw;
  parse_duration = λ s. some (pos 900000000000);
  git = λ args. inl "b1 ";
  getwd = inl "/work";
}

abbrev flags : SubmitFlags
flags = record { gate_id = "currency"; as_agent = ""; version = ""; config = "" }

-- The scenario of the file, on the database of the environment.
abbrev shared : Config
shared = record scenario { db = "shared.db" }

found : resolve_config env "" "watch" ≡ inl shared
unfolding resolve_config load_file load_config validate check_agents check_required check_timeouts
    check_names Configs.is_empty contains budget_entry
found = refl

has_database : ◌≢◌ {A = String} "shared.db" ""
has_database e = ground (arith, eq_iff "shared.db" "", e)

-- No scenario is named or needed: the environment makes the configuration.
one_database_example : (env_config env).db ≡ "shared.db"
unfolding load_any
one_database_example = one_database env "" "submit" (env_config env) has_database (inl refl)
