-- ===== src/Examples/Scenarios.antt =====
-- A scenario with two participants (internal/pcops).
use parallel_consciousness.Prelude.{
  ◌*◌, String, ◌≡◌, refl, false, Option, none, some, List, [], ◌∷◌, arith, contains, inl,
}
use parallel_consciousness.Prelude.Int.{ℤ, pos, ◌<ℤ◌}
use parallel_consciousness.Dict.{lookup, copy_map, insert}
use parallel_consciousness.Gate.{Verdict}
use parallel_consciousness.Pcops.Config.{
  Config, AgentDef, RawConfig, validate, load_config, minute, effective_runner_timeout,
  effective_submit_timeout, check_agents, check_required, check_timeouts, check_names, is_empty,
  budget_entry,
}
use parallel_consciousness.Pcops.Config.Valid.{Valid, validate_exact}
use parallel_consciousness.Pcops.Config.Timeouts.{unset_runner_timeout}
use parallel_consciousness.Pcops.Run.{
  Signal, verdict, Outcome, new_fix_cycle, run_loop, capped, completes, start, moved_now, has_moved,
  note_moved,
}
use parallel_consciousness.Pcops.Run.Cap.{run_loop_bounded}

abbrev participant : String → AgentDef
participant name = record { name = name; branch = name; role = ""; task = "" }

abbrev pub scenario : Config
scenario = record {
  repo = ".";
  db = "bus.db";
  gate_id = "currency";
  gate = record { required = "billing" ∷ "gateway" ∷ []; runner = "integrator"; run = "go test" };
  agents = participant "billing" ∷ participant "gateway" ∷ [];
  runner = participant "integrator";
  submit_timeout = pos (12 * minute);
  runner_timeout = pos (10 * minute);
  wall = pos 0;
}

accepted : validate scenario ≡ none
unfolding validate check_agents check_required check_timeouts check_names is_empty contains
accepted = refl

-- The same scenario with `runner_timeout: 0s` and a submit timeout of one minute.
abbrev hasty : Config
hasty = record scenario { submit_timeout = pos minute; runner_timeout = pos 0 }

hasty_accepted : validate hasty ≡ none
unfolding validate check_agents check_required check_timeouts check_names is_empty contains
hasty_accepted = refl

unset_runner_timeout_example :
    (validate hasty ≡ none) × ¬ (effective_runner_timeout hasty <ℤ effective_submit_timeout hasty)
unset_runner_timeout_example =
    unset_runner_timeout hasty ((validate_exact hasty).0 hasty_accepted) refl refl refl

validate_exact_example : Valid scenario
validate_exact_example = (validate_exact scenario).0 accepted

abbrev pub raw : RawConfig
raw = record {
  repo = ".";
  db = "bus.db";
  gate_id = "currency";
  gate = scenario.gate;
  agents = scenario.agents;
  runner = scenario.runner;
  wall = "";
  submit_timeout = "";
  runner_timeout = "";
}

no_duration : String → Option ℤ
no_duration s = none

loaded : load_config no_duration "" raw ≡ inl scenario
unfolding load_config budget_entry validate check_agents check_required check_timeouts check_names
    is_empty contains
loaded = refl

abbrev failing : Verdict
failing = record {
  gate_id = "currency";
  passed = false;
  detail = "USD";
  versions = ("billing", "b1") ∷ ("gateway", "g1") ∷ [];
}

abbrev seven : List Signal
seven =
    verdict failing
    ∷ verdict failing
    ∷ verdict failing
    ∷ verdict failing
    ∷ verdict failing
    ∷ verdict failing
    ∷ verdict failing
    ∷ []

-- A participant that resubmits the same version forever is stopped at the third verdict.
capped_at_three :
    run_loop 0 (new_fix_cycle ("billing" ∷ "gateway" ∷ [])) seven ≡ some (capped failing 3)
unfolding run_loop new_fix_cycle completes start moved_now has_moved note_moved lookup copy_map
    insert
capped_at_three = refl

run_loop_bounded_example :
    (o : Outcome) × (run_loop 0 (new_fix_cycle ("billing" ∷ "gateway" ∷ [])) seven ≡ some o)
run_loop_bounded_example = run_loop_bounded ("billing" ∷ "gateway" ∷ []) seven (omega arith)
