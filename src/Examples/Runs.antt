-- ===== src/Examples/Runs.antt =====
-- A run of the spanning test on a worktree whose history is a list of commits
-- (internal/pcops/rungate.go).
use parallel_consciousness.Prelude.{
  ℕ, String, ◌==◌, eq_refl, ◌≡◌, refl, true, none, some, List, [], ◌∷◌, if◌then◌else◌, contains,
  arith,
}
use parallel_consciousness.Prelude.Texts.{
  trim_space, trim_right_by, trim_left_by, is_space, is_empty,
}
use parallel_consciousness.Prelude.Int.{pos}
use parallel_consciousness.Dict.{lookup, insert}
use parallel_consciousness.Pcops.Config.{Config, AgentDef, effective_runner_timeout}
use parallel_consciousness.Pcops.Runner.{
  Ran, Tools, git_in, execute, participant_of, trim, merge_branches, merge_all, tested_by,
}
use parallel_consciousness.Pcops.Runner.Merging.{Laws, Resolved}
use parallel_consciousness.Protocol.{Stamp}
use parallel_consciousness.Pcops.Up.{Comes, hosted, execute-timeout}
use parallel_consciousness.Pcops.Runner.Verdicts.{versions_tested, passed_merged}

abbrev ok : String → Ran
ok s = record { out = s; error = none }

-- A branch is resolved to the commit of its own name; a reset empties the history.
unfoldable history_git : List String → List String → Ran × List String
history_git (c ∷ dir ∷ command ∷ edit ∷ quiet ∷ sha ∷ []) d =
    if command == "merge" then (ok "", sha ∷ d) else (ok "", [])
history_git (c ∷ dir ∷ command ∷ br ∷ []) d = (ok br, d)
history_git _ d = (ok "", d)

abbrev tools : Tools (List String)
tools = record { git = history_git; shell = λ dir command timeout d. (ok "", d) }

history_git-Laws : Laws tools "runner" contains
unfolding history_git git_in contains
history_git-Laws = record {
  merge_adds = λ sha d e. let z = eq_refl sha in cc;
  merge_keeps = λ sha old d e h. ground (arith, h);
  resolve_keeps = λ br old d h. h;
}

abbrev participant : String → String → AgentDef
participant name branch = record { name = name; branch = branch; role = ""; task = "" }

abbrev spanning : Config
spanning = record {
  repo = ".";
  db = "pc.db";
  gate_id = "currency";
  gate = record { required = "billing" ∷ "gateway" ∷ []; runner = "runner"; run = "make spanning" };
  agents = participant "billing" "b" ∷ participant "gateway" "g" ∷ [];
  runner = participant "runner" "r";
  submit_timeout = pos 20;
  runner_timeout = pos 10;
  wall = pos 0;
}

versions_tested_example :
    (on : List String) × (br : String) × ((execute tools spanning "runner"
        ("b" ∷ "g" ∷ [])
        "currency"
        []).1
      ≡ some on)
    × (lookup br (participant_of spanning.agents []) ≡ some "gateway")
    × (contains on "g" ≡ true)
    × Resolved tools "runner" br "g"
unfolding execute merge_all merge_branches git_in history_git trim trim_space trim_right_by
    trim_left_by is_space is_empty participant_of tested_by insert lookup
versions_tested_example =
    versions_tested tools spanning "runner" ("b" ∷ "g" ∷ []) contains history_git-Laws "currency"
      "gateway" "g" [] refl

passed_merged_example :
    (on : List String) × (sha : String) × ((execute tools spanning "runner"
        ("b" ∷ "g" ∷ [])
        "currency"
        []).1
      ≡ some on)
    × ((tools.shell "runner" "make spanning" (effective_runner_timeout spanning) on).0.error ≡ none)
    × (contains on sha ≡ true)
    × Resolved tools "runner" "g" sha
unfolding execute merge_all merge_branches git_in history_git trim trim_space trim_right_by
    trim_left_by is_space is_empty contains
passed_merged_example =
    passed_merged tools spanning "runner" ("b" ∷ "g" ∷ []) contains history_git-Laws "currency" "g"
      [] refl refl

abbrev stamps : ℕ → Stamp
stamps n = record { uuid = "message"; now = n }

execute-timeout_example :
    Comes (execute tools spanning "runner" ("b" ∷ "g" ∷ []) "currency" []) ("g" ∷ "b" ∷ []) (
      tools.shell "runner" "make spanning"
        (pos (hosted stamps spanning true).host.timeout)
        ("g" ∷ "b" ∷ []))
unfolding merge_all merge_branches git_in history_git trim trim_space trim_right_by trim_left_by
    is_space is_empty insert
execute-timeout_example =
    execute-timeout tools stamps spanning true "runner" ("b" ∷ "g" ∷ []) "currency" []
      ("g" ∷ "b" ∷ []) (("b", "b") ∷ ("g", "g") ∷ []) refl
