-- ===== src/Cmd.antt =====
-- cmd/pc/main.go: the commands of the shell, from their parsed flags to their exit code. What the
-- process reads of its surroundings is a parameter, and so is what internal/pcops returns.
pub mod Exits
pub mod Scenarios
use parallel_consciousness.Prelude.{
  ℕ, String, ◌==◌, ◌<>◌, ◌⊎◌, inl, inr, Bool, true, false, not, ◌&&◌, ◌||◌, Option, none, some,
  List, [], ◌∷◌, if◌then◌else◌,
}
use parallel_consciousness.Prelude.Texts.{trim_space}
use parallel_consciousness.Prelude.Int.{ℤ, pos, leb_ℤ}
use parallel_consciousness.Gate.{Verdict}
use parallel_consciousness.Pcops.Config.{
  Config, GateDef, AgentDef, RawConfig, Refusal, load_config, default_submit_timeout,
}
use parallel_consciousness.Pcops.Submit.{Result, verdict}

-- The environment variables, whether ./.pc.yaml is there, the reading and decoding of a scenario file,
-- time.ParseDuration, git in the current directory, and that directory; `inr` is an error's text.
pub record Env : Type 0 where
  pub pc_db : String
  pub pc_agent : String
  pub pc_submit_timeout : String
  pub has_default : Bool
  pub read : String → RawConfig ⊎ String
  pub parse_duration : String → Option ℤ
  pub git : List String → String ⊎ String
  pub getwd : String ⊎ String

-- The errors that the commands find before they call internal/pcops.
pub data CliError : Type 0 where
  unreadable : String → CliError
  refused : Refusal → CliError
  no_config : CliError
  no_scenario : String → CliError
  no_agents : CliError
  no_branch : String → CliError
  no_workdir : String → CliError
  no_commit : String → String → CliError
  no_version : String → CliError

-- `defaultConfigPath`
abbrev pub default_config_path : String
default_config_path = ".pc.yaml"

-- `strings.Join(fs.Args(), " ")`, and `fs.NArg() == 0`.
unfoldable pub join_words : List String → String
join_words [] = ""
join_words (x ∷ []) = x
join_words (x ∷ y ∷ rest) = x <> " " <> join_words (y ∷ rest)

unfoldable pub no_words : List String → Bool
no_words [] = true
no_words (x ∷ xs) = false

-- How a long-running command ends.
pub data Stop : Type 0 where
  finished cancelled deadline : Stop
  broken : String → Stop

-- `exitForDaemon`
unfoldable pub exit_for_daemon : Stop → ℕ
exit_for_daemon (broken e) = 2
exit_for_daemon _ = 0

-- `branchesFromConfig`, and its loop.
unfoldable pub branches_loop : List AgentDef → List String ⊎ CliError
branches_loop [] = inl []
branches_loop (a ∷ rest) =
    let more = branches_loop rest in
    if a.branch == ""
    then inr (no_branch a.name)
    else elim more [ inl bs ↦ inl (a.branch ∷ bs) | inr e ↦ inr e ]

unfoldable pub branches_from_config : Config → List String ⊎ CliError
branches_from_config c = elim c.agents [ [] ↦ inr no_agents | a ∷ rest ↦ branches_loop (a ∷ rest) ]

-- The gate that `cmdWatch` shows; the empty one is all of them.
unfoldable pub watched : Config → String → Bool → String
watched c gate_id everything =
    if everything then "" else if gate_id == "" then c.gate_id else gate_id

-- The flags of `pc submit`.
pub record SubmitFlags : Type 0 where
  pub gate_id : String
  pub as_agent : String
  pub version : String
  pub config : String

-- `run`: the argument lists of the six commands are theirs to parse.
unfoldable pub run : (init submit send up run_gate watch : List String → ℕ) → List String → ℕ
run init submit send up run_gate watch [] = 2
run init submit send up run_gate watch (c ∷ args) =
    if c == "init"
    then init args
    else if c == "submit"
    then submit args
    else if c == "send"
    then send args
    else if c == "up"
    then up args
    else if c == "run-gate"
    then run_gate args
    else if c == "watch"
    then watch args
    else 2

-- `cmdInit`: the exit code, and whether the scenario file is written. `directory` and `file` are the
-- errors of making the directory and of writing the file.
unfoldable pub cmd_init : Bool → Bool → Option String → Option String → ℕ × Bool
cmd_init exists force directory file = if exists && not force then (2, false) else elim directory [
  | some e ↦ (2, false)
  | none ↦ elim file [ some e ↦ (2, false) | none ↦ (0, true) ]
]

module _ (env : Env) where
  -- `pcops.LoadConfig` on a file.
  unfoldable pub load_file : String → Config ⊎ CliError
  load_file path = elim (env.read path) [
    | inr e ↦ inr (unreadable e)
    | inl raw ↦ elim (load_config env.parse_duration env.pc_db raw) [
      | inl c ↦ inl c
      | inr e ↦ inr (refused e)
    ]
  ]

  -- `submitTimeoutFromEnv`
  unfoldable pub submit_timeout_from_env : ℤ
  submit_timeout_from_env =
      if env.pc_submit_timeout == ""
      then default_submit_timeout
      else elim (env.parse_duration env.pc_submit_timeout) [
        | none ↦ default_submit_timeout
        | some d ↦ if leb_ℤ d (pos 0) then default_submit_timeout else d
      ]

  -- `pcops.Config{DB: db, SubmitTimeout: submitTimeoutFromEnv()}`
  unfoldable pub env_config : Config
  env_config =
      let nobody : AgentDef = record { name = ""; branch = ""; role = ""; task = "" } in
      record {
        repo = "";
        db = env.pc_db;
        gate_id = "";
        gate = record { required = []; runner = ""; run = "" };
        agents = [];
        runner = nobody;
        submit_timeout = submit_timeout_from_env;
        runner_timeout = pos 0;
        wall = pos 0;
      }

  -- `loadConfig`
  unfoldable pub load_any : String → Config ⊎ CliError
  load_any path =
      if not (path == "")
      then load_file path
      else if not (env.pc_db == "")
      then inl env_config
      else if env.has_default
      then load_file default_config_path
      else inr no_config

  -- `resolveConfig`
  unfoldable pub resolve_config : String → String → Config ⊎ CliError
  resolve_config path command =
      if not (path == "")
      then load_file path
      else if env.has_default
      then load_file default_config_path
      else inr (no_scenario command)

  -- `resolveVersion`
  unfoldable pub resolve_version : String → String ⊎ CliError
  resolve_version explicit =
      if not (explicit == "")
      then elim (env.git ("rev-parse" ∷ "--verify" ∷ "-q" ∷ (explicit <> "^{commit}") ∷ [])) [
        | inl out ↦ inl (trim_space out)
        | inr e ↦ inr (no_commit explicit e)
      ]
      else elim (env.git ("rev-parse" ∷ "HEAD" ∷ [])) [
        | inl out ↦ inl (trim_space out)
        | inr e ↦ inr (no_version e)
      ]

  -- The identity of `pc submit` and `pc send`.
  unfoldable pub identity : String → String
  identity given = if given == "" then env.pc_agent else given

  -- `cmdSubmit`: `submit` is `pcops.Submit` at a configuration, a gate, an agent and a version, `inr`
  -- being an error that is none of `Result`'s.
  unfoldable pub cmd_submit :
      (Config → String → String → String → Result ⊎ String) → SubmitFlags → ℕ
  cmd_submit submit f = elim (load_any f.config) [
    | inr e ↦ 2
    | inl cfg ↦
        let name = identity f.as_agent in
        let go : String ⊎ CliError → ℕ = λ r. elim r [
          | inr e ↦ 2
          | inl v ↦ elim (submit cfg f.gate_id name v) [
            | inr e ↦ 2
            | inl r ↦ elim r [
              | verdict d ↦ if d.passed then 0 else 1
              | Result.no_verdict ↦ 2
              | Result.not_acknowledged ↦ 2
              | Result.not_declared ↦ 2
              | Result.version_mismatch t ↦ 2
            ]
          ]
        ] in
        if (name == "") || (f.gate_id == "") then 2 else go (resolve_version f.version)
  ]

  -- `resolveRunGateConfig`
  unfoldable pub resolve_run_gate : String → String → (Config × String × List String) ⊎ CliError
  resolve_run_gate path workdir = elim (resolve_config path "run-gate") [
    | inr e ↦ inr e
    | inl c ↦ elim (branches_from_config c) [
      | inr e ↦ inr e
      | inl bs ↦
          if not (workdir == "")
          then inl (c, workdir, bs)
          else elim env.getwd [ inl wd ↦ inl (c, wd, bs) | inr e ↦ inr (no_workdir e) ]
    ]
  ]

  -- `cmdUp`
  unfoldable pub cmd_up : (Config → Stop) → String → ℕ
  cmd_up up path = elim (resolve_config path "up") [ inr e ↦ 2 | inl c ↦ exit_for_daemon (up c) ]

  -- `cmdRunGate`
  unfoldable pub cmd_run_gate : (Config → String → List String → Stop) → String → String → ℕ
  cmd_run_gate run_gate path workdir = elim (resolve_run_gate path workdir) [
    | inr e ↦ 2
    | inl (c, wd, bs) ↦ exit_for_daemon (run_gate c wd bs)
  ]

  -- `cmdWatch`
  unfoldable pub cmd_watch : (Config → String → Stop) → String → String → Bool → ℕ
  cmd_watch watch path gate_id everything = elim (resolve_config path "watch") [
    | inr e ↦ 2
    | inl c ↦ elim (watch c (watched c gate_id everything)) [
      | finished ↦ 0
      | cancelled ↦ 0
      | deadline ↦ 2
      | broken e ↦ 2
    ]
  ]

  -- `cmdSend`: `send` is the error of `pcops.Send` at a configuration, a sender, a recipient, an intent
  -- and a text.
  unfoldable pub cmd_send :
      (Config → String → String → String → String → Option String)
      → String
      → String
      → String
      → String
      → List String
      → ℕ
  cmd_send send path as_agent to intent words = elim (load_any path) [
    | inr e ↦ 2
    | inl cfg ↦
        let name = identity as_agent in
        let sent = send cfg name to intent (join_words words) in
        if (name == "") || ((to == "") || no_words words)
        then 2
        else elim sent [ none ↦ 0 | some e ↦ 2 ]
  ]
