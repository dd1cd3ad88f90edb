-- ===== src/Cmd/Scenarios.antt =====
-- The scenarios that the commands run with (cmd/pc/main.go): one database, the branches to merge, the
-- gate to show, the time to wait.
use parallel_consciousness.Prelude.{
  String, ◌==◌, eq_iff, ◌≡◌, ◌≢◌, refl, sym, ap, ◌∙◌, ◌⊎◌, inl, inr, Bool, true, false, arith,
  if◌then◌else◌, Bool-cases, Option-cases, Sum-cases, ◌↔◌,
}
use parallel_consciousness.Prelude.Int.{pos, leb_ℤ, ◌<ℤ◌}
use parallel_consciousness.Pcops.Config.{
  Config, load_config, default_submit_timeout, effective_submit_timeout,
}
use parallel_consciousness.Pcops.Config.Valid.{Valid, load_config-Valid}
use parallel_consciousness.Cmd.{
  Env, load_file, load_any, resolve_config, default_config_path, submit_timeout_from_env,
  env_config, watched,
}

-- A file that loads is a valid scenario, and its database is $PC_DB if that is set.
pub load_file-Valid :
    (env : Env) (path : String) (c : Config)
    → load_file env path ≡ inl c
    → Valid c × (c.db ≢ "") × (env.pc_db ≢ "" → c.db ≡ env.pc_db)
unfolding load_file
load_file-Valid env path c e = elim (Sum-cases (env.read path)) [
  | inr (x, q) ↦ absurd cc
  | inl (raw, q) ↦ elim (Sum-cases (load_config env.parse_duration env.pc_db raw)) [
    | inr (x, p) ↦ absurd cc
    | inl (c', p) ↦
        let same : c' ≡ c = cc in
        let (v, d, w, r) = load_config-Valid env.parse_duration env.pc_db raw c (p ∙ ap inl same) in
        (v, d, λ n. let z : env.pc_db == "" ≡ false = ground (arith, eq_iff env.pc_db "", n) in cc)
  ]
]

pub resolve_config-Valid :
    (env : Env) (path command : String) (c : Config)
    → resolve_config env path command ≡ inl c
    → Valid c
unfolding resolve_config
resolve_config-Valid env path command c e = elim (Bool-cases (path == "")) [
  | inr p ↦ (load_file-Valid env path c cc).0
  | inl p ↦ elim (Bool-cases env.has_default) [
    | inr q ↦ absurd cc
    | inl q ↦ (load_file-Valid env default_config_path c cc).0
  ]
]

-- A configuration that a command loads while $PC_DB is set is on that database: whether the command
-- needs a scenario or not, takes it from a file by name or from the file of the directory, or, needing
-- none and finding none, makes one of the environment alone.
pub one_database :
    (env : Env) (path command : String) (c : Config)
    → env.pc_db ≢ ""
    → (load_any env path ≡ inl c) ⊎ (resolve_config env path command ≡ inl c)
    → c.db ≡ env.pc_db
unfolding load_any resolve_config env_config
one_database env path command c n (inl e) =
    let z : env.pc_db == "" ≡ false = ground (arith, eq_iff env.pc_db "", n) in
    elim (Bool-cases (path == "")) [
      | inr p ↦ (load_file-Valid env path c cc).2 n
      | inl p ↦ let w : env_config env ≡ c = cc in ap (λ x. x.db) (sym w)
    ]
one_database env path command c n (inr e) = elim (Bool-cases (path == "")) [
  | inr p ↦ (load_file-Valid env path c cc).2 n
  | inl p ↦ elim (Bool-cases env.has_default) [
    | inr q ↦ absurd cc
    | inl q ↦ (load_file-Valid env default_config_path c cc).2 n
  ]
]

-- On a scenario that loads, `pc watch` shows every gate exactly when it is asked to: no flag that is
-- left out or empty widens the feed.
pub watched_everything :
    (env : Env) (path command gate_id : String) (everything : Bool) (c : Config)
    → resolve_config env path command ≡ inl c
    → (watched c gate_id everything ≡ "") ↔ (everything ≡ true)
unfolding watched
watched_everything env path command gate_id everything c e =
    let n = (resolve_config-Valid env path command c e).gate_named in
    (
      λ w. elim (Bool-cases everything) [
        | inl p ↦ p
        | inr p ↦ elim (Bool-cases (gate_id == "")) [
          | inl q ↦ absurd (n (let z : c.gate_id ≡ "" = cc in z))
          | inr q ↦ let z : gate_id ≡ "" = cc in absurd (ground (arith, eq_iff gate_id "", z, q))
        ]
      ],
      λ w. cc,
    )

-- The time that a submit without a scenario waits is positive, and is the one that its configuration
-- says: $PC_SUBMIT_TIMEOUT if that is a positive duration, and the default otherwise.
pub env_config_timeout :
    (env : Env)
    → (pos 0 <ℤ (env_config env).submit_timeout)
      × (effective_submit_timeout (env_config env) ≡ submit_timeout_from_env env)
unfolding env_config submit_timeout_from_env effective_submit_timeout
env_config_timeout env =
    let t = submit_timeout_from_env env in
    let base : leb_ℤ default_submit_timeout (pos 0) ≡ false = refl in
    let positive : leb_ℤ t (pos 0) ≡ false = elim (Bool-cases (env.pc_submit_timeout == "")) [
      | inl p ↦ let z : t ≡ default_submit_timeout = cc in ap (λ x. leb_ℤ x (pos 0)) z ∙ base
      | inr p ↦ elim (Option-cases (env.parse_duration env.pc_submit_timeout)) [
        | inl q ↦ let z : t ≡ default_submit_timeout = cc in ap (λ x. leb_ℤ x (pos 0)) z ∙ base
        | inr (d, q) ↦ elim (Bool-cases (leb_ℤ d (pos 0))) [
          | inl r ↦ let z : t ≡ default_submit_timeout = cc in ap (λ x. leb_ℤ x (pos 0)) z ∙ base
          | inr r ↦ let z : t ≡ d = cc in ap (λ x. leb_ℤ x (pos 0)) z ∙ r
        ]
      ]
    ] in
    (positive, ap (λ b. if b then default_submit_timeout else t) positive)
