-- ===== src/Pcops/Config/Valid.antt =====
-- What `Config.validate` of internal/pcops/config.go accepts.
use parallel_consciousness.Prelude.{
  ◌<◌, String, ◌==◌, eq_iff, ◌≡◌, ◌≢◌, ◌↔◌, refl, subst, true, false, Option, none, List, [], ◌∷◌,
  arith, if◌then◌else◌, length, Distinct, ◌⊎◌, inl, inr, Option-cases,
}
use parallel_consciousness.Prelude.Int.{ℤ, ◌<ℤ◌}
use parallel_consciousness.Pcops.Config.{
  Config, Refusal, check_agents, check_required, check_timeouts, check_names, is_empty, validate,
  RawConfig, load_config,
}
use parallel_consciousness.Pcops.Config.Loops.{
  participants, names_of, branches_of, Known, Complete, nil-Apart, check_agents-Checked, collect,
  check_agents-collect, Checked-check_agents, Known-collect, check_required_sound,
  check_required_complete,
}

-- What a scenario must satisfy.
pub record Valid (c : Config) : Type 0 where
  pub gate_named : c.gate_id ≢ ""
  pub runner_named : c.gate.runner ≢ ""
  pub runner_known : c.gate.runner ≡ c.runner.name
  pub required_some : 0 < length c.gate.required
  pub required_distinct : Distinct c.gate.required
  pub required_known : Known (names_of (participants c)) c.gate.required
  pub complete : Complete (participants c)
  pub names_distinct : Distinct (names_of (participants c))
  pub branches_distinct : Distinct (branches_of (participants c))
  pub timeouts : c.runner_timeout <ℤ c.submit_timeout

not-is_empty : (xs : List String) → (is_empty xs ≡ false) ↔ (0 < length xs)
unfolding is_empty
not-is_empty [] = (λ e. cc e, λ h. absurd (omega arith))
not-is_empty (x ∷ xs) = (λ _. omega arith, λ _. refl)

check_names-none :
    (c : Config) (r : List String ⊎ Refusal)
    → check_names c r ≡ none
    → (ns : List String) × (r ≡ inl ns)
      × (check_required ns [] c.gate.required ≡ none)
      × (check_timeouts c ≡ none)
unfolding check_names
check_names-none c (inr x) e = cc
check_names-none c (inl ns) e = elim (Option-cases (check_required ns [] c.gate.required)) [
  | inl l ↦ (ns, refl, l, ground (arith))
  | inr (x, l) ↦ absurd (ground arith)
]

-- The tests that `validate` makes before the loops.
abbrev Fronted : Config → Type 0
Fronted c =
    (c.gate_id ≢ "")
    × (c.gate.runner ≢ "")
    × (c.gate.runner ≡ c.runner.name)
    × (0 < length c.gate.required)

validate-front :
    (c : Config)
    → (validate c ≡ none)
      ↔ (Fronted c × (check_names c (check_agents [] [] (participants c)) ≡ none))
unfolding validate
validate-front c = (
  λ e. ground (arith, facts, not-is_empty c.gate.required),
  λ f. ground (arith, facts, not-is_empty c.gate.required),
)
  where
    facts :
        (((c.gate_id == "") ≡ true) ↔ (c.gate_id ≡ ""))
        × (((c.gate.runner == "") ≡ true) ↔ (c.gate.runner ≡ ""))
        × (((c.gate.runner == c.runner.name) ≡ true) ↔ (c.gate.runner ≡ c.runner.name))
    facts = (eq_iff c.gate_id "", eq_iff c.gate.runner "", eq_iff c.gate.runner c.runner.name)

Valid-check_names :
    (c : Config) → Valid c → check_names c (check_agents [] [] (participants c)) ≡ none
unfolding check_names check_timeouts
Valid-check_names c v =
    let agents = Checked-check_agents [] [] (participants c) (record {
      complete = v.complete;
      names_distinct = v.names_distinct;
      names_apart = nil-Apart _;
      branches_distinct = v.branches_distinct;
      branches_apart = nil-Apart _;
    }) in
    let req =
      check_required_complete (collect [] (participants c)) [] c.gate.required
        ((Known-collect (participants c) c.gate.required).1 v.required_known) v.required_distinct
        (nil-Apart c.gate.required) in
    rw (agents, req, v.timeouts)

-- `validate` accepts a scenario exactly when it is valid: the gate is named, its runner is the runner,
-- its required participants are at least one, distinct, and each a participant, every participant has
-- a name and a branch that no other has, and the submit timeout exceeds the runner timeout.
pub validate_exact : (c : Config) → (validate c ≡ none) ↔ Valid c
validate_exact c = (sound, complete)
  where
    sound : validate c ≡ none → Valid c
    sound e =
        let (front, back) = (validate-front c).0 e in
        let (ns, agents, req, times) = check_names-none c _ back in
        let checked = check_agents-Checked [] [] (participants c) ns agents in
        let (known, distinct, _) = check_required_sound ns [] c.gate.required req in
        record {
          gate_named = front.0;
          runner_named = front.1;
          runner_known = front.2;
          required_some = front.3;
          required_distinct = distinct;
          required_known = (Known-collect (participants c) c.gate.required).0 (
              subst (λ l. Known l c.gate.required)
                (check_agents-collect [] [] (participants c) ns agents) known);
          complete = checked.complete;
          names_distinct = checked.names_distinct;
          branches_distinct = checked.branches_distinct;
          timeouts = unfold check_timeouts in ground arith;
        }

    complete : Valid c → validate c ≡ none
    complete v =
        (validate-front c).1
          ((v.gate_named, v.runner_named, v.runner_known, v.required_some), Valid-check_names c v)

-- What `LoadConfig` returns is valid and has a database, which is $PC_DB where that is set.
pub load_config-Valid :
    (parse : String → Option ℤ) (pc_db : String) (raw : RawConfig) (c : Config)
    → load_config parse pc_db raw ≡ inl c
    → Valid c
      × (c.db ≢ "")
      × (c.db ≡ (if pc_db == "" then raw.db else pc_db))
      × (c.gate.required ≡ raw.gate.required)
unfolding load_config
load_config-Valid parse pc_db raw c e =
    let valid : validate c ≡ none = ground arith in
    ((validate_exact c).0 valid, ground (arith, eq_iff c.db ""), ground arith, ground arith)
