-- ===== src/Cmd/Exits.antt =====
-- What the exit code of `pc submit` says (cmd/pc/main.go), down to the messages that the submit heard
-- (internal/pcops/submit.go).
use parallel_consciousness.Prelude.{
  String, ◌==◌, eq_iff, ◌≡◌, ◌≢◌, refl, ap, ◌∙◌, ◌⊎◌, inl, inr, ◌||◌, none, some, List, arith,
  if◌then◌else◌, Bool-cases, Option-cases, Sum-cases,
}
use parallel_consciousness.Gate.{Verdict}
use parallel_consciousness.Pcops.Config.{Config}
use parallel_consciousness.Pcops.Waiter.{Submission, Stage}
use parallel_consciousness.Pcops.Submit.{
  Result, verdict, no_verdict, not_acknowledged, not_declared, version_mismatch, Phase, declaring,
  unacknowledged, acknowledged, displaced, resolving, returned, Submit, Event, begin_submit,
}
use parallel_consciousness.Pcops.Submit as Submits
use parallel_consciousness.Cmd.{Env, load_any, identity, resolve_version, SubmitFlags, cmd_submit}

pub Result-cases :
    (r : Result ⊎ String)
    → ((d : Verdict) × (r ≡ inl (verdict d)))
      ⊎ ((r ≡ inl no_verdict)
          ⊎ ((r ≡ inl not_acknowledged)
              ⊎ (((t : String) × (r ≡ inl (version_mismatch t)))
                  ⊎ ((r ≡ inl not_declared) ⊎ ((e : String) × (r ≡ inr e))))))
Result-cases (inl (verdict d)) = inl (d, refl)
Result-cases (inl no_verdict) = inr (inl refl)
Result-cases (inl not_acknowledged) = inr (inr (inl refl))
Result-cases (inl (version_mismatch t)) = inr (inr (inr (inl (t, refl))))
Result-cases (inl not_declared) = inr (inr (inr (inr (inl refl))))
Result-cases (inr e) = inr (inr (inr (inr (inr (e, refl)))))

-- The exit code of `pc submit` is 2, or else a verdict arrived for a configuration that loads, an agent
-- and a gate that are named, and a version that git resolves: 0 when the verdict passed, and 1 when it
-- did not.
pub submit_exit_code :
    (env : Env) (submit : Config → String → String → String → Result ⊎ String) (f : SubmitFlags)
    → (cmd_submit env submit f ≡ 2)
      ⊎ ((cfg : Config) × (v : String) × (d : Verdict) × (load_any env f.config ≡ inl cfg)
          × (identity env f.as_agent ≢ "")
          × (f.gate_id ≢ "")
          × (resolve_version env f.version ≡ inl v)
          × (submit cfg f.gate_id (identity env f.as_agent) v ≡ inl (verdict d))
          × (cmd_submit env submit f ≡ (if d.passed then 0 else 1)))
unfolding cmd_submit
submit_exit_code env submit f = elim (Sum-cases (load_any env f.config)) [
  | inr (e, q) ↦ inl cc
  | inl (cfg, q) ↦
      let name = identity env f.as_agent in
      elim (Bool-cases ((name == "") || (f.gate_id == ""))) [
        | inl p ↦ inl cc
        | inr p ↦
            let a : name ≢ "" = λ z. ground (arith, eq_iff name "", z) in
            let b : f.gate_id ≢ "" = λ z. ground (arith, eq_iff f.gate_id "", z) in
            elim (Sum-cases (resolve_version env f.version)) [
              | inr (e, r) ↦ inl cc
              | inl (v, r) ↦ elim (Result-cases (submit cfg f.gate_id name v)) [
                | inl (d, s) ↦ inr (cfg, v, d, q, a, b, r, s, cc)
                | inr (inl s) ↦ inl cc
                | inr (inr (inl s)) ↦ inl cc
                | inr (inr (inr (inl (t, s)))) ↦ inl cc
                | inr (inr (inr (inr (inl s)))) ↦ inl cc
                | inr (inr (inr (inr (inr (e, s))))) ↦ inl cc
              ]
            ]
      ]
]

-- `pcops.Submit` on one sequence of events.
unfoldable pub submit_on : List Event → Config → String → String → String → Result ⊎ String
submit_on es cfg gate_id agent version =
    let s : Submission = record { gate_id = gate_id; agent = agent; version = version } in
    elim (begin_submit s) [
      | none ↦ inr "invalid"
      | some u0 ↦ elim (Submits.run s es u0) [
        | none ↦ inr "not a run"
        | some u ↦ elim u.phase [
          | returned r ↦ inl r
          | declaring st ↦ inr "waiting"
          | unacknowledged ↦ inr "waiting"
          | acknowledged ↦ inr "waiting"
          | displaced ↦ inr "waiting"
          | resolving ↦ inr "waiting"
        ]
      ]
    ]

pub Phase-cases :
    (p : Phase)
    → ((r : Result) × (p ≡ returned r))
      ⊎ ((p ≡ unacknowledged)
          ⊎ ((p ≡ acknowledged)
              ⊎ ((p ≡ displaced) ⊎ ((p ≡ resolving) ⊎ ((st : Stage) × (p ≡ declaring st))))))
Phase-cases (returned r) = inl (r, refl)
Phase-cases unacknowledged = inr (inl refl)
Phase-cases acknowledged = inr (inr (inl refl))
Phase-cases displaced = inr (inr (inr (inl refl)))
Phase-cases resolving = inr (inr (inr (inr (inl refl))))
Phase-cases (declaring st) = inr (inr (inr (inr (inr (st, refl)))))

-- A verdict that a submit returns comes from a run that ended with it.
pub submit_on-run :
    (es : List Event) (cfg : Config) (gate_id agent version : String) (d : Verdict)
    → submit_on es cfg gate_id agent version ≡ inl (verdict d)
    → let s : Submission = record { gate_id = gate_id; agent = agent; version = version } in
      (u0 : Submit) × (u : Submit) × (begin_submit s ≡ some u0)
      × (Submits.run s es u0 ≡ some u)
      × (u.phase ≡ returned (verdict d))
unfolding submit_on
submit_on-run es cfg gate_id agent version d e =
    let s : Submission = record { gate_id = gate_id; agent = agent; version = version } in
    elim (Option-cases (begin_submit s)) [
      | inl a ↦ absurd cc
      | inr (u0, a) ↦ elim (Option-cases (Submits.run s es u0)) [
        | inl b ↦ absurd cc
        | inr (u, b) ↦ elim (Phase-cases u.phase) [
          | inl (r, c) ↦ let z : r ≡ verdict d = cc in (u0, u, a, b, c ∙ ap returned z)
          | inr (inl c) ↦ absurd cc
          | inr (inr (inl c)) ↦ absurd cc
          | inr (inr (inr (inl c))) ↦ absurd cc
          | inr (inr (inr (inr (inl c)))) ↦ absurd cc
          | inr (inr (inr (inr (inr (st, c))))) ↦ absurd cc
        ]
      ]
    ]
