-- ===== src/Pcops/Submit/Hearing.antt =====
-- What a message says to a submission, and how it changes the waiter (internal/pcops/submit.go).
use mathlib.Core.List.{Memᴰ}
use parallel_consciousness.Prelude.{
  ◌≤◌, String, eq_iff, ◌≡◌, ◌≢◌, refl, ◌⊎◌, inl, inr, true, ◌&&◌, some, [], arith, get_or,
  Bool-cases, Option-cases,
}
use parallel_consciousness.Dict.{lookup}
use parallel_consciousness.Protocol.{Intent, Message, text_field, as_flag}
use parallel_consciousness.Protocol.Body.{versions}
use parallel_consciousness.Gate.{Verdict}
use parallel_consciousness.Pcops.Waiter.{
  Waiter, fresh, offer_verdict, offer_ack, offer_nack, offer_declined, offer_mismatch, Submission,
  Inform, classify, signal, concerns, hear, decide, send, Signal, gives_verdict, gives_ack,
  gives_nack, gives_declined, gives_mismatch, judged, ignored, foreign, answers, names,
}
use parallel_consciousness.Pcops.Submit.{Submit, in_flight}

-- A verdict for a submission has its gate, names its agent at its version, and has a detail only if it
-- failed.
pub classify_answers :
    (s : Submission) (m : Message) (v : Verdict)
    → s.version ≢ ""
    → classify s m ≡ answers v
    → (text_field "gate" m.body ≡ s.gate_id)
      × (lookup s.agent v.versions ≡ some s.version)
      × (as_flag (lookup "passed" m.body) ≡ some v.passed)
      × (v.versions ≡ get_or (versions (lookup "versions" m.body)) [])
      × (v.passed ≡ true → v.detail ≡ "")
unfolding classify
classify_answers s m v n e =
    let vs = get_or (versions (lookup "versions" m.body)) [] in
    elim (Option-cases (as_flag (lookup "passed" m.body))) [
      | inl p ↦ absurd (ground arith)
      | inr (passed, p) ↦ elim (Option-cases (lookup s.agent vs)) [
        | inl l ↦ ground (arith, eq_iff (text_field "gate" m.body) s.gate_id, eq_iff "" s.version)
        | inr (x, l) ↦
            ground (arith, eq_iff (text_field "gate" m.body) s.gate_id, eq_iff x s.version)
      ]
    ]

-- A broadcast that names the agent otherwise names it at another version.
pub classify_names :
    (s : Submission) (m : Message) (tested : String)
    → classify s m ≡ names tested
    → (text_field "gate" m.body ≡ s.gate_id)
      × (lookup s.agent (get_or (versions (lookup "versions" m.body)) []) ≡ some tested)
      × (tested ≢ s.version)
unfolding classify
classify_names s m tested e =
    let vs = get_or (versions (lookup "versions" m.body)) [] in
    elim (Option-cases (as_flag (lookup "passed" m.body))) [
      | inl p ↦ absurd (ground arith)
      | inr (passed, p) ↦ elim (Option-cases (lookup s.agent vs)) [
        | inl l ↦ absurd (ground arith)
        | inr (x, l) ↦
            ground (arith, eq_iff (text_field "gate" m.body) s.gate_id, eq_iff x s.version)
      ]
    ]

-- A message that was heard and whose handler passed the fence: it is no older than the last stamp, or
-- its handler was under way at that stamp.
abbrev pub Fenced : Submit → Message → Type 0
Fenced u m = Memᴰ m u.heard × ((u.waiter.ready_at ≤ m.timestamp) ⊎ (u.straddling ≡ some m))

-- A fenced message of which the handler makes a verdict.
abbrev pub Said : Submission → Submit → Verdict → Type 0
Said s u v = (m : Message) × Fenced u m × (m.intent ≡ Intent.inform) × (classify s m ≡ answers v)

signal-answers :
    (c : Inform) (w : Waiter) (v : Verdict) → signal c w ≡ some (gives_verdict v) → c ≡ answers v
unfolding signal
signal-answers ignored w v e = absurd cc
signal-answers foreign w v e = absurd cc
signal-answers (answers u) w v e = cc
signal-answers (names t) w v e = elim (Bool-cases w.recorded) [
  | inl r ↦ absurd cc
  | inr r ↦ absurd cc
]

-- The signal of a verdict comes from a broadcast with that verdict.
pub decide-verdict :
    (s : Submission) (i : Intent) (m : Message) (w : Waiter) (v : Verdict)
    → (decide s i m w).1 ≡ some (gives_verdict v)
    → (i ≡ Intent.inform) × (classify s m ≡ answers v)
unfolding decide
decide-verdict s Intent.inform m w v e = (refl, signal-answers (classify s m) w v e)
decide-verdict s Intent.ack m w v e = absurd cc
decide-verdict s Intent.nack m w v e = absurd cc
decide-verdict s i m w v e = absurd cc

-- Behind `fresh`, a handler changes no boundary and no verdict.
pub decide-same :
    (s : Submission) (i : Intent) (m : Message) (w : Waiter)
    → ((decide s i m w).0.ready_at ≡ w.ready_at) × ((decide s i m w).0.verdicts ≡ w.verdicts)
unfolding decide
decide-same s Intent.inform m w = (refl, refl)
decide-same s Intent.ack m w = (refl, refl)
decide-same s Intent.nack m w = (refl, refl)
decide-same s i m w = (refl, refl)

-- A send keeps the boundary, and buffers a verdict only if that is its signal.
pub send-same :
    (g : Signal) (w : Waiter)
    → ((send g w).ready_at ≡ w.ready_at)
      × ((v : Verdict)
          → (send g w).verdicts ≡ some v
          → (w.verdicts ≡ some v) ⊎ (g ≡ gives_verdict v))
unfolding send offer_verdict offer_ack offer_nack offer_declined offer_mismatch
send-same (gives_verdict x) w =
    (refl, λ v e. elim (Option-cases w.verdicts) [ inl k ↦ inr cc | inr (y, k) ↦ inl cc ])
send-same (gives_ack x) w = (refl, λ v e. inl e)
send-same (gives_nack x) w = (refl, λ v e. inl e)
send-same gives_declined w = (refl, λ v e. inl e)
send-same (gives_mismatch x) w = (refl, λ v e. inl e)

-- A handler goes on only with its own message, and only if that is fresh.
pub hear-fresh :
    (s : Submission) (m x : Message) (w : Waiter)
    → in_flight (hear s m w) ≡ some x
    → (x ≡ m) × (w.ready_at ≤ m.timestamp) × (hear s m w ≡ judged m)
unfolding hear in_flight fresh
hear-fresh s m x w e = elim (Bool-cases (concerns s m.intent m && fresh w m)) [
  | inl k ↦ (cc, ground arith, cc)
  | inr k ↦ absurd cc
]
