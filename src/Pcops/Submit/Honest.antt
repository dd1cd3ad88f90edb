-- ===== src/Pcops/Submit/Honest.antt =====
-- What a submit returns was said to it, about its own version, and what fences it
-- (internal/pcops/submit.go).
use mathlib.Core.List.{Memᴰ}
use parallel_consciousness.Prelude.{
  eq_iff, ◌≡◌, ◌≢◌, refl, sym, ap, ◌∙◌, subst, ◌⊎◌, inl, inr, some, List, [], ◌∷◌, arith, get_or,
  Option-cases,
}
use parallel_consciousness.Dict.{lookup}
use parallel_consciousness.Protocol.{Intent, Message, text_field, as_flag}
use parallel_consciousness.Protocol.Body.{versions}
use parallel_consciousness.Gate.{Verdict}
use parallel_consciousness.Pcops.Waiter.{
  new_submit_waiter, Submission, classify, fresh, hear, decide, send, Signal, gives_verdict,
  Handler, idle, judged, sending, answers,
}
use parallel_consciousness.Pcops.Submit.{
  verdict, returned, Submit, Event, hears, decides, sends, in_flight, begin_submit, hear_step,
  decide_step, send_step, submit_step, run,
}
use parallel_consciousness.Pcops.Submit.Hearing.{
  classify_answers, Fenced, decide-verdict, decide-same, send-same, hear-fresh,
}
use parallel_consciousness.Pcops.Submit.Fence.{
  IsHonest, Keeps, Keeps-Fenced, Keeps-Said, arm-IsHonest,
}

same_submit : {u u' : Submit} → some u ≡ some u' → u ≡ u'
same_submit e = cc

Handler-cases :
    (k : Handler)
    → (k ≡ idle)
      ⊎ (((m : Message) × (k ≡ judged m)) ⊎ ((m : Message) × (g : Signal) × (k ≡ sending m g)))
Handler-cases idle = inl refl
Handler-cases (judged m) = inr (inl (m, refl))
Handler-cases (sending m g) = inr (inr (m, g, refl))

hear-IsHonest :
    (s : Submission) (m : Message) (u : Submit)
    → IsHonest s u
    → IsHonest s (record u { handler = hear s m u.waiter; heard = m ∷ u.heard })
unfolding in_flight
hear-IsHonest s m u h =
    let u' = record u { handler = hear s m u.waiter; heard = m ∷ u.heard } in
    let k : Keeps u u' = record {
      heard = λ x e. Memᴰ.tail e;
      boundary = refl;
      straddling = refl;
    } in
    record {
      verdicts = λ v d e. Keeps-Said s u u' v k (h.verdicts v d e);
      flight = λ x e.
          let (same, fresh, j) = hear-fresh s m x u.waiter e in
          subst (Fenced u') (sym same) (Memᴰ.head refl, inl fresh);
      signal =
          λ x v e. let (same, fresh, j) = hear-fresh s m x u.waiter (ap in_flight e) in absurd cc;
      verdict_returned = λ v e. Keeps-Said s u u' v k (h.verdict_returned v e);
    }

hear_step-IsHonest :
    (s : Submission) (m : Message) (u u' : Submit)
    → hear_step s m u ≡ some u'
    → IsHonest s u
    → IsHonest s u'
unfolding hear_step
hear_step-IsHonest s m u u' t h = elim (Handler-cases u.handler) [
  | inl q ↦
      let z : record u { handler = hear s m u.waiter; heard = m ∷ u.heard } ≡ u' = cc in
      subst (IsHonest s) z (hear-IsHonest s m u h)
  | inr (inl (x, q)) ↦ absurd cc
  | inr (inr (x, g, q)) ↦ absurd cc
]

-- A handler that comes to its signal, or ends without one.
decide-IsHonest :
    (s : Submission) (m : Message) (k : Handler) (u : Submit)
    → u.handler ≡ judged m
    → ((k ≡ idle)
        ⊎ ((g : Signal) × (k ≡ sending m g) × ((decide s m.intent m u.waiter).1 ≡ some g)))
    → IsHonest s u
    → IsHonest s (record u { waiter = (decide s m.intent m u.waiter).0; handler = k })
unfolding in_flight
decide-IsHonest s m k u q c h =
    let u' = record u { waiter = (decide s m.intent m u.waiter).0; handler = k } in
    let (b, ch) = decide-same s m.intent m u.waiter in
    let keeps : Keeps u u' = record { heard = λ x e. e; boundary = b; straddling = refl } in
    record {
      verdicts = λ v d e. Keeps-Said s u u' v keeps (h.verdicts v d (sym ch ∙ e));
      flight = λ x e. elim c [
        | inl i ↦ absurd cc
        | inr (g, i, y) ↦
            Keeps-Fenced u u' x keeps (h.flight x (let z : in_flight u.handler ≡ some x = cc in z))
      ];
      signal = λ x v e. elim c [
        | inl i ↦ absurd cc
        | inr (g, i, y) ↦
            let same : m ≡ x = cc in
            let z : (decide s m.intent m u.waiter).1 ≡ some (gives_verdict v) = cc in
            let (i', c') = decide-verdict s m.intent m u.waiter v z in
            subst (λ n. (n.intent ≡ Intent.inform) × (classify s n ≡ answers v)) same (i', c')
      ];
      verdict_returned = λ v e. Keeps-Said s u u' v keeps (h.verdict_returned v e);
    }

decide_step-IsHonest :
    (s : Submission) (u u' : Submit) → decide_step s u ≡ some u' → IsHonest s u → IsHonest s u'
unfolding decide_step
decide_step-IsHonest s u u' t h = elim (Handler-cases u.handler) [
  | inl q ↦ absurd cc
  | inr (inr (x, g, q)) ↦ absurd cc
  | inr (inl (m, q)) ↦ elim (Option-cases (decide s m.intent m u.waiter).1) [
    | inl y ↦
        let z : record u { waiter = (decide s m.intent m u.waiter).0; handler = idle } ≡ u' = cc in
        subst (IsHonest s) z (decide-IsHonest s m idle u q (inl refl) h)
    | inr (g, y) ↦
        let k = sending m g in
        let z : record u { waiter = (decide s m.intent m u.waiter).0; handler = k } ≡ u' = cc in
        subst (IsHonest s) z (decide-IsHonest s m k u q (inr (g, refl, y)) h)
  ]
]

send-IsHonest :
    (s : Submission) (m : Message) (g : Signal) (u : Submit)
    → u.handler ≡ sending m g
    → IsHonest s u
    → IsHonest s (record u { waiter = send g u.waiter; handler = idle })
unfolding in_flight
send-IsHonest s m g u q h =
    let u' = record u { waiter = send g u.waiter; handler = idle } in
    let (b, ch) = send-same g u.waiter in
    let keeps : Keeps u u' = record { heard = λ x e. e; boundary = b; straddling = refl } in
    record {
      verdicts = λ v d e. elim (ch v e) [
        | inl k ↦ Keeps-Said s u u' v keeps (h.verdicts v d k)
        | inr k ↦
            let (i, c) = h.signal m v (q ∙ ap (sending m) k) in
            (m, Keeps-Fenced u u' m keeps (h.flight m (ap in_flight q)), i, c)
      ];
      flight = λ x e. absurd cc;
      signal = λ x v e. absurd cc;
      verdict_returned = λ v e. Keeps-Said s u u' v keeps (h.verdict_returned v e);
    }

send_step-IsHonest :
    (s : Submission) (u u' : Submit) → send_step u ≡ some u' → IsHonest s u → IsHonest s u'
unfolding send_step
send_step-IsHonest s u u' t h = elim (Handler-cases u.handler) [
  | inl q ↦ absurd cc
  | inr (inl (m, q)) ↦ absurd cc
  | inr (inr (m, g, q)) ↦
      let z : record u { waiter = send g u.waiter; handler = idle } ≡ u' = cc in
      subst (IsHonest s) z (send-IsHonest s m g u q h)
]

submit_step-IsHonest :
    (s : Submission) (e : Event) (u u' : Submit)
    → submit_step s e u ≡ some u'
    → IsHonest s u
    → IsHonest s u'
unfolding submit_step
submit_step-IsHonest s (hears m) u u' t h = hear_step-IsHonest s m u u' t h
submit_step-IsHonest s decides u u' t h = decide_step-IsHonest s u u' t h
submit_step-IsHonest s sends u u' t h = send_step-IsHonest s u u' t h
submit_step-IsHonest s e u u' t h = arm-IsHonest s e u u' t h

run-IsHonest :
    (s : Submission) (es : List Event) (u u' : Submit)
    → run s es u ≡ some u'
    → IsHonest s u
    → IsHonest s u'
unfolding run
run-IsHonest s [] u u' r h = subst (IsHonest s) (same_submit r) h
run-IsHonest s (e ∷ es) u u' r h = elim (Option-cases (submit_step s e u)) [
  | inl k ↦ absurd (ground arith)
  | inr (w, k) ↦ run-IsHonest s es w u' (ground arith) (submit_step-IsHonest s e u w k h)
]

begin_submit-IsHonest :
    (s : Submission) (u : Submit) → begin_submit s ≡ some u → (s.version ≢ "") × IsHonest s u
unfolding begin_submit new_submit_waiter in_flight
begin_submit-IsHonest s u b = (
  ground (arith, eq_iff s.version ""),
  record {
    verdicts = λ v d e. absurd (ground arith);
    flight = λ m e. absurd (ground arith);
    signal = λ m v e. absurd (ground arith);
    verdict_returned = λ v e. absurd (ground arith);
  },
)

-- A verdict that a submit returns, after any deliveries, at whatever points the handlers and the attempt
-- loop interleave, is what a broadcast said that the submit heard: one for its gate, with the same
-- outcome, that names its agent at exactly the version submitted. The broadcast is no older than the
-- last stamp of a declaration, unless its handler had passed the fence before that stamp and was still
-- under way.
pub submit_verdict :
    (s : Submission) (es : List Event) (u0 u : Submit)
    → begin_submit s ≡ some u0
    → run s es u0 ≡ some u
    → (v : Verdict) → u.phase ≡ returned (verdict v)
    → (m : Message) × Fenced u m
      × (m.intent ≡ Intent.inform)
      × (text_field "gate" m.body ≡ s.gate_id)
      × (as_flag (lookup "passed" m.body) ≡ some v.passed)
      × (lookup s.agent v.versions ≡ some s.version)
      × (v.versions ≡ get_or (versions (lookup "versions" m.body)) [])
submit_verdict s es u0 u begun ran v e =
    let (n, h) = begin_submit-IsHonest s u0 begun in
    let (m, f, i, c) = (run-IsHonest s es u0 u ran h).verdict_returned v e in
    let a = classify_answers s m v n c in (m, f, i, a.0, a.2, a.1, a.3)
