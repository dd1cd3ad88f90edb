-- ===== src/Pcops/Submit/Gap.antt =====
-- The gap in the fence of a submit (internal/pcops/submitwaiter.go): the lock is released between
-- `fresh` and the send of a handler.
use parallel_consciousness.Prelude.{
  ℕ, ◌<◌, eq_iff, ◌≡◌, ◌≢◌, refl, sym, ap, subst, inl, inr, none, some, Option, List, [], ◌∷◌,
  arith, Option-cases,
}
use parallel_consciousness.Dict.{lookup}
use parallel_consciousness.Protocol.{Intent, Message, as_flag}
use parallel_consciousness.Gate.{Verdict}
use parallel_consciousness.Pcops.Waiter.{
  new_submit_waiter, declare_ready, stamping, Submission, classify, Waiter, fresh, concerns, signal,
  offer_verdict, hear, decide, send, Signal, gives_verdict, Handler, idle, judged, sending, answers,
}
use parallel_consciousness.Pcops.Submit.{
  verdict, declaring, unacknowledged, returned, Submit, Event, hears, decides, sends, takes_verdict,
  proceeds, in_flight, after_stage, declare_stage, begin_submit, arm, hear_step, decide_step,
  send_step, submit_step, run,
}

-- A broadcast with a verdict passes the fence of a waiter that has not been stamped.
stale-judged :
    (s : Submission) (m : Message) (v : Verdict)
    → m.intent ≡ Intent.inform
    → classify s m ≡ answers v
    → hear s m new_submit_waiter ≡ judged m
unfolding hear concerns classify fresh new_submit_waiter
stale-judged s m v i c = elim (Option-cases (as_flag (lookup "passed" m.body))) [
  | inl p ↦ absurd (ground arith)
  | inr (passed, p) ↦ ground arith
]

-- A submit that has declared itself once, at `now`, beside a handler.
abbrev declared_beside : Message → ℕ → Handler → Submit
declared_beside m now k = record {
  waiter = record new_submit_waiter { ready_at = now };
  handler = k;
  phase = unacknowledged;
  heard = m ∷ [];
  declared = 1;
  straddling = in_flight k;
}

decides-verdict :
    (s : Submission) (m : Message) (v : Verdict) (w : Waiter)
    → m.intent ≡ Intent.inform
    → classify s m ≡ answers v
    → decide s m.intent m w ≡ (w, some (gives_verdict v))
unfolding decide signal
decides-verdict s m v w i c = cc

decide_step-verdict :
    (s : Submission) (m : Message) (now : ℕ) (v : Verdict)
    → m.intent ≡ Intent.inform
    → classify s m ≡ answers v
    → decide_step s (declared_beside m now (judged m))
      ≡ some (record (declared_beside m now (judged m)) { handler = sending m (gives_verdict v) })
unfolding decide_step
decide_step-verdict s m now v i c =
    let u : Submit = declared_beside m now (judged m) in
    let made = λ (x : Waiter × Option Signal). elim x.1 as (λ o. Option Submit) [
      | none ↦ some (record u { waiter = x.0; handler = idle })
      | some g ↦ some (record u { waiter = x.0; handler = sending m g })
    ] in
    ap made (decides-verdict s m v u.waiter i c)

run-cons :
    (s : Submission) (e : Event) (es : List Event) (u u' : Submit)
    → submit_step s e u ≡ some u'
    → run s (e ∷ es) u ≡ run s es u'
unfolding run
run-cons s e es u u' q = rw (q, run) refl

stale-run :
    (s : Submission) (m : Message) (now : ℕ) (v : Verdict) (k : Handler)
    → m.intent ≡ Intent.inform
    → classify s m ≡ answers v
    → k ≡ judged m
    → run s (decides ∷ sends ∷ takes_verdict ∷ []) (declared_beside m now k)
      ≡ some (record (declared_beside m now k) { handler = idle; phase = returned (verdict v) })
unfolding run submit_step send_step send offer_verdict arm new_submit_waiter
stale-run s m now v k i c e =
    let u : Submit = declared_beside m now (judged m) in
    let t =
      run-cons s decides (sends ∷ takes_verdict ∷ []) u
        (record u { handler = sending m (gives_verdict v) }) (decide_step-verdict s m now v i c) in
    subst
      (λ x.
        run s (decides ∷ sends ∷ takes_verdict ∷ []) (declared_beside m now x)
        ≡ some (record (declared_beside m now x) { handler = idle; phase = returned (verdict v) }))
      (sym e) t

-- The fence has a gap. A broadcast of any age, dispatched before the first declaration, passes `fresh`;
-- when its handler sends its verdict behind the drains, the submit returns it, although it is older
-- than the declaration and nothing else has been heard.
pub stale_verdict_returned :
    (s : Submission) (m : Message) (now : ℕ) (v : Verdict)
    → s.version ≢ ""
    → m.intent ≡ Intent.inform
    → classify s m ≡ answers v
    → m.timestamp < now
    → (es : List Event) × (u0 : Submit) × (u : Submit) × (begin_submit s ≡ some u0)
      × (run s es u0 ≡ some u)
      × (u.phase ≡ returned (verdict v))
      × (u.heard ≡ m ∷ [])
      × (m.timestamp < u.waiter.ready_at)
unfolding run submit_step hear_step arm declare_stage declare_ready after_stage begin_submit
    new_submit_waiter in_flight
stale_verdict_returned s m now v n i c old =
    let p = proceeds now in
    let k = hear s m new_submit_waiter in
    (
      hears m ∷ p ∷ p ∷ p ∷ p ∷ p ∷ p ∷ p ∷ p ∷ decides ∷ sends ∷ takes_verdict ∷ [],
      record {
        waiter = new_submit_waiter;
        handler = idle;
        phase = declaring stamping;
        heard = [];
        declared = 0;
        straddling = none;
      },
      record (declared_beside m now k) { handler = idle; phase = returned (verdict v) },
      ground (arith, eq_iff s.version "", n),
      stale-run s m now v k i c (stale-judged s m v i c),
      refl,
      refl,
      old,
    )
