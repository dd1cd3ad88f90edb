-- ===== src/Pcops/Submit/Fence.antt =====
-- What holds of the verdicts of a running submit, and its attempt loop keeps
-- (internal/pcops/submit.go).
use mathlib.Core.List.{Memᴰ}
use parallel_consciousness.Prelude.{
  ℕ, ◌≡◌, ◌≢◌, refl, sym, ap, ◌∙◌, subst, ◌⊎◌, inl, inr, Bool, true, false, some, arith,
}
use parallel_consciousness.Protocol.{Intent, Message}
use parallel_consciousness.Gate.{Verdict}
use parallel_consciousness.Pcops.Waiter.{
  declare_ready, Stage, stamping, resetting, draining_verdicts, Submission, classify, gives_verdict,
  sending, answers,
}
use parallel_consciousness.Pcops.Submit.{
  verdict, Phase, declaring, returned, Submit, Event, proceeds, in_flight, after_stage,
  declare_stage, arm,
}
use parallel_consciousness.Pcops.Submit.Hearing.{Fenced, Said}

-- Between a stamp and the drain of its verdicts the channel may hold one of an earlier attempt.
abbrev pub undrained : Phase → Bool
undrained (declaring resetting) = true
undrained (declaring draining_verdicts) = true
undrained _ = false

-- What holds of a running submit.
pub record IsHonest (s : Submission) (u : Submit) : Type 0 where
  pub verdicts : (v : Verdict) → undrained u.phase ≡ false → u.waiter.verdicts ≡ some v → Said s u v
  pub flight : (m : Message) → in_flight u.handler ≡ some m → Fenced u m
  pub signal :
      (m : Message) (v : Verdict)
      → u.handler ≡ sending m (gives_verdict v)
      → (m.intent ≡ Intent.inform) × (classify s m ≡ answers v)
  pub verdict_returned : (v : Verdict) → u.phase ≡ returned (verdict v) → Said s u v

-- A step that keeps the boundary, what straddles it, and all that was heard.
pub record Keeps (u u' : Submit) : Type 0 where
  pub heard : (m : Message) → Memᴰ m u.heard → Memᴰ m u'.heard
  pub boundary : u'.waiter.ready_at ≡ u.waiter.ready_at
  pub straddling : u'.straddling ≡ u.straddling

pub Keeps-Fenced : (u u' : Submit) (m : Message) → Keeps u u' → Fenced u m → Fenced u' m
Keeps-Fenced u u' m k (member, f) = (
  k.heard m member,
  elim f [ inl l ↦ inl (omega (arith, l, k.boundary)) | inr e ↦ inr (k.straddling ∙ e) ],
)

pub Keeps-Said :
    (s : Submission) (u u' : Submit) (v : Verdict) → Keeps u u' → Said s u v → Said s u' v
Keeps-Said s u u' v k (m, f, i, c) = (m, Keeps-Fenced u u' m k f, i, c)

-- An arm that makes no stamp fills no channel, and returns what it takes.
record Moves (u u' : Submit) : Type 0 where
  keeps : Keeps u u'
  handler : u'.handler ≡ u.handler
  verdicts :
      (v : Verdict)
      → undrained u'.phase ≡ false
      → u'.waiter.verdicts ≡ some v
      → (undrained u.phase ≡ false) × (u.waiter.verdicts ≡ some v)
  verdict_returned :
      (v : Verdict)
      → u'.phase ≡ returned (verdict v)
      → (undrained u.phase ≡ false) × (u.waiter.verdicts ≡ some v)

Moves-IsHonest : (s : Submission) (u u' : Submit) → Moves u u' → IsHonest s u → IsHonest s u'
Moves-IsHonest s u u' m h = record {
  verdicts =
      λ v d e. let (d', e') = m.verdicts v d e in Keeps-Said s u u' v m.keeps (h.verdicts v d' e');
  flight = λ x e. Keeps-Fenced u u' x m.keeps (h.flight x (ap in_flight (sym m.handler) ∙ e));
  signal = λ x v e. h.signal x v (sym m.handler ∙ e);
  verdict_returned = λ v e.
      let (d', e') = m.verdict_returned v e in Keeps-Said s u u' v m.keeps (h.verdicts v d' e');
}

-- A stamp: what was in flight straddles it.
stamp-IsHonest :
    (s : Submission) (now : ℕ) (u : Submit)
    → IsHonest s u
    → IsHonest s (declare_stage stamping now u)
unfolding declare_stage declare_ready after_stage
stamp-IsHonest s now u h = record {
  verdicts = λ v d e. absurd cc;
  flight = λ m e. ((h.flight m e).0, inr e);
  signal = h.signal;
  verdict_returned = λ v e. absurd cc;
}

stage-Moves :
    (st : Stage) (now : ℕ) (u : Submit)
    → u.phase ≡ declaring st
    → st ≢ stamping
    → Moves u (declare_stage st now u)
unfolding declare_stage declare_ready after_stage
stage-Moves stamping now u p n = absurd (n refl)
stage-Moves st now u p n = record {
  keeps = record { heard = λ m k. k; boundary = refl; straddling = refl };
  handler = refl;
  verdicts = λ v d e. ground arith;
  verdict_returned = λ v e. absurd cc;
}

abbrev Goes : Submit → Submit → Type 0
Goes u u' = ((now : ℕ) × (u' ≡ declare_stage stamping now u)) ⊎ Moves u u'

-- An arm that is no statement of a declaration.
arm-Goes : (p : Phase) (e : Event) (u u' : Submit) → u.phase ≡ p → arm p e u ≡ some u' → Goes u u'
unfolding arm
arm-Goes (declaring stamping) (proceeds now) u u' q h = inl (now, cc)
arm-Goes (declaring st) (proceeds now) u u' q h =
    let t : declare_stage st now u ≡ u' = cc in
    inr (subst (Moves u) t (stage-Moves st now u q (λ n. cc n)))
arm-Goes p e u u' q h = inr (record {
  keeps = record {
    heard = λ m k. ground arith;
    boundary = ground arith;
    straddling = ground arith;
  };
  handler = ground arith;
  verdicts = λ v d k. ground arith;
  verdict_returned = λ v k. ground arith;
})

pub arm-IsHonest :
    (s : Submission) (e : Event) (u u' : Submit)
    → arm u.phase e u ≡ some u'
    → IsHonest s u
    → IsHonest s u'
arm-IsHonest s e u u' a h = elim (arm-Goes u.phase e u u' refl a) [
  | inl (now, same) ↦ subst (IsHonest s) (sym same) (stamp-IsHonest s now u h)
  | inr m ↦ Moves-IsHonest s u u' m h
]
