-- ===== src/Gate/Phase/Moves.antt =====
-- pkg/gate/gate.go: a readiness message, a verdict and an expired timer keep a gate sound.
use parallel_consciousness.Prelude.{
  String, eq_iff, ◌≡◌, refl, sym, subst, ◌⊎◌, inl, inr, Bool, true, false, none, some, arith, eqb,
  length, contains, Bool-cases, Option-cases,
}
use parallel_consciousness.Dict.{lookup, insert, insert-Keyed}
use parallel_consciousness.Protocol.{Message, text_field}
use parallel_consciousness.Gate.{Verdict, GateState, Host, Effects}
use parallel_consciousness.Gate.Round.{
  filled, resolve, open_round, cached_answer, invalidate, record_ready, ready_at,
}
use parallel_consciousness.Gate.Quorum.{Covers, insert-Within, quorum_exact}
use parallel_consciousness.Gate.Phase.{
  Base, Collecting, Running, Phase, IsSound, settle-Base, resolve-Settled,
}

module _ (h : Host) (gate_id : String) (m : Message) (version : String) (e : Effects) where
  -- A readiness that is recorded keeps the gate collecting, or opens the round that it completes.
  record_ready-IsSound :
      (gs : GateState)
      → Base gs
      → gs.inflight ≡ false
      → gs.last_verdict ≡ none
      → contains gs.spec.required m.from.agent ≡ true
      → let gs' = (record_ready h gate_id m version true gs e).0 in
        Base gs' × (Collecting gs' ⊎ Running gs')
  unfolding record_ready open_round
  record_ready-IsSound gs b i u r =
      let ready' = insert m.from.agent version gs.ready in
      let k = insert-Keyed m.from.agent version gs.ready b.keyed in
      let w = insert-Within gs.spec.required m.from.agent version gs.ready r b.within in
      let exact = quorum_exact gs.spec.required ready' b.distinct k w in
      elim (Bool-cases (eqb (length ready') (length gs.spec.required))) [
        | inl full ↦
            rw (i, full)
              (
                record { distinct = b.distinct; nonempty = b.nonempty; keyed = k; within = w },
                inr (record { busy = refl; untested = u; quorum = exact.0 full }),
              )
        | inr part ↦
            rw (i, part)
              (
                record { distinct = b.distinct; nonempty = b.nonempty; keyed = k; within = w },
                inl (record { idle = refl; untested = u; waiting = λ c. cc (part, exact.1 c) }),
              )
      ]

pub invalidate_idle :
    (gs : GateState) → gs.inflight ≡ false → invalidate true gs ≡ record gs { last_verdict = none }
unfolding invalidate
invalidate_idle gs i = ground arith

module _ (h : Host) (gate_id : String) (m : Message) (e : Effects) where
  -- A required participant's submission between rounds that no remembered verdict answers.
  invalidated-IsSound :
      (gs : GateState)
      → Base gs
      → gs.inflight ≡ false
      → contains gs.spec.required m.from.agent ≡ true
      → let gs' =
          (record_ready h gate_id m (text_field "version" m.body) true (invalidate true gs) e).0 in
        Base gs' × (Collecting gs' ⊎ Running gs')
  invalidated-IsSound gs b i r = rw (invalidate_idle gs i) (
      record_ready-IsSound h gate_id m (text_field "version" m.body) e
        (record gs { last_verdict = none })
        (record {
          distinct = b.distinct;
          nonempty = b.nonempty;
          keyed = b.keyed;
          within = b.within;
        })
        i refl r)

  -- During a round, and for a participant that is not required, the gate stays as it is.
  pub ready_at_unmoved :
      (gs : GateState)
      → (gs.inflight ≡ true) ⊎ (contains gs.spec.required m.from.agent ≡ false)
      → (ready_at h gate_id m gs e).0 ≡ gs
  unfolding ready_at cached_answer invalidate record_ready
  ready_at_unmoved gs c = ground arith

resolve-Base :
    (h : Host) (v : Verdict) (stalled from_cache : Bool) (gs : GateState) (e : Effects)
    → Base gs
    → Base (resolve h v stalled from_cache gs e).0
unfolding resolve
resolve-Base h v stalled from_cache gs e b = ground (arith, settle-Base (filled gs v) stalled gs b)

-- Between rounds a verdict is dropped.
pub resolve_idle :
    (h : Host) (v : Verdict) (stalled from_cache : Bool) (gs : GateState) (e : Effects)
    → gs.inflight ≡ false
    → resolve h v stalled from_cache gs e ≡ (gs, e)
unfolding resolve
resolve_idle h v stalled from_cache gs e i = ground arith

pub cached_answer-some :
    (gs : GateState) (required : Bool) (agent version : String) (v : Verdict)
    → cached_answer gs required agent version ≡ some v
    → (gs.inflight ≡ false)
      × (required ≡ true)
      × (gs.last_verdict ≡ some v)
      × (lookup agent v.versions ≡ some version)
unfolding cached_answer
cached_answer-some gs required agent version v e = elim (Option-cases gs.last_verdict) [
  | inl l ↦ ground arith
  | inr (w, l) ↦ elim (Option-cases (lookup agent w.versions)) [
    | inl k ↦ ground arith
    | inr (tested, k) ↦ ground (arith, eq_iff tested version)
  ]
]

module _ (h : Host) (gate_id : String) (m : Message) (gs : GateState) (e : Effects) where
  -- A submission that the remembered verdict answers settles a synthetic round.
  pub ready_at_cached :
      (v : Verdict)
      → cached_answer gs
          (contains gs.spec.required m.from.agent)
          m.from.agent
          (text_field "version" m.body)
        ≡ some v
      → ready_at h gate_id m gs e ≡ (
          let r = resolve h v gs.last_stalled true (record gs { inflight = true }) e in
          (r.0, r.1, none))
  unfolding ready_at
  ready_at_cached v c = rw (c, ready_at)

  pub ready_at_uncached :
      cached_answer gs
          (contains gs.spec.required m.from.agent)
          m.from.agent
          (text_field "version" m.body)
        ≡ none
      → ready_at h gate_id m gs e
        ≡ record_ready h gate_id m
            (text_field "version" m.body)
            (contains gs.spec.required m.from.agent)
            (invalidate (contains gs.spec.required m.from.agent) gs)
            e
  unfolding ready_at
  ready_at_uncached c = rw (c, ready_at)

-- A remembered verdict, or a round in flight, stands on a full quorum.
pub tested-Covers :
    {gs : GateState} {v : Verdict}
    → Phase gs
    → gs.last_verdict ≡ some v
    → Covers gs.ready gs.spec.required
tested-Covers (inl c) e = cc (c.untested, e)
tested-Covers (inr (inl r)) e = r.quorum
tested-Covers (inr (inr (w, s))) e = s.quorum

pub running-Covers :
    {gs : GateState} → Phase gs → gs.inflight ≡ true → Covers gs.ready gs.spec.required
running-Covers (inl c) e = cc (c.idle, e)
running-Covers (inr (inl r)) e = r.quorum
running-Covers (inr (inr (w, s))) e = s.quorum

IsSound-of : {gs : GateState} → Base gs × (Collecting gs ⊎ Running gs) → IsSound gs
IsSound-of (b, inl c) = record { base = b; phase = inl c }
IsSound-of (b, inr r) = record { base = b; phase = inr (inl r) }

reopened-Base : (gs : GateState) → Base gs → Base (record gs { inflight = true })
reopened-Base gs b = record {
  distinct = b.distinct;
  nonempty = b.nonempty;
  keyed = b.keyed;
  within = b.within;
}

module _ (h : Host) (e : Effects) where
  -- A verdict or an expired timer leaves a sound gate sound.
  pub resolve-IsSound :
      (v : Verdict) (stalled : Bool) (gs : GateState)
      → IsSound gs
      → IsSound (resolve h v stalled false gs e).0
  resolve-IsSound v stalled gs s = elim (Bool-cases gs.inflight) [
    | inl i ↦ record {
      base = resolve-Base h v stalled false gs e s.base;
      phase =
          inr (
            inr (filled gs v, resolve-Settled h v stalled false gs e i (running-Covers s.phase i)));
    }
    | inr i ↦ subst (λ r. IsSound r.0) (sym (resolve_idle h v stalled false gs e i)) s
  ]

  -- Any readiness message leaves a sound gate sound.
  pub ready_at-IsSound :
      (gate_id : String) (m : Message) (gs : GateState)
      → IsSound gs
      → IsSound (ready_at h gate_id m gs e).0
  ready_at-IsSound gate_id m gs s =
      let agent = m.from.agent in
      let version = text_field "version" m.body in
      let required = contains gs.spec.required agent in
      elim (Bool-cases gs.inflight) [
        | inl i ↦ subst IsSound (sym (ready_at_unmoved h gate_id m e gs (inl i))) s
        | inr i ↦ elim (Bool-cases required) [
          | inr r ↦ subst IsSound (sym (ready_at_unmoved h gate_id m e gs (inr r))) s
          | inl r ↦ elim (Option-cases (cached_answer gs required agent version)) [
            | inl c ↦
                rw (ready_at_uncached h gate_id m gs e c, r)
                  (IsSound-of (invalidated-IsSound h gate_id m e gs s.base i r))
            | inr (v, c) ↦
                let quorum =
                  tested-Covers s.phase (cached_answer-some gs required agent version v c).2 in
                let gs1 : GateState = record gs { inflight = true } in
                rw (ready_at_cached h gate_id m gs e v c) (record {
                  base = resolve-Base h v gs.last_stalled true gs1 e (reopened-Base gs s.base);
                  phase = inr (
                      inr
                        (filled gs1 v, resolve-Settled h v gs.last_stalled true gs1 e refl quorum));
                })
          ]
        ]
      ]
