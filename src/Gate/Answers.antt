-- ===== src/Gate/Answers.antt =====
-- pkg/gate/gate.go: what a participant's readiness does to a sound gate, and how it is answered.
use parallel_consciousness.Prelude.{
  suc, String, ◌==◌, eq_iff, ◌≡◌, ◌≢◌, ◌↔◌, refl, sym, subst, ◌∙◌, inl, inr, Bool, true, false,
  Option, none, some, [], ◌∷◌, ◌++◌, arith, if◌then◌else◌, eqb, length, contains, Bool-cases,
  Option-cases,
}
use parallel_consciousness.Dict.{
  Dict, lookup, insert, copy_map, lookup-insert, insert-Keyed, lookup-copy_map,
}
use parallel_consciousness.Protocol.{Message, text_field}
use parallel_consciousness.Gate.{Verdict, GateState, Host, Effects, send, request_message}
use parallel_consciousness.Gate.Round.{
  outstanding_for, filled, settle, resolve, announce, open_round, cached_answer, invalidate,
  ack_message, nack_message, record_ready, ready_at,
}
use parallel_consciousness.Gate.Quorum.{Covers, insert-Within, insert-Covers, quorum_exact}
use parallel_consciousness.Gate.Versions.{lookup-filled, settle_claims}
use parallel_consciousness.Gate.Phase.{Base, Settled, IsSound, resolve-Settled}
use parallel_consciousness.Gate.Phase.Moves.{
  invalidate_idle, ready_at_cached, ready_at_uncached, cached_answer-some,
}

-- A second verdict for a round is dropped: nothing is written and nothing is sent.
pub resolve_once :
    (h : Host) (v w : Verdict) (stalled stalled' from_cache from_cache' : Bool) (gs : GateState)
    (e : Effects)
    → let r = resolve h v stalled from_cache gs e in resolve h w stalled' from_cache' r.0 r.1 ≡ r
unfolding resolve settle
resolve_once h v w stalled stalled' from_cache from_cache' gs e = ground arith

module _ (h : Host) (gate_id : String) (m : Message) (gs : GateState) (e : Effects) where
  -- While a round is in flight, a required participant's readiness changes nothing and sends nothing
  -- but a refusal that carries the claims under test.
  pub ready_at_busy :
      gs.inflight ≡ true
      → contains gs.spec.required m.from.agent ≡ true
      → let r = ready_at h gate_id m gs e in
        (r.0 ≡ gs)
        × (r.1.sent ≡ e.sent)
        × (r.1.timers ≡ e.timers)
        × (r.1.reported ≡ e.reported)
        × (r.2 ≡ some (nack_message h m gate_id (copy_map gs.ready) (h.stamps e.built)))
  unfolding ready_at cached_answer invalidate record_ready
  ready_at_busy i r = ground arith

  -- A participant that is not required is not heard.
  pub ready_at_stranger :
      contains gs.spec.required m.from.agent ≡ false → ready_at h gate_id m gs e ≡ (gs, e, none)
  unfolding ready_at cached_answer invalidate record_ready
  ready_at_stranger r = ground arith

-- What a recorded readiness leads to: the claim is written, and the answer lists who is outstanding
-- and says whether a round has opened, which is so exactly when every required participant has a
-- claim. The only message sent is then the request to the runner, with the claims as they stand.
abbrev pub Recorded :
    Host
    → String
    → Message
    → String
    → GateState
    → Effects
    → GateState × Effects × Option Message
    → Type 0
Recorded h gate_id m version gs e r =
    let ready' = insert m.from.agent version gs.ready in
    (r.0.ready ≡ ready')
    × (r.2
        ≡ some (
            ack_message h m gate_id (outstanding_for gs.spec.required ready') r.0.inflight
              (h.stamps e.built)))
    × ((r.0.inflight ≡ true) ↔ Covers ready' gs.spec.required)
    × (r.1.sent ≡ (
        if r.0.inflight
        then e.sent ++ request_message h gs.spec (copy_map ready') (h.stamps (suc e.built)) ∷ []
        else e.sent))

same_verdict : {v w : Verdict} → some v ≡ some w → v ≡ w
same_verdict e = cc

-- A settled gate answers a required participant at the version it tested.
cached :
    (gs : GateState) (v : Verdict) (agent version : String)
    → Settled gs v
    → contains gs.spec.required agent ≡ true
    → lookup agent v.versions ≡ some version
    → cached_answer gs (contains gs.spec.required agent) agent version ≡ some v
unfolding cached_answer
cached gs v agent version settled req same = ground (arith, eq_iff version version)

module _ (gs : GateState) (v : Verdict) (settled : Settled gs v) where
  replayed_versions :
      (p : String)
      → lookup p (filled (record gs { inflight = true }) v).versions ≡ lookup p v.versions
  replayed_versions p =
      ground (arith, lookup-filled (record gs { inflight = true }) v p, settled.agrees p)

  replayed_claims :
      (p : String)
      → lookup p
          (settle
            (filled (record gs { inflight = true }) v)
            gs.last_stalled
            (record gs { inflight = true })).ready
        ≡ lookup p gs.ready
  replayed_claims p = ground (
    arith,
    settle_claims (record gs { inflight = true }) v gs.last_stalled p,
    replayed_versions p,
    settled.agrees p,
  )

untold : (gs : GateState) → Base gs → Base (record gs { last_verdict = none })
untold gs b = record {
  distinct = b.distinct;
  nonempty = b.nonempty;
  keyed = b.keyed;
  within = b.within;
}

module _ (h : Host) (gate_id : String) (m : Message) (e : Effects) where
  record_ready-Recorded :
      (version : String) (gs : GateState)
      → Base gs
      → gs.inflight ≡ false
      → contains gs.spec.required m.from.agent ≡ true
      → Recorded h gate_id m version gs e (record_ready h gate_id m version true gs e)
  unfolding record_ready open_round send
  record_ready-Recorded version gs b i r =
      let ready' = insert m.from.agent version gs.ready in
      let exact =
        quorum_exact gs.spec.required ready' b.distinct
          (insert-Keyed m.from.agent version gs.ready b.keyed)
          (insert-Within gs.spec.required m.from.agent version gs.ready r b.within) in
      elim (Bool-cases (eqb (length ready') (length gs.spec.required))) [
        | inl full ↦ rw (i, full) (refl, refl, (λ _. exact.0 full, λ _. refl), refl)
        | inr part ↦ rw (i, part) (refl, refl, (λ x. cc x, λ c. cc (part, exact.1 c)), refl)
      ]

  -- Between rounds, a required participant whose version no remembered verdict covers is recorded.
  pub ready_at-Recorded :
      (gs : GateState)
      → IsSound gs
      → gs.inflight ≡ false
      → contains gs.spec.required m.from.agent ≡ true
      → ((v : Verdict)
          → gs.last_verdict ≡ some v
          → lookup m.from.agent v.versions ≢ some (text_field "version" m.body))
      → Recorded h gate_id m (text_field "version" m.body) gs e (ready_at h gate_id m gs e)
  ready_at-Recorded gs s i r new =
      let version = text_field "version" m.body in
      let required = contains gs.spec.required m.from.agent in
      elim (Option-cases (cached_answer gs required m.from.agent version)) [
        | inl c ↦
            rw (ready_at_uncached h gate_id m gs e c, r, invalidate_idle gs i)
              (record_ready-Recorded version (record gs { last_verdict = none }) (untold gs s.base)
                i r)
        | inr (v, c) ↦
            let known = cached_answer-some gs required m.from.agent version v c in
            absurd (new v known.2 known.3)
      ]

  -- Readiness stands: after a settled round, one required participant's submission of another version
  -- completes the quorum by itself. A round opens at once, and its request names that participant at
  -- the new version and everybody else at the version that they hold already.
  pub divergence_reopens :
      (gs : GateState) (v : Verdict)
      → IsSound gs
      → Settled gs v
      → contains gs.spec.required m.from.agent ≡ true
      → lookup m.from.agent v.versions ≢ some (text_field "version" m.body)
      → let version = text_field "version" m.body in
        let r = ready_at h gate_id m gs e in
        (r.0.inflight ≡ true)
        × ((tested : Dict String) × (r.1.sent
              ≡ e.sent ++ request_message h gs.spec tested (h.stamps (suc e.built)) ∷ [])
            × ((p : String)
                → lookup p tested
                  ≡ (if m.from.agent == p then some version else lookup p gs.ready)))
  divergence_reopens gs v s settled req differs =
      let version = text_field "version" m.body in
      let ready' = insert m.from.agent version gs.ready in
      let r = ready_at-Recorded gs s settled.idle req λ w told.
        subst (λ x. lookup m.from.agent x.versions ≢ some version)
          (same_verdict (sym settled.tested ∙ told)) differs in
      let running =
        r.2.1 (insert-Covers gs.spec.required m.from.agent version gs.ready settled.quorum) in
      (
        running,
        (
          copy_map ready',
          subst
              (λ b. (ready_at h gate_id m gs e).1.sent ≡ (
                if b
                then e.sent
                  ++ request_message h gs.spec (copy_map ready') (h.stamps (suc e.built)) ∷ []
                else e.sent))
              running r.3,
          λ p. lookup-copy_map p ready' ∙ lookup-insert m.from.agent p version gs.ready,
        ),
      )

  -- A submission at the version that the last round tested is answered from that round: no test is
  -- requested, no timer armed and no claim changed, and the gate is settled again by a verdict with the
  -- same outcome, naming everybody as before.
  pub unchanged_replays :
      (gs : GateState) (v : Verdict)
      → Settled gs v
      → contains gs.spec.required m.from.agent ≡ true
      → lookup m.from.agent v.versions ≡ some (text_field "version" m.body)
      → let r = ready_at h gate_id m gs e in
        (v' : Verdict) × Settled r.0 v'
        × (v'.passed ≡ v.passed)
        × (v'.detail ≡ v.detail)
        × (r.0.last_stalled ≡ gs.last_stalled)
        × ((p : String) → lookup p v'.versions ≡ lookup p v.versions)
        × ((p : String) → lookup p r.0.ready ≡ lookup p gs.ready)
        × (r.1 ≡ announce h gs.spec v' gs.last_stalled true e)
        × (r.2 ≡ none)
  unfolding resolve settle filled
  unchanged_replays gs v settled req same =
      let version = text_field "version" m.body in
      let gs1 : GateState = record gs { inflight = true } in
      rw (ready_at_cached h gate_id m gs e v (cached gs v m.from.agent version settled req same)) (
        filled gs1 v,
        resolve-Settled h v gs.last_stalled true gs1 e refl settled.quorum,
        refl,
        refl,
        refl,
        replayed_versions gs v settled,
        replayed_claims gs v settled,
        refl,
        refl,
      )
