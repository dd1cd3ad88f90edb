-- ===== src/Runtime/Fake/Endings.antt =====
-- How a session ends (pkg/runtime/fake/fake.go): once, for one reason, and for good.
use parallel_consciousness.Prelude.{
  ◌≡◌, subst, ◌∙◌, true, none, some, not, is_some, ◌&&◌, List, [], ◌∷◌, ◌++◌, ltb, length,
  Bool-cases, Option-cases, List-cases, inl, inr,
}
use parallel_consciousness.Runtime.{Event, started, turn_began, queue_changed, ExitReason}
use parallel_consciousness.Runtime.Fake.{
  stopped, Session, emit, emit_final, close_with, pick_call, Move, accepts, receipts, drains, hands,
  gives_up, cancels, begins, takes, acts, breaks, ends, closes, returns, end_turn, step, run,
}
use parallel_consciousness.Runtime.Fake.Beside.{emit-Beside, end_turn-Beside, Loop-cases}

-- The loop has returned, for a reason, with these events sent.
pub record Over (r : ExitReason) (es : List Event) (s : Session) : Type 0 where
  pub loop : s.loop ≡ stopped
  pub done : s.done ≡ true
  pub closed : s.closed ≡ true
  pub reason : s.reason ≡ some r
  pub events : s.events ≡ es

pub step-Over :
    (r : ExitReason) (es : List Event) (m : Move) (s s' : Session)
    → step m s ≡ some s'
    → Over r es s
    → Over r es s'
unfolding step emit close_with
step-Over r es (accepts q) s s' e h =
    let a = h.loop in
    let b = h.done in
    let c = h.closed in
    let d = h.reason in
    let f = h.events in record { loop = cc; done = cc; closed = cc; reason = cc; events = cc }
step-Over r es (receipts i lost) s s' e h =
    let a = h.loop in
    let b = h.done in
    let c = h.closed in
    let d = h.reason in
    let f = h.events in
    elim (Option-cases (pick_call i s.calls)) [
      | inl q ↦ absurd cc
      | inr ((q, ys), p) ↦ elim (Option-cases q.receipt) [
        | inl x ↦ absurd cc
        | inr (o, x) ↦ record { loop = cc; done = cc; closed = cc; reason = cc; events = cc }
      ]
    ]
step-Over r es (hands i) s s' e h =
    let a = h.loop in
    let b = h.done in
    let c = h.closed in
    let d = h.reason in
    let f = h.events in
    elim (Option-cases (pick_call i s.calls)) [
      | inl q ↦ absurd cc
      | inr ((q, ys), p) ↦ elim (Bool-cases (not (is_some q.receipt) && ltb (length s.work) 8)) [
        | inl x ↦ record { loop = cc; done = cc; closed = cc; reason = cc; events = cc }
        | inr x ↦ absurd cc
      ]
    ]
step-Over r es (gives_up i) s s' e h =
    let a = h.loop in
    let b = h.done in
    let c = h.closed in
    let d = h.reason in
    let f = h.events in
    elim (Option-cases (pick_call i s.calls)) [
      | inl q ↦ absurd cc
      | inr ((q, ys), p) ↦ elim (Bool-cases (not (is_some q.receipt) && s.done)) [
        | inl x ↦ record { loop = cc; done = cc; closed = cc; reason = cc; events = cc }
        | inr x ↦ absurd cc
      ]
    ]
step-Over r es (cancels i) s s' e h =
    let a = h.loop in
    let b = h.done in
    let c = h.closed in
    let d = h.reason in
    let f = h.events in
    elim (Option-cases (pick_call i s.calls)) [
      | inl q ↦ absurd cc
      | inr ((q, ys), p) ↦ elim (Bool-cases (not (is_some q.receipt))) [
        | inl x ↦ record { loop = cc; done = cc; closed = cc; reason = cc; events = cc }
        | inr x ↦ absurd cc
      ]
    ]
step-Over r es (begins lost) s s' e h = let a = h.loop in absurd cc
step-Over r es (takes lost) s s' e h = let a = h.loop in absurd cc
step-Over r es (acts ok out lost) s s' e h = let a = h.loop in absurd cc
step-Over r es breaks s s' e h = let a = h.loop in absurd cc
step-Over r es drains s s' e h = let a = h.loop in absurd cc
step-Over r es (ends l1 l2 l3) s s' e h = let a = h.loop in absurd cc
step-Over r es closes s s' e h =
    let a = h.loop in
    let b = h.done in
    let c = h.closed in
    let d = h.reason in
    let f = h.events in record { loop = cc; done = cc; closed = cc; reason = cc; events = cc }
step-Over r es (returns full) s s' e h = let a = h.loop in absurd cc

-- A session that has been ended, by whom or what does not matter, for a reason.
pub record Ended (r : ExitReason) (s : Session) : Type 0 where
  pub done : s.done ≡ true
  pub reason : s.reason ≡ some r

pub step-Ended :
    (r : ExitReason) (m : Move) (s s' : Session) → step m s ≡ some s' → Ended r s → Ended r s'
unfolding step close_with emit_final
step-Ended r (accepts q) s s' e h =
    let b = h.done in let d = h.reason in record { done = cc; reason = cc }
step-Ended r (receipts i lost) s s' e h = elim (Option-cases (pick_call i s.calls)) [
  | inl q ↦ absurd cc
  | inr ((q, ys), p) ↦ elim (Option-cases q.receipt) [
    | inl x ↦ absurd cc
    | inr (o, x) ↦
        let u : Session = record s {
          calls = ys ++ (record { work = q.work; receipt = none }) ∷ [];
        } in
        let f = emit-Beside lost (queue_changed o) u in
        let t : emit lost (queue_changed o) u ≡ s' = cc in
        subst (Ended r) t (record { done = f.done ∙ h.done; reason = f.reason ∙ h.reason })
  ]
]
step-Ended r (hands i) s s' e h =
    let b = h.done in
    let d = h.reason in
    elim (Option-cases (pick_call i s.calls)) [
      | inl q ↦ absurd cc
      | inr ((q, ys), p) ↦ elim (Bool-cases (not (is_some q.receipt) && ltb (length s.work) 8)) [
        | inl x ↦ record { done = cc; reason = cc }
        | inr x ↦ absurd cc
      ]
    ]
step-Ended r (gives_up i) s s' e h =
    let b = h.done in
    let d = h.reason in
    elim (Option-cases (pick_call i s.calls)) [
      | inl q ↦ absurd cc
      | inr ((q, ys), p) ↦ elim (Bool-cases (not (is_some q.receipt) && s.done)) [
        | inl x ↦ record { done = cc; reason = cc }
        | inr x ↦ absurd cc
      ]
    ]
step-Ended r (cancels i) s s' e h =
    let b = h.done in
    let d = h.reason in
    elim (Option-cases (pick_call i s.calls)) [
      | inl q ↦ absurd cc
      | inr ((q, ys), p) ↦ elim (Bool-cases (not (is_some q.receipt))) [
        | inl x ↦ record { done = cc; reason = cc }
        | inr x ↦ absurd cc
      ]
    ]
step-Ended r (begins lost) s s' e h =
    let f = emit-Beside lost started s in
    let b = f.done ∙ h.done in
    let d = f.reason ∙ h.reason in
    elim (Loop-cases s.loop) [
      | inl q ↦ record { done = cc; reason = cc }
      | inr (inl q) ↦ absurd cc
      | inr (inr (inl q)) ↦ absurd cc
      | inr (inr (inr (inr (o, q)))) ↦ absurd cc
      | inr (inr (inr (inl (k, rest, q)))) ↦ absurd cc
    ]
step-Ended r (takes lost) s s' e h =
    let f = emit-Beside lost turn_began s in
    let b = f.done ∙ h.done in
    let d = f.reason ∙ h.reason in
    elim (Loop-cases s.loop) [
      | inl q ↦ absurd cc
      | inr (inr (inl q)) ↦ absurd cc
      | inr (inr (inr (inr (o, q)))) ↦ absurd cc
      | inr (inr (inr (inl (k, rest, q)))) ↦ absurd cc
      | inr (inl q) ↦ elim (List-cases s.work) [
        | inl x ↦ absurd cc
        | inr (x, xs, y) ↦ record { done = cc; reason = cc }
      ]
    ]
step-Ended r (acts ok out lost) s s' e h =
    let b = h.done in
    elim (Loop-cases s.loop) [
      | inl q ↦ absurd cc
      | inr (inl q) ↦ absurd cc
      | inr (inr (inl q)) ↦ absurd cc
      | inr (inr (inr (inr (o, q)))) ↦ absurd cc
      | inr (inr (inr (inl (k, rest, q)))) ↦ elim (List-cases rest) [
        | inl x ↦ absurd cc
        | inr (x, xs, y) ↦ absurd cc
      ]
    ]
step-Ended r breaks s s' e h =
    let b = h.done in
    let d = h.reason in
    elim (Loop-cases s.loop) [
      | inl q ↦ absurd cc
      | inr (inl q) ↦ absurd cc
      | inr (inr (inl q)) ↦ absurd cc
      | inr (inr (inr (inr (o, q)))) ↦ absurd cc
      | inr (inr (inr (inl (k, rest, q)))) ↦ record { done = cc; reason = cc }
    ]
step-Ended r drains s s' e h =
    let b = h.done in
    let d = h.reason in
    elim (Loop-cases s.loop) [
      | inl q ↦ absurd cc
      | inr (inl q) ↦ absurd cc
      | inr (inr (inl q)) ↦ absurd cc
      | inr (inr (inr (inr (o, q)))) ↦ absurd cc
      | inr (inr (inr (inl (k, rest, q)))) ↦ elim (List-cases rest) [
        | inr (x, xs, y) ↦ absurd cc
        | inl x ↦ record { done = cc; reason = cc }
      ]
    ]
step-Ended r (ends l1 l2 l3) s s' e h = elim (Loop-cases s.loop) [
  | inl q ↦ absurd cc
  | inr (inl q) ↦ absurd cc
  | inr (inr (inl q)) ↦ absurd cc
  | inr (inr (inr (inl (k, rest, q)))) ↦ absurd cc
  | inr (inr (inr (inr (o, q)))) ↦
      let f = end_turn-Beside o l1 l2 l3 s in
      let t : end_turn o l1 l2 l3 s ≡ s' = cc in
      subst (Ended r) t (record { done = f.done ∙ h.done; reason = f.reason ∙ h.reason })
]
step-Ended r closes s s' e h =
    let b = h.done in let d = h.reason in record { done = cc; reason = cc }
step-Ended r (returns full) s s' e h =
    let b = h.done in
    let d = h.reason in
    elim (Loop-cases s.loop) [
      | inl q ↦ absurd cc
      | inr (inr (inl q)) ↦ absurd cc
      | inr (inr (inr (inr (o, q)))) ↦ absurd cc
      | inr (inr (inr (inl (k, rest, q)))) ↦ absurd cc
      | inr (inl q) ↦ elim (Bool-cases full) [
        | inl x ↦ record { done = cc; reason = cc }
        | inr x ↦ record { done = cc; reason = cc }
      ]
    ]

-- The first reason for which a session is ended is the one that it keeps, whether a script's exit, an
-- interrupt or a close comes first, and whatever comes later.
pub first_reason_kept :
    (r : ExitReason) (ms : List Move) (s s' : Session) → run ms s ≡ some s' → Ended r s → Ended r s'
unfolding run
first_reason_kept r [] s s' e h = let t : s ≡ s' = cc in subst (Ended r) t h
first_reason_kept r (m ∷ ms) s s' e h = elim (Option-cases (step m s)) [
  | inl d ↦ absurd cc
  | inr (s1, d) ↦ first_reason_kept r ms s1 s' (cc) (step-Ended r m s s1 d h)
]

-- Once the loop has returned, which is what `Wait` waits for, the reason and the events stay as they are.
pub outcome_final :
    (r : ExitReason) (es : List Event) (ms : List Move) (s s' : Session)
    → run ms s ≡ some s'
    → Over r es s
    → Over r es s'
unfolding run
outcome_final r es [] s s' e h = let t : s ≡ s' = cc in subst (Over r es) t h
outcome_final r es (m ∷ ms) s s' e h = elim (Option-cases (step m s)) [
  | inl d ↦ absurd cc
  | inr (s1, d) ↦ outcome_final r es ms s1 s' (cc) (step-Over r es m s s1 d h)
]
