-- ===== src/Runtime/Fake/Pending.antt =====
-- The counters of accepted messages against the messages that are still to run
-- (pkg/runtime/fake/fake.go).
use parallel_consciousness.Prelude.{
  ℕ, zero, suc, ◌+◌, ◌-◌, ◌≤◌, ◌<◌, ◌≡◌, refl, sym, ap, subst, Bool, true, false, none, some,
  Option, not, is_some, ◌&&◌, ◌∙◌, List, [], ◌∷◌, ◌++◌, arith, if◌then◌else◌, ltb, length,
  Bool-cases, Option-cases, List-cases, inl, inr,
}
use parallel_consciousness.Runtime.{interrupted, Queue, started, turn_began, queue_changed, exited}
use parallel_consciousness.Runtime.Fake.{
  Action, WorkKind, initial, steer, follow, QueuedWork, Call, Loop, selecting, stopped, running,
  drained, Session, start, emit, emit_final, close_with, enqueue, dequeue, perform, pick_call, Move,
  accepts, receipts, drains, drain_report, hands, gives_up, cancels, begins, takes, acts, breaks,
  ends, closes, returns, end_turn, step, run,
}
use parallel_consciousness.Runtime.Fake.Beside.{
  emit-Beside, emit-loop, end_turn-Beside, perform-fields, Loop-cases,
}

-- Of the two kinds of message, `true` is for steer.
abbrev pub one : Bool → WorkKind → ℕ
one true steer = 1
one false follow = 1
one _ _ = 0

abbrev pub count : Bool → List QueuedWork → ℕ
count b [] = 0
count b (q ∷ qs) = one b q.kind + count b qs

abbrev pub count_calls : Bool → List Call → ℕ
count_calls b [] = 0
count_calls b (c ∷ cs) = one b c.work.kind + count_calls b cs

abbrev pub in_turn : Bool → Loop → ℕ
in_turn b (running rest k) = one b k
in_turn b _ = 0

-- The messages of a kind that are accepted and not applied: with their caller, queued, or running.
abbrev pub held : Bool → Session → ℕ
held b s = count_calls b s.calls + (count b s.work + in_turn b s.loop)

abbrev pub counter : Bool → Queue → ℕ
counter b q = if b then q.steering else q.follow_up

pub enqueue-counter :
    (b : Bool) (k : WorkKind) (q : Queue) → counter b (enqueue k q) ≡ counter b q + one b k
unfolding enqueue
enqueue-counter true initial q = omega arith
enqueue-counter true steer q = omega arith
enqueue-counter true follow q = omega arith
enqueue-counter false initial q = omega arith
enqueue-counter false steer q = omega arith
enqueue-counter false follow q = omega arith

pub dequeue-counter :
    (b : Bool) (k : WorkKind) (q : Queue) → counter b (dequeue k q) ≡ counter b q - one b k
unfolding dequeue
dequeue-counter true initial q = omega arith
dequeue-counter true steer q = ground arith
dequeue-counter true follow q = ground arith
dequeue-counter false initial q = omega arith
dequeue-counter false steer q = ground arith
dequeue-counter false follow q = ground arith

pub count-append :
    (b : Bool) (xs : List QueuedWork) (q : QueuedWork)
    → count b (xs ++ q ∷ []) ≡ count b xs + one b q.kind
count-append b [] q = omega arith
count-append b (x ∷ xs) q = let ih = count-append b xs q in omega arith

pub count_calls-append :
    (b : Bool) (xs : List Call) (c : Call)
    → count_calls b (xs ++ c ∷ []) ≡ count_calls b xs + one b c.work.kind
count_calls-append b [] c = omega arith
count_calls-append b (x ∷ xs) c = let ih = count_calls-append b xs c in omega arith

pub pick_call-count :
    (b : Bool) (n : ℕ) (xs ys : List Call) (q : Call)
    → pick_call n xs ≡ some (q, ys)
    → count_calls b xs ≡ count_calls b ys + one b q.work.kind
unfolding pick_call
pick_call-count b n [] ys q e = absurd cc
pick_call-count b zero (x ∷ xs) ys q e =
    let p : x ≡ q = cc in
    let r : xs ≡ ys = cc in
    let t : count_calls b (x ∷ xs) ≡ one b q.work.kind + count_calls b ys = cc in omega (arith, t)
pick_call-count b (suc n) (x ∷ xs) ys q e = elim (Option-cases (pick_call n xs)) [
  | inl d ↦ absurd cc
  | inr ((w, zs), d) ↦
      let p : w ≡ q = cc in
      let r : x ∷ zs ≡ ys = cc in
      let ih = pick_call-count b n xs zs w d in
      let t : count_calls b ys ≡ one b x.work.kind + count_calls b zs = cc in
      let u : one b w.work.kind ≡ one b q.work.kind = cc in omega (arith, ih, t, u)
]

pub end_turn-loop :
    (b : Bool) (k : Option Queue) (l1 l2 l3 : Bool) (s : Session)
    → in_turn b (end_turn k l1 l2 l3 s).loop ≡ 0
unfolding end_turn
end_turn-loop b k l1 l2 l3 s = refl

-- So many more messages of a kind are counted as are held.
abbrev pub Ahead : Bool → ℕ → Session → Type 0
Ahead b n s = n + held b s ≤ counter b s.pending

module _ (b : Bool) (n : ℕ) where
  -- What a state with the same counters and messages has too.
  pub Ahead-same :
      (s t : Session)
      → t.calls ≡ s.calls
      → t.work ≡ s.work
      → t.pending ≡ s.pending
      → in_turn b t.loop ≡ in_turn b s.loop
      → Ahead b n s
      → Ahead b n t
  Ahead-same s t c w p l h =
      let c' = ap (count_calls b) c in
      let w' = ap (count b) w in let p' = ap (counter b) p in omega (arith, c', w', p', l, h)

  pub step-Ahead : (m : Move) (s s' : Session) → step m s ≡ some s' → Ahead b n s → Ahead b n s'
  unfolding step close_with emit_final
  step-Ahead (accepts q) s s' e h =
      let call : Call = record { work = q; receipt = some (enqueue q.kind s.pending) } in
      let a = count_calls-append b s.calls call in
      let c = enqueue-counter b q.kind s.pending in
      let u : Session = record s {
        pending = enqueue q.kind s.pending;
        calls = s.calls ++ call ∷ [];
      } in
      let t : u ≡ s' = cc in subst (Ahead b n) t (omega (arith, a, c, h))
  step-Ahead (receipts i lost) s s' e h = elim (Option-cases (pick_call i s.calls)) [
    | inl d ↦ absurd cc
    | inr ((q, ys), d) ↦ elim (Option-cases q.receipt) [
      | inl r ↦ absurd cc
      | inr (sent, r) ↦
          let call : Call = record { work = q.work; receipt = none } in
          let u : Session = record s { calls = ys ++ call ∷ [] } in
          let f = emit-Beside lost (queue_changed sent) u in
          let l = ap (in_turn b) (emit-loop lost (queue_changed sent) u) in
          let a = pick_call-count b i s.calls ys q d in
          let c = count_calls-append b ys call in
          let t : emit lost (queue_changed sent) u ≡ s' = cc in
          subst (Ahead b n) t (
            Ahead-same u (emit lost (queue_changed sent) u) f.calls f.work f.pending l
              (omega (arith, a, c, h)))
    ]
  ]
  step-Ahead (hands i) s s' e h = elim (Option-cases (pick_call i s.calls)) [
    | inl d ↦ absurd cc
    | inr ((q, ys), d) ↦ elim (Bool-cases (not (is_some q.receipt) && ltb (length s.work) 8)) [
      | inr r ↦ absurd cc
      | inl r ↦
          let a = pick_call-count b i s.calls ys q d in
          let c = count-append b s.work q.work in
          let t : record s { calls = ys; work = s.work ++ q.work ∷ [] } ≡ s' = cc in
          subst (Ahead b n) t (omega (arith, a, c, h))
    ]
  ]
  step-Ahead (gives_up i) s s' e h = elim (Option-cases (pick_call i s.calls)) [
    | inl d ↦ absurd cc
    | inr ((q, ys), d) ↦ elim (Bool-cases (not (is_some q.receipt) && s.done)) [
      | inr r ↦ absurd cc
      | inl r ↦
          let a = pick_call-count b i s.calls ys q d in
          let t : record s { calls = ys } ≡ s' = cc in subst (Ahead b n) t (omega (arith, a, h))
    ]
  ]
  step-Ahead (cancels i) s s' e h = elim (Option-cases (pick_call i s.calls)) [
    | inl d ↦ absurd cc
    | inr ((q, ys), d) ↦ elim (Bool-cases (not (is_some q.receipt))) [
      | inr r ↦ absurd cc
      | inl r ↦
          let a = pick_call-count b i s.calls ys q d in
          let t : record s { calls = ys } ≡ s' = cc in subst (Ahead b n) t (omega (arith, a, h))
    ]
  ]
  step-Ahead (begins lost) s s' e h = elim (Loop-cases s.loop) [
    | inl q ↦
        let f = emit-Beside lost started s in
        let u : Session = record (emit lost started s) { loop = selecting } in
        let t : u ≡ s' = cc in
        subst (Ahead b n) t (Ahead-same s u f.calls f.work f.pending (sym (ap (in_turn b) q)) h)
    | inr (inl q) ↦ absurd cc
    | inr (inr (inl q)) ↦ absurd cc
    | inr (inr (inr (inl (k, rest, q)))) ↦ absurd cc
    | inr (inr (inr (inr (o, q)))) ↦ absurd cc
  ]
  step-Ahead (takes lost) s s' e h = elim (Loop-cases s.loop) [
    | inl q ↦ absurd cc
    | inr (inr (inl q)) ↦ absurd cc
    | inr (inr (inr (inl (k, rest, q)))) ↦ absurd cc
    | inr (inr (inr (inr (o, q)))) ↦ absurd cc
    | inr (inl q) ↦ elim (List-cases s.work) [
      | inl r ↦ absurd cc
      | inr (x, xs, r) ↦
          let f = emit-Beside lost turn_began s in
          let u : Session = record (emit lost turn_began s) {
            work = xs;
            loop = running x.actions x.kind;
          } in
          let t : u ≡ s' = cc in
          let a = ap (count_calls b) f.calls in
          let c = ap (count b) r in
          let d = ap (counter b) f.pending in
          let l = ap (in_turn b) q in subst (Ahead b n) t (omega (arith, a, c, d, l, h))
    ]
  ]
  step-Ahead (acts ok out lost) s s' e h = elim (Loop-cases s.loop) [
    | inl q ↦ absurd cc
    | inr (inl q) ↦ absurd cc
    | inr (inr (inl q)) ↦ absurd cc
    | inr (inr (inr (inr (o, q)))) ↦ absurd cc
    | inr (inr (inr (inl (k, rest, q)))) ↦ elim (List-cases rest) [
      | inl r ↦ absurd cc
      | inr (x, xs, r) ↦ elim (Bool-cases s.done) [
        | inl d ↦ absurd cc
        | inr d ↦
            let (w, c, p) = perform-fields x ok lost out s in
            let u : Session = record (perform x ok out lost s) { loop = running xs k } in
            let t : u ≡ s' = cc in
            subst (Ahead b n) t (Ahead-same s u c w p (sym (ap (in_turn b) q)) h)
      ]
    ]
  ]
  step-Ahead breaks s s' e h = elim (Loop-cases s.loop) [
    | inl q ↦ absurd cc
    | inr (inl q) ↦ absurd cc
    | inr (inr (inl q)) ↦ absurd cc
    | inr (inr (inr (inr (o, q)))) ↦ absurd cc
    | inr (inr (inr (inl (k, rest, q)))) ↦ elim (Bool-cases s.done) [
      | inr d ↦ absurd cc
      | inl d ↦
          let u : Session = record s { loop = running [] k } in
          let t : u ≡ s' = cc in
          subst (Ahead b n) t (Ahead-same s u refl refl refl (sym (ap (in_turn b) q)) h)
    ]
  ]
  step-Ahead drains s s' e h = elim (Loop-cases s.loop) [
    | inl q ↦ absurd cc
    | inr (inl q) ↦ absurd cc
    | inr (inr (inl q)) ↦ absurd cc
    | inr (inr (inr (inr (o, q)))) ↦ absurd cc
    | inr (inr (inr (inl (k, rest, q)))) ↦ elim (List-cases rest) [
      | inr (x, xs, r) ↦ absurd cc
      | inl r ↦
          let u : Session = record s {
            pending = dequeue k s.pending;
            loop = drained (drain_report k (dequeue k s.pending));
          } in
          let t : u ≡ s' = cc in
          let o = dequeue-counter b k s.pending in
          let l = ap (in_turn b) q in subst (Ahead b n) t (omega (arith, o, l, h))
    ]
  ]
  step-Ahead (ends l1 l2 l3) s s' e h = elim (Loop-cases s.loop) [
    | inl q ↦ absurd cc
    | inr (inl q) ↦ absurd cc
    | inr (inr (inl q)) ↦ absurd cc
    | inr (inr (inr (inl (k, rest, q)))) ↦ absurd cc
    | inr (inr (inr (inr (o, q)))) ↦
        let f = end_turn-Beside o l1 l2 l3 s in
        let u = end_turn o l1 l2 l3 s in
        let t : u ≡ s' = cc in
        let l = ap (in_turn b) q in
        let z = end_turn-loop b o l1 l2 l3 s in
        subst (Ahead b n) t (Ahead-same s u f.calls f.work f.pending (z ∙ sym l) h)
  ]
  step-Ahead closes s s' e h = elim (Bool-cases s.done) [
    | inl d ↦ let t : s ≡ s' = cc in subst (Ahead b n) t h
    | inr d ↦
        let t : record s { done = true; reason = some interrupted } ≡ s' = cc in
        subst (Ahead b n) t h
  ]
  step-Ahead (returns full) s s' e h = elim (Loop-cases s.loop) [
    | inl q ↦ absurd cc
    | inr (inr (inl q)) ↦ absurd cc
    | inr (inr (inr (inl (k, rest, q)))) ↦ absurd cc
    | inr (inr (inr (inr (o, q)))) ↦ absurd cc
    | inr (inl q) ↦ elim (Bool-cases s.done) [
      | inr d ↦ absurd cc
      | inl d ↦ elim (Bool-cases full) [
        | inl r ↦
            let u : Session = record s { closed = true; loop = stopped } in
            let t : u ≡ s' = cc in
            subst (Ahead b n) t (Ahead-same s u refl refl refl (sym (ap (in_turn b) q)) h)
        | inr r ↦
            let u : Session = record s {
              events = s.events ++ exited ∷ [];
              closed = true;
              loop = stopped;
            } in
            let t : u ≡ s' = cc in
            subst (Ahead b n) t (Ahead-same s u refl refl refl (sym (ap (in_turn b) q)) h)
      ]
    ]
  ]

  pub run-Ahead :
      (ms : List Move) (s s' : Session) → run ms s ≡ some s' → Ahead b n s → Ahead b n s'
  unfolding run
  run-Ahead [] s s' e h = let t : s ≡ s' = cc in subst (Ahead b n) t h
  run-Ahead (m ∷ ms) s s' e h = elim (Option-cases (step m s)) [
    | inl d ↦ absurd cc
    | inr (s1, d) ↦ run-Ahead ms s1 s' (cc) (step-Ahead m s s1 d h)
  ]

pub start-Ahead : (b : Bool) (on_start : List Action) → Ahead b 0 (start on_start)
unfolding start
start-Ahead true on_start = omega arith
start-Ahead false on_start = omega arith

-- Whatever a session and its callers do from the start, the counters that it keeps under its lock never
-- fall short of the messages that are accepted and not applied, of either kind.
pub pending_covers :
    (b : Bool) (on_start : List Action) (ms : List Move) (s : Session)
    → run ms (start on_start) ≡ some s
    → held b s ≤ counter b s.pending
unfolding start
pending_covers b on_start ms s e =
    let z : Ahead b 0 (start on_start) = start-Ahead b on_start in
    let h = run-Ahead b 0 ms (start on_start) s e z in omega (arith, h)

-- A call whose context ends between its receipt and the hand-over of its work leaves its message in the
-- counter for good: whatever happens next, the counter of its kind stays above the messages that are
-- still to be applied, so it does not return to zero when all of them have been applied.
pub cancelled_call_leaks :
    (b : Bool) (i : ℕ) (ms : List Move) (s s' : Session) (q : Call) (others : List Call)
    → pick_call i s.calls ≡ some (q, others)
    → one b q.work.kind ≡ 1
    → held b s ≤ counter b s.pending
    → run (cancels i ∷ ms) s ≡ some s'
    → held b s' < counter b s'.pending
unfolding run step
cancelled_call_leaks b i ms s s' q others d k h e =
    let a = pick_call-count b i s.calls others q d in
    elim (Bool-cases (not (is_some q.receipt))) [
      | inr x ↦ absurd cc
      | inl x ↦
          let u : Session = record s { calls = others } in
          let g : run ms u ≡ some s' = cc in
          let r = run-Ahead b 1 ms u s' g (omega (arith, a, k, h)) in omega (arith, r)
    ]
