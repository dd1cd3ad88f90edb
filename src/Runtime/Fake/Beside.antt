-- ===== src/Runtime/Fake/Beside.antt =====
-- What the steps of a session leave alone (pkg/runtime/fake/fake.go).
use parallel_consciousness.Prelude.{
  String, ◌≡◌, refl, ◌∙◌, Bool, Option, none, some, List, Bool-cases, inl, inr, ◌⊎◌,
}
use parallel_consciousness.Runtime.{Queue, tool_used, Event, turn_ended, idle, queue_changed}
use parallel_consciousness.Runtime.Fake.{
  Action, write, exec, emits, exit, WorkKind, Loop, starting, selecting, stopped, running, drained,
  Session, emit, close_with, perform, end_turn,
}

-- What `emit` leaves alone.
pub record Beside (s s' : Session) : Type 0 where
  pub work : s'.work ≡ s.work
  pub calls : s'.calls ≡ s.calls
  pub pending : s'.pending ≡ s.pending
  pub done : s'.done ≡ s.done
  pub reason : s'.reason ≡ s.reason
  pub closed : s'.closed ≡ s.closed

pub emit-Beside : (lost : Bool) (e : Event) (s : Session) → Beside s (emit lost e s)
unfolding emit
emit-Beside lost e s = elim (Bool-cases s.closed) [
  | inl q ↦ record { work = cc; calls = cc; pending = cc; done = cc; reason = cc; closed = cc }
  | inr q ↦ elim (Bool-cases s.done) [
    | inr p ↦ record { work = cc; calls = cc; pending = cc; done = cc; reason = cc; closed = cc }
    | inl p ↦ elim (Bool-cases lost) [
      | inl r ↦ record { work = cc; calls = cc; pending = cc; done = cc; reason = cc; closed = cc }
      | inr r ↦ record { work = cc; calls = cc; pending = cc; done = cc; reason = cc; closed = cc }
    ]
  ]
]

pub emit-loop : (lost : Bool) (e : Event) (s : Session) → (emit lost e s).loop ≡ s.loop
unfolding emit
emit-loop lost e s = elim (Bool-cases s.closed) [
  | inl q ↦ cc
  | inr q ↦ elim (Bool-cases s.done) [
    | inr p ↦ cc
    | inl p ↦ elim (Bool-cases lost) [ inl r ↦ cc | inr r ↦ cc ]
  ]
]

pub Beside-trans : (s t u : Session) → Beside s t → Beside t u → Beside s u
Beside-trans s t u f g = record {
  work = g.work ∙ f.work;
  calls = g.calls ∙ f.calls;
  pending = g.pending ∙ f.pending;
  done = g.done ∙ f.done;
  reason = g.reason ∙ f.reason;
  closed = g.closed ∙ f.closed;
}

pub two_emits-Beside :
    (l l' : Bool) (e e' : Event) (s : Session) → Beside s (emit l' e' (emit l e s))
two_emits-Beside l l' e e' s =
    Beside-trans s (emit l e s) (emit l' e' (emit l e s)) (emit-Beside l e s)
      (emit-Beside l' e' (emit l e s))

-- The end of a turn changes the events and the loop.
pub end_turn-Beside :
    (o : Option Queue) (l1 l2 l3 : Bool) (s : Session) → Beside s (end_turn o l1 l2 l3 s)
unfolding end_turn
end_turn-Beside none l1 l2 l3 s =
    let f = two_emits-Beside l2 l3 turn_ended idle s in
    record {
      work = f.work;
      calls = f.calls;
      pending = f.pending;
      done = f.done;
      reason = f.reason;
      closed = f.closed;
    }
end_turn-Beside (some q) l1 l2 l3 s =
    let s1 = emit l1 (queue_changed q) s in
    let f =
      Beside-trans s s1 (emit l3 idle (emit l2 turn_ended s1)) (emit-Beside l1 (queue_changed q) s)
        (two_emits-Beside l2 l3 turn_ended idle s1) in
    record {
      work = f.work;
      calls = f.calls;
      pending = f.pending;
      done = f.done;
      reason = f.reason;
      closed = f.closed;
    }

-- An action changes the events, or closes the session.
pub perform-fields :
    (a : Action) (ok lost : Bool) (out : String) (s : Session)
    → ((perform a ok out lost s).work ≡ s.work)
      × ((perform a ok out lost s).calls ≡ s.calls)
      × ((perform a ok out lost s).pending ≡ s.pending)
unfolding perform close_with
perform-fields (write path content) ok lost out s =
    let f =
      emit-Beside lost (tool_used (record { name = "write"; target = path; detail = ""; ok = ok }))
        s in
    (f.work, f.calls, f.pending)
perform-fields (exec command args) ok lost out s =
    let f =
      emit-Beside lost
        (tool_used (record { name = "bash"; target = command; detail = out; ok = ok })) s in
    (f.work, f.calls, f.pending)
perform-fields (emits t) ok lost out s =
    let f = emit-Beside lost (tool_used t) s in (f.work, f.calls, f.pending)
perform-fields exit ok lost out s = elim (Bool-cases s.done) [
  | inl q ↦ (cc, cc, cc)
  | inr q ↦ (cc, cc, cc)
]

pub Loop-cases :
    (l : Loop)
    → (l ≡ starting)
      ⊎ ((l ≡ selecting)
          ⊎ ((l ≡ stopped)
              ⊎ (((k : WorkKind) × (rest : List Action) × (l ≡ running rest k))
                  ⊎ ((o : Option Queue) × (l ≡ drained o)))))
Loop-cases starting = inl refl
Loop-cases selecting = inr (inl refl)
Loop-cases stopped = inr (inr (inl refl))
Loop-cases (running rest k) = inr (inr (inr (inl (k, rest, refl))))
Loop-cases (drained o) = inr (inr (inr (inr (o, refl))))
