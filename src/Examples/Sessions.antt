-- ===== src/Examples/Sessions.antt =====
-- Sessions of the scripted runtime (pkg/runtime/fake/fake.go).
use parallel_consciousness.Prelude.{
  ◌≤◌, ◌<◌, ◌≡◌, refl, true, false, none, some, List, [], ◌∷◌, arith,
}
use parallel_consciousness.Runtime.{
  completed, Event, queue_changed, started, turn_began, turn_ended, idle,
}
use parallel_consciousness.Runtime.Fake.{
  exit, steer, QueuedWork, selecting, Session, start, emit, enqueue, dequeue, close_with, pick_call,
  Call, Move, accepts, receipts, drains, drain_report, hands, cancels, begins, takes, acts, ends,
  perform, end_turn, step, run,
}
use parallel_consciousness.Runtime.Fake.Pending.{
  held, counter, pending_covers, cancelled_call_leaks,
}

abbrev message : QueuedWork
message = record { actions = exit ∷ []; kind = steer }

-- A message is accepted before the session begins, and handed over; the first turn is over.
abbrev opening : List Move
opening =
    accepts message
    ∷ receipts 0 false
    ∷ begins false
    ∷ takes false
    ∷ hands 0
    ∷ drains
    ∷ ends false false false
    ∷ []

abbrev opened_events : List Event
opened_events =
    queue_changed (record { steering = 1; follow_up = 0 })
    ∷ started
    ∷ turn_began
    ∷ turn_ended
    ∷ idle
    ∷ []

abbrev after : Session
after = record (start []) {
  events = opened_events;
  work = message ∷ [];
  pending = record { steering = 1; follow_up = 0 };
  loop = selecting;
}

opened : run opening (start []) ≡ some after
unfolding run step start emit enqueue dequeue pick_call drain_report end_turn
opened = refl

pending_covers_example : held true after ≤ counter true after.pending
unfolding start
pending_covers_example = pending_covers true [] opening after opened

-- The call of a second message, its receipt sent.
abbrev second : Call
second = record { work = message; receipt = none }

-- A second message is accepted, and its call ends before the hand-over.
abbrev waiting : Session
waiting = record after { calls = second ∷ []; pending = record { steering = 2; follow_up = 0 } }

abbrev rest : List Move
rest = takes false ∷ acts true "" false ∷ drains ∷ ends false false false ∷ []

abbrev applied_events : List Event
applied_events =
    queue_changed (record { steering = 1; follow_up = 0 })
    ∷ started
    ∷ turn_began
    ∷ turn_ended
    ∷ idle
    ∷ turn_began
    ∷ queue_changed (record { steering = 1; follow_up = 0 })
    ∷ turn_ended
    ∷ idle
    ∷ []

abbrev applied : Session
applied = record after {
  events = applied_events;
  work = [];
  done = true;
  reason = some completed;
  pending = record { steering = 1; follow_up = 0 };
}

ran : run (cancels 0 ∷ rest) waiting ≡ some applied
unfolding run step start emit enqueue dequeue pick_call drain_report end_turn perform close_with
ran = refl

cancelled_call_leaks_example : held true applied < counter true applied.pending
unfolding pick_call start
cancelled_call_leaks_example =
    cancelled_call_leaks true 0 rest waiting applied second [] refl refl (omega arith) ran
