-- ===== src/Runtime/Fake.antt =====
-- pkg/runtime/fake/fake.go: the scripted session, its loop, and the calls of its users, which run
-- alongside. Each step of one of them is a move; a move that cannot be taken answers `none`.
pub mod Beside
pub mod Pending
pub mod Endings
use parallel_consciousness.Prelude.{
  ℕ, zero, suc, ◌-◌, String, Bool, true, false, not, ◌&&◌, Option, none, some, List, [], ◌∷◌, ◌++◌,
  if◌then◌else◌, ltb, length, or_else, is_some,
}
use parallel_consciousness.Runtime.{
  ToolUse, Queue, Event, started, turn_began, turn_ended, idle, exited, tool_used, queue_changed,
  ExitReason, completed, interrupted,
}

-- `Action`
pub data Action : Type 0 where
  write : String → String → Action
  exec : String → List String → Action
  emits : ToolUse → Action
  exit : Action

-- `Script`; a hook may be missing.
pub record Script : Type 0 where
  pub on_start : List Action
  pub on_steer : Option (String → List Action)
  pub on_follow : Option (String → List Action)

-- `workKind`
pub data WorkKind : Type 0 where
  initial steer follow : WorkKind

-- `queuedWork`
pub record QueuedWork : Type 0 where
  pub actions : List Action
  pub kind : WorkKind

-- `pick`
unfoldable pub pick :
    Option (String → List Action) → Option (String → List Action) → Option (String → List Action)
pick own fallback = or_else own fallback

-- The work of `Steer` and of `Follow` on a text; without a hook there is none, and the call returns.
unfoldable pub message_work : Script → Bool → String → Option QueuedWork
message_work script steers text =
    let hook =
      if steers
      then pick script.on_steer script.on_follow
      else pick script.on_follow script.on_steer in
    elim hook [
      | none ↦ none
      | some h ↦ some (record { actions = h text; kind = if steers then steer else follow })
    ]

-- A call of `queue` that has counted its message: its work, and its receipt until that is sent.
pub record Call : Type 0 where
  pub work : QueuedWork
  pub receipt : Option Queue

-- Where `loop` stands: before its first event, at its select, in a turn with actions left, behind the
-- `dequeue` of its message with the counters to send, returned.
pub data Loop : Type 0 where
  starting selecting stopped : Loop
  running : List Action → WorkKind → Loop
  drained : Option Queue → Loop

-- `session`: the events taken by its channel, the work queue, the calls of `queue` that
-- have not yet handed over their work, the counters, whether `done` is closed and with what
-- reason, and whether the channel of events is closed.
pub record Session : Type 0 where
  pub events : List Event
  pub work : List QueuedWork
  pub calls : List Call
  pub pending : Queue
  pub done : Bool
  pub reason : Option ExitReason
  pub closed : Bool
  pub loop : Loop

-- `Start`, with the script's OnStart.
unfoldable pub start : List Action → Session
start on_start = record {
  events = [];
  work = record { actions = on_start; kind = initial } ∷ [];
  calls = [];
  pending = record { steering = 0; follow_up = 0 };
  done = false;
  reason = none;
  closed = false;
  loop = starting;
}

-- `emit`: once `done` is closed its select may take that case, as `lost` says.
unfoldable pub emit : Bool → Event → Session → Session
emit lost e s =
    if s.closed then s else if s.done && lost then s else record s { events = s.events ++ e ∷ [] }

-- `emitFinal`: `full` says that the channel has no room.
unfoldable pub emit_final : Bool → Event → Session → Session
emit_final full e s = if full then s else record s { events = s.events ++ e ∷ [] }

-- `closeWithReason`
unfoldable pub close_with : ExitReason → Session → Session
close_with r s = if s.done then s else record s { done = true; reason = some r }

-- `enqueue`
unfoldable pub enqueue : WorkKind → Queue → Queue
enqueue initial q = q
enqueue steer q = record q { steering = suc q.steering }
enqueue follow q = record q { follow_up = suc q.follow_up }

-- `dequeue`
unfoldable pub dequeue : WorkKind → Queue → Queue
dequeue initial q = q
dequeue steer q = if ltb 0 q.steering then record q { steering = q.steering - 1 } else q
dequeue follow q = if ltb 0 q.follow_up then record q { follow_up = q.follow_up - 1 } else q

-- `run` of an action; `ok` and `out` are what the disk or the command answers.
unfoldable pub perform : Action → Bool → String → Bool → Session → Session
perform (write path content) ok out lost s =
    emit lost (tool_used (record { name = "write"; target = path; detail = ""; ok = ok })) s
perform (exec command args) ok out lost s =
    emit lost (tool_used (record { name = "bash"; target = command; detail = out; ok = ok })) s
perform (emits t) ok out lost s = emit lost (tool_used t) s
perform exit ok out lost s = close_with completed s

-- One of the calls in flight, and the others.
unfoldable pub pick_call : ℕ → List Call → Option (Call × List Call)
pick_call n [] = none
pick_call zero (q ∷ qs) = some (q, qs)
pick_call (suc n) (q ∷ qs) = elim (pick_call n qs) [ none ↦ none | some p ↦ some (p.0, q ∷ p.1) ]

-- What happens: `queue` counts a message; sends its receipt; hands its work over, while the queue has
-- room for eight; gives up because the session ends; or because its context does. `loop` begins; takes
-- work; runs an action; drops the rest of a turn that has been cancelled; drains the message of a turn;
-- ends a turn; returns. `Interrupt` or `Close` is called.
pub data Move : Type 0 where
  accepts : QueuedWork → Move
  receipts : ℕ → Bool → Move
  hands gives_up cancels : ℕ → Move
  begins takes : Bool → Move
  acts : Bool → String → Bool → Move
  breaks drains closes : Move
  ends : Bool → Bool → Bool → Move
  returns : Bool → Move

-- The counters that the end of a turn sends; the first turn sends none.
unfoldable pub drain_report : WorkKind → Queue → Option Queue
drain_report initial q = none
drain_report steer q = some q
drain_report follow q = some q

-- The end of a turn: the counters, unless it is the first, and two events.
unfoldable pub end_turn : Option Queue → Bool → Bool → Bool → Session → Session
end_turn o l1 l2 l3 s =
    let s1 : Session = elim o [ none ↦ s | some q ↦ emit l1 (queue_changed q) s ] in
    record (emit l3 idle (emit l2 turn_ended s1)) { loop = selecting }

unfoldable pub step : Move → Session → Option Session
step (accepts q) s =
    let pending = enqueue q.kind s.pending in
    some (record s {
      pending = pending;
      calls = s.calls ++ (record { work = q; receipt = some pending }) ∷ [];
    })
step (receipts n lost) s = elim (pick_call n s.calls) [
  | none ↦ none
  | some p ↦ elim p.0.receipt [
    | none ↦ none
    | some q ↦ some (
        emit lost (queue_changed q)
          (record s { calls = p.1 ++ (record { work = p.0.work; receipt = none }) ∷ [] }))
  ]
]
step (hands n) s = elim (pick_call n s.calls) [
  | none ↦ none
  | some p ↦
      if not (is_some p.0.receipt) && ltb (length s.work) 8
      then some (record s { calls = p.1; work = s.work ++ p.0.work ∷ [] })
      else none
]
step (gives_up n) s = elim (pick_call n s.calls) [
  | none ↦ none
  | some p ↦ if not (is_some p.0.receipt) && s.done then some (record s { calls = p.1 }) else none
]
step (cancels n) s = elim (pick_call n s.calls) [
  | none ↦ none
  | some p ↦ if not (is_some p.0.receipt) then some (record s { calls = p.1 }) else none
]
step (begins lost) s = elim s.loop [
  | starting ↦ some (record (emit lost started s) { loop = selecting })
  | selecting ↦ none
  | stopped ↦ none
  | running rest k ↦ none
  | drained o ↦ none
]
step (takes lost) s = elim s.loop [
  | starting ↦ none
  | stopped ↦ none
  | running rest k ↦ none
  | drained o ↦ none
  | selecting ↦ elim s.work [
    | [] ↦ none
    | q ∷ rest ↦
        some (record (emit lost turn_began s) { work = rest; loop = running q.actions q.kind })
  ]
]
step (acts ok out lost) s = elim s.loop [
  | starting ↦ none
  | selecting ↦ none
  | stopped ↦ none
  | running rest k ↦ elim rest [
    | [] ↦ none
    | a ∷ more ↦
        if s.done then none else some (record (perform a ok out lost s) { loop = running more k })
  ]
  | drained o ↦ none
]
step breaks s = elim s.loop [
  | starting ↦ none
  | selecting ↦ none
  | stopped ↦ none
  | running rest k ↦ if s.done then some (record s { loop = running [] k }) else none
  | drained o ↦ none
]
step drains s = elim s.loop [
  | starting ↦ none
  | selecting ↦ none
  | stopped ↦ none
  | drained o ↦ none
  | running rest k ↦ elim rest [
    | a ∷ more ↦ none
    | [] ↦
        let pending = dequeue k s.pending in
        some (record s { pending = pending; loop = drained (drain_report k pending) })
  ]
]
step (ends l1 l2 l3) s = elim s.loop [
  | starting ↦ none
  | selecting ↦ none
  | stopped ↦ none
  | running rest k ↦ none
  | drained o ↦ some (end_turn o l1 l2 l3 s)
]
step closes s = some (close_with interrupted s)
step (returns full) s = elim s.loop [
  | starting ↦ none
  | stopped ↦ none
  | running rest k ↦ none
  | drained o ↦ none
  | selecting ↦
      if s.done
      then some (record (emit_final full exited s) { closed = true; loop = stopped })
      else none
]

unfoldable pub run : List Move → Session → Option Session
run [] s = some s
run (m ∷ ms) s = elim (step m s) [ none ↦ none | some s' ↦ run ms s' ]
