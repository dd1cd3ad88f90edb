-- ===== src/Pcops/Run/Sessions.antt =====
-- The goroutines that `Run` keeps beside its loop (internal/pcops/run.go): the drain of a session's
-- events, and the renewal of a lease.
use mathlib.Core.List.{append-nil, append_assoc}
use parallel_consciousness.Prelude.{
  ℕ, suc, ◌+◌, ◌*◌, ◌≤◌, String, ◌≡◌, refl, sym, ap, Bool, true, false, Option, none, some, List,
  [], ◌∷◌, ◌++◌, arith, if◌then◌else◌, ltb, length, take, put-take, Bool-cases, Option-cases, inl,
  inr,
}
use parallel_consciousness.Dict.{lookup}
use parallel_consciousness.Runtime.{Event, exited, errored}
use parallel_consciousness.Workspace.{
  Manager, Lease, Row, Table, Fault, lease_lost, heartbeat, owns, renew, claim, is_stale, lease_ttl,
}

-- `sessionFailure`; the kind is the event's.
pub record SessionFailure : Type 0 where
  pub agent : String
  pub event : Event

-- The events that `drainEvents` forwards.
unfoldable pub is_terminal : Event → Bool
is_terminal exited = true
is_terminal (errored e) = true
is_terminal _ = false

-- `drainEvents` on the events of a session, into a channel of failures with room for `room`, which
-- nothing reads meanwhile.
unfoldable pub drain_events : String → ℕ → List Event → List SessionFailure → List SessionFailure
drain_events agent room [] fs = fs
drain_events agent room (e ∷ es) fs =
    let next =
      if is_terminal e
      then if ltb (length fs) room then fs ++ (record { agent = agent; event = e }) ∷ [] else fs
      else fs in
    drain_events agent room es next

-- `heartbeatInterval` and `leaseTTL`, in milliseconds.
abbrev pub heartbeat_interval : ℕ
heartbeat_interval = 10000

-- A loss is the one error that `errors.Is` takes for a lost lease.
unfoldable pub is_loss : Fault → Bool
is_loss (lease_lost p) = true
is_loss _ = false

-- `heartbeatLease` over its ticks, each at a time, on the table that it then finds, its statement failing
-- or not: what it reports to `Run`, and how often it has renewed the lease.
unfoldable pub heartbeat_lease : Lease → List (ℕ × Option String × Table) → Option Fault × ℕ
heartbeat_lease l [] = (none, 0)
heartbeat_lease l ((now, fault, t) ∷ ticks) =
    let rest = heartbeat_lease l ticks in
    elim (heartbeat l now fault t).0 [
      | none ↦ (rest.0, suc rest.1)
      | some e ↦ if is_loss e then (some e, 0) else rest
    ]

-- The failures that a session's events amount to.
abbrev pub deaths : String → List Event → List SessionFailure
deaths agent [] = []
deaths agent (e ∷ es) =
    let rest = deaths agent es in
    if is_terminal e then record { agent = agent; event = e } ∷ rest else rest

-- The drain of a session never blocks, and forwards its terminal events, each attributed to the agent, as
-- far as the channel has room: the first of them always, when the channel has room for one.
pub drain_events-take :
    (agent : String) (room : ℕ) (es : List Event) (fs : List SessionFailure)
    → drain_events agent room es (take room fs) ≡ take room (fs ++ deaths agent es)
unfolding drain_events
drain_events-take agent room [] fs = ap (take room) (sym (append-nil fs))
drain_events-take agent room (e ∷ es) fs = elim (Bool-cases (is_terminal e)) [
  | inr q ↦ let ih = drain_events-take agent room es fs in cc
  | inl q ↦
      let f : SessionFailure = record { agent = agent; event = e } in
      let ih = drain_events-take agent room es (fs ++ f ∷ []) in
      let p = put-take room fs f in let a = append_assoc fs (f ∷ []) (deaths agent es) in cc
]

-- A holder that has lost its lease learns of it at the first tick whose statement finds the row gone or
-- another's, whatever failed or succeeded before: the loop reports a lost lease, at that tick or an
-- earlier one, and renews nothing behind it.
pub loss_reported :
    (l : Lease) (before after : List (ℕ × Option String × Table)) (now : ℕ) (t : Table)
    → owns l t ≡ false
    → (e : Fault) × (k : ℕ) × (heartbeat_lease l (before ++ (now, none, t) ∷ after) ≡ (some e, k))
      × (is_loss e ≡ true)
      × (k ≤ length before)
unfolding heartbeat_lease heartbeat renew is_loss
loss_reported l [] after now t o = elim (Option-cases (lookup l.path t)) [
  | inl q ↦ (lease_lost l.path, 0, cc, refl, omega arith)
  | inr (r, q) ↦ (lease_lost l.path, 0, cc, refl, omega arith)
]
loss_reported l ((at, fault, u) ∷ before) after now t o =
    let (e, k, p, q, r) = loss_reported l before after now t o in
    elim (Option-cases (heartbeat l at fault u).0) [
      | inl a ↦ (e, suc k, cc, q, omega arith)
      | inr (x, a) ↦ elim (Bool-cases (is_loss x)) [
        | inl b ↦ (x, 0, cc, b, omega arith)
        | inr b ↦ (e, k, cc, q, omega arith)
      ]
    ]

-- The interval of the heartbeats leaves room for two that fail: while at most two ticks have passed since
-- a lease was renewed at `h`, until the next tick is due, no claim of its path by anyone succeeds.
pub two_ticks_to_spare :
    (m : Manager) (l : Lease) (r : Row) (t : Table) (missed now : ℕ)
    → m.ttl ≡ 30000
    → lookup l.path t ≡ some r
    → missed ≤ 2
    → now ≤ r.heartbeat_at + suc missed * heartbeat_interval
    → claim m l now t ≡ (false, t)
unfolding claim is_stale lease_ttl
two_ticks_to_spare m l r t missed now e q s h =
    let z : ltb (r.heartbeat_at + m.ttl) now ≡ false =
      let w : now ≤ r.heartbeat_at + 30000 = omega arith in ground arith in
    cc
