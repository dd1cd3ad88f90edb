-- ===== src/Gate/Round.antt =====
-- pkg/gate/gate.go: what the coordinator does to one gate, each function under the gate's lock.
use parallel_consciousness.Prelude.{
  suc, String, ◌<>◌, ◌==◌, Bool, true, false, ◌&&◌, not, Option, none, some, List, [], ◌∷◌, ◌++◌,
  if◌then◌else◌, contains, eqb, length,
}
use parallel_consciousness.Dict.{Dict, lookup, has, insert, copy_map}
use parallel_consciousness.Protocol.{
  text, flag, text_map, text_list, to_agent, to_topic, Intent, Message, Stamp, new, reply,
  text_field,
}
use parallel_consciousness.Gate.{
  topic, Spec, Verdict, GateState, Host, Timer, Effects, send, request_message,
}

-- `outstandingFor`: the required participants with no recorded readiness, in the order required.
unfoldable pub outstanding_for : List String → Dict String → List String
outstanding_for [] ready = []
outstanding_for (p ∷ ps) ready =
    let rest = outstanding_for ps ready in if has p ready then rest else p ∷ rest

-- The body of the first loop of `resolve`: a participant that the verdict does not name gets its
-- recorded version, if it has one.
unfoldable pub backfill_one : String → Dict String → Dict String → Dict String
backfill_one p ready vs =
    if has p vs
    then vs
    else elim (lookup p ready) [ none ↦ vs | some recorded ↦ insert p recorded vs ]

unfoldable pub backfill : List String → Dict String → Dict String → Dict String
backfill [] ready vs = vs
backfill (p ∷ ps) ready vs = backfill ps ready (backfill_one p ready vs)

-- The second loop of `resolve`: a required participant's claim becomes what was tested.
unfoldable pub merge_tested : List String → Dict String → Dict String → Dict String
merge_tested required [] ready = ready
merge_tested required ((name, tested) ∷ vs) ready =
    let rest = merge_tested required vs ready in
    if contains required name then insert name tested rest else rest

-- The text of the verdict broadcast.
unfoldable pub verdict_text : String → Verdict → Bool → Bool → String
verdict_text gate_id v stalled from_cache =
    let outcome =
      if stalled
      then gate_id <> " STALLED: runner unresponsive"
      else if v.passed
      then gate_id <> " PASSED"
      else gate_id <> (" FAILED: " <> v.detail) in
    if from_cache then outcome <> " (already tested at this version)" else outcome

-- The verdict broadcast.
unfoldable pub inform_message : Host → Spec → Verdict → String → Stamp → Message
inform_message h spec v line = new (to_agent h.name) (to_topic (topic spec.id)) Intent.inform (
    ("text", text line)
    ∷ ("gate", text spec.id)
    ∷ ("passed", flag v.passed)
    ∷ ("versions", text_map (copy_map v.versions))
    ∷ [])

-- The failure block that one owner receives.
unfoldable pub block_message : Host → Spec → Verdict → String → Stamp → Message
block_message h spec v owner =
    new (to_agent h.name) (to_agent owner) Intent.block
      (("text", text (spec.id <> (" gate failing: " <> v.detail))) ∷ ("gate", text spec.id) ∷ [])

unfoldable pub send_blocks : Host → Spec → Verdict → List String → Effects → Effects
send_blocks h spec v [] e = e
send_blocks h spec v (owner ∷ owners) e =
    send_blocks h spec v owners (send h (block_message h spec v owner) e)

-- The call of the hook that `OnVerdict` registered.
unfoldable pub report : Host → Verdict → Effects → Effects
report h v e = if h.hooked then record e { reported = e.reported ++ v ∷ [] } else e

-- The verdict that a round ends with: `v.Versions` copied and backfilled.
unfoldable pub filled : GateState → Verdict → Verdict
filled gs v = record v { versions = backfill gs.spec.required gs.ready (copy_map v.versions) }

-- What `resolve` writes to the gate.
unfoldable pub settle : Verdict → Bool → GateState → GateState
settle v stalled gs = record gs {
  inflight = false;
  gen = suc gs.gen;
  ready = merge_tested gs.spec.required v.versions gs.ready;
  last_verdict = some v;
  last_stalled = stalled;
}

-- What `resolve` does once the lock is released.
unfoldable pub announce : Host → Spec → Verdict → Bool → Bool → Effects → Effects
announce h spec v stalled from_cache e =
    let line = verdict_text spec.id v stalled from_cache in
    let told = send h (inform_message h spec v line) e in
    report h v (if v.passed then told else send_blocks h spec v spec.required told)

-- `resolve`
unfoldable pub resolve : Host → Verdict → Bool → Bool → GateState → Effects → GateState × Effects
resolve h v stalled from_cache gs e =
    let v' = filled gs v in
    if gs.inflight
    then (settle v' stalled gs, announce h gs.spec v' stalled from_cache e)
    else (gs, e)

-- `open`: the request goes to the runner and a timer is armed.
unfoldable pub open_round : Host → GateState → Effects → GateState × Effects
open_round h gs e =
    let asked = send h (request_message h gs.spec (copy_map gs.ready)) e in
    let timer : Timer = record { gate_id = gs.spec.id; gen = gs.gen; delay = h.timeout } in
    (record gs { inflight = true }, record asked { timers = asked.timers ++ timer ∷ [] })

-- The cache guard of `onReady`: the remembered verdict, if it answers this submission.
unfoldable pub cached_answer : GateState → Bool → String → String → Option Verdict
cached_answer gs required agent version =
    if not gs.inflight && required
    then elim gs.last_verdict [
      | none ↦ none
      | some v ↦ elim (lookup agent v.versions) [
        | none ↦ none
        | some tested ↦ if tested == version then some v else none
      ]
    ]
    else none

-- `gs.lastVerdict = nil` of `onReady`, which a required participant reaches between rounds.
unfoldable pub invalidate : Bool → GateState → GateState
invalidate required gs =
    if not gs.inflight && required then record gs { last_verdict = none } else gs

-- The acknowledgement of a recorded readiness.
unfoldable pub ack_message : Host → Message → String → List String → Bool → Stamp → Message
ack_message h m gate_id outstanding running = reply m (to_agent h.name) Intent.ack (
    ("gate", text gate_id)
    ∷ ("outstanding", text_list outstanding)
    ∷ ("running", flag running)
    ∷ [])

-- The answer to a readiness that is dropped because a round is in flight.
unfoldable pub nack_message : Host → Message → String → Dict String → Stamp → Message
nack_message h m gate_id testing =
    reply m (to_agent h.name) Intent.nack
      (("gate", text gate_id) ∷ ("testing", text_map testing) ∷ [])

-- The part of `onReady` behind the cache guard: record, answer, and open a full gate. The answer is
-- built before the round opens and returned after it.
unfoldable pub record_ready :
    Host
    → String
    → Message
    → String
    → Bool
    → GateState
    → Effects
    → GateState × Effects × Option Message
record_ready h gate_id m version required gs e =
    let recorded = record gs { ready = insert m.from.agent version gs.ready } in
    let full = eqb (length recorded.ready) (length gs.spec.required) in
    let outstanding = outstanding_for gs.spec.required recorded.ready in
    let built = record e { built = suc e.built } in
    let ack = ack_message h m gate_id outstanding full (h.stamps e.built) in
    let nack = nack_message h m gate_id (copy_map gs.ready) (h.stamps e.built) in
    let opened = open_round h recorded built in
    if required && not gs.inflight
    then (if full then (opened.0, opened.1, some ack) else (recorded, built, some ack))
    else if required
    then (gs, built, some nack)
    else (gs, e, none)

-- `onReady`, from the lock on the gate to its end.
unfoldable pub ready_at :
    Host → String → Message → GateState → Effects → GateState × Effects × Option Message
ready_at h gate_id m gs e =
    let version = text_field "version" m.body in
    let required = contains gs.spec.required m.from.agent in
    elim (cached_answer gs required m.from.agent version) [
      | some v ↦
          let (gs', e') = resolve h v gs.last_stalled true (record gs { inflight = true }) e in
          (gs', e', none)
      | none ↦ record_ready h gate_id m version required (invalidate required gs) e
    ]
