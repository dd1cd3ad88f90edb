-- ===== src/Examples/Gates.antt =====
-- Two participants, one gate (pkg/gate/gate.go).
use parallel_consciousness.Prelude.{
  ℕ, String, ◌≡◌, ◌≢◌, refl, true, false, none, some, List, [], ◌∷◌, arith, contains, Distinct, inl,
  inr, eq_iff, get_or,
}
use parallel_consciousness.Dict.{Dict, lookup, insert}
use parallel_consciousness.Protocol.{
  Value, text_map, text_list, any_map, any_list, text, Intent, Message, Stamp, new, reply, to_agent,
  text_field, as_text,
}
use parallel_consciousness.Protocol.Body.{versions}
use parallel_consciousness.Protocol.Wire.{Json, texts, text_items, carry}
use parallel_consciousness.Gate.{
  Spec, Verdict, GateState, Host, Timer, Effects, new_gate, ready_message, request_message,
  serve_request, topic,
}
use parallel_consciousness.Gate.Round.{ready_at, cached_answer, invalidate, record_ready}
use parallel_consciousness.Gate.Quorum.{Covers}
use parallel_consciousness.Gate.Phase.{Base, Settled, IsSound}
use parallel_consciousness.Gate.Answers.{
  ready_at-Recorded, divergence_reopens, unchanged_replays, Recorded,
}
use parallel_consciousness.Gate.Runner.{Alike, given, read_verdict-serve_request}
use parallel_consciousness.Gate.Coordinator.{
  Coordinator, new_coordinator, register, handle, on_ready, put, read_verdict, check_timer,
}
use parallel_consciousness.Gate.Coordinator.Reach.{
  Reach, registers, delivers, here, next, Reach-AllSound,
}

abbrev two : List String
two = "billing" ∷ "gateway" ∷ []

abbrev currency : Spec
currency = record { id = "currency"; required = two; runner = "integrator" }

abbrev stamps : ℕ → Stamp
stamps n = record { uuid = "message"; now = n }

abbrev host : Host
host = record { name = "coordinator"; timeout = 600; hooked = true; stamps = stamps }

abbrev quiet : Effects
quiet = record { sent = []; timers = []; reported = []; built = 0 }

-- `agent` declares itself ready at `version`.
says_ready : String → String → Message
says_ready agent version = ready_message agent "currency" version (stamps 7)

abbrev claims : Dict String
claims = ("billing", "b1") ∷ ("gateway", "g1") ∷ []

abbrev failed : Verdict
failed = record { gate_id = "currency"; passed = false; detail = "USD"; versions = claims }

abbrev collecting : GateState
collecting = record {
  spec = currency;
  ready = ("gateway", "g1") ∷ [];
  inflight = false;
  gen = 0;
  last_verdict = none;
  last_stalled = false;
}

abbrev running : GateState
running = record collecting { ready = claims; inflight = true }

abbrev settled : GateState
settled = record running { inflight = false; gen = 1; last_verdict = some failed }

two-Distinct : Distinct two
unfolding contains
two-Distinct = (refl, (refl, tt))

claims-Covers : Covers claims two
unfolding lookup
claims-Covers = (refl, (refl, tt))

collecting-Base : Base collecting
unfolding contains lookup
collecting-Base = record {
  distinct = two-Distinct;
  nonempty = omega arith;
  keyed = (refl, tt);
  within = (refl, tt);
}

settled-Settled : Settled settled failed
settled-Settled = record {
  idle = refl;
  tested = refl;
  quorum = claims-Covers;
  agrees = λ p r. refl;
}

settled-IsSound : IsSound settled
unfolding contains lookup
settled-IsSound = record {
  base = record {
    distinct = two-Distinct;
    nonempty = omega arith;
    keyed = (refl, (refl, tt));
    within = (refl, (refl, tt));
  };
  phase = inr (inr (failed, settled-Settled));
}

collecting-IsSound : IsSound collecting
unfolding lookup
collecting-IsSound = record {
  base = collecting-Base;
  phase = inl (record { idle = refl; untested = refl; waiting = λ c. cc (c.0) });
}

registered : Coordinator
registered = register currency (new_coordinator "coordinator" stamps)

Reach-AllSound_example : IsSound (record (new_gate currency) { ready = ("billing", "b1") ∷ [] })
unfolding registered register new_coordinator handle on_ready says_ready ready_message new topic
    lookup insert put ready_at cached_answer invalidate record_ready contains as_text new_gate
Reach-AllSound_example =
    Reach-AllSound "coordinator" stamps
      (next (next here (registers currency two-Distinct (omega arith)))
        (delivers (says_ready "billing" "b1")))
      "currency" (record (new_gate currency) { ready = ("billing", "b1") ∷ [] }) refl

ready_at-Recorded_example :
    Recorded host "currency"
      (says_ready "billing" "b1")
      "b1"
      collecting
      quiet
      (ready_at host "currency" (says_ready "billing" "b1") collecting quiet)
unfolding says_ready ready_message new contains lookup as_text
ready_at-Recorded_example =
    ready_at-Recorded host "currency" (says_ready "billing" "b1") quiet collecting
      collecting-IsSound refl refl (λ v e. absurd (none_ne_some e))
  where
    none_ne_some : {v : Verdict} → none ≡ some v → ⊥
    none_ne_some e = cc e

divergence_reopens_example :
    (ready_at host "currency" (says_ready "billing" "b2") settled quiet).0.inflight ≡ true
unfolding says_ready ready_message new contains lookup as_text
divergence_reopens_example =
    (divergence_reopens host "currency" (says_ready "billing" "b2") quiet settled failed
      settled-IsSound settled-Settled refl (ground (arith, eq_iff "b1" "b2"))).0

unchanged_replays_example :
    (ready_at host "currency" (says_ready "billing" "b1") settled quiet).2 ≡ none
unfolding says_ready ready_message new contains lookup as_text
unchanged_replays_example =
    (unchanged_replays host "currency" (says_ready "billing" "b1") quiet settled failed
      settled-Settled refl refl).8

-- A transport that turns maps and slices into their untyped forms.
to_json : Value → Value
to_json (text_map m) = any_map (texts m)
to_json (text_list l) = any_list (text_items l)
to_json v = v

abbrev json : Json
unfolding to_json
json = record {
  wire = to_json;
  wire_text = λ s. refl;
  wire_flag = λ b. refl;
  wire_map = λ m. refl;
  wire_list = λ l. refl;
}

asked : Message
asked = request_message host currency claims (stamps 1)

asked_names : text_field "gate" asked.body ≢ ""
unfolding asked request_message new lookup as_text
asked_names e = ground (arith, eq_iff "currency" "", e)

executor : String → Dict String → Verdict
executor gate_id tested = record failed { versions = tested }

read_verdict-serve_request_example :
    (r : Message) × (serve_request executor "integrator" (stamps 2) asked ≡ some r)
    × Alike
        (read_verdict (carry json.wire r))
        (executor (text_field "gate" asked.body) (given asked))
    × ((read_verdict (carry json.wire r)).gate_id ≡ text_field "gate" asked.body)
    × (r.to ≡ asked.from)
    × (r.in_reply_to ≡ asked.id)
read_verdict-serve_request_example =
    read_verdict-serve_request json executor "integrator" (stamps 2) asked asked_names

abbrev first_timer : Timer
first_timer = record { gate_id = "currency"; gen = 0; delay = 600 }

-- A message is dispatched.
abbrev delivered : Message → Coordinator → Coordinator
delivered m c = (handle m.intent c m).0

-- The first round is in flight.
abbrev first_round : Coordinator
first_round =
    delivered (says_ready "gateway" "g1") (delivered (says_ready "billing" "b1") registered)

-- The runner's report on it.
abbrev reported_failure : Message
reported_failure =
    reply asked (to_agent "integrator") Intent.disagree
      (("gate", text "currency") ∷ ("detail", text "TestConvert") ∷ []) (stamps 8)

-- The timer of the first round passes its check; the runner then answers, and billing opens a second
-- round with a new version.
abbrev second_round : Coordinator
second_round =
    delivered (says_ready "billing" "b2")
      (delivered reported_failure (check_timer first_timer first_round))

abbrev gate_of : Coordinator → GateState
gate_of c = get_or (lookup "currency" c.gates) collecting
