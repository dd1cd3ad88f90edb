-- ===== src/Examples/Submits.antt =====
-- One submit, acknowledged and answered (internal/pcops/submit.go).
use parallel_consciousness.Prelude.{
  ◌<◌, String, ◌≡◌, refl, true, none, some, List, [], ◌∷◌, ◌++◌, get_or, arith, eq_iff,
}
use parallel_consciousness.Dict.{lookup}
use parallel_consciousness.Protocol.{
  text, flag, text_map, text_list, Body, Intent, Message, to_agent, text_field, as_flag, as_text,
}
use parallel_consciousness.Protocol.Body.{versions, strings}
use parallel_consciousness.Gate.{Verdict}
use parallel_consciousness.Pcops.Waiter.{
  Submission, classify, fresh, hear, concerns, decide, send, signal, offer_verdict, offer_ack,
  declare_ready, new_submit_waiter, idle, stamping,
}
use parallel_consciousness.Pcops.Submit.{
  Submit, Event, hears, decides, sends, proceeds, takes_ack, takes_verdict, verdict, declaring,
  returned, begin_submit, run, submit_step, hear_step, decide_step, send_step, declare_stage,
  after_stage, in_flight, arm,
}
use parallel_consciousness.Pcops.Submit.Hearing.{Fenced}
use parallel_consciousness.Pcops.Submit.Honest.{submit_verdict}
use parallel_consciousness.Pcops.Submit.Gap.{stale_verdict_returned}

abbrev submission : Submission
submission = record { gate_id = "currency"; agent = "billing"; version = "b1" }

abbrev from_gate : Intent → Body → Message
from_gate intent body = record {
  id = "m";
  conversation_id = "m";
  in_reply_to = "";
  from = to_agent "coordinator";
  to = to_agent "billing";
  intent = intent;
  body = body;
  timestamp = 8;
  deadline = 0;
}

abbrev pub ack : Message
ack = from_gate Intent.ack (("gate", text "currency") ∷ ("outstanding", text_list []) ∷ [])

-- The broadcast of a passed round that tested billing at `version`.
abbrev pub passed_at : String → Message
passed_at version = from_gate Intent.inform (
    ("gate", text "currency")
    ∷ ("passed", flag true)
    ∷ ("versions", text_map (("billing", version) ∷ []))
    ∷ [])

abbrev verdict_b1 : Verdict
verdict_b1 = record {
  gate_id = "currency";
  passed = true;
  detail = "";
  versions = ("billing", "b1") ∷ [];
}

-- A declaration at time 7.
abbrev pub declares : List Event
declares =
    proceeds 7
    ∷ proceeds 7
    ∷ proceeds 7
    ∷ proceeds 7
    ∷ proceeds 7
    ∷ proceeds 7
    ∷ proceeds 7
    ∷ proceeds 7
    ∷ []

-- One handler from its call to its send.
abbrev pub handles : Message → List Event
handles m = hears m ∷ decides ∷ sends ∷ []

abbrev pub events : List Event
events = declares ++ handles ack ++ takes_ack ∷ handles (passed_at "b1") ++ takes_verdict ∷ []

abbrev idle_submit : Submit
idle_submit = record {
  waiter = new_submit_waiter;
  handler = idle;
  phase = declaring stamping;
  heard = [];
  declared = 0;
  straddling = none;
}

begins : begin_submit submission ≡ some idle_submit
unfolding begin_submit
begins = refl

answered : Submit
answered = get_or (run submission events idle_submit) idle_submit

ran : run submission events idle_submit ≡ some answered
unfolding answered run submit_step hear_step decide_step send_step declare_stage after_stage
    declare_ready in_flight arm hear concerns decide send signal classify fresh offer_ack
    offer_verdict lookup as_text as_flag versions strings new_submit_waiter
ran = refl

submit_verdict_example :
    (m : Message) × Fenced answered m
    × (m.intent ≡ Intent.inform)
    × (text_field "gate" m.body ≡ "currency")
    × (as_flag (lookup "passed" m.body) ≡ some true)
    × (lookup "billing" verdict_b1.versions ≡ some "b1")
    × (verdict_b1.versions ≡ get_or (versions (lookup "versions" m.body)) [])
unfolding answered run submit_step hear_step decide_step send_step declare_stage after_stage
    declare_ready in_flight arm hear concerns decide send signal classify fresh offer_ack
    offer_verdict lookup as_text as_flag versions strings new_submit_waiter
submit_verdict_example =
    submit_verdict submission events idle_submit answered begins ran verdict_b1 refl

-- The broadcast of time 8, and a declaration at time 9.
stale_verdict_returned_example :
    (es : List Event) × (u0 : Submit) × (u : Submit) × (begin_submit submission ≡ some u0)
    × (run submission es u0 ≡ some u)
    × (u.phase ≡ returned (verdict verdict_b1))
    × (u.heard ≡ passed_at "b1" ∷ [])
    × (8 < u.waiter.ready_at)
unfolding classify lookup as_text as_flag versions strings
stale_verdict_returned_example =
    stale_verdict_returned submission (passed_at "b1") 9 verdict_b1
      (λ e. ground (arith, eq_iff "b1" "", e)) refl refl (omega arith)
