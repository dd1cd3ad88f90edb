-- ===== src/Gate/Runner.antt =====
-- The runner's side of pkg/gate/gate.go: what `ServeRunner` answers is what the coordinator reads,
-- over either transport.
use parallel_consciousness.Prelude.{
  String, eq_iff, ◌≡◌, ◌≢◌, refl, sym, ap, inl, inr, false, Option, none, some, [], ◌∷◌, arith,
  get_or, if◌then◌else◌, ltb, length, Bool-cases,
}
use parallel_consciousness.Dict.{Dict, lookup, insert}
use parallel_consciousness.Protocol.{
  Value, text, text_map, Intent, Message, Stamp, to_agent, as_text, reply, new, text_field,
}
use parallel_consciousness.Protocol.Body.{versions}
use parallel_consciousness.Protocol.Wire.{Json, map_values, carry, versions-wire}
use parallel_consciousness.Gate.{Spec, Verdict, Host, request_message, report_body, serve_request}
use parallel_consciousness.Gate.Coordinator.{read_verdict}

-- Two verdicts say the same of every participant.
abbrev pub Alike : Verdict → Verdict → Type 0
Alike v w =
    (v.passed ≡ w.passed)
    × (v.detail ≡ w.detail)
    × ((p : String) → lookup p v.versions ≡ lookup p w.versions)

-- The version map that the runner's executor is given.
abbrev pub given : Message → Dict String
given m = get_or (versions (lookup "versions" m.body)) []

length-zero : (m : Dict String) → ltb 0 (length m) ≡ false → m ≡ []
length-zero [] e = refl
length-zero (x ∷ m) e = ground arith

module _ (f : Value → Value) (gate_id : String) (v : Verdict) where
  report_gate : lookup "gate" (map_values f (report_body gate_id v)) ≡ some (f (text gate_id))
  unfolding report_body insert lookup map_values
  report_gate = ground arith

  report_detail : lookup "detail" (map_values f (report_body gate_id v)) ≡ some (f (text v.detail))
  unfolding report_body insert lookup map_values
  report_detail = ground arith

  report_versions :
      lookup "versions" (map_values f (report_body gate_id v))
      ≡ (if ltb 0 (length v.versions) then some (f (text_map v.versions)) else none)
  unfolding report_body insert lookup map_values
  report_versions = ground arith

module _ (j : Json) where
  read_versions :
      (v : Verdict) (o : Option Value)
      → o ≡ (if ltb 0 (length v.versions) then some (j.wire (text_map v.versions)) else none)
      → (p : String) → lookup p (get_or (versions o) []) ≡ lookup p v.versions
  unfolding versions
  read_versions v o e p = elim (Bool-cases (ltb 0 (length v.versions))) [
    | inl t ↦ rw (e, t) ((versions-wire j v.versions p).1)
    | inr f ↦ rw (e, f) (ap (lookup p) (sym (length-zero v.versions f)))
  ]

  -- A runner answers every request that names a gate, and what the coordinator reads from the answer
  -- after a JSON transport, its detail, its outcome and its version for every participant, is what
  -- the test executor returned.
  pub read_verdict-serve_request :
      (fn : String → Dict String → Verdict) (agent : String) (s : Stamp) (m : Message)
      → text_field "gate" m.body ≢ ""
      → (r : Message) × (serve_request fn agent s m ≡ some r)
        × Alike (read_verdict (carry j.wire r)) (fn (text_field "gate" m.body) (given m))
        × ((read_verdict (carry j.wire r)).gate_id ≡ text_field "gate" m.body)
        × (r.to ≡ m.from)
        × (r.in_reply_to ≡ m.id)
  unfolding serve_request read_verdict carry reply as_text
  read_verdict-serve_request fn agent s m named =
      let gate_id = text_field "gate" m.body in
      let v = fn gate_id (given m) in
      let intent = if v.passed then Intent.done else Intent.disagree in
      let r = reply m (to_agent agent) intent (report_body gate_id v) s in
      (
        r,
        ground (arith, eq_iff gate_id "", named),
        (
          ground arith,
          rw (report_detail j.wire gate_id v, j.wire_text v.detail),
          read_versions v _ (report_versions j.wire gate_id v),
        ),
        rw (report_gate j.wire gate_id v, j.wire_text gate_id),
        refl,
        refl,
      )

  -- The request that opens a round, after a JSON transport, gives the executor the gate's name and the
  -- claims under test.
  pub given-request_message :
      (h : Host) (spec : Spec) (tested : Dict String) (s : Stamp)
      → let m = carry j.wire (request_message h spec tested s) in
        (text_field "gate" m.body ≡ spec.id) × ((p : String) → lookup p (given m) ≡ lookup p tested)
  unfolding carry request_message new map_values lookup as_text
  given-request_message h spec tested s =
      (rw (j.wire_text spec.id), λ p. (versions-wire j tested p).1)
