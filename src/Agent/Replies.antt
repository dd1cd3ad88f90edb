-- ===== src/Agent/Replies.antt =====
-- Who is answered, who is not, and how much the urgent channel holds (pkg/agent/agent.go).
use parallel_consciousness.Prelude.{
  Bool, ◌==◌, ◌≡◌, ap, sym, none, List, [], ◌∷◌, ◌++◌, take, put-take, ◌∙◌, if◌then◌else◌, ltb,
  length, Bool-cases, inl, inr,
}
use mathlib.Core.List.{append-nil, append_assoc}
use parallel_consciousness.Dict.{lookup}
use parallel_consciousness.Protocol.{Intent, intent_text, Message, Stamp, wants_response}
use parallel_consciousness.Agent.{Agent, note_urgent, react, closing, dispatch, run_agent}

-- The blocks among the messages of a channel, in order.
abbrev pub blocks : List (Stamp × Message) → List Message
blocks [] = []
blocks ((s, m) ∷ ms) = if intent_text m.intent == "block" then m ∷ blocks ms else blocks ms

module _ {S : Type 0} where
  -- An agent without a handler for acknowledgements dispatches one without sending anything or
  -- changing its state.
  pub silent_acknowledgement :
      (s : Stamp) (m : Message) (a : Agent S)
      → m.intent ≡ Intent.ack
      → lookup (intent_text Intent.ack) a.handlers ≡ none
      → dispatch s m a ≡ a
  unfolding dispatch closing react note_urgent wants_response intent_text
  silent_acknowledgement s m a e h =
      let z : intent_text m.intent ≡ "ack" = ap intent_text e in
      let q : note_urgent m a ≡ a = cc in
      let x : react m a ≡ record { sends = []; answer = none; after = a.state } = cc in
      let y = append-nil a.sent in cc

  note_urgent-take :
      (m : Message) (a : Agent S) (l : List Message)
      → a.urgent ≡ take 8 l
      → (note_urgent m a).urgent
        ≡ take 8 (if intent_text m.intent == "block" then l ++ m ∷ [] else l)
  unfolding note_urgent
  note_urgent-take m a l h =
      let p = put-take 8 l m in
      elim (Bool-cases (intent_text m.intent == "block")) [
        | inr e ↦ cc
        | inl e ↦ elim (Bool-cases (ltb (length (take 8 l)) 8)) [ inl r ↦ cc | inr r ↦ cc ]
      ]

  run_agent-take :
      (ms : List (Stamp × Message)) (a : Agent S) (l : List Message)
      → a.urgent ≡ take 8 l
      → (run_agent ms a).urgent ≡ take 8 (l ++ blocks ms)
  unfolding run_agent dispatch
  run_agent-take [] a l h = h ∙ ap (take 8) (sym (append-nil l))
  run_agent-take ((s, m) ∷ ms) a l h =
      let u = note_urgent-take m a l h in
      let kept = λ (b : Bool). take 8 (if b then l ++ m ∷ [] else l) in
      let all = λ (b : Bool). take 8 (l ++ (if b then m ∷ blocks ms else blocks ms)) in
      elim (Bool-cases (intent_text m.intent == "block")) [
        | inl e ↦
            let v : (dispatch s m a).urgent ≡ take 8 (l ++ m ∷ []) = u ∙ ap kept e in
            let ih = run_agent-take ms (dispatch s m a) (l ++ m ∷ []) v in
            let o = append_assoc l (m ∷ []) (blocks ms) in ih ∙ ap (take 8) o ∙ sym (ap all e)
        | inr e ↦
            let v : (dispatch s m a).urgent ≡ take 8 l = u ∙ ap kept e in
            run_agent-take ms (dispatch s m a) l v ∙ sym (ap all e)
      ]

  -- Whatever messages an agent dispatches, with whatever handlers, while nobody takes from its urgent
  -- channel: the channel holds the first eight blocks among them, in the order in which they came.
  pub urgent_oldest :
      (ms : List (Stamp × Message)) (a : Agent S)
      → a.urgent ≡ []
      → (run_agent ms a).urgent ≡ take 8 (blocks ms)
  urgent_oldest ms a h = run_agent-take ms a [] h
