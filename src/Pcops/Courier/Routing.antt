-- ===== src/Pcops/Courier/Routing.antt =====
-- Where a courier takes what it receives, and that what the shell may send is taken somewhere
-- (internal/pcops/courier.go and send.go).
use mathlib.Core.List.{append-nil, append_assoc}
use parallel_consciousness.Prelude.{
  String, ◌==◌, eq_iff, ◌≡◌, ◌≢◌, refl, sym, ap, ◌∙◌, Bool, true, false, ◌&&◌, ◌||◌, none, some,
  List, [], ◌∷◌, ◌++◌, arith, if◌then◌else◌, contains, Bool-cases, ltb, length, inl, inr,
}
use parallel_consciousness.Dict.{Dict, lookup, insert}
use parallel_consciousness.Protocol.{
  Intent, intent_text, Message, Stamp, to_agent, text_field, as_text, text, new,
}
use parallel_consciousness.Agent.{
  Handler, Agent, new_agent, on, note_urgent, react, closing, dispatch, run_agent,
}
use parallel_consciousness.Pcops.Courier.{
  Session, deliver, follow_all, start_courier, sendable_intent,
}

-- The intents that wait behind pending work.
abbrev pub followed : List String
followed = "inform" ∷ "request" ∷ "propose" ∷ "agree" ∷ "disagree" ∷ "done" ∷ []

module _ {S : Type 0} (sess : Session S) (name : String) where
  -- What a session gets of a message: its text, steered for a block and followed for the intents
  -- above; nothing of its own messages, of those without text, and of control intents.
  abbrev pub heard : Message → S → S
  heard m s =
      let text = text_field "text" m.body in
      if (m.from.agent == name) || (text == "")
      then s
      else if "block" == intent_text m.intent
      then sess.steer text s
      else if contains followed (intent_text m.intent)
      then sess.follow text s
      else s

  abbrev pub all_heard : List (Stamp × Message) → S → S
  all_heard [] s = s
  all_heard ((i, m) ∷ ms) s = all_heard ms (heard m s)

  abbrev pub acknowledged : List (Stamp × Message) → List Message
  acknowledged [] = []
  acknowledged ((i, m) ∷ ms) = closing i m name none ++ acknowledged ms

  abbrev pub table : Dict (Handler S)
  table =
      ("block", deliver sess name true)
      ∷ ("inform", deliver sess name false)
      ∷ ("request", deliver sess name false)
      ∷ ("propose", deliver sess name false)
      ∷ ("agree", deliver sess name false)
      ∷ ("disagree", deliver sess name false)
      ∷ ("done", deliver sess name false)
      ∷ []

  pub start_courier-table : (s : S) → (start_courier sess name s).handlers ≡ table
  unfolding start_courier follow_all on new_agent insert intent_text
  start_courier-table s = refl

  pub lookup-table :
      (t : String)
      → lookup t table ≡ (
          if "block" == t
          then some (deliver sess name true)
          else if contains followed t
          then some (deliver sess name false)
          else none)
  unfolding lookup contains
  lookup-table t = elim (Bool-cases ("block" == t)) [
    | inl q ↦ cc
    | inr q ↦ elim (Bool-cases (contains followed t)) [
      | inl p ↦ ground arith
      | inr p ↦ ground arith
    ]
  ]

  pub react-heard :
      (m : Message) (a : Agent S)
      → a.handlers ≡ table
      → ((react m a).after ≡ heard m a.state)
        × ((react m a).sends ≡ [])
        × ((react m a).answer ≡ none)
  unfolding react deliver
  react-heard m a h =
      let t = intent_text m.intent in
      let l = lookup-table t in
      let z : lookup t a.handlers ≡ lookup t table = ap (lookup t) h in
      elim (Bool-cases ("block" == t)) [
        | inl q ↦
            let f : lookup t a.handlers ≡ some (deliver sess name true) = cc in
            elim (Bool-cases (m.from.agent == name)) [
              | inl p ↦ (cc, cc, cc)
              | inr p ↦ elim (Bool-cases (text_field "text" m.body == "")) [
                | inl r ↦ (cc, cc, cc)
                | inr r ↦ (cc, cc, cc)
              ]
            ]
        | inr q ↦ elim (Bool-cases (contains followed t)) [
          | inr y ↦
              let f : lookup t a.handlers ≡ none = cc in
              elim (Bool-cases ((m.from.agent == name) || (text_field "text" m.body == ""))) [
                | inl p ↦ (cc, cc, cc)
                | inr p ↦ (cc, cc, cc)
              ]
          | inl y ↦
              let f : lookup t a.handlers ≡ some (deliver sess name false) = cc in
              elim (Bool-cases (m.from.agent == name)) [
                | inl p ↦ (cc, cc, cc)
                | inr p ↦ elim (Bool-cases (text_field "text" m.body == "")) [
                  | inl r ↦ (cc, cc, cc)
                  | inr r ↦ (cc, cc, cc)
                ]
              ]
        ]
      ]

  -- The urgent channel is beside what a courier does.
  pub note_urgent-keeps :
      (m : Message) (a : Agent S)
      → ((note_urgent m a).handlers ≡ a.handlers)
        × ((note_urgent m a).state ≡ a.state)
        × ((note_urgent m a).sent ≡ a.sent)
        × ((note_urgent m a).name ≡ a.name)
  unfolding note_urgent
  note_urgent-keeps m a =
      elim (Bool-cases ((intent_text m.intent == "block") && ltb (length a.urgent) 8)) [
        | inl q ↦ (cc, cc, cc, cc)
        | inr q ↦ (cc, cc, cc, cc)
      ]

  -- One dispatch of a courier, whatever it has heard before.
  pub dispatch-heard :
      (i : Stamp) (m : Message) (a : Agent S)
      → a.handlers ≡ table
      → a.name ≡ name
      → ((dispatch i m a).state ≡ heard m a.state)
        × ((dispatch i m a).sent ≡ a.sent ++ closing i m name none)
        × ((dispatch i m a).handlers ≡ table)
        × ((dispatch i m a).name ≡ name)
  unfolding dispatch
  dispatch-heard i m a h n =
      let (p, q, r, s) = note_urgent-keeps m a in
      let (x, y, z) = react-heard m (note_urgent m a) (p ∙ h) in
      let w = append-nil a.sent in (cc, cc, p ∙ h, s ∙ n)

  pub run_agent-heard :
      (ms : List (Stamp × Message)) (a : Agent S)
      → a.handlers ≡ table
      → a.name ≡ name
      → ((run_agent ms a).state ≡ all_heard ms a.state)
        × ((run_agent ms a).sent ≡ a.sent ++ acknowledged ms)
  unfolding run_agent
  run_agent-heard [] a h n = (refl, sym (append-nil a.sent))
  run_agent-heard ((i, m) ∷ ms) a h n =
      let (x, y, z, w) = dispatch-heard i m a h n in
      let (p, q) = run_agent-heard ms (dispatch i m a) z w in
      let r = append_assoc a.sent (closing i m name none) (acknowledged ms) in (cc, cc)

  -- A courier that runs on any messages gives its session the text of each that another agent sent with a
  -- text, in order and once: a block steers it, the six intents of a conversation are queued behind its
  -- work, and nothing else reaches it. It sends the acknowledgements that each message is owed.
  pub courier_hears :
      (ms : List (Stamp × Message)) (s : S)
      → ((run_agent ms (start_courier sess name s)).state ≡ all_heard ms s)
        × ((run_agent ms (start_courier sess name s)).sent ≡ acknowledged ms)
  unfolding start_courier follow_all on new_agent
  courier_hears ms s = run_agent-heard ms (start_courier sess name s) (start_courier-table s) refl

abbrev takes : String → Bool
takes t = ("block" == t) || contains followed t

-- An intent that `Send` knows by name is that intent, and a courier takes it.
pub sendable_intent-text :
    (intent : String) (i : Intent)
    → sendable_intent intent ≡ some i
    → (intent_text i ≡ intent) × (takes intent ≡ true)
unfolding sendable_intent contains intent_text
sendable_intent-text intent i e =
    let known : (l : String) (j : Intent)
        → intent == l ≡ true
        → i ≡ j
        → intent_text j ≡ l
        → takes l ≡ true
        → (intent_text i ≡ intent) × (takes intent ≡ true) =
      λ l j q z y t.
        let p = (eq_iff intent l).0 q in (ap intent_text z ∙ y ∙ sym p, ap takes p ∙ t) in
    elim (Bool-cases (intent == "inform")) [
      | inl e0 ↦ known "inform" Intent.inform e0 (cc) refl refl
      | inr e0 ↦ elim (Bool-cases (intent == "request")) [
        | inl e1 ↦ known "request" Intent.request e1 (cc) refl refl
        | inr e1 ↦ elim (Bool-cases (intent == "propose")) [
          | inl e2 ↦ known "propose" Intent.propose e2 (cc) refl refl
          | inr e2 ↦ elim (Bool-cases (intent == "agree")) [
            | inl e3 ↦ known "agree" Intent.agree e3 (cc) refl refl
            | inr e3 ↦ elim (Bool-cases (intent == "disagree")) [
              | inl e4 ↦ known "disagree" Intent.disagree e4 (cc) refl refl
              | inr e4 ↦ elim (Bool-cases (intent == "block")) [
                | inl e5 ↦ known "block" Intent.block e5 (cc) refl refl
                | inr e5 ↦ elim (Bool-cases (intent == "done")) [
                  | inl e6 ↦ known "done" Intent.done e6 (cc) refl refl
                  | inr e6 ↦ absurd cc
                ]
              ]
            ]
          ]
        ]
      ]
    ]

-- What the shell may send is what a courier takes: an intent that `Send` accepts by its name is that
-- intent, and a message of it with text from another agent reaches the session, a block by steering it
-- and any other behind its work.
pub sendable_heard :
    {S : Type 0}
    → (sess : Session S) (from to intent content : String) (i : Intent) (st : Stamp) (s : S)
    → sendable_intent intent ≡ some i
    → from ≢ to
    → content ≢ ""
    → (intent_text i ≡ intent)
      × (heard sess to (new (to_agent from) (to_agent to) i (("text", text content) ∷ []) st) s
          ≡ (if "block" == intent then sess.steer content s else sess.follow content s))
unfolding new lookup as_text intent_text
sendable_heard sess from to intent content i st s e n k =
    let (t, c) = sendable_intent-text intent i e in
    let a : from == to ≡ false = ground (arith, eq_iff from to) in
    let b : content == "" ≡ false = ground (arith, eq_iff content "") in
    (
      t,
      elim (Bool-cases ("block" == intent)) [
        | inl q ↦ cc
        | inr q ↦ let d : contains followed intent ≡ true = ground arith in cc
      ],
    )
