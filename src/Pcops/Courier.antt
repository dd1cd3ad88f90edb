-- ===== src/Pcops/Courier.antt =====
-- internal/pcops/courier.go and send.go: a session's proxy on the bus, and a message from the shell.
pub mod Routing
use parallel_consciousness.Prelude.{
  String, ◌==◌, ◌⊎◌, inl, inr, Bool, true, false, Option, none, some, List, [], ◌∷◌, if◌then◌else◌,
}
use parallel_consciousness.Protocol.{Intent, Message, Stamp, to_agent, text_field, text, new}
use parallel_consciousness.Agent.{Reaction, Handler, Agent, new_agent, on}
use parallel_consciousness.Bus.Sqlite.{Codec, Store, publish}

-- The calls of `runtime.Session` that a courier makes, whose errors it drops.
pub record Session (S : Type 0) : Type 0 where
  pub steer : String → S → S
  pub follow : String → S → S

module _ {S : Type 0} (sess : Session S) (name : String) where
  -- `deliver`
  unfoldable pub deliver : Bool → Handler S
  deliver steer m s =
      let text = text_field "text" m.body in
      let after =
        if m.from.agent == name
        then s
        else if text == ""
        then s
        else if steer
        then sess.steer text s
        else sess.follow text s in
      record { sends = []; answer = none; after = after }

  -- The loop of `StartCourier` over the intents that it follows.
  unfoldable pub follow_all : List Intent → Agent S → Agent S
  follow_all [] a = a
  follow_all (i ∷ rest) a = follow_all rest (on i (deliver false) a)

  -- `StartCourier`, its subscription made.
  unfoldable pub start_courier : S → Agent S
  start_courier s =
      follow_all
        (Intent.inform ∷ Intent.request ∷ Intent.propose ∷ Intent.agree ∷ Intent.disagree
          ∷ Intent.done ∷ [])
        (on Intent.block (deliver true) (new_agent name s))

-- `sendableIntents`
unfoldable pub sendable_intent : String → Option Intent
sendable_intent s =
    if s == "inform"
    then some Intent.inform
    else if s == "request"
    then some Intent.request
    else if s == "propose"
    then some Intent.propose
    else if s == "agree"
    then some Intent.agree
    else if s == "disagree"
    then some Intent.disagree
    else if s == "block"
    then some Intent.block
    else if s == "done"
    then some Intent.done
    else none

-- The error of `Send`.
pub data SendError : Type 0 where
  unknown_intent : String → SendError
  open_bus : String → SendError
  publishing : String → SendError

-- `Send`: `opening` is the error of opening the bus, `fault` that of the insert.
unfoldable pub send :
    Codec
    → Option String
    → Option String
    → String
    → String
    → String
    → String
    → Stamp
    → Store
    → Option SendError × Store
send c opening fault from to intent content s store = elim (sendable_intent intent) [
  | none ↦ (some (unknown_intent intent), store)
  | some i ↦ elim opening [
    | some e ↦ (some (open_bus e), store)
    | none ↦
        let m = new (to_agent from) (to_agent to) i (("text", text content) ∷ []) s in
        let (e, store') = publish c m fault store in
        (elim e [ none ↦ none | some x ↦ some (publishing x) ], store')
  ]
]
