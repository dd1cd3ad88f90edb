-- ===== src/Bus/Sqlite/Encoding.antt =====
-- A message through the log: what `Publish` stores, `buildMessage` gives back
-- (pkg/bus/sqlite/sqlite.go).
use parallel_consciousness.Prelude.{
  String, eq_iff, ◌≡◌, ◌≢◌, refl, none, some, arith, Bool-cases, inl, inr, length, eqb,
  if◌then◌else◌, length-zero, Sum-cases, ◌==◌,
}
use parallel_consciousness.Protocol.{intent_text, Value, Address, Intent, other, Message}
use parallel_consciousness.Protocol.Wire.{carry, map_values}
use parallel_consciousness.Bus.Sqlite.{
  Columns, Codec, intent_named, intents, encode, columns_of, build_body, build_deadline,
  build_message,
}

-- What encoding/json and the time package document, for the texts that the bus writes of one message:
-- a marshalled body is no empty text and reads back value by value as `wire` says; the texts of its
-- times read back, and that of its deadline is not empty.
pub record Faithful (c : Codec) (wire : Value → Value) (m : Message) : Type 0 where
  pub body_text : (s : String) → c.marshal m.body ≡ inr s → s ≢ ""
  pub body_back :
      (s : String) → c.marshal m.body ≡ inr s → c.unmarshal s ≡ inr (map_values wire m.body)
  pub time_back : c.parse (c.format m.timestamp) ≡ inr m.timestamp
  pub deadline_text : c.format m.deadline ≢ ""
  pub deadline_back : c.parse (c.format m.deadline) ≡ inr m.deadline

-- An intent is read back, if a text of its own is none of the constants' texts.
pub intent_named-text :
    (i : Intent)
    → ((s : String) → i ≡ other s → intent_named intents s ≡ other s)
    → intent_named intents (intent_text i) ≡ i
unfolding intent_named intent_text
intent_named-text Intent.request h = refl
intent_named-text Intent.propose h = refl
intent_named-text Intent.agree h = refl
intent_named-text Intent.disagree h = refl
intent_named-text Intent.inform h = refl
intent_named-text Intent.block h = refl
intent_named-text Intent.done h = refl
intent_named-text Intent.ready h = refl
intent_named-text Intent.ack h = refl
intent_named-text Intent.nack h = refl
intent_named-text Intent.yield h = refl
intent_named-text (other s) h = h s refl

module _ (c : Codec) (wire : Value → Value) (m : Message) (f : Faithful c wire m) where
  pub build_body-marshal :
      (s : String) → c.marshal m.body ≡ inr s → build_body c s ≡ inr (map_values wire m.body)
  unfolding build_body
  build_body-marshal s e =
      let n = f.body_text s e in
      let r = f.body_back s e in
      elim (Bool-cases (s == "")) [ inl p ↦ absurd (n (ground (arith, eq_iff s ""))) | inr p ↦ cc ]

  pub build_deadline-format :
      build_deadline c (if eqb m.deadline 0 then none else some (c.format m.deadline))
      ≡ inr m.deadline
  unfolding build_deadline
  build_deadline-format =
      let d = m.deadline in
      let n = f.deadline_text in
      let r = f.deadline_back in
      elim (Bool-cases (eqb d 0)) [
        | inl e ↦ let z : d ≡ 0 = ground arith in cc
        | inr e ↦ elim (Bool-cases (c.format d == "")) [
          | inl p ↦ absurd (n (ground (arith, eq_iff (c.format d) "")))
          | inr p ↦ cc
        ]
      ]

  pub build_message-columns_of :
      (s : String)
      → m.from.topic ≡ ""
      → intent_named intents (intent_text m.intent) ≡ m.intent
      → build_body c s ≡ inr (map_values wire m.body)
      → build_message c (columns_of c m s) ≡ inr (carry wire m)
  unfolding build_message carry columns_of
  build_message-columns_of s t i b =
      let y = f.time_back in
      let z = build_deadline-format in
      let v : Address = record { agent = m.from.agent; topic = "" } in let w : v ≡ m.from = cc in cc

  -- A message that `Publish` encodes is built again from its columns, its body carried through JSON:
  -- identifiers, addresses, intent, time and deadline are those of the message. It comes from an
  -- agent, and an intent that is none of the constants is not spelled like one.
  pub build_message-encode :
      (r : Columns)
      → encode c m ≡ inr r
      → m.from.topic ≡ ""
      → ((s : String) → m.intent ≡ other s → intent_named intents s ≡ other s)
      → build_message c r ≡ inr (carry wire m)
  unfolding encode build_body map_values
  build_message-encode r e t i =
      let x = intent_named-text m.intent i in
      elim (Bool-cases (eqb (length m.body) 0)) [
        | inl p ↦ let q = length-zero m.body p in let y = build_message-columns_of "" t x cc in cc
        | inr p ↦ elim (Sum-cases (c.marshal m.body)) [
          | inl (g, q) ↦ absurd cc
          | inr (raw, q) ↦ let y = build_message-columns_of raw t x (build_body-marshal raw q) in cc
        ]
      ]
