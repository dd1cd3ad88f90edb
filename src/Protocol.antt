-- ===== src/Protocol.antt =====
-- pkg/protocol: the message envelope, its intents, and the values that a body holds.
pub mod Body
pub mod Wire
use parallel_consciousness.Prelude.{
  ℕ, String, ◌==◌, ◌≡◌, Bool, true, false, Option, none, some, List, [], ◌∷◌,
}
use parallel_consciousness.Dict.{Dict, lookup}

-- `Intent` is a string type; `other` is any string but the eleven constants.
pub data Intent : Type 0 where
  request propose agree disagree inform block done ready : Intent
  ack nack yield : Intent
  other : String → Intent

-- The string that an intent is.
unfoldable pub intent_text : Intent → String
intent_text Intent.request = "request"
intent_text Intent.propose = "propose"
intent_text Intent.agree = "agree"
intent_text Intent.disagree = "disagree"
intent_text Intent.inform = "inform"
intent_text Intent.block = "block"
intent_text Intent.done = "done"
intent_text Intent.ready = "ready"
intent_text Intent.ack = "ack"
intent_text Intent.nack = "nack"
intent_text Intent.yield = "yield"
intent_text (other s) = s

-- `Intent.WantsResponse`
unfoldable pub wants_response : Intent → Bool
wants_response Intent.inform = false
wants_response Intent.ack = false
wants_response Intent.nack = false
wants_response Intent.yield = false
wants_response Intent.done = false
wants_response Intent.ready = false
wants_response _ = true

pub record Address : Type 0 where
  pub agent : String
  pub topic : String

-- An address that names an agent, and one that names a topic.
abbrev pub to_agent : String → Address
to_agent a = record { agent = a; topic = "" }

abbrev pub to_topic : String → Address
to_topic t = record { agent = ""; topic = t }

-- What `any` holds in a body. `text_map` and `text_list` are map[string]string and []string, which
-- the program writes; `any_map` and `any_list` are map[string]any and []any, which encoding/json
-- gives back. `unknown` is a value of any other type.
mutual
  pub data Value : Type 0 where
    text : String → Value
    flag : Bool → Value
    text_map : List (String × String) → Value
    text_list : List String → Value
    any_map : Fields → Value
    any_list : Items → Value
    unknown : Value

  pub data Fields : Type 0 where
    end : Fields
    field : String → Value → Fields → Fields

  pub data Items : Type 0 where
    nil : Items
    cons : Value → Items → Items

abbrev pub Body : Type 0
Body = Dict Value

-- `s, _ := v.(string)`
unfoldable pub as_text : Option Value → String
as_text (some (text s)) = s
as_text _ = ""

-- `b, ok := v.(bool)`
unfoldable pub as_flag : Option Value → Option Bool
as_flag (some (flag b)) = some b
as_flag _ = none

abbrev pub text_field : String → Body → String
text_field k b = as_text (lookup k b)

-- Times are nanoseconds; 0 is the zero `time.Time`, no deadline.
pub record Message : Type 0 where
  pub id : String
  pub conversation_id : String
  pub in_reply_to : String
  pub from : Address
  pub to : Address
  pub intent : Intent
  pub body : Body
  pub timestamp : ℕ
  pub deadline : ℕ

-- What `uuid.NewString()` and `time.Now()` give one message.
pub record Stamp : Type 0 where
  pub uuid : String
  pub now : ℕ

-- `New`
unfoldable pub new : Address → Address → Intent → Body → Stamp → Message
new from to intent body s = record {
  id = s.uuid;
  conversation_id = s.uuid;
  in_reply_to = "";
  from = from;
  to = to;
  intent = intent;
  body = body;
  timestamp = s.now;
  deadline = 0;
}

-- `Message.Reply`
unfoldable pub reply : Message → Address → Intent → Body → Stamp → Message
reply m from intent body s = record {
  id = s.uuid;
  conversation_id = m.conversation_id;
  in_reply_to = m.id;
  from = from;
  to = m.from;
  intent = intent;
  body = body;
  timestamp = s.now;
  deadline = 0;
}
