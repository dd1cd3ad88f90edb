-- ===== src/Examples/Logs.antt =====
-- A log with messages for one agent, and a codec that knows the texts in it (pkg/bus/sqlite).
use parallel_consciousness.Prelude.{
  ℕ, zero, suc, String, eqb, ◌==◌, ◌≡◌, refl, true, false, none, some, List, [], ◌∷◌, arith, inl,
  inr, eq_iff, if◌then◌else◌, ◌≤◌, Bool,
}
use parallel_consciousness.Prelude.Int.{pos}
use parallel_consciousness.Protocol.{intent_text, Value, Intent, Message, to_agent, text}
use parallel_consciousness.Protocol.Wire.{carry, map_values}
use parallel_consciousness.Bus.Sqlite.{
  Columns, Codec, Store, intent_named, columns_of, encode, build_body, build_deadline,
  build_message, addressed, select_query,
}
use parallel_consciousness.Bus.Sqlite.Encoding.{Faithful, build_message-encode}
use parallel_consciousness.Bus.Sqlite.Wal.{
  DbError, Attempt, is_sqlite_busy, ensure_wal, enabled, Retried, ensure_wal_succeeds,
}
use parallel_consciousness.Bus.Sqlite.Opening.{
  with_batch_size, with_replay_from_zero, set_all, default_settings, open_bus, Failures, Setting,
  Owned, open_bus-Owned,
}
use parallel_consciousness.Bus.Sqlite.Polling.{
  Fate, passes, unscanned, Subscriber, deliver_rows, pass_row, deliver_batch, poll,
}
use parallel_consciousness.Bus.Sqlite.Polling.Batches.{failed_batch_resent}
use parallel_consciousness.Bus.Sqlite.Polling.Delivery.{
  Turn, publishes, polls, healthy, take_turns, UpTo, delivered_exact,
}

-- Bodies and times of which every one has the same text: enough for messages without a body, sent at
-- time 0.
abbrev pub codec : Codec
codec = record {
  marshal = λ b. inl "no body is known";
  unmarshal = λ s. inl s;
  format = λ t. "epoch";
  parse = λ s. inr 0;
}

abbrev pub note : Message
note = record {
  id = "m1";
  conversation_id = "m1";
  in_reply_to = "";
  from = to_agent "gateway";
  to = to_agent "billing";
  intent = Intent.block;
  body = [];
  timestamp = 0;
  deadline = 0;
}

abbrev pub columns : Columns
columns = record {
  id = "m1";
  conversation_id = "m1";
  in_reply_to = "";
  from_agent = "gateway";
  to_agent = "billing";
  to_topic = "";
  intent = "block";
  body = "";
  ts = "epoch";
  deadline = none;
}

abbrev pub log : Store
log = record {
  messages = record { seq = 1; columns = columns } ∷ record { seq = 2; columns = columns } ∷ [];
  cursors = ("billing", 1) ∷ [];
  last_key = 2;
}

abbrev reader : Subscriber
reader = record { agent = "billing"; topics = []; cursor = 0; received = [] }

-- A codec for one message, with a body and a deadline.
abbrev small : Codec
small = record {
  marshal = λ b. inr "{}";
  unmarshal = λ s. inr (("text", text "hold") ∷ []);
  format = λ t. if eqb t 7 then "seven" else "nine";
  parse = λ s. if s == "seven" then inr 7 else inr 9;
}

abbrev dated : Message
dated = record note { body = ("text", text "hold") ∷ []; timestamp = 7; deadline = 9 }

kept : Value → Value
kept v = v

small-Faithful : Faithful small kept dated
unfolding map_values kept
small-Faithful = record {
  body_text = λ s e n. ground (arith, eq_iff "{}" "", e, n);
  body_back = λ s e. refl;
  time_back = refl;
  deadline_text = λ e. ground (arith, eq_iff "nine" "", e);
  deadline_back = refl;
}

build_message-encode_example :
    build_message small (columns_of small dated "{}") ≡ inr (carry kept dated)
unfolding encode
build_message-encode_example =
    build_message-encode small kept dated small-Faithful (columns_of small dated "{}") refl refl
      (λ s e. absurd cc)

-- The first row is read and the second is not.
abbrev half : ℕ → Fate
half zero = passes
half (suc k) = unscanned

failed_batch_resent_example :
    let first = poll codec 10 half false false reader log in
    let second = poll codec 10 healthy false false first.0 first.1 in
    (first.1 ≡ log) × (first.0.cursor ≡ 0) × (second.0.received ≡ note ∷ note ∷ note ∷ [])
unfolding deliver_batch deliver_rows pass_row select_query addressed build_message build_body
    build_deadline intent_named intent_text
failed_batch_resent_example =
    failed_batch_resent codec 10 half healthy false false false reader log refl (λ k. refl)

begins-UpTo : UpTo codec 10 0 reader log
unfolding addressed
begins-UpTo = record {
  ordered = (omega arith, (omega arith, tt));
  bounded = (omega arith, (omega arith, tt));
  started = omega arith;
  reached = omega arith;
  exact = refl;
}

abbrev turns : List Turn
turns = polls false ∷ publishes note none ∷ polls true ∷ publishes note (some "busy") ∷ []

delivered_exact_example :
    UpTo codec 10 0
      (take_turns codec 10 turns (reader, log)).0
      (take_turns codec 10 turns (reader, log)).1
delivered_exact_example = delivered_exact codec 10 0 turns reader log begins-UpTo

-- Busy once, then switched.
abbrev contended : ℕ → Attempt
contended zero = record {
  answer = inl (record { code = some 5; text = "busy" });
  late = false;
  cancelled = false;
}
contended (suc k) = record { answer = inr "wal"; late = false; cancelled = false }

abbrev busy : DbError → Bool
busy = is_sqlite_busy (λ t s. t == s)

contended_once : (j : ℕ) → suc j ≤ 1 → Retried busy (λ m. m == "wal") contended j
unfolding is_sqlite_busy
contended_once zero h = (_, refl, refl, refl, refl)
contended_once (suc j) h = absurd (omega arith)

ensure_wal_succeeds_example :
    ((ensure_wal busy (λ m. m == "wal") contended).0 ≡ enabled)
    × ((ensure_wal busy (λ m. m == "wal") contended).1 ≡ 2)
ensure_wal_succeeds_example =
    ensure_wal_succeeds busy (λ m. m == "wal") contended 1 "wal" (omega arith) contended_once refl
      refl

-- The database is busy at first, and its schema cannot be created.
abbrev failures : Failures
failures = record { open_fails = false; ping_fails = false; schema_fails = true }

abbrev options : List (Setting String)
options = with_batch_size (pos 8) ∷ with_replay_from_zero ∷ []

open_bus-Owned_example :
    Owned {H = String}
      (ensure_wal busy (λ m. m == "wal") contended)
      (set_all options (default_settings "log"))
      (open_bus failures (ensure_wal busy (λ m. m == "wal") contended) "log" "pc.db" options)
open_bus-Owned_example =
    open_bus-Owned busy (λ m. m == "wal") contended failures "log" "pc.db" options
