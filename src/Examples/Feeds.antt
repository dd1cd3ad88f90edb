-- ===== src/Examples/Feeds.antt =====
-- Lines of the feed for a log of two messages (internal/pcops/watch.go).
use mathlib.Core.List.{Permᴰ}
use parallel_consciousness.Prelude.{
  ℕ, String, ◌==◌, ◌≡◌, refl, ◌||◌, ◌⊎◌, true, false, none, some, Option, List, [], ◌∷◌, ◌++◌, ltb,
  keep, Bool, arith, eq_iff, if◌then◌else◌,
}
use parallel_consciousness.Prelude.Sorting.{sort_strings}
use parallel_consciousness.Dict.{Dict, lookup}
use parallel_consciousness.Protocol.{Intent, Message, Stamp, to_agent, reply}
use parallel_consciousness.Gate.{Host, Spec, Verdict, ready_message, request_message, report_body}
use parallel_consciousness.Gate.Round.{inform_message, block_message, ack_message, nack_message}
use parallel_consciousness.Bus.Sqlite.History.{Record, ReadError, Faults}
use parallel_consciousness.Bus.Sqlite.History.Exact.{Reads}
use parallel_consciousness.Pcops.Watch.{
  describe_versions, request_parts, names_of, matches_gate, watch, finished, unread, unwritten,
}
use parallel_consciousness.Pcops.Watch.Lines.{versions_text-Perm, gate_traffic_matched}
use parallel_consciousness.Pcops.Watch.Feed.{feed, watch_honest}
use parallel_consciousness.Examples.Logs.{codec, log, note}

abbrev one_way : Dict String
one_way = ("billing", "b1") ∷ ("gateway", "g1") ∷ []

abbrev other_way : Dict String
other_way = ("gateway", "g1") ∷ ("billing", "b1") ∷ []

versions_text-Perm_example :
    (describe_versions one_way ≡ describe_versions other_way)
    × (request_parts one_way (sort_strings (names_of one_way))
        ≡ request_parts other_way (sort_strings (names_of other_way)))
unfolding lookup
versions_text-Perm_example =
    versions_text-Perm one_way other_way (Permᴰ.swap refl refl) (refl, (refl, tt))

abbrev host : Host
host = record {
  name = "coordinator";
  timeout = 600;
  hooked = false;
  stamps = λ n. record { uuid = "m"; now = n };
}

abbrev currency : Spec
currency = record { id = "currency"; required = "billing" ∷ []; runner = "runner" }

abbrev failed : Verdict
failed = record { gate_id = "currency"; passed = false; detail = "USD"; versions = one_way }

abbrev stamp : Stamp
stamp = record { uuid = "m"; now = 3 }

abbrev in_feed : Message → Bool
in_feed x = matches_gate (record { seq = 4; msg = x }) "other"

gate_traffic_matched_example :
    let wanted = "other" == "" || "currency" == "other" in
    (in_feed (ready_message "billing" "currency" "b1" stamp) ≡ wanted)
    × (in_feed (ack_message host note "currency" [] true stamp) ≡ wanted)
    × (in_feed (nack_message host note "currency" one_way stamp) ≡ wanted)
    × (in_feed (request_message host currency one_way stamp) ≡ wanted)
    × (in_feed (inform_message host currency failed "STALLED" stamp) ≡ wanted)
    × (in_feed (block_message host currency failed "billing" stamp) ≡ wanted)
    × (in_feed
          (reply note (to_agent "billing") Intent.disagree (report_body "currency" failed) stamp)
        ≡ wanted)
    × (in_feed (reply note (to_agent "billing") Intent.ack [] stamp) ≡ true)
gate_traffic_matched_example =
    gate_traffic_matched host currency failed note "billing" "b1" "STALLED" "other" Intent.disagree
      one_way [] true stamp 4 refl (λ e. ground (arith, eq_iff note.from.agent "", e))

-- A writer that refuses its second line.
abbrev writer : ℕ → Option String
writer n = if ltb 0 n then some "closed pipe" else none

abbrev clock : ℕ → String
clock n = "09:00:00"

abbrev no_faults : Faults
no_faults = record { query = false; scan = λ i. false; iterate = false }

watch_honest_example :
    ((recs : List Record) × (rest : List String) × Reads codec
        (keep (λ r. ltb 0 r.seq) log.messages)
        recs
      × (feed clock false "" writer recs
          ≡ (watch clock false "" writer codec no_faults log.messages).0 ++ rest)
      × (((watch clock false "" writer codec no_faults log.messages).1 ≡ finished) × (rest ≡ [])
          ⊎ ((x : String) × (watch clock false "" writer codec no_faults log.messages).1
                ≡ unwritten x)))
    ⊎ ((e : ReadError) × (watch clock false "" writer codec no_faults log.messages
          ≡ ([], unread e)))
watch_honest_example = watch_honest clock false "" writer codec no_faults log.messages
