-- ===== src/Pcops/Watch/Lines.antt =====
-- What a line of the feed says, and how long its parts are (internal/pcops/watch.go).
use mathlib.Core.List.{Permᴰ}
use package.text.Mathlib.TextLemmas.{length-append, append_cancel_left}
use parallel_consciousness.Prelude.{
  ℕ, suc, ◌≤◌, String, ◌==◌, eq_iff, ◌<>◌, rune_count, ◌≡◌, ◌≢◌, refl, sym, ap, subst, ◌∙◌, subst,
  ◌⊎◌, inl, inr, Bool, true, false, ◌||◌, none, some, List, [], ◌∷◌, arith, length, Bool-cases, ltb,
}
use parallel_consciousness.Prelude.Texts.{trim_space, take_runes, join_lines, count-take_runes}
use parallel_consciousness.Prelude.Sorting.{sort_strings, sort_strings-Perm}
use parallel_consciousness.Dict.{Dict, lookup, insert, has, Keyed}
use parallel_consciousness.Protocol.{text, Intent, Message, Stamp, to_agent, new, reply}
use parallel_consciousness.Gate.{
  topic, ready_message, request_message, report_body, Verdict, Spec, Host,
}
use parallel_consciousness.Gate.Round.{inform_message, block_message, ack_message, nack_message}
use parallel_consciousness.Bus.Sqlite.History.{Record}
use parallel_consciousness.Pcops.Watch.{
  abbrev_version, parts_of, describe_versions, names_of, request_parts, clip, matches_gate,
  asserted_text,
}

pub parts_of-Perm : (vs ws : Dict String) → Permᴰ vs ws → Permᴰ (parts_of vs) (parts_of ws)
unfolding parts_of
parts_of-Perm [] [] Permᴰ.nil = Permᴰ.nil
parts_of-Perm (a ∷ vs) (b ∷ ws) (Permᴰ.cons e p) =
    Permᴰ.cons (ap (λ x. x.0 <> "@" <> abbrev_version x.1) e) (parts_of-Perm vs ws p)
parts_of-Perm (a ∷ b ∷ l) (a' ∷ b' ∷ _) (Permᴰ.swap e f) =
    Permᴰ.swap (ap (λ x. x.0 <> "@" <> abbrev_version x.1) e)
      (ap (λ x. x.0 <> "@" <> abbrev_version x.1) f)
parts_of-Perm vs ws (Permᴰ.trans {l₂ = us} p q) =
    Permᴰ.trans (parts_of-Perm vs us p) (parts_of-Perm us ws q)

pub length-Perm : (vs ws : Dict String) → Permᴰ vs ws → length vs ≡ length ws
length-Perm [] [] Permᴰ.nil = refl
length-Perm (a ∷ vs) (b ∷ ws) (Permᴰ.cons e p) = ap suc (length-Perm vs ws p)
length-Perm (a ∷ b ∷ l) (a' ∷ b' ∷ _) (Permᴰ.swap e f) = refl
length-Perm vs ws (Permᴰ.trans {l₂ = us} p q) = length-Perm vs us p ∙ length-Perm us ws q

pub names_of-Perm : (vs ws : Dict String) → Permᴰ vs ws → Permᴰ (names_of vs) (names_of ws)
unfolding names_of
names_of-Perm [] [] Permᴰ.nil = Permᴰ.nil
names_of-Perm (a ∷ vs) (b ∷ ws) (Permᴰ.cons e p) =
    Permᴰ.cons (ap (λ x. x.0) e) (names_of-Perm vs ws p)
names_of-Perm (a ∷ b ∷ l) (a' ∷ b' ∷ _) (Permᴰ.swap e f) =
    Permᴰ.swap (ap (λ x. x.0) e) (ap (λ x. x.0) f)
names_of-Perm vs ws (Permᴰ.trans {l₂ = us} p q) =
    Permᴰ.trans (names_of-Perm vs us p) (names_of-Perm us ws q)

-- A map that holds each key once answers alike in any order.
pub lookup-Perm :
    (vs ws : Dict String)
    → Permᴰ vs ws
    → Keyed vs
    → Keyed ws × ((n : String) → lookup n vs ≡ lookup n ws)
unfolding lookup
lookup-Perm [] [] Permᴰ.nil h = (tt, λ n. refl)
lookup-Perm ((k, v) ∷ vs) ((j, w) ∷ ws) (Permᴰ.cons e p) (a, h) =
    let (g, f) = lookup-Perm vs ws p h in
    let z = f k in
    let d : k ≡ j = ap (λ x. x.0) e in
    let u : v ≡ w = ap (λ x. x.1) e in
    let y : has j ws ≡ false = cc in ((y, g), λ n. let x = f n in cc)
lookup-Perm ((k, v) ∷ (j, w) ∷ l) (a' ∷ b' ∷ _) (Permᴰ.swap e f) (a, (b, c)) =
    let apart : k == j ≡ false = ground (arith, eq_iff k j, eq_iff j k) in
    let flip : (n : String) → lookup n ((k, v) ∷ (j, w) ∷ l) ≡ lookup n ((j, w) ∷ (k, v) ∷ l) =
      λ n. ground (arith, eq_iff k j, eq_iff k n, eq_iff j n) in
    let first : has j ((k, v) ∷ l) ≡ false = cc in
    let last : has k l ≡ false = ground (arith, eq_iff k j, eq_iff j k) in
    let same : (j, w) ∷ (k, v) ∷ l ≡ a' ∷ b' ∷ l = λ i. f i ∷ e i ∷ l in
    (subst Keyed same (first, (last, c)), λ n. flip n ∙ ap (lookup n) same)
lookup-Perm vs ws (Permᴰ.trans {l₂ = us} p q) h =
    let (g, f) = lookup-Perm vs us p h in let (k, d) = lookup-Perm us ws q g in (k, λ n. f n ∙ d n)

pub request_parts-same :
    (vs ws : Dict String) (ns : List String)
    → ((n : String) → lookup n vs ≡ lookup n ws)
    → request_parts vs ns ≡ request_parts ws ns
unfolding request_parts
request_parts-same vs ws [] f = refl
request_parts-same vs ws (n ∷ ns) f = let z = f n in let ih = request_parts-same vs ws ns f in cc

-- Two maps with the same entries, each key once, are rendered alike, in whatever order Go walks them:
-- in the description of a verdict's or a round's versions, and in the line of a request.
pub versions_text-Perm :
    (vs ws : Dict String)
    → Permᴰ vs ws
    → Keyed vs
    → (describe_versions vs ≡ describe_versions ws)
      × (request_parts vs (sort_strings (names_of vs))
          ≡ request_parts ws (sort_strings (names_of ws)))
unfolding describe_versions
versions_text-Perm vs ws p h =
    let s = sort_strings-Perm (parts_of vs) (parts_of ws) (parts_of-Perm vs ws p) in
    let t = sort_strings-Perm (names_of vs) (names_of ws) (names_of-Perm vs ws p) in
    let l = length-Perm vs ws p in
    let (k, f) = lookup-Perm vs ws p h in
    (cc, request_parts-same vs ws (sort_strings (names_of vs)) f ∙ ap (request_parts ws) t)

-- A clipped text has at most 120 runes and the mark of the cut, and a version at most eight runes.
pub clip-bounded :
    (s v : String) → (rune_count (clip s false) ≤ 121) × (rune_count (abbrev_version v) ≤ 8)
unfolding clip abbrev_version
clip-bounded s v =
    let t = join_lines (trim_space s) in
    let a = count-take_runes 120 t in
    let b = count-take_runes 8 v in
    let c = length-append (take_runes 120 t) "…" in (ground (arith, a, c), ground (arith, b))

-- A record of a message that names a gate in its body and rides that gate's topic or none is in the
-- feed of that gate, and in no other gate's.
pub matches_gate-named :
    (r : Record) (gate_id filter : String)
    → lookup "gate" r.msg.body ≡ some (text gate_id)
    → (r.msg.to.topic ≡ "") ⊎ (r.msg.to.topic ≡ topic gate_id)
    → matches_gate r filter ≡ (filter == "" || gate_id == filter)
unfolding matches_gate topic asserted_text
matches_gate-named r gate_id filter e t =
    let body : asserted_text (lookup "gate" r.msg.body) ≡ some gate_id = cc in
    let five = length-append "gate." filter in
    elim (Bool-cases (r.msg.to.topic == "gate." <> filter)) [
      | inl q ↦
          let z : r.msg.to.topic ≡ "gate." <> filter =
            (eq_iff r.msg.to.topic ("gate." <> filter)).0 q in
          elim t [
            | inl n ↦
                let w : rune_count ("gate." <> filter) ≡ 0 = ap rune_count (sym z ∙ n) in
                absurd (omega (arith, five, w))
            | inr n ↦
                let same = append_cancel_left "gate." gate_id filter (sym n ∙ z) in
                let y : gate_id == filter ≡ true = ground (arith, eq_iff gate_id filter) in
                elim (Bool-cases (filter == "")) [ inl x ↦ cc | inr x ↦ cc ]
          ]
      | inr q ↦ elim (Bool-cases (filter == "")) [ inl x ↦ cc | inr x ↦ cc ]
    ]

-- The body of a report names its gate.
report_body-gate :
    (gate_id : String) (v : Verdict) → lookup "gate" (report_body gate_id v) ≡ some (text gate_id)
unfolding report_body lookup insert
report_body-gate gate_id v = elim (Bool-cases (ltb 0 (length v.versions))) [
  | inl e ↦ rw e refl
  | inr e ↦ rw e refl
]

-- A direct message without a body is in every feed.
bodiless_matched :
    (x : Message) (seq : ℕ) (filter : String)
    → x.body ≡ []
    → x.to.topic ≡ ""
    → x.to.agent ≢ ""
    → matches_gate (record { seq = seq; msg = x }) filter ≡ true
unfolding matches_gate lookup asserted_text
bodiless_matched x seq filter b t n =
    let a : asserted_text (lookup "gate" x.body) ≡ none = cc in
    let g : x.to.agent == "" ≡ false = ground (arith, eq_iff x.to.agent "", n) in
    elim (Bool-cases (filter == "")) [
      | inl p ↦ cc
      | inr p ↦ elim (Bool-cases (x.to.topic == topic filter)) [ inl q ↦ cc | inr q ↦ cc ]
    ]

-- What a gate's protocol says by name is in the feed of that gate and of no other: a declaration of
-- readiness, the coordinator's answers to it, the request to the runner, the runner's report, the verdict
-- broadcast, and the block that an owner receives. The acknowledgement that an agent sends by itself has
-- no body: it is in the feed of every gate. A reply goes back to a sender, which is named and has no
-- topic.
pub gate_traffic_matched :
    (h : Host) (spec : Spec) (v : Verdict) (m : Message) (agent version line filter : String)
    (intent : Intent)
    → (tested : Dict String) (waiting : List String) (running : Bool) (s : Stamp) (seq : ℕ)
    → m.from.topic ≡ ""
    → m.from.agent ≢ ""
    → let in_feed : Message → Bool = λ x. matches_gate (record { seq = seq; msg = x }) filter in
      let wanted = filter == "" || spec.id == filter in
      (in_feed (ready_message agent spec.id version s) ≡ wanted)
      × (in_feed (ack_message h m spec.id waiting running s) ≡ wanted)
      × (in_feed (nack_message h m spec.id tested s) ≡ wanted)
      × (in_feed (request_message h spec tested s) ≡ wanted)
      × (in_feed (inform_message h spec v line s) ≡ wanted)
      × (in_feed (block_message h spec v agent s) ≡ wanted)
      × (in_feed (reply m (to_agent agent) intent (report_body spec.id v) s) ≡ wanted)
      × (in_feed (reply m (to_agent agent) Intent.ack [] s) ≡ true)
unfolding ready_message ack_message nack_message request_message inform_message block_message new
    reply lookup
gate_traffic_matched h spec v m agent version line filter intent tested waiting running s seq e n =
    let named : (x : Message)
        → lookup "gate" x.body ≡ some (text spec.id)
        → (x.to.topic ≡ "") ⊎ (x.to.topic ≡ topic spec.id)
        → matches_gate (record { seq = seq; msg = x }) filter
          ≡ (filter == "" || spec.id == filter) =
      λ x. matches_gate-named (record { seq = seq; msg = x }) spec.id filter in
    (
      named (ready_message agent spec.id version s) refl (inr refl),
      named (ack_message h m spec.id waiting running s) refl (inl e),
      named (nack_message h m spec.id tested s) refl (inl e),
      named (request_message h spec tested s) refl (inl refl),
      named (inform_message h spec v line s) refl (inr refl),
      named (block_message h spec v agent s) refl (inl refl),
      named (reply m (to_agent agent) intent (report_body spec.id v) s) (report_body-gate spec.id v)
          (inl e),
      bodiless_matched (reply m (to_agent agent) Intent.ack [] s) seq filter refl e n,
    )
