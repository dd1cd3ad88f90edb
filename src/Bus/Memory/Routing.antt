-- ===== src/Bus/Memory/Routing.antt =====
-- What one inbox receives (pkg/bus/bus.go), against the transport contract: a direct message goes to its
-- agent, a topic message to the topic's other subscribers.
use parallel_consciousness.Prelude.{
  ℕ, String, ◌==◌, eq_iff, ◌≡◌, ◌≢◌, refl, sym, ap, subst, ◌∙◌, Bool, true, false, not, ◌&&◌, some,
  List, [], ◌∷◌, ◌++◌, arith, if◌then◌else◌, ltb, length, get_or, Bool-cases, Option-cases,
  String-cases, inl, inr, contains,
}
use parallel_consciousness.Dict.{lookup, has, Keyed}
use parallel_consciousness.Protocol.{Message}
use parallel_consciousness.Bus.Memory.{Chan, Names, InMemory, deliver, deliver_to, fan_out, publish}
use parallel_consciousness.Bus.Memory.Open.{set_chan-same, set_chan-other}

-- The contract: whether a message is for an agent that listens on `topics`.
abbrev pub wanted : String → List String → Message → Bool
wanted agent topics m =
    if m.to.agent == ""
    then not (m.to.topic == "") && (contains topics m.to.topic && not (agent == m.from.agent))
    else m.to.agent == agent

-- An inbox with room for `buf` messages takes another, or drops it.
abbrev pub offer : ℕ → List Message → Message → List Message
offer buf held m = if ltb (length held) buf then held ++ m ∷ [] else held

-- Channel `i` is the subscription of `agent` on `topics`, and nobody else's.
pub record Joined (agent : String) (topics : List String) (i : ℕ) (b : InMemory) : Type 0 where
  pub here : lookup agent b.agents ≡ some i
  pub alone : (x : String) → lookup x b.agents ≡ some i → x ≡ agent
  pub listens : (t : String) → has agent (get_or (lookup t b.topics) []) ≡ contains topics t
  pub once : (t : String) → Keyed (get_or (lookup t b.topics) [])

-- What a publish leaves alone, and what channel `i` holds after it.
pub record After (i : ℕ) (b b' : InMemory) (held : List Message) : Type 0 where
  pub holds : (b'.chans i).held ≡ held
  pub agents : b'.agents ≡ b.agents
  pub topics : b'.topics ≡ b.topics
  pub buf : b'.buf ≡ b.buf

pub After-Joined :
    (agent : String) (topics : List String) (i : ℕ) (b b' : InMemory) (held : List Message)
    → After i b b' held
    → Joined agent topics i b
    → Joined agent topics i b'
After-Joined agent topics i b b' held f j = record {
  here = ap (lookup agent) f.agents ∙ j.here;
  alone = λ x e. j.alone x (ap (lookup x) (sym f.agents) ∙ e);
  listens = λ t. ap (λ ts. has agent (get_or (lookup t ts) [])) f.topics ∙ j.listens t;
  once = λ t. subst (λ ts. Keyed (get_or (lookup t ts) [])) (sym f.topics) (j.once t);
}

-- A delivery to the channel itself, and to another one.
pub deliver-own :
    (i : ℕ) (m : Message) (b b' : InMemory)
    → deliver i m b ≡ some b'
    → After i b b' (offer b.buf (b.chans i).held m)
unfolding deliver
deliver-own i m b b' e =
    let c : Chan = record (b.chans i) { held = (b.chans i).held ++ m ∷ [] } in
    let z = set_chan-same i c b.chans in
    elim (Bool-cases (b.chans i).closed) [
      | inl q ↦ absurd cc
      | inr q ↦ elim (Bool-cases (ltb (length (b.chans i).held) b.buf)) [
        | inr p ↦ record { holds = cc; agents = cc; topics = cc; buf = cc }
        | inl p ↦ record { holds = cc; agents = cc; topics = cc; buf = cc }
      ]
    ]

pub deliver-other :
    (i j : ℕ) (m : Message) (b b' : InMemory)
    → j ≢ i
    → deliver j m b ≡ some b'
    → After i b b' (b.chans i).held
unfolding deliver
deliver-other i j m b b' n e =
    let c : Chan = record (b.chans j) { held = (b.chans j).held ++ m ∷ [] } in
    let z = set_chan-other j i c b.chans n in
    elim (Bool-cases (b.chans j).closed) [
      | inl q ↦ absurd cc
      | inr q ↦ elim (Bool-cases (ltb (length (b.chans j).held) b.buf)) [
        | inr p ↦ record { holds = cc; agents = cc; topics = cc; buf = cc }
        | inl p ↦ record { holds = cc; agents = cc; topics = cc; buf = cc }
      ]
    ]

-- Nothing happens.
pub unchanged-After : (i : ℕ) (b : InMemory) → After i b b (b.chans i).held
unchanged-After i b = record { holds = refl; agents = refl; topics = refl; buf = refl }

module _ (agent : String) (topics : List String) (i : ℕ) (m : Message) where
  pub deliver_to-own :
      (b b' : InMemory)
      → Joined agent topics i b
      → deliver_to agent m b ≡ some b'
      → After i b b' (offer b.buf (b.chans i).held m)
  unfolding deliver_to
  deliver_to-own b b' j e = let h = j.here in deliver-own i m b b' cc

  pub deliver_to-other :
      (x : String) (b b' : InMemory)
      → Joined agent topics i b
      → x ≢ agent
      → deliver_to x m b ≡ some b'
      → After i b b' (b.chans i).held
  unfolding deliver_to
  deliver_to-other x b b' j n e = elim (Option-cases (lookup x b.agents)) [
    | inl q ↦
        let same : b' ≡ b = cc in
        subst (λ y. After i b y (b.chans i).held) (sym same) (unchanged-After i b)
    | inr (k, q) ↦ deliver-other i k m b b' (λ w. n (j.alone x (q ∙ ap some w))) cc
  ]

  -- After one step that leaves the inbox, what the next holds.
  pub After-trans :
      (b b1 b' : InMemory) (held : List Message)
      → After i b b1 (b.chans i).held
      → After i b1 b' held
      → After i b b' held
  After-trans b b1 b' held f g = record {
    holds = g.holds;
    agents = g.agents ∙ f.agents;
    topics = g.topics ∙ f.topics;
    buf = g.buf ∙ f.buf;
  }

  -- A fan-out that does not name the agent, or whose sender the agent is, leaves the inbox.
  pub fan_out-other :
      (names : Names) (b b' : InMemory)
      → Joined agent topics i b
      → has agent names && not (agent == m.from.agent) ≡ false
      → fan_out names m b ≡ some b'
      → After i b b' (b.chans i).held
  unfolding fan_out lookup
  fan_out-other [] b b' j n e =
      let same : b' ≡ b = cc in
      subst (λ y. After i b y (b.chans i).held) (sym same) (unchanged-After i b)
  fan_out-other ((x, u) ∷ rest) b b' j n e = elim (Bool-cases (x == m.from.agent)) [
    | inl q ↦
        fan_out-other rest b b' j
          (ground (arith, eq_iff x m.from.agent, eq_iff x agent, eq_iff agent m.from.agent)) cc
    | inr q ↦ elim (Option-cases (deliver_to x m b)) [
      | inl d ↦ absurd cc
      | inr (b1, d) ↦
          let f =
            deliver_to-other x b b1 j
              (λ w.
                ground (arith, eq_iff x m.from.agent, eq_iff x agent, eq_iff agent m.from.agent))
              d in
          let j1 = After-Joined agent topics i b b1 (b.chans i).held f j in
          let g =
            fan_out-other rest b1 b' j1
              (ground (arith, eq_iff x m.from.agent, eq_iff x agent, eq_iff agent m.from.agent))
              cc in
          After-trans b b1 b' (b.chans i).held f (subst (After i b1 b') f.holds g)
    ]
  ]

  -- A fan-out that names the agent once, who is not the sender, offers its inbox the message.
  pub fan_out-own :
      (names : Names) (b b' : InMemory)
      → Joined agent topics i b
      → Keyed names
      → has agent names ≡ true
      → agent ≢ m.from.agent
      → fan_out names m b ≡ some b'
      → After i b b' (offer b.buf (b.chans i).held m)
  unfolding fan_out lookup
  fan_out-own [] b b' j k h n e = absurd cc
  fan_out-own ((x, u) ∷ rest) b b' j (k, ks) h n e = elim (String-cases x agent) [
    | inl p ↦ elim (Option-cases (deliver_to x m b)) [
      | inl d ↦
          absurd (ground (arith, eq_iff x m.from.agent, eq_iff x agent, eq_iff agent m.from.agent))
      | inr (b1, d) ↦
          let f = deliver_to-own b b1 j (ap (λ y. deliver_to y m b) (sym p) ∙ d) in
          let held = offer b.buf (b.chans i).held m in
          let j1 = After-Joined agent topics i b b1 held f j in
          let gone : has agent rest ≡ false = ap (λ y. has y rest) (sym p) ∙ k in
          let g = fan_out-other rest b1 b' j1 (ground arith) (
            let z : x == m.from.agent ≡ false =
              ground (arith, eq_iff x m.from.agent, eq_iff x agent, eq_iff agent m.from.agent) in
            cc) in
          record {
            holds = g.holds ∙ f.holds;
            agents = g.agents ∙ f.agents;
            topics = g.topics ∙ f.topics;
            buf = g.buf ∙ f.buf;
          }
    ]
    | inr p ↦ elim (Bool-cases (x == m.from.agent)) [
      | inl q ↦
          fan_out-own rest b b' j ks
            (ground (arith, eq_iff x m.from.agent, eq_iff x agent, eq_iff agent m.from.agent)) n cc
      | inr q ↦ elim (Option-cases (deliver_to x m b)) [
        | inl d ↦ absurd cc
        | inr (b1, d) ↦
            let f = deliver_to-other x b b1 j p d in
            let j1 = After-Joined agent topics i b b1 (b.chans i).held f j in
            let g =
              fan_out-own rest b1 b' j1 ks
                (ground (arith, eq_iff x m.from.agent, eq_iff x agent, eq_iff agent m.from.agent)) n
                cc in
            After-trans b b1 b' (offer b.buf (b.chans i).held m) f (
              subst (λ y. After i b1 b' (offer b.buf y m)) f.holds
                (subst (λ y. After i b1 b' (offer y (b1.chans i).held m)) f.buf g))
      ]
    ]
  ]

  -- One publish: the inbox is offered the message exactly when the contract wants it.
  pub publish-After :
      (b b' : InMemory)
      → Joined agent topics i b
      → publish m b ≡ some b'
      → After i b b'
          (if wanted agent topics m then offer b.buf (b.chans i).held m else (b.chans i).held)
  unfolding publish
  publish-After b b' j e =
      let names = get_or (lookup m.to.topic b.topics) [] in
      let l = j.listens m.to.topic in
      let wants : (h : List Message)
          → wanted agent topics m ≡ true
          → After i b b' h
          → After i b b' (if wanted agent topics m then h else (b.chans i).held) =
        λ h w f. subst (λ y. After i b b' (if y then h else (b.chans i).held)) (sym w) f in
      let spares : (h : List Message)
          → wanted agent topics m ≡ false
          → After i b b' (b.chans i).held
          → After i b b' (if wanted agent topics m then h else (b.chans i).held) =
        λ h w f. subst (λ y. After i b b' (if y then h else (b.chans i).held)) (sym w) f in
      elim (Bool-cases (m.to.agent == "")) [
        | inr q ↦ elim (String-cases m.to.agent agent) [
          | inl p ↦
              let w : wanted agent topics m ≡ true =
                ground (arith, eq_iff m.to.agent agent, eq_iff m.to.agent "") in
              let f = deliver_to-own b b' j (ap (λ y. deliver_to y m b) (sym p) ∙ cc) in wants _ w f
          | inr p ↦
              spares _ (ground (arith, eq_iff m.to.agent agent, eq_iff m.to.agent ""))
                (deliver_to-other m.to.agent b b' j p cc)
        ]
        | inl q ↦ elim (Bool-cases (m.to.topic == "")) [
          | inl p ↦ spares _ (ground arith) (
              subst (λ y. After i b y (b.chans i).held) (let z : b ≡ b' = cc in z)
                (unchanged-After i b))
          | inr p ↦ elim (Bool-cases (has agent names && not (agent == m.from.agent))) [
            | inr r ↦ spares _ (ground (arith, l)) (fan_out-other names b b' j r cc)
            | inl r ↦
                let n : agent ≢ m.from.agent = λ z. ground (arith, eq_iff agent m.from.agent) in
                let w : wanted agent topics m ≡ true = ground (arith, l) in
                let f = fan_out-own names b b' j (j.once m.to.topic) (ground arith) n cc in
                wants _ w f
          ]
        ]
      ]
