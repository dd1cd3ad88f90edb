-- ===== src/Bus/Memory/Contract.antt =====
-- A subscription over a run of publishes, and how one comes to be (pkg/bus/bus.go).
use mathlib.Core.List.{append-nil, append_assoc}
use parallel_consciousness.Prelude.{
  ℕ, String, ◌==◌, eq_iff, ◌≡◌, ◌≢◌, refl, sym, ap, subst, ◌∙◌, true, false, ◌||◌, Option, none,
  some, List, [], ◌∷◌, ◌++◌, arith, get_or, Bool-cases, String-cases, inl, inr, contains, take,
  take-nil, put-take, take-nil, put-take, keep,
}
use parallel_consciousness.Dict.{
  Dict, lookup, has, insert, lookup-delete_same, lookup-insert, Keyed, insert-Keyed,
  lookup-insert_same, lookup-insert_other,
}
use parallel_consciousness.Protocol.{Message}
use parallel_consciousness.Bus.Memory.{
  Chan, Names, InMemory, subscribe, join_topics, tear_down, deliver_to, publish,
}
use parallel_consciousness.Bus.Memory.Open.{IsOpen, publish-IsOpen, set_chan-same}
use parallel_consciousness.Bus.Memory.Routing.{wanted, Joined, After-Joined, publish-After}

unfoldable pub publish_all : List Message → InMemory → Option InMemory
publish_all [] b = some b
publish_all (m ∷ ms) b = elim (publish m b) [ none ↦ none | some b' ↦ publish_all ms b' ]

module _ (agent : String) (topics : List String) (i : ℕ) where
  pub publish_all-take :
      (owner : ℕ → String) (ms : List Message) (b : InMemory) (l : List Message)
      → IsOpen owner b
      → Joined agent topics i b
      → (b.chans i).held ≡ take b.buf l
      → (b' : InMemory) × (publish_all ms b ≡ some b')
        × ((b'.chans i).held ≡ take b.buf (l ++ keep (wanted agent topics) ms))
  unfolding publish_all
  publish_all-take owner [] b l o j h = (b, refl, h ∙ ap (take b.buf) (sym (append-nil l)))
  publish_all-take owner (m ∷ ms) b l o j h =
      let (b1, e, o1) = publish-IsOpen owner m b o in
      let f = publish-After agent topics i m b b1 j e in
      let j1 = After-Joined agent topics i b b1 _ f j in
      let ot = put-take b.buf l m in
      elim (Bool-cases (wanted agent topics m)) [
        | inl w ↦
            let h1 : (b1.chans i).held ≡ take b1.buf (l ++ m ∷ []) =
              let x = f.holds in let y = f.buf in cc in
            let (b', d, k) = publish_all-take owner ms b1 (l ++ m ∷ []) o1 j1 h1 in
            let y = f.buf in
            let a = append_assoc l (m ∷ []) (keep (wanted agent topics) ms) in (b', cc, cc)
        | inr w ↦
            let h1 : (b1.chans i).held ≡ take b1.buf l = let x = f.holds in let y = f.buf in cc in
            let (b', d, k) = publish_all-take owner ms b1 l o1 j1 h1 in
            let y = f.buf in (b', cc, cc)
      ]

  -- The in-memory bus refines the transport contract: any publishes go through, and a subscription's
  -- inbox, from empty, then holds the messages that the contract wants for it, each once and in the
  -- order of the publishes: as many of the first ones as its buffer has room for.
  pub inbox_refines :
      (owner : ℕ → String) (ms : List Message) (b : InMemory)
      → IsOpen owner b
      → Joined agent topics i b
      → (b.chans i).held ≡ []
      → (b' : InMemory) × (publish_all ms b ≡ some b')
        × ((b'.chans i).held ≡ take b.buf (keep (wanted agent topics) ms))
  inbox_refines owner ms b o j h =
      publish_all-take owner ms b [] o j (h ∙ sym (take-nil {A = Message} b.buf))

-- A loop over topics adds the agent to each of them, and to no other.
pub join_topics-has :
    (agent t : String) (ts : List String) (all : Dict Names)
    → has agent (get_or (lookup t (join_topics agent ts all)) [])
      ≡ (has agent (get_or (lookup t all) []) || contains ts t)
unfolding join_topics contains
join_topics-has agent t [] all = ground arith
join_topics-has agent t (u ∷ ts) all =
    let names = insert agent tt (get_or (lookup u all) []) in
    let ih = join_topics-has agent t ts (insert u names all) in
    let q = lookup-insert u t names all in
    let r = lookup-insert_same agent tt (get_or (lookup u all) []) in
    elim (String-cases u t) [
      | inl p ↦
          let e : u == t ≡ true = ground (arith, eq_iff u t) in
          let h : has agent (get_or (lookup t (insert u names all)) []) ≡ true = cc in
          elim (Bool-cases (has agent (get_or (lookup t all) []))) [ inl b ↦ cc | inr b ↦ cc ]
      | inr p ↦
          let e : u == t ≡ false = ground (arith, eq_iff u t) in
          let h : lookup t (insert u names all) ≡ lookup t all = cc in cc
    ]

pub join_topics-Keyed :
    (agent : String) (ts : List String) (all : Dict Names)
    → ((t : String) → Keyed (get_or (lookup t all) []))
    → (t : String) → Keyed (get_or (lookup t (join_topics agent ts all)) [])
unfolding join_topics
join_topics-Keyed agent [] all h t = h t
join_topics-Keyed agent (u ∷ ts) all h t =
    let old = get_or (lookup u all) [] in
    let names = insert agent tt old in
    let grown : (x : String) → Keyed (get_or (lookup x (insert u names all)) []) = λ x.
      elim (String-cases x u) [
        | inl p ↦
            let q = ap (λ y. lookup y (insert u names all)) p ∙ lookup-insert_same u names all in
            subst (λ o. Keyed (get_or o [])) (sym q) (insert-Keyed agent tt old (h u))
        | inr p ↦ subst (λ o. Keyed (get_or o [])) (sym (lookup-insert_other u x names all p)) (h x)
      ] in
    join_topics-Keyed agent ts (insert u names all) grown t

-- A subscription of an agent that no topic lists is alone on its channel, listens on its topics, and
-- has an empty inbox.
pub subscribe-Joined :
    (owner : ℕ → String) (agent : String) (topics : List String) (b : InMemory)
    → IsOpen owner b
    → ((t : String) → has agent (get_or (lookup t b.topics) []) ≡ false)
    → ((t : String) → Keyed (get_or (lookup t b.topics) []))
    → Joined agent topics (subscribe agent topics b).0 (subscribe agent topics b).1
      × (((subscribe agent topics b).1.chans (subscribe agent topics b).0).held ≡ [])
unfolding subscribe
subscribe-Joined owner agent topics b o free keyed =
    let n = b.made in
    let c : Chan = record { held = []; closed = false } in
    (
      record {
        here = lookup-insert_same agent n b.agents;
        alone = λ x e. elim (String-cases x agent) [
          | inl p ↦ p
          | inr p ↦
              let old = sym (lookup-insert_other agent x n b.agents p) ∙ e in
              let lt = o.older x n old in absurd (omega arith)
        ];
        listens = λ t. let f = free t in let j = join_topics-has agent t topics b.topics in cc;
        once = join_topics-Keyed agent topics b.topics keyed;
      },
      let z = set_chan-same n c b.chans in cc,
    )

-- The teardown of any earlier subscription under a name takes the name out of the bus, so that a direct
-- message to it is dropped, also while a later subscription under the name waits for messages.
pub tear_down_silences :
    (agent : String) (i : ℕ) (m : Message) (b : InMemory)
    → m.to.agent ≡ agent
    → agent ≢ ""
    → publish m (tear_down agent i b) ≡ some (tear_down agent i b)
unfolding publish deliver_to tear_down
tear_down_silences agent i m b e n =
    let z = lookup-delete_same agent b.agents in
    let q : m.to.agent == "" ≡ false = ground (arith, eq_iff m.to.agent "") in cc
