-- ===== src/Bus/Memory/Open.antt =====
-- Whatever is subscribed, torn down, published and received, no send meets a closed channel
-- (pkg/bus/bus.go).
use parallel_consciousness.Prelude.{
  ℕ, ◌<◌, String, ◌==◌, ◌≡◌, ◌≢◌, refl, sym, ap, subst, ◌∙◌, true, false, Option, none, some, List,
  [], ◌∷◌, ◌++◌, arith, if◌then◌else◌, ltb, eqb, length, get_or, Bool-cases, Option-cases,
  String-cases, List-cases, inl, inr, ◌⊎◌,
}
use parallel_consciousness.Dict.{
  lookup, delete, lookup-insert_same, lookup-insert_other, lookup-delete_same, lookup-delete_other,
}
use parallel_consciousness.Protocol.{Message}
use parallel_consciousness.Bus.Memory.{
  Chan, Names, InMemory, new_in_memory, set_chan, subscribe, tear_down, deliver, deliver_to,
  fan_out, publish, receive,
}

-- Every channel that an agent's name leads to is a live subscription's under that name, and open;
-- channels were made once, so a channel has one name, `owner`.
pub record IsOpen (owner : ℕ → String) (b : InMemory) : Type 0 where
  pub owned : (a : String) (i : ℕ) → lookup a b.agents ≡ some i → owner i ≡ a
  pub older : (a : String) (i : ℕ) → lookup a b.agents ≡ some i → i < b.made
  pub open_ : (a : String) (i : ℕ) → lookup a b.agents ≡ some i → (b.chans i).closed ≡ false

-- Only the marks of the channels matter.
pub IsOpen-chans :
    (owner : ℕ → String) (b : InMemory) (cs : ℕ → Chan)
    → ((j : ℕ) → (cs j).closed ≡ (b.chans j).closed)
    → IsOpen owner b
    → IsOpen owner (record b { chans = cs })
IsOpen-chans owner b cs same h = record {
  owned = h.owned;
  older = h.older;
  open_ = λ a i e. same i ∙ h.open_ a i e;
}

pub set_chan-same : (i : ℕ) (c : Chan) (cs : ℕ → Chan) → set_chan i c cs i ≡ c
unfolding set_chan
set_chan-same i c cs = let q : eqb i i ≡ true = ground arith in cc

pub set_chan-other : (i j : ℕ) (c : Chan) (cs : ℕ → Chan) → i ≢ j → set_chan i c cs j ≡ cs j
unfolding set_chan
set_chan-other i j c cs n = let q : eqb i j ≡ false = ground arith in cc

-- A write that keeps a channel's mark keeps every mark.
pub set_chan-closed :
    (i : ℕ) (c : Chan) (cs : ℕ → Chan)
    → c.closed ≡ (cs i).closed
    → (j : ℕ) → (set_chan i c cs j).closed ≡ (cs j).closed
unfolding set_chan
set_chan-closed i c cs e j = elim (Bool-cases (eqb i j)) [
  | inl q ↦ let p : i ≡ j = ground arith in cc
  | inr q ↦ cc
]

-- A delivery to an open channel goes through, and keeps the invariant.
pub deliver-IsOpen :
    (owner : ℕ → String) (i : ℕ) (m : Message) (b : InMemory)
    → IsOpen owner b
    → (b.chans i).closed ≡ false
    → (b' : InMemory) × (deliver i m b ≡ some b') × IsOpen owner b'
unfolding deliver
deliver-IsOpen owner i m b h o =
    let c : Chan = record (b.chans i) { held = (b.chans i).held ++ m ∷ [] } in
    elim (Bool-cases (ltb (length (b.chans i).held) b.buf)) [
      | inr q ↦ (b, cc, h)
      | inl q ↦ (
        record b { chans = set_chan i c b.chans },
        cc,
        IsOpen-chans owner b (set_chan i c b.chans) (set_chan-closed i c b.chans refl) h,
      )
    ]

pub deliver_to-IsOpen :
    (owner : ℕ → String) (a : String) (m : Message) (b : InMemory)
    → IsOpen owner b
    → (b' : InMemory) × (deliver_to a m b ≡ some b') × IsOpen owner b'
unfolding deliver_to
deliver_to-IsOpen owner a m b h = elim (Option-cases (lookup a b.agents)) [
  | inl e ↦ (b, cc, h)
  | inr (i, e) ↦ let (b', d, k) = deliver-IsOpen owner i m b h (h.open_ a i e) in (b', cc, k)
]

pub fan_out-IsOpen :
    (owner : ℕ → String) (names : Names) (m : Message) (b : InMemory)
    → IsOpen owner b
    → (b' : InMemory) × (fan_out names m b ≡ some b') × IsOpen owner b'
unfolding fan_out
fan_out-IsOpen owner [] m b h = (b, refl, h)
fan_out-IsOpen owner ((a, u) ∷ rest) m b h = elim (Bool-cases (a == m.from.agent)) [
  | inl q ↦ let (b', d, k) = fan_out-IsOpen owner rest m b h in (b', cc, k)
  | inr q ↦
      let (b1, d1, k1) = deliver_to-IsOpen owner a m b h in
      let (b', d, k) = fan_out-IsOpen owner rest m b1 k1 in (b', cc, k)
]

pub publish-IsOpen :
    (owner : ℕ → String) (m : Message) (b : InMemory)
    → IsOpen owner b
    → (b' : InMemory) × (publish m b ≡ some b') × IsOpen owner b'
unfolding publish
publish-IsOpen owner m b h = elim (Bool-cases (m.to.agent == "")) [
  | inr q ↦ let (b', d, k) = deliver_to-IsOpen owner m.to.agent m b h in (b', cc, k)
  | inl q ↦ elim (Bool-cases (m.to.topic == "")) [
    | inl p ↦ (b, cc, h)
    | inr p ↦
        let names = get_or (lookup m.to.topic b.topics) [] in
        let (b', d, k) = fan_out-IsOpen owner names m b h in (b', cc, k)
  ]
]

-- What happens to a bus: a subscription, the teardown of the one with a channel, a publish, a receive.
pub data Event : Type 0 where
  subscribes : String → List String → Event
  ends : ℕ → Event
  publishes : Message → Event
  receives : ℕ → Event

-- A bus, and the name under which each channel was subscribed, which its teardown goes by.
pub record System : Type 0 where
  pub bus : InMemory
  pub owner : ℕ → String

-- One event; `none` is a panic.
unfoldable pub happen : Event → System → Option System
happen (subscribes a ts) s = some (record {
  bus = (subscribe a ts s.bus).1;
  owner = λ i. if eqb s.bus.made i then a else s.owner i;
})
happen (ends i) s = some (record s { bus = tear_down (s.owner i) i s.bus })
happen (publishes m) s = elim (publish m s.bus) [
  | none ↦ none
  | some b ↦ some (record s { bus = b })
]
happen (receives i) s = some (record s { bus = (receive i s.bus).1 })

unfoldable pub happen_all : List Event → System → Option System
happen_all [] s = some s
happen_all (e ∷ es) s = elim (happen e s) [ none ↦ none | some s' ↦ happen_all es s' ]

pub subscribe-IsOpen :
    (a : String) (ts : List String) (s : System)
    → IsOpen s.owner s.bus
    → IsOpen (λ i. if eqb s.bus.made i then a else s.owner i) (subscribe a ts s.bus).1
unfolding subscribe
subscribe-IsOpen a ts s h =
    let n = s.bus.made in
    let c : Chan = record { held = []; closed = false } in
    let b' = (subscribe a ts s.bus).1 in
    let known : (x : String) (i : ℕ)
        → lookup x b'.agents ≡ some i
        → ((x ≡ a) × (i ≡ n)) ⊎ ((lookup x s.bus.agents ≡ some i) × (i < n)) =
      λ x i e. elim (String-cases x a) [
        | inl p ↦ let q = lookup-insert_same a n s.bus.agents in inl (p, cc)
        | inr p ↦
            let q = lookup-insert_other a x n s.bus.agents p in
            let old : lookup x s.bus.agents ≡ some i = cc in inr (old, h.older x i old)
      ] in
    record {
      owned = λ x i e. elim (known x i e) [
        | inl (p, q) ↦ let r : eqb n i ≡ true = ground arith in cc
        | inr (old, lt) ↦ let r : eqb n i ≡ false = ground arith in let w = h.owned x i old in cc
      ];
      older =
          λ x i e. elim (known x i e) [ inl (p, q) ↦ omega arith | inr (old, lt) ↦ omega arith ];
      open_ = λ x i e. elim (known x i e) [
        | inl (p, q) ↦ let r = set_chan-same n c s.bus.chans in cc
        | inr (old, lt) ↦
            let r = set_chan-other n i c s.bus.chans (λ z. ground arith) in
            let w = h.open_ x i old in cc
      ];
    }

pub tear_down-IsOpen :
    (i : ℕ) (s : System) → IsOpen s.owner s.bus → IsOpen s.owner (tear_down (s.owner i) i s.bus)
unfolding tear_down
tear_down-IsOpen i s h =
    let a = s.owner i in
    let c : Chan = record (s.bus.chans i) { closed = true } in
    let known : (x : String) (j : ℕ)
        → lookup x (delete a s.bus.agents) ≡ some j
        → (x ≢ a) × (lookup x s.bus.agents ≡ some j) =
      λ x j e. elim (String-cases x a) [
        | inl p ↦ let q = lookup-delete_same a s.bus.agents in absurd cc
        | inr p ↦ let q = lookup-delete_other a x s.bus.agents p in (p, cc)
      ] in
    record {
      owned = λ x j e. h.owned x j (known x j e).1;
      older = λ x j e. h.older x j (known x j e).1;
      open_ = λ x j e.
          let (p, old) = known x j e in
          let r =
            set_chan-other i j c s.bus.chans
              (λ z. p (sym (h.owned x j old) ∙ ap s.owner (sym z))) in
          let w = h.open_ x j old in cc;
    }

pub receive-IsOpen :
    (owner : ℕ → String) (i : ℕ) (b : InMemory) → IsOpen owner b → IsOpen owner (receive i b).1
unfolding receive
receive-IsOpen owner i b h = elim (List-cases (b.chans i).held) [
  | inl e ↦ let q : (receive i b).1 ≡ b = cc in subst (IsOpen owner) (sym q) h
  | inr (m, ms, e) ↦
      let c : Chan = record (b.chans i) { held = ms } in
      let q : (receive i b).1 ≡ record b { chans = set_chan i c b.chans } = cc in
      subst (IsOpen owner) (sym q)
        (IsOpen-chans owner b (set_chan i c b.chans) (set_chan-closed i c b.chans refl) h)
]

pub happen-IsOpen :
    (e : Event) (s : System)
    → IsOpen s.owner s.bus
    → (s' : System) × (happen e s ≡ some s') × IsOpen s'.owner s'.bus
unfolding happen
happen-IsOpen (subscribes a ts) s h = (_, refl, subscribe-IsOpen a ts s h)
happen-IsOpen (ends i) s h = (_, refl, tear_down-IsOpen i s h)
happen-IsOpen (publishes m) s h =
    let (b, e, k) = publish-IsOpen s.owner m s.bus h in (record s { bus = b }, cc, k)
happen-IsOpen (receives i) s h = (_, refl, receive-IsOpen s.owner i s.bus h)

pub happen_all-IsOpen :
    (es : List Event) (s : System)
    → IsOpen s.owner s.bus
    → (s' : System) × (happen_all es s ≡ some s') × IsOpen s'.owner s'.bus
unfolding happen_all
happen_all-IsOpen [] s h = (s, refl, h)
happen_all-IsOpen (e ∷ es) s h =
    let (s1, q, k) = happen-IsOpen e s h in
    let (s2, r, l) = happen_all-IsOpen es s1 k in (s2, cc, l)

pub new_in_memory-IsOpen : (buf : ℕ) (owner : ℕ → String) → IsOpen owner (new_in_memory buf)
unfolding new_in_memory lookup
new_in_memory-IsOpen buf owner = record {
  owned = λ a i e. absurd cc;
  older = λ a i e. absurd cc;
  open_ = λ a i e. absurd cc;
}

-- Whatever subscriptions, teardowns, publishes and receives follow each other on a new bus, none
-- panics: no message is sent on a closed channel, also where several subscriptions share a name.
pub never_panics :
    (buf : ℕ) (owner : ℕ → String) (es : List Event)
    → (s : System) × (happen_all es (record { bus = new_in_memory buf; owner = owner }) ≡ some s)
never_panics buf owner es =
    let (s, e, h) =
      happen_all-IsOpen es (record { bus = new_in_memory buf; owner = owner })
        (new_in_memory-IsOpen buf owner) in
    (s, e)
