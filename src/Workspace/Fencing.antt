-- ===== src/Workspace/Fencing.antt =====
-- Fencing: what is left to a holder whose lease was reclaimed, and what others can do to one whose
-- lease is live (pkg/workspace/workspace.go).
use parallel_consciousness.Prelude.{
  ℕ, ◌+◌, ◌≤◌, String, eq_iff, eq_refl, ◌≡◌, ◌≢◌, ◌∙◌, ap, sym, refl, Bool, true, false, Option,
  none, some, List, [], ◌∷◌, arith, Bool-cases, Option-cases, ◌⊎◌, inl, inr, String-cases,
}
use parallel_consciousness.Dict.{
  lookup, insert, delete, lookup-delete_same, lookup-delete_other, lookup-insert_same,
  lookup-insert_other,
}
use parallel_consciousness.Workspace.{
  Row, Table, Manager, Lease, Outside, owns, claim, renew, drop_row, heartbeat, release, lease_for,
  acquire, lease_lost,
}
use parallel_consciousness.Workspace.Acquire.{
  acquire_tables, claim_owns, claim_other, claim_refused, acquire_ok, acquire_live,
}

-- A call of one of the three operations, with its inputs; calls take effect one after the other.
pub data Call : Type 0 where
  acquires : Manager → String → String → ℕ → String ⊎ String → Option String → Bool → Call
  heartbeats : Lease → ℕ → Option String → Call
  releases : Manager → Lease → Option String → Call

-- A call cannot speak for a lease: it mints another token, or is made by a lease with another one.
abbrev pub Other : Lease → Call → Type 0
Other l (acquires m agent branch now minted fault stuck) = minted ≢ inr l.holder
Other l (heartbeats k now fault) = k.holder ≢ l.holder
Other l (releases m k fault) = k.holder ≢ l.holder

-- A time at which the row is live, for the calls that may reclaim it.
abbrev pub Live : Row → Call → Type 0
Live r (acquires m agent branch now minted fault stuck) = now ≤ r.heartbeat_at + m.ttl
Live r _ = Unit

-- Every call of a list satisfies `P`.
abbrev pub Every : (Call → Type 0) → List Call → Type 0
Every P [] = Unit
Every P (c ∷ cs) = P c × Every P cs

-- A lease without its row cannot renew, and its release touches neither the table nor the disk.
pub owns-fenced :
    {D : Type 0} (o : Outside D) (m : Manager) (l : Lease) (now : ℕ) (t : Table) (d : D)
    → owns l t ≡ false
    → (heartbeat l now none t ≡ (some (lease_lost l.path), t))
      × (release o m l none (t, d) ≡ (some (lease_lost l.path), (t, d)))
unfolding heartbeat release renew drop_row
owns-fenced o m l now t d e = elim (Option-cases (lookup l.path t)) [
  | inl n ↦ (cc, cc)
  | inr (r, n) ↦ (cc, cc)
]

-- Whether a lease owns its row depends on its path's row only.
pub owns_row :
    (l : Lease) (t t' : Table) → lookup l.path t' ≡ lookup l.path t → owns l t' ≡ owns l t
unfolding owns
owns_row l t t' e = cc

pub owns-none : (l : Lease) (t : Table) → lookup l.path t ≡ none → owns l t ≡ false
unfolding owns
owns-none l t e = cc

pub owns_token :
    (l : Lease) (t : Table) (r : Row)
    → lookup l.path t ≡ some r
    → r.holder ≢ l.holder
    → owns l t ≡ false
unfolding owns
owns_token l t r e n = ground (arith, eq_iff r.holder l.holder)

pub owns_holder :
    (l : Lease) (t : Table)
    → owns l t ≡ true
    → ((r : Row) × (lookup l.path t ≡ some r) × (r.agent ≡ l.agent) × (r.holder ≡ l.holder))
unfolding owns
owns_holder l t e = elim (Option-cases (lookup l.path t)) [
  | inl n ↦ absurd cc
  | inr (r, n) ↦
      (r, n, ground (arith, eq_iff r.agent l.agent), ground (arith, eq_iff r.holder l.holder))
]

-- After a claim under another token a lost lease is still lost.
pub claim_lost :
    (m : Manager) (k l : Lease) (now : ℕ) (t : Table)
    → k.holder ≢ l.holder
    → owns l t ≡ false
    → owns l (claim m k now t).1 ≡ false
claim_lost m k l now t n e = elim (Bool-cases (claim m k now t).0) [
  | inr c ↦ let q = claim_refused m k now t c in cc
  | inl c ↦ elim (String-cases l.path k.path) [
    | inl p ↦
        let t' = (claim m k now t).1 in
        let row = claim_owns m k now t t' cc in owns_token l t' _ (ap (λ x. lookup x t') p ∙ row) n
    | inr p ↦ owns_row l t (claim m k now t).1 (claim_other m k now t l.path p) ∙ e
  ]
]

pub delete_lost :
    (path : String) (l : Lease) (t : Table) → owns l t ≡ false → owns l (delete path t) ≡ false
delete_lost path l t e = elim (String-cases l.path path) [
  | inl p ↦
      owns-none l (delete path t) (ap (λ x. lookup x (delete path t)) p ∙ lookup-delete_same path t)
  | inr p ↦ owns_row l t (delete path t) (lookup-delete_other path l.path t p) ∙ e
]

-- The table after a renewal: as it was, or with the lease's own row rewritten.
pub renew_tables :
    (k : Lease) (now : ℕ) (t : Table)
    → ((renew k now t).1 ≡ t)
      ⊎ ((r : Row) × (r.holder ≡ k.holder)
          × (lookup k.path t ≡ some r)
          × ((renew k now t).1 ≡ insert k.path (record r { heartbeat_at = now }) t))
unfolding renew
renew_tables k now t = elim (Bool-cases (owns k t)) [
  | inr e ↦ elim (Option-cases (lookup k.path t)) [ inl n ↦ inl cc | inr (r, n) ↦ inl cc ]
  | inl e ↦ let (r, n, a, h) = owns_holder k t e in inr (r, h, n, cc)
]

-- The table after a heartbeat is the renewed one or the same.
pub heartbeat_tables :
    (k : Lease) (now : ℕ) (fault : Option String) (t : Table)
    → ((heartbeat k now fault t).1 ≡ t) ⊎ ((heartbeat k now fault t).1 ≡ (renew k now t).1)
unfolding heartbeat
heartbeat_tables k now (some e) t = inl refl
heartbeat_tables k now none t = elim (Bool-cases (renew k now t).0) [
  | inl b ↦ inr cc
  | inr b ↦ inr cc
]

-- The table after a release is the same, or has lost the row that the lease owned.
pub release_tables :
    {D : Type 0} (o : Outside D) (m : Manager) (k : Lease) (fault : Option String) (t : Table)
    (d : D)
    → ((release o m k fault (t, d)).1.0 ≡ t)
      ⊎ ((owns k t ≡ true) × ((release o m k fault (t, d)).1.0 ≡ delete k.path t))
unfolding release drop_row
release_tables o m k (some e) t d = inl refl
release_tables o m k none t d = elim (Bool-cases (owns k t)) [
  | inl b ↦ inr (b, cc)
  | inr b ↦ inl cc
]

module _ {D : Type 0} (o : Outside D) where
  -- What a call leaves behind.
  unfoldable pub perform : Call → Table × D → Table × D
  perform (acquires m agent branch now minted fault stuck) s =
      (acquire o m agent branch now minted fault stuck s).1
  perform (heartbeats l now fault) (t, d) = ((heartbeat l now fault t).1, d)
  perform (releases m l fault) s = (release o m l fault s).1

  unfoldable pub perform_all : List Call → Table × D → Table × D
  perform_all [] s = s
  perform_all (c ∷ cs) s = perform_all cs (perform c s)

  -- A step by others does not give a lost lease back.
  pub perform_lost :
      (l : Lease) (c : Call) (t : Table) (d : D)
      → Other l c
      → owns l t ≡ false
      → owns l (perform c (t, d)).0 ≡ false
  unfolding perform lease_for
  perform_lost l (acquires m agent branch now minted fault stuck) t d n e =
      elim (acquire_tables o m agent branch now minted fault stuck t d) [
        | inl p ↦ cc
        | inr (holder, p, inl q) ↦
            let x =
              claim_lost m (lease_for o m agent branch holder) l now t (λ h. n (p ∙ ap inr h)) e in
            cc
        | inr (holder, p, inr q) ↦
            let k = lease_for o m agent branch holder in
            let x = claim_lost m k l now t (λ h. n (p ∙ ap inr h)) e in
            let y = delete_lost k.path l (claim m k now t).1 x in cc
      ]
  perform_lost l (heartbeats k now fault) t d n e = elim (heartbeat_tables k now fault t) [
    | inl p ↦ cc
    | inr p ↦ elim (renew_tables k now t) [
      | inl q ↦ cc
      | inr (r, h, w, q) ↦ elim (String-cases l.path k.path) [
        | inl b ↦
            let u = (renew k now t).1 in
            let z = lookup-insert_same k.path (record r { heartbeat_at = now }) t in
            let y : lookup l.path u ≡ some (record r { heartbeat_at = now }) = cc in
            let x = owns_token l u _ y (λ g. n (sym h ∙ g)) in cc
        | inr b ↦
            let z = lookup-insert_other k.path l.path (record r { heartbeat_at = now }) t b in
            let x = owns_row l t (renew k now t).1 cc in cc
      ]
    ]
  ]
  perform_lost l (releases m k fault) t d n e = elim (release_tables o m k fault t d) [
    | inl p ↦ cc
    | inr (w, p) ↦ let x = delete_lost k.path l t e in cc
  ]

  -- A call by others, made while a lease's row is live, leaves the row as it is.
  pub perform_kept :
      (l : Lease) (r : Row) (c : Call) (t : Table) (d : D)
      → Other l c
      → Live r c
      → lookup l.path t ≡ some r
      → r.holder ≡ l.holder
      → lookup l.path (perform c (t, d)).0 ≡ some r
  unfolding perform lease_for
  perform_kept l r (acquires m agent branch now minted fault stuck) t d n v e g =
      elim (String-cases l.path (o.join m.root agent)) [
        | inl b ↦
            let (f, x, y) =
              acquire_live o m agent branch now minted fault stuck t d r
                (ap (λ x. lookup x t) (sym b) ∙ e) v in
            cc
        | inr b ↦ elim (acquire_tables o m agent branch now minted fault stuck t d) [
          | inl p ↦ cc
          | inr (holder, p, inl q) ↦
              let x = claim_other m (lease_for o m agent branch holder) now t l.path b in cc
          | inr (holder, p, inr q) ↦
              let k = lease_for o m agent branch holder in
              let x = claim_other m k now t l.path b in
              let y = lookup-delete_other k.path l.path (claim m k now t).1 b in cc
        ]
      ]
  perform_kept l r (heartbeats k now fault) t d n v e g = elim (heartbeat_tables k now fault t) [
    | inl p ↦ cc
    | inr p ↦ elim (renew_tables k now t) [
      | inl q ↦ cc
      | inr (s, h, w, q) ↦ elim (String-cases l.path k.path) [
        | inl b ↦ absurd (n cc)
        | inr b ↦
            let z = lookup-insert_other k.path l.path (record s { heartbeat_at = now }) t b in cc
      ]
    ]
  ]
  perform_kept l r (releases m k fault) t d n v e g = elim (release_tables o m k fault t d) [
    | inl p ↦ cc
    | inr (w, p) ↦ elim (String-cases l.path k.path) [
      | inl b ↦ let (s, q, a, h) = owns_holder k t w in absurd (n cc)
      | inr b ↦ let z = lookup-delete_other k.path l.path t b in cc
    ]
  ]

  pub perform_all-lost :
      (l : Lease) (cs : List Call) (t : Table) (d : D)
      → Every (Other l) cs
      → owns l t ≡ false
      → owns l (perform_all cs (t, d)).0 ≡ false
  unfolding perform_all
  perform_all-lost l [] t d h e = e
  perform_all-lost l (c ∷ cs) t d (h, hs) e =
      let (t', d') = perform c (t, d) in perform_all-lost l cs t' d' hs (perform_lost l c t d h e)

  -- When `Acquire` grants a workspace to another token, the holder before is fenced out for good:
  -- after any calls that do not mint its token and are not made by it, its heartbeat and its release
  -- both report that the lease is lost and change neither the table nor the disk.
  pub reclaimed_fenced :
      (l k : Lease) (m : Manager) (agent branch : String) (now : ℕ) (minted : String ⊎ String)
      (fault : Option String) (stuck : Bool) (s : Table × D) (t : Table) (d : D) (cs : List Call)
      → acquire o m agent branch now minted fault stuck s ≡ (inr k, (t, d))
      → k.path ≡ l.path
      → k.holder ≢ l.holder
      → Every (Other l) cs
      → (later : ℕ)
      → let (t', d') = perform_all cs (t, d) in
        (heartbeat l later none t' ≡ (some (lease_lost l.path), t'))
        × (release o m l none (t', d') ≡ (some (lease_lost l.path), (t', d')))
  reclaimed_fenced l k m agent branch now minted fault stuck (t0, d0) t d cs h p n hs later =
      let (a, b, c, w) = acquire_ok o m agent branch now minted fault stuck t0 t d0 d k h in
      let row = claim_owns m k now t0 t c in
      let lost = owns_token l t _ (ap (λ x. lookup x t) (sym p) ∙ row) n in
      let (t', d') = perform_all cs (t, d) in
      owns-fenced o m l later t' d' (perform_all-lost l cs t d hs lost)

  pub perform_all-kept :
      (l : Lease) (r : Row) (cs : List Call) (t : Table) (d : D)
      → Every (Other l) cs
      → Every (Live r) cs
      → lookup l.path t ≡ some r
      → r.holder ≡ l.holder
      → lookup l.path (perform_all cs (t, d)).0 ≡ some r
  unfolding perform_all
  perform_all-kept l r [] t d h v e g = e
  perform_all-kept l r (c ∷ cs) t d (h, hs) (v, vs) e g =
      let (t', d') = perform c (t, d) in
      perform_all-kept l r cs t' d' hs vs (perform_kept l r c t d h v e g) g

  -- A holder whose row is live keeps it through any calls by others that are made before its time to
  -- live has run out, and can then renew it.
  pub unexpired_kept :
      (l : Lease) (r : Row) (cs : List Call) (t : Table) (d : D)
      → Every (Other l) cs
      → Every (Live r) cs
      → lookup l.path t ≡ some r
      → r.agent ≡ l.agent
      → r.holder ≡ l.holder
      → (later : ℕ)
      → let (t', d') = perform_all cs (t, d) in
        (lookup l.path t' ≡ some r)
        × (heartbeat l later none t' ≡ (none, insert l.path (record r { heartbeat_at = later }) t'))
  unfolding heartbeat renew owns
  unexpired_kept l r cs t d hs vs e a g later =
      let (t', d') = perform_all cs (t, d) in
      let kept = perform_all-kept l r cs t d hs vs e g in
      let x = eq_refl l.agent in let y = eq_refl l.holder in (kept, cc)
