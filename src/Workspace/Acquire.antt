-- ===== src/Workspace/Acquire.antt =====
-- What a call of `Acquire` does to the table of leases (pkg/workspace/workspace.go).
use parallel_consciousness.Prelude.{
  ℕ, ◌+◌, ◌≤◌, ◌<◌, String, eq_iff, eq_refl, ◌≡◌, ◌≢◌, refl, Bool, true, false, Option, none, some,
  arith, Bool-cases, Option-cases, ◌⊎◌, inl, inr,
}
use parallel_consciousness.Dict.{
  lookup, delete, lookup-insert, lookup-delete_same, lookup-delete_other,
}
use parallel_consciousness.Workspace.{
  Row, Table, Manager, Lease, Fault, Outside, is_stale, lease_ttl, claim, rollback, materialise,
  lease_for, acquire, leased,
}

-- A claim that affects a row leaves the lease's own row.
pub claim_owns :
    (m : Manager) (l : Lease) (now : ℕ) (t t' : Table)
    → claim m l now t ≡ (true, t')
    → lookup l.path t'
      ≡ some (record { agent = l.agent; branch = l.branch; holder = l.holder; heartbeat_at = now })
unfolding claim is_stale
claim_owns m l now t t' e =
    let row : Row = record {
      agent = l.agent;
      branch = l.branch;
      holder = l.holder;
      heartbeat_at = now;
    } in
    elim (Option-cases (lookup l.path t)) [
      | inl n ↦ ground (arith, lookup-insert l.path l.path row t, eq_refl l.path)
      | inr (r, n) ↦ ground (arith, lookup-insert l.path l.path row t, eq_refl l.path)
    ]

-- A claim leaves the other paths alone.
pub claim_other :
    (m : Manager) (l : Lease) (now : ℕ) (t : Table) (j : String)
    → j ≢ l.path
    → lookup j (claim m l now t).1 ≡ lookup j t
unfolding claim is_stale
claim_other m l now t j n =
    let row : Row = record {
      agent = l.agent;
      branch = l.branch;
      holder = l.holder;
      heartbeat_at = now;
    } in
    elim (Option-cases (lookup l.path t)) [
      | inl e ↦ ground (arith, lookup-insert l.path j row t, eq_iff l.path j)
      | inr (r, e) ↦ ground (arith, lookup-insert l.path j row t, eq_iff l.path j)
    ]

-- A claim of a live row affects nothing.
pub claim_live :
    (m : Manager) (l : Lease) (now : ℕ) (t : Table) (r : Row)
    → lookup l.path t ≡ some r
    → now ≤ r.heartbeat_at + m.ttl
    → claim m l now t ≡ (false, t)
unfolding claim is_stale lease_ttl
claim_live m l now t r e le = ground arith

-- A free path is claimed.
pub claim_free :
    (m : Manager) (l : Lease) (now : ℕ) (t : Table)
    → lookup l.path t ≡ none
    → (claim m l now t).0 ≡ true
unfolding claim
claim_free m l now t e = cc

-- A stale row is claimed.
pub claim_stale :
    (m : Manager) (l : Lease) (now : ℕ) (t : Table) (r : Row)
    → lookup l.path t ≡ some r
    → r.heartbeat_at + m.ttl < now
    → (claim m l now t).0 ≡ true
unfolding claim is_stale lease_ttl
claim_stale m l now t r e lt = ground arith

-- A claim that affects no row leaves the table.
pub claim_refused :
    (m : Manager) (l : Lease) (now : ℕ) (t : Table)
    → (claim m l now t).0 ≡ false
    → (claim m l now t).1 ≡ t
unfolding claim
claim_refused m l now t e = elim (Option-cases (lookup l.path t)) [
  | inl n ↦ ground arith
  | inr (r, n) ↦ elim (Bool-cases (is_stale m now r)) [
    | inl b ↦ ground arith
    | inr b ↦ ground arith
  ]
]

module _ {D : Type 0} (o : Outside D) (m : Manager) (agent branch : String) (now : ℕ) where
  -- A lease that `Acquire` returns is the one that it claimed under its token.
  pub acquire_ok :
      (minted : String ⊎ String) (fault : Option String) (stuck : Bool) (t t' : Table) (d d' : D)
      (l : Lease)
      → acquire o m agent branch now minted fault stuck (t, d) ≡ (inr l, (t', d'))
      → (minted ≡ inr l.holder)
        × (l ≡ lease_for o m agent branch l.holder)
        × (claim m l now t ≡ (true, t'))
        × (materialise o m l d ≡ (none, d'))
  unfolding acquire lease_for
  acquire_ok (inl e) fault stuck t t' d d' l h = absurd (ground arith)
  acquire_ok (inr holder) (some e) stuck t t' d d' l h = absurd (ground arith)
  acquire_ok (inr holder) none stuck t t' d d' l h =
      let k = lease_for o m agent branch holder in
      elim (Bool-cases (claim m k now t).0) [
        | inr c ↦ absurd (ground arith)
        | inl c ↦ elim (Option-cases (materialise o m k d).0) [
          | inr (e, q) ↦ absurd (ground arith)
          | inl q ↦ (cc, cc, cc, cc)
        ]
      ]

  -- A claim that affects a row and a worktree that is there make a lease.
  pub acquire_done :
      (holder : String) (stuck : Bool) (t : Table) (d d' : D)
      → let k = lease_for o m agent branch holder in
        (claim m k now t).0 ≡ true
        → materialise o m k d ≡ (none, d')
        → acquire o m agent branch now (inr holder) none stuck (t, d)
          ≡ (inr k, ((claim m k now t).1, d'))
  unfolding acquire
  acquire_done holder stuck t d d' c q = cc

  -- The table that a call of `Acquire` leaves: as it was, claimed, or with its claim undone.
  pub acquire_tables :
      (minted : String ⊎ String) (fault : Option String) (stuck : Bool) (t : Table) (d : D)
      → ((acquire o m agent branch now minted fault stuck (t, d)).1.0 ≡ t)
        ⊎ ((holder : String) × (minted ≡ inr holder)
            × (let k = lease_for o m agent branch holder in
                ((acquire o m agent branch now minted fault stuck (t, d)).1.0 ≡ (claim m k now t).1)
                ⊎ ((acquire o m agent branch now minted fault stuck (t, d)).1.0
                    ≡ delete k.path (claim m k now t).1)))
  unfolding acquire rollback
  acquire_tables (inl x) fault stuck t d = inl refl
  acquire_tables (inr x) (some f) stuck t d = inl refl
  acquire_tables (inr x) none stuck t d =
      let k = lease_for o m agent branch x in
      elim (Bool-cases (claim m k now t).0) [
        | inr c ↦ let q = claim_refused m k now t c in inl cc
        | inl c ↦ elim (Option-cases (materialise o m k d).0) [
          | inl q ↦ inr (x, refl, inl cc)
          | inr (f, q) ↦ elim (Bool-cases stuck) [
            | inl b ↦ inr (x, refl, inl cc)
            | inr b ↦ inr (x, refl, inr cc)
          ]
        ]
      ]

  -- A lease that `Acquire` returns is for the agent and the branch asked for, under the token minted in
  -- the call; the table then holds the lease's row, renewed now, and every other path as before.
  pub acquire_grants :
      (minted : String ⊎ String) (fault : Option String) (stuck : Bool) (t t' : Table) (d d' : D)
      (l : Lease)
      → acquire o m agent branch now minted fault stuck (t, d) ≡ (inr l, (t', d'))
      → (minted ≡ inr l.holder)
        × (l ≡ lease_for o m agent branch l.holder)
        × (lookup l.path t'
            ≡ some
                (record { agent = agent; branch = branch; holder = l.holder; heartbeat_at = now }))
        × ((j : String) → j ≢ l.path → lookup j t' ≡ lookup j t)
  unfolding lease_for
  acquire_grants minted fault stuck t t' d d' l h =
      let (p, q, c, w) = acquire_ok minted fault stuck t t' d d' l h in
      let row = claim_owns m l now t t' c in
      (p, q, cc, λ j n. let x = claim_other m l now t j n in cc)

  -- While a row is live, `Acquire` of its path grants no lease and changes nothing: with a token and
  -- a database that answers, it reports that the workspace is leased.
  pub acquire_live :
      (minted : String ⊎ String) (fault : Option String) (stuck : Bool) (t : Table) (d : D)
      (r : Row)
      → lookup (o.join m.root agent) t ≡ some r
      → now ≤ r.heartbeat_at + m.ttl
      → ((e : Fault) × (acquire o m agent branch now minted fault stuck (t, d) ≡ (inl e, (t, d)))
          × ((k : String) → minted ≡ inr k → fault ≡ none → e ≡ leased))
  unfolding acquire lease_for
  acquire_live (inl x) fault stuck t d r e le = (_, refl, λ k p q. absurd cc)
  acquire_live (inr x) (some f) stuck t d r e le = (_, refl, λ k p q. absurd cc)
  acquire_live (inr x) none stuck t d r e le =
      let c = claim_live m (lease_for o m agent branch x) now t r e le in
      (leased, cc, λ k p q. refl)

  -- A call of `Acquire` that fails, its rollback's delete not failing, leaves every other path as it
  -- was, and its own path as it was or free.
  pub acquire_failed :
      (minted : String ⊎ String) (fault : Option String) (t t' : Table) (d d' : D) (e : Fault)
      → acquire o m agent branch now minted fault false (t, d) ≡ (inl e, (t', d'))
      → ((lookup (o.join m.root agent) t' ≡ lookup (o.join m.root agent) t)
          ⊎ (lookup (o.join m.root agent) t' ≡ none))
        × ((j : String) → j ≢ o.join m.root agent → lookup j t' ≡ lookup j t)
  unfolding acquire lease_for rollback
  acquire_failed (inl x) fault t t' d d' e h = (inl cc, λ j n. cc)
  acquire_failed (inr x) (some f) t t' d d' e h = (inl cc, λ j n. cc)
  acquire_failed (inr x) none t t' d d' e h =
      let k = lease_for o m agent branch x in
      elim (Bool-cases (claim m k now t).0) [
        | inr c ↦ let q = claim_refused m k now t c in (inl cc, λ j n. cc)
        | inl c ↦ elim (Option-cases (materialise o m k d).0) [
          | inl q ↦ absurd cc
          | inr (f, q) ↦ (
            inr (let z = lookup-delete_same k.path (claim m k now t).1 in cc),
            λ j n.
                let z = lookup-delete_other k.path j (claim m k now t).1 n in
                let y = claim_other m k now t j n in cc,
          )
        ]
      ]
