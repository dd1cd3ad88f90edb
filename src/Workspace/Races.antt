-- ===== src/Workspace/Races.antt =====
-- Interleavings inside `Acquire` and `Release`: each is several steps, and another process may act
-- between them (pkg/workspace/workspace.go).
use parallel_consciousness.Prelude.{
  ℕ, ◌+◌, ◌<◌, String, eq_refl, ◌≡◌, true, false, none, some, ◌∙◌, ap, inr,
}
use parallel_consciousness.Dict.{lookup, lookup-delete_same}
use parallel_consciousness.Workspace.{
  Table, Manager, Lease, Outside, owns, claim, rollback, renew, drop_row, heartbeat,
  worktree_branch, acquire, lease_for, materialise, lease_lost, present,
}
use parallel_consciousness.Workspace.Acquire.{claim_owns, claim_stale, claim_free, acquire_done}

-- A slow `Acquire` undoes the claim of its successor: when its git command fails after its own row went
-- stale and another call claimed the path, the delete of its rollback removes the other's row, and the
-- other's heartbeat reports a lost lease.
pub rollback_unfenced :
    (m : Manager) (l k : Lease) (now later : ℕ) (t : Table) (last : ℕ)
    → (claim m l now t).0 ≡ true
    → k.path ≡ l.path
    → now + m.ttl < later
    → ((claim m k later (claim m l now t).1).0 ≡ true)
      × (let t' = rollback false l.path (claim m k later (claim m l now t).1).1 in
          heartbeat k last none t' ≡ (some (lease_lost k.path), t'))
unfolding heartbeat renew rollback
rollback_unfenced m l k now later t last c p late =
    let t1 = (claim m l now t).1 in
    let row = ap (λ x. lookup x t1) p ∙ claim_owns m l now t t1 cc in
    let z = lookup-delete_same l.path (claim m k later t1).1 in
    (claim_stale m k later t1 _ row late, cc)

module _ {D : Type 0} (o : Outside D) where
  -- A worktree that is on disk, on the branch asked for, is handed out as it is.
  pub materialise_present :
      (m : Manager) (k : Lease) (d d' : D)
      → o.stat k.path d ≡ present
      → worktree_branch o k.path d ≡ (inr k.branch, d')
      → materialise o m k d ≡ (none, d')
  unfolding materialise
  materialise_present m k d d' s b = let y = eq_refl k.branch in cc

  -- Between the two steps of `Release` the path is free and its directory still there: a call of
  -- `Acquire` in between, for the branch that is checked out, is granted the directory that the
  -- release goes on to remove, and its heartbeats succeed.
  pub release_race :
      (m : Manager) (l : Lease) (agent branch holder : String) (now later : ℕ) (t : Table)
      (d d' : D)
      → owns l t ≡ true
      → o.join m.root agent ≡ l.path
      → o.stat l.path d ≡ present
      → worktree_branch o l.path d ≡ (inr branch, d')
      → let t1 = (drop_row l t).1 in
        let k = lease_for o m agent branch holder in
        let t2 = (claim m k now t1).1 in
        (k.path ≡ l.path)
        × (acquire o m agent branch now (inr holder) none false (t1, d) ≡ (inr k, (t2, d')))
        × ((heartbeat k later none t2).0 ≡ none)
  unfolding lease_for drop_row heartbeat renew owns
  release_race m l agent branch holder now later t d d' e p s b =
      let k = lease_for o m agent branch holder in
      let t1 = (drop_row l t).1 in
      let t2 = (claim m k now t1).1 in
      let free : lookup k.path t1 ≡ none = let z = lookup-delete_same l.path t in cc in
      let c = claim_free m k now t1 free in
      let w =
        materialise_present m k d d' (ap (λ x. o.stat x d) p ∙ s)
          (ap (λ x. worktree_branch o x d) p ∙ b) in
      let row = claim_owns m k now t1 t2 cc in
      let x = eq_refl agent in
      let y = eq_refl holder in (p, acquire_done o m agent branch now holder false t1 d d' c w, cc)
