-- ===== src/Workspace.antt =====
-- pkg/workspace/workspace.go and pkg/workspace/git.go: exclusive worktrees, handed out through a table
-- of leases with fencing tokens. The leases table is a map from its primary key; a statement of SQLite
-- is one atomic step on it. Git, the file system, the path functions and the source of tokens are
-- parameters; a statement that fails is an input.
pub mod Acquire
pub mod Fencing
pub mod Races
use parallel_consciousness.Prelude.{
  ℕ, ◌+◌, String, ◌==◌, Bool, true, false, ◌&&◌, not, Option, none, some, List, [], ◌∷◌,
  if◌then◌else◌, ltb, ◌⊎◌, inl, inr,
}
use parallel_consciousness.Dict.{Dict, lookup, insert, delete}

-- A row of `leases` without its key, the path (`leaseSchema`). Times are in milliseconds.
pub record Row : Type 0 where
  pub agent : String
  pub branch : String
  pub holder : String
  pub heartbeat_at : ℕ

-- The table `leases`.
abbrev pub Table : Type 0
Table = Dict Row

-- `Manager`, without its mutex and its connection.
pub record Manager : Type 0 where
  pub repo : String
  pub root : String
  pub ttl : ℕ

-- `Lease`
pub record Lease : Type 0 where
  pub agent : String
  pub path : String
  pub branch : String
  pub holder : String

-- The errors of the package. `failed` holds the text of one that comes from outside.
pub data Fault : Type 0 where
  leased : Fault
  lease_lost : String → Fault
  failed : String → String → Fault
  conflict : String → String → String → String → Fault

-- What `os.Stat` answers: the path exists, it does not, or an error.
pub data Stat : Type 0 where
  present absent : Stat
  unreadable : String → Stat

-- The world outside: `D` is the state of the disk. A git command returns its error, if any, and its
-- output.
pub record Outside (D : Type 0) : Type 0 where
  pub git : List String → D → (Option String × String) × D
  pub stat : String → D → Stat
  pub join : String → String → String
  pub trim_space : String → String

-- `New`; the statement that creates the schema leaves an existing table as it is.
unfoldable pub new : String → String → Manager
new repo root = record { repo = repo; root = root; ttl = 30000 }

-- `SetTTL`
unfoldable pub set_ttl : ℕ → Manager → Manager
set_ttl d m = record m { ttl = d }

-- `leaseTTL`
unfoldable pub lease_ttl : Manager → ℕ
lease_ttl m = m.ttl

-- `heartbeat_at < staleBefore`, where `staleBefore` is the time less the ttl, which may be negative.
unfoldable pub is_stale : Manager → ℕ → Row → Bool
is_stale m now r = ltb (r.heartbeat_at + lease_ttl m) now

-- `path = ? AND agent = ? AND holder = ?`
unfoldable pub owns : Lease → Table → Bool
owns l t = elim (lookup l.path t) [
  | none ↦ false
  | some r ↦ (r.agent == l.agent) && (r.holder == l.holder)
]

-- The insert of `Acquire`, and whether it affects a row: the row is claimed when it is free or stale.
unfoldable pub claim : Manager → Lease → ℕ → Table → Bool × Table
claim m l now t =
    let row : Row = record {
      agent = l.agent;
      branch = l.branch;
      holder = l.holder;
      heartbeat_at = now;
    } in
    elim (lookup l.path t) [
      | none ↦ (true, insert l.path row t)
      | some r ↦ if is_stale m now r then (true, insert l.path row t) else (false, t)
    ]

-- The delete that undoes a claim: by the path alone. Its error is dropped, so `fails` keeps the row.
unfoldable pub rollback : Bool → String → Table → Table
rollback fails path t = if fails then t else delete path t

-- The update of `Heartbeat`, and whether it affects a row.
unfoldable pub renew : Lease → ℕ → Table → Bool × Table
renew l now t = elim (lookup l.path t) [
  | none ↦ (false, t)
  | some r ↦
      if owns l t then (true, insert l.path (record r { heartbeat_at = now }) t) else (false, t)
]

-- The delete of `Release`, and whether it affects a row.
unfoldable pub drop_row : Lease → Table → Bool × Table
drop_row l t = if owns l t then (true, delete l.path t) else (false, t)

-- `Heartbeat`: `fault` is the error of the statement.
unfoldable pub heartbeat : Lease → ℕ → Option String → Table → Option Fault × Table
heartbeat l now (some e) t = (some (failed l.path e), t)
heartbeat l now none t =
    let (done, t') = renew l now t in if done then (none, t') else (some (lease_lost l.path), t')

module _ {D : Type 0} (o : Outside D) where
  -- `worktreeAdd`
  unfoldable pub worktree_add : String → String → String → D → Option Fault × D
  worktree_add repo path branch d =
      let ((e, out), d') = o.git ("-C" ∷ repo ∷ "worktree" ∷ "add" ∷ "-B" ∷ branch ∷ path ∷ []) d in
      (elim e [ none ↦ none | some x ↦ some (failed path x) ], d')

  -- `worktreeRemove`
  unfoldable pub worktree_remove : String → String → D → Option Fault × D
  worktree_remove repo path d =
      let ((e, out), d') = o.git ("-C" ∷ repo ∷ "worktree" ∷ "remove" ∷ "--force" ∷ path ∷ []) d in
      (elim e [ none ↦ none | some x ↦ some (failed path x) ], d')

  -- `worktreeBranch`
  unfoldable pub worktree_branch : String → D → (Fault ⊎ String) × D
  worktree_branch path d =
      let ((e, out), d') = o.git ("-C" ∷ path ∷ "symbolic-ref" ∷ "--short" ∷ "HEAD" ∷ []) d in
      (elim e [ none ↦ inr (o.trim_space out) | some x ↦ inl (failed path x) ], d')

  -- `Acquire` after its claim: the worktree is added, or the one on disk is checked to be on the
  -- branch.
  unfoldable pub materialise : Manager → Lease → D → Option Fault × D
  materialise m l d = elim (o.stat l.path d) [
    | unreadable e ↦ (some (failed l.path e), d)
    | absent ↦ worktree_add m.repo l.path l.branch d
    | present ↦
        let (r, d') = worktree_branch l.path d in
        elim r [
          | inl e ↦ (some e, d')
          | inr found ↦
              if not (found == l.branch)
              then (some (conflict l.agent l.path found l.branch), d')
              else (none, d')
        ]
  ]

  -- The lease that `Acquire` claims for an agent and a branch under a token.
  unfoldable pub lease_for : Manager → String → String → String → Lease
  lease_for m agent branch holder = record {
    agent = agent;
    path = o.join m.root agent;
    branch = branch;
    holder = holder;
  }

  -- `Acquire`: `minted` is the token or the error of its source, `fault` the error of the claim, and
  -- `stuck` whether a rollback's delete fails.
  unfoldable pub acquire :
      Manager
      → String
      → String
      → ℕ
      → String ⊎ String
      → Option String
      → Bool
      → Table × D
      → (Fault ⊎ Lease) × (Table × D)
  acquire m agent branch now (inl e) fault stuck s = (inl (failed "mint holder token" e), s)
  acquire m agent branch now (inr holder) (some e) stuck s =
      (inl (failed (o.join m.root agent) e), s)
  acquire m agent branch now (inr holder) none stuck (t, d) =
      let l = lease_for m agent branch holder in
      let (claimed, t') = claim m l now t in
      let (r, d') = materialise m l d in
      if not claimed
      then (inl leased, (t', d))
      else elim r [ none ↦ (inr l, (t', d')) | some e ↦ (inl e, (rollback stuck l.path t', d')) ]

  -- `Release`: the row first, then the worktree.
  unfoldable pub release : Manager → Lease → Option String → Table × D → Option Fault × (Table × D)
  release m l (some e) s = (some (failed l.path e), s)
  release m l none (t, d) =
      let (done, t') = drop_row l t in
      let (r, d') = worktree_remove m.repo l.path d in
      if not done then (some (lease_lost l.path), (t', d)) else (r, (t', d'))
