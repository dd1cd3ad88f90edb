-- ===== src/Examples/Leases.antt =====
-- One repository, one agent, two tokens (pkg/workspace).
use parallel_consciousness.Prelude.{
  String, ◌<>◌, ◌≡◌, ◌≢◌, refl, true, false, Bool, none, some, List, [], ◌∷◌, arith, contains, inl,
  inr, eq_iff, if◌then◌else◌, ◌⊎◌,
}
use parallel_consciousness.Dict.{lookup, insert, delete}
use parallel_consciousness.Workspace.{
  Row, Table, Manager, Lease, Fault, Outside, present, absent, lease_ttl, is_stale, owns, claim,
  rollback, drop_row, heartbeat, worktree_branch, materialise, lease_for, acquire, release,
  lease_lost,
}
use parallel_consciousness.Workspace.Fencing.{
  Call, acquires, heartbeats, reclaimed_fenced, perform_all,
}
use parallel_consciousness.Workspace.Races.{rollback_unfenced, release_race}

-- A disk with one directory that may exist; a worktree on it has the branch "work" checked out.
abbrev outside : Outside Bool
outside = record {
  git = λ args d.
      if contains args "add"
      then ((none, ""), true)
      else if contains args "remove"
      then ((none, ""), false)
      else ((none, "work"), d);
  stat = λ path d. if d then present else absent;
  join = λ root agent. root <> "/" <> agent;
  trim_space = λ s. s;
}

abbrev manager : Manager
manager = record { repo = "repo"; root = "trees"; ttl = 30 }

abbrev path : String
path = "trees/billing"

abbrev row : Row
row = record { agent = "billing"; branch = "work"; holder = "first"; heartbeat_at = 100 }

abbrev table : Table
table = (path, row) ∷ []

abbrev first : Lease
first = record { agent = "billing"; path = path; branch = "work"; holder = "first" }

abbrev second : Lease
second = record { agent = "billing"; path = path; branch = "work"; holder = "second" }

abbrev taken_row : Row
taken_row = record { agent = "billing"; branch = "work"; holder = "second"; heartbeat_at = 200 }

abbrev taken : Table
taken = (path, taken_row) ∷ []

second_first : ◌≢◌ {A = String} "second" "first"
second_first e = ground (arith, eq_iff "second" "first", e)

third_first : (e : ◌≡◌ {A = String ⊎ String} (inr "third") (inr "first")) → ⊥
third_first e = ground (arith, eq_iff "third" "first", e)

reclaims :
    acquire outside manager "billing" "work" 200 (inr "second") none false (table, true)
    ≡ (inr second, (taken, true))
unfolding acquire lease_for claim is_stale lease_ttl materialise worktree_branch lookup insert
    contains
reclaims = refl

-- Another branch is asked for than the one on the disk.
refuses :
    acquire outside manager "billing" "other" 200 (inr "second") none false (table, true)
    ≡ (inl (Fault.conflict "billing" path "work" "other"), ([], true))
unfolding acquire lease_for claim rollback is_stale lease_ttl materialise worktree_branch lookup
    insert delete contains
refuses = refl

-- The new holder renews, and someone else asks for the workspace.
abbrev later_calls : List Call
later_calls =
    heartbeats second 210 none ∷ acquires manager "billing" "work" 220 (inr "third") none false ∷ []

reclaimed_fenced_example :
    let s = perform_all outside later_calls (taken, true) in
    (heartbeat first 230 none s.0 ≡ (some (lease_lost path), s.0))
    × (release outside manager first none s ≡ (some (lease_lost path), s))
reclaimed_fenced_example =
    reclaimed_fenced outside first second manager "billing" "work" 200 (inr "second") none false
      (table, true) taken true later_calls reclaims refl second_first
      (second_first, (third_first, tt)) 230

rollback_unfenced_example :
    ((claim manager second 140 (claim manager first 100 []).1).0 ≡ true)
    × (let t = rollback false path (claim manager second 140 (claim manager first 100 []).1).1 in
        heartbeat second 150 none t ≡ (some (lease_lost path), t))
unfolding claim lookup
rollback_unfenced_example =
    rollback_unfenced manager first second 100 140 [] 150 refl refl (omega arith)

release_race_example :
    let t = (drop_row first table).1 in
    let k = lease_for outside manager "billing" "work" "second" in
    (k.path ≡ path)
    × (acquire outside manager "billing" "work" 110 (inr "second") none false (t, true)
        ≡ (inr k, ((claim manager k 110 t).1, true)))
    × ((heartbeat k 120 none (claim manager k 110 t).1).0 ≡ none)
unfolding owns worktree_branch contains lookup
release_race_example =
    release_race outside manager first "billing" "work" "second" 110 120 table true true refl refl
      refl refl
