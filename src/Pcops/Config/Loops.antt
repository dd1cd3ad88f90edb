-- ===== src/Pcops/Config/Loops.antt =====
-- The loops of `Config.validate` (internal/pcops/config.go), said without their accumulators.
use parallel_consciousness.Prelude.{
  String, eq_iff, ◌≡◌, ◌≢◌, ◌↔◌, refl, true, false, ◌||◌, none, List, [], ◌∷◌, ◌++◌, map, arith,
  contains, Distinct, inl, All,
}
use parallel_consciousness.Pcops.Config.{Config, AgentDef, check_agents, check_required}

abbrev pub participants : Config → List AgentDef
participants c = c.agents ++ c.runner ∷ []

abbrev pub names_of : List AgentDef → List String
names_of = map λ a. a.name

abbrev pub branches_of : List AgentDef → List String
branches_of = map λ a. a.branch

-- No entry of the second list stands in the first.
abbrev pub Apart : List String → List String → Type 0
Apart seen = All λ x. contains seen x ≡ false

-- Every entry of the second list stands in the first.
abbrev pub Known : List String → List String → Type 0
Known names = All λ x. contains names x ≡ true

-- Every participant has a name and a branch.
abbrev pub Complete : List AgentDef → Type 0
Complete = All λ a. (a.name ≢ "") × (a.branch ≢ "")

pub Apart-cons :
    (n : String) (seen xs : List String)
    → Apart (n ∷ seen) xs
    → Apart seen xs × (contains xs n ≡ false)
unfolding contains
Apart-cons n seen [] h = (tt, refl)
Apart-cons n seen (x ∷ xs) h = ground (arith, eq_iff n x, eq_iff x n, Apart-cons n seen xs h.1)

pub cons-Apart :
    (n : String) (seen xs : List String)
    → Apart seen xs
    → contains xs n ≡ false
    → Apart (n ∷ seen) xs
unfolding contains
cons-Apart n seen [] h e = tt
cons-Apart n seen (x ∷ xs) h e = ground (arith, eq_iff n x, eq_iff x n, cons-Apart n seen xs h.1)

pub nil-Apart : (xs : List String) → Apart [] xs
unfolding contains
nil-Apart [] = tt
nil-Apart (x ∷ xs) = (refl, nil-Apart xs)

-- What the loop over the participants establishes.
pub record Checked (names branches : List String) (xs : List AgentDef) : Type 0 where
  pub complete : Complete xs
  pub names_distinct : Distinct (names_of xs)
  pub names_apart : Apart names (names_of xs)
  pub branches_distinct : Distinct (branches_of xs)
  pub branches_apart : Apart branches (branches_of xs)

pub check_agents-Checked :
    (names branches : List String) (xs : List AgentDef) (ns : List String)
    → check_agents names branches xs ≡ inl ns
    → Checked names branches xs
unfolding check_agents
check_agents-Checked names branches [] ns e = record {
  complete = tt;
  names_distinct = tt;
  names_apart = tt;
  branches_distinct = tt;
  branches_apart = tt;
}
check_agents-Checked names branches (a ∷ xs) ns e = ground (
  arith,
  eq_iff a.name "",
  eq_iff a.branch "",
  check_agents-Checked (a.name ∷ names) (a.branch ∷ branches) xs ns,
  Apart-cons a.name names (names_of xs),
  Apart-cons a.branch branches (branches_of xs),
)

-- The names that the loop has seen in the end.
pub collect : List String → List AgentDef → List String
collect names [] = names
collect names (a ∷ xs) = collect (a.name ∷ names) xs

pub check_agents-collect :
    (names branches : List String) (xs : List AgentDef) (ns : List String)
    → check_agents names branches xs ≡ inl ns
    → ns ≡ collect names xs
unfolding check_agents collect
check_agents-collect names branches [] ns e = ground arith
check_agents-collect names branches (a ∷ xs) ns e =
    ground (arith, check_agents-collect (a.name ∷ names) (a.branch ∷ branches) xs ns)

pub Checked-check_agents :
    (names branches : List String) (xs : List AgentDef)
    → Checked names branches xs
    → check_agents names branches xs ≡ inl (collect names xs)
unfolding check_agents collect
Checked-check_agents names branches [] c = refl
Checked-check_agents names branches (a ∷ xs) c = ground (
  arith,
  eq_iff a.name "",
  eq_iff a.branch "",
  c.complete,
  Checked-check_agents (a.name ∷ names) (a.branch ∷ branches) xs,
  cons-Apart a.name names (names_of xs),
  cons-Apart a.branch branches (branches_of xs),
)

pub contains-collect :
    (names : List String) (xs : List AgentDef) (x : String)
    → contains (collect names xs) x ≡ contains names x || contains (names_of xs) x
unfolding collect contains
contains-collect names [] x = ground arith
contains-collect names (a ∷ xs) x = ground (arith, contains-collect (a.name ∷ names) xs x)

pub Known-collect :
    (xs : List AgentDef) (required : List String)
    → Known (collect [] xs) required ↔ Known (names_of xs) required
unfolding contains
Known-collect xs [] = (λ h. h, λ h. h)
Known-collect xs (r ∷ rs) = (
  λ h. (ground (arith, contains-collect [] xs r, h.0), (Known-collect xs rs).0 h.1),
  λ h. (ground (arith, contains-collect [] xs r, h.0), (Known-collect xs rs).1 h.1),
)

pub check_required_sound :
    (names seen required : List String)
    → check_required names seen required ≡ none
    → Known names required × Distinct required × Apart seen required
unfolding check_required
check_required_sound names seen [] e = (tt, tt, tt)
check_required_sound names seen (r ∷ rs) e =
    ground (arith, check_required_sound names (r ∷ seen) rs, Apart-cons r seen rs)

pub check_required_complete :
    (names seen required : List String)
    → Known names required
    → Distinct required
    → Apart seen required
    → check_required names seen required ≡ none
unfolding check_required
check_required_complete names seen [] k d a = refl
check_required_complete names seen (r ∷ rs) k d a =
    ground (arith, check_required_complete names (r ∷ seen) rs k.1 d.1, cons-Apart r seen rs a.1)
