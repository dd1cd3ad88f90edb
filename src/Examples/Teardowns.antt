-- ===== src/Examples/Teardowns.antt =====
-- A scenario whose second session does not start, and a lease that is lost (internal/pcops/run.go).
use parallel_consciousness.Prelude.{
  ℕ, ◌≤◌, String, ◌≡◌, refl, true, false, Option, none, some, List, [], ◌∷◌, ◌++◌, arith, ◌==◌,
}
use parallel_consciousness.Dict.{lookup}
use parallel_consciousness.Workspace.{Lease, Row, Table, Fault, claim, owns, new}
use parallel_consciousness.Pcops.Run.Setup.{session, Failing}
use parallel_consciousness.Pcops.Run.Sessions.{
  heartbeat_lease, is_loss, loss_reported, two_ticks_to_spare,
}

abbrev second_fails : Failing
second_fails (session a) = a == "gateway"
second_fails r = false

abbrev mine : Lease
mine = record { path = "trees/billing"; agent = "billing"; branch = "b"; holder = "first" }

abbrev row : Row
row = record { agent = "billing"; branch = "b"; holder = "first"; heartbeat_at = 1000 }

abbrev held : Table
held = ("trees/billing", row) ∷ []

-- One renewal, one that fails, and then the row is gone.
abbrev early : List (ℕ × Option String × Table)
early = (11000, none, held) ∷ (21000, some "busy", held) ∷ []

loss_reported_example :
    (e : Fault) × (k : ℕ) × (heartbeat_lease mine (early ++ (31000, none, []) ∷ []) ≡ (some e, k))
    × (is_loss e ≡ true)
    × (k ≤ 2)
unfolding owns lookup
loss_reported_example = loss_reported mine early [] 31000 [] refl

two_ticks_to_spare_example : claim (new "repo" "trees") mine 31000 held ≡ (false, held)
unfolding new lookup
two_ticks_to_spare_example =
    two_ticks_to_spare (new "repo" "trees") mine row held 2 31000 refl refl (omega arith)
      (omega arith)
