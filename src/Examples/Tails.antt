-- ===== src/Examples/Tails.antt =====
-- A tail of a log of two messages, and of one with a row that does not decode
-- (pkg/bus/sqlite/history.go).
use parallel_consciousness.Prelude.{true, false, none, [], ◌∷◌, List, arith}
use parallel_consciousness.Bus.Sqlite.History.{Faults, tail, turns, stops}
use parallel_consciousness.Bus.Sqlite.History.Exact.{
  Follows, Moment, publishes, tails, pass_all, tail_exact,
}
use parallel_consciousness.Examples.Logs.{codec, log, note}

abbrev no_faults : Faults
no_faults = record { query = false; scan = λ i. false; iterate = false }

-- One record is sent, a message comes in, a read fails.
abbrev moments : List (Moment codec)
moments =
    tails (turns no_faults false 1)
    ∷ publishes note none
    ∷ tails (turns (record no_faults { iterate = true }) true 5)
    ∷ tails stops
    ∷ []

tail_exact_example :
    Follows codec 0
      (pass_all codec moments (tail 0, log)).0
      (pass_all codec moments (tail 0, log)).1
unfolding tail
tail_exact_example = tail_exact codec 0 moments (tail 0) log (record {
  ordered = (omega arith, (omega arith, tt));
  bounded = (omega arith, (omega arith, tt));
  started = omega arith;
  reached = omega arith;
  exact = tt;
})
