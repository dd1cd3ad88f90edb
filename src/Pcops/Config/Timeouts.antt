-- ===== src/Pcops/Config/Timeouts.antt =====
-- The timeouts that `validate` compares and those that the two sides use (internal/pcops).
use parallel_consciousness.Prelude.{◌+◌, ◌*◌, ◌≡◌, none, arith, if◌then◌else◌}
use parallel_consciousness.Prelude.Int.{ℤ, pos, negsuc, leb_ℤ, ◌<ℤ◌}
use parallel_consciousness.Pcops.Config.{
  Config, validate, effective_runner_timeout, effective_submit_timeout, default_runner_timeout,
  default_submit_timeout, minute,
}
use parallel_consciousness.Pcops.Config.Valid.{Valid, validate_exact}

-- A valid scenario with a positive runner timeout leaves a submit more time than a round can take,
-- with the defaults that the two sides put in for the values that they are given.
pub effective_timeouts :
    (c : Config)
    → validate c ≡ none
    → pos 0 <ℤ c.runner_timeout
    → effective_runner_timeout c <ℤ effective_submit_timeout c
unfolding effective_runner_timeout effective_submit_timeout
effective_timeouts c e p =
    longer c.runner_timeout c.submit_timeout p ((validate_exact c).0 e).timeouts
  where
    longer :
        (r s : ℤ)
        → pos 0 <ℤ r
        → r <ℤ s
        → (if leb_ℤ r (pos 0) then default_runner_timeout else r)
          <ℤ (if leb_ℤ s (pos 0) then default_submit_timeout else s)
    longer (pos r) (pos s) p q = ground arith
    longer (pos r) (negsuc s) p q = ground arith
    longer (negsuc r) s p q = ground arith

-- A scenario whose runner timeout is zero or negative is accepted with any longer submit timeout, but
-- the coordinator and the runner then wait ten minutes: with a positive submit timeout of at most ten
-- minutes, the submit's time does not exceed the round's, as `validate` means to ensure.
pub unset_runner_timeout :
    (c : Config)
    → Valid c
    → c.runner_timeout <ℤ pos 1
    → pos 0 <ℤ c.submit_timeout
    → c.submit_timeout <ℤ pos (10 * minute + 1)
    → (validate c ≡ none) × ¬ (effective_runner_timeout c <ℤ effective_submit_timeout c)
unfolding effective_runner_timeout effective_submit_timeout
unset_runner_timeout c v r s t =
    ((validate_exact c).1 v, λ l. shorter c.runner_timeout c.submit_timeout r s t l)
  where
    shorter :
        (r s : ℤ)
        → r <ℤ pos 1
        → pos 0 <ℤ s
        → s <ℤ pos (10 * minute + 1)
        → ¬ (
            (if leb_ℤ r (pos 0) then default_runner_timeout else r)
            <ℤ (if leb_ℤ s (pos 0) then default_submit_timeout else s))
    shorter (pos r) (pos s) p q t l = ground arith
    shorter (pos r) (negsuc s) p q t l = ground arith
    shorter (negsuc r) (pos s) p q t l = ground arith
    shorter (negsuc r) (negsuc s) p q t l = ground arith
