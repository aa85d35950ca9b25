-- ===== src/Exec/Verdict.antt =====
-- The result of a check of signatures, as a method's value.
pub mod Kept
use bamboo.Prelude.{Bool, true, false}
use bamboo.Outcome.{Outcome, ok, err, fault, exit}
use bamboo.Exec.{Exec, pure, stop}

module _ {Object : Type 0} where
  -- An error of the check counts as a failure.
  abbrev pub verdict : Outcome Bool → Exec Object Bool
  verdict (ok b) = pure b
  verdict (err e) = pure false
  verdict (fault x) = stop x

  -- An error of the check ends the process: `log.Fatalf`.
  abbrev pub verdict_or_exit : Outcome Bool → Exec Object Bool
  verdict_or_exit (ok b) = pure b
  verdict_or_exit (err e) = stop exit
  verdict_or_exit (fault x) = stop x
