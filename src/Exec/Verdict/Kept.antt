-- ===== src/Exec/Verdict/Kept.antt =====
-- A verdict writes nothing.
use bamboo.Prelude.{Bool, false}
use bamboo.Outcome.{Outcome, ok, err, fault}
use bamboo.Exec.Keeps.{Keeps, Keeps-pure, Keeps-stop}
use bamboo.Exec.Verdict.{verdict, verdict_or_exit}

module _ {Object : Type 0} (P : Object → Type 0) where
  pub verdict-Keeps : (o : Outcome Bool) → Keeps P (verdict o)
  verdict-Keeps (ok b) = Keeps-pure b
  verdict-Keeps (err e) = Keeps-pure false
  verdict-Keeps (fault x) = Keeps-stop x

  pub verdict_or_exit-Keeps : (o : Outcome Bool) → Keeps P (verdict_or_exit o)
  verdict_or_exit-Keeps (ok b) = Keeps-pure b
  verdict_or_exit-Keeps (err e) = Keeps-stop _
  verdict_or_exit-Keeps (fault x) = Keeps-stop x
