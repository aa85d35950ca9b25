-- ===== src/Exec.antt =====
-- Methods that change an object, may return an error and may panic: what was written before the
-- error stays written, so the state comes back beside every outcome.
pub mod Keeps
pub mod Verdict
use bamboo.Prelude.{Bool, if◌then◌else◌}
use bamboo.Outcome.{Outcome, ok, err, fault, Error, Fault}

abbrev pub Exec : Type 0 → Type 0 → Type 0
Exec Object Value = Object → Outcome Value × Object

abbrev forget : {Value : Type 0} → Outcome Value → Outcome (Unit {0})
forget (fault x) = fault x
forget (err e) = ok tt
forget (ok v) = ok tt

module _ {Object Value : Type 0} where
  -- A panic, an error, a value; what the object says, and what it says or why it cannot.
  pub stop : Fault → Exec Object Value
  stop x o = (fault x, o)

  pub raise : Error → Exec Object Value
  raise e o = (err e, o)

  pub pure : Value → Exec Object Value
  pure v o = (ok v, o)

  pub reads : (Object → Outcome Value) → Exec Object Value
  reads look o = (look o, o)

  pub gets : (Object → Value) → Exec Object Value
  gets look o = (ok (look o), o)

  -- A call whose result and error are dropped.
  pub ignore : Exec Object Value → Exec Object (Unit {0})
  ignore call o = let (end, o') = call o in (forget end, o')

module _ {Object : Type 0} where
  pub modify : (Object → Object) → Exec Object (Unit {0})
  modify change o = (ok tt, change o)

  unfoldable pub skip : Exec Object (Unit {0})
  skip o = (ok tt, o)

module _ {Object Value Next : Type 0} where
  -- Only a value goes on; an error and a panic end the method.
  abbrev resume : (Value → Exec Object Next) → Outcome Value → Exec Object Next
  resume next (fault x) o = (fault x, o)
  resume next (err e) o = (err e, o)
  resume next (ok v) o = next v o

  infixl 10 ◌>>=◌ ◌>>◌
  unfoldable pub ◌>>=◌ : Exec Object Value → (Value → Exec Object Next) → Exec Object Next
  unfolding stop raise pure reads gets ignore modify skip
  ◌>>=◌ call next o = let (end, o') = call o in resume next end o'

  abbrev pub ◌>>◌ : Exec Object Value → Exec Object Next → Exec Object Next
  call >> after = call >>= λ _. after
