-- ===== src/Exec/Keeps.antt =====
-- What a method keeps, however it ends: a rule for each way to build a method.
use bamboo.Prelude.{◌≡◌, refl, subst, Bool, true, false, if◌then◌else◌}
use bamboo.Outcome.{Outcome, ok, err, fault, Error, Fault}
use bamboo.Exec.{Exec, pure, raise, stop, gets, reads, ignore, modify, skip, ◌>>=◌}

pub record Keeps {Object Value : Type 0} (P : Object → Type 0) (call : Exec Object Value)
    : Type 0 where
  pub at : (o : Object) → P o → P (call o).1

module _ {Object Value : Type 0} {P : Object → Type 0} where
  -- A method that writes nothing keeps everything.
  untouched : (call : Exec Object Value) → ((o : Object) → o ≡ (call o).1) → Keeps P call
  untouched call same = record { at = λ o. subst P (same o) }

  pub Keeps-stop : (x : Fault) → Keeps P (stop {Value = Value} x)
  unfolding stop
  Keeps-stop x = untouched (stop x) λ o. refl

  pub Keeps-raise : (e : Error) → Keeps P (raise {Value = Value} e)
  unfolding raise
  Keeps-raise e = untouched (raise e) λ o. refl

  pub Keeps-pure : (v : Value) → Keeps P (pure v)
  unfolding pure
  Keeps-pure v = untouched (pure v) λ o. refl

  pub Keeps-reads : (look : Object → Outcome Value) → Keeps P (reads look)
  unfolding reads
  Keeps-reads look = untouched (reads look) λ o. refl

  pub Keeps-gets : (look : Object → Value) → Keeps P (gets look)
  unfolding gets
  Keeps-gets look = untouched (gets look) λ o. refl

  pub Keeps-ignore : (call : Exec Object Value) → Keeps P call → Keeps P (ignore call)
  unfolding ignore
  Keeps-ignore call kept = record { at = kept.at }

  pub Keeps-if :
      (test : Bool) (yes' no' : Exec Object Value)
      → Keeps P yes'
      → Keeps P no'
      → Keeps P (if test then yes' else no')
  Keeps-if true yes' no' kept _ = kept
  Keeps-if false yes' no' _ kept = kept

module _ {Object : Type 0} {P : Object → Type 0} where
  pub Keeps-skip : Keeps P skip
  unfolding skip
  Keeps-skip = untouched skip λ o. refl

  pub Keeps-modify :
      (change : Object → Object) → ((o : Object) → P o → P (change o)) → Keeps P (modify change)
  unfolding modify
  Keeps-modify change kept = record { at = kept }

module _ {Object Value Next : Type 0} {P : Object → Type 0} where
  -- The rest of a method, by how its first call ended.
  rest-keeps :
      (next : Value → Exec Object Next)
      → ((v : Value) → Keeps P (next v))
      → (end : Outcome Value) (o : Object) → P o
      → P ((reads (λ _. end) >>= next) o).1
  unfolding ◌>>=◌
  rest-keeps next kept (fault x) o h = h
  rest-keeps next kept (err e) o h = h
  rest-keeps next kept (ok v) o h = (kept v).at o h

  pub Keeps-bind :
      (call : Exec Object Value) (next : Value → Exec Object Next)
      → Keeps P call
      → ((v : Value) → Keeps P (next v))
      → Keeps P (call >>= next)
  unfolding ◌>>=◌
  Keeps-bind call next first kept = record {
    at = λ o h. let (end, o') = call o in rest-keeps next kept end o' (first.at o h);
  }
