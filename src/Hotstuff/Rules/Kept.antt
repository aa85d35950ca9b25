-- ===== src/Hotstuff/Rules/Kept.antt =====
-- The rules keep what is stable.
use bamboo.Prelude.{◌≡◌, leb, Bool-cases, inl, inr}
use bamboo.Outcome.{ok, >>=-eq-ok, ok-injective}
use bamboo.Types.{Qc}
use bamboo.Chained.State.{Env}
use bamboo.Hotstuff.State.{Hotstuff}
use bamboo.Chained.Certificate.Kept.{raise_preferred_view-Holds}
use bamboo.Chained.Stable.{Property, Holds, Stable}
use bamboo.Hotstuff.Rules.{preferred_by, update_preferred_view}

module _ (env : Env) (P : Property) (stable : Stable env P) where
  pub update_preferred_view-Holds :
      (qc : Qc) (s s' : Hotstuff) → update_preferred_view qc s ≡ ok s' → Holds P s → Holds P s'
  unfolding update_preferred_view
  update_preferred_view-Holds qc s s' e h = elim (Bool-cases (leb qc.view 2)) [
    | inl early ↦ let same : ok s ≡ ok s' = rw early at e in rw (← ok-injective same) h
    | inr low ↦
        let (v, _, done) = >>=-eq-ok (preferred_by qc s) _ (rw low at e) in
        rw (← ok-injective done) (raise_preferred_view-Holds env P stable v s h)
  ]
