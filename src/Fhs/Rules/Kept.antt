-- ===== src/Fhs/Rules/Kept.antt =====
-- The preferred view of Fast-HotStuff keeps what is stable.
use bamboo.Prelude.{◌≡◌, ltb, Bool-cases, inl, inr}
use bamboo.Outcome.{ok, >>=-eq-ok, ok-injective}
use bamboo.Types.{Qc}
use bamboo.Blockchain.Chain.{get_block_by_id}
use bamboo.Chained.State.{Env}
use bamboo.Chained.Stable.{Property, Holds, Stable}
use bamboo.Chained.Certificate.Kept.{raise_preferred_view-Holds}
use bamboo.Fhs.Rules.{Fhs, update_preferred_view}

module _ (env : Env) (P : Property) (stable : Stable env P) where
  pub update_preferred_view-Holds :
      (qc : Qc) (s s' : Fhs) → update_preferred_view qc s ≡ ok s' → Holds P s → Holds P s'
  unfolding update_preferred_view
  update_preferred_view-Holds qc s s' e h = elim (Bool-cases (ltb qc.view 2)) [
    | inl early ↦ let same : ok s ≡ ok s' = rw early at e in rw (← ok-injective same) h
    | inr low ↦
        let (b, _, done) = >>=-eq-ok (get_block_by_id s.bc qc.block_id) _ (rw low at e) in
        rw (← ok-injective done) (raise_preferred_view-Holds env P stable qc.view s h)
  ]
