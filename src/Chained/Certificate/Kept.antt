-- ===== src/Chained/Certificate/Kept.antt =====
-- Processing a certificate keeps what is stable.
use bamboo.Prelude.{◌≡◌, refl, ltb, ltb→lt, Bool-cases, inl, inr}
use bamboo.Outcome.{Outcome, ok, err, fault}
use bamboo.Types.{View, Qc}
use bamboo.Exec.{modify, ◌>>=◌}
use bamboo.Exec.Keeps.{Keeps, Keeps-modify, Keeps-bind, Keeps-if, Keeps-skip, Keeps-pure}
use bamboo.Exec.Verdict.Kept.{verdict-Keeps}
use bamboo.Chained.State.{Env, Chained, Handler}
use bamboo.Chained.Stable.{Property, Holds, Stable}
use bamboo.Chained.Certificate.{
  update_high_qc, raise_preferred_view, is_trusted, buffer_qc, preferred, certify,
}

module _ {Own : Type 0} (env : Env) (P : Property) (stable : Stable env P) where
  pub update_high_qc-Holds : (qc : Qc) (s : Chained Own) → Holds P s → Holds P (update_high_qc qc s)
  unfolding update_high_qc
  update_high_qc-Holds qc s h = elim (Bool-cases (ltb s.high_qc.view qc.view)) [
    | inl up ↦ rw up (stable.high qc (ltb→lt _ _ up) h)
    | inr low ↦ rw low h
  ]

  pub raise_preferred_view-Holds :
      (v : View) (s : Chained Own) → Holds P s → Holds P (raise_preferred_view v s)
  unfolding raise_preferred_view
  raise_preferred_view-Holds v s h = elim (Bool-cases (ltb s.preferred_view v)) [
    | inl up ↦ rw up (stable.prefer v (ltb→lt _ _ up) h)
    | inr low ↦ rw low h
  ]

  is_trusted-Keeps : (qc : Qc) → Keeps (Holds {Own = Own} P) (is_trusted env qc)
  unfolding is_trusted
  is_trusted-Keeps qc = Keeps-if _ _ _ (Keeps-pure _) (verdict-Keeps (Holds P) _)

  pub buffer_qc-Keeps : (qc : Qc) → Keeps (Holds {Own = Own} P) (modify (buffer_qc qc))
  unfolding buffer_qc
  buffer_qc-Keeps qc = Keeps-modify (buffer_qc qc) λ s h. h

  pub update_high_qc-Keeps : (qc : Qc) → Keeps (Holds {Own = Own} P) (modify (update_high_qc qc))
  update_high_qc-Keeps qc = Keeps-modify (update_high_qc qc) (update_high_qc-Holds qc)

  module _ (update : Qc → Chained Own → Outcome (Chained Own)) (settle : Qc → Handler Own)
      (update-Holds : (qc : Qc) (s s' : Chained Own) → update qc s ≡ ok s' → Holds P s → Holds P s')
      (settle-Keeps : (qc : Qc) → Keeps (Holds P) (settle qc)) where
    preferred-Holds :
        (qc : Qc) (s : Chained Own) (o : Outcome (Chained Own))
        → update qc s ≡ o
        → Holds P s
        → Holds P (preferred settle qc o s).1
    unfolding ◌>>=◌
    preferred-Holds qc s (ok s') e h = (settle-Keeps qc).at s' (update-Holds qc s s' e h)
    preferred-Holds qc s (err x) e h = (buffer_qc-Keeps qc).at s h
    preferred-Holds qc s (fault x) e h = h

    pub certify-Keeps : (qc : Qc) → Keeps (Holds P) (certify env update settle qc)
    unfolding certify
    certify-Keeps qc =
        Keeps-bind _ _ (is_trusted-Keeps qc)
          λ b. Keeps-if b _ _ (record { at = λ s h. preferred-Holds qc s _ refl h }) Keeps-skip
