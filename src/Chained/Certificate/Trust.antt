-- ===== src/Chained/Certificate/Trust.antt =====
-- When a certificate is trusted.
use bamboo.Prelude.{◌≡◌, refl, ◌⊎◌, inl, inr, Bool, true, false, ◌==◌, Bool-cases, ==_iff}
use bamboo.Outcome.{Outcome, ok, err, fault, Fault}
use bamboo.Types.{Qc}
use bamboo.Crypto.{verify_quorum_signature}
use bamboo.Exec.{◌>>=◌}
use bamboo.Chained.State.{Env, Chained}
use bamboo.Chained.Certificate.{is_trusted, verdict}

-- Whether `processCertificate` goes on: the certificate names the replica as its leader, or every
-- signature was accepted.
abbrev pub Accepted : Env → Qc → Type 0
Accepted env qc =
    (qc.leader ≡ env.id)
    ⊎ (verify_quorum_signature env.keys qc.agg_sig qc.block_id qc.signers ≡ ok true)

pub is_trusted_cases :
    {Own : Type 0} (env : Env) (qc : Qc) (s : Chained Own)
    → ((is_trusted env qc s ≡ (ok true, s)) × Accepted env qc)
      ⊎ (is_trusted env qc s ≡ (ok false, s))
      ⊎ ((x : Fault) × (is_trusted env qc s ≡ (fault x, s)))
unfolding is_trusted ◌>>=◌
is_trusted_cases env qc s = elim (Bool-cases (qc.leader == env.id)) [
  | inl own ↦ inl (rw own refl, inl ((==_iff qc.leader env.id).0 own))
  | inr other ↦
      rw other
        (verdict_cases (verify_quorum_signature env.keys qc.agg_sig qc.block_id qc.signers) refl)
]
  where
    verdict_cases :
        (o : Outcome Bool)
        → verify_quorum_signature env.keys qc.agg_sig qc.block_id qc.signers ≡ o
        → ((verdict o s ≡ (ok true, s)) × Accepted env qc)
          ⊎ (verdict o s ≡ (ok false, s))
          ⊎ ((x : Fault) × (verdict o s ≡ (fault x, s)))
    verdict_cases (ok true) e = inl (refl, inr e)
    verdict_cases (ok false) e = inr (inl refl)
    verdict_cases (err x) e = inr (inl refl)
    verdict_cases (fault x) e = inr (inr (x, refl))
