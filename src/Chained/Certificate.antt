-- ===== src/Chained/Certificate.antt =====
-- What the chained protocols do with a certificate: the check of its signatures, the preferred view
-- and the highest certificate.
pub mod Kept
pub mod Trust
pub mod Frame
use bamboo.Prelude.{ℕ, Bool, true, false, Option, none, some, update, ltb, ◌==◌, if◌then◌else◌}
use bamboo.Outcome.{Outcome, ok, err, fault}
use bamboo.Types.{View, Qc}
use bamboo.Crypto.{verify_quorum_signature}
use bamboo.Exec.{Exec, pure, stop, modify, skip, ◌>>=◌, ◌>>◌}
use bamboo.Exec.Verdict.{verdict}
use bamboo.Chained.State.{Env, Chained, Handler}

module _ {Own : Type 0} where
  -- `updateHighQC`
  pub update_high_qc : Qc → Chained Own → Chained Own
  update_high_qc qc s = if ltb s.high_qc.view qc.view then record s { high_qc = qc } else s

  pub raise_preferred_view : View → Chained Own → Chained Own
  raise_preferred_view view s =
      if ltb s.preferred_view view then record s { preferred_view = view } else s

  -- A certificate of the replica's own needs no check.
  pub is_trusted : Env → Qc → Exec (Chained Own) Bool
  is_trusted env qc =
      if qc.leader == env.id
      then pure true
      else verdict (verify_quorum_signature env.keys qc.agg_sig qc.block_id qc.signers)

  unfoldable pub buffer_qc : Qc → Chained Own → Chained Own
  buffer_qc qc s = record s { buffered_qcs = update s.buffered_qcs qc.block_id (some qc) }

  -- After `updatePreferredView`: an error buffers the certificate.
  abbrev pub preferred : (Qc → Handler Own) → Qc → Outcome (Chained Own) → Handler Own
  preferred settle qc (ok s') = modify (λ _. s') >> settle qc
  preferred settle qc (err e) = modify (buffer_qc qc)
  preferred settle qc (fault x) = stop x

  -- `processCertificate`, with the protocol's `updatePreferredView` and what it does after it.
  unfoldable pub certify :
      Env → (Qc → Chained Own → Outcome (Chained Own)) → (Qc → Handler Own) → Qc → Handler Own
  certify env update_preferred settle qc = do
    trusted ← is_trusted env qc
    if trusted then (λ s. preferred settle qc (update_preferred qc s) s) else skip
