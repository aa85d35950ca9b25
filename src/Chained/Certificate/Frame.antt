-- ===== src/Chained/Certificate/Frame.antt =====
-- What the two updates of a certificate leave alone.
use bamboo.Prelude.{◌≡◌, arith}
use bamboo.Types.{View, Qc}
use bamboo.Chained.State.{Chained}
use bamboo.Chained.Certificate.{update_high_qc, raise_preferred_view}

module _ {Own : Type 0} where
  pub bc-update_high_qc : (qc : Qc) (s : Chained Own) → (update_high_qc qc s).bc ≡ s.bc
  unfolding update_high_qc
  bc-update_high_qc qc s = ground arith

  pub committed_blocks-update_high_qc :
      (qc : Qc) (s : Chained Own) → (update_high_qc qc s).committed_blocks ≡ s.committed_blocks
  unfolding update_high_qc
  committed_blocks-update_high_qc qc s = ground arith

  pub raise_preferred_view-frame :
      (v : View) (s : Chained Own)
      → ((raise_preferred_view v s).bc ≡ s.bc)
        × ((raise_preferred_view v s).committed_blocks ≡ s.committed_blocks)
  unfolding raise_preferred_view
  raise_preferred_view-frame v s = (ground arith, ground arith)
