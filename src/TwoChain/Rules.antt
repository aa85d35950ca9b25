-- ===== src/TwoChain/Rules.antt =====
-- The rule for two consecutive views.
use bamboo.Prelude.{◌+◌, Option, none, some, ◌==◌, if◌then◌else◌}
use bamboo.Outcome.{Outcome, ok, ◌>>=◌}
use bamboo.Types.{Qc, Block}
use bamboo.Blockchain.Chain.{get_parent_block}
use bamboo.TwoChain.State.{TwoChain}

-- `commitRule`, for the certificate of the proposal.
unfoldable pub commit_rule : Qc → TwoChain → Outcome (Option Block)
commit_rule qc s = do
  p ← get_parent_block s.bc qc.block_id
  ok (if p.view + 1 == qc.view then some p else none)
