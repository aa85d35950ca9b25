-- ===== src/TwoChain/Tests.antt =====
-- The theorem on commits, for the blocks of the views 1, 2 and 3 and a proposal of view 4.
use bamboo.Prelude.{◌≡◌, ◌⊎◌, List, ◌++◌}
use bamboo.Types.{Block}
use bamboo.Blockchain.Chain.{new_blockchain}
use bamboo.Blockchain.Chain.Heightest.{heightest, flag_committed}
use bamboo.Blockchain.Samples.{sample_qc, sample_block, forest_3, forest_3-IsValid}
use bamboo.Chained.Samples.{sample_env}
use bamboo.TwoChain.State.{TwoChain, new_two_chain}
use bamboo.TwoChain.Commit.{try_commit}
use bamboo.TwoChain.Commit.Safety.{CommittedBy, try_commit-Grown}

abbrev three_known : TwoChain
three_known = record (new_two_chain 4) { bc = record (new_blockchain 4) { forrest = forest_3 } }

abbrev block_4 : Block
block_4 = sample_block 4 14 3 13

try_commit-Grown_example :
    ((try_commit sample_env (sample_qc 3 13) block_4 three_known).1.committed_blocks
      ≡ three_known.committed_blocks)
    ⊎ ((blocks : List Block) × ((try_commit sample_env
            (sample_qc 3 13)
            block_4
            three_known).1.committed_blocks
          ≡ three_known.committed_blocks ++ flag_committed (heightest blocks) blocks)
        × CommittedBy three_known.bc (sample_qc 3 13) block_4 blocks)
try_commit-Grown_example =
    try_commit-Grown sample_env (sample_qc 3 13) block_4 three_known forest_3-IsValid
