-- ===== src/Notarized/Tests.antt =====
-- The theorems on the notarized chain, with the blocks of the views 1, 2 and 3.
use bamboo.Prelude.{◌≡◌, refl, ◌⊎◌, some, List, [], ◌∷◌, ◌++◌}
use bamboo.Outcome.{ok, fault, index_range}
use bamboo.Types.{Block}
use bamboo.Blockchain.Chain.{new_blockchain, get_block_by_id}
use bamboo.Blockchain.Chain.Heightest.{heightest, flag_committed}
use bamboo.Blockchain.Samples.{
  sample_qc, sample_block, block_1, block_2, block_3, forest_2, forest_2-block_2, forest_3,
  forest_3-IsValid,
}
use bamboo.Notarized.State.{Notarized, new_notarized}
use bamboo.Notarized.Samples.{sample_env}
use bamboo.Notarized.Chain.{notarize, update_notarized_chain, commit_rule}
use bamboo.Notarized.Chain.Errors.{answer, update_notarized_chain_lem}
use bamboo.Notarized.Certificate.{settle}
use bamboo.Notarized.Certificate.Safety.{CommittedBy, settle-Grown}
use bamboo.Streamlet.Replica.{variant}

abbrev three_notarized : Notarized
three_notarized = record (new_notarized 4) {
  bc = record (new_blockchain 4) { forrest = forest_3 };
  notarized_chain = (block_3 ∷ []) ∷ (block_2 ∷ []) ∷ (block_1 ∷ []) ∷ [];
}

settle-Grown_example :
    ((settle sample_env (variant sample_env) (sample_qc 3 13) three_notarized).1.committed_blocks
      ≡ three_notarized.committed_blocks)
    ⊎ ((blocks : List Block) × ((settle sample_env
            (variant sample_env)
            (sample_qc 3 13)
            three_notarized).1.committed_blocks
          ≡ three_notarized.committed_blocks ++ flag_committed (heightest blocks) blocks)
        × CommittedBy three_notarized.bc three_notarized.notarized_chain blocks)
settle-Grown_example =
    settle-Grown sample_env (variant sample_env) (sample_qc 3 13) three_notarized forest_3-IsValid

-- The blocks of the views 1 and 2 are known, and the one notarized block is another one.
abbrev one_notarized : Notarized
one_notarized = record (new_notarized 4) {
  bc = record (new_blockchain 4) { forrest = forest_2 };
  notarized_chain = (sample_block 1 21 0 0 ∷ []) ∷ [];
}

one_notarized-block_2 : get_block_by_id one_notarized.bc 12 ≡ ok block_2
unfolding get_block_by_id
one_notarized-block_2 = rw forest_2-block_2 refl

update_notarized_chain_lem_example :
    update_notarized_chain (sample_qc 2 12) one_notarized
    ≡ answer (sample_qc 2 12) block_2 one_notarized
update_notarized_chain_lem_example =
    update_notarized_chain_lem (sample_qc 2 12) block_2 one_notarized one_notarized-block_2

-- It panics.
answered : answer (sample_qc 2 12) block_2 one_notarized ≡ (fault index_range, one_notarized)
answered = refl

-- Of the blocks of the views 2 and 3, which both extend the one of view 1, the first is committed.
abbrev sibling_3 : Block
sibling_3 = sample_block 3 23 1 11

notarized :
    notarize sibling_3 ((block_2 ∷ []) ∷ (block_1 ∷ []) ∷ [])
    ≡ ok (some ((sibling_3 ∷ []) ∷ (block_2 ∷ []) ∷ (block_1 ∷ []) ∷ []))
unfolding notarize
notarized = refl

chosen : commit_rule ((sibling_3 ∷ []) ∷ (block_2 ∷ []) ∷ (block_1 ∷ []) ∷ []) ≡ some block_2
unfolding commit_rule
chosen = refl
