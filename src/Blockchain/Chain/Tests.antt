-- ===== src/Blockchain/Chain/Tests.antt =====
-- The theorems on commits: of a chain with the blocks of the views 1 and 2, the first is committed,
-- and then the second.
use bamboo.Prelude.{◌+◌, ◌<◌, ◌≡◌, ◌≢◌, refl, some, [], ◌∷◌, All, arith}
use bamboo.Outcome.{ok, fault, out_of_fuel}
use bamboo.Types.{Block}
use bamboo.Blockchain.Forest.{new_forest, add_vertex, get_vertex}
use bamboo.Blockchain.Forest.Invariant as Forest
use bamboo.Blockchain.Forest.Levels.{IsLevelled}
use bamboo.Blockchain.Forest.Prune.{
  prune_up_to_level, mark_committed, mark_round, first_at, parent_vertex, sweep, finish,
}
use bamboo.Blockchain.Chain.Levelled.{commit_block-IsLevelled}
use bamboo.Blockchain.Quorum.Votes.{new_quorum-IsValid}
use bamboo.Blockchain.Chain.{
  BlockChain, new_blockchain, walk, finish_commit, prune_after_walk, commit_vertex, commit_block,
  commit_one,
}
use bamboo.Blockchain.Chain.Commit.{Falling}
use bamboo.Blockchain.Chain.Once.{
  Committed, commit_block-Committed, commit_block_ends, commit_block_once, IsHead,
}
use bamboo.Blockchain.Chain.Validity.{IsValid, Follows, commit_block-Follows}
use bamboo.Blockchain.Samples.{
  block_1, block_2, forest_1, forest_2, forest_2-IsValid, forest_2-IsLevelled, forest_2-block_2,
}

abbrev chain_0 : BlockChain
chain_0 = record (new_blockchain 4) { forrest = forest_2 }

chain_0-IsValid : IsValid 1 chain_0
unfolding new_blockchain
chain_0-IsValid = record { forrest = forest_2-IsValid; quorum = new_quorum-IsValid 1 4 }

chain_1 : BlockChain
chain_1 = (commit_block 3 11 3 chain_0).1

chain_2 : BlockChain
chain_2 = (commit_block 3 12 4 chain_1).1

committed_1 : commit_block 3 11 3 chain_0 ≡ (ok (block_1 ∷ [], []), chain_1)
unfolding commit_block commit_vertex prune_after_walk walk commit_one finish_commit
    prune_up_to_level mark_committed mark_round first_at parent_vertex sweep finish forest_1
    forest_2 new_forest add_vertex get_vertex new_blockchain chain_1
committed_1 = refl

committed_2 : commit_block 3 12 4 chain_1 ≡ (ok (block_2 ∷ [], []), chain_2)
unfolding commit_block commit_vertex prune_after_walk walk commit_one finish_commit
    prune_up_to_level mark_committed mark_round first_at parent_vertex sweep finish forest_1
    forest_2 new_forest add_vertex get_vertex new_blockchain chain_1 chain_2
committed_2 = refl

commit_block-Committed_example :
    (b : Block) × (get_vertex chain_0.forrest 11 ≡ some b)
    × Committed chain_0 b (block_1 ∷ []) chain_1
commit_block-Committed_example =
    commit_block-Committed 3 11 3 chain_0 chain_1 (block_1 ∷ []) [] forest_2-IsValid committed_1

chain_1_sound : Forest.IsValid chain_1.forrest × IsLevelled chain_1.forrest
chain_1_sound =
    commit_block-IsLevelled 3 11 3 chain_0 chain_1 (block_1 ∷ []) [] forest_2-IsValid
      forest_2-IsLevelled committed_1

commit_block_ends_example : (commit_block 3 12 4 chain_0).0 ≢ fault out_of_fuel
commit_block_ends_example =
    commit_block_ends 3 12 4 chain_0 block_2 forest_2-IsValid forest_2-IsLevelled forest_2-block_2
      (omega arith)

commit_block_once_example :
    (b : Block) × (get_vertex chain_0.forrest 11 ≡ some b)
    × IsHead chain_0.forrest.lowest_level b (block_1 ∷ [])
    × Falling chain_0.forrest.lowest_level (b.view + 1) (block_1 ∷ [])
    × All (λ (c : Block). b.view < c.view) (block_2 ∷ [])
commit_block_once_example =
    commit_block_once 3 3 11 12 3 4 chain_0 chain_1 chain_1 chain_2 (block_1 ∷ []) (block_2 ∷ []) []
      [] forest_2-IsValid forest_2-IsLevelled chain_1_sound.0 chain_1_sound.1 committed_1
      (omega arith) committed_2

commit_block-Follows_example : Follows 1 chain_0 chain_1
unfolding chain_1
commit_block-Follows_example = commit_block-Follows 1 3 11 3 chain_0 chain_0-IsValid
