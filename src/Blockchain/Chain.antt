-- ===== src/Blockchain/Chain.antt =====
-- blockchain/blockchain.go: the chain over the forest and the quorum. `longestTailBlock`, which
-- nothing reads or writes, and the two ratios of floats for the status line are left out.
pub mod Commit
pub mod Once
pub mod Validity
pub mod Levelled
pub mod Heightest
pub mod Tests
use bamboo.Prelude.{
  ℕ, zero, suc, ◌+◌, Bool, Option, none, some, List, [], ◌∷◌, ltb, if◌then◌else◌, ℤ, pos, sub_ℕ,
  ◌+ℤ◌,
}
use bamboo.Outcome.{
  Outcome, ok, err, fault, block_missing, parent_missing, cannot_prune, out_of_fuel, ◌>>=◌,
}
use bamboo.Types.{View, Identifier, Block, Vote, Qc}
use bamboo.Blockchain.Block.{parent}
use bamboo.Blockchain.Forest.{Forest, new_forest, has_vertex, get_vertex, add_vertex}
use bamboo.Blockchain.Forest.Prune.{Sweep, prune_up_to_level}
use bamboo.Blockchain.Quorum.{Quorum, new_quorum, add, forget_votes}

pub record BlockChain : Type 0 where
  pub forrest : Forest
  pub quorum : Quorum
  pub highest_comitted : ℕ
  pub committed_block_no : ℕ
  pub total_block_intervals : ℤ
  pub pruned_block_no : ℕ

unfoldable pub new_blockchain : ℕ → BlockChain
new_blockchain n = record {
  forrest = new_forest;
  quorum = new_quorum n;
  highest_comitted = 0;
  committed_block_no = 0;
  total_block_intervals = pos 0;
  pruned_block_no = 0;
}

pub exists : BlockChain → Identifier → Bool
exists bc id = has_vertex bc.forrest id

pub add_block : Block → BlockChain → Outcome BlockChain
add_block block bc = do f ← add_vertex block bc.forrest; ok (record bc { forrest = f })

pub add_vote : ℕ → Vote → BlockChain → Option Qc × BlockChain
add_vote byz_no vote bc = let (qc, q) = add byz_no bc.quorum vote in (qc, record bc { quorum = q })

abbrev pub or_missing : Option Block → Identifier → Outcome Block
or_missing none id = err (block_missing id)
or_missing (some b) id = ok b

abbrev pub or_parent_missing : Option Block → Identifier → Outcome Block
or_parent_missing none id = err (parent_missing id)
or_parent_missing (some b) id = ok b

unfoldable pub get_block_by_id : BlockChain → Identifier → Outcome Block
get_block_by_id bc id = or_missing (get_vertex bc.forrest id) id

-- `Parent()` of the block's vertex reads its certificate, which may be nil.
pub get_parent_block : BlockChain → Identifier → Outcome Block
get_parent_block bc id = do
  vertex ← or_missing (get_vertex bc.forrest id) id
  p ← parent vertex
  or_parent_missing (get_vertex bc.forrest p.id) p.id

pub get_grand_parent_block : BlockChain → Identifier → Outcome Block
unfolding get_parent_block
get_grand_parent_block bc id = do p ← get_parent_block bc id; get_parent_block bc p.id

-- One round of the commit loop.
commit_one : View → Block → BlockChain → BlockChain
commit_one view block bc = record bc {
  quorum = forget_votes block.id bc.quorum;
  committed_block_no = bc.committed_block_no + 1;
  total_block_intervals = bc.total_block_intervals +ℤ sub_ℕ view block.view;
}

-- The commit loop, from a block down its parents: the blocks above the lowest level.
pub walk : ℕ → View → Block → BlockChain → Outcome (List Block × BlockChain)
unfolding commit_one
walk zero view block bc = fault out_of_fuel
walk (suc fuel) view block bc =
    let bc' = commit_one view block bc in
    let next = λ (b : Block). walk fuel view b bc' in
    if ltb bc.forrest.lowest_level block.view
    then (do
      (blocks, bc'') ← elim (get_vertex bc.forrest block.prev_id) [
        | none ↦ ok ([], bc')
        | some b ↦ next b
      ]
      ok (block ∷ blocks, bc''))
    else ok ([], bc)

abbrev pub Commits : Type 0
Commits = Outcome (List Block × List Block)

-- A pruning error keeps what the walk changed.
finish_commit : List Block → BlockChain → Outcome Sweep → Commits × BlockChain
finish_commit blocks bc (ok s) = (
  ok (blocks, s.forked),
  record bc { forrest = s.forest; pruned_block_no = bc.pruned_block_no + s.pruned },
)
finish_commit blocks bc (err e) = (err (cannot_prune e), bc)
finish_commit blocks bc (fault x) = (fault x, bc)

prune_after_walk : ℕ → View → BlockChain → Outcome (List Block × BlockChain) → Commits × BlockChain
prune_after_walk fuel level bc (ok (blocks, walked)) =
    finish_commit blocks walked (prune_up_to_level fuel level walked.forrest)
prune_after_walk fuel level bc (err e) = (err e, bc)
prune_after_walk fuel level bc (fault x) = (fault x, bc)

commit_vertex : ℕ → Identifier → View → BlockChain → Option Block → Commits × BlockChain
commit_vertex fuel id view bc none = (err (block_missing id), bc)
commit_vertex fuel id view bc (some vertex) =
    prune_after_walk fuel vertex.view bc
      (walk fuel view vertex (record bc { highest_comitted = vertex.view }))

-- `CommitBlock`: the committed blocks, newest first, and the forked ones.
pub commit_block : ℕ → Identifier → View → BlockChain → Commits × BlockChain
commit_block fuel id view bc = commit_vertex fuel id view bc (get_vertex bc.forrest id)
