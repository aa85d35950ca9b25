-- ===== src/Blockchain/Chain/Levelled.antt =====
-- The levels of the forest after a commit.
use bamboo.Prelude.{ℕ, ◌≡◌, List}
use bamboo.Outcome.{ok}
use bamboo.Types.{View, Identifier, Block}
use bamboo.Blockchain.Forest.Invariant.{IsValid}
use bamboo.Blockchain.Forest.Levels.{IsLevelled}
use bamboo.Blockchain.Forest.Prune.Levelled.{Pruned-IsLevelled}
use bamboo.Blockchain.Chain.{BlockChain, commit_block}
use bamboo.Blockchain.Chain.Once.{commit_block-Committed}

-- A commit that succeeds in a well-formed, levelled forest leaves it well formed and levelled: every
-- block stands on the level of its view, above its parent's.
pub commit_block-IsLevelled :
    (fuel : ℕ) (id : Identifier) (view : View) (bc bc' : BlockChain) (blocks forked : List Block)
    → IsValid bc.forrest
    → IsLevelled bc.forrest
    → commit_block fuel id view bc ≡ (ok (blocks, forked), bc')
    → IsValid bc'.forrest × IsLevelled bc'.forrest
commit_block-IsLevelled fuel id view bc bc' blocks forked v h e =
    let (b, at, c) = commit_block-Committed fuel id view bc bc' blocks forked v e in
    (c.pruned.valid, Pruned-IsLevelled bc.forrest bc'.forrest b.view c.pruned h)
