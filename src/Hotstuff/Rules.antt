-- ===== src/Hotstuff/Rules.antt =====
-- The rules of the protocol: which view is preferred, what to vote for, what to commit, and which
-- certificate to extend.
pub mod Kept
pub mod Consecutive
pub mod Proposed
use bamboo.Prelude.{
  ℕ, suc, ◌+◌, Bool, true, false, not, ◌&&◌, ◌||◌, Option, none, some, List, [], ◌∷◌, update, ltb,
  leb, ◌==◌, if◌then◌else◌, ℤ, pos, negsuc,
}
use bamboo.Outcome.{
  Outcome, ok, err, fault, try, deref, nil_pointer, no_vote_decision, no_commit, no_preferred_view,
  ◌>>=◌,
}
use bamboo.Types.{View, Identifier, NodeId, Qc, Block, Transaction}
use bamboo.Blockchain.Block.{make_block}
use bamboo.Blockchain.Forest.{Container, Forest}
use bamboo.Blockchain.Chain.{BlockChain, get_block_by_id, get_parent_block}
use bamboo.Chained.State.{Env}
use bamboo.Chained.Certificate.{raise_preferred_view}
use bamboo.Hotstuff.State.{Hotstuff}

-- `updatePreferredView`: what it reads, and what it writes.
preferred_by : Qc → Hotstuff → Outcome View
preferred_by qc hs = do
  b ← get_block_by_id hs.bc qc.block_id
  p ← get_parent_block hs.bc qc.block_id
  ok p.view

pub update_preferred_view : Qc → Hotstuff → Outcome Hotstuff
unfolding preferred_by
update_preferred_view qc hs =
    if leb qc.view 2 then ok hs else do view ← preferred_by qc hs; ok (raise_preferred_view view hs)

-- `votingRule`
pub voting_rule : Block → Hotstuff → Outcome Bool
voting_rule block hs =
    if leb block.view 2
    then ok true
    else do p ← get_parent_block hs.bc block.id; ok (not (ltb p.view hs.preferred_view))

-- Three blocks in consecutive views: the certificate's block, its parent and its grandparent.
consecutive : Qc → Block → Block → Bool
consecutive qc p g = g.view + 1 == p.view && p.view + 1 == qc.view

-- `commitRule`: the block to commit. Its flag is set by `mark_commit`.
pub commit_rule : Qc → Hotstuff → Outcome (Option Block)
unfolding consecutive
commit_rule qc hs = do
  p ← get_parent_block hs.bc qc.block_id
  g ← get_parent_block hs.bc p.id
  ok (if consecutive qc p g then some g else none)

-- The height of a proposal: one more than its block's, or than the replica's if that is not known.
next_height : Hotstuff → Option Block → ℕ
next_height hs none = hs.own.height + 1
next_height hs (some b) = b.height + 1

pub record Choice : Type 0 where
  pub qc : Qc
  pub fork_num : ℤ
  pub height : ℕ

-- `forkRule`: a nil pointer where the block of the highest certificate, or its parent, is not known;
-- the source reads the parent's view before it looks at the error.
fork_parent : Block → Outcome Choice
fork_parent b = do q ← deref b.qc; ok (record { qc = q; fork_num = pos 1; height = b.height })

fork_grand_parent : Hotstuff → Block → Choice → Outcome Choice
fork_grand_parent hs g c =
    if not (ltb g.view hs.preferred_view) && not g.mali
    then (do q ← deref g.qc; ok (record { qc = q; fork_num = pos 2; height = g.height }))
    else ok c

pub fork_rule : Hotstuff → Outcome Choice
unfolding fork_parent fork_grand_parent
fork_rule hs = do
  found ← try (get_block_by_id hs.bc hs.high_qc.block_id)
  grand ← try (get_parent_block hs.bc hs.high_qc.block_id)
  b ← deref found
  if ltb b.view hs.preferred_view || b.mali
      then ok (record { qc = hs.high_qc; fork_num = pos 0; height = hs.own.height + 1 })
      else (do c ← fork_parent b; g ← deref grand; fork_grand_parent hs g c)

-- `forkChoice`
pub fork_choice : Env → Hotstuff → Outcome Choice
unfolding next_height fork_rule
fork_choice env hs =
    if not env.is_byz || not env.fork_atk
    then (do
      b ← try (get_block_by_id hs.bc hs.high_qc.block_id)
      ok (record { qc = hs.high_qc; fork_num = negsuc 0; height = next_height hs b }))
    else fork_rule hs

-- `MakeProposal`
pub make_proposal : Env → View → List Transaction → Hotstuff → Outcome Block
unfolding fork_choice
make_proposal env view payload hs = do
  c ← fork_choice env hs
  make_block env.hash env.keys view c.qc c.qc.block_id payload env.id env.is_byz c.fork_num c.height
