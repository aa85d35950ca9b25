-- ===== src/Tchs/Rules.antt =====
-- The rules of two-chain HotStuff, and its proposals.
pub mod Kept
pub mod Proposal
use bamboo.Prelude.{
  ℕ, List, ◌-◌, Bool, true, false, not, ◌||◌, ◌&&◌, Option, none, some, update, ltb, if◌then◌else◌,
  ℤ, pos,
}
use bamboo.Outcome.{Outcome, ok, err, fault, try, deref, ◌>>=◌}
use bamboo.Types.{View, Identifier, Qc, Block}
use bamboo.Blockchain.Block.{make_block}
use bamboo.Blockchain.Forest.{Forest}
use bamboo.Blockchain.Chain.{get_block_by_id, get_parent_block}
use bamboo.Chained.State.{Env}
use bamboo.Chained.Certificate.{raise_preferred_view}
use bamboo.TwoChain.State.{LastVoted, TwoChain, new_two_chain}

abbrev pub Tchs : Type 0
Tchs = TwoChain

unfoldable pub new_tchs : ℕ → Tchs
unfolding new_two_chain
new_tchs n = new_two_chain n

-- `updatePreferredView`: the view of the parent of the certified block.
pub update_preferred_view : Qc → Tchs → Outcome Tchs
update_preferred_view qc th =
    if ltb qc.view 2
    then ok th
    else do p ← get_parent_block th.bc qc.block_id; ok (raise_preferred_view p.view th)

-- `votingRule`: the checks are commented out in the source.
pub voting_rule : Block → Outcome Bool
voting_rule block = ok true

-- What a proposal extends, and the block whose certificate was rewritten for it.
pub record Choice : Type 0 where
  pub qc : Qc
  pub flag : ℤ
  pub rewritten : Option Block

-- `forkRule`: the view of the parent block's certificate becomes the view before the current one. A
-- replica proposes in views it entered, so that the current view is at least 1.
fork_parent : Tchs → Block → Outcome Choice
fork_parent th b = do
  q ← deref b.qc
  ok (record { qc = record q { view = th.pm.cur_view - 1 }; flag = pos 1; rewritten = some b })

fork_rule : Tchs → Outcome Choice
unfolding fork_parent
fork_rule th = do
  found ← try (get_block_by_id th.bc th.high_qc.block_id)
  b ← deref found
  if ltb b.view th.preferred_view || b.mali
      then ok (record { qc = th.high_qc; flag = pos 0; rewritten = none })
      else fork_parent th b

pub fork_choice : Env → Tchs → Outcome Choice
unfolding fork_rule
fork_choice env th =
    if env.is_byz && env.fork_atk
    then fork_rule th
    else ok (record { qc = th.high_qc; flag = pos 0; rewritten = none })
