-- ===== src/Fhs/Rules.antt =====
-- The rules of Fast-HotStuff, and its proposals.
pub mod Kept
use bamboo.Prelude.{
  ℕ, List, ◌+◌, Bool, true, false, not, ◌||◌, ◌&&◌, Option, none, some, ltb, leb, if◌then◌else◌, ℤ,
  pos,
}
use bamboo.Outcome.{Outcome, ok, err, fault, try, deref, no_vote_decision, ◌>>=◌}
use bamboo.Types.{View, Qc, Block, Transaction}
use bamboo.Blockchain.Block.{make_block}
use bamboo.Blockchain.Chain.{get_block_by_id, get_parent_block}
use bamboo.Chained.State.{Env}
use bamboo.Chained.Certificate.{raise_preferred_view}
use bamboo.TwoChain.State.{LastVoted, TwoChain, new_two_chain}

abbrev pub Fhs : Type 0
Fhs = TwoChain

unfoldable pub new_fhs : ℕ → Fhs
unfolding new_two_chain
new_fhs n = new_two_chain n

-- `updatePreferredView`: the view of the certificate, where its block is known.
pub update_preferred_view : Qc → Fhs → Outcome Fhs
update_preferred_view qc f =
    if ltb qc.view 2
    then ok f
    else do b ← get_block_by_id f.bc qc.block_id; ok (raise_preferred_view qc.view f)

-- An error of the parent is wrapped with the view of the block's certificate, which may be nil.
abbrev parent_or_error : Block → Option Block → Outcome Block
parent_or_error block (some p) = ok p
parent_or_error block none = do q ← deref block.qc; err no_vote_decision

-- `votingRule`
pub voting_rule : Block → Fhs → Outcome Bool
voting_rule block f = if leb block.view 2 then ok true else do
  found ← try (get_parent_block f.bc block.id)
  p ← parent_or_error block found
  ok (not (leb block.view f.own.last_voted_view || ltb p.view f.preferred_view))

-- `forkChoice`: the highest certificate; the number tells how a Byzantine leader spreads the block.
pub fork_choice : Env → Fhs → Qc × ℤ
fork_choice env f =
    let next = env.election.find_leader_for (f.pm.cur_view + 1) in
    (f.high_qc, if env.is_byz && ltb env.byz_no next then pos 1 else pos 0)

-- `MakeProposal`
pub make_proposal : Env → View → List Transaction → Fhs → Outcome Block
unfolding fork_choice
make_proposal env view payload f =
    let (qc, fork_num) = fork_choice env f in
    make_block env.hash env.keys view qc qc.block_id payload env.id env.is_byz fork_num 0
