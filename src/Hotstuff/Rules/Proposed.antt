-- ===== src/Hotstuff/Rules/Proposed.antt =====
-- What a proposal is.
use bamboo.Prelude.{◌≡◌, List}
use bamboo.Outcome.{ok, >>=-eq-ok}
use bamboo.Types.{View, Block, Transaction}
use bamboo.Blockchain.Block.{view-make_block}
use bamboo.Chained.State.{Env}
use bamboo.Hotstuff.State.{Hotstuff}
use bamboo.Hotstuff.Rules.{fork_choice, make_proposal}

-- A proposal is of the view that was asked for.
pub view-make_proposal :
    (env : Env) (view : View) (payload : List Transaction) (hs : Hotstuff) (b : Block)
    → make_proposal env view payload hs ≡ ok b
    → b.view ≡ view
unfolding make_proposal
view-make_proposal env view payload hs b e =
    let (c, _, made) = >>=-eq-ok (fork_choice env hs) _ e in
    view-make_block env.hash env.keys view c.qc c.qc.block_id payload env.id env.is_byz c.fork_num
      c.height b made
