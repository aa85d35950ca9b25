-- ===== src/Tchs/Progress.antt =====
-- The states that a replica of two-chain HotStuff reaches, and what every handler keeps.
use bamboo.Prelude.{[], ℕ}
use bamboo.Exec.Keeps.{Keeps}
use bamboo.Blockchain.Forest.{new_forest}
use bamboo.Blockchain.Chain.{new_blockchain}
use bamboo.Chained.State.{Env, Handler}
use bamboo.Chained.Log.{Appends}
use bamboo.Chained.Stable.{Property, Holds, Stable}
use bamboo.Chained.Later.{IsValid, Later, new_chained-IsValid}
use bamboo.Chained.Progress.{
  Event, block, vote, tmo, vmo, timer, Reachable, stays-Later, stays-IsValid,
}
use bamboo.TwoChain.State.{LastVoted, new_two_chain}
use bamboo.Tchs.Rules.{Tchs, new_tchs}
use bamboo.Tchs.Blocks.{process_vote, calls, process_remote_tmo, process_local_tmo}
use bamboo.Tchs.Blocks.Kept.{
  process_vote-Keeps, calls-Trusted, process_remote_tmo-Keeps, process_local_tmo-Keeps,
}

pub handle_tchs : Env → ℕ → Event → Handler LastVoted
handle_tchs env fuel (block b) = (calls env fuel).process_block b
handle_tchs env fuel (vote v) = process_vote env (calls env fuel) v
handle_tchs env fuel (tmo m) = process_remote_tmo m
handle_tchs env fuel (vmo m) = (calls env fuel).process_remote_vmo m
handle_tchs env fuel (timer view) = process_local_tmo env view

handle_tchs-Keeps :
    (env : Env) (P : Property)
    → Stable env P
    → (fuel : ℕ) (e : Event) → Keeps (Holds P) (handle_tchs env fuel e)
unfolding handle_tchs
handle_tchs-Keeps env P stable fuel (block b) = (calls-Trusted env P stable fuel).block b
handle_tchs-Keeps env P stable fuel (vote v) =
    process_vote-Keeps env P stable (calls env fuel) (calls-Trusted env P stable fuel) v
handle_tchs-Keeps env P stable fuel (tmo m) = process_remote_tmo-Keeps env P stable m
handle_tchs-Keeps env P stable fuel (vmo m) = (calls-Trusted env P stable fuel).vmo m
handle_tchs-Keeps env P stable fuel (timer view) = process_local_tmo-Keeps env P stable view

-- From a valid state no handler of Tchs, however it ends, lowers the current view, the preferred
-- view, the view of the highest certificate, the lowest level of the forest, or the count of
-- committed or of pruned blocks, and the state is valid again. The log of committed blocks grows
-- only by chains in which each block is followed by its parent; every block of a chain is above
-- the lowest level that the forest had and above the newest block of each chain that was added
-- before it, and no chain's newest block is above the lowest level that the forest has in the
-- end.
pub handle_tchs-Later :
    (env : Env) (fuel : ℕ) (e : Event) (s : Tchs)
    → IsValid env s
    → Holds (Later env s) (handle_tchs env fuel e s).1
handle_tchs-Later env fuel e s v =
    stays-Later env (handle_tchs env) (handle_tchs-Keeps env) fuel e s v

-- The states that a Tchs replica of n nodes reaches, whatever the messages and their order.
abbrev pub TchsReachable : Env → ℕ → Tchs → Type 0
TchsReachable env n s = Reachable (handle_tchs env) (new_tchs n) s

-- Every state that a Tchs replica reaches, whatever messages it gets, forged ones included, is
-- valid: announced views grow, no tally counts a node twice, and forest and votes are well
-- formed. The log of committed blocks is made of chains in which each block is followed by its
-- parent; every block of a chain has a larger view than the newest block of each earlier chain,
-- and no chain's newest block is above the lowest level of the forest. The handlers run one
-- after the other.
pub TchsReachable-IsValid :
    (env : Env) (n : ℕ) (s : Tchs)
    → TchsReachable env n s
    → IsValid env s × Appends 0 [] s.bc.forrest.lowest_level s.committed_blocks
unfolding new_tchs new_two_chain new_blockchain new_forest
TchsReachable-IsValid env n s r =
    stays-IsValid env (handle_tchs env) (handle_tchs-Keeps env) (new_tchs n) s
      (new_chained-IsValid env n (record { last_voted_view = 0 })) r
