-- ===== src/Fhs/Progress.antt =====
-- The states that a replica of Fast-HotStuff reaches, and what every handler keeps.
use bamboo.Prelude.{[], ℕ}
use bamboo.Exec.Keeps.{Keeps}
use bamboo.Blockchain.Forest.{new_forest}
use bamboo.Blockchain.Chain.{new_blockchain}
use bamboo.Chained.State.{Env, Handler}
use bamboo.Chained.Log.{Appends}
use bamboo.Chained.Stable.{Property, Holds, Stable}
use bamboo.Chained.Later.{IsValid, Later, new_chained-IsValid}
use bamboo.Chained.Progress.{
  Event, block, vote, tmo, vmo, timer, Reachable, stays-Later, stays-IsValid,
}
use bamboo.TwoChain.State.{LastVoted, new_two_chain}
use bamboo.Fhs.Rules.{Fhs, new_fhs}
use bamboo.Fhs.Blocks.{process_vote, calls, process_remote_tmo, process_local_tmo}
use bamboo.Fhs.Blocks.Kept.{
  process_vote-Keeps, calls-Trusted, process_remote_tmo-Keeps, process_local_tmo-Keeps,
}

pub handle_fhs : Env → ℕ → Event → Handler LastVoted
handle_fhs env fuel (block b) = (calls env fuel).process_block b
handle_fhs env fuel (vote v) = process_vote env (calls env fuel) v
handle_fhs env fuel (tmo m) = process_remote_tmo m
handle_fhs env fuel (vmo m) = (calls env fuel).process_remote_vmo m
handle_fhs env fuel (timer view) = process_local_tmo env view

handle_fhs-Keeps :
    (env : Env) (P : Property)
    → Stable env P
    → (fuel : ℕ) (e : Event) → Keeps (Holds P) (handle_fhs env fuel e)
unfolding handle_fhs
handle_fhs-Keeps env P stable fuel (block b) = (calls-Trusted env P stable fuel).block b
handle_fhs-Keeps env P stable fuel (vote v) =
    process_vote-Keeps env P stable (calls env fuel) (calls-Trusted env P stable fuel) v
handle_fhs-Keeps env P stable fuel (tmo m) = process_remote_tmo-Keeps env P stable m
handle_fhs-Keeps env P stable fuel (vmo m) = (calls-Trusted env P stable fuel).vmo m
handle_fhs-Keeps env P stable fuel (timer view) = process_local_tmo-Keeps env P stable view

-- From a valid state no handler of Fhs, however it ends, lowers the current view, the preferred
-- view, the view of the highest certificate, the lowest level of the forest, or the count of
-- committed or of pruned blocks, and the state is valid again. The log of committed blocks grows
-- only by chains in which each block is followed by its parent; every block of a chain is above
-- the lowest level that the forest had and above the newest block of each chain that was added
-- before it, and no chain's newest block is above the lowest level that the forest has in the
-- end.
pub handle_fhs-Later :
    (env : Env) (fuel : ℕ) (e : Event) (s : Fhs)
    → IsValid env s
    → Holds (Later env s) (handle_fhs env fuel e s).1
handle_fhs-Later env fuel e s v = stays-Later env (handle_fhs env) (handle_fhs-Keeps env) fuel e s v

-- The states that a Fhs replica of n nodes reaches, whatever the messages and their order.
abbrev pub FhsReachable : Env → ℕ → Fhs → Type 0
FhsReachable env n s = Reachable (handle_fhs env) (new_fhs n) s

-- Every state that a Fhs replica reaches, whatever messages it gets, forged ones included, is
-- valid: announced views grow, no tally counts a node twice, and forest and votes are well
-- formed. The log of committed blocks is made of chains in which each block is followed by its
-- parent; every block of a chain has a larger view than the newest block of each earlier chain,
-- and no chain's newest block is above the lowest level of the forest. The handlers run one
-- after the other.
pub FhsReachable-IsValid :
    (env : Env) (n : ℕ) (s : Fhs)
    → FhsReachable env n s
    → IsValid env s × Appends 0 [] s.bc.forrest.lowest_level s.committed_blocks
unfolding new_fhs new_two_chain new_blockchain new_forest
FhsReachable-IsValid env n s r =
    stays-IsValid env (handle_fhs env) (handle_fhs-Keeps env) (new_fhs n) s
      (new_chained-IsValid env n (record { last_voted_view = 0 })) r
