-- ===== src/Hotstuff/Progress.antt =====
-- The states that a HotStuff replica reaches, and what every handler keeps.
use bamboo.Prelude.{ℕ, []}
use bamboo.Exec.Keeps.{Keeps}
use bamboo.Blockchain.Forest.{new_forest}
use bamboo.Blockchain.Chain.{new_blockchain}
use bamboo.Chained.State.{Env, Handler}
use bamboo.Chained.Log.{Appends}
use bamboo.Chained.Stable.{Property, Holds, Stable}
use bamboo.Chained.Later.{IsValid, Later, new_chained-IsValid}
use bamboo.Chained.Progress.{
  Event, block, vote, tmo, vmo, timer, Reachable, stays-Later, stays-IsValid,
}
use bamboo.Hotstuff.State.{Height, Hotstuff, new_hotstuff}
use bamboo.Hotstuff.Handlers.{process_vote}
use bamboo.Hotstuff.Handlers.Kept.{process_vote-Keeps}
use bamboo.Hotstuff.Blocks.{calls, process_remote_tmo, process_local_tmo}
use bamboo.Hotstuff.Blocks.Kept.{calls-Trusted, process_remote_tmo-Keeps, process_local_tmo-Keeps}

-- The handler of a message, with the fuel for the calls that the handlers make of each other.
pub handle : Env → ℕ → Event → Handler Height
handle env fuel (block b) = (calls env fuel).process_block b
handle env fuel (vote v) = process_vote env (calls env fuel) v
handle env fuel (tmo m) = process_remote_tmo env m
handle env fuel (vmo m) = (calls env fuel).process_remote_vmo m
handle env fuel (timer view) = process_local_tmo env view

handle-Keeps :
    (env : Env) (P : Property)
    → Stable env P
    → (fuel : ℕ) (e : Event) → Keeps (Holds P) (handle env fuel e)
unfolding handle
handle-Keeps env P stable fuel (block b) = (calls-Trusted env P stable fuel).block b
handle-Keeps env P stable fuel (vote v) =
    process_vote-Keeps env P stable (calls env fuel) (calls-Trusted env P stable fuel) v
handle-Keeps env P stable fuel (tmo m) = process_remote_tmo-Keeps env P stable m
handle-Keeps env P stable fuel (vmo m) = (calls-Trusted env P stable fuel).vmo m
handle-Keeps env P stable fuel (timer view) = process_local_tmo-Keeps env P stable view

-- From a valid state no handler, however it ends, lowers the current view, the preferred view,
-- the view of the highest certificate, the lowest level of the forest, or the count of committed
-- or of pruned blocks, and the state is valid again. The log of committed blocks grows only by
-- chains in which each block is followed by its parent; every block of a chain is above the
-- lowest level that the forest had and above the newest block of each chain that was added
-- before it, and no chain's newest block is above the lowest level that the forest has in the
-- end.
pub handle-Later :
    (env : Env) (fuel : ℕ) (e : Event) (s : Hotstuff)
    → IsValid env s
    → Holds (Later env s) (handle env fuel e s).1
handle-Later env fuel e s v = stays-Later env (handle env) (handle-Keeps env) fuel e s v

pub new_hotstuff-IsValid : (env : Env) (n : ℕ) → IsValid env (new_hotstuff n)
unfolding new_hotstuff
new_hotstuff-IsValid env n = new_chained-IsValid env n (record { height = 0 })

-- In every state that a replica reaches, whatever messages it gets, forged ones included, the
-- views it announced grow strictly up to the current one, its tallies count no node twice, its
-- forest is well formed, and so are the votes of every block. The log of committed blocks is
-- made of chains in which each block is followed by its parent; every block of a chain has a
-- larger view than the newest block of each earlier chain, and no chain's newest block is above
-- the lowest level of the forest. The handlers run one after the other.
pub Reachable-IsValid :
    (env : Env) (n : ℕ) (s : Hotstuff)
    → Reachable (handle env) (new_hotstuff n) s
    → IsValid env s × Appends 0 [] s.bc.forrest.lowest_level s.committed_blocks
unfolding new_hotstuff new_blockchain new_forest
Reachable-IsValid env n s r =
    stays-IsValid env (handle env) (handle-Keeps env) (new_hotstuff n) s
      (new_hotstuff-IsValid env n) r
