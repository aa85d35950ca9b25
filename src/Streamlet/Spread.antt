-- ===== src/Streamlet/Spread.antt =====
-- How a replica of Streamlet spreads its messages: to every node after a fixed delay, or late and
-- not to the next leader.
pub mod Kept
pub mod Targets
use bamboo.Prelude.{
  ℕ, zero, suc, ◌+◌, ◌-◌, ◌*◌, ◌/◌, Bool, true, false, ◌&&◌, List, [], ◌∷◌, ltb, leb, ◌==◌, map,
  if◌then◌else◌,
}
use bamboo.Types.{NodeId}
use bamboo.Exec.{modify, gets, ◌>>=◌}
use bamboo.Notarized.State.{Env, Message, Sent, later, Handler, emit}

-- The loop from a node up to the last one; the fuel is the number of nodes.
nodes_from : ℕ → NodeId → NodeId → List NodeId
nodes_from zero last node = []
nodes_from (suc fuel) last node =
    let rest = nodes_from fuel last (node + 1) in if ltb last node then [] else node ∷ rest

pub all_nodes : ℕ → List NodeId
unfolding nodes_from
all_nodes n = nodes_from n n 1

-- The loop of a withheld vote: it steps over the next leader before it sends, without a new look at
-- the bound.
other_nodes_from : ℕ → NodeId → NodeId → NodeId → List NodeId
other_nodes_from zero next last node = []
other_nodes_from (suc fuel) next last node =
    let to = if node == next then node + 1 else node in
    let rest = other_nodes_from fuel next last (to + 1) in if ltb last node then [] else to ∷ rest

pub other_nodes : ℕ → NodeId → List NodeId
unfolding other_nodes_from
other_nodes n next = other_nodes_from n next (n - 1) 1

send_all : ℕ → Message → List NodeId → Handler
send_all delay m nodes = modify (emit (map (λ node. later delay node m) nodes))

-- `NoMailBroadcast`
pub no_mail_broadcast : Env → Message → Handler
unfolding send_all
no_mail_broadcast env m = send_all (env.timeout * 3 / 7) m (all_nodes env.n)

-- `MaliBroadcast`
mali_broadcast : Env → NodeId → Message → Bool → Handler
mali_broadcast env next m is_vote =
    if leb next env.byz_no
    then no_mail_broadcast env m
    else (if is_vote
        then send_all (env.timeout * 6 / 7) m (other_nodes env.n next)
        else send_all (env.timeout * 5 / 7) m (all_nodes env.n))

-- The choice that `ProcessBlock` makes between the two, for its block and for its vote.
pub spread : Env → Bool → Message → Handler
spread env is_vote m = do
  cur ← gets λ s. s.pm.cur_view
  let next = env.election.find_leader_for (cur + 1)
  if env.is_byz && ltb env.byz_no next
      then mali_broadcast env next m is_vote
      else no_mail_broadcast env m
