-- ===== src/Streamlet/Progress.antt =====
-- What every handler of Streamlet keeps, and the states that a replica reaches.
use bamboo.Prelude.{ℕ}
use bamboo.Notarized.State.{Env, Handler}
use bamboo.Notarized.Stable.{Property, Holds}
use bamboo.Notarized.Blocks.Kept.{Quiet}
use bamboo.Notarized.Later.{IsValid, Later}
use bamboo.Notarized.Progress.{Event, handle, Reachable, stays-Later, stays-IsValid}
use bamboo.Streamlet.Spread.Kept.{spread-Keeps, no_mail_broadcast-Keeps}
use bamboo.Streamlet.Replica.{Streamlet, variant}

variant-Quiet : (env : Env) (P : Property) → Quiet P (variant env)
variant-Quiet env P = record {
  spread = λ is_vote m. spread-Keeps P env is_vote m;
  echo = λ m. no_mail_broadcast-Keeps P env m;
}

abbrev pub handle_streamlet : Env → ℕ → Event → Handler
handle_streamlet env fuel e = handle env (variant env) fuel e

abbrev pub StreamletReachable : Env → Streamlet → Type 0
StreamletReachable env s = Reachable env (variant env) s

-- From a valid state no handler of Streamlet, however it ends, lowers the current view, the lowest
-- level of the forest or the count of committed or of pruned blocks, and none removes or changes a
-- layer of the notarized chain; the state is valid again.
pub handle_streamlet-Later :
    (env : Env) (fuel : ℕ) (e : Event) (s : Streamlet)
    → IsValid env s
    → Holds (Later env s) (handle_streamlet env fuel e s).1
handle_streamlet-Later env fuel e s h = stays-Later env (variant env) (variant-Quiet env) fuel e s h

-- In every state that a Streamlet replica reaches, whatever messages it gets and in whatever order
-- the started changes of the view run, the announced views grow, no tally counts a node twice, the
-- forest is well formed, and every layer of the notarized chain is one block that extends an earlier
-- layer, the first layer excepted.
pub StreamletReachable-IsValid :
    (env : Env) (s : Streamlet) → StreamletReachable env s → IsValid env s
StreamletReachable-IsValid env s r = stays-IsValid env (variant env) (variant-Quiet env) s r
