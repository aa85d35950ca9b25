-- ===== src/Lbft/Progress.antt =====
-- What every handler of LBFT keeps, and the states that a replica reaches.
use bamboo.Prelude.{ℕ, ◌≡◌, refl, subst}
use bamboo.Outcome.{Outcome}
use bamboo.Notarized.State.{Env, Handler}
use bamboo.Notarized.Later.{IsValid}
use bamboo.Notarized.Blocks.{resume}
use bamboo.Notarized.Progress.{
  Event, block, vote, tmo, timer, advance, handle, Reachable, stays-IsValid,
}
use bamboo.Notarized.Progress as Notarized
use bamboo.Lbft.Replica.{
  Lbft, new_lbft, variant, process_block, process_vote, process_remote_tmo, process_local_tmo,
}
use bamboo.Lbft.Replica.Kept.{variant-Quiet}

pub handle_lbft : Env → ℕ → Event → Handler
handle_lbft env fuel (block b) = process_block env fuel b
handle_lbft env fuel (vote m) = process_vote env fuel m
handle_lbft env fuel (tmo m) = process_remote_tmo m
handle_lbft env fuel (timer view) = process_local_tmo env view
handle_lbft env fuel (advance i) = resume i

-- The states that an LBFT replica reaches, whatever the messages and their order.
pub data LbftReachable (env : Env) : Lbft → Type 0 where
  start : LbftReachable env (new_lbft env.n)
  step :
      (fuel : ℕ) (e : Event) (s : Lbft)
      → LbftReachable env s
      → LbftReachable env (handle_lbft env fuel e s).1

same_handler :
    (env : Env) (fuel : ℕ) (e : Event) (s : Lbft)
    → handle env variant fuel e s ≡ handle_lbft env fuel e s
unfolding handle handle_lbft process_block process_vote process_remote_tmo process_local_tmo
same_handler env fuel (block b) s = refl
same_handler env fuel (vote m) s = refl
same_handler env fuel (tmo m) s = refl
same_handler env fuel (timer view) s = refl
same_handler env fuel (advance i) s = refl

as_notarized : (env : Env) (s : Lbft) → LbftReachable env s → Reachable env variant s
as_notarized env s start = unfold new_lbft in Notarized.start
as_notarized env s (step fuel e p r) =
    subst (λ (out : Outcome (Unit {0}) × Lbft). Reachable env variant out.1)
      (same_handler env fuel e p) (Notarized.step fuel e p (as_notarized env p r))

-- In every state that an LBFT replica reaches, whatever messages it gets and in whatever order the
-- started changes of the view run, the announced views grow, no tally counts a node twice, the
-- forest is well formed, and every layer of the notarized chain is one block that extends an earlier
-- layer, the first layer excepted.
pub LbftReachable-IsValid : (env : Env) (s : Lbft) → LbftReachable env s → IsValid env s
LbftReachable-IsValid env s r = stays-IsValid env variant variant-Quiet s (as_notarized env s r)
