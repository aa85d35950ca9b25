-- ===== src/Notarized/Progress.antt =====
-- The events that a replica handles, the states it reaches, and what every handler keeps.
use bamboo.Prelude.{ℕ}
use bamboo.Types.{View, Vote, Block, Tmo}
use bamboo.Exec.Keeps.{Keeps}
use bamboo.Notarized.State.{Env, Notarized, Handler, Variant, new_notarized}
use bamboo.Notarized.Stable.{Property, Holds, Stable}
use bamboo.Notarized.Blocks.{calls, process_vote, process_remote_tmo, process_local_tmo, resume}
use bamboo.Notarized.Blocks.Kept.{
  Quiet, calls-Trusted, process_vote-Keeps, process_remote_tmo-Keeps, process_local_tmo-Keeps,
  resume-Keeps,
}
use bamboo.Notarized.Later.{IsValid, Later, Later-Stable, Later-refl, new_notarized-IsValid}

pub data Event : Type 0 where
  block : Block → Event
  vote : Vote → Event
  tmo : Tmo → Event
  -- the timer of the current view
  timer : View → Event
  -- the i-th of the changes of the view that were started runs
  advance : ℕ → Event

-- The handler of an event, with the fuel for the calls that the handlers make of each other.
unfoldable pub handle : Env → Variant → ℕ → Event → Handler
handle env v fuel (block b) = (calls env v fuel).process_block b
handle env v fuel (vote m) = process_vote env v (calls env v fuel) m
handle env v fuel (tmo m) = process_remote_tmo m
handle env v fuel (timer view) = process_local_tmo env view
handle env v fuel (advance i) = resume i

-- The states that a replica reaches, whatever the messages and their order.
pub data Reachable (env : Env) (v : Variant) : Notarized → Type 0 where
  start : Reachable env v (new_notarized env.n)
  step :
      (fuel : ℕ) (e : Event) (s : Notarized)
      → Reachable env v s
      → Reachable env v (handle env v fuel e s).1

module _ (env : Env) (v : Variant) (quiet : (P : Property) → Quiet P v) where
  handle-Keeps :
      (P : Property) → Stable env P → (fuel : ℕ) (e : Event) → Keeps (Holds P) (handle env v fuel e)
  unfolding handle
  handle-Keeps P stable fuel (block b) = (calls-Trusted env v P stable (quiet P) fuel).block b
  handle-Keeps P stable fuel (vote m) =
      process_vote-Keeps env v P stable (quiet P) (calls env v fuel)
        (calls-Trusted env v P stable (quiet P) fuel) m
  handle-Keeps P stable fuel (tmo m) = process_remote_tmo-Keeps env v P stable m
  handle-Keeps P stable fuel (timer view) = process_local_tmo-Keeps env v P stable view
  handle-Keeps P stable fuel (advance i) = resume-Keeps env v P stable i

  pub stays-Later :
      (fuel : ℕ) (e : Event) (s : Notarized)
      → IsValid env s
      → Holds (Later env s) (handle env v fuel e s).1
  stays-Later fuel e s h =
      (handle-Keeps (Later env s) (Later-Stable env s) fuel e).at s (Later-refl env s h)

  pub stays-IsValid : (s : Notarized) → Reachable env v s → IsValid env s
  stays-IsValid s start = new_notarized-IsValid env env.n
  stays-IsValid s (step fuel e p r) =
      let later = stays-Later fuel e p (stays-IsValid p r) in
      record { pacemaker = later.pacemaker; chain = later.chain.valid; notarized = later.notarized }
