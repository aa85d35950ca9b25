-- ===== src/Chained/Progress.antt =====
-- The messages a replica handles, the states it reaches with any protocol, and what follows where
-- the handlers keep what is stable.
use bamboo.Prelude.{ℕ, arith}
use bamboo.Types.{View, Vote, Block, Tmo, Vmo}
use bamboo.Exec.Keeps.{Keeps}
use bamboo.Chained.State.{Env, Chained, Handler}
use bamboo.Chained.Log.{Appends, same, Appends-trans}
use bamboo.Chained.Stable.{Property, Holds, Stable}
use bamboo.Chained.Later.{IsValid, Later, Later-Stable, Later-refl}

pub data Event : Type 0 where
  block : Block → Event
  vote : Vote → Event
  tmo : Tmo → Event
  vmo : Vmo → Event
  -- the timer of the current view
  timer : View → Event

-- The handler of an event, with the fuel for the calls that the handlers make of each other.
abbrev pub Handle : Type 0 → Type 0
Handle Own = ℕ → Event → Handler Own

-- The states that a replica reaches from its first one, whatever the messages and their order.
pub data Reachable {Own : Type 0} (handle : Handle Own) (first : Chained Own)
    : Chained Own → Type 0 where
  start : Reachable handle first first
  step :
      (fuel : ℕ) (e : Event) (s : Chained Own)
      → Reachable handle first s
      → Reachable handle first (handle fuel e s).1

module _ {Own : Type 0} (env : Env) (handle : Handle Own)
    (handle-Keeps : (P : Property)
      → Stable env P
      → (fuel : ℕ) (e : Event) → Keeps (Holds P) (handle fuel e)) where
  pub stays-Later :
      (fuel : ℕ) (e : Event) (s : Chained Own)
      → IsValid env s
      → Holds (Later env s) (handle fuel e s).1
  stays-Later fuel e s v =
      (handle-Keeps (Later env s) (Later-Stable env s) fuel e).at s (Later-refl env s v)

  pub stays-IsValid :
      (first s : Chained Own)
      → IsValid env first
      → Reachable handle first s
      → IsValid env s
        × Appends first.bc.forrest.lowest_level first.committed_blocks s.bc.forrest.lowest_level
            s.committed_blocks
  stays-IsValid first s v start = (v, same _ (omega arith))
  stays-IsValid first s v (step fuel e p r) =
      let (valid, log) = stays-IsValid first p v r in
      let later = stays-Later fuel e p valid in
      (
        record { pacemaker = later.pacemaker; chain = later.chain.valid },
        Appends-trans log later.committed,
      )
