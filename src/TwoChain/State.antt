-- ===== src/TwoChain/State.antt =====
-- The fields of Tchs and of Fhs.
use bamboo.Prelude.{ℕ}
use bamboo.Types.{View}
use bamboo.Chained.State.{Chained, new_chained}

-- What only these two have.
pub record LastVoted : Type 0 where
  pub last_voted_view : View

abbrev pub TwoChain : Type 0
TwoChain = Chained LastVoted

unfoldable pub new_two_chain : ℕ → TwoChain
unfolding new_chained
new_two_chain n = new_chained n (record { last_voted_view = 0 })
