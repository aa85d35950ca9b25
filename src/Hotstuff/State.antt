-- ===== src/Hotstuff/State.antt =====
-- The fields of HotStuff.
use bamboo.Prelude.{ℕ}
use bamboo.Chained.State.{Chained, new_chained}

-- What only HotStuff has. Nothing writes the height.
pub record Height : Type 0 where
  pub height : ℕ

abbrev pub Hotstuff : Type 0
Hotstuff = Chained Height

unfoldable pub new_hotstuff : ℕ → Hotstuff
unfolding new_chained
new_hotstuff n = new_chained n (record { height = 0 })
