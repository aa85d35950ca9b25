-- ===== src/Blockchain/Forest/Lowest.antt =====
-- The lowest level: adding a vertex leaves it, pruning raises it.
use bamboo.Prelude.{ℕ, ◌≤◌, ◌≡◌, ◌∙◌, arith, inl, inr}
use bamboo.Outcome.{ok}
use bamboo.Types.{Block}
use bamboo.Blockchain.Forest.{Forest, create_container, get_or_create, add_child, add_vertex}
use bamboo.Blockchain.Forest.Steps.{Registered, add_vertex-Added, store}
use bamboo.Blockchain.Forest.Prune.{prune_up_to_level, Sweep}
use bamboo.Blockchain.Forest.Prune.Pruned.{prune_parts}

lowest_level-get_or_create :
    (i l : ℕ) (f : Forest) → (get_or_create i l f).1.lowest_level ≡ f.lowest_level
unfolding get_or_create create_container
lowest_level-get_or_create i l f = ground arith

lowest_level-Registered :
    (r : ℕ) (b : Block) (f g : Forest) → Registered r b f g → g.lowest_level ≡ f.lowest_level
unfolding add_child
lowest_level-Registered r b f g (inl e) = cc
lowest_level-Registered r b f g (inr (p, _, _, le, e)) =
    rw e (lowest_level-get_or_create p.id p.level f)

pub lowest_level-add_vertex :
    (b : Block) (f g : Forest) → add_vertex b f ≡ ok g → g.lowest_level ≡ f.lowest_level
lowest_level-add_vertex b f g h = elim (add_vertex-Added b f g h) [
  | inl (e, _) ↦ cc
  | inr (r, c, created, le, empty, registered) ↦
      let same : c.lowest_level ≡ f.lowest_level =
        rw created at (lowest_level-get_or_create b.id b.view f) in
      lowest_level-Registered r b (store r b c) g registered ∙ same
]

-- A pruning that succeeds was not to a level below the lowest.
pub lowest_level-prune_up_to_level :
    (fuel l : ℕ) (f : Forest) (s : Sweep) → prune_up_to_level fuel l f ≡ ok s → f.lowest_level ≤ l
lowest_level-prune_up_to_level fuel l f s e = let (_, le, _, _) = prune_parts fuel l f s e in le
