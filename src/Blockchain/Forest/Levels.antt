-- ===== src/Blockchain/Forest/Levels.antt =====
-- Forests in which every block's level is its view and parents have smaller views, as the comment on
-- LevelledForest asks: there the walks down the parents end.
use bamboo.Prelude.{ℕ, ◌<◌, ◌≡◌, sym, ◌∙◌, true, some, mem}
use bamboo.Types.{Block}
use bamboo.Blockchain.Forest.{Forest, get_vertex}
use bamboo.Blockchain.Forest.Steps.{get_vertex_at}
use bamboo.Blockchain.Forest.Invariant.{IsValid}

pub record IsLevelled (f : Forest) : Type 0 where
  pub at_view :
      (i r : ℕ) (b : Block)
      → f.vertices i ≡ some r
      → (f.containers r).vertex ≡ some b
      → (f.containers r).level ≡ b.view
  pub lower :
      (i : ℕ) (b p : Block)
      → get_vertex f i ≡ some b
      → get_vertex f b.prev_id ≡ some p
      → p.view < b.view

-- A full container of a level's list is the vertex of its id, and its block has that view.
pub vertex_of_list :
    (f : Forest) (l r : ℕ) (b : Block)
    → IsValid f
    → IsLevelled f
    → mem r (f.vertices_at_level l) ≡ true
    → (f.containers r).vertex ≡ some b
    → (get_vertex f (f.containers r).id ≡ some b) × (b.view ≡ l)
vertex_of_list f l r b v h m e =
    let at = v.indexed l r m in
    (get_vertex_at f _ r at ∙ e, sym (h.at_view _ r b at e) ∙ v.placed l r m)
