-- ===== src/Blockchain/Forest/Prune/Levelled.antt =====
-- Pruning keeps the levels of a forest.
use bamboo.Prelude.{◌≡◌, sym, ◌∙◌, ap, ℕ, some, arith, Option-cases, inl, inr}
use bamboo.Types.{Block}
use bamboo.Blockchain.Forest.{Forest, Container, get_vertex}
use bamboo.Blockchain.Forest.Steps.{get_vertex_at}
use bamboo.Blockchain.Forest.Levels.{IsLevelled}
use bamboo.Blockchain.Forest.Prune.Pruned.{Pruned, kept-some}

module _ (f g : Forest) (l : ℕ) (p : Pruned f l g) where
  known-before : (i r : ℕ) → g.vertices i ≡ some r → f.vertices i ≡ some r
  known-before i r e = (kept-some f l (f.vertices i) r (sym (p.vertices i) ∙ e)).0

  found-before : (i : ℕ) (b : Block) → get_vertex g i ≡ some b → get_vertex f i ≡ some b
  found-before i b e = elim (Option-cases (g.vertices i)) [
    | inl gone ↦ absurd (unfold get_vertex in ground (arith, e, gone))
    | inr (r, there) ↦
        get_vertex_at f i r (known-before i r there)
        ∙ sym (ap (λ (c : ℕ → Container). (c r).vertex) p.containers)
        ∙ sym (get_vertex_at g i r there)
        ∙ e
  ]

  pub Pruned-IsLevelled : IsLevelled f → IsLevelled g
  Pruned-IsLevelled h = record {
    at_view = λ i r b e full.
        rw p.containers (h.at_view i r b (known-before i r e) (rw p.containers at full));
    lower = λ i b q e e'. h.lower i b q (found-before i b e) (found-before b.prev_id q e');
  }
