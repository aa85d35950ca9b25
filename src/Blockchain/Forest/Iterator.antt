-- ===== src/Blockchain/Forest/Iterator.antt =====
-- VertexIterator of blockchain/vertex.go, and the loops over it in blockchain.go. The slice with its
-- index stands as the part of the slice that is not visited yet.
use bamboo.Prelude.{
  ℕ, zero, suc, ◌≡◌, refl, Bool, Option, none, some, List, [], ◌∷◌, length, arith, ◌<◌,
  Option-cases, inl, inr,
}
use bamboo.Types.{Block, Identifier}
use bamboo.Outcome.{Outcome, ok, fault, deref, out_of_fuel, ◌>>=◌, Outcome-cases}
use bamboo.Blockchain.Forest.{Forest, is_some, full_vertices, children_of}

pub record VertexIterator : Type 0 where
  pub rest : List ℕ
  pub next : Option Block

-- `preLoad` skips the empty containers.
pub pre_load : Forest → List ℕ → VertexIterator
pre_load f [] = record { rest = []; next = none }
pre_load f (r ∷ rs) =
    let skip = pre_load f rs in
    elim (f.containers r).vertex [ none ↦ skip | some b ↦ record { rest = rs; next = some b } ]

pub new_vertex_iterator : Forest → List ℕ → VertexIterator
unfolding pre_load
new_vertex_iterator f rs = pre_load f rs

pub has_next : VertexIterator → Bool
has_next it = is_some it.next

pub next_vertex : Forest → VertexIterator → Option Block × VertexIterator
unfolding pre_load
next_vertex f it = (it.next, pre_load f it.rest)

-- `for I.HasNext() { blocks = append(blocks, I.NextVertex().GetBlock()) }`
collect_children : ℕ → Forest → VertexIterator → Outcome (List Block)
unfolding has_next next_vertex
collect_children zero f it = fault out_of_fuel
collect_children (suc fuel) f it =
    let rest = collect_children fuel f (next_vertex f it).1 in
    elim (has_next it) [
      | Bool.false ↦ ok []
      | Bool.true ↦ do b ← deref (next_vertex f it).0; bs ← rest; ok (b ∷ bs)
    ]

-- One round for each container, and one to see the end, are enough.
pub get_children_blocks : Forest → Identifier → Outcome (List Block)
unfolding new_vertex_iterator collect_children children_of
get_children_blocks f id = do
  rs ← children_of f id
  collect_children (suc (length rs)) f (new_vertex_iterator f rs)

pub get_block_by_view : Forest → ℕ → Outcome Block
unfolding new_vertex_iterator
get_block_by_view f view = deref (new_vertex_iterator f (f.vertices_at_level view)).next

collect_children-pre_load :
    (fuel : ℕ) (f : Forest) (rs : List ℕ)
    → length rs < fuel
    → collect_children fuel f (pre_load f rs) ≡ ok (full_vertices f.containers rs)
unfolding collect_children pre_load next_vertex has_next full_vertices
collect_children-pre_load zero f rs lt = absurd (omega arith)
collect_children-pre_load (suc fuel) f [] lt = refl
collect_children-pre_load (suc fuel) f (r ∷ rs) lt = elim (Option-cases (f.containers r).vertex) [
  | inl e ↦ ground (arith, e, collect_children-pre_load (suc fuel) f rs (omega arith))
  | inr (b, e) ↦ ground (arith, e, collect_children-pre_load fuel f rs (omega arith))
]

-- Going through the children with the iterator ends, and gives the blocks of the full children in
-- order; only an unknown id fails.
pub get_children_blocks_lem :
    (f : Forest) (id : Identifier)
    → get_children_blocks f id ≡ (children_of f id >>= λ rs. ok (full_vertices f.containers rs))
unfolding get_children_blocks new_vertex_iterator
get_children_blocks_lem f id = elim (Outcome-cases (children_of f id)) [
  | inl (rs, e) ↦ rw e (collect_children-pre_load (suc (length rs)) f rs (omega arith))
  | inr (inl (x, e)) ↦ rw e refl
  | inr (inr (x, e)) ↦ rw e refl
]
