-- ===== src/Blockchain/Forest/Prune/Marking.antt =====
-- The marking loop of `PruneUpToLevel` ends, and what it marks.
use bamboo.Prelude.{
  ℕ, zero, suc, ◌<◌, ◌≡◌, ◌≢◌, refl, Bool, true, none, some, List, [], ◌∷◌, update, arith, inl, inr,
  ==_refl,
}
use bamboo.Outcome.{ok, fault, out_of_fuel, >>=-eq-ok, Outcome-cases}
use bamboo.Types.{Block}
use bamboo.Blockchain.Forest.{Forest, get_vertex}
use bamboo.Blockchain.Forest.Invariant.{IsValid}
use bamboo.Blockchain.Forest.Levels.{IsLevelled, vertex_of_list}
use bamboo.Blockchain.Forest.Prune.{mark_committed, mark_round, first_at, parent_vertex, retained}

first_of_list :
    (f : Forest) (l : ℕ) (b : Block) (rs : List ℕ)
    → IsValid f
    → IsLevelled f
    → f.vertices_at_level l ≡ rs
    → first_at f rs ≡ ok b
    → (i : ℕ) × (get_vertex f i ≡ some b) × (b.view ≡ l)
unfolding first_at
first_of_list f l b [] v h same e = cc
first_of_list f l b (r ∷ rs) v h same e =
    let found = vertex_of_list f l r b v h (rw (same, ==_refl r)) (ground arith) in
    ((f.containers r).id, found.0, found.1)

parent_vertex_found :
    (f : Forest) (b p : Block) → parent_vertex f b ≡ ok (some p) → get_vertex f b.prev_id ≡ some p
unfolding parent_vertex retained
parent_vertex_found f b p e = ground arith

-- The marked parent has a smaller view.
pub mark_round-lt :
    (f : Forest) (l : ℕ) (p : Block)
    → IsValid f
    → IsLevelled f
    → mark_round f l ≡ ok (some p)
    → p.view < l
unfolding mark_round
mark_round-lt f l p v h e =
    let (b, first, up) = >>=-eq-ok (first_at f (f.vertices_at_level l)) (parent_vertex f) e in
    let (i, at, view) = first_of_list f l b (f.vertices_at_level l) v h refl first in
    omega (arith, h.lower i b p at (parent_vertex_found f b p up))

first_at-ne-out_of_fuel : (f : Forest) (rs : List ℕ) → first_at f rs ≢ fault out_of_fuel
unfolding first_at
first_at-ne-out_of_fuel f [] = λ e. cc
first_at-ne-out_of_fuel f (r ∷ rs) = ground arith

mark_round-ne-out_of_fuel : (f : Forest) (l : ℕ) → mark_round f l ≢ fault out_of_fuel
unfolding mark_round parent_vertex
mark_round-ne-out_of_fuel f l = ground (arith, first_at-ne-out_of_fuel f (f.vertices_at_level l))

-- With more fuel than the level the loop does not run out of it.
pub mark_committed_ends :
    (fuel l : ℕ) (f : Forest) (c : ℕ → Bool)
    → IsValid f
    → IsLevelled f
    → l < fuel
    → mark_committed fuel f l c ≢ fault out_of_fuel
unfolding mark_committed
mark_committed_ends zero l f c v h lt = absurd (omega arith)
mark_committed_ends (suc fuel) l f c v h lt = elim (Outcome-cases (mark_round f l)) [
  | inl (none, e) ↦ rw e (ground arith)
  | inl (some p, e) ↦ ground (
    arith,
    e,
    mark_round-lt f l p v h e,
    mark_committed_ends fuel p.view f (update c p.view true) v h,
  )
  | inr (inl (x, e)) ↦ rw e (ground arith)
  | inr (inr (x, e)) ↦ rw e (ground (arith, mark_round-ne-out_of_fuel f l))
]
