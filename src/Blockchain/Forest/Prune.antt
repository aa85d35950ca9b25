-- ===== src/Blockchain/Forest/Prune.antt =====
-- `PruneUpToLevel` of blockchain/leveled_forrest.go, a loop to a definition.
pub mod Marking
pub mod Swept
pub mod Pruned
pub mod Levelled
use bamboo.Prelude.{
  ℕ, zero, suc, ◌+◌, ◌-◌, Bool, true, false, not, ◌&&◌, ◌||◌, Option, none, some, List, [], ◌∷◌,
  ◌++◌, update, ltb, leb, if◌then◌else◌,
}
use bamboo.Outcome.{
  Outcome, ok, err, fault, deref, bad_lowest_level, index_range, out_of_fuel, ◌>>=◌,
}
use bamboo.Types.{Block}
use bamboo.Blockchain.Block.{parent, level}
use bamboo.Blockchain.Forest.{Forest, get_vertex}

-- `f.verticesAtLevel[l][0].vertex`, which must be full.
unfoldable pub first_at : Forest → List ℕ → Outcome Block
first_at f [] = fault index_range
first_at f (r ∷ rs) = deref (f.containers r).vertex

-- The full parent of a block, unless it is missing or below the lowest level.
pub retained : Forest → Option Block → Option Block
retained f none = none
retained f (some b) = if ltb (level b) f.lowest_level then none else some b

unfoldable pub parent_vertex : Forest → Block → Outcome (Option Block)
unfolding retained
parent_vertex f b = do p ← parent b; ok (retained f (get_vertex f p.id))

-- One round of the first loop: the parent of the vertex that stands first at the level.
unfoldable pub mark_round : Forest → ℕ → Outcome (Option Block)
mark_round f l = do b ← first_at f (f.vertices_at_level l); parent_vertex f b

-- The first loop: from `level` down the parents, the levels of the committed chain.
unfoldable pub mark_committed : ℕ → Forest → ℕ → (ℕ → Bool) → Outcome (ℕ → Bool)
mark_committed zero f l committed = fault out_of_fuel
mark_committed (suc fuel) f l committed =
    let next = λ (p : Block). mark_committed fuel f (level p) (update committed (level p) true) in
    if leb f.lowest_level l && ltb 1 l
    then (do p ← mark_round f l; elim p [ none ↦ ok committed | some q ↦ next q ])
    else ok committed

-- What the second loop changes: the forest, the forked blocks and the count of pruned containers.
pub record Sweep : Type 0 where
  pub forest : Forest
  pub forked : List Block
  pub pruned : ℕ

forked_block : Bool → Option Block → List Block
forked_block forked none = []
forked_block forked (some b) = if forked then b ∷ [] else []

-- One container leaves the vertex map; a full one on a forked level is reported.
sweep_one : Bool → ℕ → Sweep → Sweep
unfolding forked_block
sweep_one is_fork r s =
    let c = s.forest.containers r in
    record {
      forest = record s.forest { vertices = update s.forest.vertices c.id none };
      forked = s.forked ++ forked_block is_fork c.vertex;
      pruned = s.pruned + 1;
    }

-- The containers of one level.
pub sweep_level : Bool → List ℕ → Sweep → Sweep
unfolding sweep_one
sweep_level is_fork [] s = s
sweep_level is_fork (r ∷ rs) s = sweep_level is_fork rs (sweep_one is_fork r s)

pub drop_level : ℕ → Sweep → Sweep
drop_level l s = record s {
  forest = record s.forest { vertices_at_level = update s.forest.vertices_at_level l [] };
}

-- n levels, from l upwards.
unfoldable pub sweep : (ℕ → Bool) → ℕ → ℕ → Sweep → Sweep
unfolding sweep_level drop_level
sweep committed zero l s = s
sweep committed (suc n) l s =
    sweep committed n (suc l)
      (drop_level l (sweep_level (not (committed l) && ltb 1 l) (s.forest.vertices_at_level l) s))

unfoldable pub finish : ℕ → Sweep → Sweep
finish level s = record s { forest = record s.forest { lowest_level = level } }

-- The forked blocks and the count of pruned containers, with the forest that is left.
unfoldable pub prune_up_to_level : ℕ → ℕ → Forest → Outcome Sweep
prune_up_to_level fuel level f =
    if ltb level f.lowest_level then err (bad_lowest_level level f.lowest_level) else (do
      committed ← mark_committed fuel f level (λ _. false)
      ok (
          finish level (
            sweep committed (level - f.lowest_level) f.lowest_level
              (record { forest = f; forked = []; pruned = 0 }))))
