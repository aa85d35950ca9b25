-- ===== src/Blockchain/Forest/Tests.antt =====
-- The theorems on the forest at two blocks of consecutive views.
use bamboo.Prelude.{ℕ, ◌-◌, ◌≡◌, refl, Bool, false, some, []}
use bamboo.Outcome.{Outcome, ok, err, fault}
use bamboo.Blockchain.Forest.{new_forest, add_vertex, get_vertex}
use bamboo.Blockchain.Forest.Lookup.{get_vertex-add_vertex}
use bamboo.Blockchain.Forest.Prune.{
  Sweep, prune_up_to_level, mark_committed, mark_round, first_at, parent_vertex, sweep, finish,
}
use bamboo.Blockchain.Forest.Prune.Pruned.{Pruned, population, forks, prune_up_to_level-Pruned}
use bamboo.Blockchain.Forest.Verify.{verify_vertex}
use bamboo.Blockchain.Samples.{
  block_2, forest_1, forest_2, forest_2-added, forest_1-IsValid, forest_2-IsValid,
}

get_vertex-add_vertex_example : get_vertex forest_2 12 ≡ some block_2
unfolding get_vertex forest_1 new_forest add_vertex
get_vertex-add_vertex_example =
    get_vertex-add_vertex block_2 forest_1 forest_2 12 forest_1-IsValid forest_2-added

abbrev or_none : Outcome Sweep → Sweep
or_none (ok s) = s
or_none (err e) = record { forest = forest_2; forked = []; pruned = 0 }
or_none (fault x) = record { forest = forest_2; forked = []; pruned = 0 }

swept : Sweep
swept = or_none (prune_up_to_level 3 2 forest_2)

pruned_2 : prune_up_to_level 3 2 forest_2 ≡ ok swept
unfolding prune_up_to_level mark_committed mark_round first_at parent_vertex sweep finish forest_1
    forest_2 new_forest add_vertex get_vertex swept
pruned_2 = refl

prune_up_to_level-Pruned_example :
    Pruned forest_2 2 swept.forest
    × (swept.pruned ≡ population forest_2 (2 - forest_2.lowest_level) forest_2.lowest_level)
    × ((committed : ℕ → Bool) × (mark_committed 3 forest_2 2 (λ _. false) ≡ ok committed)
        × (swept.forked
            ≡ forks committed forest_2 (2 - forest_2.lowest_level) forest_2.lowest_level))
prune_up_to_level-Pruned_example =
    prune_up_to_level-Pruned 3 2 forest_2 swept forest_2-IsValid pruned_2

verified_2 : verify_vertex forest_1 block_2 ≡ ok tt
unfolding verify_vertex forest_1 new_forest add_vertex get_vertex
verified_2 = refl
