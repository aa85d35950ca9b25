-- ===== src/Mempool/Tests.antt =====
-- A pool with room for two transactions beyond the first, and a bit set of functions.
use bamboo.Prelude.{ℕ, ◌≡◌, refl, Bool, true, false, ◌||◌, ◌==◌, List, [], ◌∷◌, ◌++◌, map, some}
use bamboo.Types.{Transaction}
use bamboo.Mempool.{new_backend}
use bamboo.Mempool.Bloom.{BitSet, IsBitSet, contains}
use bamboo.Mempool.Payload.{Op, insert, generate, run, accepted, run-accepted, run-contains}

abbrev bits : BitSet
bits = record { Bits = ℕ → Bool; new = λ i. false; set = λ j s i. i == j || s i; test = λ i s. s i }

bits-IsBitSet : IsBitSet bits
bits-IsBitSet = record { test-set = λ i j s. refl }

abbrev txn : ℕ → Transaction
txn n = record { id = n ∷ []; node_id = 1; timestamp = 0 }

abbrev ops : List Op
ops = insert 5 (txn 1) ∷ insert 6 (txn 2) ∷ generate 1 ∷ insert 7 (txn 3) ∷ generate 4 ∷ []

run-accepted_example :
    (run bits ops (new_backend bits 1)).0 ++ map some (run bits ops (new_backend bits 1)).1.txns
    ≡ map some ((new_backend bits 1).txns ++ accepted bits ops (new_backend bits 1))
run-accepted_example = run-accepted bits ops (new_backend bits 1) tt

run-contains_example :
    contains bits (1 ∷ []) (run bits (insert 5 (txn 1) ∷ ops) (new_backend bits 0)).1.bloom ≡ true
run-contains_example = run-contains bits bits-IsBitSet 5 (txn 1) 1 [] ops (new_backend bits 0) refl
