-- ===== src/Mempool/Bloom.antt =====
-- mempool/bloom.go. `uint` has 64 bits. The mask of `hash`, 2^25 - 1, keeps the last 25 bits.
use bamboo.Prelude.{
  ℕ, ◌+◌, ◌*◌, ◌%◌, ◌^◌, ◌≡◌, refl, Bool, true, false, ◌&&◌, ◌||◌, List, [], ◌∷◌, ◌==◌, arith,
}

-- The bit set of the library: `New`, `Set` and `Test`.
pub record BitSet : Type 1 where
  pub Bits : Type 0
  pub new : Bits
  pub set : ℕ → Bits → Bits
  pub test : ℕ → Bits → Bool

-- What its documentation says of `Set` and `Test`.
pub record IsBitSet (B : BitSet) : Type 0 where
  pub test-set : (i j : ℕ) (s : B.Bits) → B.test i (B.set j s) ≡ (i == j || B.test i s)

abbrev pub seeds : List ℕ
seeds = 7 ∷ 11 ∷ 13 ∷ 31 ∷ 37 ∷ 61 ∷ []

hash_from : ℕ → ℕ → List ℕ → ℕ
hash_from seed result [] = result
hash_from seed result (c ∷ value) = hash_from seed ((result * seed + c) % 2 ^ 64) value

pub hash : ℕ → List ℕ → ℕ
unfolding hash_from
hash seed value = hash_from seed 0 value % 2 ^ 25

module _ (B : BitSet) where
  pub new_bloom_filter : B.Bits
  new_bloom_filter = B.new

  -- The loop over the hash functions, one for each seed.
  add_all : List ℕ → List ℕ → B.Bits → B.Bits
  add_all [] value s = s
  add_all (seed ∷ more) value s = add_all more value (B.set (hash seed value) s)

  pub add : List ℕ → B.Bits → B.Bits
  unfolding add_all
  add value s = add_all seeds value s

  test_all : List ℕ → List ℕ → B.Bits → Bool
  test_all [] value s = true
  test_all (seed ∷ more) value s = B.test (hash seed value) s && test_all more value s

  pub contains : List ℕ → B.Bits → Bool
  unfolding test_all
  contains [] s = false
  contains (c ∷ value) s = test_all seeds (c ∷ value) s

  module _ (law : IsBitSet B) where
    add_all-test :
        (more value : List ℕ) (i : ℕ) (s : B.Bits)
        → B.test i s ≡ true
        → B.test i (add_all more value s) ≡ true
    unfolding add_all
    add_all-test [] value i s h = h
    add_all-test (seed ∷ more) value i s h =
        add_all-test more value i (B.set (hash seed value) s)
          (ground (arith, law.test-set i (hash seed value) s, h))

    test_all-add_all :
        (more value other more' : List ℕ) (s : B.Bits)
        → test_all more value s ≡ true
        → test_all more value (add_all more' other s) ≡ true
    unfolding test_all
    test_all-add_all [] value other more' s h = refl
    test_all-add_all (seed ∷ more) value other more' s h = ground (
      arith,
      h,
      add_all-test more' other (hash seed value) s,
      test_all-add_all more value other more' s,
    )

    added_all :
        (more value : List ℕ) (s : B.Bits) → test_all more value (add_all more value s) ≡ true
    unfolding test_all add_all
    added_all [] value s = refl
    added_all (seed ∷ more) value s = ground (
      arith,
      law.test-set (hash seed value) (hash seed value) s,
      add_all-test more value (hash seed value) (B.set (hash seed value) s),
      added_all more value (B.set (hash seed value) s),
    )

    pub contains-add :
        (c : ℕ) (value : List ℕ) (s : B.Bits) → contains (c ∷ value) (add (c ∷ value) s) ≡ true
    unfolding contains add
    contains-add c value s = added_all seeds (c ∷ value) s

    pub contains-add_other :
        (value other : List ℕ) (s : B.Bits)
        → contains value s ≡ true
        → contains value (add other s) ≡ true
    unfolding contains add
    contains-add_other [] other s h = h
    contains-add_other (c ∷ value) other s h = test_all-add_all seeds (c ∷ value) other seeds s h
