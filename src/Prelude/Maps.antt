-- ===== src/Prelude/Maps.antt =====
-- Go maps. A map that the code reads by key is a function; one that it also counts or ranges over
-- is an association list without repeated keys, in the order of first insertion.
use Prim.Native.Nat.{ℕ, suc, ◌+◌}
use mathlib.Core.Path.{◌≡◌, refl, ap}
use mathlib.Core.Bool.{Bool, true, false, ◌||◌}
use mathlib.Core.List.{List, [], ◌∷◌}
use mathlib.Core.Option.{Option, none, some}
use native.Mathlib.Omega.{arith}
use bamboo.Prelude.Tests.{◌==◌, if◌then◌else◌}
use bamboo.Prelude.Lists.{length, mem, AllDistinct, All}

-- m[k] = v
abbrev pub update {ℓ} : {A : Type ℓ} → (ℕ → A) → ℕ → A → ℕ → A
update f k v j = if k == j then v else f j

module _ {ℓ} {V : Type ℓ} where
  abbrev pub keys : List (ℕ × V) → List ℕ
  keys [] = []
  keys ((k, v) ∷ m) = k ∷ keys m

  abbrev pub values : List (ℕ × V) → List V
  values [] = []
  values ((k, v) ∷ m) = v ∷ values m

  abbrev pub lookup : ℕ → List (ℕ × V) → Option V
  lookup j [] = none
  lookup j ((k, v) ∷ m) = if k == j then some v else lookup j m

  -- m[k] = v on an association list
  unfoldable pub insert : ℕ → V → List (ℕ × V) → List (ℕ × V)
  insert k v [] = (k, v) ∷ []
  insert k v ((j, w) ∷ m) = let rest = insert k v m in if j == k then (k, v) ∷ m else (j, w) ∷ rest

  pub mem-keys-insert :
      (k a : ℕ) (v : V) (m : List (ℕ × V))
      → mem a (keys (insert k v m)) ≡ (k == a || mem a (keys m))
  unfolding insert
  mem-keys-insert k a v [] = refl
  mem-keys-insert k a v ((j, w) ∷ m) = ground (arith, mem-keys-insert k a v m)

  pub lookup-insert :
      (k j : ℕ) (v : V) (m : List (ℕ × V))
      → lookup j (insert k v m) ≡ (if k == j then some v else lookup j m)
  unfolding insert
  lookup-insert k j v [] = refl
  lookup-insert k j v ((i, w) ∷ m) = ground (arith, lookup-insert k j v m)

  -- An insertion adds one entry for a new key, and none for a known one.
  pub length-insert :
      (k : ℕ) (v : V) (m : List (ℕ × V))
      → length (insert k v m) ≡ length m + (if mem k (keys m) then 0 else 1)
  unfolding insert
  length-insert k v [] = omega arith
  length-insert k v ((j, w) ∷ m) = ground (arith, length-insert k v m)

  pub insert-AllDistinct :
      (k : ℕ) (v : V) (m : List (ℕ × V)) → AllDistinct (keys m) → AllDistinct (keys (insert k v m))
  unfolding insert
  insert-AllDistinct k v [] d = (refl, tt)
  insert-AllDistinct k v ((j, w) ∷ m) d =
      ground (arith, insert-AllDistinct k v m d.1, mem-keys-insert k j v m)

  pub insert-All {κ} :
      (P : ℕ × V → Type κ) (k : ℕ) (v : V) (m : List (ℕ × V))
      → P (k, v)
      → All P m
      → All P (insert k v m)
  unfolding insert
  insert-All P k v [] p h = (p, tt)
  insert-All P k v ((j, w) ∷ m) p h = split (j == k) (p, h.1) (h.0, insert-All P k v m p h.1)
    where
      split :
          (b : Bool)
          → All P ((k, v) ∷ m)
          → All P ((j, w) ∷ insert k v m)
          → All P (if b then (k, v) ∷ m else (j, w) ∷ insert k v m)
      split true x y = x
      split false x y = y

  pub length-keys : (m : List (ℕ × V)) → length (keys m) ≡ length m
  length-keys [] = refl
  length-keys ((k, v) ∷ m) = ap suc (length-keys m)
