-- ===== src/Notarized/Chain/Layers.antt =====
-- The layers of the notarized chain.
use bamboo.Prelude.{
  ◌+◌, ◌≡◌, refl, sym, ◌∙◌, ◌⊎◌, inl, inr, true, ◌&&◌, ◌==◌, some, List, [], ◌∷◌, length, ltb, none,
  if◌then◌else◌, arith, Bool-cases,
}
use bamboo.Outcome.{ok}
use bamboo.Types.{Block}
use bamboo.Notarized.Chain.Search.{notarize_lem}
use bamboo.Notarized.Chain.{extends, notarize, commit_rule}

-- A layer has one block, which extends an earlier layer unless there is none.
pub record Layer (layer : List Block) (layers : List (List Block)) : Type 0 where
  pub b : Block
  pub single : layer ≡ b ∷ []
  pub parent : (layers ≡ []) ⊎ (extends b.prev_id layers ≡ true)

abbrev pub IsNotarized : List (List Block) → Type 0
IsNotarized [] = Unit {0}
IsNotarized (layer ∷ layers) = Layer layer layers × IsNotarized layers

-- What `updateNotarizedChain` adds: one layer, with the block alone.
pub notarize-Layer :
    (b : Block) (c c' : List (List Block))
    → notarize b c ≡ ok (some c')
    → (c' ≡ (b ∷ []) ∷ c) × Layer (b ∷ []) c
unfolding notarize
notarize-Layer b [] c' e = (cc, record { b = b; single = refl; parent = inl refl })
notarize-Layer b (layer ∷ layers) c' e =
    let e' = sym (notarize_lem b layer layers) ∙ e in
    elim (Bool-cases (extends b.prev_id (layer ∷ layers))) [
      | inl yes' ↦ (ground (arith, e', yes'), record { b = b; single = refl; parent = inr yes' })
      | inr no' ↦ elim (Bool-cases (ltb (length (layer ∷ layers)) 3)) [
        | inl short ↦ absurd (ground (arith, e', no', short))
        | inr long ↦ absurd (ground (arith, e', no', long))
      ]
    ]

-- The last three layers have one block each, and b is the second of them.
pub record Three (c : List (List Block)) (b : Block) : Type 0 where
  pub first : Block
  pub last : Block
  pub rest : List (List Block)
  pub chain : c ≡ (last ∷ []) ∷ (b ∷ []) ∷ (first ∷ []) ∷ rest
  pub views : (first.view + 1 ≡ b.view) × (b.view + 1 ≡ last.view)

consecutive_lem :
    (x y z b : Block)
    → (if z.view + 1 == y.view && y.view + 1 == x.view then some y else none) ≡ some b
    → (y ≡ b) × (z.view + 1 ≡ y.view) × (y.view + 1 ≡ x.view)
consecutive_lem x y z b e = elim (Bool-cases (z.view + 1 == y.view && y.view + 1 == x.view)) [
  | inl yes' ↦ (some-injective (rw yes' at e), ground (arith, yes'), ground (arith, yes'))
  | inr no' ↦ absurd (ground (arith, e, no'))
]
  where
    some-injective : {a b : Block} → some a ≡ some b → a ≡ b
    some-injective h = cc

-- `commitRule` answers with a block only where the last three layers have one block each, in three
-- consecutive views, and the block is the second of them.
pub commit_rule-Three : (c : List (List Block)) (b : Block) → commit_rule c ≡ some b → Three c b
unfolding commit_rule
commit_rule-Three ((x ∷ []) ∷ (y ∷ []) ∷ (z ∷ []) ∷ layers) b e =
    let (same, low, high) = consecutive_lem x y z b e in
    record {
      first = z;
      last = x;
      rest = layers;
      chain = rw same refl;
      views = rw (← same) (low, high);
    }
commit_rule-Three [] b e = absurd (cc)
commit_rule-Three ([] ∷ layers) b e = absurd (cc)
commit_rule-Three ((x ∷ x' ∷ xs) ∷ layers) b e = absurd (cc)
commit_rule-Three ((x ∷ []) ∷ []) b e = absurd (cc)
commit_rule-Three ((x ∷ []) ∷ [] ∷ layers) b e = absurd (cc)
commit_rule-Three ((x ∷ []) ∷ (y ∷ y' ∷ ys) ∷ layers) b e = absurd (cc)
commit_rule-Three ((x ∷ []) ∷ (y ∷ []) ∷ []) b e = absurd (cc)
commit_rule-Three ((x ∷ []) ∷ (y ∷ []) ∷ [] ∷ layers) b e = absurd (cc)
commit_rule-Three ((x ∷ []) ∷ (y ∷ []) ∷ (z ∷ z' ∷ zs) ∷ layers) b e = absurd (cc)
