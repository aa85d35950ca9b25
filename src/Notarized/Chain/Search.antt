-- ===== src/Notarized/Chain/Search.antt =====
-- What the loop of `updateNotarizedChain` finds.
use mathlib.Core.List.{append_assoc}
use bamboo.Prelude.{
  ℕ, zero, suc, ◌≡◌, refl, ◌∙◌, ap, Bool, true, false, none, some, List, [], ◌∷◌, ◌++◌, length,
  length-append, pos, negsuc, sub_ℕ, ltb, arith, if◌then◌else◌, Bool-cases, inl, inr,
}
use bamboo.Outcome.{Outcome, ok, fault, index_range}
use bamboo.Types.{Identifier, Block}
use bamboo.Notarized.Chain.{
  has_id, extends, from_end, layer_at, pred, at_least, seen, search, added, notarize,
}

-- The entry that `post` follows has the index length post.
from_end-append :
    (pre : List (List Block)) (layer : List Block) (post : List (List Block))
    → from_end (pre ++ layer ∷ post) (length post) ≡ some layer
unfolding from_end
from_end-append [] layer post = ground arith
from_end-append (x ∷ pre) layer post =
    ground (arith, from_end-append pre layer post, length-append pre (layer ∷ post))

-- What the loop answers where only the layers of `post` are left.
abbrev expected : Identifier → ℕ → List (List Block) → Outcome Bool
expected id height post =
    if extends id post then ok true else (if ltb height 3 then fault index_range else ok false)

search-round :
    (fuel i : ℕ) (id : Identifier) (chain : List (List Block)) (layer : List Block)
    → from_end chain i ≡ some layer
    → search (suc fuel) id chain (pos i)
      ≡ (if has_id id layer then ok true else search fuel id chain (pred (pos i)))
unfolding search layer_at at_least seen
search-round fuel i id chain layer e = ground (arith, e)

search-end :
    (fuel : ℕ) (id : Identifier) (chain : List (List Block))
    → search (suc fuel) id chain (negsuc 0) ≡ expected id (length chain) []
unfolding search layer_at at_least seen
search-end fuel id chain = ground arith

pred-pos : (n : ℕ) → pred (pos n) ≡ sub_ℕ n 1
unfolding pred
pred-pos zero = refl
pred-pos (suc n) = ground arith

search-expected :
    (id : Identifier) (pre post : List (List Block))
    → search (suc (length post)) id (pre ++ post) (sub_ℕ (length post) 1)
      ≡ expected id (length (pre ++ post)) post
search-expected id pre [] = search-end 0 id (pre ++ [])
search-expected id pre (layer ∷ post) =
    let chain = pre ++ layer ∷ post in
    let later : search (suc (length post)) id chain (sub_ℕ (length post) 1)
        ≡ expected id (length chain) post =
      rw (← append_assoc pre (layer ∷ []) post) (search-expected id (pre ++ layer ∷ []) post) in
    let round =
      search-round (suc (length post)) (length post) id chain layer
        (from_end-append pre layer post) in
    let step : sub_ℕ (suc (length post)) 1 ≡ pos (length post) = ground arith in
    rw (step, round, pred-pos (length post), later) (ground arith)

added-expected :
    (b : Block) (chain : List (List Block)) (height : ℕ) (test : Bool)
    → added b chain
        (if test then ok true else (if ltb height 3 then fault index_range else ok false))
      ≡ (if test
          then ok (some ((b ∷ []) ∷ chain))
          else (if ltb height 3 then fault index_range else ok none))
unfolding added
added-expected b chain height true = refl
added-expected b chain height false = elim (Bool-cases (ltb height 3)) [
  | inl short ↦ rw short refl
  | inr long ↦ rw long refl
]

-- With a layer in the chain, the loop finds the parent where some layer has it; where none has, it
-- ends with an index out of range for one or two layers.
pub notarize_lem :
    (b : Block) (layer : List Block) (layers : List (List Block))
    → notarize b (layer ∷ layers) ≡ (
        if extends b.prev_id (layer ∷ layers)
        then ok (some ((b ∷ []) ∷ layer ∷ layers))
        else (if ltb (length (layer ∷ layers)) 3 then fault index_range else ok none))
unfolding notarize
notarize_lem b layer layers =
    let chain = layer ∷ layers in
    ap (added b chain) (search-expected b.prev_id [] chain)
    ∙ added-expected b chain (length chain) (extends b.prev_id chain)
