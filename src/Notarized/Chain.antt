-- ===== src/Notarized/Chain.antt =====
-- The chain of notarized blocks: what it accepts, what extends it, and what it commits.
pub mod Search
pub mod Layers
pub mod Kept
pub mod Errors
use bamboo.Prelude.{
  zero, suc, ℤ, pos, negsuc, pos_part, neg_part, sub_ℕ, ℕ, ◌+◌, Bool, true, false, ◌&&◌, ◌||◌,
  Option, none, some, List, [], ◌∷◌, length, ltb, leb, ◌==◌, update, if◌then◌else◌,
}
use bamboo.Outcome.{Outcome, ok, err, fault, index_range, out_of_fuel, try}
use bamboo.Types.{View, Identifier, Qc, Block}
use bamboo.Exec.{Exec, pure, stop, modify, reads, ◌>>=◌, ◌>>◌}
use bamboo.Blockchain.Chain.{get_block_by_id}
use bamboo.Notarized.State.{Notarized}

-- Whether a layer has the block, and whether some layer has.
abbrev pub has_id : Identifier → List Block → Bool
has_id id [] = false
has_id id (b ∷ bs) = b.id == id || has_id id bs

abbrev pub extends : Identifier → List (List Block) → Bool
extends id [] = false
extends id (layer ∷ layers) = has_id id layer || extends id layers

-- sl.notarizedChain[i], which the list holds from its end: its last entry has index 0.
from_end : List (List Block) → ℕ → Option (List Block)
from_end [] i = none
from_end (layer ∷ layers) i = if i == length layers then some layer else from_end layers i

layer_at : List (List Block) → ℤ → Option (List Block)
unfolding from_end
layer_at chain (pos i) = from_end chain i
layer_at chain (negsuc i) = none

-- i--
pred : ℤ → ℤ
pred (pos zero) = negsuc 0
pred (pos (suc i)) = pos i
pred (negsuc i) = negsuc (i + 1)

-- i >= j
at_least : ℤ → ℤ → Bool
at_least i j = leb (pos_part j + neg_part i) (neg_part j + pos_part i)

-- A round at index i: whether its layer, or what the rounds after it see, has the parent.
seen : Identifier → Outcome Bool → Option (List Block) → Outcome Bool
seen id rest none = fault index_range
seen id rest (some layer) = if has_id id layer then ok true else rest

-- The loop `for i := ...; i >= 0 || i >= height-3; i--` from index i on.
search : ℕ → Identifier → List (List Block) → ℤ → Outcome Bool
unfolding layer_at pred at_least seen
search zero id chain i = fault out_of_fuel
search (suc fuel) id chain i =
    let rest = search fuel id chain (pred i) in
    if at_least i (pos 0) || at_least i (sub_ℕ (length chain) 3)
    then seen id rest (layer_at chain i)
    else ok false

-- With the parent seen a layer is added; else the certificate is to be buffered.
added : Block → List (List Block) → Outcome Bool → Outcome (Option (List (List Block)))
added b chain (ok true) = ok (some ((b ∷ []) ∷ chain))
added b chain (ok false) = ok none
added b chain (err e) = err e
added b chain (fault x) = fault x

-- The first block needs no parent. The index goes down from the last layer to -1 at most, one round
-- each.
unfoldable pub notarize : Block → List (List Block) → Outcome (Option (List (List Block)))
unfolding search added
notarize b [] = ok (some ((b ∷ []) ∷ []))
notarize b (layer ∷ layers) =
    let chain = layer ∷ layers in
    added b chain (search (suc (length chain)) b.prev_id chain (sub_ℕ (length chain) 1))

-- `votingRule`
pub voting_rule : Block → Notarized → Outcome Bool
voting_rule b s = if leb b.view 2 then ok true else elim s.notarized_chain [
  | [] ↦ fault index_range
  | layer ∷ layers ↦ ok (has_id b.prev_id layer)
]

-- `commitRule`: the last three layers have one block each, in consecutive views.
unfoldable pub commit_rule : List (List Block) → Option Block
commit_rule ((c ∷ []) ∷ (b ∷ []) ∷ (a ∷ []) ∷ layers) =
    if a.view + 1 == b.view && b.view + 1 == c.view then some b else none
commit_rule layers = none

pub buffer_notarized : Identifier → Qc → Notarized → Notarized
buffer_notarized id qc s = record s {
  buffered_notarized_block = update s.buffered_notarized_block id (some qc);
}

abbrev noted : Block → Qc → Outcome (Option (List (List Block))) → Exec Notarized Bool
noted b qc (ok (some chain)) = modify (λ s. record s { notarized_chain = chain }) >> pure true
noted b qc (ok none) = modify (buffer_notarized b.prev_id qc) >> pure false
noted b qc (err e) = pure false
noted b qc (fault x) = stop x

note_block : Qc → Option Block → Exec Notarized Bool
note_block qc none = pure false
note_block qc (some b) = λ s. noted b qc (notarize b s.notarized_chain) s

-- `updateNotarizedChain`: whether it returned without an error.
pub update_notarized_chain : Qc → Exec Notarized Bool
update_notarized_chain qc = do
  found ← reads λ s. try (get_block_by_id s.bc qc.block_id)
  note_block qc found
