-- ===== src/Notarized/Proposal/Safe.antt =====
-- A proposal finds a block to extend.
use bamboo.Prelude.{arith, ◌≡◌, refl, ◌⊎◌, inl, inr, List, [], ◌∷◌, true}
use bamboo.Outcome.{ok}
use bamboo.Types.{Identifier, Block}
use bamboo.Notarized.Chain.Layers.{IsNotarized}
use bamboo.Notarized.Chain.{extends}
use bamboo.Notarized.Proposal.{tail_id}

-- With a well-formed notarized chain the id is that of the genesis block, where nothing is
-- notarized, or of a notarized one; no index is out of range.
pub tail_id-IsNotarized :
    (genesis : Identifier) (c : List (List Block))
    → IsNotarized c
    → (id : Identifier) × (tail_id genesis c ≡ ok id)
      × (((c ≡ []) × (id ≡ genesis)) ⊎ (extends id c ≡ true))
unfolding tail_id
tail_id-IsNotarized genesis [] n = (genesis, refl, inl (refl, refl))
tail_id-IsNotarized genesis ([] ∷ layers) (l, n) = absurd (cc)
tail_id-IsNotarized genesis ((b ∷ bs) ∷ layers) n = (b.id, refl, inr (ground arith))
