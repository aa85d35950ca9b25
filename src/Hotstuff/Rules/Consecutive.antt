-- ===== src/Hotstuff/Rules/Consecutive.antt =====
-- What `commitRule` answers, and what the rules leave alone.
use bamboo.Prelude.{◌+◌, ◌≡◌, refl, ◌∙◌, ap, true, some, leb, arith, Bool-cases, inl, inr}
use bamboo.Outcome.{ok, >>=-eq-ok, ok-injective}
use bamboo.Types.{Qc, Block}
use bamboo.Blockchain.Chain.{BlockChain, get_parent_block}
use bamboo.Chained.Certificate.Frame.{raise_preferred_view-frame}
use bamboo.Hotstuff.State.{Hotstuff}
use bamboo.Hotstuff.Rules.{preferred_by, update_preferred_view, consecutive, commit_rule}

-- The certificate's block has a parent and a grandparent in the forest, in consecutive views; the
-- second comes just before the view that the certificate names.
pub record Consecutive (bc : BlockChain) (qc : Qc) (g : Block) : Type 0 where
  pub p : Block
  pub parent : get_parent_block bc qc.block_id ≡ ok p
  pub grand_parent : get_parent_block bc p.id ≡ ok g
  pub views : (g.view + 1 ≡ p.view) × (p.view + 1 ≡ qc.view)

consecutive_lem :
    (qc : Qc) (p g : Block)
    → consecutive qc p g ≡ true
    → (g.view + 1 ≡ p.view) × (p.view + 1 ≡ qc.view)
unfolding consecutive
consecutive_lem qc p g e = (ground (arith, e), ground (arith, e))

pub commit_rule-Consecutive :
    (qc : Qc) (s : Hotstuff) (g : Block) → commit_rule qc s ≡ ok (some g) → Consecutive s.bc qc g
unfolding commit_rule
commit_rule-Consecutive qc s g e =
    let (p, parent, e1) = >>=-eq-ok (get_parent_block s.bc qc.block_id) _ e in
    let (h, grand, e2) = >>=-eq-ok (get_parent_block s.bc p.id) _ e1 in
    elim (Bool-cases (consecutive qc p h)) [
      | inl yes' ↦
          let same : h ≡ g = some-injective (rw yes' at (ok-injective e2)) in
          record {
            p = p;
            parent = parent;
            grand_parent = grand ∙ ap ok same;
            views = rw (← same) (consecutive_lem qc p h yes');
          }
      | inr no' ↦ absurd (ground (arith, e2, no'))
    ]
  where
    some-injective : {a b : Block} → some a ≡ some b → a ≡ b
    some-injective h = cc

-- The preferred view is all that `updatePreferredView` may change.
pub update_preferred_view-frame :
    (qc : Qc) (s s' : Hotstuff)
    → update_preferred_view qc s ≡ ok s'
    → (s'.bc ≡ s.bc) × (s'.committed_blocks ≡ s.committed_blocks)
unfolding update_preferred_view
update_preferred_view-frame qc s s' e = elim (Bool-cases (leb qc.view 2)) [
  | inl early ↦ let same : ok s ≡ ok s' = rw early at e in rw (← ok-injective same) (refl, refl)
  | inr low ↦
      let (v, _, done) = >>=-eq-ok (preferred_by qc s) _ (rw low at e) in
      rw (← ok-injective done) (raise_preferred_view-frame v s)
]
