-- ===== src/Blockchain/Chain/Heightest/Highest.antt =====
-- The block that is flagged after a commit.
use bamboo.Prelude.{
  ◌≡◌, ◌≤◌, true, List, [], ◌∷◌, some, mem, ltb, ltb→lt, ltb→ge, arith, Bool-cases, inl, inr, All,
  subst,
}
use bamboo.Types.{Block}
use bamboo.Blockchain.Chain.Commit.{ids}
use bamboo.Blockchain.Chain.Heightest.{heightest_from, heightest}

-- Not below any block of the list, and one of them.
pub record Heightest (h : Block) (blocks : List Block) : Type 0 where
  pub over : All (λ b. b.view ≤ h.view) blocks
  pub one : mem h.id (ids blocks) ≡ true

mem_first : (b : Block) (bs : List Block) → mem b.id (ids (b ∷ bs)) ≡ true
mem_first b bs = ground arith

mem_third :
    (h a b : Block) (bs : List Block)
    → mem h.id (ids (a ∷ bs)) ≡ true
    → mem h.id (ids (a ∷ b ∷ bs)) ≡ true
mem_third h a b bs m = ground (arith, m)

mem_rest :
    (h a b : Block) (bs : List Block)
    → mem h.id (ids (b ∷ bs)) ≡ true
    → mem h.id (ids (a ∷ b ∷ bs)) ≡ true
mem_rest h a b bs m = ground (arith, m)

heightest_from-Heightest : (a : Block) (bs : List Block) → Heightest (heightest_from a bs) (a ∷ bs)
unfolding heightest_from
heightest_from-Heightest a [] = record { over = (omega arith, tt); one = mem_first a [] }
heightest_from-Heightest a (b ∷ bs) = elim (Bool-cases (ltb a.view b.view)) [
  | inl up ↦
      let r = heightest_from-Heightest b bs in
      let lt = ltb→lt a.view b.view up in
      let out : Heightest (heightest_from b bs) (a ∷ b ∷ bs) = record {
        over = (omega (arith, lt, r.over.0), r.over);
        one = mem_rest (heightest_from b bs) a b bs r.one;
      } in
      rw up out
  | inr low ↦
      let r = heightest_from-Heightest a bs in
      let ge = ltb→ge a.view b.view low in
      let out : Heightest (heightest_from a bs) (a ∷ b ∷ bs) = record {
        over = (r.over.0, (omega (arith, ge, r.over.0), r.over.1));
        one = mem_third (heightest_from a bs) a b bs r.one;
      } in
      rw low out
]

-- The block that is chosen for the flag is one of those that were committed, and none of them has a
-- higher view.
pub heightest-Heightest :
    (blocks : List Block) (h : Block) → heightest blocks ≡ some h → Heightest h blocks
unfolding heightest
heightest-Heightest [] h e = absurd (cc)
heightest-Heightest (b ∷ bs) h e =
    let same : heightest_from b bs ≡ h = cc in
    subst (λ x. Heightest x (b ∷ bs)) same (heightest_from-Heightest b bs)
