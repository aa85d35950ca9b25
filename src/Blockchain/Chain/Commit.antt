-- ===== src/Blockchain/Chain/Commit.antt =====
-- What `CommitBlock` commits: the block and its ancestors above the lowest level, each once.
use bamboo.Prelude.{
  ℕ, zero, suc, ◌+◌, ◌≤◌, ◌<◌, ◌≡◌, refl, sym, ◌∙◌, none, some, List, [], ◌∷◌, length, ltb, ltb→lt,
  ltb→ge, lt→ltb, ge→ltb, mem, subst, if◌then◌else◌, arith, Option-cases, Bool-cases, inl, inr,
}
use bamboo.Outcome.{Outcome, ok, ◌>>=◌, >>=-eq-ok, ok-injective}
use bamboo.Types.{View, Identifier, Block}
use bamboo.Blockchain.Forest.{Forest, get_vertex}
use bamboo.Blockchain.Forest.Levels.{IsLevelled}
use bamboo.Blockchain.Quorum.Votes.{votes-forget_votes}
use bamboo.Blockchain.Chain.{BlockChain, commit_one, walk}

-- The blocks from b down its parents that are above a level, newest first. The list ends at that
-- level or where a parent is not known.
pub data Ancestors (f : Forest) (low : ℕ) : Block → List Block → Type 0 where
  stop : (b : Block) → b.view ≤ low → Ancestors f low b []
  last : (b : Block) → low < b.view → get_vertex f b.prev_id ≡ none → Ancestors f low b (b ∷ [])
  next :
      (b p : Block) (rest : List Block)
      → low < b.view
      → get_vertex f b.prev_id ≡ some p
      → Ancestors f low p rest
      → Ancestors f low b (b ∷ rest)

abbrev pub ids : List Block → List Identifier
ids [] = []
ids (b ∷ bs) = b.id ∷ ids bs

-- What the walk changes of the chain.
pub record Walked (bc : BlockChain) (blocks : List Block) (bc' : BlockChain) : Type 0 where
  pub forrest : bc'.forrest ≡ bc.forrest
  pub counted : bc'.committed_block_no ≡ bc.committed_block_no + length blocks
  pub highest : bc'.highest_comitted ≡ bc.highest_comitted
  pub pruned : bc'.pruned_block_no ≡ bc.pruned_block_no
  pub votes :
      (i : Identifier)
      → bc'.quorum.votes i ≡ (if mem i (ids blocks) then none else bc.quorum.votes i)

walk_stop :
    (fuel : ℕ) (view : View) (b : Block) (bc : BlockChain)
    → b.view ≤ bc.forrest.lowest_level
    → walk (suc fuel) view b bc ≡ ok ([], bc)
unfolding walk
walk_stop fuel view b bc le = rw (ge→ltb _ _ le)

walk_last :
    (fuel : ℕ) (view : View) (b : Block) (bc : BlockChain)
    → bc.forrest.lowest_level < b.view
    → get_vertex bc.forrest b.prev_id ≡ none
    → walk (suc fuel) view b bc ≡ ok (b ∷ [], commit_one view b bc)
unfolding walk
walk_last fuel view b bc lt e = rw (lt→ltb _ _ lt, e)

abbrev onto : Block → List Block × BlockChain → Outcome (List Block × BlockChain)
onto b (bs, bc) = ok (b ∷ bs, bc)

walk_next :
    (fuel : ℕ) (view : View) (b p : Block) (bc : BlockChain)
    → bc.forrest.lowest_level < b.view
    → get_vertex bc.forrest b.prev_id ≡ some p
    → walk (suc fuel) view b bc ≡ (walk fuel view p (commit_one view b bc) >>= onto b)
unfolding walk
walk_next fuel view b p bc lt e = rw (lt→ltb _ _ lt, e)

commit_one-Walked :
    (view : View) (b : Block) (bc : BlockChain) → Walked bc (b ∷ []) (commit_one view b bc)
unfolding commit_one
commit_one-Walked view b bc = record {
  forrest = refl;
  counted = omega arith;
  highest = refl;
  pruned = refl;
  votes = λ i. ground (arith, votes-forget_votes b.id i bc.quorum);
}

Walked-refl : (bc : BlockChain) → Walked bc [] bc
Walked-refl bc = record {
  forrest = refl;
  counted = omega arith;
  highest = refl;
  pruned = refl;
  votes = λ i. refl;
}

Walked-trans :
    (bc bd be : BlockChain) (b : Block) (bs : List Block)
    → Walked bc (b ∷ []) bd
    → Walked bd bs be
    → Walked bc (b ∷ bs) be
Walked-trans bc bd be b bs h k = record {
  forrest = k.forrest ∙ h.forrest;
  counted = omega (arith, h.counted, k.counted);
  highest = k.highest ∙ h.highest;
  pruned = k.pruned ∙ h.pruned;
  votes = λ i. ground (arith, h.votes i, k.votes i);
}

-- What the walk answers.
abbrev pub Walks : BlockChain → Block → List Block × BlockChain → Type 0
Walks bc b r = Ancestors bc.forrest bc.forrest.lowest_level b r.0 × Walked bc r.0 r.1

-- A walk that ends has committed the ancestors of its block above the lowest level.
pub walk-Walks :
    (fuel : ℕ) (view : View) (b : Block) (bc : BlockChain) (r : List Block × BlockChain)
    → walk fuel view b bc ≡ ok r
    → Walks bc b r
walk-Walks zero view b bc r e = absurd (unfold walk in cc)
walk-Walks (suc fuel) view b bc r e = elim (Bool-cases (ltb bc.forrest.lowest_level b.view)) [
  | inr low ↦
      let le = ltb→ge _ _ low in
      subst (Walks bc b) (ok-injective (sym (walk_stop fuel view b bc le) ∙ e))
        (stop b le, Walked-refl bc)
  | inl high ↦
      let lt = ltb→lt _ _ high in
      let one = commit_one-Walked view b bc in
      elim (Option-cases (get_vertex bc.forrest b.prev_id)) [
        | inl gone ↦
            subst (Walks bc b) (ok-injective (sym (walk_last fuel view b bc lt gone) ∙ e))
              (last b lt gone, one)
        | inr (p, up) ↦
            let (r', rest, done) =
              >>=-eq-ok (walk fuel view p (commit_one view b bc)) (onto b)
                (sym (walk_next fuel view b p bc lt up) ∙ e) in
            let (above, walked) = walk-Walks fuel view p (commit_one view b bc) r' rest in
            subst (Walks bc b) (ok-injective done) (
              next b p r'.0 lt up (rw one.forrest at above),
              Walked-trans bc (commit_one view b bc) r'.1 b r'.0 one walked,
            )
      ]
]

-- With more fuel than the view of a known block, the walk from it ends.
pub walk_ends :
    (fuel : ℕ) (view : View) (b : Block) (i : Identifier) (bc : BlockChain)
    → IsLevelled bc.forrest
    → get_vertex bc.forrest i ≡ some b
    → b.view < fuel
    → (r : List Block × BlockChain) × (walk fuel view b bc ≡ ok r)
walk_ends zero view b i bc h at lt = absurd (omega arith)
walk_ends (suc fuel) view b i bc h at lt = elim (Bool-cases (ltb bc.forrest.lowest_level b.view)) [
  | inr low ↦ (([], bc), walk_stop fuel view b bc (ltb→ge _ _ low))
  | inl high ↦ elim (Option-cases (get_vertex bc.forrest b.prev_id)) [
    | inl gone ↦ ((b ∷ [], commit_one view b bc), walk_last fuel view b bc (ltb→lt _ _ high) gone)
    | inr (p, up) ↦
        let one = commit_one-Walked view b bc in
        let (r, e) =
          walk_ends fuel view p b.prev_id (commit_one view b bc) (rw one.forrest h)
            (rw one.forrest up) (omega (arith, h.lower i b p at up)) in
        ((b ∷ r.0, r.1), walk_next fuel view b p bc (ltb→lt _ _ high) up ∙ rw e)
  ]
]

-- In a levelled forest the ancestors come in strictly falling views, all above the lowest level and
-- none above the block's.
abbrev pub Falling : ℕ → ℕ → List Block → Type 0
Falling low v [] = Unit {0}
Falling low v (b ∷ bs) = (low < b.view) × (b.view < v) × Falling low b.view bs

pub Ancestors-Falling :
    (f : Forest) (low v : ℕ) (i : Identifier) {b : Block} {bs : List Block}
    → IsLevelled f
    → get_vertex f i ≡ some b
    → b.view < v
    → Ancestors f low b bs
    → Falling low v bs
Ancestors-Falling f low v i h at lt (stop b le) = tt
Ancestors-Falling f low v i h at lt (last b above gone) = (above, lt, tt)
Ancestors-Falling f low v i h at lt (next b p rest above up more) =
    (above, lt, Ancestors-Falling f low b.view b.prev_id h up (h.lower i b p at up) more)
