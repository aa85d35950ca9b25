-- ===== src/Blockchain/Chain/Once.antt =====
-- `CommitBlock` as a whole, and that no view is committed twice.
use bamboo.Prelude.{
  ◌⊎◌, inl, inr, ℕ, ◌+◌, ◌-◌, ◌≤◌, ◌<◌, ◌≡◌, ◌≢◌, refl, ◌∙◌, ap, Option, none, some, List, [], ◌∷◌,
  length, All, arith, mem, if◌then◌else◌,
}
use bamboo.Outcome.{Outcome, ok, err, fault, out_of_fuel}
use bamboo.Types.{View, Identifier, Block}
use bamboo.Blockchain.Forest.{Forest, get_vertex}
use bamboo.Blockchain.Forest.Invariant.{IsValid}
use bamboo.Blockchain.Forest.Levels.{IsLevelled}
use bamboo.Blockchain.Forest.Prune.{Sweep, prune_up_to_level}
use bamboo.Blockchain.Forest.Prune.Pruned.{
  Pruned, population, prune_up_to_level-Pruned, prune_up_to_level_ends,
}
use bamboo.Blockchain.Chain.{
  BlockChain, walk, finish_commit, prune_after_walk, commit_vertex, commit_block,
}
use bamboo.Blockchain.Chain.Commit.{
  ids, Ancestors, stop, last, next, walk-Walks, walk_ends, Falling, Ancestors-Falling,
}

-- What a commit of the block b does: its ancestors above the lowest level are committed, everything
-- below the block is pruned, and the counters follow.
pub record Committed (bc : BlockChain) (b : Block) (blocks : List Block) (bc' : BlockChain)
    : Type 0 where
  pub ancestors : Ancestors bc.forrest bc.forrest.lowest_level b blocks
  pub pruned : Pruned bc.forrest b.view bc'.forrest
  pub counted : bc'.committed_block_no ≡ bc.committed_block_no + length blocks
  pub pruned_no :
      bc'.pruned_block_no
      ≡ bc.pruned_block_no
        + population bc.forrest (b.view - bc.forrest.lowest_level) bc.forrest.lowest_level
  pub highest : bc'.highest_comitted ≡ b.view
  pub votes :
      (i : Identifier)
      → bc'.quorum.votes i ≡ (if mem i (ids blocks) then none else bc.quorum.votes i)

-- The chain that the walk starts from.
abbrev noted : BlockChain → Block → BlockChain
noted bc b = record bc { highest_comitted = b.view }

abbrev after : BlockChain → Sweep → BlockChain
after walked s = record walked {
  forrest = s.forest;
  pruned_block_no = walked.pruned_block_no + s.pruned;
}

finish_commit-ok :
    (bs blocks forked : List Block) (walked bc' : BlockChain) (o : Outcome Sweep)
    → finish_commit bs walked o ≡ (ok (blocks, forked), bc')
    → (s : Sweep) × (o ≡ ok s) × (bs ≡ blocks) × (after walked s ≡ bc') × (s.forked ≡ forked)
unfolding finish_commit
finish_commit-ok bs blocks forked walked bc' (ok s) e = (s, refl, cc, cc, cc)
finish_commit-ok bs blocks forked walked bc' (err x) e = absurd (cc)
finish_commit-ok bs blocks forked walked bc' (fault x) e = absurd (cc)

prune_after_walk-ok :
    (fuel : ℕ) (l : View) (bc bc' : BlockChain) (r : List Block × List Block)
    (o : Outcome (List Block × BlockChain))
    → prune_after_walk fuel l bc o ≡ (ok r, bc')
    → (bs : List Block) × (walked : BlockChain) × (o ≡ ok (bs, walked))
      × (finish_commit bs walked (prune_up_to_level fuel l walked.forrest) ≡ (ok r, bc'))
unfolding prune_after_walk
prune_after_walk-ok fuel l bc bc' r (ok (bs, walked)) e = (bs, walked, refl, e)
prune_after_walk-ok fuel l bc bc' r (err x) e = absurd (cc)
prune_after_walk-ok fuel l bc bc' r (fault x) e = absurd (cc)

commit_vertex-ok :
    (fuel : ℕ) (id : Identifier) (view : View) (bc bc' : BlockChain) (r : List Block × List Block)
    (o : Option Block)
    → commit_vertex fuel id view bc o ≡ (ok r, bc')
    → (b : Block) × (o ≡ some b)
      × (prune_after_walk fuel b.view bc (walk fuel view b (noted bc b)) ≡ (ok r, bc'))
unfolding commit_vertex
commit_vertex-ok fuel id view bc bc' r none e = absurd (cc)
commit_vertex-ok fuel id view bc bc' r (some b) e = (b, refl, e)

-- The parts of a commit that succeeds.
record Parts (fuel : ℕ) (id : Identifier) (view : View) (bc : BlockChain)
    (blocks forked : List Block) (bc' : BlockChain) : Type 0 where
  block : Block
  walked : BlockChain
  swept : Sweep
  at : get_vertex bc.forrest id ≡ some block
  went : walk fuel view block (noted bc block) ≡ ok (blocks, walked)
  prunes : prune_up_to_level fuel block.view walked.forrest ≡ ok swept
  chain : after walked swept ≡ bc'
  forks : swept.forked ≡ forked

commit_block-Parts :
    (fuel : ℕ) (id : Identifier) (view : View) (bc : BlockChain) (blocks forked : List Block)
    (bc' : BlockChain)
    → commit_block fuel id view bc ≡ (ok (blocks, forked), bc')
    → Parts fuel id view bc blocks forked bc'
unfolding commit_block
commit_block-Parts fuel id view bc blocks forked bc' e =
    let (b, at, e1) = commit_vertex-ok fuel id view bc bc' _ (get_vertex bc.forrest id) e in
    let (bs, walked, went, e2) = prune_after_walk-ok fuel b.view bc bc' _ _ e1 in
    let (s, prunes, same, chain, forks) = finish_commit-ok bs blocks forked walked bc' _ e2 in
    record {
      block = b;
      walked = walked;
      swept = s;
      at = at;
      went = went ∙ ap (λ (l : List Block). ok (l, walked)) same;
      prunes = prunes;
      chain = chain;
      forks = forks;
    }

-- A commit that succeeds commits the block's ancestors above the lowest level, newest first, drops
-- their votes, prunes everything below the block and counts both.
pub commit_block-Committed :
    (fuel : ℕ) (id : Identifier) (view : View) (bc bc' : BlockChain) (blocks forked : List Block)
    → IsValid bc.forrest
    → commit_block fuel id view bc ≡ (ok (blocks, forked), bc')
    → (b : Block) × (get_vertex bc.forrest id ≡ some b) × Committed bc b blocks bc'
commit_block-Committed fuel id view bc bc' blocks forked v e =
    let p = commit_block-Parts fuel id view bc blocks forked bc' e in
    let b = p.block in
    let walks = walk-Walks fuel view b (noted bc b) (blocks, p.walked) p.went in
    let prunes : prune_up_to_level fuel b.view bc.forrest ≡ ok p.swept =
      rw (← walks.1.forrest) p.prunes in
    let pruned = prune_up_to_level-Pruned fuel b.view bc.forrest p.swept v prunes in
    (
      b,
      p.at,
      rw (← p.chain) (record {
        ancestors = walks.0;
        pruned = pruned.0;
        counted = walks.1.counted;
        pruned_no = omega (arith, walks.1.pruned, pruned.1);
        highest = walks.1.highest;
        votes = walks.1.votes;
      }),
    )

-- With more fuel than the view of the block, a commit in a levelled forest does not run out of it.
pub commit_block_ends :
    (fuel : ℕ) (id : Identifier) (view : View) (bc : BlockChain) (b : Block)
    → IsValid bc.forrest
    → IsLevelled bc.forrest
    → get_vertex bc.forrest id ≡ some b
    → b.view < fuel
    → (commit_block fuel id view bc).0 ≢ fault out_of_fuel
unfolding commit_block commit_vertex prune_after_walk finish_commit
commit_block_ends fuel id view bc b v h at lt =
    let ((bs, walked), went) = walk_ends fuel view b id (noted bc b) h at lt in
    let same = (walk-Walks fuel view b (noted bc b) (bs, walked) went).1.forrest in
    let ends = prune_up_to_level_ends fuel b.view bc.forrest v h lt in
    ground (arith, at, went, same, ends)

All-above :
    (low v w : ℕ) (bs : List Block)
    → w ≤ low
    → Falling low v bs
    → All (λ (c : Block). w < c.view) bs
All-above low v w [] le f = tt
All-above low v w (b ∷ bs) le f = (omega arith, All-above low b.view w bs le f.2)

-- The block of the commit comes first, unless it is not above the lowest level.
abbrev pub IsHead : ℕ → Block → List Block → Type 0
IsHead low b bs = ((b.view ≤ low) × (bs ≡ [])) ⊎ ((rest : List Block) × (bs ≡ b ∷ rest))

IsHead-Ancestors :
    {f : Forest} {low : ℕ} {b : Block} {bs : List Block} → Ancestors f low b bs → IsHead low b bs
IsHead-Ancestors (stop b le) = inl (le, refl)
IsHead-Ancestors (last b lt gone) = inr ([], refl)
IsHead-Ancestors (next b p rest lt at more) = inr (rest, refl)

-- A commit starts with its block, unless it is not above the lowest level, and goes on in strictly
-- falling views; whatever is committed later, once blocks were added without lowering the level, has
-- larger views than the block: no view is committed twice.
pub commit_block_once :
    (fuel fuel' : ℕ) (id id' : Identifier) (view view' : View) (bc bc' bd bd' : BlockChain)
    (first second forked forked' : List Block)
    → IsValid bc.forrest
    → IsLevelled bc.forrest
    → IsValid bd.forrest
    → IsLevelled bd.forrest
    → commit_block fuel id view bc ≡ (ok (first, forked), bc')
    → bc'.forrest.lowest_level ≤ bd.forrest.lowest_level
    → commit_block fuel' id' view' bd ≡ (ok (second, forked'), bd')
    → (b : Block) × (get_vertex bc.forrest id ≡ some b)
      × IsHead bc.forrest.lowest_level b first
      × Falling bc.forrest.lowest_level (b.view + 1) first
      × All (λ (c : Block). b.view < c.view) second
commit_block_once fuel fuel' id id' view view' bc bc' bd bd' first second forked forked' v h v' h' e
      le e' =
    let (b, at, c) = commit_block-Committed fuel id view bc bc' first forked v e in
    let (d, at', c') = commit_block-Committed fuel' id' view' bd bd' second forked' v' e' in
    let down =
      Ancestors-Falling bc.forrest bc.forrest.lowest_level (b.view + 1) id h at (omega arith)
        c.ancestors in
    let down' =
      Ancestors-Falling bd.forrest bd.forrest.lowest_level (d.view + 1) id' h' at' (omega arith)
        c'.ancestors in
    (
      b,
      at,
      IsHead-Ancestors c.ancestors,
      down,
      All-above bd.forrest.lowest_level (d.view + 1) b.view second (omega (arith, c.pruned.lowest))
          down',
    )
