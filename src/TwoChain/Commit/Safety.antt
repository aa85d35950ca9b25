-- ===== src/TwoChain/Commit/Safety.antt =====
-- What a proposal can commit.
use bamboo.Prelude.{
  ◌+◌, ◌≡◌, refl, ap, true, ◌⊎◌, inl, inr, Option, none, some, List, ◌++◌, ◌==◌, arith, Bool-cases,
}
use bamboo.Outcome.{Outcome, ok, err, fault, >>=-eq-ok, ok-injective}
use bamboo.Types.{Qc, Block}
use bamboo.Exec.{◌>>=◌}
use bamboo.Blockchain.Forest.{get_vertex}
use bamboo.Blockchain.Forest.Invariant as Forest
use bamboo.Blockchain.Chain.{BlockChain, Commits, get_parent_block, commit_block}
use bamboo.Blockchain.Chain.Commit.{Ancestors}
use bamboo.Blockchain.Chain.Once.{commit_block-Committed}
use bamboo.Blockchain.Chain.Heightest.{heightest, flag_committed}
use bamboo.Chained.State.{Env}
use bamboo.TwoChain.State.{TwoChain}
use bamboo.TwoChain.Rules.{commit_rule}
use bamboo.TwoChain.Commit.{delivered, commit, commit_found, is_due, try_commit}

-- The certificate's block has a parent in the forest, and the parent, the certificate and the
-- proposal have consecutive views.
pub record TwoViews (bc : BlockChain) (qc : Qc) (p : Block) : Type 0 where
  pub parent : get_parent_block bc qc.block_id ≡ ok p
  pub views : p.view + 1 ≡ qc.view

-- A commit that a proposal caused: the views are consecutive, and what is committed is the parent of
-- the certified block and the parent's ancestors above the lowest level.
pub record CommittedBy (bc : BlockChain) (qc : Qc) (block : Block) (blocks : List Block)
    : Type 0 where
  pub p : Block
  pub two : TwoViews bc qc p
  pub next : qc.view + 1 ≡ block.view
  pub ancestors :
      (b : Block) × (get_vertex bc.forrest p.id ≡ some b)
      × Ancestors bc.forrest bc.forrest.lowest_level b blocks

abbrev Grown : Qc → Block → TwoChain → TwoChain → Type 0
Grown qc block s s' =
    (s'.committed_blocks ≡ s.committed_blocks)
    ⊎ ((blocks : List Block) × (s'.committed_blocks
          ≡ s.committed_blocks ++ flag_committed (heightest blocks) blocks)
        × CommittedBy s.bc qc block blocks)

commit_rule-TwoViews :
    (qc : Qc) (s : TwoChain) (p : Block) → commit_rule qc s ≡ ok (some p) → TwoViews s.bc qc p
unfolding commit_rule
commit_rule-TwoViews qc s p e =
    let (q, parent, e1) = >>=-eq-ok (get_parent_block s.bc qc.block_id) _ e in
    elim (Bool-cases (q.view + 1 == qc.view)) [
      | inl yes' ↦
          let same : q ≡ p = some-injective (rw yes' at (ok-injective e1)) in
          rw (← same) (record { parent = parent; views = ground (arith, yes') })
      | inr no' ↦ absurd (ground (arith, e1, no'))
    ]
  where
    some-injective : {a b : Block} → some a ≡ some b → a ≡ b
    some-injective h = cc

delivered-committed :
    (c : Commits) (bc : BlockChain) (s : TwoChain)
    → ((delivered (c, bc) s).1.committed_blocks ≡ s.committed_blocks)
      ⊎ ((blocks : List Block) × (forked : List Block) × (c ≡ ok (blocks, forked))
          × ((delivered (c, bc) s).1.committed_blocks
              ≡ s.committed_blocks ++ flag_committed (heightest blocks) blocks))
unfolding ◌>>=◌
delivered-committed (ok (blocks, forked)) bc s = inr (blocks, forked, refl, refl)
delivered-committed (err e) bc s = inl refl
delivered-committed (fault x) bc s = inl refl

commit_found-Grown :
    (env : Env) (qc : Qc) (block : Block) (o : Outcome (Option Block)) (s : TwoChain)
    → commit_rule qc s ≡ o
    → qc.view + 1 ≡ block.view
    → Forest.IsValid s.bc.forrest
    → Grown qc block s (commit_found env o s).1
unfolding ◌>>=◌ commit
commit_found-Grown env qc block (ok (some p)) s e due v =
    let r = commit_block env.rounds p.id s.pm.cur_view s.bc in
    elim (delivered-committed r.0 r.1 s) [
      | inl same ↦ inl same
      | inr (blocks, forked, done, grown) ↦
          let (b, at, c) =
            commit_block-Committed env.rounds p.id s.pm.cur_view s.bc r.1 blocks forked v
              (ap (λ (x : Commits). (x, r.1)) done) in
          inr (
            blocks,
            grown,
            record {
              p = p;
              two = commit_rule-TwoViews qc s p e;
              next = due;
              ancestors = (b, at, c.ancestors);
            },
          )
    ]
commit_found-Grown env qc block (ok none) s e due v = inl refl
commit_found-Grown env qc block (err x) s e due v = inl refl
commit_found-Grown env qc block (fault x) s e due v = inl refl

is_due_lem : (qc : Qc) (block : Block) → is_due qc block ≡ true → qc.view + 1 ≡ block.view
unfolding is_due
is_due_lem qc block e = ground (arith, e)

-- A proposal puts blocks in the channel of committed blocks only where its certificate's block has
-- a parent of the view before, and the proposal is of the view after: the parent and its ancestors
-- above the lowest level are committed, the highest of them flagged.
pub try_commit-Grown :
    (env : Env) (qc : Qc) (block : Block) (s : TwoChain)
    → Forest.IsValid s.bc.forrest
    → Grown qc block s (try_commit env qc block s).1
unfolding try_commit ◌>>=◌
try_commit-Grown env qc block s v = elim (Bool-cases (is_due qc block)) [
  | inl due ↦
      rw due (commit_found-Grown env qc block (commit_rule qc s) s refl (is_due_lem qc block due) v)
  | inr idle ↦ rw idle (inl refl)
]
