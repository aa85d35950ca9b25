-- ===== src/Notarized/Certificate/Safety.antt =====
-- What a certificate can commit.
use bamboo.Prelude.{◌≡◌, refl, ap, ◌⊎◌, inl, inr, Option, none, some, List, ◌++◌, ltb, Bool-cases}
use bamboo.Outcome.{ok, err, fault}
use bamboo.Types.{Qc, Block}
use bamboo.Exec.{◌>>=◌}
use bamboo.Blockchain.Forest.{get_vertex}
use bamboo.Blockchain.Forest.Invariant as Forest
use bamboo.Blockchain.Chain.{BlockChain, Commits, commit_block}
use bamboo.Blockchain.Chain.Commit.{Ancestors}
use bamboo.Blockchain.Chain.Once.{commit_block-Committed}
use bamboo.Blockchain.Chain.Heightest.{flag_committed}
use bamboo.Notarized.State.{Env, Notarized, Variant}
use bamboo.Notarized.Chain.{commit_rule}
use bamboo.Notarized.Chain.Layers.{Three, commit_rule-Three}
use bamboo.Notarized.Certificate.{advance, delivered, commit, settle}

-- A commit that a certificate caused: the last three notarized layers have one block each, in
-- consecutive views, and what is committed is the second block and its ancestors above the lowest
-- level.
pub record CommittedBy (bc : BlockChain) (chain : List (List Block)) (blocks : List Block)
    : Type 0 where
  pub second : Block
  pub three : Three chain second
  pub ancestors :
      (b : Block) × (get_vertex bc.forrest second.id ≡ some b)
      × Ancestors bc.forrest bc.forrest.lowest_level b blocks

module _ (env : Env) (v : Variant) where
  delivered-committed :
      (c : Commits) (bc : BlockChain) (s : Notarized)
      → ((delivered env v (c, bc) s).1.committed_blocks ≡ s.committed_blocks)
        ⊎ ((blocks : List Block) × (forked : List Block) × (c ≡ ok (blocks, forked))
            × ((delivered env v (c, bc) s).1.committed_blocks
                ≡ s.committed_blocks ++ flag_committed (v.chosen blocks) blocks))
  unfolding ◌>>=◌
  delivered-committed (ok (blocks, forked)) bc s = inr (blocks, forked, refl, refl)
  delivered-committed (err e) bc s = inl refl
  delivered-committed (fault x) bc s = inl refl

  abbrev Grown : Notarized → Notarized → Type 0
  Grown s s' =
      (s'.committed_blocks ≡ s.committed_blocks)
      ⊎ ((blocks : List Block) × (s'.committed_blocks
            ≡ s.committed_blocks ++ flag_committed (v.chosen blocks) blocks)
          × CommittedBy s.bc s.notarized_chain blocks)

  commit-Grown :
      (o : Option Block) (s : Notarized)
      → commit_rule s.notarized_chain ≡ o
      → Forest.IsValid s.bc.forrest
      → Grown s (commit env v o s).1
  unfolding commit ◌>>=◌
  commit-Grown none s e f = inl refl
  commit-Grown (some second) s e f =
      let r = commit_block env.rounds second.id s.pm.cur_view s.bc in
      elim (delivered-committed r.0 r.1 s) [
        | inl same ↦ inl same
        | inr (blocks, forked, done, grown) ↦
            let (b, at, c) =
              commit_block-Committed env.rounds second.id s.pm.cur_view s.bc r.1 blocks forked f
                (ap (λ (x : Commits). (x, r.1)) done) in
            inr (
              blocks,
              grown,
              record {
                second = second;
                three = commit_rule-Three s.notarized_chain second e;
                ancestors = (b, at, c.ancestors);
              },
            )
      ]

  -- A notarized certificate puts blocks in the channel of committed blocks only where the last three
  -- notarized layers have one block each, in consecutive views: the second of the three and its
  -- ancestors above the lowest level are committed.
  pub settle-Grown :
      (qc : Qc) (s : Notarized) → Forest.IsValid s.bc.forrest → Grown s (settle env v qc s).1
  unfolding settle ◌>>=◌ advance
  settle-Grown qc s f = elim (Bool-cases (ltb qc.view 3)) [
    | inl early ↦ rw early (inl refl)
    | inr late ↦ rw late (commit-Grown (commit_rule s.notarized_chain) (advance qc.view s) refl f)
  ]
