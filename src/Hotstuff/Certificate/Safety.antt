-- ===== src/Hotstuff/Certificate/Safety.antt =====
-- What a certificate can commit.
use bamboo.Prelude.{
  ◌≡◌, refl, ap, ◌⊎◌, inl, inr, Option, none, some, List, ◌++◌, ltb, Bool-cases, subst,
}
use bamboo.Outcome.{Outcome, ok, err, fault}
use bamboo.Types.{Identifier, Qc, Block}
use bamboo.Exec.{◌>>=◌}
use bamboo.Blockchain.Forest.{get_vertex}
use bamboo.Blockchain.Forest.Invariant as Forest
use bamboo.Blockchain.Forest.Flag.{flag_commit, flag_commit-IsValid, lowest_level-flag_commit}
use bamboo.Blockchain.Chain.{BlockChain, Commits, commit_block}
use bamboo.Blockchain.Chain.Commit.{Ancestors}
use bamboo.Blockchain.Chain.Once.{commit_block-Committed}
use bamboo.Chained.State.{Env}
use bamboo.Chained.Certificate.{update_high_qc, buffer_qc, preferred, certify}
use bamboo.Chained.Certificate.Trust.{Accepted, is_trusted_cases}
use bamboo.Chained.Certificate.Frame.{bc-update_high_qc, committed_blocks-update_high_qc}
use bamboo.Hotstuff.State.{Hotstuff}
use bamboo.Hotstuff.Rules.{update_preferred_view, commit_rule}
use bamboo.Hotstuff.Rules.Consecutive.{
  Consecutive, commit_rule-Consecutive, update_preferred_view-frame,
}
use bamboo.Hotstuff.Certificate.{
  mark_commit, delivered, commit, commit_found, try_commit, settle, process_certificate,
}

-- A commit that a certificate caused: its block has a parent and a grandparent in consecutive
-- views, the second just before the view that the certificate names; what is committed are the
-- grandparent, flagged, and its ancestors above the lowest level.
pub record CommittedBy (env : Env) (bc : BlockChain) (qc : Qc) (blocks : List Block) : Type 0 where
  pub g : Block
  pub three : Consecutive bc qc g
  pub ancestors :
      (b : Block) × (get_vertex (flag_commit g.id bc.forrest) g.id ≡ some b)
      × Ancestors (flag_commit g.id bc.forrest) bc.forrest.lowest_level b blocks

abbrev Grown : Env → BlockChain → Qc → List Block → List Block → Type 0
Grown env bc qc before after =
    (after ≡ before)
    ⊎ ((blocks : List Block) × (after ≡ before ++ blocks) × CommittedBy env bc qc blocks)

Grown-cong :
    (env : Env) (qc : Qc) (bc bc' : BlockChain) (before before' after : List Block)
    → bc ≡ bc'
    → before ≡ before'
    → Grown env bc qc before after
    → Grown env bc' qc before' after
Grown-cong env qc bc bc' before before' after e f h =
    subst (λ c. Grown env c qc before' after) e (subst (λ l. Grown env bc qc l after) f h)

delivered-committed :
    (c : Commits) (bc : BlockChain) (s : Hotstuff)
    → ((delivered (c, bc) s).1.committed_blocks ≡ s.committed_blocks)
      ⊎ ((blocks : List Block) × (forked : List Block) × (c ≡ ok (blocks, forked))
          × ((delivered (c, bc) s).1.committed_blocks ≡ s.committed_blocks ++ blocks))
unfolding ◌>>=◌
delivered-committed (ok (blocks, forked)) bc s = inr (blocks, forked, refl, refl)
delivered-committed (err e) bc s = inl refl
delivered-committed (fault x) bc s = inl refl

abbrev marked : BlockChain → Identifier → BlockChain
marked bc id = record bc { forrest = flag_commit id bc.forrest }

commit-Grown :
    (env : Env) (qc : Qc) (g : Block) (s : Hotstuff)
    → Forest.IsValid s.bc.forrest
    → Consecutive s.bc qc g
    → Grown env s.bc qc s.committed_blocks (commit env g (mark_commit g.id s)).1.committed_blocks
unfolding commit mark_commit
commit-Grown env qc g s v three =
    let r = commit_block env.rounds g.id s.pm.cur_view (marked s.bc g.id) in
    elim (delivered-committed r.0 r.1 (mark_commit g.id s)) [
      | inl same ↦ inl same
      | inr (blocks, forked, done, grown) ↦
          let (b, at, c) =
            commit_block-Committed env.rounds g.id s.pm.cur_view (marked s.bc g.id) r.1 blocks
              forked (flag_commit-IsValid g.id s.bc.forrest v)
              (ap (λ (x : Commits). (x, r.1)) done) in
          inr (
            blocks,
            grown,
            record {
              g = g;
              three = three;
              ancestors = (
                b,
                at,
                subst (λ l. Ancestors (flag_commit g.id s.bc.forrest) l b blocks)
                    (lowest_level-flag_commit g.id s.bc.forrest) c.ancestors,
              );
            },
          )
    ]

commit_found-Grown :
    (env : Env) (qc : Qc) (o : Outcome (Option Block)) (s : Hotstuff)
    → commit_rule qc s ≡ o
    → Forest.IsValid s.bc.forrest
    → Grown env s.bc qc s.committed_blocks (commit_found env o s).1.committed_blocks
unfolding ◌>>=◌
commit_found-Grown env qc (ok (some g)) s e v =
    commit-Grown env qc g s v (commit_rule-Consecutive qc s g e)
commit_found-Grown env qc (ok none) s e v = inl refl
commit_found-Grown env qc (err x) s e v = inl refl
commit_found-Grown env qc (fault x) s e v = inl refl

settle-Grown :
    (env : Env) (qc : Qc) (s : Hotstuff)
    → Forest.IsValid s.bc.forrest
    → Grown env s.bc qc s.committed_blocks (settle env qc s).1.committed_blocks
unfolding settle try_commit ◌>>=◌
settle-Grown env qc s v =
    let u = update_high_qc qc s in
    let same : u.bc ≡ s.bc = bc-update_high_qc qc s in
    let out : u.committed_blocks ≡ s.committed_blocks = committed_blocks-update_high_qc qc s in
    elim (Bool-cases (ltb qc.view 3)) [
      | inl early ↦ rw early (inl out)
      | inr late ↦ rw late (
          Grown-cong env qc u.bc s.bc u.committed_blocks s.committed_blocks _ same out
            (commit_found-Grown env qc (commit_rule qc u) u refl (rw same v)))
    ]

preferred-Grown :
    (env : Env) (qc : Qc) (o : Outcome Hotstuff) (s : Hotstuff)
    → update_preferred_view qc s ≡ o
    → Forest.IsValid s.bc.forrest
    → Grown env s.bc qc s.committed_blocks (preferred (settle env) qc o s).1.committed_blocks
unfolding ◌>>=◌ buffer_qc
preferred-Grown env qc (ok s') s e v =
    let (same, out) = update_preferred_view-frame qc s s' e in
    Grown-cong env qc s'.bc s.bc s'.committed_blocks s.committed_blocks _ same out
      (settle-Grown env qc s' (rw same v))
preferred-Grown env qc (err x) s e v = inl refl
preferred-Grown env qc (fault x) s e v = inl refl

-- In a well-formed forest, processing a certificate leaves the channel of committed blocks as it
-- is, or appends blocks for a certificate that names the replica as its leader or whose
-- signatures were all accepted; the certified block has a parent and a grandparent in the
-- forest, in consecutive views of which the second comes just before the view that the
-- certificate names; and the blocks are the grandparent, as it is flagged, and its ancestors
-- above the lowest level.
pub process_certificate-Grown :
    (env : Env) (qc : Qc) (s : Hotstuff)
    → Forest.IsValid s.bc.forrest
    → ((process_certificate env qc s).1.committed_blocks ≡ s.committed_blocks)
      ⊎ ((blocks : List Block) × ((process_certificate env qc s).1.committed_blocks
            ≡ s.committed_blocks ++ blocks)
          × Accepted env qc
          × CommittedBy env s.bc qc blocks)
unfolding process_certificate certify ◌>>=◌
process_certificate-Grown env qc s v = elim (is_trusted_cases env qc s) [
  | inl (yes', accepted) ↦ elim (preferred-Grown env qc (update_preferred_view qc s) s refl v) [
    | inl same ↦ inl (rw yes' same)
    | inr (blocks, grown, c) ↦ inr (blocks, rw yes' grown, accepted, c)
  ]
  | inr (inl no') ↦ inl (rw no' refl)
  | inr (inr (x, crash)) ↦ inl (rw crash refl)
]
