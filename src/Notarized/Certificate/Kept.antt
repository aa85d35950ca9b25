-- ===== src/Notarized/Certificate/Kept.antt =====
-- Processing a certificate keeps what is stable.
use bamboo.Prelude.{ltb, Option, none, some, ◌&&◌}
use bamboo.Outcome.{ok, err, fault}
use bamboo.Types.{Identifier, Qc, Block, View}
use bamboo.Exec.{modify, ◌>>=◌}
use bamboo.Exec.Keeps.{
  Keeps, Keeps-modify, Keeps-bind, Keeps-if, Keeps-skip, Keeps-pure, Keeps-gets, Keeps-reads,
  Keeps-ignore,
}
use bamboo.Exec.Verdict.Kept.{verdict-Keeps}
use bamboo.Blockchain.Chain.{BlockChain, Commits, commit_block}
use bamboo.Blockchain.Chain.Heightest.{flag_chain}
use bamboo.Notarized.State.{Env, Notarized, Calls, Variant}
use bamboo.Notarized.Stable.{Property, Holds, Stable}
use bamboo.Notarized.Chain.{commit_rule}
use bamboo.Notarized.Chain.Kept.{update_notarized_chain-Keeps}
use bamboo.Notarized.Certificate.{
  is_missing, buffer_qc, unbuffer_qc, unbuffer_block, advance, is_trusted, delivered, commit,
  settle, use_waiting_block, use_waiting_qc, follow_up, accept_qc, with_block, process_certificate,
}

-- Both calls keep P.
pub record Trusted (P : Property) (calls : Calls) : Type 0 where
  pub block : (b : Block) → Keeps (Holds P) (calls.process_block b)
  pub certificate : (qc : Qc) → Keeps (Holds P) (calls.process_certificate qc)

module _ (env : Env) (v : Variant) (P : Property) (stable : Stable env P) where
  buffer_qc-Keeps : (qc : Qc) → Keeps (Holds P) (modify (buffer_qc qc))
  unfolding buffer_qc
  buffer_qc-Keeps qc = Keeps-modify (buffer_qc qc) λ s h. h

  unbuffer_qc-Keeps : (id : Identifier) → Keeps (Holds P) (modify (unbuffer_qc id))
  unfolding unbuffer_qc
  unbuffer_qc-Keeps id = Keeps-modify (unbuffer_qc id) λ s h. h

  unbuffer_block-Keeps : (id : Identifier) → Keeps (Holds P) (modify (unbuffer_block id))
  unfolding unbuffer_block
  unbuffer_block-Keeps id = Keeps-modify (unbuffer_block id) λ s h. h

  pub advance-Keeps : (view : View) → Keeps (Holds P) (modify (advance view))
  unfolding advance
  advance-Keeps view = Keeps-modify (advance view) λ s h. stable.advance view h

  is_trusted-Keeps : (qc : Qc) → Keeps (Holds P) (is_trusted env v qc)
  unfolding is_trusted
  is_trusted-Keeps qc = Keeps-if _ _ _ (Keeps-pure _) (verdict-Keeps (Holds P) _)

  flag_chain-Holds :
      (o : Option Block) (bc : BlockChain) (s : Notarized)
      → P s.pm bc s.notarized_chain
      → P s.pm (flag_chain o bc) s.notarized_chain
  flag_chain-Holds none bc s h = h
  flag_chain-Holds (some b) bc s h = stable.flag b.id h

  delivered-Holds :
      (c : Commits) (bc : BlockChain) (s : Notarized)
      → P s.pm bc s.notarized_chain
      → Holds P (delivered env v (c, bc) s).1
  unfolding ◌>>=◌
  delivered-Holds (ok (committed, forked)) bc s h = flag_chain-Holds (v.chosen committed) bc s h
  delivered-Holds (err e) bc s h = h
  delivered-Holds (fault x) bc s h = h

  commit-Keeps : (o : Option Block) → Keeps (Holds P) (commit env v o)
  unfolding commit
  commit-Keeps none = Keeps-pure _
  commit-Keeps (some b) = record {
    at = λ s h.
        let r = commit_block env.rounds b.id s.pm.cur_view s.bc in
        delivered-Holds r.0 r.1 s (stable.commits b.id s.pm.cur_view h);
  }

  settle-Keeps : (qc : Qc) → Keeps (Holds P) (settle env v qc)
  unfolding settle
  settle-Keeps qc = Keeps-bind _ _ (advance-Keeps qc.view) λ _.
      Keeps-if (ltb qc.view 3) _ _ (Keeps-pure _)
        (record { at = λ s h. (commit-Keeps (commit_rule s.notarized_chain)).at s h })

  module _ (calls : Calls) (trusted : Trusted P calls) where
    use_waiting_block-Keeps :
        (id : Identifier) (o : Option Block) → Keeps (Holds P) (use_waiting_block env v calls id o)
    unfolding use_waiting_block
    use_waiting_block-Keeps id none = Keeps-skip
    use_waiting_block-Keeps id (some b) =
        Keeps-bind _ _ (Keeps-ignore _ (trusted.block b)) λ _. unbuffer_block-Keeps id

    use_waiting_qc-Keeps : (o : Option Qc) → Keeps (Holds P) (use_waiting_qc env v calls o)
    unfolding use_waiting_qc
    use_waiting_qc-Keeps none = Keeps-skip
    use_waiting_qc-Keeps (some qc) =
        Keeps-bind _ _ (trusted.certificate qc) λ _. unbuffer_qc-Keeps qc.block_id

    follow_up-Keeps : (qc : Qc) → Keeps (Holds P) (follow_up env v calls qc)
    unfolding follow_up
    follow_up-Keeps qc = Keeps-bind _ _ (Keeps-gets _) λ b.
        Keeps-bind _ _ (use_waiting_block-Keeps qc.block_id b)
          λ _. Keeps-bind _ _ (Keeps-gets _) λ next. use_waiting_qc-Keeps next

    accept_qc-Keeps : (qc : Qc) → Keeps (Holds P) (accept_qc env v calls qc)
    unfolding accept_qc
    accept_qc-Keeps qc = Keeps-bind _ _ (update_notarized_chain-Keeps env P stable qc) λ noted.
        Keeps-if noted _ _
          (Keeps-bind _ _ (settle-Keeps qc)
            λ done. Keeps-if done _ _ (follow_up-Keeps qc) Keeps-skip)
          Keeps-skip

    with_block-Keeps : (qc : Qc) (o : Option Block) → Keeps (Holds P) (with_block env v calls qc o)
    unfolding with_block
    with_block-Keeps qc o =
        Keeps-if (is_missing o && ltb 1 qc.view) _ _ (buffer_qc-Keeps qc)
          (Keeps-bind _ _ (is_trusted-Keeps qc) λ b. Keeps-if b _ _ (accept_qc-Keeps qc) Keeps-skip)

    pub process_certificate-Keeps : (qc : Qc) → Keeps (Holds P) (process_certificate env v calls qc)
    unfolding process_certificate
    process_certificate-Keeps qc = Keeps-bind _ _ (Keeps-gets _) λ stale.
        Keeps-if stale _ _ Keeps-skip (Keeps-bind _ _ (Keeps-reads _) λ o. with_block-Keeps qc o)
