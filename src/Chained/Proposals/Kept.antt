-- ===== src/Chained/Proposals/Kept.antt =====
-- The shared steps of a proposal keep what is stable.
use bamboo.Prelude.{◌≡◌, refl, Option, none, some}
use bamboo.Outcome.{Outcome, ok, err, fault}
use bamboo.Types.{View, Qc, Vote, Block, Tmo}
use bamboo.Exec.{modify, reads, ◌>>=◌}
use bamboo.Exec.Keeps.{
  Keeps, Keeps-bind, Keeps-if, Keeps-skip, Keeps-gets, Keeps-reads, Keeps-ignore,
}
use bamboo.Blockchain.Chain.{BlockChain, add_block}
use bamboo.Chained.State.{Env, Chained, Handler, Calls}
use bamboo.Chained.Stable.{Property, Holds, Stable}
use bamboo.Chained.Views.Kept.{Trusted, unbuffer_qc-Keeps, emit-Keeps, process_local_vmo-Keeps}
use bamboo.Chained.Proposals.{
  log_signature, insert_block, use_buffered_qc, cast_vote, make_and_cast, local_tmo,
}

module _ {Own : Type 0} (env : Env) (P : Property) (stable : Stable env P) where
  pub log_signature-Keeps : (b : Block) → Keeps (Holds {Own = Own} P) (log_signature env b)
  unfolding log_signature
  log_signature-Keeps b = Keeps-if _ _ _ Keeps-skip (Keeps-ignore _ (Keeps-reads _))

  inserted-Holds :
      (b : Block) (s : Chained Own) (o : Outcome BlockChain)
      → add_block b s.bc ≡ o
      → Holds P s
      → Holds P ((reads (λ s'. o) >>= λ bc. modify λ (s' : Chained Own). record s' { bc = bc }) s).1
  unfolding ◌>>=◌
  inserted-Holds b s (ok bc) e h = stable.block b e h
  inserted-Holds b s (err x) e h = h
  inserted-Holds b s (fault x) e h = h

  pub insert_block-Keeps : (b : Block) → Keeps (Holds {Own = Own} P) (insert_block b)
  unfolding insert_block ◌>>=◌
  insert_block-Keeps b = record { at = λ s h. inserted-Holds b s (add_block b s.bc) refl h }

  pub use_buffered_qc-Keeps :
      (calls : Calls Own)
      → Trusted P calls
      → (certificate : Qc → Handler Own) → ((qc : Qc) → Keeps (Holds P) (certificate qc))
      → (b : Block) (o : Option Qc) → Keeps (Holds P) (use_buffered_qc env calls certificate b o)
  unfolding use_buffered_qc
  use_buffered_qc-Keeps calls trusted certificate kept b none = Keeps-skip
  use_buffered_qc-Keeps calls trusted certificate kept b (some qc) = Keeps-bind _ _ (kept qc) λ _.
      Keeps-bind _ _ (unbuffer_qc-Keeps env P stable b.id)
        λ _. Keeps-if _ _ _ (process_local_vmo-Keeps env P stable calls trusted b.view) Keeps-skip

  module _ (process_vote : Vote → Handler Own)
      (kept : (v : Vote) → Keeps (Holds P) (process_vote v)) where
    cast_vote-Keeps : (v : Vote) → Keeps (Holds P) (cast_vote env process_vote v)
    unfolding cast_vote
    cast_vote-Keeps v = Keeps-if _ _ _ (kept v) (emit-Keeps env P stable _)

    pub make_and_cast-Keeps : (b : Block) → Keeps (Holds P) (make_and_cast env process_vote b)
    unfolding make_and_cast
    make_and_cast-Keeps b = Keeps-bind _ _ (Keeps-reads _) λ v. cast_vote-Keeps v

  pub local_tmo-Keeps :
      (remote : Tmo → Handler Own)
      → ((m : Tmo) → Keeps (Holds P) (remote m))
      → (v : View) → Keeps (Holds P) (local_tmo env remote v)
  unfolding local_tmo
  local_tmo-Keeps remote kept v =
      Keeps-bind _ _ (Keeps-gets _) λ high. Keeps-bind _ _ (emit-Keeps env P stable _) λ _. kept _
