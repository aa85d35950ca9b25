-- ===== src/Notarized/Chain/Errors.antt =====
-- What `updateNotarizedChain` does on each of its branches.
use bamboo.Prelude.{
  ◌≡◌, refl, ◌∙◌, arith, true, false, Bool, ◌||◌, ◌==◌, none, some, List, [], ◌∷◌, length, ltb,
  if◌then◌else◌,
}
use bamboo.Outcome.{Outcome, ok, fault, index_range}
use bamboo.Types.{Qc, Block}
use bamboo.Exec.{◌>>=◌}
use bamboo.Blockchain.Chain.{get_block_by_id}
use bamboo.Notarized.State.{Notarized}
use bamboo.Notarized.Chain.Search.{notarize_lem}
use bamboo.Notarized.Chain.{
  extends, notarize, noted, note_block, buffer_notarized, update_notarized_chain,
}

-- Reading the answer off the chain's layers.
abbrev pub Answer : Type 0
Answer = Outcome Bool × Notarized

abbrev pub answer_in : List (List Block) → Qc → Block → Notarized → Answer
answer_in chain qc b s =
    if length chain == 0 || extends b.prev_id chain
    then (ok true, record s { notarized_chain = (b ∷ []) ∷ chain })
    else (if ltb (length chain) 3
        then (fault index_range, s)
        else (ok false, buffer_notarized b.prev_id qc s))

abbrev pub answer : Qc → Block → Notarized → Answer
answer qc b s = answer_in s.notarized_chain qc b s

noted-if :
    (qc : Qc) (b : Block) (s : Notarized) (chain : List (List Block)) (there short : Bool)
    → noted b qc
        (if there then ok (some chain) else (if short then fault index_range else ok none))
        s
      ≡ (if there
          then (ok true, record s { notarized_chain = chain })
          else (if short
              then (fault index_range, s)
              else (ok false, buffer_notarized b.prev_id qc s)))
unfolding ◌>>=◌
noted-if qc b s chain true short = refl
noted-if qc b s chain false true = refl
noted-if qc b s chain false false = refl

noted-answer :
    (qc : Qc) (b : Block) (s : Notarized) (chain : List (List Block))
    → noted b qc (notarize b chain) s ≡ answer_in chain qc b s
unfolding notarize ◌>>=◌
noted-answer qc b s [] = refl
noted-answer qc b s (layer ∷ layers) = rw (notarize_lem b layer layers) (
    noted-if qc b s ((b ∷ []) ∷ layer ∷ layers) (extends b.prev_id (layer ∷ layers))
      (ltb (length (layer ∷ layers)) 3)
    ∙ ground arith)

-- With the certificate of a known block, `updateNotarizedChain` adds a layer with the block alone
-- where there is no layer yet or some layer has the block's parent. Where none has, it panics with
-- an index out of range for one or two layers, and buffers the certificate, with an error, for three
-- or more.
pub update_notarized_chain_lem :
    (qc : Qc) (b : Block) (s : Notarized)
    → get_block_by_id s.bc qc.block_id ≡ ok b
    → update_notarized_chain qc s ≡ answer qc b s
unfolding update_notarized_chain note_block ◌>>=◌
update_notarized_chain_lem qc b s there = rw there (noted-answer qc b s s.notarized_chain)
