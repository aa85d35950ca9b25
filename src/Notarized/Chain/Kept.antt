-- ===== src/Notarized/Chain/Kept.antt =====
-- Notarizing a block keeps what is stable.
use bamboo.Prelude.{◌≡◌, refl, Option, none, some, List}
use bamboo.Outcome.{Outcome, ok, err, fault}
use bamboo.Types.{Qc, Block}
use bamboo.Exec.{◌>>=◌}
use bamboo.Exec.Keeps.{Keeps, Keeps-bind, Keeps-pure, Keeps-reads}
use bamboo.Notarized.State.{Env, Notarized}
use bamboo.Notarized.Stable.{Property, Holds, Stable}
use bamboo.Notarized.Chain.{notarize, buffer_notarized, noted, note_block, update_notarized_chain}

module _ (env : Env) (P : Property) (stable : Stable env P) where
  noted-Holds :
      (b : Block) (qc : Qc) (s : Notarized) (o : Outcome (Option (List (List Block))))
      → notarize b s.notarized_chain ≡ o
      → Holds P s
      → Holds P (noted b qc o s).1
  unfolding ◌>>=◌ buffer_notarized
  noted-Holds b qc s (ok (some c)) e h = stable.layer b e h
  noted-Holds b qc s (ok none) e h = h
  noted-Holds b qc s (err x) e h = h
  noted-Holds b qc s (fault x) e h = h

  note_block-Keeps : (qc : Qc) (o : Option Block) → Keeps (Holds P) (note_block qc o)
  unfolding note_block
  note_block-Keeps qc none = Keeps-pure _
  note_block-Keeps qc (some b) = record { at = λ s h. noted-Holds b qc s _ refl h }

  pub update_notarized_chain-Keeps : (qc : Qc) → Keeps (Holds P) (update_notarized_chain qc)
  unfolding update_notarized_chain
  update_notarized_chain-Keeps qc = Keeps-bind _ _ (Keeps-reads _) λ o. note_block-Keeps qc o
