-- ===== src/Notarized/Stable.antt =====
-- Properties of the pacemaker, the block chain and the notarized chain that every handler keeps,
-- because each single change keeps them.
use bamboo.Prelude.{◌≡◌, List}
use bamboo.Outcome.{ok}
use bamboo.Prelude.{some}
use bamboo.Types.{View, Identifier, Vote, Block, Tmo}
use bamboo.Pacemaker.{Pacemaker, advance_view, process_remote_tmo}
use bamboo.Blockchain.Forest.Flag.{flag_commit}
use bamboo.Blockchain.Chain.{BlockChain, add_block, add_vote, commit_block}
use bamboo.Notarized.State.{Env, Notarized}
use bamboo.Notarized.Chain.{notarize}

abbrev pub Property : Type 1
Property = Pacemaker → BlockChain → List (List Block) → Type 0

abbrev pub Holds : Property → Notarized → Type 0
Holds P s = P s.pm s.bc s.notarized_chain

pub record Stable (env : Env) (P : Property) : Type 0 where
  pub advance :
      (v : View) {pm : Pacemaker} {bc : BlockChain} {c : List (List Block)}
      → P pm bc c
      → P (advance_view v pm) bc c
  pub tmo :
      (m : Tmo) {pm : Pacemaker} {bc : BlockChain} {c : List (List Block)}
      → P pm bc c
      → P (process_remote_tmo pm m).1 bc c
  pub flag :
      (id : Identifier) {pm : Pacemaker} {bc : BlockChain} {c : List (List Block)}
      → P pm bc c
      → P pm (record bc { forrest = flag_commit id bc.forrest }) c
  pub commits :
      (id : Identifier) (view : View) {pm : Pacemaker} {bc : BlockChain} {c : List (List Block)}
      → P pm bc c
      → P pm (commit_block env.rounds id view bc).1 c
  pub block :
      (b : Block) {pm : Pacemaker} {bc bc' : BlockChain} {c : List (List Block)}
      → add_block b bc ≡ ok bc'
      → P pm bc c
      → P pm bc' c
  pub vote :
      (v : Vote) {pm : Pacemaker} {bc : BlockChain} {c : List (List Block)}
      → P pm bc c
      → P pm (add_vote env.byz_no v bc).1 c
  pub layer :
      (b : Block) {pm : Pacemaker} {bc : BlockChain} {c c' : List (List Block)}
      → notarize b c ≡ ok (some c')
      → P pm bc c
      → P pm bc c'
