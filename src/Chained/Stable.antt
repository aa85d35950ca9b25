-- ===== src/Chained/Stable.antt =====
-- Properties of a replica's view, preferred view, highest certificate, chain and log of committed
-- blocks that every handler keeps, because each single change to these five keeps them.
use bamboo.Prelude.{Option, ◌≡◌, ◌<◌, List, ◌++◌}
use bamboo.Outcome.{ok}
use bamboo.Types.{View, Identifier, Qc, Vote, Block, Tmo, Vmo}
use bamboo.Pacemaker.{Pacemaker, advance_view, process_remote_tmo, process_remote_vmo}
use bamboo.Blockchain.Forest.Flag.{flag_commit}
use bamboo.Blockchain.Chain.{BlockChain, add_block, add_vote, commit_block}
use bamboo.Chained.State.{Env, Chained}
use bamboo.Chained.Log.{released}

abbrev pub Property : Type 1
Property = Pacemaker → View → Qc → BlockChain → List Block → Type 0

abbrev pub Holds : {Own : Type 0} → Property → Chained Own → Type 0
Holds P s = P s.pm s.preferred_view s.high_qc s.bc s.committed_blocks

-- Each single change keeps P.
pub record Stable (env : Env) (P : Property) : Type 0 where
  pub advance :
      (v : View) {pm : Pacemaker} {w : View} {qc : Qc} {bc : BlockChain} {log : List Block}
      → P pm w qc bc log
      → P (advance_view v pm) w qc bc log
  pub tmo :
      (m : Tmo) {pm : Pacemaker} {w : View} {qc : Qc} {bc : BlockChain} {log : List Block}
      → P pm w qc bc log
      → P (process_remote_tmo pm m).1 w qc bc log
  pub vmo :
      (m : Vmo) {pm : Pacemaker} {w : View} {qc : Qc} {bc : BlockChain} {log : List Block}
      → P pm w qc bc log
      → P (process_remote_vmo pm m).1 w qc bc log
  pub prefer :
      (v : View) {pm : Pacemaker} {w : View} {qc : Qc} {bc : BlockChain} {log : List Block}
      → w < v
      → P pm w qc bc log
      → P pm v qc bc log
  pub high :
      (new : Qc) {pm : Pacemaker} {w : View} {qc : Qc} {bc : BlockChain} {log : List Block}
      → qc.view < new.view
      → P pm w qc bc log
      → P pm w new bc log
  pub flag :
      (id : Identifier) {pm : Pacemaker} {w : View} {qc : Qc} {bc : BlockChain} {log : List Block}
      → P pm w qc bc log
      → P pm w qc (record bc { forrest = flag_commit id bc.forrest }) log
  pub commits :
      (id : Identifier) (view : View) (o : Option Block) {pm : Pacemaker} {w : View} {qc : Qc}
      {bc : BlockChain} {log : List Block}
      → P pm w qc bc log
      → P pm w qc
          (commit_block env.rounds id view bc).1
          (log ++ released o (commit_block env.rounds id view bc).0)
  pub block :
      (b : Block) {pm : Pacemaker} {w : View} {qc : Qc} {bc bc' : BlockChain} {log : List Block}
      → add_block b bc ≡ ok bc'
      → P pm w qc bc log
      → P pm w qc bc' log
  pub vote :
      (v : Vote) {pm : Pacemaker} {w : View} {qc : Qc} {bc : BlockChain} {log : List Block}
      → P pm w qc bc log
      → P pm w qc (add_vote env.byz_no v bc).1 log
