-- ===== src/Tchs/Rules/Proposal.antt =====
-- `MakeProposal`. The certificate that `forkRule` rewrites is the object that the forest's block
-- points to, so that the block's certificate changes with it.
use bamboo.Prelude.{ℕ, List, Option, none, some, update}
use bamboo.Types.{View, Qc, Block, Transaction}
use bamboo.Exec.{Exec, modify, reads, ◌>>=◌, ◌>>◌}
use bamboo.Blockchain.Block.{make_block}
use bamboo.Blockchain.Forest.{Forest}
use bamboo.Chained.State.{Env}
use bamboo.Tchs.Rules.{Tchs, fork_choice}

abbrev requoted : Qc → Option Block → Option Block
requoted qc none = none
requoted qc (some b) = some (record b { qc = some qc })

requote_at : Option ℕ → Qc → Forest → Forest
requote_at none qc f = f
requote_at (some r) qc f =
    let c = f.containers r in
    record f { containers = update f.containers r (record c { vertex = requoted qc c.vertex }) }

rewrite_qc : Option Block → Qc → Tchs → Tchs
unfolding requote_at
rewrite_qc none qc th = th
rewrite_qc (some b) qc th =
    let f = th.bc.forrest in
    record th { bc = record th.bc { forrest = requote_at (f.vertices b.id) qc f } }

pub make_proposal : Env → View → List Transaction → Exec Tchs Block
unfolding rewrite_qc
make_proposal env view payload = do
  c ← reads (fork_choice env)
  modify (rewrite_qc c.rewritten c.qc)
  reads
      λ th. make_block env.hash env.keys view c.qc c.qc.block_id payload env.id env.is_byz c.flag 0
