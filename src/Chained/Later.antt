-- ===== src/Chained/Later.antt =====
-- States that are well formed, and states that follow them.
use mathlib.Core.List.{append-nil, append_assoc}
use bamboo.Prelude.{List, [], ◌++◌, ◌≡◌, ap, sym, ◌∙◌, ℕ, ◌≤◌, arith}
use bamboo.Types.{View, Qc, Block}
use bamboo.Pacemaker.{Pacemaker}
use bamboo.Pacemaker.Views as Pacemaker
use bamboo.Blockchain.Chain.{BlockChain}
use bamboo.Blockchain.Chain.Validity as Chain
use bamboo.Chained.State.{Env, Chained, new_chained}
use bamboo.Chained.Log.{Appends, same, Appends-mono, Appends-commit_block}
use bamboo.Chained.Stable.{Holds, Stable}

pub record IsValid {Own : Type 0} (env : Env) (s : Chained Own) : Type 0 where
  pub pacemaker : Pacemaker.IsValid s.pm
  pub chain : Chain.IsValid env.byz_no s.bc

-- A later state: valid, with no view, certificate, level or count taken
-- back, with the announced views at the front of the new ones, and with chains of blocks appended to
-- the log.
pub record Later {Own : Type 0} (env : Env) (s : Chained Own) (pm : Pacemaker) (preferred : View)
    (high : Qc) (bc : BlockChain) (log : List Block) : Type 0 where
  pub pacemaker : Pacemaker.IsValid pm
  pub chain : Chain.Follows env.byz_no s.bc bc
  pub cur_view : s.pm.cur_view ≤ pm.cur_view
  pub views : (added : List View) × (pm.new_view_chan ≡ s.pm.new_view_chan ++ added)
  pub preferred_view : s.preferred_view ≤ preferred
  pub high_qc : s.high_qc.view ≤ high.view
  pub committed : Appends s.bc.forrest.lowest_level s.committed_blocks bc.forrest.lowest_level log

module _ {Own : Type 0} {env : Env} {s : Chained Own} {pm : Pacemaker} {w : View} {qc : Qc}
    {bc : BlockChain} {log : List Block} where
  with_pm :
      {pm' : Pacemaker}
      → Pacemaker.IsValid pm'
      → pm.cur_view ≤ pm'.cur_view
      → (added : List View) × (pm'.new_view_chan ≡ pm.new_view_chan ++ added)
      → Later env s pm w qc bc log
      → Later env s pm' w qc bc log
  with_pm v le (more, e) h = record {
    views = (
      h.views.0 ++ more,
      e ∙ ap (λ l. l ++ more) h.views.1 ∙ append_assoc s.pm.new_view_chan h.views.0 more,
    );
    pacemaker = v;
    chain = h.chain;
    cur_view = omega (arith, le, h.cur_view);
    preferred_view = h.preferred_view;
    high_qc = h.high_qc;
    committed = h.committed;
  }

  with_views :
      {w' : View} {qc' : Qc}
      → w ≤ w'
      → qc.view ≤ qc'.view
      → Later env s pm w qc bc log
      → Later env s pm w' qc' bc log
  with_views le le' h = record {
    pacemaker = h.pacemaker;
    chain = h.chain;
    cur_view = h.cur_view;
    views = h.views;
    preferred_view = omega (arith, le, h.preferred_view);
    high_qc = omega (arith, le', h.high_qc);
    committed = h.committed;
  }

  with_chain :
      {bc' : BlockChain}
      → Later env s pm w qc bc log
      → Chain.Follows env.byz_no bc bc'
      → Later env s pm w qc bc' log
  with_chain h f = record {
    pacemaker = h.pacemaker;
    chain = Chain.Follows-trans _ _ _ _ h.chain f;
    cur_view = h.cur_view;
    views = h.views;
    preferred_view = h.preferred_view;
    high_qc = h.high_qc;
    committed = Appends-mono f.lowest h.committed;
  }

  committing :
      {bc' : BlockChain} {log' : List Block}
      → Chain.Follows env.byz_no bc bc'
      → Appends s.bc.forrest.lowest_level s.committed_blocks bc'.forrest.lowest_level log'
      → Later env s pm w qc bc log
      → Later env s pm w qc bc' log'
  committing f a h = record {
    pacemaker = h.pacemaker;
    chain = Chain.Follows-trans _ _ _ _ h.chain f;
    cur_view = h.cur_view;
    views = h.views;
    preferred_view = h.preferred_view;
    high_qc = h.high_qc;
    committed = a;
  }

pub Later-Stable : {Own : Type 0} (env : Env) (s : Chained Own) → Stable env (Later env s)
Later-Stable env s = record {
  advance = λ v {pm} h.
      with_pm (Pacemaker.advance_view-IsValid v pm h.pacemaker)
        (Pacemaker.cur_view-advance_view pm v) (Pacemaker.new_view_chan-advance_view v pm) h;
  tmo = λ m {pm} h.
      with_pm (Pacemaker.process_remote_tmo-IsValid pm m h.pacemaker)
        (omega (arith, Pacemaker.cur_view-process_remote_tmo pm m))
        ([], Pacemaker.new_view_chan-process_remote_tmo pm m ∙ sym (append-nil pm.new_view_chan)) h;
  vmo = λ m {pm} h.
      with_pm (Pacemaker.process_remote_vmo-IsValid pm m h.pacemaker)
        (omega (arith, Pacemaker.cur_view-process_remote_vmo pm m))
        ([], Pacemaker.new_view_chan-process_remote_vmo pm m ∙ sym (append-nil pm.new_view_chan)) h;
  prefer = λ v lt h. with_views (omega arith) (omega arith) h;
  high = λ new lt h. with_views (omega arith) (omega arith) h;
  flag = λ id {bc = bc} h. with_chain h (Chain.flag_commit-Follows env.byz_no id bc h.chain.valid);
  commits = λ id view o {bc = bc} {log} h.
      let follows = Chain.commit_block-Follows env.byz_no env.rounds id view bc h.chain.valid in
      committing follows
        (Appends-commit_block s.committed_blocks log o env.rounds id view bc h.chain.valid.forrest
          follows.lowest h.committed)
        h;
  block = λ b {bc = bc} {bc'} e h.
      with_chain h (Chain.add_block-Follows env.byz_no b bc bc' h.chain.valid e);
  vote = λ v {bc = bc} h. with_chain h (Chain.add_vote-Follows env.byz_no v bc h.chain.valid);
}

-- Every valid state is later than itself.
pub Later-refl :
    {Own : Type 0} (env : Env) (s : Chained Own) → IsValid env s → Holds (Later env s) s
Later-refl env s v = record {
  pacemaker = v.pacemaker;
  chain = Chain.stays env.byz_no s.bc v.chain;
  cur_view = omega arith;
  views = ([], sym (append-nil s.pm.new_view_chan));
  preferred_view = omega arith;
  high_qc = omega arith;
  committed = same _ (omega arith);
}

pub new_chained-IsValid :
    {Own : Type 0} (env : Env) (n : ℕ) (own : Own) → IsValid env (new_chained n own)
unfolding new_chained
new_chained-IsValid env n own = record {
  pacemaker = Pacemaker.new_pacemaker-IsValid n;
  chain = Chain.new_blockchain-IsValid env.byz_no n;
}
