-- ===== src/Notarized/Later.antt =====
-- States that are well formed, and states that follow them.
use bamboo.Prelude.{ℕ, ◌≤◌, ◌≡◌, refl, List, [], ◌∷◌, ◌++◌, arith, subst, sym}
use bamboo.Types.{Block}
use bamboo.Pacemaker.{Pacemaker, new_pacemaker}
use bamboo.Pacemaker.Views as Pacemaker
use bamboo.Blockchain.Chain.{BlockChain}
use bamboo.Blockchain.Chain.Validity as Chain
use bamboo.Notarized.State.{Env, Notarized, new_notarized}
use bamboo.Notarized.Chain.Layers.{IsNotarized, notarize-Layer}
use bamboo.Notarized.Stable.{Holds, Stable}

pub record IsValid (env : Env) (s : Notarized) : Type 0 where
  pub pacemaker : Pacemaker.IsValid s.pm
  pub chain : Chain.IsValid env.byz_no s.bc
  pub notarized : IsNotarized s.notarized_chain

-- A later state: valid, the view and the counts are not taken back, and the notarized chain has at
-- most gained layers.
pub record Later (env : Env) (s : Notarized) (pm : Pacemaker) (bc : BlockChain)
    (c : List (List Block)) : Type 0 where
  pub pacemaker : Pacemaker.IsValid pm
  pub chain : Chain.Follows env.byz_no s.bc bc
  pub cur_view : s.pm.cur_view ≤ pm.cur_view
  pub notarized : IsNotarized c
  pub grown : (added : List (List Block)) × (c ≡ added ++ s.notarized_chain)

module _ {env : Env} {s : Notarized} {pm : Pacemaker} {bc : BlockChain}
    {c : List (List Block)} where
  with_pm :
      {pm' : Pacemaker}
      → Pacemaker.IsValid pm'
      → pm.cur_view ≤ pm'.cur_view
      → Later env s pm bc c
      → Later env s pm' bc c
  with_pm v le h = record {
    pacemaker = v;
    chain = h.chain;
    cur_view = omega (arith, le, h.cur_view);
    notarized = h.notarized;
    grown = h.grown;
  }

  with_chain :
      {bc' : BlockChain}
      → Later env s pm bc c
      → Chain.Follows env.byz_no bc bc'
      → Later env s pm bc' c
  with_chain h f = record {
    pacemaker = h.pacemaker;
    chain = Chain.Follows-trans _ _ _ _ h.chain f;
    cur_view = h.cur_view;
    notarized = h.notarized;
    grown = h.grown;
  }

  with_layer :
      (layer : List Block)
      → IsNotarized (layer ∷ c)
      → Later env s pm bc c
      → Later env s pm bc (layer ∷ c)
  with_layer layer n h = record {
    pacemaker = h.pacemaker;
    chain = h.chain;
    cur_view = h.cur_view;
    notarized = n;
    grown = (layer ∷ h.grown.0, rw (← h.grown.1) refl);
  }

pub Later-Stable : (env : Env) (s : Notarized) → Stable env (Later env s)
Later-Stable env s = record {
  advance = λ v {pm} h.
      with_pm (Pacemaker.advance_view-IsValid v pm h.pacemaker)
        (Pacemaker.cur_view-advance_view pm v) h;
  tmo = λ m {pm} h.
      with_pm (Pacemaker.process_remote_tmo-IsValid pm m h.pacemaker)
        (omega (arith, Pacemaker.cur_view-process_remote_tmo pm m)) h;
  flag = λ id {bc = bc} h. with_chain h (Chain.flag_commit-Follows env.byz_no id bc h.chain.valid);
  commits = λ id view {bc = bc} h.
      with_chain h (Chain.commit_block-Follows env.byz_no env.rounds id view bc h.chain.valid);
  block = λ b {bc = bc} {bc'} e h.
      with_chain h (Chain.add_block-Follows env.byz_no b bc bc' h.chain.valid e);
  vote = λ v {bc = bc} h. with_chain h (Chain.add_vote-Follows env.byz_no v bc h.chain.valid);
  layer = λ b {pm} {bc} {c} {c'} e h.
      let (same, layer) = notarize-Layer b c c' e in
      subst (Later env s pm bc) (sym same) (with_layer (b ∷ []) (layer, h.notarized) h);
}

-- Every valid state is later than itself.
pub Later-refl : (env : Env) (s : Notarized) → IsValid env s → Holds (Later env s) s
Later-refl env s v = record {
  pacemaker = v.pacemaker;
  chain = Chain.stays env.byz_no s.bc v.chain;
  cur_view = omega arith;
  notarized = v.notarized;
  grown = ([], refl);
}

pub new_notarized-IsValid : (env : Env) (n : ℕ) → IsValid env (new_notarized n)
unfolding new_notarized
new_notarized-IsValid env n = record {
  pacemaker =
      Pacemaker.advance_view-IsValid 0 (new_pacemaker n) (Pacemaker.new_pacemaker-IsValid n);
  chain = Chain.new_blockchain-IsValid env.byz_no n;
  notarized = tt;
}
