-- ===== src/Streamlet/Proposal/Safe.antt =====
-- `MakeProposal` of Streamlet finds a block to extend.
use bamboo.Prelude.{◌≡◌, refl, ◌⊎◌, inl, inr, Bool-cases, true, none, some, []}
use bamboo.Outcome.{ok}
use bamboo.Notarized.State.{Env}
use bamboo.Notarized.Chain.Layers.{IsNotarized}
use bamboo.Notarized.Chain.{extends}
use bamboo.Notarized.Proposal.Safe.{tail_id-IsNotarized}
use bamboo.Streamlet.Replica.{Streamlet}
use bamboo.Streamlet.Proposal.{Choice, choice, is_silent, fork_choice}

-- With a well-formed notarized chain `forkChoice` panics nowhere: either the leader keeps silent, or
-- the proposal extends the genesis block, where nothing is notarized, or a notarized block.
pub fork_choice-IsNotarized :
    (env : Env) (s : Streamlet)
    → IsNotarized s.notarized_chain
    → (fork_choice env s ≡ ok none)
      ⊎ ((c : Choice) × (fork_choice env s ≡ ok (some c))
          × (((s.notarized_chain ≡ []) × (c.prev_id ≡ env.genesis))
              ⊎ (extends c.prev_id s.notarized_chain ≡ true)))
unfolding fork_choice
fork_choice-IsNotarized env s n = elim (Bool-cases (is_silent env s)) [
  | inl silent ↦ inl (rw silent refl)
  | inr speaks ↦
      let (id, found, which) = tail_id-IsNotarized env.genesis s.notarized_chain n in
      inr (choice env s id, rw speaks (rw found refl), which)
]
