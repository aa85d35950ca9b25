-- ===== src/Streamlet/Proposal.antt =====
-- `MakeProposal` of Streamlet.
pub mod Safe
use bamboo.Prelude.{
  ◌+◌, Bool, false, ◌&&◌, Option, none, some, List, [], ◌∷◌, length, ltb, ◌==◌, if◌then◌else◌, ℤ,
  pos,
}
use bamboo.Outcome.{Outcome, ok, fault, index_range, ◌>>=◌}
use bamboo.Types.{View, Identifier, Qc, Block, Transaction}
use bamboo.Blockchain.Block.{make_block}
use bamboo.Notarized.Proposal.{tail_id, parent_qc}
use bamboo.Notarized.State.{Env, Notarized}

-- A Byzantine leader keeps silent where the last two layers have one block each, in the two views
-- before the current one.
two_in_row : View → List (List Block) → Bool
two_in_row cur ((b ∷ []) ∷ (a ∷ []) ∷ layers) = b.view == a.view + 1 && b.view + 1 == cur
two_in_row cur layers = false

is_silent : Env → Notarized → Bool
unfolding two_in_row
is_silent env s =
    ltb 3 (length s.notarized_chain) && env.is_byz && two_in_row s.pm.cur_view s.notarized_chain

pub record Choice : Type 0 where
  pub prev_id : Identifier
  pub fork_num : ℤ

abbrev pub choice : Env → Notarized → Identifier → Choice
choice env s id =
    let next = env.election.find_leader_for (s.pm.cur_view + 1) in
    record { prev_id = id; fork_num = if ltb env.byz_no next && env.is_byz then pos 1 else pos 0 }

-- `forkChoice`: nothing where the leader keeps silent.
unfoldable pub fork_choice : Env → Notarized → Outcome (Option Choice)
unfolding is_silent
fork_choice env s =
    if is_silent env s
    then ok none
    else do prev_id ← tail_id env.genesis s.notarized_chain; ok (some (choice env s prev_id))

abbrev propose : Env → View → List Transaction → Option Choice → Outcome (Option Block)
propose env view payload none = ok none
propose env view payload (some c) = do
  b ←
      make_block env.hash env.keys view (parent_qc c.prev_id) c.prev_id payload env.id env.is_byz
        c.fork_num 0
  ok (some b)

pub make_proposal : Env → View → List Transaction → Notarized → Outcome (Option Block)
unfolding fork_choice
make_proposal env view payload s = do c ← fork_choice env s; propose env view payload c
