-- ===== src/Streamlet/Tests.antt =====
-- The theorems on a Streamlet replica that is node 1 of four.
use bamboo.Prelude.{◌+◌, ◌-◌, ◌≡◌, ◌⊎◌, ◌&&◌, ◌||◌, not, ◌==◌, leb, true, some, none, [], mem}
use bamboo.Outcome.{ok}
use bamboo.Blockchain.Samples.{block_1}
use bamboo.Notarized.State.{new_notarized}
use bamboo.Notarized.Samples.{sample_env}
use bamboo.Notarized.Chain.{extends}
use bamboo.Notarized.Later.{IsValid}
use bamboo.Notarized.Progress.{block, start, step}
use bamboo.Streamlet.Replica.{Streamlet}
use bamboo.Streamlet.Spread.{other_nodes}
use bamboo.Streamlet.Spread.Targets.{mem-other_nodes}
use bamboo.Streamlet.Proposal.{Choice, fork_choice}
use bamboo.Streamlet.Proposal.Safe.{fork_choice-IsNotarized}
use bamboo.Streamlet.Progress.{handle_streamlet, StreamletReachable-IsValid}

abbrev first_streamlet : Streamlet
first_streamlet = (handle_streamlet sample_env 5 (block block_1) (new_notarized 4)).1

StreamletReachable-IsValid_example : IsValid sample_env first_streamlet
StreamletReachable-IsValid_example =
    StreamletReachable-IsValid sample_env first_streamlet
      (step 5 (block block_1) (new_notarized 4) start)

first_streamlet-IsValid : IsValid sample_env first_streamlet
first_streamlet-IsValid =
    StreamletReachable-IsValid sample_env first_streamlet
      (step 5 (block block_1) (new_notarized 4) start)

fork_choice-IsNotarized_example :
    (fork_choice sample_env first_streamlet ≡ ok none)
    ⊎ ((c : Choice) × (fork_choice sample_env first_streamlet ≡ ok (some c))
        × (((first_streamlet.notarized_chain ≡ []) × (c.prev_id ≡ sample_env.genesis))
            ⊎ (extends c.prev_id first_streamlet.notarized_chain ≡ true)))
fork_choice-IsNotarized_example =
    fork_choice-IsNotarized sample_env first_streamlet first_streamlet-IsValid.notarized

-- Of five nodes the third leads next: node 5 gets no vote.
mem-other_nodes_example : mem 5 (other_nodes 5 3) ≡ (
    (leb 1 5 && leb 5 (5 - 1) && not (5 == 3)) || (3 == 5 - 1 && leb 1 (5 - 1) && 5 == 5 - 1 + 1))
mem-other_nodes_example = mem-other_nodes 5 3 5
