-- ===== src/Hotstuff/Tests.antt =====
-- The theorems on a replica that is node 1 of four.
use bamboo.Prelude.{◌≡◌, ◌⊎◌, List, [], ◌++◌}
use bamboo.Types.{Block}
use bamboo.Blockchain.Chain.{new_blockchain}
use bamboo.Blockchain.Samples.{block_1, block_2, sample_qc, forest_3, forest_3-IsValid}
use bamboo.Chained.Samples.{sample_env}
use bamboo.Chained.Stable.{Holds}
use bamboo.Chained.Certificate.Trust.{Accepted}
use bamboo.Chained.Log.{Appends}
use bamboo.Chained.Later.{IsValid, Later}
use bamboo.Hotstuff.State.{Hotstuff, new_hotstuff}
use bamboo.Hotstuff.Certificate.{process_certificate}
use bamboo.Hotstuff.Certificate.Safety.{CommittedBy, process_certificate-Grown}
use bamboo.Chained.Progress.{block, start, step}
use bamboo.Hotstuff.Progress.{handle, handle-Later, Reachable-IsValid}

abbrev first : Hotstuff
first = (handle sample_env 5 (block block_1) (new_hotstuff 4)).1

Reachable-IsValid_example :
    IsValid sample_env first × Appends 0 [] first.bc.forrest.lowest_level first.committed_blocks
Reachable-IsValid_example =
    Reachable-IsValid sample_env 4 first (step 5 (block block_1) (new_hotstuff 4) start)

first-IsValid : IsValid sample_env first
first-IsValid =
    (Reachable-IsValid sample_env 4 first (step 5 (block block_1) (new_hotstuff 4) start)).0

handle-Later_example : Holds (Later sample_env first) (handle sample_env 5 (block block_2) first).1
handle-Later_example = handle-Later sample_env 5 (block block_2) first first-IsValid

-- The replica has the blocks of the views 1, 2 and 3, and the certificate of the third is its own.
abbrev three_blocks : Hotstuff
three_blocks = record (new_hotstuff 4) { bc = record (new_blockchain 4) { forrest = forest_3 } }

process_certificate-Grown_example :
    ((process_certificate sample_env (sample_qc 3 13) three_blocks).1.committed_blocks
      ≡ three_blocks.committed_blocks)
    ⊎ ((blocks : List Block) × ((process_certificate sample_env
            (sample_qc 3 13)
            three_blocks).1.committed_blocks
          ≡ three_blocks.committed_blocks ++ blocks)
        × Accepted sample_env (sample_qc 3 13)
        × CommittedBy sample_env three_blocks.bc (sample_qc 3 13) blocks)
process_certificate-Grown_example =
    process_certificate-Grown sample_env (sample_qc 3 13) three_blocks forest_3-IsValid
