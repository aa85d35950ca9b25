-- ===== src/Fhs/Tests.antt =====
-- The theorems on a replica that is node 1 of four.
use bamboo.Prelude.{[]}
use bamboo.Blockchain.Samples.{block_1}
use bamboo.Chained.Samples.{sample_env}
use bamboo.Chained.Log.{Appends}
use bamboo.Chained.Later.{IsValid}
use bamboo.Chained.Progress.{block, start, step}
use bamboo.Fhs.Rules.{Fhs, new_fhs}
use bamboo.Fhs.Progress.{handle_fhs, FhsReachable-IsValid}

-- The replica has the first block.
abbrev first_fhs : Fhs
first_fhs = (handle_fhs sample_env 5 (block block_1) (new_fhs 4)).1

FhsReachable-IsValid_example :
    IsValid sample_env first_fhs
    × Appends 0 [] first_fhs.bc.forrest.lowest_level first_fhs.committed_blocks
FhsReachable-IsValid_example =
    FhsReachable-IsValid sample_env 4 first_fhs (step 5 (block block_1) (new_fhs 4) start)
