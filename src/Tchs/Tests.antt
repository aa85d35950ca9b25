-- ===== src/Tchs/Tests.antt =====
-- The theorems on a replica that is node 1 of four.
use bamboo.Prelude.{[]}
use bamboo.Blockchain.Samples.{block_1}
use bamboo.Chained.Samples.{sample_env}
use bamboo.Chained.Log.{Appends}
use bamboo.Chained.Later.{IsValid}
use bamboo.Chained.Progress.{block, start, step}
use bamboo.Tchs.Rules.{Tchs, new_tchs}
use bamboo.Tchs.Progress.{handle_tchs, TchsReachable-IsValid}

-- The replica has the first block.
abbrev first_tchs : Tchs
first_tchs = (handle_tchs sample_env 5 (block block_1) (new_tchs 4)).1

TchsReachable-IsValid_example :
    IsValid sample_env first_tchs
    × Appends 0 [] first_tchs.bc.forrest.lowest_level first_tchs.committed_blocks
TchsReachable-IsValid_example =
    TchsReachable-IsValid sample_env 4 first_tchs (step 5 (block block_1) (new_tchs 4) start)
