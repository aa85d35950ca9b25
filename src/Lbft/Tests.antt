-- ===== src/Lbft/Tests.antt =====
-- The theorems on an LBFT replica that is node 1 of four.
use bamboo.Blockchain.Samples.{block_1}
use bamboo.Notarized.Samples.{sample_env}
use bamboo.Notarized.Later.{IsValid}
use bamboo.Notarized.Progress.{block}
use bamboo.Lbft.Replica.{Lbft, new_lbft}
use bamboo.Lbft.Progress.{handle_lbft, start, step, LbftReachable-IsValid}

abbrev first_lbft : Lbft
first_lbft = (handle_lbft sample_env 5 (block block_1) (new_lbft 4)).1

LbftReachable-IsValid_example : IsValid sample_env first_lbft
LbftReachable-IsValid_example =
    LbftReachable-IsValid sample_env first_lbft (step 5 (block block_1) (new_lbft 4) start)
