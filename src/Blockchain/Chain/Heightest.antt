-- ===== src/Blockchain/Chain/Heightest.antt =====
-- The block of a commit that the protocols flag: `heightestBlock` of tchs/tchs.go,
-- fasthostuff/fhs.go and streamlet/streamlet.go.
pub mod Highest
use bamboo.Prelude.{Option, none, some, List, [], ◌∷◌, ltb, ◌==◌, if◌then◌else◌, map}
use bamboo.Types.{Identifier, Block}
use bamboo.Blockchain.Forest.Flag.{flagged, flag_commit}
use bamboo.Blockchain.Chain.{BlockChain}

-- `heightestBlock`: the first block of the highest view.
heightest_from : Block → List Block → Block
heightest_from best [] = best
heightest_from best (b ∷ bs) = heightest_from (if ltb best.view b.view then b else best) bs

pub heightest : List Block → Option Block
unfolding heightest_from
heightest [] = none
heightest (b ∷ bs) = some (heightest_from b bs)

-- The flag is set on the object that the channel and the forest share.
abbrev pub flag_in : Identifier → List Block → List Block
flag_in id blocks = map (λ b. if b.id == id then flagged b else b) blocks

abbrev pub flag_committed : Option Block → List Block → List Block
flag_committed none blocks = blocks
flag_committed (some b) blocks = flag_in b.id blocks

abbrev pub flag_chain : Option Block → BlockChain → BlockChain
flag_chain none bc = bc
flag_chain (some b) bc = record bc { forrest = flag_commit b.id bc.forrest }
