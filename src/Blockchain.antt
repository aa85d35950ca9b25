-- ===== src/Blockchain.antt =====
-- blockchain/: blocks, the forest of blocks, the quorums of votes, and the chain over them.
pub mod Block
pub mod Forest
pub mod Samples
pub mod Quorum
pub mod Chain
