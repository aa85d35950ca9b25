-- ===== src/Lbft.antt =====
-- lbft/lbft.go.
pub mod Replica
pub mod Proposal
pub mod Progress
pub mod Tests
