-- ===== src/Streamlet.antt =====
-- streamlet/streamlet.go.
pub mod Spread
pub mod Replica
pub mod Proposal
pub mod Progress
pub mod Tests
