-- ===== src/Replica.antt =====
-- replica/replica.go: the loop around a protocol.
pub mod State
pub mod Handlers
pub mod Loop
pub mod Invariant
pub mod Order
pub mod Progress
pub mod Tests
