-- ===== src/Hotstuff.antt =====
-- hotstuff/hotstuff.go: the protocol of a replica. The state, the rules and the handlers are in the
-- modules below; the recursive calls between the handlers are closed in `Blocks`.
pub mod State
pub mod Rules
pub mod Certificate
pub mod Handlers
pub mod Blocks
pub mod Progress
pub mod Tests
