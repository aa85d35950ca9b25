-- ===== src/Notarized.antt =====
-- What streamlet/streamlet.go and lbft/lbft.go have in common: the fields, the chain of notarized
-- blocks, and every handler. What they do differently is the record `Variant`.
pub mod State
pub mod Chain
pub mod Stable
pub mod Certificate
pub mod Blocks
pub mod Later
pub mod Progress
pub mod Proposal
pub mod Samples
pub mod Tests
