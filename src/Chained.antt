-- ===== src/Chained.antt =====
-- What hotstuff/hotstuff.go, tchs/tchs.go and fasthostuff/fhs.go have in common: the fields, the
-- check of a certificate, and the change of views.
pub mod State
pub mod Log
pub mod Stable
pub mod Certificate
pub mod Views
pub mod Later
pub mod Votes
pub mod Proposals
pub mod Progress
pub mod Samples
