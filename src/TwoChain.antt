-- ===== src/TwoChain.antt =====
-- What tchs/tchs.go and fasthostuff/fhs.go have in common: the fields, the commit rule for two
-- consecutive views, and the methods that are the same in both.
pub mod State
pub mod Rules
pub mod Commit
pub mod Handlers
pub mod Tests
