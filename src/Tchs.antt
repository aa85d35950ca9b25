-- ===== src/Tchs.antt =====
-- tchs/tchs.go: two-chain HotStuff.
pub mod Rules
pub mod Blocks
pub mod Progress
pub mod Tests
