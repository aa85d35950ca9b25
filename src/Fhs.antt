-- ===== src/Fhs.antt =====
-- fasthostuff/fhs.go: Fast-HotStuff.
pub mod Rules
pub mod Blocks
pub mod Progress
pub mod Tests
