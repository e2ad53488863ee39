-- ===== src/Shell.antt =====
-- desktop/crates/shell/src: what the shell decides itself, around the core.
pub mod Pinning
pub mod Views
pub mod Suspend
pub mod Wire
pub mod Answers
pub mod Server
