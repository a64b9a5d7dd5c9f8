-- ===== src/Host.antt =====
-- host/*.go: what the host sees of a file system.
pub mod Handles
