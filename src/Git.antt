-- ===== src/Git.antt =====
-- git/: reading what the Git program prints.
pub mod Status
pub mod Config
