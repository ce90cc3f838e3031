-- ===== src/Transport.antt =====
-- git/transport/: network operations of Git.
pub mod Operation
pub mod Progress
pub mod Url
pub mod Config
pub mod Profiles
pub mod Clones
