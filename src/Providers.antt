-- ===== src/Providers.antt =====
-- providers/: accounts and repositories of hosting services.
pub mod Model
pub mod Cursor
pub mod Operations
pub mod Store
