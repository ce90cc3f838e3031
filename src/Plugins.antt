-- ===== src/Plugins.antt =====
-- plugins/: what a plugin declares and what it may do.
pub mod Manifest
pub mod Permissions
