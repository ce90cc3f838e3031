-- ===== src/Base.antt =====
-- Shared vocabulary: names of the libraries passed on, Boolean tests, lists, texts and tables.
-- A Rust `&str` or `String` is the list of its characters' code points, a `&[u8]` the list of its
-- bytes.
pub mod Tests
pub mod Lists
pub mod Text
pub mod Utf8
pub mod Table
pub mod Order
pub mod Keys
pub mod Error
