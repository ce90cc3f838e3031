-- ===== src/Git/Status.antt =====
-- git/parser.rs, `parse_status_v2`: the output of `git status --porcelain=v2 -z --branch`.
pub mod Model
pub mod Header
pub mod Records
pub mod Render
pub mod Columns
pub mod RoundTrip
