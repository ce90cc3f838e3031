-- ===== src/Git/Status/Header.antt =====
-- git/parser.rs: the `# branch` lines of the status output.
use git_ramus.Base.Tests.{ℕ, ◌^◌, true, ◌||◌, Option, none, some, List, [], ◌∷◌, if◌then◌else◌}
use git_ramus.Base.Text.{Text, codes, text_eq, strip_prefix, split_whitespace, parse_unsigned}
use git_ramus.Base.Utf8.{from_utf8}
use git_ramus.Base.Error.{AppError, invalid_input, Result, ok, err, and_then}
use git_ramus.Git.Status.Model.{RepositorySnapshot}

abbrev pub invalid_status : Text → AppError
invalid_status message = invalid_input message

abbrev pub invalid_path : AppError
invalid_path = invalid_input (codes "path is not valid UTF-8")

-- `split_whitespace().next()`, and once more
abbrev pub first_word : List Text → Option Text
first_word [] = none
first_word (w ∷ ws) = some w

abbrev pub second_word : List Text → Option Text
second_word [] = none
second_word (w ∷ ws) = first_word ws

abbrev pub u64_limit : ℕ
u64_limit = 2 ^ 64

abbrev counted : Option ℕ → Result ℕ
counted none = err (invalid_status (codes "malformed branch ahead/behind count"))
counted (some n) = ok n

abbrev signed_number : Option Text → Result ℕ
signed_number none = err (invalid_status (codes "malformed branch ahead/behind count"))
signed_number (some number) = counted (parse_unsigned u64_limit number)

unfoldable pub parse_signed_count : Option Text → ℕ → Result ℕ
parse_signed_count none sign = err (invalid_status (codes "malformed branch ahead/behind header"))
parse_signed_count (some value) sign = signed_number (strip_prefix (sign ∷ []) value)

unfoldable pub branch_oid : Text → RepositorySnapshot → RepositorySnapshot
branch_oid oid s =
    if text_eq oid (codes "(initial)") || text_eq oid (codes "(unknown)")
    then s
    else record s { head_oid = some oid }

unfoldable pub branch_head : Text → RepositorySnapshot → RepositorySnapshot
branch_head branch s =
    if text_eq branch (codes "(detached)")
    then record s { detached = true; branch = none }
    else record s { branch = some branch }

unfoldable pub branch_upstream : Text → RepositorySnapshot → RepositorySnapshot
branch_upstream upstream s =
    if text_eq upstream (codes "(null)") then s else record s { upstream = some upstream }

unfoldable pub branch_ab : List Text → RepositorySnapshot → Result RepositorySnapshot
unfolding parse_signed_count
branch_ab parts s = and_then (parse_signed_count (first_word parts) b'+') λ ahead.
    and_then (parse_signed_count (second_word parts) b'-')
      λ behind. ok (record s { ahead = ahead; behind = behind })

-- The `else if let` chain, one function for each prefix that is tried.
unfoldable pub header_ab : Text → RepositorySnapshot → Option Text → Result RepositorySnapshot
unfolding branch_ab split_whitespace
header_ab value s (some ab) = branch_ab (split_whitespace ab) s
header_ab value s none = ok s

unfoldable pub header_upstream : Text → RepositorySnapshot → Option Text → Result RepositorySnapshot
unfolding header_ab branch_upstream
header_upstream value s (some upstream) = ok (branch_upstream upstream s)
header_upstream value s none = header_ab value s (strip_prefix (codes "branch.ab ") value)

unfoldable pub header_head : Text → RepositorySnapshot → Option Text → Result RepositorySnapshot
unfolding header_upstream branch_head
header_head value s (some branch) = ok (branch_head branch s)
header_head value s none = header_upstream value s (strip_prefix (codes "branch.upstream ") value)

unfoldable pub header_oid : Text → RepositorySnapshot → Option Text → Result RepositorySnapshot
unfolding header_head branch_oid
header_oid value s (some oid) = ok (branch_oid oid s)
header_oid value s none = header_head value s (strip_prefix (codes "branch.head ") value)

unfoldable pub header_value : RepositorySnapshot → Option Text → Result RepositorySnapshot
unfolding header_oid
header_value s none = err (invalid_status (codes "malformed branch header"))
header_value s (some value) = header_oid value s (strip_prefix (codes "branch.oid ") value)

unfoldable pub header_text : RepositorySnapshot → Option Text → Result RepositorySnapshot
unfolding header_value
header_text s none = err invalid_path
header_text s (some text) = header_value s (strip_prefix (codes "# ") text)

unfoldable pub parse_branch_header : List ℕ → RepositorySnapshot → Result RepositorySnapshot
unfolding header_text from_utf8
parse_branch_header record_bytes s = header_text s (from_utf8 record_bytes)
