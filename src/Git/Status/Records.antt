-- ===== src/Git/Status/Records.antt =====
-- git/parser.rs: the records of the status output and the loop over them.
use git_ramus.Base.Tests.{
  ℕ, zero, suc, Bool, true, false, not, ◌&&◌, ◌||◌, Option, none, some, List, [], ◌∷◌, ◌++◌, ltb,
  ◌==◌, if◌then◌else◌,
}
use git_ramus.Base.Lists.{length, drop, count_if}
use git_ramus.Base.Text.{Text, codes, starts_with, has_char, split, split_once, is_empty}
use git_ramus.Base.Utf8.{from_utf8}
use git_ramus.Base.Error.{Result, ok, err, and_then}
use git_ramus.Git.Status.Model.{
  ChangeKind, added, modified, deleted, renamed, copied, type_changed, conflicted, unknown,
  is_untracked, ChangeEntry, status_entry, untracked_entry, RepositorySnapshot, empty_snapshot,
}
use git_ramus.Git.Status.Header.{invalid_status, invalid_path, parse_branch_header}

abbrev pub Bytes : Type 0
Bytes = List ℕ

abbrev split_field : Option (Bytes × Bytes) → (Bytes → Result (List Bytes)) → Result (List Bytes)
split_field none k = err (invalid_status (codes "malformed porcelain v2 record"))
split_field (some (field, rest)) k = and_then (k rest) λ fields. ok (field ∷ fields)

-- The fields before the first `spaces` spaces, and what is left behind them.
unfoldable pub split_prefix_fields : ℕ → Bytes → Result (List Bytes)
split_prefix_fields zero bytes = ok (bytes ∷ [])
split_prefix_fields (suc n) bytes = split_field (split_once b' ' bytes) (split_prefix_fields n)

-- `fields[i]`, which panics past the end; the list has `spaces + 1` fields
abbrev pub field_at : ℕ → List Bytes → Bytes
field_at i [] = []
field_at zero (f ∷ fs) = f
field_at (suc i) (f ∷ fs) = field_at i fs

unfoldable pub two_bytes : Bytes → Result (ℕ × ℕ)
two_bytes (x ∷ y ∷ []) = ok (x, y)
two_bytes _ = err (invalid_status (codes "malformed porcelain status code"))

unfoldable pub status_is_conflicted : ℕ → ℕ → Bool
status_is_conflicted x y = ((x == b'U' || x == b'A') && y == b'U') || y == b'U' || x == b'U'

abbrev status_code : ℕ → ChangeKind
status_code c =
    if c == b'A'
    then added
    else if c == b'D'
    then deleted
    else if c == b'M'
    then modified
    else if c == b'R'
    then renamed
    else if c == b'C'
    then copied
    else if c == b'T'
    then type_changed
    else unknown

unfoldable pub kind_from_status : ℕ → ℕ → Bool → Bool → ChangeKind
kind_from_status x y rename is_conflicted =
    if is_conflicted
    then conflicted
    else if rename
    then renamed
    else status_code (if not (x == b'.') then x else y)

abbrev pub decoded : Option Text → Result Text
decoded none = err invalid_path
decoded (some t) = ok t

unfoldable pub decode_path : Bytes → Result Text
unfolding from_utf8
decode_path path =
    if is_empty path
    then err (invalid_status (codes "empty path in Git output"))
    else decoded (from_utf8 path)

abbrev pub push_change : ChangeEntry → RepositorySnapshot → RepositorySnapshot
push_change e s = record s { changes = s.changes ++ e ∷ [] }

-- `1 <XY> <sub> <mH> <mI> <mW> <hH> <hI> <path>`
unfoldable pub ordinary_record : Bytes → RepositorySnapshot → Result RepositorySnapshot
ordinary_record bytes s = and_then (split_prefix_fields 8 bytes) λ fields.
    and_then (two_bytes (field_at 1 fields)) λ status.
      and_then (decode_path (field_at 8 fields)) λ path.
        let conflict = status_is_conflicted status.0 status.1 in
        ok (
          push_change
            (status_entry path none (kind_from_status status.0 status.1 false conflict) status.0
              status.1 conflict)
            s)

-- `records.get(index)`
abbrev pub next_record : List Bytes → Result Bytes
next_record [] = err (invalid_status (codes "rename record is missing its original path"))
next_record (r ∷ rs) = ok r

-- `2 <XY> <sub> <mH> <mI> <mW> <hH> <hI> <score> <path>`, then the original path
unfoldable pub rename_record : Bytes → List Bytes → RepositorySnapshot → Result RepositorySnapshot
rename_record bytes rest s = and_then (split_prefix_fields 9 bytes) λ fields.
    and_then (two_bytes (field_at 1 fields)) λ status.
      and_then (decode_path (field_at 9 fields)) λ path.
        and_then (next_record rest) λ original_bytes.
          and_then (decode_path original_bytes) λ original. ok (
            push_change
              (status_entry path (some original)
                (if status.0 == b'C' || status.1 == b'C' then copied else renamed) status.0 status.1
                (status_is_conflicted status.0 status.1))
              s)

-- `u <XY> <sub> <m1> <m2> <m3> <mW> <h1> <h2> <h3> <path>`
unfoldable pub unmerged_record : Bytes → RepositorySnapshot → Result RepositorySnapshot
unmerged_record bytes s = and_then (split_prefix_fields 10 bytes) λ fields.
    and_then (two_bytes (field_at 1 fields)) λ status.
      and_then (decode_path (field_at 10 fields))
        λ path. ok (push_change (status_entry path none conflicted status.0 status.1 true) s)

-- `? <path>`
abbrev second_is_space : Bytes → Bool
second_is_space (a ∷ b ∷ _) = b == b' '
second_is_space _ = false

unfoldable pub untracked_record : Bytes → RepositorySnapshot → Result RepositorySnapshot
unfolding drop
untracked_record bytes s =
    if ltb (length bytes) 3 || not (second_is_space bytes)
    then err (invalid_status (codes "malformed untracked record"))
    else and_then (decode_path (drop 2 bytes)) λ path. ok (push_change (untracked_entry path) s)

-- The lines of a header record; empty ones are skipped.
unfoldable pub header_lines : List Bytes → RepositorySnapshot → Result RepositorySnapshot
header_lines [] s = ok s
header_lines (line ∷ lines) s =
    if is_empty line
    then header_lines lines s
    else and_then (parse_branch_header line s) λ s'. header_lines lines s'

abbrev first_byte : Bytes → ℕ
first_byte [] = 0
first_byte (b ∷ _) = b

-- A record takes the next one with it if the flag is set.
abbrev pub Taken : Type 0
Taken = RepositorySnapshot × Bool

abbrev alone : Result RepositorySnapshot → Result Taken
alone r = and_then r λ s. ok (s, false)

-- The body of the loop: a record that is not empty.
unfoldable pub record_body : Bytes → List Bytes → RepositorySnapshot → Result Taken
record_body bytes rest s =
    let tag = first_byte bytes in
    if starts_with (codes "# ") bytes && has_char b'\n' bytes
    then alone (header_lines (split b'\n' bytes) s)
    else if starts_with (codes "# ") bytes
    then alone (parse_branch_header bytes s)
    else if tag == b'1'
    then alone (ordinary_record bytes s)
    else if tag == b'2'
    then and_then (rename_record bytes rest s) (λ s'. ok (s', true))
    else if tag == b'u'
    then alone (unmerged_record bytes s)
    else if tag == b'?'
    then alone (untracked_record bytes s)
    else if tag == b'!'
    then ok (s, false)
    else err (invalid_status (codes "unknown porcelain v2 record"))

-- An empty record is the sentinel behind the last NUL, and is malformed elsewhere.
unfoldable pub parse_record : Bytes → List Bytes → RepositorySnapshot → Result Taken
parse_record [] [] s = ok (s, false)
parse_record [] (r ∷ rs) s = err (invalid_status (codes "empty porcelain v2 record"))
parse_record (b ∷ bs) rest s = record_body (b ∷ bs) rest s

unfoldable pub parse_records : List Bytes → RepositorySnapshot → Result RepositorySnapshot
parse_records [] s = ok s
parse_records (r ∷ []) s = and_then (parse_record r [] s) λ taken. ok taken.0
parse_records (r ∷ q ∷ rest) s =
    let skipping = λ (s' : RepositorySnapshot). parse_records rest s' in
    let going_on = λ (s' : RepositorySnapshot). parse_records (q ∷ rest) s' in
    and_then (parse_record r (q ∷ rest) s)
      λ taken. if taken.1 then skipping taken.0 else going_on taken.0

-- The counters, once all records are read.
unfoldable pub with_counts : RepositorySnapshot → RepositorySnapshot
unfolding count_if is_empty is_untracked
with_counts s = record s {
  staged_count = count_if (λ e. e.staged) s.changes;
  unstaged_count = count_if (λ e. e.unstaged && not (is_untracked e.kind)) s.changes;
  untracked_count = count_if (λ e. is_untracked e.kind) s.changes;
  conflicted_count = count_if (λ e. e.conflicted) s.changes;
  total_count = length s.changes;
  dirty = not (is_empty s.changes);
  is_dirty = not (is_empty s.changes);
  head_sha = s.head_oid;
}

-- `bytes.ends_with(&[0])`
unfoldable pub ends_with_nul : Bytes → Bool
ends_with_nul [] = false
ends_with_nul (b ∷ bs) = let rest = ends_with_nul bs in if is_empty bs then b == 0 else rest

unfoldable pub parse_status_v2 : Bytes → Result RepositorySnapshot
parse_status_v2 bytes =
    if not (is_empty bytes) && not (ends_with_nul bytes)
    then err (invalid_status (codes "porcelain v2 stream is not NUL terminated"))
    else and_then (parse_records (split 0 bytes) empty_snapshot) λ s. ok (with_counts s)
