-- ===== src/Git/Status/RoundTrip.antt =====
-- `parse_status_v2` of git/parser.rs reads back what Git writes.
use mathlib.Core.List.{append_assoc}
use git_ramus.Base.Tests.{
  ◌≡◌, refl, ◌∙◌, Bool, true, false, not, ◌&&◌, ◌||◌, some, List, [], ◌∷◌, ◌++◌, arith,
}
use git_ramus.Base.Lists.{all, all-append}
use git_ramus.Base.Text.{
  Text, codes, has_char, is_empty, split, split-append, starts_with, strip_prefix,
}
use git_ramus.Base.Utf8.{from_utf8, from_utf8-append}
use git_ramus.Base.Error.{ok}
use git_ramus.Git.Status.Model.{RepositorySnapshot, empty_snapshot}
use git_ramus.Git.Status.Header.{parse_branch_header, branch_oid, branch_head, branch_upstream}
use git_ramus.Git.Status.Records.{
  Bytes, record_body, parse_record, parse_records, with_counts, ends_with_nul, parse_status_v2,
}
use git_ramus.Git.Status.Render.{
  Item, oid, head, upstream, ordinary, unmerged, rename, untracked, ignored, columns_of, records,
  all_records, terminated, apply, apply_all, IsWritten, AllWritten,
}
use git_ramus.Git.Status.Columns.{
  has_char-join, ordinary-parses, unmerged-parses, rename-parses, untracked-parses,
}

parse_records-one :
    (r : Bytes) (rest : List Bytes) (s s' : RepositorySnapshot)
    → is_empty rest ≡ false
    → parse_record r rest s ≡ ok (s', false)
    → parse_records (r ∷ rest) s ≡ parse_records rest s'
unfolding parse_records is_empty
parse_records-one r [] s s' h k = cc
parse_records-one r (q ∷ rest) s s' h k = rw k refl

parse_records-two :
    (r q : Bytes) (rest : List Bytes) (s s' : RepositorySnapshot)
    → parse_record r (q ∷ rest) s ≡ ok (s', true)
    → parse_records (r ∷ q ∷ rest) s ≡ parse_records rest s'
unfolding parse_records
parse_records-two r q rest s s' k = rw k refl

oid-header :
    (b : Bytes) (t : Text) (s : RepositorySnapshot)
    → from_utf8 b ≡ some t
    → parse_branch_header (codes "# branch.oid " ++ b) s ≡ ok (branch_oid t s)
unfolding parse_branch_header codes strip_prefix
oid-header b t s e = rw (from_utf8-append (codes "# branch.oid ") b t refl e) refl

head-header :
    (b : Bytes) (t : Text) (s : RepositorySnapshot)
    → from_utf8 b ≡ some t
    → parse_branch_header (codes "# branch.head " ++ b) s ≡ ok (branch_head t s)
unfolding parse_branch_header codes strip_prefix
head-header b t s e = rw (from_utf8-append (codes "# branch.head ") b t refl e) refl

upstream-header :
    (b : Bytes) (t : Text) (s : RepositorySnapshot)
    → from_utf8 b ≡ some t
    → parse_branch_header (codes "# branch.upstream " ++ b) s ≡ ok (branch_upstream t s)
unfolding parse_branch_header codes strip_prefix
upstream-header b t s e = rw (from_utf8-append (codes "# branch.upstream ") b t refl e) refl

item-parses :
    (i : Item) (rest : List Bytes) (s : RepositorySnapshot)
    → IsWritten i
    → is_empty rest ≡ false
    → parse_records (records i ++ rest) s ≡ parse_records rest (apply i s)
unfolding records apply codes has_char starts_with parse_record record_body
item-parses (oid b t) rest s (line, clean, e) full =
    parse_records-one _ rest s _ full (rw line (rw (oid-header b t s e) refl))
item-parses (head b t) rest s (line, clean, e) full =
    parse_records-one _ rest s _ full (rw line (rw (head-header b t s e) refl))
item-parses (upstream b t) rest s (line, clean, e) full =
    parse_records-one _ rest s _ full (rw line (rw (upstream-header b t s e) refl))
item-parses (ordinary x y columns p t) rest s (c, path) full =
    parse_records-one _ rest s _ full (rw (ordinary-parses x y columns p t s c path) refl)
item-parses (unmerged x y columns p t) rest s (c, path) full =
    parse_records-one _ rest s _ full (rw (unmerged-parses x y columns p t s c path) refl)
item-parses (rename x y columns p t q u) rest s (c, path, original) full =
    parse_records-two _ q rest s _
      (rw (rename-parses x y columns p t q u rest s c path original) refl)
item-parses (untracked p t) rest s path full =
    parse_records-one _ rest s _ full (rw (untracked-parses p t s path) refl)
item-parses (ignored p) rest s w full = parse_records-one _ rest s _ full refl

is_empty-append : (xs : List Bytes) (x : Bytes) → is_empty (xs ++ x ∷ []) ≡ false
unfolding is_empty
is_empty-append [] x = refl
is_empty-append (y ∷ xs) x = refl

items-parse :
    (items : List Item) (s : RepositorySnapshot)
    → AllWritten items
    → parse_records (all_records items ++ [] ∷ []) s ≡ ok (apply_all items s)
unfolding all_records apply_all
items-parse [] s w = unfold parse_records parse_record in refl
items-parse (i ∷ items) s (w, ws) = rw append_assoc (
    item-parses i (all_records items ++ [] ∷ []) s w (is_empty-append (all_records items) [])
    ∙ items-parse items (apply i s) ws)

-- No record has a NUL in it.
abbrev pub clean : List Bytes → Bool
clean rs = all (λ r. not (has_char 0 r)) rs

item-clean : (i : Item) → IsWritten i → clean (records i) ≡ true
unfolding all records codes has_char
item-clean (oid b t) (line, c, e) = rw c refl
item-clean (head b t) (line, c, e) = rw c refl
item-clean (upstream b t) (line, c, e) = rw c refl
item-clean (ordinary x y columns p t) ((n, c), path) =
    rw (has_char-join (columns_of b'1' x y columns) p c path.1) refl
item-clean (unmerged x y columns p t) ((n, c), path) =
    rw (has_char-join (columns_of b'u' x y columns) p c path.1) refl
item-clean (rename x y columns p t q u) ((n, c), path, original) =
    rw (has_char-join (columns_of b'2' x y columns) p c path.1) (rw (original.1) refl)
item-clean (untracked p t) path = rw (path.1) refl
item-clean (ignored p) c = rw c refl

items-clean : (items : List Item) → AllWritten items → clean (all_records items) ≡ true
unfolding all_records all
items-clean [] w = refl
items-clean (i ∷ items) (w, ws) = rw all-append (rw (item-clean i w, items-clean items ws) refl)

pub split-terminated : (rs : List Bytes) → clean rs ≡ true → split 0 (terminated rs) ≡ rs ++ [] ∷ []
unfolding terminated all
split-terminated [] c = unfold split in refl
split-terminated (r ∷ rs) c = ground (arith, split-append 0 r (terminated rs), split-terminated rs)

ends_with_nul-append : (r b : Bytes) → ends_with_nul (r ++ 0 ∷ b) ≡ (is_empty b || ends_with_nul b)
unfolding ends_with_nul is_empty
ends_with_nul-append [] [] = refl
ends_with_nul-append [] (c ∷ b) = refl
ends_with_nul-append (a ∷ []) b = ends_with_nul-append [] b
ends_with_nul-append (a ∷ c ∷ r) b = ends_with_nul-append (c ∷ r) b

pub ends_with_nul-terminated :
    (rs : List Bytes)
    → (not (is_empty (terminated rs)) && not (ends_with_nul (terminated rs))) ≡ false
unfolding terminated
ends_with_nul-terminated [] = unfold is_empty in refl
ends_with_nul-terminated (r ∷ rs) =
    ground (arith, ends_with_nul-append r (terminated rs), ends_with_nul-terminated rs)

-- Whatever headers, changed, renamed, unmerged, untracked and ignored paths Git writes, in any
-- order and number, `parse_status_v2` reads them all back: each header and each path has its effect
-- on the snapshot, in the order written, and the counters are those of the result. The paths are not
-- empty, have no NUL and are UTF-8; the other columns have neither a space nor a NUL.
pub parse_status_v2-terminated :
    (items : List Item)
    → AllWritten items
    → parse_status_v2 (terminated (all_records items))
      ≡ ok (with_counts (apply_all items empty_snapshot))
unfolding parse_status_v2
parse_status_v2-terminated items w = rw (ends_with_nul-terminated (all_records items)) (
    rw (split-terminated (all_records items) (items-clean items w))
      (rw (items-parse items empty_snapshot w) refl))
