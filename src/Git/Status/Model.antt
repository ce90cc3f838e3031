-- ===== src/Git/Status/Model.antt =====
-- git/parser.rs: the values that `parse_status_v2` builds.
use git_ramus.Base.Tests.{
  ℕ, Bool, true, false, not, ◌&&◌, ◌||◌, Option, none, some, List, [], ◌==◌, if◌then◌else◌,
}
use git_ramus.Base.Text.{Text, codes, text_eq}
use git_ramus.Base.Utf8.{from_utf8_lossy_pair}

pub data ChangeKind : Type 0 where
  added modified deleted renamed copied type_changed untracked conflicted unknown : ChangeKind

unfoldable pub as_str : ChangeKind → Text
as_str added = codes "added"
as_str modified = codes "modified"
as_str deleted = codes "deleted"
as_str renamed = codes "renamed"
as_str copied = codes "copied"
as_str type_changed = codes "typeChanged"
as_str untracked = codes "untracked"
as_str conflicted = codes "conflicted"
as_str unknown = codes "unknown"

-- `From<&str>`
unfoldable pub from : Text → ChangeKind
from value =
    if text_eq value (codes "added")
    then added
    else if text_eq value (codes "modified")
    then modified
    else if text_eq value (codes "deleted")
    then deleted
    else if text_eq value (codes "renamed")
    then renamed
    else if text_eq value (codes "copied")
    then copied
    else if text_eq value (codes "typeChanged")
        || text_eq value (codes "type_changed")
        || text_eq value (codes "typechanged")
    then type_changed
    else if text_eq value (codes "untracked")
    then untracked
    else if text_eq value (codes "conflicted")
    then conflicted
    else unknown

unfoldable pub is_untracked : ChangeKind → Bool
is_untracked untracked = true
is_untracked _ = false

pub record ChangeEntry : Type 0 where
  pub path : Text
  pub original_path : Option Text
  pub kind : ChangeKind
  pub staged : Bool
  pub unstaged : Bool
  pub conflicted : Bool
  pub binary : Bool
  pub old : Option Text
  pub new : Option Text
  pub old_path : Option Text
  pub new_path : Option Text
  pub status : Text
  pub index_status : Option ℕ
  pub worktree_status : Option ℕ
  pub additions : Option ℕ
  pub deletions : Option ℕ

abbrev new_path_of : Option Text → Text → Option Text
new_path_of none path = none
new_path_of (some _) path = some path

-- `ChangeEntry::status_entry`; the two status bytes are `x` and `y`.
unfoldable pub status_entry : Text → Option Text → ChangeKind → ℕ → ℕ → Bool → ChangeEntry
status_entry path original_path kind x y is_conflicted = record {
  path = path;
  original_path = original_path;
  kind = kind;
  staged = not (x == b'.') && not (x == b'?');
  unstaged = not (y == b'.') && not (y == b'?');
  conflicted = is_conflicted;
  binary = false;
  old = original_path;
  new = new_path_of original_path path;
  old_path = original_path;
  new_path = new_path_of original_path path;
  status = from_utf8_lossy_pair x y;
  index_status = some x;
  worktree_status = some y;
  additions = none;
  deletions = none;
}

-- `ChangeEntry::untracked`
unfoldable pub untracked_entry : Text → ChangeEntry
untracked_entry path = record {
  path = path;
  original_path = none;
  kind = untracked;
  staged = false;
  unstaged = true;
  conflicted = false;
  binary = false;
  old = none;
  new = none;
  old_path = none;
  new_path = none;
  status = codes "??";
  index_status = some b'?';
  worktree_status = some b'?';
  additions = none;
  deletions = none;
}

pub record RepositorySnapshot : Type 0 where
  pub branch : Option Text
  pub upstream : Option Text
  pub head_oid : Option Text
  pub head_sha : Option Text
  pub ahead : ℕ
  pub behind : ℕ
  pub changes : List ChangeEntry
  pub dirty : Bool
  pub is_dirty : Bool
  pub staged_count : ℕ
  pub unstaged_count : ℕ
  pub untracked_count : ℕ
  pub conflicted_count : ℕ
  pub total_count : ℕ
  pub detached : Bool

-- `RepositorySnapshot::default()`
abbrev pub empty_snapshot : RepositorySnapshot
empty_snapshot = record {
  branch = none;
  upstream = none;
  head_oid = none;
  head_sha = none;
  ahead = 0;
  behind = 0;
  changes = [];
  dirty = false;
  is_dirty = false;
  staged_count = 0;
  unstaged_count = 0;
  untracked_count = 0;
  conflicted_count = 0;
  total_count = 0;
  detached = false;
}
