-- ===== src/Scenarios/Disk.antt =====
-- A file system for the runs of git/transport/clone.rs: a table of directories and files, without links.
use git_ramus.Base.Tests.{
  ◌≡◌, refl, Bool, true, false, ◌||◌, Option, none, some, [], ◌∷◌, ◌++◌, ◌==◌, arith, ap, sym, ◌∙◌,
  is_some, if◌then◌else◌, if-eq, inl, inr,
}
use mathlib.Core.Path.{subst}
use git_ramus.Base.Lists.{length}
use git_ramus.Base.Text.{Text, codes, text_eq, text_eq_iff, text_eq_refl, has_char}
use git_ramus.Base.Table.{Table, lookup, insert, remove}
use git_ramus.Base.Error.{Result, ok, err, io, ok_injective}
use git_ramus.Transport.Clones.Files.{Files, Found, Metadata, found, missing}
use git_ramus.Transport.Clones.Paths.Allocation.{IsLawful, is_plain}

pub data Node : Type 0 where
  folder : Node
  file : Text → Node

abbrev pub Disk : Type 0
Disk = Table Node

abbrev node_metadata : Node → Metadata
node_metadata folder = record { is_dir = true; is_file = false; is_link = false; len = 0 }
node_metadata (file contents) = record {
  is_dir = false;
  is_file = true;
  is_link = false;
  len = length contents;
}

abbrev found_node : Option Node → Found
found_node none = missing
found_node (some n) = found (node_metadata n)

abbrev contents_of : Option Node → Result Text
contents_of (some (file contents)) = ok contents
contents_of _ = err io

-- The parts of a path before and after its last slash.
unfoldable pub split_path : Text → Option (Text × Text)
split_path [] = none
split_path (a ∷ s) = elim (split_path s) [
  | some (x, y) ↦ some (a ∷ x, y)
  | none ↦ if a == b'/' then some ([], s) else none
]

abbrev before_slash : Option (Text × Text) → Option Text
before_slash none = none
before_slash (some (x, y)) = some x

abbrev after_slash : Option (Text × Text) → Option Text
after_slash none = none
after_slash (some (x, y)) = some y

unfoldable pub begins_at_root : Text → Bool
begins_at_root [] = false
begins_at_root (a ∷ s) = a == b'/'

unfoldable pub disk : Files Disk
unfolding split_path begins_at_root text_eq lookup insert remove codes
disk = record {
  is_absolute = begins_at_root;
  parent = λ path. before_slash (split_path path);
  file_name = λ path. after_slash (split_path path);
  join = λ path name. path ++ b'/' ∷ name;
  same_path = text_eq;
  is_uuid = text_eq (codes "7e");
  symlink_metadata = λ s path. found_node (lookup path s);
  canonicalize = λ s path. ok path;
  dunce_canonicalize = λ s path. if begins_at_root path then ok path else err io;
  read_to_string = λ s path. contents_of (lookup path s);
  exists = λ s path. is_some (lookup path s);
  create_new = λ path contents s. (ok tt, insert path (file contents) s);
  rename_noreplace = λ a b s. (ok tt, s);
  remove_dir_all = λ path s. (ok tt, remove path s);
  remove_file = λ path s. (ok tt, remove path s);
}

split_path-none : (name : Text) → has_char b'/' name ≡ false → split_path name ≡ none
unfolding split_path has_char
split_path-none [] h = refl
split_path-none (a ∷ s) h = rw (split_path-none s (ground arith)) (ground arith)

split_path-join :
    (path name : Text)
    → has_char b'/' name ≡ false
    → split_path (path ++ b'/' ∷ name) ≡ some (path, name)
unfolding split_path
split_path-join [] name h = rw (split_path-none name h) refl
split_path-join (a ∷ path) name h = rw (split_path-join path name h) refl

no_slash : (name : Text) → is_plain name ≡ true → has_char b'/' name ≡ false
unfolding is_plain
no_slash name h = ground arith

begins-join :
    (path name : Text) → begins_at_root path ≡ true → begins_at_root (path ++ b'/' ∷ name) ≡ true
unfolding begins_at_root
begins-join [] name h = cc
begins-join (a ∷ path) name h = h

absolute_if :
    (path c : Text)
    → (if begins_at_root path then ok path else err io) ≡ ok c
    → (path ≡ c) × (begins_at_root path ≡ true)
absolute_if path c h = elim (if-eq (begins_at_root path) _ _ h) [
  | inl e ↦ (ok_injective e.1, e.0)
  | inr e ↦ let wrong = e.1 in cc
]

abbrev link_of : Found → Bool
link_of (found m) = m.is_link
link_of _ = false

node_of : (o : Option Node) (m : Metadata) → found_node o ≡ found m → m.is_link ≡ false
node_of none m h = cc
node_of (some folder) m h = ap link_of (sym h)
node_of (some (file contents)) m h = ap link_of (sym h)

uuid_plain :
    (id : Text) → text_eq (codes "7e") id ≡ true → (has_char b'/' id || has_char 92 id) ≡ false
uuid_plain id h =
    subst (λ x. (has_char b'/' x || has_char 92 x) ≡ false) ((text_eq_iff (codes "7e") id).0 h)
      (unfold has_char codes in refl)

pub disk-IsLawful : (s : Disk) → IsLawful disk s
unfolding disk
disk-IsLawful s = record {
  parent-join = λ path c name _ h. ap before_slash (split_path-join c name (no_slash name h));
  file_name-join = λ path c name _ h. ap after_slash (split_path-join c name (no_slash name h));
  is_absolute-join = λ path c name resolved _.
      let (same, absolute) = absolute_if path c resolved in
      begins-join c name (ap begins_at_root (sym same) ∙ absolute);
  same_path-refl = text_eq_refl;
  uuid_plain = uuid_plain;
  canonical_directory = λ path c m seen directory h.
      let (same, absolute) = absolute_if path c h in
      (
        m,
        ap (λ x. found_node (lookup x s)) (sym same) ∙ seen,
        directory,
        node_of (lookup path s) m seen,
      );
  canonical_again = λ path c h. (c, refl);
}
