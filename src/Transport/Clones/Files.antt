-- ===== src/Transport/Clones/Files.antt =====
-- git/transport/clone.rs: the file system as the code reads and changes it.
use git_ramus.Base.Tests.{ℕ, Bool, true, false, Option, none, some, if◌then◌else◌}
use git_ramus.Base.Text.{Text}
use git_ramus.Base.Error.{unsafe_path, io, Result, ok, err, M}

-- What the file system tells of a path, without following a link. `is_link` stands for
-- `is_symlink_or_reparse`.
pub record Metadata : Type 0 where
  pub is_dir : Bool
  pub is_file : Bool
  pub is_link : Bool
  pub len : ℕ

pub data Found : Type 0 where
  missing failing : Found
  found : Metadata → Found

-- The file system, its state of any type `F`, with the operations of std::path on the texts of paths,
-- the crate dunce and the parser of UUIDs. `file_name` is that of a name in UTF-8, `join` of a path
-- and a name.
pub record Files (F : Type 0) : Type 0 where
  pub is_absolute : Text → Bool
  pub parent : Text → Option Text
  pub file_name : Text → Option Text
  pub join : Text → Text → Text
  pub same_path : Text → Text → Bool
  pub is_uuid : Text → Bool
  pub symlink_metadata : F → Text → Found
  pub canonicalize : F → Text → Result Text
  pub dunce_canonicalize : F → Text → Result Text
  pub read_to_string : F → Text → Result Text
  pub exists : F → Text → Bool
  pub create_new : Text → Text → M F (Unit {0})
  pub rename_noreplace : Text → Text → M F (Unit {0})
  pub remove_dir_all : Text → M F (Unit {0})
  pub remove_file : Text → M F (Unit {0})

-- A guard that answers with the error for an unsafe path.
abbrev pub refuse : {A : Type 0} → Bool → Result A → Result A
refuse test rest = if test then err unsafe_path else rest

-- `symlink_metadata(..)?`
abbrev pub metadata_of : Found → Result Metadata
metadata_of missing = err io
metadata_of failing = err io
metadata_of (found m) = ok m

-- `marker.parent() == Some(parent)`
abbrev pub is_parent : {F : Type 0} → Files F → Option Text → Text → Bool
is_parent fs none parent = false
is_parent fs (some p) parent = fs.same_path p parent

abbrev pub is_found : Found → Bool
is_found (found m) = true
is_found _ = false
