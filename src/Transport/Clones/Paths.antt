-- ===== src/Transport/Clones/Paths.antt =====
-- git/transport/clone.rs, `ClonePaths`: the directory that a clone is staged in, the marker beside it
-- that says which operation owns it, and the final directory.
pub mod Ownership
pub mod Allocation
use git_ramus.Base.Tests.{
  ℕ, ◌-◌, Bool, true, false, not, ◌&&◌, ◌||◌, Option, none, some, List, [], ◌∷◌, ◌++◌, ltb, leb,
  map, ◌==◌, if◌then◌else◌,
}
use git_ramus.Base.Lists.{any}
use git_ramus.Base.Text.{
  Text, codes, text_eq, option_text_eq, is_empty, is_control, has_char, split, strip_prefix,
}
use git_ramus.Base.Utf8.{byte_len}
use git_ramus.Base.Error.{
  AppError, invalid_input, unsafe_path, destination_exists, io, Result, ok, err, and_then, ok_or, M,
  bind_case,
}
use git_ramus.Transport.Clones.{CloneOperation}
use git_ramus.Transport.Clones.Files.{
  Files, Found, Metadata, failing, found, is_found, is_parent, metadata_of, missing, refuse,
}
use git_ramus.Transport.Clones.FolderName.{
  ends_with, is_windows_device, to_ascii_upper, validate_clone_folder_name,
}

pub record ClonePaths : Type 0 where
  pub parent : Text
  pub staging : Text
  pub marker : Text
  pub final_path : Text
  pub operation_id : Text
  pub staging_basename : Text

unfoldable pub staging_name : Text → Text
unfolding codes
staging_name operation_id = codes ".git-ramus-clone-" ++ operation_id

unfoldable pub marker_name : Text → Text
unfolding codes
marker_name staging_basename = staging_basename ++ codes ".owner"

abbrev pub max_marker_bytes : ℕ
max_marker_bytes = 1024

unfoldable pub marker_contents : Text → Text → Text
marker_contents operation_id staging_basename = operation_id ++ 10 ∷ (staging_basename ++ 10 ∷ [])

-- What `safe_existing_directory` tells of a path.
pub data ExistingDirectory : Type 0 where
  gone safe unsafe : ExistingDirectory

abbrev directory_of : Found → ExistingDirectory
directory_of missing = gone
directory_of failing = unsafe
directory_of (found m) = if m.is_dir && not m.is_link then safe else unsafe

abbrev occupied_of : Found → Result Bool
occupied_of missing = ok false
occupied_of failing = err io
occupied_of (found m) = ok true

module _ {F : Type 0} (fs : Files F) where
  unfoldable pub safe_existing_directory : F → Text → ExistingDirectory
  safe_existing_directory s path = directory_of (fs.symlink_metadata s path)

  unfoldable pub path_is_occupied : F → Text → Result Bool
  path_is_occupied s path = occupied_of (fs.symlink_metadata s path)

  unfoldable pub safe_canonical_parent : F → Text → Result Text
  safe_canonical_parent s parent =
      and_then (metadata_of (fs.symlink_metadata s parent))
        λ m. refuse (not m.is_dir || m.is_link) (fs.canonicalize s parent)

  -- The paths of a stored operation, if they are those that `allocate` makes.
  unfoldable pub from_operation : F → CloneOperation → Result ClonePaths
  unfolding staging_name marker_name option_text_eq validate_clone_folder_name safe_canonical_parent
  from_operation s operation = refuse (not (fs.is_uuid operation.operation_id)) (
      refuse
        (not (fs.is_absolute operation.staging_path)
          || (not (fs.is_absolute operation.owner_marker_path)
              || not (fs.is_absolute operation.final_path)))
        (and_then (ok_or (fs.parent operation.staging_path) unsafe_path) λ parent.
          refuse
            (not (is_parent fs (fs.parent operation.owner_marker_path) parent)
              || not (is_parent fs (fs.parent operation.final_path) parent))
            (let basename = staging_name operation.operation_id in
              refuse
                (not (option_text_eq (fs.file_name operation.staging_path) (some basename))
                  || not (
                      option_text_eq (fs.file_name operation.owner_marker_path)
                        (some (marker_name basename))))
                (and_then (ok_or (fs.file_name operation.final_path) unsafe_path) λ final_name.
                  and_then (validate_clone_folder_name fs final_name) λ _.
                    and_then (safe_canonical_parent s parent) λ _. ok (record {
                      parent = parent;
                      staging = operation.staging_path;
                      marker = operation.owner_marker_path;
                      final_path = operation.final_path;
                      operation_id = operation.operation_id;
                      staging_basename = basename;
                    })))))

  -- The marker is a small plain file beside the staging directory, and names it and the operation.
  unfoldable pub validate_marker : F → Text → Text → Text → Text → Result (Unit {0})
  unfolding safe_canonical_parent staging_name marker_name marker_contents text_eq option_text_eq
  validate_marker s parent staging marker operation_id = refuse (not (fs.is_uuid operation_id)) (
      and_then (safe_canonical_parent s parent) λ canonical_parent.
        and_then (ok_or (fs.parent staging) unsafe_path) λ staging_parent.
          refuse (not (is_parent fs (fs.parent marker) staging_parent)) (
            and_then (safe_canonical_parent s staging_parent) λ canonical_staging_parent.
              refuse (not (fs.same_path canonical_staging_parent canonical_parent)) (
                and_then (ok_or (fs.file_name staging) unsafe_path) λ basename.
                  refuse
                    (not (text_eq basename (staging_name operation_id))
                      || not (option_text_eq (fs.file_name marker) (some (marker_name basename))))
                    (and_then (metadata_of (fs.symlink_metadata s marker)) λ m.
                      refuse (not m.is_file || (m.is_link || ltb max_marker_bytes m.len)) (
                        and_then (fs.read_to_string s marker) λ contents.
                          refuse (not (text_eq contents (marker_contents operation_id basename)))
                            (ok tt))))))

  -- The staging directory is a real directory, directly below the canonical parent.
  unfoldable pub validate_owned_staging : F → Text → Text → Text → Text → Result (Unit {0})
  unfolding safe_canonical_parent validate_marker staging_name text_eq option_text_eq
  validate_owned_staging s parent staging marker operation_id =
      and_then (safe_canonical_parent s parent) λ canonical_parent.
        and_then (validate_marker s parent staging marker operation_id) λ _.
          and_then (ok_or (fs.file_name staging) unsafe_path) λ basename.
            refuse (not (text_eq basename (staging_name operation_id))) (
              and_then (metadata_of (fs.symlink_metadata s staging)) λ m.
                refuse (not m.is_dir || m.is_link) (
                  and_then (fs.canonicalize s staging) λ canonical_staging.
                    refuse
                      (not (is_parent fs (fs.parent canonical_staging) canonical_parent)
                        || not (
                            option_text_eq (fs.file_name canonical_staging) (fs.file_name staging)))
                      (ok tt)))

  -- A check of the file system as it is, and what follows it.
  abbrev pub checked : {A B : Type 0} → Result A → (A → M F B) → M F B
  checked (ok a) next s = next a s
  checked (err e) next s = (err e, s)

  unfoldable pub cleanup_staging : Text → Text → Text → Text → M F (Unit {0})
  unfolding safe_canonical_parent validate_marker validate_owned_staging
  cleanup_staging parent staging marker operation_id s =
      checked (safe_canonical_parent s parent)
        (λ _. checked (validate_marker s parent staging marker operation_id) λ _ s.
          if fs.exists s staging
          then checked (validate_owned_staging s parent staging marker operation_id)
              (λ _ s. bind_case (fs.remove_dir_all staging s) λ _ s. fs.remove_file marker s) s
          else if is_found (fs.symlink_metadata s staging)
          then (err unsafe_path, s)
          else fs.remove_file marker s)
        s

  unfoldable pub remove_marker : ClonePaths → M F (Unit {0})
  unfolding validate_marker
  remove_marker p s =
      checked (validate_marker s p.parent p.staging p.marker p.operation_id)
        (λ _ s. fs.remove_file p.marker s) s

  abbrev pub allocated : Text → Text → Text → ClonePaths
  allocated parent folder_name operation_id = record {
    parent = parent;
    staging = fs.join parent (staging_name operation_id);
    marker = fs.join parent (marker_name (staging_name operation_id));
    final_path = fs.join parent folder_name;
    operation_id = operation_id;
    staging_basename = staging_name operation_id;
  }

  -- `path_is_occupied(a)? || path_is_occupied(b)? ..`, which reads no further than a `true`
  unfoldable pub any_occupied : F → List Text → Result Bool
  unfolding path_is_occupied
  any_occupied s [] = ok false
  any_occupied s (path ∷ rest) =
      and_then (path_is_occupied s path)
        λ occupied. if occupied then ok true else any_occupied s rest

  -- An answer, unless one of the paths is there.
  abbrev pub unless_occupied : {A : Type 0} → F → List Text → A → Result A
  unless_occupied s paths a =
      and_then (any_occupied s paths) λ occupied. if occupied then err destination_exists else ok a

  unfoldable pub allocate : F → Text → Text → Text → Result ClonePaths
  unfolding validate_clone_folder_name any_occupied staging_name marker_name codes
  allocate s parent folder_name operation_id =
      if not (fs.is_uuid operation_id)
      then err (invalid_input (codes "Clone operation id must be a UUID"))
      else and_then (validate_clone_folder_name fs folder_name) λ _.
        refuse (not (fs.is_absolute parent)) (
          and_then (metadata_of (fs.symlink_metadata s parent)) λ m.
            refuse (not m.is_dir || m.is_link) (
              and_then (fs.dunce_canonicalize s parent) λ canonical.
                let p = allocated canonical folder_name operation_id in
                unless_occupied s (p.staging ∷ p.marker ∷ p.final_path ∷ []) p))

  unfoldable pub write_marker : ClonePaths → M F (Unit {0})
  unfolding any_occupied marker_contents
  write_marker p s =
      checked (unless_occupied s (p.staging ∷ p.marker ∷ []) tt)
        (λ _ s. fs.create_new p.marker (marker_contents p.operation_id p.staging_basename) s) s

  -- The error of a rename over a destination that has appeared since
  abbrev renamed : Text → Result (Unit {0}) × F → Result (Unit {0}) × F
  renamed final_path (ok _, s) = (ok tt, s)
  renamed final_path (err e, s) =
      (err (if is_found (fs.symlink_metadata s final_path) then destination_exists else io), s)

  unfoldable pub rename_staging_to_final : ClonePaths → M F (Unit {0})
  unfolding validate_owned_staging any_occupied
  rename_staging_to_final p s =
      checked (validate_owned_staging s p.parent p.staging p.marker p.operation_id)
        (λ _.
          checked (unless_occupied s (p.final_path ∷ []) tt)
            λ _ s. renamed p.final_path (fs.rename_noreplace p.staging p.final_path s))
        s

  unfoldable pub cleanup_owned_staging : ClonePaths → M F (Unit {0})
  unfolding cleanup_staging
  cleanup_owned_staging p = cleanup_staging p.parent p.staging p.marker p.operation_id
