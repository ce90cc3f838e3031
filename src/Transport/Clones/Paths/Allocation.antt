-- ===== src/Transport/Clones/Paths/Allocation.antt =====
-- The paths that `ClonePaths::allocate` of git/transport/clone.rs makes are those that
-- `from_operation` reads back from the stored operation.
use git_ramus.Base.Tests.{
  ◌==◌, ◌≡◌, ltb, refl, Bool, true, false, not, ◌||◌, some, [], ◌∷◌, arith, sym, ◌∙◌, ap, not-false,
}
use git_ramus.Base.Text.{
  Text, codes, has_char, has_char-append, is_empty, is_control, text_eq, option_text_eq_iff,
}
use git_ramus.Base.Error.{ok, and_then-eq-ok, ok_injective, unless-eq-ok}
use mathlib.Core.Path.{subst}
use git_ramus.Base.Utf8.{byte_len}
use git_ramus.Base.Lists.{any}
use git_ramus.Transport.Clones.{CloneOperation}
use git_ramus.Transport.Clones.Files.{Files, Found, Metadata, found, metadata_of}
use git_ramus.Transport.Clones.FolderName.{ends_with, is_windows_device, validate_clone_folder_name}
use git_ramus.Transport.Clones.Paths.{
  staging_name, marker_name, ClonePaths, allocated, safe_canonical_parent, any_occupied, allocate,
  from_operation,
}

-- A name that begins with the prefix of a drive, as `C:x` does, which Windows does not join.
unfoldable pub has_drive : Text → Bool
has_drive (_ ∷ c ∷ _) = c == b':'
has_drive _ = false

-- A name of one path component.
unfoldable pub is_plain : Text → Bool
unfolding is_empty text_eq has_char has_drive codes
is_plain name = not (
    is_empty name
    || ((text_eq name (codes ".") || text_eq name (codes ".."))
        || (has_char b'/' name || (has_char 92 name || has_drive name))))

-- What std::path documents of a canonical path, which has no slash at its end but that of a root,
-- and a plain name, the crate uuid of a text that it parses, and the file system of the canonical
-- path of a directory: it is absolute, and a directory and no link.
pub record IsLawful {F : Type 0} (fs : Files F) (s : F) : Type 0 where
  pub parent-join :
      (path c name : Text)
      → fs.dunce_canonicalize s path ≡ ok c
      → is_plain name ≡ true
      → fs.parent (fs.join c name) ≡ some c
  pub file_name-join :
      (path c name : Text)
      → fs.dunce_canonicalize s path ≡ ok c
      → is_plain name ≡ true
      → fs.file_name (fs.join c name) ≡ some name
  pub is_absolute-join :
      (path c name : Text)
      → fs.dunce_canonicalize s path ≡ ok c
      → is_plain name ≡ true
      → fs.is_absolute (fs.join c name) ≡ true
  pub same_path-refl : (path : Text) → fs.same_path path path ≡ true
  pub uuid_plain : (id : Text) → fs.is_uuid id ≡ true → (has_char b'/' id || has_char 92 id) ≡ false
  pub canonical_directory :
      (path c : Text) (m : Metadata)
      → fs.symlink_metadata s path ≡ found m
      → m.is_dir ≡ true
      → fs.dunce_canonicalize s path ≡ ok c
      → (n : Metadata) × (fs.symlink_metadata s c ≡ found n)
        × (n.is_dir ≡ true)
        × (n.is_link ≡ false)
  pub canonical_again :
      (path c : Text)
      → fs.dunce_canonicalize s path ≡ ok c
      → (d : Text) × (fs.canonicalize s c ≡ ok d)

-- The row that is stored of a clone has the paths that were allocated.
pub record IsStoredAs (o : CloneOperation) (p : ClonePaths) : Type 0 where
  pub operation_id : o.operation_id ≡ p.operation_id
  pub staging : o.staging_path ≡ p.staging
  pub marker : o.owner_marker_path ≡ p.marker
  pub final_path : o.final_path ≡ p.final_path

staging_name-plain :
    (id : Text) → (has_char b'/' id || has_char 92 id) ≡ false → is_plain (staging_name id) ≡ true
unfolding is_plain has_drive staging_name
staging_name-plain id h = ground arith

marker_name-plain :
    (id : Text)
    → (has_char b'/' id || has_char 92 id) ≡ false
    → is_plain (marker_name (staging_name id)) ≡ true
unfolding is_plain has_drive staging_name marker_name
marker_name-plain id h =
    ground (arith, has_char-append b'/' id (codes ".owner"), has_char-append 92 id (codes ".owner"))

module _ {F : Type 0} (fs : Files F) where
  metadata-eq-ok : (f : Found) {m : Metadata} → metadata_of f ≡ ok m → f ≡ found m
  metadata-eq-ok (found m) h = ap found (ok_injective h)
  metadata-eq-ok _ h = cc

  folder_name-plain :
      (name : Text)
      → has_drive name ≡ false
      → validate_clone_folder_name fs name ≡ ok tt
      → is_plain name ≡ true
  unfolding validate_clone_folder_name is_plain
  folder_name-plain name driveless h =
      let (safe, last) =
        unless-eq-ok
          (is_empty name
            || (ltb 255 (byte_len name)
                || ((text_eq name (codes ".") || text_eq name (codes ".."))
                    || ((ends_with b'.' name || ends_with b' ' name)
                        || (fs.is_absolute name
                            || ((has_char b'/' name || has_char 92 name)
                                || (any is_control name || is_windows_device name)))))))
          _ _ h in
      ground (arith, safe)

  canonical-parent :
      (s : F) (path c : Text) (m : Metadata)
      → IsLawful fs s
      → fs.symlink_metadata s path ≡ found m
      → m.is_dir ≡ true
      → fs.dunce_canonicalize s path ≡ ok c
      → (d : Text) × (safe_canonical_parent fs s c ≡ ok d)
  unfolding safe_canonical_parent
  canonical-parent s path c m lawful seen directory resolved =
      let (n, there, dir, plain) = lawful.canonical_directory path c m seen directory resolved in
      let (d, again) = lawful.canonical_again path c resolved in
      (d, rw (there, dir, plain, again) refl)

  -- The paths of an operation that `from_operation` reads, spelled out.
  from_allocated :
      (s : F) (parent c folder id : Text) (o : CloneOperation)
      → IsLawful fs s
      → IsStoredAs o (allocated fs c folder id)
      → fs.is_uuid id ≡ true
      → fs.dunce_canonicalize s parent ≡ ok c
      → has_drive folder ≡ false
      → validate_clone_folder_name fs folder ≡ ok tt
      → ((d : Text) × (safe_canonical_parent fs s c ≡ ok d))
      → from_operation fs s o ≡ ok (allocated fs c folder id)
  unfolding from_operation
  from_allocated s parent c folder id o lawful stored uuid canonical driveless named (d, resolved) =
      let free = lawful.uuid_plain id uuid in
      let staging = staging_name-plain id free in
      let marker = marker_name-plain id free in
      let final = folder_name-plain folder driveless named in
      rw
        (
          stored.operation_id,
          stored.staging,
          stored.marker,
          stored.final_path,
          uuid,
          lawful.is_absolute-join parent c (staging_name id) canonical staging,
          lawful.is_absolute-join parent c (marker_name (staging_name id)) canonical marker,
          lawful.is_absolute-join parent c folder canonical final,
          lawful.parent-join parent c (staging_name id) canonical staging,
          lawful.parent-join parent c (marker_name (staging_name id)) canonical marker,
          lawful.parent-join parent c folder canonical final,
          lawful.same_path-refl c,
          lawful.file_name-join parent c (staging_name id) canonical staging,
          lawful.file_name-join parent c (marker_name (staging_name id)) canonical marker,
          lawful.file_name-join parent c folder canonical final,
          (option_text_eq_iff (some (staging_name id)) (some (staging_name id))).1 refl,
          (option_text_eq_iff (some (marker_name (staging_name id)))
                (some (marker_name (staging_name id)))).1
              refl,
          named,
          resolved,
        )
        refl

  -- When the paths of a clone were allocated and stored, and the name of the folder does not begin
  -- with the prefix of a drive (`C:`), `from_operation` reads the same paths back, as long as the file
  -- system is as it was and std::path and the crates do what they document.
  pub from_operation-allocate :
      (s : F) (parent folder id : Text) (o : CloneOperation) {p : ClonePaths}
      → IsLawful fs s
      → has_drive folder ≡ false
      → allocate fs s parent folder id ≡ ok p
      → IsStoredAs o p
      → from_operation fs s o ≡ ok p
  unfolding allocate
  from_operation-allocate s parent folder id o {p = p} lawful driveless h stored =
      let (uuid, h₁) = unless-eq-ok (not (fs.is_uuid id)) _ _ h in
      let (u, named, h₂) = and_then-eq-ok (validate_clone_folder_name fs folder) _ h₁ in
      let (absolute, h₃) = unless-eq-ok (not (fs.is_absolute parent)) _ _ h₂ in
      let (m, seen, h₄) = and_then-eq-ok (metadata_of (fs.symlink_metadata s parent)) _ h₃ in
      let (plain, h₅) = unless-eq-ok (not m.is_dir || m.is_link) _ _ h₄ in
      let (c, resolved, h₆) = and_then-eq-ok (fs.dunce_canonicalize s parent) _ h₅ in
      let q = allocated fs c folder id in
      let (occupied, looked, h₇) =
        and_then-eq-ok (any_occupied fs s (q.staging ∷ q.marker ∷ q.final_path ∷ [])) _ h₆ in
      let (clear, last) = unless-eq-ok occupied _ _ h₇ in
      let same : q ≡ p = ok_injective last in
      from_allocated s parent c folder id o lawful (subst (IsStoredAs o) (sym same) stored)
        (not-false uuid) resolved driveless named
        (canonical-parent s parent c m lawful (metadata-eq-ok (fs.symlink_metadata s parent) seen)
          (ground (arith, plain)) resolved)
      ∙ last
