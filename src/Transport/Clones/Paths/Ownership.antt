-- ===== src/Transport/Clones/Paths/Ownership.antt =====
-- What the cleanup of a staging directory in git/transport/clone.rs may remove.
use git_ramus.Base.Tests.{
  ◌≤◌, ◌≡◌, refl, true, false, not, ◌||◌, some, arith, ◌∙◌, ap, inl, inr, Bool-cases, ltb,
  not-false,
}
use mathlib.Core.Path.{subst}
use git_ramus.Base.Text.{Text, text_eq, text_eq_iff, option_text_eq, option_text_eq_iff}
use git_ramus.Base.Error.{
  Result, ok, err, and_then-eq-ok, ok_injective, unless-eq-ok, ok_or, ok_or-eq-ok, unsafe_path,
  bind_case,
}
use git_ramus.Transport.Clones.Files.{
  Files, Found, Metadata, found, metadata_of, is_found, is_parent,
}
use git_ramus.Transport.Clones.Paths.{
  max_marker_bytes, staging_name, marker_name, marker_contents, safe_canonical_parent,
  validate_marker, validate_owned_staging, checked, cleanup_staging,
}

module _ {F : Type 0} (fs : Files F) (parent staging marker operation_id : Text) where
  -- The marker is a small plain file that names the operation and the staging directory, and both have
  -- the names that belong to the operation.
  pub record IsMarked (s : F) : Type 0 where
    pub metadata : Metadata
    pub found_marker : fs.symlink_metadata s marker ≡ found metadata
    pub is_plain : metadata.is_file ≡ true
    pub is_no_link : metadata.is_link ≡ false
    pub is_small : metadata.len ≤ max_marker_bytes
    pub staging_named : fs.file_name staging ≡ some (staging_name operation_id)
    pub marker_named : fs.file_name marker ≡ some (marker_name (staging_name operation_id))
    pub contents :
        fs.read_to_string s marker ≡ ok (marker_contents operation_id (staging_name operation_id))

  -- The staging directory is a directory and no link, and stands directly in the parent, with every
  -- link on the way resolved.
  pub record IsOwned (s : F) : Type 0 where
    pub metadata : Metadata
    pub found_staging : fs.symlink_metadata s staging ≡ found metadata
    pub is_directory : metadata.is_dir ≡ true
    pub is_no_link : metadata.is_link ≡ false
    pub canonical_parent : Text
    pub canonical_staging : Text
    pub parent_resolved : fs.canonicalize s parent ≡ ok canonical_parent
    pub staging_resolved : fs.canonicalize s staging ≡ ok canonical_staging
    pub inside : is_parent fs (fs.parent canonical_staging) canonical_parent ≡ true

  -- What a cleanup makes of the file system.
  pub data IsCleaned (s : F) : F → Type 0 where
    untouched : IsCleaned s s
    marker_removed :
        IsMarked s → fs.exists s staging ≡ false → IsCleaned s (fs.remove_file marker s).1
    staging_removed : IsMarked s → IsOwned s → IsCleaned s (fs.remove_dir_all staging s).1
    both_removed :
        IsMarked s
        → IsOwned s
        → (between : F) → fs.remove_dir_all staging s ≡ (ok tt, between)
        → IsCleaned s (fs.remove_file marker between).1

  metadata-eq-ok : (f : Found) {m : Metadata} → metadata_of f ≡ ok m → f ≡ found m
  metadata-eq-ok (found m) h = ap found (ok_injective h)
  metadata-eq-ok _ h = cc

  validate_marker-IsMarked :
      (s : F) → validate_marker fs s parent staging marker operation_id ≡ ok tt → IsMarked s
  unfolding validate_marker
  validate_marker-IsMarked s h =
      let (uuid, h₁) = unless-eq-ok (not (fs.is_uuid operation_id)) _ _ h in
      let (canonical, resolved, h₂) = and_then-eq-ok (safe_canonical_parent fs s parent) _ h₁ in
      let (above, has_parent, h₃) = and_then-eq-ok (ok_or (fs.parent staging) unsafe_path) _ h₂ in
      let (beside, h₄) = unless-eq-ok (not (is_parent fs (fs.parent marker) above)) _ _ h₃ in
      let (other, resolved₂, h₅) = and_then-eq-ok (safe_canonical_parent fs s above) _ h₄ in
      let (same, h₆) = unless-eq-ok (not (fs.same_path other canonical)) _ _ h₅ in
      let (basename, named, h₇) = and_then-eq-ok (ok_or (fs.file_name staging) unsafe_path) _ h₆ in
      let (names, h₈) =
        unless-eq-ok
          (not (text_eq basename (staging_name operation_id))
            || not (option_text_eq (fs.file_name marker) (some (marker_name basename))))
          _ _ h₇ in
      let (m, seen, h₉) = and_then-eq-ok (metadata_of (fs.symlink_metadata s marker)) _ h₈ in
      let (plain, h₁₀) =
        unless-eq-ok (not m.is_file || (m.is_link || ltb max_marker_bytes m.len)) _ _ h₉ in
      let (contents, held, h₁₁) = and_then-eq-ok (fs.read_to_string s marker) _ h₁₀ in
      let (exact, last) =
        unless-eq-ok (not (text_eq contents (marker_contents operation_id basename))) _ _ h₁₁ in
      let is_name : basename ≡ staging_name operation_id =
        ground (arith, text_eq_iff basename (staging_name operation_id)) in
      let marked : fs.file_name marker ≡ some (marker_name basename) =
        ground (arith, option_text_eq_iff (fs.file_name marker) (some (marker_name basename))) in
      record {
        metadata = m;
        found_marker = metadata-eq-ok (fs.symlink_metadata s marker) seen;
        is_plain = ground (arith, plain);
        is_no_link = ground (arith, plain);
        is_small = ground (arith, plain);
        staging_named = ok_or-eq-ok (fs.file_name staging) unsafe_path named ∙ ap some is_name;
        marker_named = marked ∙ ap (λ n. some (marker_name n)) is_name;
        contents =
            held
            ∙ ap ok (
                (text_eq_iff contents (marker_contents operation_id basename)).0 (not-false exact)
                ∙ ap (marker_contents operation_id) is_name);
      }

  canonical_parent-resolved :
      (s : F) {c : Text}
      → safe_canonical_parent fs s parent ≡ ok c
      → fs.canonicalize s parent ≡ ok c
  unfolding safe_canonical_parent
  canonical_parent-resolved s h =
      let (m, seen, h₁) = and_then-eq-ok (metadata_of (fs.symlink_metadata s parent)) _ h in
      let (plain, last) = unless-eq-ok (not m.is_dir || m.is_link) _ _ h₁ in last

  validate_owned_staging-IsOwned :
      (s : F) → validate_owned_staging fs s parent staging marker operation_id ≡ ok tt → IsOwned s
  unfolding validate_owned_staging
  validate_owned_staging-IsOwned s h =
      let (canonical, resolved, h₁) = and_then-eq-ok (safe_canonical_parent fs s parent) _ h in
      let (u, marked, h₂) =
        and_then-eq-ok (validate_marker fs s parent staging marker operation_id) _ h₁ in
      let (basename, named, h₃) = and_then-eq-ok (ok_or (fs.file_name staging) unsafe_path) _ h₂ in
      let (is_name, h₄) =
        unless-eq-ok (not (text_eq basename (staging_name operation_id))) _ _ h₃ in
      let (m, seen, h₅) = and_then-eq-ok (metadata_of (fs.symlink_metadata s staging)) _ h₄ in
      let (plain, h₆) = unless-eq-ok (not m.is_dir || m.is_link) _ _ h₅ in
      let (place, resolved₂, h₇) = and_then-eq-ok (fs.canonicalize s staging) _ h₆ in
      let (inside, last) =
        unless-eq-ok
          (not (is_parent fs (fs.parent place) canonical)
            || not (option_text_eq (fs.file_name place) (fs.file_name staging)))
          _ _ h₇ in
      record {
        metadata = m;
        found_staging = metadata-eq-ok (fs.symlink_metadata s staging) seen;
        is_directory = ground (arith, plain);
        is_no_link = ground (arith, plain);
        canonical_parent = canonical;
        canonical_staging = place;
        parent_resolved = canonical_parent-resolved s resolved;
        staging_resolved = resolved₂;
        inside = ground (arith, inside);
      }

  -- A check that fails changes nothing.
  checked-IsCleaned :
      {A : Type 0} (s : F) (check : Result A) (next : A → F → Result (Unit {0}) × F)
      → ((a : A) → check ≡ ok a → IsCleaned s (next a s).1)
      → IsCleaned s (checked fs check next s).1
  checked-IsCleaned s (ok a) next step = step a refl
  checked-IsCleaned s (err e) next step = untouched

  removal-IsCleaned :
      (s : F) (removal : Result (Unit {0}) × F)
      → fs.remove_dir_all staging s ≡ removal
      → IsMarked s
      → IsOwned s
      → IsCleaned s (bind_case removal λ _ s. fs.remove_file marker s).1
  removal-IsCleaned s (ok tt, between) h marked owned = both_removed marked owned between h
  removal-IsCleaned s (err e, between) h marked owned =
      subst (λ r. IsCleaned s r.1) h (staging_removed marked owned)

  -- Whatever the file system answers, a cleanup removes nothing but the staging directory and the
  -- marker: the marker only if it is a small plain file with the name and the contents that belong to
  -- the operation, and the staging directory only if beside that it has the name of the operation, is
  -- no link, and its resolved path stands directly in the resolved parent.
  pub cleanup_staging-IsCleaned :
      (s : F) → IsCleaned s (cleanup_staging fs parent staging marker operation_id s).1
  unfolding cleanup_staging
  cleanup_staging-IsCleaned s = checked-IsCleaned s (safe_canonical_parent fs s parent) _ λ _ _.
      checked-IsCleaned s (validate_marker fs s parent staging marker operation_id) _ λ _ valid.
        let marked = validate_marker-IsMarked s valid in
        elim (Bool-cases (fs.exists s staging)) [
          | inl e ↦ rw e (
              checked-IsCleaned s (validate_owned_staging fs s parent staging marker operation_id) _
                λ _ own.
                  removal-IsCleaned s (fs.remove_dir_all staging s) refl marked
                    (validate_owned_staging-IsOwned s own))
          | inr e ↦ rw e (elim (Bool-cases (is_found (fs.symlink_metadata s staging))) [
            | inl f ↦ rw f untouched
            | inr f ↦ rw f (marker_removed marked e)
          ])
        ]
