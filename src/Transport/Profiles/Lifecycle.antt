-- ===== src/Transport/Profiles/Lifecycle.antt =====
-- git/transport/profile_service.rs: making, changing and deleting Transport profiles, and the
-- profile in effect for a repository. The summary that an operation gives the user interface is left
-- out: the profile itself stands for it.
pub mod Freezing
pub mod Deleting
pub mod Summaries
use git_ramus.Base.Tests.{
  ℕ, Bool, true, false, not, ◌&&◌, ◌||◌, Option, none, some, List, [], ◌∷◌, ◌++◌, ltb, ◌==◌, map,
  is_none, is_some, if◌then◌else◌,
}
use git_ramus.Base.Lists.{length, any}
use git_ramus.Base.Text.{
  Text, codes, text_eq, option_text_eq, is_empty, is_control, is_whitespace, trim_with,
}
use git_ramus.Base.Order.{set_extend}
use git_ramus.Base.Error.{
  AppError, invalid_input, not_found, user_action_required, profile_mismatch, Result, ok, err,
  and_then, ok_or, M, bind_case,
}
use git_ramus.Transport.Url.{TransportKind, ssh, https, kind_eq}
use git_ramus.Transport.Config.{Host, read_managed_snapshot}
use git_ramus.Transport.Config.Parse.{values_eq}
use git_ramus.Transport.Config.Plan.{TransportProfile, invalid_profile, config_plan}
use git_ramus.Transport.Profiles.Store.{
  Repository, RepositoryTransportBinding, TransportDriftStatus, clean, drifted, insert_profile,
  update_profile, list_bindings_for_profile, profile_deletion_impact, mark_binding_drifted,
  delete_unbound_profile, get_binding, get_repository,
}
use git_ramus.Transport.Profiles.Service.{
  World, Moment, config_drifted, on_db, on_git, lift, repository_path, required_profile,
  primary_remote, trusted_repository,
}
use git_ramus.Transport.Profiles.{
  DriftResolution, reject, keep_external, reapply, EffectiveTransport, system_git, through_profile,
  is_drifted, bind_repository, unbind_repository, bound_transport,
}

-- `trim()`, then not empty, not too long, and no control character
unfoldable pub validated_text : ℕ → Text → Result Text
unfolding trim_with is_whitespace is_empty any is_control
validated_text limit raw =
    let value = trim_with is_whitespace raw in
    if is_empty value || (ltb limit (length value) || any is_control value)
    then err invalid_profile
    else ok value

abbrev pub validated_display_name : Text → Result Text
validated_display_name = validated_text 128

abbrev pub validated_username : Text → Result Text
validated_username = validated_text 256

abbrev bound_fields : AppError
bound_fields =
    user_action_required
      (codes "cleanly unbind all repositories before changing managed transport fields")

-- The fields of a profile of each kind.
abbrev pub ssh_profile : Text → Text → Text → Bool → ℕ → ℕ → TransportProfile
ssh_profile id display_name key_path identities_only created_at updated_at = record {
  id = id;
  display_name = display_name;
  kind = ssh;
  ssh_key_path = some key_path;
  ssh_variant = some (codes "ssh");
  ssh_identities_only = some identities_only;
  https_username = none;
  https_use_http_path = none;
  created_at = created_at;
  updated_at = updated_at;
}

abbrev pub https_profile : Text → Text → Text → ℕ → ℕ → TransportProfile
https_profile id display_name username created_at updated_at = record {
  id = id;
  display_name = display_name;
  kind = https;
  ssh_key_path = none;
  ssh_variant = none;
  ssh_identities_only = none;
  https_username = some username;
  https_use_http_path = some true;
  created_at = created_at;
  updated_at = updated_at;
}

unfoldable pub flag_eq : Option Bool → Bool → Bool
flag_eq none b = false
flag_eq (some true) true = true
flag_eq (some false) false = true
flag_eq (some _) _ = false

unfoldable pub ssh_fields_changed : TransportProfile → Text → Bool → Bool
unfolding option_text_eq flag_eq
ssh_fields_changed profile key_path identities_only =
    not (option_text_eq profile.ssh_key_path (some key_path))
    || not (flag_eq profile.ssh_identities_only identities_only)

pub data ProfileDeletionResolution : Type 0 where
  replace_with : Text → Text → ProfileDeletionResolution
  unbind : Text → DriftResolution → ProfileDeletionResolution

unfoldable pub repository_id_of : ProfileDeletionResolution → Text
repository_id_of (replace_with repository_id replacement) = repository_id
repository_id_of (unbind repository_id resolution) = repository_id

-- The resolution that the map of resolutions holds for a repository.
unfoldable pub resolution_for :
    Text → List ProfileDeletionResolution → Option ProfileDeletionResolution
unfolding text_eq repository_id_of
resolution_for repository_id [] = none
resolution_for repository_id (r ∷ rest) =
    if text_eq (repository_id_of r) repository_id then some r else resolution_for repository_id rest

-- `supplied.len() != resolutions.len() || supplied != expected`, over sets of repositories
unfoldable pub covers : List ProfileDeletionResolution → List Text → Bool
unfolding set_extend repository_id_of values_eq
covers resolutions expected =
    let supplied = set_extend [] (map repository_id_of resolutions) in
    length supplied == length resolutions && values_eq supplied expected

-- The resolutions that give up when the settings drifted.
unfoldable pub rejects_drift : ProfileDeletionResolution → Bool
rejects_drift (replace_with repository_id replacement) = true
rejects_drift (unbind repository_id reject) = true
rejects_drift (unbind repository_id keep_external) = false
rejects_drift (unbind repository_id reapply) = false

module _ {G : Type 0} (host : Host G) where
  -- `to_str` and the error of `canonicalize` are in the parameter; the tests here are the code's.
  unfoldable pub canonical_key_path : Text → Result Text
  unfolding is_empty any is_control
  canonical_key_path path =
      if not (host.is_absolute path) || not (host.is_file path)
      then err invalid_profile
      else and_then (host.canonicalize path)
          λ value. if is_empty value || any is_control value then err invalid_profile else ok value

  unfoldable pub create_ssh_profile : Moment → Text → Text → Bool → M (World G) TransportProfile
  unfolding validated_text canonical_key_path insert_profile
  create_ssh_profile at display_name key_path identities_only w =
      bind_case (lift host (validated_display_name display_name) w) λ name w.
        bind_case (lift host (canonical_key_path key_path) w) λ key w.
          let profile = ssh_profile at.fresh_id name key identities_only at.now at.now in
          bind_case (on_db host (insert_profile profile) w) λ _ w. (ok profile, w)

  unfoldable pub create_https_profile : Moment → Text → Text → M (World G) TransportProfile
  unfolding validated_text insert_profile
  create_https_profile at display_name username w =
      bind_case (lift host (validated_display_name display_name) w) λ name w.
        bind_case (lift host (validated_username username) w) λ user w.
          let profile = https_profile at.fresh_id name user at.now at.now in
          bind_case (on_db host (insert_profile profile) w) λ _ w. (ok profile, w)

  -- `managed_fields_changed && !list_bindings_for_profile(..)?.is_empty()`
  unfoldable pub ensure_unbound : Bool → Text → M (World G) (Unit {0})
  unfolding list_bindings_for_profile is_empty
  ensure_unbound false profile_id w = (ok tt, w)
  ensure_unbound true profile_id w =
      bind_case (on_db host (list_bindings_for_profile profile_id) w)
        λ bound w. if is_empty bound then (ok tt, w) else (err bound_fields, w)

  abbrev pub chosen_key : TransportProfile → Option Text → Result Text
  chosen_key profile (some path) = canonical_key_path path
  chosen_key profile none = and_then (ok_or profile.ssh_key_path invalid_profile) canonical_key_path

  unfoldable pub update_ssh_profile :
      Moment → Text → Text → Option Text → Bool → M (World G) TransportProfile
  unfolding required_profile kind_eq canonical_key_path ssh_fields_changed ensure_unbound
      validated_text update_profile
  update_ssh_profile at profile_id display_name selected_key_path identities_only w =
      bind_case (required_profile host profile_id w) λ profile w.
        if not (kind_eq profile.kind ssh)
        then (err invalid_profile, w)
        else bind_case (lift host (chosen_key profile selected_key_path) w) λ key w.
          bind_case (ensure_unbound (ssh_fields_changed profile key identities_only) profile_id w)
            λ _ w. bind_case (lift host (validated_display_name display_name) w) λ name w.
              let changed =
                ssh_profile profile.id name key identities_only profile.created_at at.now in
              bind_case (on_db host (update_profile changed) w) λ _ w. (ok changed, w)

  unfoldable pub update_https_profile : Moment → Text → Text → Text → M (World G) TransportProfile
  unfolding required_profile kind_eq option_text_eq ensure_unbound validated_text update_profile
  update_https_profile at profile_id display_name username w =
      bind_case (required_profile host profile_id w) λ profile w.
        if not (kind_eq profile.kind https)
        then (err invalid_profile, w)
        else bind_case (lift host (validated_username username) w) λ user w.
          bind_case
            (ensure_unbound (not (option_text_eq profile.https_username (some user))) profile_id w)
            λ _ w. bind_case (lift host (validated_display_name display_name) w) λ name w.
              let changed = https_profile profile.id name user profile.created_at at.now in
              bind_case (on_db host (update_profile changed) w) λ _ w. (ok changed, w)

  -- A drift that is new is written down.
  abbrev note_drift : Moment → Text → Bool → TransportDriftStatus → M (World G) TransportDriftStatus
  note_drift at repository_id false status w = (ok clean, w)
  note_drift at repository_id true drifted w = (ok drifted, w)
  note_drift at repository_id true clean w =
      bind_case (on_db host (mark_binding_drifted repository_id at.now) w) λ _ w. (ok drifted, w)

  abbrev effective_profile :
      Moment → Repository → Option RepositoryTransportBinding → M (World G) EffectiveTransport
  effective_profile at repository none w = (ok (system_git repository.id), w)
  effective_profile at repository (some binding) w =
      bind_case (required_profile host binding.transport_profile_id w) λ profile w.
        bind_case (lift host (repository_path host repository) w) λ path w.
          bind_case (on_git host (read_managed_snapshot host path) w) λ live w.
            bind_case
              (note_drift at repository.id (is_drifted host live binding) binding.drift_status w)
              λ status w. (ok (through_profile repository.id profile status), w)

  unfoldable pub effective_for_repository_locked : Moment → Text → M (World G) EffectiveTransport
  unfolding get_repository get_binding required_profile repository_path read_managed_snapshot
      is_drifted mark_binding_drifted
  effective_for_repository_locked at repository_id w =
      bind_case (on_db host (get_repository repository_id) w) λ repository w.
        bind_case (on_db host (get_binding repository_id) w)
          λ existing w. effective_profile at repository existing w

  -- The checks of one resolution on the profiles and the remote.
  abbrev check_resolution :
      Text → TransportProfile → Repository → ProfileDeletionResolution → M (World G) (Unit {0})
  check_resolution profile_id profile repository (replace_with _ replacement_id) w =
      if text_eq replacement_id profile_id
      then (
        err (invalid_input (codes "replacement profile must differ from the deleted profile")),
        w,
      )
      else bind_case (required_profile host replacement_id w) λ replacement w.
        bind_case (primary_remote host repository w) λ remote w.
          if not (kind_eq replacement.kind profile.kind)
            || not (kind_eq replacement.kind remote.kind)
          then (err (profile_mismatch none), w)
          else bind_case
              (lift host (config_plan host.is_absolute host.is_file replacement remote) w)
              λ _ w. (ok tt, w)
  check_resolution profile_id profile repository (unbind _ reapply) w =
      (err (invalid_input (codes "profile deletion cannot reapply the profile being deleted")), w)
  check_resolution profile_id profile repository (unbind _ reject) w = (ok tt, w)
  check_resolution profile_id profile repository (unbind _ keep_external) w = (ok tt, w)

  abbrev check_drift :
      Moment
      → Repository
      → RepositoryTransportBinding
      → ProfileDeletionResolution
      → M (World G) (Unit {0})
  check_drift at repository binding resolution w =
      bind_case (lift host (repository_path host repository) w) λ path w.
        bind_case (on_git host (read_managed_snapshot host path) w) λ live w.
          if rejects_drift resolution && is_drifted host live binding
          then bind_case (on_db host (mark_binding_drifted repository.id at.now) w)
              (λ _ w. (err (config_drifted repository.id), w))
          else (ok tt, w)

  -- One round of the first loop of `delete_profile`
  unfoldable pub validate_resolution :
      Moment → Text → TransportProfile → Text → ProfileDeletionResolution → M (World G) (Unit {0})
  unfolding trusted_repository text_eq required_profile primary_remote kind_eq config_plan
      bound_transport repository_path read_managed_snapshot rejects_drift is_drifted
      mark_binding_drifted codes
  validate_resolution at profile_id profile repository_id resolution w =
      bind_case (trusted_repository host repository_id w) λ repository w.
        bind_case (check_resolution profile_id profile repository resolution w) λ _ w.
          bind_case (bound_transport host repository_id w) λ binding w.
            if not (text_eq binding.transport_profile_id profile_id)
            then (
              err (invalid_input (codes "profile deletion impact changed; refresh and retry")),
              w,
            )
            else check_drift at repository binding resolution w

  -- One round of the second loop
  unfoldable pub apply_resolution :
      Moment → Text → ProfileDeletionResolution → M (World G) (Unit {0})
  unfolding bind_repository unbind_repository
  apply_resolution at repository_id (replace_with _ replacement_id) w =
      bind_case (bind_repository host at repository_id replacement_id true w) λ _ w. (ok tt, w)
  apply_resolution at repository_id (unbind _ resolution) w =
      unbind_repository host at repository_id resolution w

  abbrev pub step_of :
      (Text → ProfileDeletionResolution → M (World G) (Unit {0}))
      → Text
      → Option ProfileDeletionResolution
      → M (World G) (Unit {0})
  step_of step repository_id none w = (ok tt, w)
  step_of step repository_id (some resolution) w = step repository_id resolution w

  -- A loop over the repositories; each has its resolution, since `covers` held.
  unfoldable pub each_resolution :
      (Text → ProfileDeletionResolution → M (World G) (Unit {0}))
      → List ProfileDeletionResolution
      → List Text
      → M (World G) (Unit {0})
  unfolding resolution_for
  each_resolution step resolutions [] w = (ok tt, w)
  each_resolution step resolutions (repository_id ∷ rest) w =
      bind_case (step_of step repository_id (resolution_for repository_id resolutions) w)
        λ _ w. each_resolution step resolutions rest w

  -- The fresh identifiers of the second loop: one for each repository.
  unfoldable pub delete_profile :
      Moment → (Text → Moment) → Text → List ProfileDeletionResolution → M (World G) (Unit {0})
  unfolding required_profile profile_deletion_impact covers each_resolution validate_resolution
      apply_resolution delete_unbound_profile codes
  delete_profile at moments profile_id resolutions w =
      bind_case (required_profile host profile_id w) λ profile w.
        bind_case (on_db host (profile_deletion_impact profile_id) w) λ impact w.
          if not (covers resolutions impact)
          then (
            err (
                invalid_input (
                  codes
                    "profile deletion resolutions must cover every affected repository exactly once")),
            w,
          )
          else bind_case
              (each_resolution (validate_resolution at profile_id profile) resolutions impact w)
              λ _ w.
                bind_case
                  (each_resolution (λ id. apply_resolution (moments id) id) resolutions impact w)
                  λ _ w. on_db host (delete_unbound_profile profile_id) w
