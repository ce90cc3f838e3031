-- ===== src/Transport/Profiles.antt =====
-- git/transport/profile_service.rs: binding a repository to a Transport profile, undoing it, and the
-- profile that takes effect.
pub mod Store
pub mod Service
pub mod Lifecycle
pub mod Compensation
pub mod Steps
pub mod Restoring
pub mod Sequences
pub mod Repairs
pub mod Refusals
pub mod Binding
use git_ramus.Base.Tests.{
  ℕ, Bool, true, false, not, ◌&&◌, ◌||◌, Option, none, some, List, [], ◌∷◌, ◌++◌, is_none, is_some,
  if◌then◌else◌,
}
use git_ramus.Base.Text.{Text, codes, text_eq, is_empty}
use git_ramus.Base.Error.{
  AppError, not_found, profile_mismatch, transport_partial, user_action_required, Result, ok, err,
  M, bind_case, return,
}
use git_ramus.Transport.Url.{kind_eq}
use git_ramus.Transport.Config.{Host, read_managed_snapshot, write_managed_snapshot}
use git_ramus.Transport.Config.Parse.{Snapshot, snapshot_eq, ensure_restorable_snapshot}
use git_ramus.Transport.Config.Plan.{TransportProfile}
use git_ramus.Transport.Profiles.Store.{
  TransportDb, TransportDriftStatus, clean, drifted, Repository, RepositoryTransportBinding,
  with_drift, get_binding, upsert_binding, delete_binding, mark_binding_drifted,
  repository_has_unresolved_repair,
}
use git_ramus.Transport.Profiles.Service.{
  World, Moment, config_drifted, on_db, on_git, lift, sha256, repository_path, required_profile,
  primary_remote, desired_snapshot, trusted_repository, compensate_or_partial, or_compensate,
  write_with_compensation,
}

pub data DriftResolution : Type 0 where
  reject keep_external reapply : DriftResolution

-- What a bind keeps, writes over and dates.
pub record Prepared : Type 0 where
  pub before_config : Snapshot
  pub current_config : Snapshot
  pub bound_at : ℕ

-- `EffectiveTransport`: plain Git, or a profile and whether its settings drifted.
pub data EffectiveTransport : Type 0 where
  system_git : Text → EffectiveTransport
  through_profile : Text → TransportProfile → TransportDriftStatus → EffectiveTransport

abbrev pub required_binding :
    Text → Option RepositoryTransportBinding → Result RepositoryTransportBinding
required_binding id none = err (not_found (codes "repository transport binding " ++ id))
required_binding id (some b) = ok b

module _ {G : Type 0} (host : Host G) where
  unfoldable pub is_drifted : Snapshot → RepositoryTransportBinding → Bool
  unfolding sha256 text_eq
  is_drifted live binding = not (text_eq (sha256 host live) binding.applied_config_hash)

  -- The branch of a bind over an existing binding
  unfoldable pub prepare_rebind :
      Moment → Repository → Text → RepositoryTransportBinding → M (World G) Prepared
  unfolding read_managed_snapshot is_drifted mark_binding_drifted ensure_restorable_snapshot
  prepare_rebind at repository path existing w =
      bind_case (on_git host (read_managed_snapshot host path) w) λ current w.
        if is_drifted current existing
        then bind_case (on_db host (mark_binding_drifted repository.id at.now) w)
            (λ _ w. (err (config_drifted repository.id), w))
        else bind_case (lift host (ensure_restorable_snapshot host.parse_url current) w) λ _ w. (
          ok (record {
            before_config = existing.before_config;
            current_config = current;
            bound_at = existing.bound_at;
          }),
          w,
        )

  -- The branch of a bind of a repository without a binding
  unfoldable pub prepare_bind : Moment → Text → Snapshot → Bool → M (World G) Prepared
  unfolding read_managed_snapshot ensure_restorable_snapshot is_empty snapshot_eq codes
  prepare_bind at path desired replace_existing w =
      bind_case (on_git host (read_managed_snapshot host path) w) λ current w.
        bind_case (lift host (ensure_restorable_snapshot host.parse_url current) w) λ _ w.
          if not (is_empty current) && (not (snapshot_eq current desired) && not replace_existing)
          then (
            err (
                user_action_required
                  (codes "confirm replacement of existing repository transport configuration")),
            w,
          )
          else (
            ok (record { before_config = current; current_config = current; bound_at = at.now }),
            w,
          )

  abbrev pub prepare :
      Moment
      → Repository
      → Text
      → Snapshot
      → Bool
      → Option RepositoryTransportBinding
      → M (World G) Prepared
  prepare at repository path desired replace_existing none =
      prepare_bind at path desired replace_existing
  prepare at repository path desired replace_existing (some existing) =
      prepare_rebind at repository path existing

  abbrev pub new_binding :
      Moment → Repository → TransportProfile → Snapshot → Prepared → RepositoryTransportBinding
  new_binding at repository profile applied prepared = record {
    repository_id = repository.id;
    transport_profile_id = profile.id;
    before_config = prepared.before_config;
    applied_config = applied;
    applied_config_hash = sha256 host applied;
    drift_status = clean;
    bound_at = prepared.bound_at;
    updated_at = at.now;
  }

  -- From the write on: the settings, then the row.
  unfoldable pub apply_binding :
      Moment
      → Repository
      → TransportProfile
      → Snapshot
      → Prepared
      → M (World G) RepositoryTransportBinding
  unfolding write_with_compensation upsert_binding compensate_or_partial codes sha256
  apply_binding at repository profile applied prepared w =
      bind_case
        (write_with_compensation host at repository prepared.current_config applied
          (codes "applyConfig") w)
        λ _ w.
          or_compensate host at repository applied prepared.current_config (codes "saveBinding")
            (new_binding at repository profile applied prepared)
            (on_db host (upsert_binding (new_binding at repository profile applied prepared)) w)

  -- From the settings that the profile wants on.
  unfoldable pub bind_desired :
      Moment
      → Repository
      → Bool
      → TransportProfile
      → Snapshot
      → M (World G) RepositoryTransportBinding
  unfolding repository_path get_binding prepare_bind prepare_rebind ensure_restorable_snapshot
      apply_binding
  bind_desired at repository replace_existing profile desired w =
      bind_case (lift host (repository_path host repository) w) λ path w.
        bind_case (on_db host (get_binding repository.id) w) λ existing w.
          bind_case (prepare at repository path desired replace_existing existing w) λ prepared w.
            bind_case (lift host (ensure_restorable_snapshot host.parse_url desired) w)
              λ _ w. apply_binding at repository profile desired prepared w

  unfoldable pub bind_repository_locked :
      Moment → Repository → Text → Bool → M (World G) RepositoryTransportBinding
  unfolding repository_has_unresolved_repair required_profile primary_remote kind_eq
      desired_snapshot bind_desired codes
  bind_repository_locked at repository profile_id replace_existing w =
      bind_case (on_db host (repository_has_unresolved_repair repository.id) w) λ unresolved w.
        if unresolved
        then (err (transport_partial repository.id (codes "repairConfig")), w)
        else bind_case (required_profile host profile_id w) λ profile w.
          bind_case (primary_remote host repository w) λ remote w.
            if not (kind_eq profile.kind remote.kind)
            then (err (profile_mismatch (some repository.id)), w)
            else bind_case (lift host (desired_snapshot host profile remote) w)
                λ desired w. bind_desired at repository replace_existing profile desired w

  unfoldable pub bind_repository :
      Moment → Text → Text → Bool → M (World G) RepositoryTransportBinding
  unfolding trusted_repository bind_repository_locked
  bind_repository at repository_id profile_id replace_existing w =
      bind_case (trusted_repository host repository_id w)
        λ repository w. bind_repository_locked at repository profile_id replace_existing w

  unfoldable pub reapply_drifted_locked :
      Moment → Repository → RepositoryTransportBinding → Snapshot → M (World G) (Unit {0})
  unfolding ensure_restorable_snapshot write_with_compensation upsert_binding compensate_or_partial
      codes
  reapply_drifted_locked at repository binding live w =
      bind_case (lift host (ensure_restorable_snapshot host.parse_url live) w) λ _ w.
        bind_case
          (write_with_compensation host at repository live binding.applied_config
            (codes "reapplyConfig") w)
          λ _ w.
            or_compensate host at repository binding.applied_config live (codes "saveBinding") tt
              (on_db host (upsert_binding (with_drift binding clean at.now)) w)

  -- The `match` on the resolution of a drift
  unfoldable pub resolve_drift :
      Moment
      → Repository
      → RepositoryTransportBinding
      → Snapshot
      → DriftResolution
      → M (World G) (Unit {0})
  unfolding delete_binding reapply_drifted_locked
  resolve_drift at repository binding live reject w = (err (config_drifted repository.id), w)
  resolve_drift at repository binding live keep_external w =
      on_db host (delete_binding repository.id) w
  resolve_drift at repository binding live reapply w =
      reapply_drifted_locked at repository binding live w

  -- The settings of before the bind, then the row.
  unfoldable pub restore_before :
      Moment → Repository → RepositoryTransportBinding → Snapshot → M (World G) (Unit {0})
  unfolding write_with_compensation delete_binding compensate_or_partial codes
  restore_before at repository binding live w =
      bind_case
        (write_with_compensation host at repository live binding.before_config
          (codes "restoreConfig") w)
        λ _ w.
          or_compensate host at repository binding.before_config live (codes "deleteBinding") tt
            (on_db host (delete_binding repository.id) w)

  unfoldable pub bound_transport : Text → M (World G) RepositoryTransportBinding
  unfolding get_binding codes
  bound_transport repository_id w =
      bind_case (on_db host (get_binding repository_id) w)
        λ found w. (required_binding repository_id found, w)

  -- From the read on.
  unfoldable pub unbind_live :
      Moment
      → Repository
      → RepositoryTransportBinding
      → DriftResolution
      → Snapshot
      → M (World G) (Unit {0})
  unfolding is_drifted mark_binding_drifted resolve_drift restore_before
  unbind_live at repository binding resolution live w =
      if is_drifted live binding
      then bind_case (on_db host (mark_binding_drifted repository.id at.now) w)
          (λ _ w. resolve_drift at repository binding live resolution w)
      else restore_before at repository binding live w

  unfoldable pub unbind_trusted : Moment → Repository → DriftResolution → M (World G) (Unit {0})
  unfolding bound_transport repository_path read_managed_snapshot unbind_live
  unbind_trusted at repository resolution w =
      bind_case (bound_transport repository.id w) λ binding w.
        bind_case (lift host (repository_path host repository) w) λ path w.
          bind_case (on_git host (read_managed_snapshot host path) w)
            λ live w. unbind_live at repository binding resolution live w

  unfoldable pub unbind_repository : Moment → Text → DriftResolution → M (World G) (Unit {0})
  unfolding trusted_repository unbind_trusted
  unbind_repository at repository_id resolution w =
      bind_case (trusted_repository host repository_id w)
        λ repository w. unbind_trusted at repository resolution w
