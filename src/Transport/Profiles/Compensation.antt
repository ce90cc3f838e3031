-- ===== src/Transport/Profiles/Compensation.antt =====
-- What is left when a step of git/transport/profile_service.rs fails after the repository's settings
-- were touched.
use git_ramus.Base.Tests.{◌≡◌, refl, true, sym}
use git_ramus.Base.Text.{Text}
use git_ramus.Base.Error.{AppError, transport_partial, Result, ok, err}
use git_ramus.Transport.Config.{Host, write_managed_snapshot}
use git_ramus.Transport.Config.Parse.{Snapshot}
use git_ramus.Transport.Config.Writing.{WasRead, write_managed_snapshot-WasRead}
use git_ramus.Transport.Profiles.Store.{TransportDb, Repository}
use git_ramus.Transport.Profiles.Service.{
  World, Moment, repository_path, record_repair, compensate_or_partial, compensated, or_compensate,
  write_with_compensation,
}

module _ {G : Type 0} (host : Host G) (at : Moment) (repository : Repository) where
  -- How a failed step ends: the settings to restore were read back and the error is the step's own,
  -- or the error says that the operation is partial, and a repair was recorded unless the path is
  -- not absolute.
  pub data IsCompensated (attempted restore : Snapshot) (failed_step : Text) (e : AppError)
      (db : TransportDb) (shown : AppError) (after : World G) : Type 0 where
    restored :
        shown ≡ e
        → after.db ≡ db
        → WasRead host repository.canonical_path restore after.git
        → IsCompensated attempted restore failed_step e db shown after
    partial :
        shown ≡ transport_partial repository.id failed_step
        → (g : G) × (after
            ≡ record_repair host at repository attempted restore e (record { git = g; db = db }))
        → IsCompensated attempted restore failed_step e db shown after

  module _ (attempted restore : Snapshot) (failed_step : Text) (e : AppError) (w : World G) where
    compensated-cases :
        (r : Result (Unit {0}) × G)
        → (r ≡ write_managed_snapshot host repository.canonical_path restore w.git)
        → IsCompensated attempted restore failed_step e w.db
            (compensated host at repository attempted restore e failed_step
              (r.0, record { git = r.1; db = w.db })).0
            (compensated host at repository attempted restore e failed_step
              (r.0, record { git = r.1; db = w.db })).1
    compensated-cases (ok tt, g) h =
        restored refl refl
          (write_managed_snapshot-WasRead host repository.canonical_path restore w.git (sym h))
    compensated-cases (err x, g) h = partial refl (g, refl)

    pub compensate_or_partial-cases :
        host.is_absolute repository.canonical_path ≡ true
        → IsCompensated attempted restore failed_step e w.db
            (compensate_or_partial host at repository attempted restore e failed_step w).0
            (compensate_or_partial host at repository attempted restore e failed_step w).1
    unfolding compensate_or_partial repository_path
    compensate_or_partial-cases absolute = rw absolute (
        compensated-cases (write_managed_snapshot host repository.canonical_path restore w.git)
          refl)

  -- Both ends of a write: it took effect, or it was compensated.
  pub data IsWritten (original target : Snapshot) (failed_step : Text) (w : World G)
      (r : Result (Unit {0}) × World G) : Type 0 where
    written :
        r.0 ≡ ok tt
        → r.1.db ≡ w.db
        → WasRead host repository.canonical_path target r.1.git
        → IsWritten original target failed_step w r
    undone :
        (e shown : AppError)
        → r.0 ≡ err shown
        → IsCompensated target original failed_step e w.db shown r.1
        → IsWritten original target failed_step w r

  module _ (original target : Snapshot) (failed_step : Text) (w : World G) where
    write_outcome :
        (r : Result (Unit {0}) × G)
        → r ≡ write_managed_snapshot host repository.canonical_path target w.git
        → host.is_absolute repository.canonical_path ≡ true
        → IsWritten original target failed_step w (
            or_compensate host at repository target original failed_step tt
              (r.0, record { git = r.1; db = w.db }))
    write_outcome (ok tt, g) h absolute =
        written refl refl
          (write_managed_snapshot-WasRead host repository.canonical_path target w.git (sym h))
    write_outcome (err x, g) h absolute = undone x _ refl (
        compensate_or_partial-cases target original failed_step x (record { git = g; db = w.db })
          absolute)

    -- For a repository at an absolute path, whatever the runner of Git commands does, a write of
    -- managed settings succeeds after the target was read back, or fails with its own error after
    -- the original settings were read back, or fails as a partial operation and tries to record a
    -- repair; the database changes only in the last case.
    pub write_with_compensation-cases :
        host.is_absolute repository.canonical_path ≡ true
        → IsWritten original target failed_step w
            (write_with_compensation host at repository original target failed_step w)
    unfolding write_with_compensation repository_path
    write_with_compensation-cases absolute = rw absolute (
        write_outcome (write_managed_snapshot host repository.canonical_path target w.git) refl
          absolute)
