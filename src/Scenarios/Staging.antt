-- ===== src/Scenarios/Staging.antt =====
-- The staging of a clone and its recovery in git/transport/clone.rs at work.
use git_ramus.Base.Tests.{◌≡◌, ◌⊎◌, refl, true, false, Option, none, some, [], ◌∷◌, ltb}
use git_ramus.Scenarios.Disk.{folder, file, Disk, split_path, begins_at_root, disk, disk-IsLawful}
use git_ramus.Base.Text.{Text, codes, text_eq}
use git_ramus.Base.Table.{lookup, insert, remove}
use git_ramus.Base.Error.{ok}
use git_ramus.Transport.Clones.{
  CloneOperation, new, validating, failed, at_stage, get_clone_operation,
}
use git_ramus.Jobs.Model.{ErrorEnvelope, ErrorCategory}
use git_ramus.Jobs.Repository.{Row}
use git_ramus.Jobs.Moves.{Steps}
use git_ramus.Transport.Clones.Recovery.{
  World, Surroundings, interrupted, classified, classify_incomplete_recovery,
}
use git_ramus.Transport.Clones.Recovery.Keeping.{recovery-kept}
use git_ramus.Transport.Clones.Paths.{
  ClonePaths, allocate, from_operation, cleanup_staging, staging_name, marker_name, marker_contents,
}
use git_ramus.Transport.Clones.Paths.Allocation.{IsStoredAs, has_drive, from_operation-allocate}
use git_ramus.Transport.Clones.Paths.Ownership.{IsCleaned, cleanup_staging-IsCleaned}

opened : Unit {0}
unfolding disk split_path begins_at_root codes text_eq lookup insert remove allocate from_operation
    cleanup_staging staging_name marker_name marker_contents
opened = tt

abbrev operation_id : Text
operation_id = codes "7e"

abbrev empty_home : Disk
empty_home = (codes "/h", folder) ∷ []

-- The paths of a clone into the directory `r` of the home directory.
home_paths : ClonePaths
unfolding opened
home_paths = record {
  parent = codes "/h";
  staging = codes "/h/.git-ramus-clone-7e";
  marker = codes "/h/.git-ramus-clone-7e.owner";
  final_path = codes "/h/r";
  operation_id = operation_id;
  staging_basename = codes ".git-ramus-clone-7e";
}

abbrev staged_home : Disk
staged_home =
    (codes "/h", folder)
    ∷ (codes "/h/.git-ramus-clone-7e", folder)
    ∷ (codes "/h/.git-ramus-clone-7e.owner", file (codes "7e\n.git-ramus-clone-7e\n"))
    ∷ []

abbrev stored : CloneOperation
stored = record {
  operation_id = operation_id;
  job_id = codes "j";
  source_summary = codes "h/r";
  intent_id = none;
  transport_profile_id = none;
  provider_instance_id = none;
  provider_account_id = none;
  provider_repository_id = none;
  staging_path = codes "/h/.git-ramus-clone-7e";
  owner_marker_path = codes "/h/.git-ramus-clone-7e.owner";
  final_path = codes "/h/r";
  project_target = new (codes "r");
  current_stage = validating;
  filesystem_complete = false;
  repository_id = none;
  project_id = none;
  profile_applied = false;
  provider_binding_complete = false;
  created_at = codes "1";
  updated_at = codes "1";
}

home_allocated : allocate disk empty_home (codes "/h") (codes "r") operation_id ≡ ok home_paths
unfolding opened home_paths
home_allocated = refl

stored-IsStoredAs : IsStoredAs stored home_paths
unfolding opened home_paths
stored-IsStoredAs = record { operation_id = refl; staging = refl; marker = refl; final_path = refl }

no_drive : has_drive (codes "r") ≡ false
unfolding opened has_drive
no_drive = refl

from_operation-allocate_example : from_operation disk empty_home stored ≡ ok home_paths
from_operation-allocate_example =
    from_operation-allocate disk empty_home (codes "/h") (codes "r") operation_id stored
      (disk-IsLawful empty_home) no_drive home_allocated stored-IsStoredAs

-- The cleanup removes the staging directory and its marker, and nothing else.
staged_home_cleaned :
    cleanup_staging disk
      (codes "/h")
      (codes "/h/.git-ramus-clone-7e")
      (codes "/h/.git-ramus-clone-7e.owner")
      operation_id
      staged_home
    ≡ (ok tt, empty_home)
unfolding opened
staged_home_cleaned = refl

cleanup_staging-IsCleaned_example :
    IsCleaned disk
      (codes "/h")
      (codes "/h/.git-ramus-clone-7e")
      (codes "/h/.git-ramus-clone-7e.owner")
      operation_id
      staged_home
      (cleanup_staging disk
        (codes "/h")
        (codes "/h/.git-ramus-clone-7e")
        (codes "/h/.git-ramus-clone-7e.owner")
        operation_id
        staged_home).1
cleanup_staging-IsCleaned_example =
    cleanup_staging-IsCleaned disk (codes "/h") (codes "/h/.git-ramus-clone-7e")
      (codes "/h/.git-ramus-clone-7e.owner") operation_id staged_home

abbrev crashed : Text → ErrorEnvelope
crashed id = record {
  code = codes "e";
  category = ErrorCategory.retryable;
  message = codes "m";
  operation_id = some id;
  plugin_id = none;
  resource_id = none;
  failed_step = none;
  retryable = true;
  retry_after_ms = none;
  recovery_actions = [];
  details = none;
}

abbrev surroundings : Surroundings
surroundings = record {
  newer = λ a b. ltb b a;
  now = λ id. codes "2";
  job_now = λ id. 2;
  interruption = crashed;
}

-- A clone that an exit of the application interrupted after its staging directory was removed.
abbrev interrupted_world : World Disk
interrupted_world = record {
  clones = record {
    operations = (operation_id, stored) ∷ [];
    jobs = codes "j" ∷ [];
    repositories = [];
    projects = [];
  };
  jobs =
      (
        codes "j",
        record {
          kind = codes "c";
          title = codes "t";
          status = codes "running";
          progress = 0;
          cancel_requested = false;
          error_json = none;
          created_at = 1;
          updated_at = 1;
        },
      )
      ∷ [];
  files =
      (codes "/h", folder)
      ∷ (codes "/h/.git-ramus-clone-7e.owner", file (codes "7e\n.git-ramus-clone-7e\n"))
      ∷ [];
}

stored_held : get_clone_operation operation_id interrupted_world.clones ≡ some stored
unfolding opened get_clone_operation
stored_held = refl

abbrev status_of : Option Row → Option Text
status_of none = none
status_of (some row) = some row.status

-- The recovery removes the marker, and the job has failed.
interrupted_recovered :
    let (result, w) = classify_incomplete_recovery disk surroundings interrupted_world in
    (result ≡ ok (classified operation_id (interrupted ∷ []) ∷ []))
    × (w.files ≡ empty_home)
    × (status_of (lookup (codes "j") w.jobs) ≡ some (codes "failed"))
unfolding opened classify_incomplete_recovery git_ramus.Jobs.Repository.map_job
    git_ramus.Jobs.Model.from_str git_ramus.Jobs.Service.transition git_ramus.Jobs.Repository.get
    git_ramus.Jobs.Service.valid_transition git_ramus.Jobs.Repository.update
    git_ramus.Jobs.Service.transitioned git_ramus.Jobs.Repository.satisfies_checks
    git_ramus.Jobs.Model.display git_ramus.Jobs.Model.in_unit_interval
interrupted_recovered = (refl, refl, refl)

recovery-kept_example :
    let after = (classify_incomplete_recovery disk surroundings interrupted_world).1 in
    ((p : CloneOperation) × (get_clone_operation operation_id after.clones ≡ some p)
      × ((p ≡ stored) ⊎ ((at : Text) × (p ≡ at_stage failed at stored))))
    × Steps interrupted_world.jobs after.jobs
recovery-kept_example =
    recovery-kept disk surroundings interrupted_world operation_id stored stored_held
