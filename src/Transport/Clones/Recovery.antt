-- ===== src/Transport/Clones/Recovery.antt =====
-- git/transport/clone.rs, `classify_incomplete_recovery`: what a start of the application makes of the
-- clone operations that the last run left. The order of the listing of jobs, the times of the clock
-- and the error of an interrupted operation as its envelope are arguments.
pub mod Keeping
use git_ramus.Base.Tests.{
  Bool, true, false, not, ◌&&◌, ◌||◌, Option, none, some, List, [], ◌∷◌, ℕ, if◌then◌else◌,
}
use git_ramus.Base.Lists.{any}
use git_ramus.Base.Text.{Text, text_eq}
use git_ramus.Base.Error.{Result, ok, err, is_ok, M, bind_case}
use git_ramus.Jobs.Model.{Job, running, status_eq, ErrorEnvelope}
use git_ramus.Jobs.Repository.{Jobs, list}
use git_ramus.Jobs.Service.{fail}
use git_ramus.Transport.Clones.{
  CloneDb, CloneOperation, failed, update_clone_stage, list_incomplete_clone_operations,
}
use git_ramus.Transport.Clones.Files.{Files, is_found}
use git_ramus.Transport.Clones.Paths.{
  ClonePaths, ExistingDirectory, gone, safe, unsafe, from_operation, safe_existing_directory,
  validate_marker,
}

pub data CloneRecoveryAction : Type 0 where
  cleanup_staging retry_clone retry_registration interrupted unsafe_path : CloneRecoveryAction

pub record CloneRecoveryClassification : Type 0 where
  pub operation_id : Text
  pub actions : List CloneRecoveryAction

pub record World (F : Type 0) : Type 0 where
  pub clones : CloneDb
  pub jobs : Jobs
  pub files : F

-- What the code reads of the clock and of the other modules.
pub record Surroundings : Type 0 where
  pub newer : ℕ → ℕ → Bool
  pub now : Text → Text
  pub job_now : Text → ℕ
  pub interruption : Text → ErrorEnvelope

abbrev pub on_files : {F A : Type 0} → M F A → M (World F) A
on_files m w =
    let (r, files) = m w.files in (r, record { clones = w.clones; jobs = w.jobs; files = files })

abbrev pub on_clones : {F A : Type 0} → M CloneDb A → M (World F) A
on_clones m w =
    let (r, clones) = m w.clones in (r, record { clones = clones; jobs = w.jobs; files = w.files })

abbrev pub on_jobs : {F A : Type 0} → M Jobs A → M (World F) A
on_jobs m w =
    let (r, jobs) = m w.jobs in (r, record { clones = w.clones; jobs = jobs; files = w.files })

abbrev pub classified : Text → List CloneRecoveryAction → CloneRecoveryClassification
classified id actions = record { operation_id = id; actions = actions }

abbrev pub is_running : Text → Job → Bool
is_running id job = text_eq job.id id && status_eq job.status running

module _ {F : Type 0} (fs : Files F) (env : Surroundings) where
  -- A running job of an interrupted operation fails, whether that works or not.
  abbrev pub end_job : CloneOperation → List Job → M (World F) CloneRecoveryClassification
  end_job o jobs w =
      if any (is_running o.job_id) jobs
      then (
        ok (classified o.operation_id (interrupted ∷ [])),
        (on_jobs (fail o.job_id (env.interruption o.operation_id) (env.job_now o.operation_id))
            w).1,
      )
      else (ok (classified o.operation_id (interrupted ∷ [])), w)

  -- Neither directory is left, and the marker is.
  abbrev pub interrupt : CloneOperation → ClonePaths → M (World F) CloneRecoveryClassification
  interrupt o p w = bind_case (on_files (fs.remove_file p.marker) w) λ _ w.
      bind_case (on_clones (update_clone_stage o.operation_id failed (env.now o.operation_id)) w)
        λ _ w. bind_case (on_jobs (list env.newer) w) λ jobs w. end_job o jobs w

  -- The `match` on what stands where
  abbrev pub decide :
      CloneOperation
      → ClonePaths
      → ExistingDirectory
      → ExistingDirectory
      → Bool
      → M (World F) CloneRecoveryClassification
  decide o p safe gone true w =
      (ok (classified o.operation_id (cleanup_staging ∷ retry_clone ∷ [])), w)
  decide o p gone gone true w = interrupt o p w
  decide o p gone safe valid w =
      if o.filesystem_complete
      then (ok (classified o.operation_id (retry_registration ∷ [])), w)
      else (ok (classified o.operation_id (unsafe_path ∷ [])), w)
  decide o p _ _ _ w = (ok (classified o.operation_id (unsafe_path ∷ [])), w)

  abbrev pub is_unsafe : ExistingDirectory → Bool
  is_unsafe unsafe = true
  is_unsafe _ = false

  abbrev pub classify_paths :
      CloneOperation → Result ClonePaths → M (World F) CloneRecoveryClassification
  classify_paths o (err e) w = (ok (classified o.operation_id (unsafe_path ∷ [])), w)
  classify_paths o (ok p) w =
      let staging = safe_existing_directory fs w.files p.staging in
      let final = safe_existing_directory fs w.files p.final_path in
      let marker_exists = is_found (fs.symlink_metadata w.files p.marker) in
      let marker_valid =
        marker_exists
        && is_ok (validate_marker fs w.files p.parent p.staging p.marker p.operation_id) in
      if is_unsafe staging || (is_unsafe final || (marker_exists && not marker_valid))
      then (ok (classified o.operation_id (unsafe_path ∷ [])), w)
      else decide o p staging final marker_valid w

  unfoldable pub classify_recovery_operation :
      CloneOperation → M (World F) CloneRecoveryClassification
  unfolding from_operation safe_existing_directory validate_marker update_clone_stage list fail any
      text_eq status_eq
  classify_recovery_operation o w = classify_paths o (from_operation fs w.files o) w

  -- The first error ends the `collect`.
  unfoldable pub classify_each :
      List CloneOperation → M (World F) (List CloneRecoveryClassification)
  unfolding classify_recovery_operation
  classify_each [] w = (ok [], w)
  classify_each (o ∷ rest) w =
      bind_case (classify_recovery_operation o w)
        λ c w. bind_case (classify_each rest w) λ cs w. (ok (c ∷ cs), w)

  unfoldable pub classify_incomplete_recovery : M (World F) (List CloneRecoveryClassification)
  unfolding classify_each list_incomplete_clone_operations
  classify_incomplete_recovery w = classify_each (list_incomplete_clone_operations w.clones) w
