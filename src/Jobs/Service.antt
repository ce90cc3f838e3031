-- ===== src/Jobs/Service.antt =====
-- jobs/service.rs: `JobService`. Every public method holds the operation lock from its first read
-- to its last write, so each call is one step on the table. `now` stands for `Utc::now()`.
use git_ramus.Base.Tests.{
  ℕ, Bool, true, false, not, ◌&&◌, ◌||◌, Option, none, some, List, [], ◌∷◌, ◌++◌, map, is_some,
  if◌then◌else◌,
}
use git_ramus.Base.Lists.{filter}
use git_ramus.Base.Text.{Text, codes, is_empty, starts_with}
use git_ramus.Base.Error.{invalid_input, not_found, M, ◌>>=◌, ◌>>◌, return, throw}
use git_ramus.Jobs.Model.{
  Job, JobStatus, queued, running, succeeded, failed, canceled, status_eq, display, F64, f64_zero,
  f64_one, in_unit_interval, ErrorEnvelope,
}
use git_ramus.Jobs.Repository.{Jobs, insert_job, update, get, list}

abbrev pub found : Text → Option Job → M Jobs Job
found id none = throw (not_found (codes "job " ++ id))
found id (some job) = return job

unfoldable pub required : Text → M Jobs Job
required id = do job ← get id; found id job

-- the `matches!` of `transition`
unfoldable pub valid_transition : JobStatus → JobStatus → Bool
valid_transition queued running = true
valid_transition queued canceled = true
valid_transition running succeeded = true
valid_transition running failed = true
valid_transition running canceled = true
valid_transition _ _ = false

unfoldable pub transitioned : Job → JobStatus → Option ErrorEnvelope → ℕ → Job
transitioned job target error now = record job {
  status = target;
  cancel_requested = job.cancel_requested || status_eq target canceled;
  error = error;
  updated_at = now;
}

abbrev pub store : Job → M Jobs Job
store job = do update job; return job

unfoldable pub transition : Text → JobStatus → Option ErrorEnvelope → ℕ → M Jobs Job
unfolding required
transition id target error now = do
  job ← required id
  if valid_transition job.status target
      then store (transitioned job target error now)
      else throw (
          invalid_input (
            codes "job transition "
            ++ display job.status
            ++ codes " -> "
            ++ display target
            ++ codes " is invalid"))

unfoldable pub new_job : Text → Text → Text → ℕ → Job
new_job id kind title now = record {
  id = id;
  kind = kind;
  title = title;
  status = queued;
  progress = f64_zero;
  cancel_requested = false;
  created_at = now;
  updated_at = now;
  error = none;
}

-- `is_uuid` is the success of `uuid::Uuid::parse_str`.
unfoldable pub create_with_id : (Text → Bool) → Text → Text → Text → ℕ → M Jobs Job
create_with_id is_uuid id kind title now =
    if not (is_uuid id)
    then throw (invalid_input (codes "job id must be a UUID"))
    else if is_empty kind || is_empty title
    then throw (invalid_input (codes "job kind and title are required"))
    else do
      existing ← get id
      if is_some existing
          then throw (invalid_input (codes "job id already exists"))
          else (do insert_job (new_job id kind title now); return (new_job id kind title now))

unfoldable pub start : Text → ℕ → M Jobs Job
start id now = transition id running none now

unfoldable pub succeed : Text → ℕ → ℕ → M Jobs Job
succeed id now later = do
  job ← transition id succeeded none now
  store (record job { progress = f64_one; updated_at = later })

unfoldable pub fail : Text → ErrorEnvelope → ℕ → M Jobs Job
fail id error now = transition id failed (some error) now

unfoldable pub cancel : Text → ℕ → M Jobs Job
cancel id now = transition id canceled none now

unfoldable pub is_active : JobStatus → Bool
is_active queued = true
is_active running = true
is_active _ = false

unfoldable pub request_cancel : Text → ℕ → M Jobs Job
request_cancel id now = do
  job ← required id
  if not (is_active job.status)
      then return job
      else if not job.cancel_requested
      then store (record job { cancel_requested = true; updated_at = now })
      else return job

unfoldable pub set_progress : Text → F64 → ℕ → M Jobs Job
set_progress id progress now =
    if not (in_unit_interval progress)
    then throw (invalid_input (codes "job progress must be between 0 and 1"))
    else do
      job ← required id
      if not (status_eq job.status running)
          then throw (invalid_input (codes "only running jobs accept progress"))
          else store (record job { progress = progress; updated_at = now })

unfoldable pub is_canceled : Text → M Jobs Bool
is_canceled id = do job ← required id; return (status_eq job.status canceled)

-- the `collect` over the transitions: the first error ends it
unfoldable pub fail_each : ErrorEnvelope → ℕ → List Text → M Jobs (List Job)
fail_each error now [] = return []
fail_each error now (id ∷ ids) =
    let rest = fail_each error now ids in
    do job ← transition id failed (some error) now; jobs ← rest; return (job ∷ jobs)

abbrev pub runs_with_prefix : Text → Job → Bool
runs_with_prefix prefix job = status_eq job.status running && starts_with prefix job.kind

unfoldable pub fail_running_by_kind_prefix :
    (ℕ → ℕ → Bool) → Text → ErrorEnvelope → ℕ → M Jobs (List Job)
unfolding fail_each
fail_running_by_kind_prefix newer prefix error now =
    if is_empty prefix then throw (invalid_input (codes "job kind prefix is required")) else do
      jobs ← list newer
      fail_each error now (map (λ job. job.id) (filter (runs_with_prefix prefix) jobs))
