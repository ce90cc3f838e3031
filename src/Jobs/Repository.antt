-- ===== src/Jobs/Repository.antt =====
-- jobs/repository.rs over the table `jobs` of migrations/0001_core.sql. The status column holds
-- text, as in the database; the JSON and timestamp columns hold the values that they encode.
use git_ramus.Base.Tests.{ℕ, Bool, ◌&&◌, Option, none, some, List, [], ◌∷◌, is_some, if◌then◌else◌}
use git_ramus.Base.Text.{Text}
use git_ramus.Base.Table.{Table, lookup, insert}
use git_ramus.Base.Error.{database, Result, ok, err, M, and_then, is_ok}
use git_ramus.Jobs.Model.{Job, JobStatus, display, from_str, F64, in_unit_interval, ErrorEnvelope}

pub record Row : Type 0 where
  pub kind : Text
  pub title : Text
  pub status : Text
  pub progress : F64
  pub cancel_requested : Bool
  pub error_json : Option ErrorEnvelope
  pub created_at : ℕ
  pub updated_at : ℕ

abbrev pub Jobs : Type 0
Jobs = Table Row

-- `CHECK (status IN ...)` and `CHECK (progress >= 0 AND progress <= 1)`
unfoldable pub satisfies_checks : Row → Bool
satisfies_checks r = is_ok (from_str r.status) && in_unit_interval r.progress

unfoldable pub to_row : Job → Row
to_row job = record {
  kind = job.kind;
  title = job.title;
  status = display job.status;
  progress = job.progress;
  cancel_requested = job.cancel_requested;
  error_json = job.error;
  created_at = job.created_at;
  updated_at = job.updated_at;
}

-- `map_job`: a status text that is none of the five is a conversion error of the row.
unfoldable pub job_of : Text → Row → JobStatus → Job
job_of id r status = record {
  id = id;
  kind = r.kind;
  title = r.title;
  status = status;
  progress = r.progress;
  cancel_requested = r.cancel_requested;
  created_at = r.created_at;
  updated_at = r.updated_at;
  error = r.error_json;
}

abbrev status_column : Result JobStatus → Result JobStatus
status_column (ok s) = ok s
status_column (err _) = err database

unfoldable pub map_job : Text → Row → Result Job
unfolding job_of
map_job id r = and_then (status_column (from_str r.status)) λ s. ok (job_of id r s)

-- `INSERT`: the primary key and the checks can refuse it.
unfoldable pub insert_job : Job → M Jobs (Unit {0})
unfolding to_row
insert_job job t =
    if is_some (lookup job.id t)
    then (err database, t)
    else if satisfies_checks (to_row job)
    then (ok tt, insert job.id (to_row job) t)
    else (err database, t)

-- The columns that `UPDATE` sets.
unfoldable pub updated_row : Job → Row → Row
updated_row job r = record r {
  status = display job.status;
  progress = job.progress;
  cancel_requested = job.cancel_requested;
  error_json = job.error;
  updated_at = job.updated_at;
}

-- `UPDATE ... WHERE id`: no row, no change.
unfoldable pub update : Job → M Jobs (Unit {0})
unfolding updated_row
update job t = elim (lookup job.id t) [
  | none ↦ (ok tt, t)
  | some r ↦
      let r' = updated_row job r in
      if satisfies_checks r' then (ok tt, insert job.id r' t) else (err database, t)
]

abbrev map_found : Text → Option Row → Result (Option Job)
map_found id none = ok none
map_found id (some r) = and_then (map_job id r) λ job. ok (some job)

unfoldable pub get : Text → M Jobs (Option Job)
unfolding map_job
get id t = (map_found id (lookup id t), t)

-- `ORDER BY created_at DESC`: `newer a b` is SQLite's comparison of the stored texts.
unfoldable pub place : (ℕ → ℕ → Bool) → Text × Row → Jobs → Jobs
place newer x [] = x ∷ []
place newer (i, r) ((j, s) ∷ rest) =
    if newer s.created_at r.created_at
    then (j, s) ∷ place newer (i, r) rest
    else (i, r) ∷ (j, s) ∷ rest

unfoldable pub order_by_created : (ℕ → ℕ → Bool) → Jobs → Jobs
unfolding place
order_by_created newer [] = []
order_by_created newer (x ∷ rest) = place newer x (order_by_created newer rest)

unfoldable pub map_rows : Jobs → Result (List Job)
map_rows [] = ok []
map_rows ((id, r) ∷ rest) =
    and_then (map_job id r) λ job. and_then (map_rows rest) λ jobs. ok (job ∷ jobs)

unfoldable pub list : (ℕ → ℕ → Bool) → M Jobs (List Job)
unfolding order_by_created map_rows
list newer t = (map_rows (order_by_created newer t), t)
