-- ===== src/Jobs/Calls.antt =====
-- Sequences of calls of `JobService`: every method that writes, in any order, by any callers. The
-- operation lock makes each call one step.
use git_ramus.Base.Tests.{ℕ, Bool, List, [], ◌∷◌}
use git_ramus.Base.Text.{Text}
use git_ramus.Jobs.Model.{F64, ErrorEnvelope}
use git_ramus.Jobs.Repository.{Jobs}
use git_ramus.Jobs.Service
use git_ramus.Jobs.Moves.{Steps, here, Steps-trans}
use git_ramus.Jobs.Refines.{
  start-Steps, fail-Steps, cancel-Steps, request_cancel-Steps, set_progress-Steps,
  fail_running-Steps, create_with_id-Steps, succeed-Steps,
}

-- A call with its arguments and the times that it reads from the clock.
pub data Call : Type 0 where
  create_with_id : Text → Text → Text → ℕ → Call
  start : Text → ℕ → Call
  succeed : Text → ℕ → ℕ → Call
  fail : Text → ErrorEnvelope → ℕ → Call
  cancel : Text → ℕ → Call
  request_cancel : Text → ℕ → Call
  set_progress : Text → F64 → ℕ → Call
  fail_running_by_kind_prefix : (ℕ → ℕ → Bool) → Text → ErrorEnvelope → ℕ → Call

module _ (is_uuid : Text → Bool) where
  -- The table after a call, whether it succeeded or not.
  unfoldable pub exec : Call → Jobs → Jobs
  exec (create_with_id id kind title now) t = (Service.create_with_id is_uuid id kind title now t).1
  exec (start id now) t = (Service.start id now t).1
  exec (succeed id now later) t = (Service.succeed id now later t).1
  exec (fail id e now) t = (Service.fail id e now t).1
  exec (cancel id now) t = (Service.cancel id now t).1
  exec (request_cancel id now) t = (Service.request_cancel id now t).1
  exec (set_progress id p now) t = (Service.set_progress id p now t).1
  exec (fail_running_by_kind_prefix newer prefix e now) t =
      (Service.fail_running_by_kind_prefix newer prefix e now t).1

  unfoldable pub run : List Call → Jobs → Jobs
  unfolding exec
  run [] t = t
  run (c ∷ cs) t = run cs (exec c t)

  exec-Steps : (c : Call) (t : Jobs) → Steps t (exec c t)
  unfolding exec
  exec-Steps (create_with_id id kind title now) t = create_with_id-Steps is_uuid id kind title now t
  exec-Steps (start id now) t = start-Steps id now t
  exec-Steps (succeed id now later) t = succeed-Steps id now later t
  exec-Steps (fail id e now) t = fail-Steps id e now t
  exec-Steps (cancel id now) t = cancel-Steps id now t
  exec-Steps (request_cancel id now) t = request_cancel-Steps id now t
  exec-Steps (set_progress id p now) t = set_progress-Steps id p now t
  exec-Steps (fail_running_by_kind_prefix newer prefix e now) t =
      fail_running-Steps newer prefix e now t

  -- Whatever methods of the job service are called, in whatever order, the table changes only by
  -- steps of the life cycle: a job is inserted under a fresh identifier, or one present row makes
  -- one of the moves `advance`, `complete`, `request` and `report`.
  pub run-Steps : (cs : List Call) (t : Jobs) → Steps t (run cs t)
  unfolding run
  run-Steps [] t = here
  run-Steps (c ∷ cs) t = Steps-trans (exec-Steps c t) (run-Steps cs (exec c t))
