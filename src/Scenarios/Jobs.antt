-- ===== src/Scenarios/Jobs.antt =====
-- The job service of jobs/service.rs at work.
use git_ramus.Base.Tests.{
  ℕ, ◌≡◌, refl, Bool, true, false, not, ◌&&◌, ◌||◌, Option, none, some, List, [], ◌∷◌,
}
use git_ramus.Base.Text.{Text, codes, text_eq, is_empty, starts_with}
use git_ramus.Base.Table.{lookup}
use git_ramus.Base.Error.{ok, is_ok}
use git_ramus.Jobs.Model.{
  Job, JobStatus, queued, running, succeeded, failed, display, from_str, F64, f64_one, status_eq,
  ErrorEnvelope, ErrorCategory,
}
use git_ramus.Jobs.Repository.{Row, Jobs, get, to_row}
use git_ramus.Jobs.Service
use git_ramus.Jobs.Service.{is_active, new_job}
use git_ramus.Jobs.Moves.{Steps}
use git_ramus.Jobs.Calls.{
  Call, run, run-Steps, create_with_id, start, succeed, fail, request_cancel, set_progress,
  fail_running_by_kind_prefix,
}
use git_ramus.Jobs.Invariant.{IsSound, AllSound, run-AllSound}
use git_ramus.Jobs.Lifecycle.{terminal_frozen}
use git_ramus.Jobs.Outcomes.{method_accepts}
use git_ramus.Jobs.Recovery.Success.{recovery_after_calls}

-- `Uuid::parse_str`, here of short names
abbrev accept : Text → Bool
accept t = not (is_empty t)

abbrev one : Text
one = b'1' ∷ []

abbrev two : Text
two = b'2' ∷ []

abbrev clone_kind : Text
clone_kind = b'c' ∷ b'.' ∷ b'x' ∷ []

abbrev clone_prefix : Text
clone_prefix = b'c' ∷ b'.' ∷ []

abbrev half : F64
half = 0x3fe0000000000000

abbrev crashed : ErrorEnvelope
crashed = record {
  code = b'e' ∷ [];
  category = ErrorCategory.retryable;
  message = b'm' ∷ [];
  operation_id = none;
  plugin_id = none;
  resource_id = none;
  failed_step = none;
  retryable = true;
  retry_after_ms = none;
  recovery_actions = [];
  details = none;
}

abbrev life : List Call
life =
    create_with_id one clone_kind two 1
    ∷ start one 2
    ∷ set_progress one half 3
    ∷ succeed one 4 5
    ∷ []

abbrev row_of : JobStatus → F64 → Bool → ℕ → Row
row_of s p c now = record {
  kind = clone_kind;
  title = two;
  status = display s;
  progress = p;
  cancel_requested = c;
  error_json = none;
  created_at = 1;
  updated_at = now;
}

abbrev done_row : Row
done_row = row_of succeeded f64_one false 5

abbrev busy_row : Row
busy_row = row_of running half false 3

abbrev done_table : Jobs
done_table = (one, done_row) ∷ []

abbrev busy_table : Jobs
busy_table = (one, busy_row) ∷ []

-- A proof that unfolds it computes with every function of the job service.
opened : Unit {0}
unfolding run git_ramus.Jobs.Calls.exec Service.succeed Service.transition get lookup
    Service.set_progress git_ramus.Jobs.Model.in_unit_interval Service.start Service.create_with_id
    is_empty git_ramus.Jobs.Repository.insert_job git_ramus.Jobs.Repository.satisfies_checks
    from_str text_eq display new_job codes git_ramus.Base.Table.insert git_ramus.Base.Lists.filter
    starts_with status_eq git_ramus.Jobs.Repository.job_of git_ramus.Jobs.Repository.list
    git_ramus.Jobs.Repository.map_job git_ramus.Jobs.Repository.map_rows
    git_ramus.Jobs.Repository.order_by_created git_ramus.Jobs.Repository.place to_row
    git_ramus.Jobs.Repository.update git_ramus.Jobs.Repository.updated_row Service.cancel
    Service.fail Service.fail_each Service.fail_running_by_kind_prefix is_active
    Service.request_cancel Service.required Service.transitioned Service.valid_transition
opened = tt

life_ends : run accept life [] ≡ done_table
unfolding opened
life_ends = refl

done_present : lookup one done_table ≡ some done_row
unfolding opened
done_present = refl

done_parses : from_str done_row.status ≡ ok succeeded
unfolding opened
done_parses = refl

-- What a caller might still try on a job that has succeeded.
abbrev too_late : List Call
too_late = start one 6 ∷ fail one crashed 7 ∷ set_progress one half 8 ∷ request_cancel one 9 ∷ []

run-AllSound_example : AllSound (run accept life [])
run-AllSound_example = run-AllSound accept life [] tt

run-Steps_example : Steps [] (run accept life [])
run-Steps_example = run-Steps accept life []

terminal_frozen_example : lookup one (run accept too_late done_table) ≡ some done_row
terminal_frozen_example =
    terminal_frozen accept too_late done_table one done_present done_parses refl

busy_present : lookup one busy_table ≡ some busy_row
unfolding opened
busy_present = refl

busy_sound : IsSound busy_row
unfolding opened
busy_sound = record {
  status = running;
  parses = refl;
  in_unit = refl;
  error_iff = refl;
  flagged = refl;
  complete = refl;
}

method_accepts_example :
    (is_ok (Service.start one 6 busy_table).0 ≡ status_eq running queued)
    × (is_ok (Service.succeed one 6 7 busy_table).0 ≡ status_eq running running)
    × (is_ok (Service.fail one crashed 6 busy_table).0 ≡ status_eq running running)
    × (is_ok (Service.cancel one 6 busy_table).0 ≡ is_active running)
    × (is_ok (Service.set_progress one half 6 busy_table).0
        ≡ (git_ramus.Jobs.Model.in_unit_interval half && status_eq running running))
    × (is_ok (Service.request_cancel one 6 busy_table).0 ≡ true)
unfolding busy_sound
method_accepts_example = method_accepts one busy_table busy_present busy_sound crashed half 6 7

abbrev later : ℕ → ℕ → Bool
later a b = git_ramus.Base.Tests.ltb b a

recovery_after_calls_example :
    (jobs : List Job) × (u : Jobs) × (Service.fail_running_by_kind_prefix later clone_prefix crashed
        9
        (run accept life [])
      ≡ (ok jobs, u))
    × ((id : Text) (r : Row)
        → lookup id (run accept life []) ≡ some r
        → from_str r.status ≡ ok running
        → starts_with clone_prefix r.kind ≡ true
        → (s : Row) × (lookup id u ≡ some s)
          × (s.status ≡ display failed)
          × (s.error_json ≡ some crashed))
recovery_after_calls_example =
    recovery_after_calls accept life later clone_prefix crashed 9 (unfold opened in refl)
