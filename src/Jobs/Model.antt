-- ===== src/Jobs/Model.antt =====
-- jobs/model.rs, and `ErrorEnvelope` of error.rs.
use git_ramus.Base.Tests.{ℕ, Bool, true, false, ◌||◌, Option, List, ◌++◌, leb, ◌==◌, if◌then◌else◌}
use git_ramus.Base.Text.{Text, codes, text_eq}
use git_ramus.Base.Error.{invalid_input, Result, ok, err}

pub data JobStatus : Type 0 where
  queued running succeeded failed canceled : JobStatus

-- `==` of the derived `PartialEq`
unfoldable pub status_eq : JobStatus → JobStatus → Bool
status_eq queued queued = true
status_eq running running = true
status_eq succeeded succeeded = true
status_eq failed failed = true
status_eq canceled canceled = true
status_eq _ _ = false

-- `Display for JobStatus`
unfoldable pub display : JobStatus → Text
display queued = codes "queued"
display running = codes "running"
display succeeded = codes "succeeded"
display failed = codes "failed"
display canceled = codes "canceled"

-- `FromStr for JobStatus`
unfoldable pub from_str : Text → Result JobStatus
from_str value =
    if text_eq value (codes "queued")
    then ok queued
    else if text_eq value (codes "running")
    then ok running
    else if text_eq value (codes "succeeded")
    then ok succeeded
    else if text_eq value (codes "failed")
    then ok failed
    else if text_eq value (codes "canceled")
    then ok canceled
    else err (invalid_input (codes "unknown job status: " ++ value))

-- An `f64` is its IEEE 754 bit pattern: the order of non-negative numbers is that of their bits.
abbrev pub F64 : Type 0
F64 = ℕ

abbrev pub f64_zero : F64
f64_zero = 0

abbrev pub f64_one : F64
f64_one = 0x3ff0000000000000

abbrev pub f64_neg_zero : F64
f64_neg_zero = 0x8000000000000000

-- `(0.0..=1.0).contains(&x)`; it holds of -0.0, and of no NaN, infinity or other negative number
unfoldable pub in_unit_interval : F64 → Bool
in_unit_interval x = x == f64_neg_zero || leb x f64_one

pub data ErrorCategory : Type 0 where
  validation user_action_required retryable partial_result internal_fatal : ErrorCategory

pub data RecoveryActionKind : Type 0 where
  retry open_settings reauthorize resolve_conflict export_diagnostics : RecoveryActionKind

pub record RecoveryAction : Type 0 where
  pub id : Text
  pub label : Text
  pub kind : RecoveryActionKind

-- `details` is the JSON text of the map.
pub record ErrorEnvelope : Type 0 where
  pub code : Text
  pub category : ErrorCategory
  pub message : Text
  pub operation_id : Option Text
  pub plugin_id : Option Text
  pub resource_id : Option Text
  pub failed_step : Option Text
  pub retryable : Bool
  pub retry_after_ms : Option ℕ
  pub recovery_actions : List RecoveryAction
  pub details : Option Text

-- A `DateTime<Utc>` is a number of nanoseconds.
pub record Job : Type 0 where
  pub id : Text
  pub kind : Text
  pub title : Text
  pub status : JobStatus
  pub progress : F64
  pub cancel_requested : Bool
  pub created_at : ℕ
  pub updated_at : ℕ
  pub error : Option ErrorEnvelope
