-- ===== src/Jobs/Invariant.antt =====
-- The invariant of the rows of jobs/service.rs.
use mathlib.Core.Path.{subst}
use git_ramus.Base.Tests.{
  ℕ, ◌≡◌, refl, sym, ◌∙◌, inl, inr, Bool, true, false, not, ◌||◌, ◌==◌, some, List, [], ◌∷◌, arith,
  Bool-cases, is_some,
}
use git_ramus.Base.Text.{Text, text_eq}
use git_ramus.Base.Table.{lookup, insert}
use git_ramus.Base.Error.{ok}
use git_ramus.Jobs.Model.{
  JobStatus, queued, running, succeeded, failed, canceled, status_eq, from_str, f64_one,
  in_unit_interval,
}
use git_ramus.Jobs.Repository.{Row, Jobs, to_row}
use git_ramus.Jobs.Service.{is_active, new_job}
use git_ramus.Jobs.Moves.{
  Move, advance, complete, request, report, Step, moved, created, Steps, here, next,
  from_str-display, Legal-unfinished,
}
use git_ramus.Jobs.Calls.{Call, run, run-Steps}

-- The status column is one of the five texts, the progress lies between 0 and 1, an error is there
-- exactly for a failed job, a canceled job has its flag set and a succeeded one is complete.
pub record IsSound (r : Row) : Type 0 where
  pub status : JobStatus
  pub parses : from_str r.status ≡ ok status
  pub in_unit : in_unit_interval r.progress ≡ true
  pub error_iff : is_some r.error_json ≡ status_eq status failed
  pub flagged : (not (status_eq status canceled) || r.cancel_requested) ≡ true
  pub complete : (not (status_eq status succeeded) || r.progress == f64_one) ≡ true

abbrev pub AllSound : Jobs → Type 0
AllSound [] = Unit {0}
AllSound ((id, r) ∷ t) = IsSound r × AllSound t

advance_flags :
    (target : JobStatus) (b : Bool)
    → (not (status_eq target canceled) || (b || status_eq target canceled)) ≡ true
unfolding status_eq
advance_flags target b = ground arith

advance_completes :
    (target : JobStatus) (p : ℕ)
    → status_eq target succeeded ≡ false
    → (not (status_eq target succeeded) || p == f64_one) ≡ true
unfolding status_eq
advance_completes target p a = ground arith

report_completes :
    (s : JobStatus) (p : ℕ)
    → ok s ≡ ok running
    → (not (status_eq s succeeded) || p == f64_one) ≡ true
unfolding status_eq
report_completes s p h = ground arith

request_flags : (b : Bool) → (b || true) ≡ true
request_flags b = ground arith

Move-IsSound : {r s : Row} → Move r s → IsSound r → IsSound s
unfolding status_eq in_unit_interval is_active
Move-IsSound (advance r s target x now parses v he) i = record {
  status = target;
  parses = from_str-display target;
  in_unit = i.in_unit;
  error_iff = he;
  flagged = advance_flags target r.cancel_requested;
  complete = advance_completes target r.progress (Legal-unfinished v);
}
Move-IsSound (complete r now parses) i = record {
  status = succeeded;
  parses = from_str-display succeeded;
  in_unit = refl;
  error_iff = refl;
  flagged = refl;
  complete = refl;
}
Move-IsSound (request r s now parses v) i = record {
  status = i.status;
  parses = i.parses;
  in_unit = i.in_unit;
  error_iff = i.error_iff;
  flagged = request_flags _;
  complete = i.complete;
}
Move-IsSound (report r p now parses inside) i = record {
  status = i.status;
  parses = i.parses;
  in_unit = inside;
  error_iff = i.error_iff;
  flagged = i.flagged;
  complete = report_completes i.status p (sym i.parses ∙ parses);
}

new_job-IsSound : (id kind title : Text) (now : ℕ) → IsSound (to_row (new_job id kind title now))
unfolding to_row new_job status_eq in_unit_interval
new_job-IsSound id kind title now = record {
  status = queued;
  parses = from_str-display queued;
  in_unit = refl;
  error_iff = refl;
  flagged = refl;
  complete = refl;
}

some_row : {r s : Row} → some r ≡ some s → r ≡ s
some_row h = cc

insert-AllSound :
    (t : Jobs) (id : Text) (r : Row) → AllSound t → IsSound r → AllSound (insert id r t)
unfolding insert
insert-AllSound [] id r all i = (i, tt)
insert-AllSound ((j, s) ∷ t) id r all i = elim (Bool-cases (text_eq j id)) [
  | inl e ↦ rw e (i, all.1)
  | inr e ↦ rw e (all.0, insert-AllSound t id r all.1 i)
]

pub lookup-IsSound :
    (t : Jobs) (id : Text) {r : Row} → AllSound t → lookup id t ≡ some r → IsSound r
unfolding lookup
lookup-IsSound [] id all h = cc
lookup-IsSound ((j, s) ∷ t) id {r} all h = elim (Bool-cases (text_eq j id)) [
  | inl e ↦ subst IsSound (some_row (rw e at h)) all.0
  | inr e ↦ lookup-IsSound t id all.1 (rw e at h)
]

Step-AllSound : {t u : Jobs} → Step t u → AllSound t → AllSound u
Step-AllSound {t} (moved id {r} {r'} there m) all =
    insert-AllSound t id r' all (Move-IsSound m (lookup-IsSound t id all there))
Step-AllSound {t} (created id kind title now absent k l) all =
    insert-AllSound t id _ all (new_job-IsSound id kind title now)

Steps-AllSound : {t u : Jobs} → Steps t u → AllSound t → AllSound u
Steps-AllSound here all = all
Steps-AllSound (next b s) all = Step-AllSound s (Steps-AllSound b all)

-- If every row of the table is sound, every row is sound after any sequence of calls: its status
-- text is one of the five, its progress lies between 0 and 1, it has an error exactly if it failed,
-- its cancellation flag is set if it was canceled, and its progress is 1 if it succeeded.
pub run-AllSound :
    (is_uuid : Text → Bool) (cs : List Call) (t : Jobs) → AllSound t → AllSound (run is_uuid cs t)
run-AllSound is_uuid cs t all = Steps-AllSound (run-Steps is_uuid cs t) all
