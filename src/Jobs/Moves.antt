-- ===== src/Jobs/Moves.antt =====
-- The life of a job as a step relation on rows and on the table, and the proof that the methods of
-- jobs/service.rs make no other steps.
use git_ramus.Base.Tests.{
  ℕ, ◌≡◌, refl, ◌⊎◌, inl, inr, Bool, true, false, true≢false, sym, ◌||◌, Option, none, some, ◌++◌,
  arith, is_some,
}
use git_ramus.Base.Text.{Text, codes, is_empty, text_eq_iff}
use git_ramus.Base.Table.{lookup, insert}
use git_ramus.Base.Error.{AppError, Result, ok, err}
use git_ramus.Jobs.Model.{
  JobStatus, queued, running, succeeded, failed, canceled, status_eq, display, from_str, F64,
  f64_one, in_unit_interval, ErrorEnvelope,
}
use git_ramus.Jobs.Repository.{Row, Jobs, to_row, job_of, get}
use git_ramus.Jobs.Service.{required, valid_transition, new_job, is_active}

-- The moves of the life cycle that leave the progress alone. A running job also succeeds.
pub data Legal : JobStatus → JobStatus → Type 0 where
  starts : Legal queued running
  drops : Legal queued canceled
  fails : Legal running failed
  aborts : Legal running canceled

-- A job in such a status is over.
abbrev pub has_ended : JobStatus → Bool
has_ended queued = false
has_ended running = false
has_ended succeeded = true
has_ended failed = true
has_ended canceled = true

pub valid_transition-Legal :
    (s t : JobStatus) → valid_transition s t ≡ true → status_eq t succeeded ≡ false → Legal s t
unfolding valid_transition status_eq
valid_transition-Legal queued running v n = starts
valid_transition-Legal queued canceled v n = drops
valid_transition-Legal running failed v n = fails
valid_transition-Legal running canceled v n = aborts
valid_transition-Legal running succeeded v n = cc
valid_transition-Legal queued queued v n = cc
valid_transition-Legal queued succeeded v n = cc
valid_transition-Legal queued failed v n = cc
valid_transition-Legal running queued v n = cc
valid_transition-Legal running running v n = cc
valid_transition-Legal succeeded t v n = absurd (true≢false (sym v))
valid_transition-Legal failed t v n = absurd (true≢false (sym v))
valid_transition-Legal canceled t v n = absurd (true≢false (sym v))

pub Legal-unfinished : {s t : JobStatus} → Legal s t → status_eq t succeeded ≡ false
unfolding status_eq
Legal-unfinished starts = refl
Legal-unfinished drops = refl
Legal-unfinished fails = refl
Legal-unfinished aborts = refl

pub Legal-from_active : {s t : JobStatus} → Legal s t → has_ended s ≡ false
Legal-from_active starts = refl
Legal-from_active drops = refl
Legal-from_active fails = refl
Legal-from_active aborts = refl

pub is_active_goes_on : (s : JobStatus) → is_active s ≡ true → has_ended s ≡ false
unfolding is_active
is_active_goes_on s h = ground arith

-- What one method may do to the row of a job.
pub data Move : Row → Row → Type 0 where
  advance :
      (r : Row) (s target : JobStatus) (e : Option ErrorEnvelope) (now : ℕ)
      → from_str r.status ≡ ok s
      → Legal s target
      → is_some e ≡ status_eq target failed
      → Move r (record r {
        status = display target;
        cancel_requested = r.cancel_requested || status_eq target canceled;
        error_json = e;
        updated_at = now;
      })
  complete :
      (r : Row) (now : ℕ)
      → from_str r.status ≡ ok running
      → Move r (record r {
        status = display succeeded;
        progress = f64_one;
        error_json = none;
        updated_at = now;
      })
  request :
      (r : Row) (s : JobStatus) (now : ℕ)
      → from_str r.status ≡ ok s
      → has_ended s ≡ false
      → Move r (record r { cancel_requested = true; updated_at = now })
  report :
      (r : Row) (p : F64) (now : ℕ)
      → from_str r.status ≡ ok running
      → in_unit_interval p ≡ true
      → Move r (record r { progress = p; updated_at = now })

-- What one method may do to the table.
pub data Step (t : Jobs) : Jobs → Type 0 where
  moved : (id : Text) {r r' : Row} → lookup id t ≡ some r → Move r r' → Step t (insert id r' t)
  created :
      (id kind title : Text) (now : ℕ)
      → lookup id t ≡ none
      → is_empty kind ≡ false
      → is_empty title ≡ false
      → Step t (insert id (to_row (new_job id kind title now)) t)

pub data Steps (t : Jobs) : Jobs → Type 0 where
  here : Steps t t
  next : {u v : Jobs} → Steps t u → Step u v → Steps t v

pub Steps-trans : {t u v : Jobs} → Steps t u → Steps u v → Steps t v
Steps-trans a here = a
Steps-trans a (next b s) = next (Steps-trans a b) s

pub from_str-display : (s : JobStatus) → from_str (display s) ≡ ok s
unfolding from_str display git_ramus.Base.Text.codes git_ramus.Base.Text.text_eq
from_str-display queued = refl
from_str-display running = refl
from_str-display succeeded = refl
from_str-display failed = refl
from_str-display canceled = refl

pub display-from_str : (v : Text) {s : JobStatus} → from_str v ≡ ok s → v ≡ display s
unfolding from_str display
display-from_str v h = ground (
  arith,
  text_eq_iff v (codes "queued"),
  text_eq_iff v (codes "running"),
  text_eq_iff v (codes "succeeded"),
  text_eq_iff v (codes "failed"),
  text_eq_iff v (codes "canceled"),
)

-- The row that a method reads, or the error that ends it with the table as it was.
pub record Reads (id : Text) (t : Jobs) : Type 0 where
  pub row : Row
  pub status : JobStatus
  pub present : lookup id t ≡ some row
  pub parses : from_str row.status ≡ ok status
  pub returns : required id t ≡ (ok (job_of id row status), t)

required-status :
    (id : Text) (t : Jobs) (r : Row)
    → lookup id t ≡ some r
    → (s : Result JobStatus) → from_str r.status ≡ s
    → ((e : AppError) × (required id t ≡ (err e, t))) ⊎ Reads id t
unfolding required get
required-status id t r present (ok s) parses =
    inr (record { row = r; status = s; present = present; parses = parses; returns = ground arith })
required-status id t r present (err e) parses = inl (git_ramus.Base.Error.database, ground arith)

required-row :
    (id : Text) (t : Jobs) (o : Option Row)
    → lookup id t ≡ o
    → ((e : AppError) × (required id t ≡ (err e, t))) ⊎ Reads id t
unfolding required get
required-row id t none e = inl (git_ramus.Base.Error.not_found (codes "job " ++ id), rw (e, get))
required-row id t (some r) e = required-status id t r e (from_str r.status) refl

pub required-cases :
    (id : Text) (t : Jobs) → ((e : AppError) × (required id t ≡ (err e, t))) ⊎ Reads id t
required-cases id t = required-row id t (lookup id t) refl
