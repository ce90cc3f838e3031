-- ===== src/Jobs/Refines.antt =====
-- The methods of `JobService` against the step relation of Moves.
use git_ramus.Base.Tests.{
  ℕ, ◌≡◌, refl, ◌∙◌, ◌⊎◌, inl, inr, Bool, true, false, ◌||◌, Option, none, some, List, [], ◌∷◌,
  arith, Bool-cases, Option-cases, is_some,
}
use git_ramus.Base.Text.{Text, is_empty}
use git_ramus.Base.Table.{lookup, insert, insert-insert, lookup-insert_self}
use git_ramus.Base.Error.{AppError, database, Result, ok, err, bind_case, M, Result-cases}
use git_ramus.Jobs.Model.{
  Job, JobStatus, queued, running, succeeded, failed, canceled, status_eq, from_str, F64, f64_one,
  in_unit_interval, ErrorEnvelope,
}
use git_ramus.Jobs.Repository.{
  Row, Jobs, satisfies_checks, to_row, job_of, insert_job, updated_row, update, get, list,
}
use git_ramus.Jobs.Service.{
  valid_transition, transitioned, transition, new_job, create_with_id, start, succeed, fail, cancel,
  is_active, request_cancel, set_progress, fail_each, fail_running_by_kind_prefix, store,
}
use git_ramus.Jobs.Moves.{
  display-from_str, from_str-display, Move, advance, complete, request, report, moved, created,
  Steps, here, next, Steps-trans, required-cases, valid_transition-Legal, is_active_goes_on,
}

pub update_good :
    (job : Job) (t : Jobs) (r : Row)
    → lookup job.id t ≡ some r
    → satisfies_checks (updated_row job r) ≡ true
    → update job t ≡ (ok tt, insert job.id (updated_row job r) t)
unfolding update
update_good job t r present good = ground arith

pub update_refused :
    (job : Job) (t : Jobs) (r : Row)
    → lookup job.id t ≡ some r
    → satisfies_checks (updated_row job r) ≡ false
    → update job t ≡ (err database, t)
unfolding update
update_refused job t r present bad = ground arith

-- One write of a method.
store-Steps :
    (job : Job) (t : Jobs) (r : Row)
    → lookup job.id t ≡ some r
    → Move r (updated_row job r)
    → Steps t (store job t).1
store-Steps job t r present m = elim (Bool-cases (satisfies_checks (updated_row job r))) [
  | inl good ↦ rw (update_good job t r present good) (next here (moved job.id present m))
  | inr bad ↦ rw (update_refused job t r present bad) here
]

transition-Steps :
    (id : Text) (target : JobStatus) (e : Option ErrorEnvelope) (now : ℕ) (t : Jobs)
    → status_eq target succeeded ≡ false
    → is_some e ≡ status_eq target failed
    → Steps t (transition id target e now t).1
unfolding transition job_of transitioned updated_row
transition-Steps id target e now t ns he = elim (required-cases id t) [
  | inl (x, h) ↦ rw h here
  | inr R ↦ rw (R.returns) (elim (Bool-cases (valid_transition R.status target)) [
    | inl v ↦ rw v (
        store-Steps (transitioned (job_of id R.row R.status) target e now) t R.row R.present (
          advance R.row R.status target e now R.parses (valid_transition-Legal R.status target v ns)
            he))
    | inr v ↦ rw v here
  ])
]

pub start-Steps : (id : Text) (now : ℕ) (t : Jobs) → Steps t (start id now t).1
unfolding start status_eq
start-Steps id now t = transition-Steps id running none now t refl refl

pub fail-Steps : (id : Text) (e : ErrorEnvelope) (now : ℕ) (t : Jobs) → Steps t (fail id e now t).1
unfolding fail status_eq
fail-Steps id e now t = transition-Steps id failed (some e) now t refl refl

pub cancel-Steps : (id : Text) (now : ℕ) (t : Jobs) → Steps t (cancel id now t).1
unfolding cancel status_eq
cancel-Steps id now t = transition-Steps id canceled none now t refl refl

pub request_cancel-Steps : (id : Text) (now : ℕ) (t : Jobs) → Steps t (request_cancel id now t).1
unfolding request_cancel job_of updated_row
request_cancel-Steps id now t = elim (required-cases id t) [
  | inl (x, h) ↦ rw h here
  | inr R ↦ rw (R.returns) (elim (Bool-cases (is_active R.status)) [
    | inr v ↦ rw v here
    | inl v ↦ rw v (elim (Bool-cases R.row.cancel_requested) [
      | inl asked ↦ rw asked here
      | inr fresh ↦ rw fresh (
          store-Steps
            (record (job_of id R.row R.status) { cancel_requested = true; updated_at = now }) t
            R.row R.present
            (rw (← display-from_str _ R.parses)
              (request R.row R.status now R.parses (is_active_goes_on R.status v))))
    ])
  ])
]

status_running : (s : JobStatus) → status_eq s running ≡ true → ok s ≡ ok running
unfolding status_eq
status_running s h = ground arith

pub set_progress-Steps :
    (id : Text) (p : F64) (now : ℕ) (t : Jobs) → Steps t (set_progress id p now t).1
unfolding set_progress job_of updated_row
set_progress-Steps id p now t = elim (Bool-cases (in_unit_interval p)) [
  | inr out ↦ rw out here
  | inl inside ↦ rw inside (elim (required-cases id t) [
    | inl (x, h) ↦ rw h here
    | inr R ↦ rw (R.returns) (elim (Bool-cases (status_eq R.status running)) [
      | inr v ↦ rw v here
      | inl v ↦ rw v (
          store-Steps (record (job_of id R.row R.status) { progress = p; updated_at = now }) t R.row
            R.present
            (rw (← display-from_str _ R.parses)
              (report R.row p now (R.parses ∙ status_running R.status v) inside)))
    ])
  ])
]

bind-Steps :
    {A B : Type 0} (m : Result A × Jobs) (f : A → M Jobs B) (t : Jobs)
    → Steps t m.1
    → ((a : A) (u : Jobs) → Steps u (f a u).1)
    → Steps t (bind_case m f).1
bind-Steps (ok a, u) f t s g = Steps-trans s (g a u)
bind-Steps (err e, u) f t s g = s

pub fail_each-Steps :
    (e : ErrorEnvelope) (now : ℕ) (ids : List Text) (t : Jobs) → Steps t (fail_each e now ids t).1
unfolding fail_each status_eq
fail_each-Steps e now [] t = here
fail_each-Steps e now (id ∷ ids) t =
    bind-Steps (transition id failed (some e) now t) _ t
      (transition-Steps id failed (some e) now t refl refl)
      λ job u. bind-Steps (fail_each e now ids u) _ u (fail_each-Steps e now ids u) λ jobs v. here

pub fail_running-Steps :
    (newer : ℕ → ℕ → Bool) (prefix : Text) (e : ErrorEnvelope) (now : ℕ) (t : Jobs)
    → Steps t (fail_running_by_kind_prefix newer prefix e now t).1
unfolding fail_running_by_kind_prefix list
fail_running-Steps newer prefix e now t = elim (Bool-cases (is_empty prefix)) [
  | inl h ↦ rw h here
  | inr h ↦ rw h (bind-Steps (list newer t) _ t here λ jobs u. fail_each-Steps e now _ u)
]

pub insert_good :
    (job : Job) (t : Jobs)
    → lookup job.id t ≡ none
    → satisfies_checks (to_row job) ≡ true
    → insert_job job t ≡ (ok tt, insert job.id (to_row job) t)
unfolding insert_job
insert_good job t absent good = ground arith

pub new_job_checks :
    (id kind title : Text) (now : ℕ) → satisfies_checks (to_row (new_job id kind title now)) ≡ true
unfolding satisfies_checks to_row new_job in_unit_interval
new_job_checks id kind title now = rw (from_str-display queued) refl

pub get_present :
    (id : Text) (r : Row) (t : Jobs)
    → lookup id t ≡ some r
    → ((e : AppError) × (get id t ≡ (err e, t))) ⊎ ((job : Job) × (get id t ≡ (ok (some job), t)))
unfolding get
get_present id r t present = elim (Result-cases (from_str r.status)) [
  | inl (s, e) ↦ inr (job_of id r s, ground arith)
  | inr (x, e) ↦ inl (database, ground arith)
]

pub create_with_id-Steps :
    (is_uuid : Text → Bool) (id kind title : Text) (now : ℕ) (t : Jobs)
    → Steps t (create_with_id is_uuid id kind title now t).1
unfolding create_with_id get new_job
create_with_id-Steps is_uuid id kind title now t = elim (Bool-cases (is_uuid id)) [
  | inr bad ↦ rw bad here
  | inl good ↦ rw good (elim (Bool-cases (is_empty kind || is_empty title)) [
    | inl empty ↦ rw empty here
    | inr full ↦ rw full (elim (Option-cases (lookup id t)) [
      | inl absent ↦
          rw (absent, get)
            (rw
              (insert_good (new_job id kind title now) t absent (new_job_checks id kind title now))
              (next here (created id kind title now absent (ground arith) (ground arith))))
      | inr (r, present) ↦ elim (get_present id r t present) [
        | inl (x, h) ↦ rw h here
        | inr (job, h) ↦ rw h here
      ]
    ])
  ])
]

pub complete_checks :
    (id : Text) (r : Row) (now later : ℕ) (s : JobStatus)
    → satisfies_checks (
        updated_row
          (record (transitioned (job_of id r s) succeeded none now) {
            progress = f64_one;
            updated_at = later;
          })
          (updated_row (transitioned (job_of id r s) succeeded none now) r))
      ≡ true
unfolding satisfies_checks transitioned updated_row job_of in_unit_interval
complete_checks id r now later s = rw (from_str-display succeeded) refl

succeeds_from_running : (s : JobStatus) → valid_transition s succeeded ≡ true → ok s ≡ ok running
unfolding valid_transition
succeeds_from_running s h = ground arith

or_false : (b : Bool) → (b || false) ≡ b
or_false b = ground arith

complete-Move :
    (id : Text) (r : Row) (now later : ℕ) (s : JobStatus)
    → from_str r.status ≡ ok s
    → valid_transition s succeeded ≡ true
    → let job = transitioned (job_of id r s) succeeded none now in
      Move r
        (updated_row (record job { progress = f64_one; updated_at = later }) (updated_row job r))
unfolding job_of transitioned updated_row status_eq
complete-Move id r now later s parses v =
    rw or_false (complete r later (parses ∙ succeeds_from_running s v))

-- The second write of `succeed`, on the table that the first one left.
complete-Steps :
    (id : Text) (r : Row) (now later : ℕ) (s : JobStatus) (t : Jobs)
    → lookup id t ≡ some r
    → from_str r.status ≡ ok s
    → valid_transition s succeeded ≡ true
    → let job = transitioned (job_of id r s) succeeded none now in
      Steps t
        (store
          (record job { progress = f64_one; updated_at = later })
          (insert id (updated_row job r) t)).1
unfolding job_of transitioned
complete-Steps id r now later s t present parses v =
    let job = transitioned (job_of id r s) succeeded none now in
    let job' = record job { progress = f64_one; updated_at = later } in
    let there = lookup-insert_self id (updated_row job r) t in
    rw
      (update_good job' (insert id (updated_row job r) t) (updated_row job r) there
        (complete_checks id r now later s))
      (rw insert-insert (next here (moved id present (complete-Move id r now later s parses v))))

pub succeed-Steps : (id : Text) (now later : ℕ) (t : Jobs) → Steps t (succeed id now later t).1
unfolding succeed transition job_of transitioned
succeed-Steps id now later t = elim (required-cases id t) [
  | inl (x, h) ↦ rw h here
  | inr R ↦ rw (R.returns) (elim (Bool-cases (valid_transition R.status succeeded)) [
    | inr v ↦ rw v here
    | inl v ↦
        let job = transitioned (job_of id R.row R.status) succeeded none now in
        rw v (elim (Bool-cases (satisfies_checks (updated_row job R.row))) [
          | inr bad ↦ rw (update_refused job t R.row R.present bad) here
          | inl good ↦
              rw (update_good job t R.row R.present good)
                (complete-Steps id R.row now later R.status t R.present R.parses v)
        ])
  ])
]
