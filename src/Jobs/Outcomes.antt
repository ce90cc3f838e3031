-- ===== src/Jobs/Outcomes.antt =====
-- What each method of jobs/service.rs answers, by the state of the job that it is called for.
use git_ramus.Base.Tests.{
  ℕ, ◌≡◌, refl, ◌∙◌, inl, inr, Bool, true, false, ◌&&◌, ◌||◌, Option, none, some, arith, Bool-cases,
}
use git_ramus.Base.Text.{Text, codes, is_empty}
use git_ramus.Base.Table.{lookup, insert, lookup-insert_self}
use git_ramus.Base.Error.{AppError, ok, err, is_ok, invalid_input}
use git_ramus.Jobs.Model.{
  Job, JobStatus, queued, running, succeeded, failed, canceled, status_eq, F64, f64_one,
  in_unit_interval, ErrorEnvelope,
}
use git_ramus.Jobs.Repository.{
  Row, Jobs, satisfies_checks, to_row, job_of, map_job, get, updated_row,
}
use git_ramus.Jobs.Service.{
  required, valid_transition, transitioned, transition, create_with_id, start, succeed, fail,
  cancel, is_active, request_cancel, set_progress, store, new_job,
}
use git_ramus.Jobs.Moves.{from_str-display}
use git_ramus.Jobs.Refines.{update_good, insert_good, new_job_checks, complete_checks, get_present}
use git_ramus.Jobs.Invariant.{IsSound}

edges :
    ((s : JobStatus) → valid_transition s running ≡ status_eq s queued)
    × ((s : JobStatus) → valid_transition s succeeded ≡ status_eq s running)
    × ((s : JobStatus) → valid_transition s failed ≡ status_eq s running)
    × ((s : JobStatus) → valid_transition s canceled ≡ is_active s)
unfolding valid_transition status_eq is_active
edges = (λ s. ground arith, λ s. ground arith, λ s. ground arith, λ s. ground arith)

module _ (id : Text) (t : Jobs) {r : Row} (present : lookup id t ≡ some r) (i : IsSound r) where
  pub required_present : required id t ≡ (ok (job_of id r i.status), t)
  unfolding required get map_job
  required_present = rw (present, get) (rw (i.parses) refl)

  pub transition_checks :
      (target : JobStatus) (e : Option ErrorEnvelope) (now : ℕ)
      → satisfies_checks (updated_row (transitioned (job_of id r i.status) target e now) r) ≡ true
  unfolding satisfies_checks updated_row transitioned job_of
  transition_checks target e now = rw (from_str-display target) (i.in_unit)

  transition-is_ok :
      (target : JobStatus) (e : Option ErrorEnvelope) (now : ℕ)
      → is_ok (transition id target e now t).0 ≡ valid_transition i.status target
  unfolding transition job_of transitioned
  transition-is_ok target e now = elim (Bool-cases (valid_transition i.status target)) [
    | inr v ↦ rw required_present (rw v refl)
    | inl v ↦ rw required_present (
        rw v (
          rw
            (update_good (transitioned (job_of id r i.status) target e now) t r present
              (transition_checks target e now))
            refl))
  ]

  store-is_ok :
      (job : Job)
      → job.id ≡ id
      → job.status ≡ i.status
      → in_unit_interval job.progress ≡ true
      → is_ok (store job t).0 ≡ true
  unfolding satisfies_checks updated_row
  store-is_ok job same status inside =
      let good : satisfies_checks (updated_row job r) ≡ true =
        rw (from_str-display job.status) inside in
      rw (update_good job t r (rw same present) good) refl

  succeed-is_ok :
      (now later : ℕ) → is_ok (succeed id now later t).0 ≡ valid_transition i.status succeeded
  unfolding succeed transition job_of transitioned
  succeed-is_ok now later = elim (Bool-cases (valid_transition i.status succeeded)) [
    | inr v ↦ rw required_present (rw v refl)
    | inl v ↦
        let job = transitioned (job_of id r i.status) succeeded none now in
        rw required_present (
          rw v (
            rw (update_good job t r present (transition_checks succeeded none now)) (
              rw
                (update_good (record job { progress = f64_one; updated_at = later })
                  (insert id (updated_row job r) t) (updated_row job r)
                  (lookup-insert_self id (updated_row job r) t)
                  (complete_checks id r now later i.status))
                refl)))
  ]

  request_cancel-is_ok : (now : ℕ) → is_ok (request_cancel id now t).0 ≡ true
  unfolding request_cancel job_of
  request_cancel-is_ok now = elim (Bool-cases (is_active i.status)) [
    | inr v ↦ rw required_present (rw v refl)
    | inl v ↦ rw required_present (
        rw v (elim (Bool-cases r.cancel_requested) [
          | inl asked ↦ rw asked refl
          | inr fresh ↦ rw fresh (
              store-is_ok
                (record (job_of id r i.status) { cancel_requested = true; updated_at = now }) refl
                refl i.in_unit)
        ]))
  ]

  set_progress-is_ok :
      (p : F64) (now : ℕ)
      → is_ok (set_progress id p now t).0 ≡ (in_unit_interval p && status_eq i.status running)
  unfolding set_progress job_of
  set_progress-is_ok p now = elim (Bool-cases (in_unit_interval p)) [
    | inr out ↦ rw out refl
    | inl inside ↦ rw inside (
        rw required_present (elim (Bool-cases (status_eq i.status running)) [
          | inr v ↦ rw v refl
          | inl v ↦ rw v (
              store-is_ok (record (job_of id r i.status) { progress = p; updated_at = now }) refl
                refl inside)
        ]))
  ]

  -- A method that changes a job succeeds exactly when the job's status allows it: `start` for a
  -- queued job, `succeed`, `fail` and `set_progress` with a progress between 0 and 1 for a running
  -- one, `cancel` for a queued or running one, and `request_cancel` always. The row is sound.
  pub method_accepts :
      (e : ErrorEnvelope) (p : F64) (now later : ℕ)
      → (is_ok (start id now t).0 ≡ status_eq i.status queued)
        × (is_ok (succeed id now later t).0 ≡ status_eq i.status running)
        × (is_ok (fail id e now t).0 ≡ status_eq i.status running)
        × (is_ok (cancel id now t).0 ≡ is_active i.status)
        × (is_ok (set_progress id p now t).0 ≡ (in_unit_interval p && status_eq i.status running))
        × (is_ok (request_cancel id now t).0 ≡ true)
  method_accepts e p now later = (
    unfold start in (transition-is_ok running none now ∙ edges.0 i.status),
    succeed-is_ok now later ∙ edges.1 i.status,
    unfold fail in (transition-is_ok failed (some e) now ∙ edges.2 i.status),
    unfold cancel in (transition-is_ok canceled none now ∙ edges.3 i.status),
    set_progress-is_ok p now,
    request_cancel-is_ok now,
  )

create_with_id-fresh :
    (is_uuid : Text → Bool) (id kind title : Text) (now : ℕ) (t : Jobs)
    → is_uuid id ≡ true
    → is_empty kind ≡ false
    → is_empty title ≡ false
    → lookup id t ≡ none
    → create_with_id is_uuid id kind title now t
      ≡ (ok (new_job id kind title now), insert id (to_row (new_job id kind title now)) t)
unfolding create_with_id get new_job
create_with_id-fresh is_uuid id kind title now t uuid k l absent =
    rw (uuid, k, l)
      (rw (absent, get)
        (rw (insert_good (new_job id kind title now) t absent (new_job_checks id kind title now))
          refl))

get_inserted :
    (id kind title : Text) (now : ℕ) (t : Jobs)
    → let u = insert id (to_row (new_job id kind title now)) t in
      get id u ≡ (ok (some (new_job id kind title now)), u)
unfolding get map_job to_row new_job
get_inserted id kind title now t = rw (lookup-insert_self, get) (rw (from_str-display queued) refl)

-- Under a UUID that is free and with a kind and a title that are not empty, `create_with_id` returns
-- the new job, queued, with no progress and no request for cancellation, and `get` then gives back
-- that very job.
pub get-create_with_id :
    (is_uuid : Text → Bool) (id kind title : Text) (now : ℕ) (t : Jobs)
    → is_uuid id ≡ true
    → is_empty kind ≡ false
    → is_empty title ≡ false
    → lookup id t ≡ none
    → let (answer, u) = create_with_id is_uuid id kind title now t in
      (answer ≡ ok (new_job id kind title now))
      × (get id u ≡ (ok (some (new_job id kind title now)), u))
get-create_with_id is_uuid id kind title now t uuid k l absent =
    rw (create_with_id-fresh is_uuid id kind title now t uuid k l absent)
      (refl, get_inserted id kind title now t)

-- `create_with_id` with an identifier that is taken fails and changes nothing.
pub create_with_id-taken :
    (is_uuid : Text → Bool) (id kind title : Text) (now : ℕ) (t : Jobs) {r : Row}
    → lookup id t ≡ some r
    → (e : AppError) × (create_with_id is_uuid id kind title now t ≡ (err e, t))
unfolding create_with_id
create_with_id-taken is_uuid id kind title now t {r} present = elim (Bool-cases (is_uuid id)) [
  | inr bad ↦ (invalid_input (codes "job id must be a UUID"), rw bad refl)
  | inl good ↦ elim (Bool-cases (is_empty kind || is_empty title)) [
    | inl empty ↦ (invalid_input (codes "job kind and title are required"), rw good (rw empty refl))
    | inr full ↦ elim (get_present id r t present) [
      | inl (e, h) ↦ (e, rw good (rw full (rw h refl)))
      | inr (job, h) ↦
          (invalid_input (codes "job id already exists"), rw good (rw full (rw h refl)))
    ]
  ]
]
