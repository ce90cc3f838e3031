-- ===== src/Jobs/Recovery/Success.antt =====
-- `fail_running_by_kind_prefix` of jobs/service.rs succeeds on every sound table.
use git_ramus.Base.Tests.{
  ℕ, ◌≡◌, refl, sym, ◌∙◌, inl, inr, Bool, true, false, ◌&&◌, none, some, List, [], ◌∷◌, arith,
  Bool-cases, and_iff, map, if◌then◌else◌,
}
use git_ramus.Base.Lists.{filter}
use git_ramus.Base.Text.{Text, text_eq, text_eq_iff, text_eq_refl, is_empty, starts_with}
use git_ramus.Base.Table.{lookup, insert, lookup-insert}
use git_ramus.Base.Keys.{Distinct, insert-Distinct}
use git_ramus.Base.Error.{ok, ok_injective}
use git_ramus.Jobs.Model.{
  Job, JobStatus, running, failed, status_eq, display, from_str, ErrorEnvelope,
}
use git_ramus.Jobs.Repository.{
  Row, Jobs, job_of, map_job, place, order_by_created, map_rows, list, updated_row,
}
use git_ramus.Jobs.Service.{
  transition, transitioned, fail_each, fail_running_by_kind_prefix, runs_with_prefix,
  valid_transition,
}
use git_ramus.Jobs.Refines.{update_good}
use git_ramus.Jobs.Invariant.{IsSound, AllSound, run-AllSound}
use git_ramus.Jobs.Outcomes.{required_present, transition_checks}
use git_ramus.Jobs.Moves.{Steps, here, next, moved, created}
use git_ramus.Jobs.Calls.{Call, run, run-Steps}
use git_ramus.Jobs.Recovery.{fail_running_ends}

place-AllSound :
    (newer : ℕ → ℕ → Bool) (i : Text) (r : Row) (t : Jobs)
    → IsSound r
    → AllSound t
    → AllSound (place newer (i, r) t)
unfolding place
place-AllSound newer i r [] sound all = (sound, tt)
place-AllSound newer i r ((j, s) ∷ t) sound (a, rest) =
    elim (Bool-cases (newer s.created_at r.created_at)) [
      | inl e ↦ rw e (a, place-AllSound newer i r t sound rest)
      | inr e ↦ rw e (sound, (a, rest))
    ]

order-AllSound :
    (newer : ℕ → ℕ → Bool) (t : Jobs) → AllSound t → AllSound (order_by_created newer t)
unfolding order_by_created
order-AllSound newer [] all = tt
order-AllSound newer ((i, r) ∷ t) (sound, all) =
    place-AllSound newer i r (order_by_created newer t) sound (order-AllSound newer t all)

lookup-place :
    (newer : ℕ → ℕ → Bool) (k i : Text) (r : Row) (t : Jobs)
    → lookup i t ≡ none
    → lookup k (place newer (i, r) t) ≡ (if text_eq i k then some r else lookup k t)
unfolding lookup place
lookup-place newer k i r [] absent = refl
lookup-place newer k i r ((j, s) ∷ t) absent =
    ground (arith, text_eq_iff i k, text_eq_iff j k, text_eq_iff j i, lookup-place newer k i r t)

place-Distinct :
    (newer : ℕ → ℕ → Bool) (i : Text) (r : Row) (t : Jobs)
    → lookup i t ≡ none
    → Distinct t
    → Distinct (place newer (i, r) t)
unfolding place
place-Distinct newer i r [] absent d = (unfold lookup in refl, tt)
place-Distinct newer i r ((j, s) ∷ t) absent (fresh, d) =
    let apart : text_eq j i ≡ false = unfold lookup in ground arith in
    let gone : lookup i t ≡ none = unfold lookup in ground arith in
    elim (Bool-cases (newer s.created_at r.created_at)) [
      | inl e ↦ rw e (
        ground (arith, lookup-place newer j i r t gone, text_eq_iff i j, text_eq_iff j i),
        place-Distinct newer i r t gone d,
      )
      | inr e ↦ rw e (absent, (fresh, d))
    ]

record Reordered (t u : Jobs) : Type 0 where
  distinct : Distinct u
  same : (k : Text) → lookup k u ≡ lookup k t

order-Reordered :
    (newer : ℕ → ℕ → Bool) (t : Jobs) → Distinct t → Reordered t (order_by_created newer t)
unfolding order_by_created lookup
order-Reordered newer [] d = record { distinct = tt; same = λ k. refl }
order-Reordered newer ((i, r) ∷ t) (fresh, d) =
    let o = order-Reordered newer t d in
    let absent = o.same i ∙ fresh in
    record {
      distinct = place-Distinct newer i r (order_by_created newer t) absent o.distinct;
      same = λ k.
          lookup-place newer k i r (order_by_created newer t) absent ∙ ground (arith, o.same k);
    }

-- A running job of the table, in good order.
abbrev Target : Jobs → Text → Type 0
Target t id = (r : Row) × (lookup id t ≡ some r) × (from_str r.status ≡ ok running) × IsSound r

abbrev Apart : Text → List Text → Type 0
Apart id [] = Unit {0}
Apart id (j ∷ ids) = (text_eq id j ≡ false) × Apart id ids

abbrev Targets : Jobs → List Text → Type 0
Targets t [] = Unit {0}
Targets t (id ∷ ids) = Target t id × Apart id ids × Targets t ids

Targets-moved :
    (t u : Jobs) (ids : List Text)
    → ((k : Text) → lookup k u ≡ lookup k t)
    → Targets u ids
    → Targets t ids
Targets-moved t u [] same g = tt
Targets-moved t u (id ∷ ids) same ((r, present, runs, sound), apart, rest) =
    ((r, sym (same id) ∙ present, runs, sound), apart, Targets-moved t u ids same rest)

absent-Apart :
    (id : Text) (t : Jobs) (ids : List Text) → lookup id t ≡ none → Targets t ids → Apart id ids
absent-Apart id t [] absent g = tt
absent-Apart id t (j ∷ ids) absent ((r, present, _, _), _, rest) =
    (ground (arith, text_eq_iff id j), absent-Apart id t ids absent rest)

Targets-cons :
    (j : Text) (s : Row) (t : Jobs) (ids : List Text)
    → Apart j ids
    → Targets t ids
    → Targets ((j, s) ∷ t) ids
Targets-cons j s t [] apart g = tt
Targets-cons j s t (id ∷ ids) (away, apart) ((r, present, runs, sound), others, rest) =
    ((r, unfold lookup in rw away present, runs, sound), others, Targets-cons j s t ids apart rest)

Targets-insert :
    (j : Text) (s : Row) (t : Jobs) (ids : List Text)
    → Apart j ids
    → Targets t ids
    → Targets (insert j s t) ids
Targets-insert j s t [] apart g = tt
Targets-insert j s t (id ∷ ids) (away, apart) ((r, present, runs, sound), others, rest) = (
  (r, lookup-insert j id s t ∙ rw away present, runs, sound),
  others,
  Targets-insert j s t ids apart rest,
)

lookup_first : (id : Text) (r : Row) (t : Jobs) → lookup id ((id, r) ∷ t) ≡ some r
unfolding lookup
lookup_first id r t = rw (text_eq_refl id) refl

status_running : (s : JobStatus) → status_eq s running ≡ true → ok s ≡ ok running
unfolding status_eq
status_running s h = ground arith

-- The identifiers that the recovery collects.
abbrev collected : Text → List Job → List Text
collected prefix jobs = map (λ job. job.id) (filter (runs_with_prefix prefix) jobs)

-- The rows of a sound table parse, and what is collected from them are running jobs.
rows-Targets :
    (prefix : Text) (t : Jobs)
    → Distinct t
    → AllSound t
    → (jobs : List Job) × (map_rows t ≡ ok jobs) × Targets t (collected prefix jobs)
unfolding map_rows map_job filter job_of
rows-Targets prefix [] d all = ([], refl, tt)
rows-Targets prefix ((j, s) ∷ t) (fresh, d) (sound, all) =
    let (jobs, e, targets) = rows-Targets prefix t d all in
    let apart = absent-Apart j t (collected prefix jobs) fresh targets in
    let more = Targets-cons j s t (collected prefix jobs) apart targets in
    (
      job_of j s sound.status ∷ jobs,
      rw (sound.parses, e) refl,
      elim (Bool-cases (status_eq sound.status running && starts_with prefix s.kind)) [
        | inr other ↦ rw other more
        | inl runs ↦
            let running_now = status_running sound.status (((and_iff _ _).0 runs).0) in
            rw runs ((s, lookup_first j s t, sound.parses ∙ running_now, sound), apart, more)
      ],
    )

transition-running :
    (id : Text) (e : ErrorEnvelope) (now : ℕ) (t : Jobs) (r : Row)
    → lookup id t ≡ some r
    → from_str r.status ≡ ok running
    → IsSound r
    → (job : Job) × (r' : Row) × (transition id failed (some e) now t ≡ (ok job, insert id r' t))
unfolding transition transitioned job_of valid_transition
transition-running id e now t r present runs sound =
    let same : sound.status ≡ running = ok_injective (sym sound.parses ∙ runs) in
    let job = transitioned (job_of id r sound.status) failed (some e) now in
    let valid : valid_transition sound.status failed ≡ true = rw same refl in
    let checks = transition_checks id t present sound failed (some e) now in
    (
      job,
      updated_row job r,
      rw (required_present id t present sound)
          (rw valid (rw (update_good job t r present checks) refl)),
    )

fail_each-succeeds :
    (e : ErrorEnvelope) (now : ℕ) (ids : List Text) (t : Jobs)
    → Targets t ids
    → (jobs : List Job) × (u : Jobs) × (fail_each e now ids t ≡ (ok jobs, u))
unfolding fail_each
fail_each-succeeds e now [] t g = ([], t, refl)
fail_each-succeeds e now (id ∷ ids) t ((r, present, runs, sound), apart, rest) =
    let (job, r', first) = transition-running id e now t r present runs sound in
    let (jobs, u, later) =
      fail_each-succeeds e now ids (insert id r' t) (Targets-insert id r' t ids apart rest) in
    (job ∷ jobs, u, rw first (rw later refl))

-- On a table of sound rows in which no identifier stands twice, and for a prefix that is not empty,
-- `fail_running_by_kind_prefix` succeeds, and then every job that was running and whose kind starts
-- with the prefix has status "failed" and the given error, whatever the order in which the database
-- lists the jobs.
pub fail_running_succeeds :
    (newer : ℕ → ℕ → Bool) (prefix : Text) (e : ErrorEnvelope) (now : ℕ) (t : Jobs)
    → is_empty prefix ≡ false
    → Distinct t
    → AllSound t
    → (jobs : List Job) × (u : Jobs) × (fail_running_by_kind_prefix newer prefix e now t
        ≡ (ok jobs, u))
      × ((id : Text) (r : Row)
          → lookup id t ≡ some r
          → from_str r.status ≡ ok running
          → starts_with prefix r.kind ≡ true
          → (s : Row) × (lookup id u ≡ some s)
            × (s.status ≡ display failed)
            × (s.error_json ≡ some e))
unfolding fail_running_by_kind_prefix list
fail_running_succeeds newer prefix e now t full d all =
    let o = order-Reordered newer t d in
    let (listed, rows, targets) =
      rows-Targets prefix (order_by_created newer t) o.distinct (order-AllSound newer t all) in
    let ids = collected prefix listed in
    let (jobs, u, done) =
      fail_each-succeeds e now ids t
        (Targets-moved t (order_by_created newer t) ids o.same targets) in
    let ran : fail_running_by_kind_prefix newer prefix e now t ≡ (ok jobs, u) =
      rw full (rw rows done) in
    (jobs, u, ran, λ id r. fail_running_ends newer prefix e now t id ran)

Steps-Distinct : {t u : Jobs} → Steps t u → Distinct t → Distinct u
Steps-Distinct here d = d
Steps-Distinct (next {u = u} steps (moved id {r' = r'} present m)) d =
    insert-Distinct id r' u (Steps-Distinct steps d)
Steps-Distinct (next {u = u} steps (created id kind title now absent k n)) d =
    insert-Distinct id _ u (Steps-Distinct steps d)

-- Whatever calls of the job service ran on an empty database before, the recovery for a prefix that is
-- not empty succeeds, and then every job that was running and whose kind starts with the prefix has
-- status "failed" and the given error.
pub recovery_after_calls :
    (is_uuid : Text → Bool) (cs : List Call) (newer : ℕ → ℕ → Bool) (prefix : Text)
    (e : ErrorEnvelope) (now : ℕ)
    → is_empty prefix ≡ false
    → (jobs : List Job) × (u : Jobs) × (fail_running_by_kind_prefix newer prefix e now
          (run is_uuid cs [])
        ≡ (ok jobs, u))
      × ((id : Text) (r : Row)
          → lookup id (run is_uuid cs []) ≡ some r
          → from_str r.status ≡ ok running
          → starts_with prefix r.kind ≡ true
          → (s : Row) × (lookup id u ≡ some s)
            × (s.status ≡ display failed)
            × (s.error_json ≡ some e))
recovery_after_calls is_uuid cs newer prefix e now full =
    fail_running_succeeds newer prefix e now (run is_uuid cs []) full
      (Steps-Distinct (run-Steps is_uuid cs []) tt) (run-AllSound is_uuid cs [] tt)
