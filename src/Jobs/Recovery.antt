-- ===== src/Jobs/Recovery.antt =====
-- `fail_running_by_kind_prefix` of jobs/service.rs, which a restart calls for the jobs that the
-- process left behind.
pub mod Success
use mathlib.Core.Path.{subst}
use git_ramus.Base.Tests.{
  ℕ, ◌≡◌, refl, sym, ap, ◌∙◌, ◌⊎◌, inl, inr, Bool, true, Option, some, List, [], ◌∷◌, arith,
  Bool-cases, map,
}
use git_ramus.Base.Lists.{filter}
use git_ramus.Base.Text.{Text, text_eq, text_eq_iff, is_empty, starts_with}
use git_ramus.Base.Table.{lookup, lookup-insert_self}
use git_ramus.Base.Error.{Result, ok, Result-cases, and_then-eq-ok, ok_injective, bind-eq-ok}
use git_ramus.Jobs.Model.{
  Job, JobStatus, running, failed, status_eq, display, from_str, ErrorEnvelope,
}
use git_ramus.Jobs.Repository.{
  Row, Jobs, satisfies_checks, job_of, map_job, place, order_by_created, map_rows, list,
  updated_row,
}
use git_ramus.Jobs.Service.{
  transition, transitioned, fail_each, fail_running_by_kind_prefix, runs_with_prefix, is_active,
  valid_transition,
}
use git_ramus.Jobs.Moves.{Steps, from_str-display, required-cases}
use git_ramus.Jobs.Refines.{fail_each-Steps, update_good, update_refused}
use git_ramus.Jobs.Lifecycle.{Steps-frozen}

abbrev HasRow : Text → Row → Jobs → Type 0
HasRow id r [] = ⊥
HasRow id r ((j, s) ∷ t) = ((j ≡ id) × (s ≡ r)) ⊎ HasRow id r t

abbrev HasId : Text → List Text → Type 0
HasId id [] = ⊥
HasId id (j ∷ ids) = (j ≡ id) ⊎ HasId id ids

abbrev HasJob : Job → List Job → Type 0
HasJob job [] = ⊥
HasJob job (j ∷ jobs) = (j ≡ job) ⊎ HasJob job jobs

lookup-HasRow : (id : Text) (t : Jobs) {r : Row} → lookup id t ≡ some r → HasRow id r t
unfolding lookup
lookup-HasRow id [] h = cc
lookup-HasRow id ((j, s) ∷ t) {r} h = elim (Bool-cases (text_eq j id)) [
  | inl e ↦ inl ((text_eq_iff j id).0 e, ground arith)
  | inr e ↦ inr (lookup-HasRow id t (rw e at h))
]

place-HasRow :
    (newer : ℕ → ℕ → Bool) (id : Text) (r : Row) (j : Text) (s : Row) (t : Jobs)
    → HasRow id r ((j, s) ∷ t)
    → HasRow id r (place newer (j, s) t)
unfolding place
place-HasRow newer id r j s [] h = h
place-HasRow newer id r j s ((k, q) ∷ t) h = elim (Bool-cases (newer q.created_at s.created_at)) [
  | inr e ↦ rw e h
  | inl e ↦ rw e (elim h [
    | inl x ↦ inr (place-HasRow newer id r j s t (inl x))
    | inr y ↦ elim y [ inl x ↦ inl x | inr z ↦ inr (place-HasRow newer id r j s t (inr z)) ]
  ])
]

order-HasRow :
    (newer : ℕ → ℕ → Bool) (id : Text) (r : Row) (t : Jobs)
    → HasRow id r t
    → HasRow id r (order_by_created newer t)
unfolding order_by_created
order-HasRow newer id r [] h = h
order-HasRow newer id r ((j, s) ∷ t) (inl x) = place-HasRow newer id r j s _ (inl x)
order-HasRow newer id r ((j, s) ∷ t) (inr x) =
    place-HasRow newer id r j s _ (inr (order-HasRow newer id r t x))

map_job-eq-ok :
    (id : Text) (r : Row) {job : Job}
    → map_job id r ≡ ok job
    → (s : JobStatus) × (from_str r.status ≡ ok s) × (job ≡ job_of id r s)
unfolding map_job
map_job-eq-ok id r h = elim (Result-cases (from_str r.status)) [
  | inl (s, e) ↦ (s, e, ground arith)
  | inr (x, e) ↦ ground arith
]

map_rows-HasJob :
    (t : Jobs) (id : Text) (r : Row) {jobs : List Job}
    → map_rows t ≡ ok jobs
    → HasRow id r t
    → (s : JobStatus) × (from_str r.status ≡ ok s) × HasJob (job_of id r s) jobs
unfolding map_rows
map_rows-HasJob [] id r h m = absurd m
map_rows-HasJob ((j, q) ∷ t) id r h m =
    let (job, first, h') = and_then-eq-ok (map_job j q) _ h in
    let (later, rest, e) = and_then-eq-ok (map_rows t) _ h' in
    rw (← ok_injective e) (elim m [
      | inl (same_id, same_row) ↦
          let (s, parses, is) = map_job-eq-ok j q first in
          (s, rw (← same_row) parses, inl (rw (← same_id, ← same_row) is))
      | inr n ↦ let (s, parses, has) = map_rows-HasJob t id r rest n in (s, parses, inr has)
    ])

filter-HasId :
    (prefix : Text) (job : Job) (jobs : List Job)
    → runs_with_prefix prefix job ≡ true
    → HasJob job jobs
    → HasId job.id (map (λ j. j.id) (filter (runs_with_prefix prefix) jobs))
unfolding filter
filter-HasId prefix job [] runs m = m
filter-HasId prefix job (j ∷ jobs) runs m = elim m [
  | inl same ↦
      let e : runs_with_prefix prefix j ≡ true =
        subst (λ x. runs_with_prefix prefix x ≡ true) (sym same) runs in
      rw e (inl (ap (λ (x : Job). x.id) same))
  | inr n ↦ elim (Bool-cases (runs_with_prefix prefix j)) [
    | inl e ↦ rw e (inr (filter-HasId prefix job jobs runs n))
    | inr e ↦ rw e (filter-HasId prefix job jobs runs n)
  ]
]

-- The row that an accepted transition leaves.
transition-row :
    (id : Text) (target : JobStatus) (e : Option ErrorEnvelope) (now : ℕ) (t : Jobs) {job : Job}
    {u : Jobs}
    → transition id target e now t ≡ (ok job, u)
    → (r : Row) × (lookup id u ≡ some r) × (r.status ≡ display target) × (r.error_json ≡ e)
unfolding transition job_of transitioned updated_row
transition-row id target e now t {job} {u} h = elim (required-cases id t) [
  | inl (x, g) ↦ let k = rw g at h in cc
  | inr R ↦
      let k = rw (R.returns) at h in
      elim (Bool-cases (valid_transition R.status target)) [
        | inr v ↦ let l = rw v at k in cc
        | inl v ↦
            let job' = transitioned (job_of id R.row R.status) target e now in
            let l = rw v at k in
            elim (Bool-cases (satisfies_checks (updated_row job' R.row))) [
              | inr bad ↦ let m = rw (update_refused job' t R.row R.present bad) at l in cc
              | inl good ↦
                  let m = rw (update_good job' t R.row R.present good) at l in
                  (
                    updated_row job' R.row,
                    rw (← ap (λ (x : Result Job × Jobs). x.1) m)
                        (lookup-insert_self id (updated_row job' R.row) t),
                    refl,
                    refl,
                  )
            ]
      ]
]

fail_each-row :
    (e : ErrorEnvelope) (now : ℕ) (ids : List Text) (id : Text) (t : Jobs) {jobs : List Job}
    {u : Jobs}
    → fail_each e now ids t ≡ (ok jobs, u)
    → HasId id ids
    → (r : Row) × (lookup id u ≡ some r) × (r.status ≡ display failed) × (r.error_json ≡ some e)
unfolding fail_each
fail_each-row e now [] id t h m = absurd m
fail_each-row e now (i ∷ ids) id t {jobs} {u} h m =
    let (job, v, first, h') = bind-eq-ok (transition i failed (some e) now t) _ h in
    let (later, w, rest, h'') = bind-eq-ok (fail_each e now ids v) _ h' in
    let same : w ≡ u = ap (λ (x : Result (List Job) × Jobs). x.1) h'' in
    rw (← same) (elim m [
      | inr n ↦ fail_each-row e now ids id v rest n
      | inl eq ↦
          let (r, present, status, error) = transition-row i failed (some e) now t first in
          let steps : Steps v w =
            subst (Steps v) (ap (λ (x : Result (List Job) × Jobs). x.1) rest)
              (fail_each-Steps e now ids v) in
          let parses : from_str r.status ≡ ok failed = rw status (from_str-display failed) in
          (
            r,
            rw (← eq) (Steps-frozen i steps present parses (unfold is_active in refl)),
            status,
            error,
          )
    ])

job_of_runs :
    (prefix id : Text) (r : Row) (s : JobStatus)
    → ok s ≡ ok running
    → starts_with prefix r.kind ≡ true
    → runs_with_prefix prefix (job_of id r s) ≡ true
unfolding job_of status_eq
job_of_runs prefix id r s h k = ground arith

-- When `fail_running_by_kind_prefix` returns without an error, every job that was running and whose
-- kind starts with the prefix has status "failed" and the given error, whatever the order in which
-- the database lists the jobs.
pub fail_running_ends :
    (newer : ℕ → ℕ → Bool) (prefix : Text) (e : ErrorEnvelope) (now : ℕ) (t : Jobs) (id : Text)
    {r : Row} {jobs : List Job} {u : Jobs}
    → fail_running_by_kind_prefix newer prefix e now t ≡ (ok jobs, u)
    → lookup id t ≡ some r
    → from_str r.status ≡ ok running
    → starts_with prefix r.kind ≡ true
    → (s : Row) × (lookup id u ≡ some s) × (s.status ≡ display failed) × (s.error_json ≡ some e)
unfolding fail_running_by_kind_prefix list job_of
fail_running_ends newer prefix e now t id {r} h present runs starts =
    elim (Bool-cases (is_empty prefix)) [
      | inl empty ↦ let k = rw empty at h in cc
      | inr full ↦
          let k = rw full at h in
          let (all, v, listed, k') = bind-eq-ok (list newer t) _ k in
          let rows : map_rows (order_by_created newer t) ≡ ok all =
            ap (λ (x : Result (List Job) × Jobs). x.0) listed in
          let (s, parses, has) =
            map_rows-HasJob (order_by_created newer t) id r rows
              (order-HasRow newer id r t (lookup-HasRow id t present)) in
          fail_each-row e now _ id v k' (
            filter-HasId prefix (job_of id r s) all
              (job_of_runs prefix id r s (sym parses ∙ runs) starts) has)
    ]
