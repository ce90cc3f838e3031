-- ===== src/Jobs/Lifecycle.antt =====
-- What holds of the rows of jobs/service.rs over every sequence of calls.
use git_ramus.Base.Tests.{
  ◌≡◌, refl, ◌∙◌, inl, inr, Bool, true, not, ◌||◌, none, some, List, arith, Bool-cases,
}
use mathlib.Core.Path.{subst}
use git_ramus.Base.Text.{Text, text_eq, text_eq_iff}
use git_ramus.Base.Table.{lookup, lookup-insert}
use git_ramus.Base.Error.{ok}
use git_ramus.Jobs.Model.{JobStatus, from_str}
use git_ramus.Jobs.Repository.{Row, Jobs}
use git_ramus.Jobs.Moves.{
  Move, advance, complete, request, report, Step, moved, created, Steps, here, next, has_ended,
  Legal-from_active,
}
use git_ramus.Jobs.Calls.{Call, run, run-Steps}

-- The row of one identifier after a step: still there, and unmoved or moved once.
record After (P : Row → Row → Type 0) (id : Text) (r : Row) (u : Jobs) : Type 0 where
  row : Row
  present : lookup id u ≡ some row
  related : P r row

one_row :
    (j id : Text) (t : Jobs) {s r : Row}
    → text_eq j id ≡ true
    → lookup j t ≡ some s
    → lookup id t ≡ some r
    → s ≡ r
one_row j id t e there present = ground (arith, text_eq_iff j id)

not_absent :
    (j id : Text) (t : Jobs) {r : Row}
    → text_eq j id ≡ true
    → lookup j t ≡ none
    → lookup id t ≡ some r
    → ⊥
not_absent j id t e there present = ground (arith, text_eq_iff j id)

module _ (P : Row → Row → Type 0) (same : (r : Row) → P r r)
    (chain : (r s t : Row) → P r s → P s t → P r t) (move : (r s : Row) → Move r s → P r s) where
  Step-After : {t u : Jobs} (id : Text) (r : Row) → Step t u → lookup id t ≡ some r → After P id r u
  Step-After {t} id r (moved j {r = s} {r' = s'} there m) present =
      elim (Bool-cases (text_eq j id)) [
        | inl e ↦ record {
          row = s';
          present = rw lookup-insert (rw e);
          related = subst (λ x. P x s') (one_row j id t e there present) (move s s' m);
        }
        | inr e ↦ record { row = r; present = rw lookup-insert (rw e present); related = same r }
      ]
  Step-After {t} id r (created j kind title now absent k l) present =
      elim (Bool-cases (text_eq j id)) [
        | inl e ↦ absurd (not_absent j id t e absent present)
        | inr e ↦ record { row = r; present = rw lookup-insert (rw e present); related = same r }
      ]

  Steps-After :
      {t u : Jobs} (id : Text) (r : Row) → Steps t u → lookup id t ≡ some r → After P id r u
  Steps-After id r here present = record { row = r; present = present; related = same r }
  Steps-After id r (next b s) present =
      let a = Steps-After id r b present in
      let c = Step-After id a.row s a.present in
      record { row = c.row; present = c.present; related = chain r a.row c.row a.related c.related }

-- A job that has ended keeps its row, every column of it, whatever is called later.
abbrev Frozen : Row → Row → Type 0
Frozen r s = (e : JobStatus) → from_str r.status ≡ ok e → has_ended e ≡ true → s ≡ r

Frozen-trans : (r s t : Row) → Frozen r s → Frozen s t → Frozen r t
Frozen-trans r s t f g e parses ended =
    let same = f e parses ended in g e (rw same parses) ended ∙ same

Frozen-Move : (r s : Row) → Move r s → Frozen r s
Frozen-Move _ _ (advance r s target x now parses v _) e p ended =
    ground (arith, Legal-from_active v)
Frozen-Move _ _ (complete r now parses) e p ended = ground arith
Frozen-Move _ _ (request r s now parses v) e p ended = ground arith
Frozen-Move _ _ (report r p now parses v) e q ended = ground arith

pub Steps-frozen :
    {t u : Jobs} (id : Text) {r : Row} {e : JobStatus}
    → Steps t u
    → lookup id t ≡ some r
    → from_str r.status ≡ ok e
    → has_ended e ≡ true
    → lookup id u ≡ some r
Steps-frozen id {r} {e} steps present parses ended =
    let a = Steps-After Frozen (λ r e p v. refl) Frozen-trans Frozen-Move id r steps present in
    rw (a.present, a.related e parses ended) refl

module _ (is_uuid : Text → Bool) (cs : List Call) (t : Jobs) (id : Text) {r : Row} where
  -- If the row of a job says that it has succeeded, failed or been canceled, no sequence of calls
  -- of the job service changes any column of it.
  pub terminal_frozen :
      {e : JobStatus}
      → lookup id t ≡ some r
      → from_str r.status ≡ ok e
      → has_ended e ≡ true
      → lookup id (run is_uuid cs t) ≡ some r
  terminal_frozen = Steps-frozen id (run-Steps is_uuid cs t)

-- What stays of a job while it lives, and the request for cancellation once made.
record Keeps (r s : Row) : Type 0 where
  kind : s.kind ≡ r.kind
  title : s.title ≡ r.title
  created_at : s.created_at ≡ r.created_at
  requested : (not r.cancel_requested || s.cancel_requested) ≡ true

Keeps-trans : (r s t : Row) → Keeps r s → Keeps s t → Keeps r t
Keeps-trans r s t a b = ground arith

Keeps-Move : (r s : Row) → Move r s → Keeps r s
Keeps-Move _ _ (advance r s target x now parses v _) = ground arith
Keeps-Move _ _ (complete r now parses) = ground arith
Keeps-Move _ _ (request r s now parses v) = ground arith
Keeps-Move _ _ (report r p now parses v) = ground arith

module _ (is_uuid : Text → Bool) (cs : List Call) (t : Jobs) (id : Text) {r : Row} where
  -- No sequence of calls removes a job or changes its kind, its title or the time of its creation,
  -- and a request for its cancellation that is recorded stays recorded.
  pub job_kept :
      lookup id t ≡ some r
      → (s : Row) × (lookup id (run is_uuid cs t) ≡ some s)
        × (s.kind ≡ r.kind)
        × (s.title ≡ r.title)
        × (s.created_at ≡ r.created_at)
        × ((not r.cancel_requested || s.cancel_requested) ≡ true)
  job_kept present =
      let a =
        Steps-After Keeps (λ r. ground arith) Keeps-trans Keeps-Move id r (run-Steps is_uuid cs t)
          present in
      let k = a.related in (a.row, a.present, k.kind, k.title, k.created_at, k.requested)
