-- ===== src/Transport/Clones/Recovery/Keeping.antt =====
-- What the recovery of clone operations in git/transport/clone.rs leaves as it was, whatever the file
-- system does.
use git_ramus.Base.Tests.{
  ◌≡◌, ◌⊎◌, refl, Bool, true, Option, none, some, List, [], ◌∷◌, sym, ◌∙◌, ap, if-eq, inl, inr,
  Bool-cases, ◌&&◌, ◌||◌, not,
}
use mathlib.Core.Path.{subst}
use git_ramus.Base.Lists.{any}
use git_ramus.Base.Text.{Text, text_eq, text_eq_iff}
use git_ramus.Base.Table.{lookup, lookup-insert}
use git_ramus.Base.Error.{Result, ok, err, M, bind_case, is_ok}
use git_ramus.Jobs.Model.{Job}
use git_ramus.Jobs.Repository.{list}
use git_ramus.Jobs.Moves.{Steps, here, Steps-trans}
use git_ramus.Jobs.Refines.{fail-Steps}
use git_ramus.Transport.Clones.{
  CloneDb, CloneOperation, failed, at_stage, update_clone_stage, update_operation, update_found,
  get_clone_operation, list_incomplete_clone_operations,
}
use git_ramus.Transport.Clones.Files.{Files, is_found}
use git_ramus.Transport.Clones.Paths.{
  ClonePaths, ExistingDirectory, gone, safe, from_operation, safe_existing_directory,
  validate_marker,
}
use git_ramus.Transport.Clones.Recovery.{
  World, Surroundings, on_files, on_clones, on_jobs, end_job, interrupt, is_unsafe, decide,
  classify_paths, classify_recovery_operation, classify_each, classify_incomplete_recovery,
  is_running,
}

-- An operation that is the same, or the same but at the stage of a failure.
abbrev IsEnded : CloneOperation → CloneOperation → Type 0
IsEnded o p = (at : Text) × (p ≡ at_stage failed at o)

abbrev IsLeft : Text → CloneOperation → CloneDb → Type 0
IsLeft id o db =
    (p : CloneOperation) × (get_clone_operation id db ≡ some p) × ((p ≡ o) ⊎ IsEnded o p)

IsLeft-trans :
    (id : Text) (o p : CloneOperation) (db : CloneDb)
    → (p ≡ o) ⊎ IsEnded o p
    → IsLeft id p db
    → IsLeft id o db
IsLeft-trans id o p db (inl e) left = subst (λ x. IsLeft id x db) e left
IsLeft-trans id o p db (inr (at, e)) (q, found, inl f) = (q, found, inr (at, f ∙ e))
IsLeft-trans id o p db (inr (at, e)) (q, found, inr (later, f)) =
    (q, found, inr (later, f ∙ ap (at_stage failed later) e))

-- What a step of the recovery keeps.
record IsKept {F : Type 0} (w v : World F) : Type 0 where
  operations :
      (id : Text) (o : CloneOperation)
      → get_clone_operation id w.clones ≡ some o
      → IsLeft id o v.clones
  life_cycle : Steps w.jobs v.jobs

IsKept-refl : {F : Type 0} (w : World F) → IsKept w w
IsKept-refl w = record { operations = λ id o h. (o, h, inl refl); life_cycle = here }

IsKept-trans : {F : Type 0} (w v u : World F) → IsKept w v → IsKept v u → IsKept w u
IsKept-trans w v u first second = record {
  operations = λ id o h.
      let (p, found, same) = first.operations id o h in
      IsLeft-trans id o p u.clones same (second.operations id p found);
  life_cycle = Steps-trans first.life_cycle second.life_cycle;
}

-- A step after another, which runs only if the first succeeds.
bind-IsKept :
    {F A B : Type 0} (w : World F) (m : Result A × World F) (f : A → M (World F) B)
    → IsKept w m.1
    → ((a : A) (v : World F) → IsKept v (f a v).1)
    → IsKept w (bind_case m f).1
bind-IsKept w (ok a, v) f first second = IsKept-trans w v (f a v).1 first (second a v)
bind-IsKept w (err e, v) f first second = first

fail_found-IsLeft :
    (j at : Text) (row : Option CloneOperation) (db : CloneDb) (id : Text) (o : CloneOperation)
    → lookup j db.operations ≡ row
    → get_clone_operation id db ≡ some o
    → IsLeft id o (update_found j (at_stage failed at) row db).1
unfolding get_clone_operation
fail_found-IsLeft j at none db id o found h = (o, h, inl refl)
fail_found-IsLeft j at (some q) db id o found h =
    elim (if-eq (text_eq j id) _ _
      (sym (lookup-insert j id (at_stage failed at q) db.operations))) [
        | inl t ↦
            let same : j ≡ id = (text_eq_iff j id).0 t.0 in
            let both : q ≡ o = cc in
            (at_stage failed at q, sym t.1, inr (at, ap (at_stage failed at) both))
        | inr u ↦ (o, sym u.1 ∙ h, inl refl)
      ]

module _ {F : Type 0} (fs : Files F) (env : Surroundings) where
  remove-IsKept : (path : Text) (w : World F) → IsKept w (on_files (fs.remove_file path) w).1
  remove-IsKept path w = record { operations = λ id o h. (o, h, inl refl); life_cycle = here }

  stage-IsKept :
      (id at : Text) (w : World F) → IsKept w (on_clones (update_clone_stage id failed at) w).1
  unfolding update_clone_stage update_operation
  stage-IsKept id at w = record {
    operations =
        λ j o h. fail_found-IsLeft id at (lookup id w.clones.operations) w.clones j o refl h;
    life_cycle = here;
  }

  list-IsKept : (w : World F) → IsKept w (on_jobs (list env.newer) w).1
  unfolding list
  list-IsKept w = record { operations = λ id o h. (o, h, inl refl); life_cycle = here }

  end_job-IsKept :
      (o : CloneOperation) (jobs : List Job) (w : World F) → IsKept w (end_job fs env o jobs w).1
  end_job-IsKept o jobs w = elim (Bool-cases (any (is_running o.job_id) jobs)) [
    | inr e ↦ rw e (IsKept-refl w)
    | inl e ↦ rw e (record {
      operations = λ id p h. (p, h, inl refl);
      life_cycle =
          fail-Steps o.job_id (env.interruption o.operation_id) (env.job_now o.operation_id) w.jobs;
    })
  ]

  interrupt-IsKept :
      (o : CloneOperation) (p : ClonePaths) (w : World F) → IsKept w (interrupt fs env o p w).1
  interrupt-IsKept o p w =
      bind-IsKept w (on_files (fs.remove_file p.marker) w) _ (remove-IsKept p.marker w) λ _ v.
        bind-IsKept v
          (on_clones (update_clone_stage o.operation_id failed (env.now o.operation_id)) v) _
          (stage-IsKept o.operation_id (env.now o.operation_id) v)
          λ _ u.
            bind-IsKept u (on_jobs (list env.newer) u) _ (list-IsKept u)
              λ jobs t. end_job-IsKept o jobs t

  decide-IsKept :
      (o : CloneOperation) (p : ClonePaths) (staging final : ExistingDirectory) (valid : Bool)
      (w : World F)
      → IsKept w (decide fs env o p staging final valid w).1
  decide-IsKept o p safe gone true w = IsKept-refl w
  decide-IsKept o p gone gone true w = interrupt-IsKept o p w
  decide-IsKept o p gone safe valid w = elim (Bool-cases o.filesystem_complete) [
    | inl e ↦ rw e (IsKept-refl w)
    | inr e ↦ rw e (IsKept-refl w)
  ]
  decide-IsKept o p _ _ _ w = IsKept-refl w

  classify_paths-IsKept :
      (o : CloneOperation) (paths : Result ClonePaths) (w : World F)
      → IsKept w (classify_paths fs env o paths w).1
  classify_paths-IsKept o (err e) w = IsKept-refl w
  classify_paths-IsKept o (ok p) w =
      let staging = safe_existing_directory fs w.files p.staging in
      let final = safe_existing_directory fs w.files p.final_path in
      let marker_exists = is_found (fs.symlink_metadata w.files p.marker) in
      let valid =
        marker_exists
        && is_ok (validate_marker fs w.files p.parent p.staging p.marker p.operation_id) in
      elim (Bool-cases
        (is_unsafe fs env staging || (is_unsafe fs env final || (marker_exists && not valid)))) [
          | inl e ↦ rw e (IsKept-refl w)
          | inr e ↦ rw e (decide-IsKept o p staging final valid w)
        ]

  classify-IsKept :
      (o : CloneOperation) (w : World F) → IsKept w (classify_recovery_operation fs env o w).1
  unfolding classify_recovery_operation
  classify-IsKept o w = classify_paths-IsKept o (from_operation fs w.files o) w

  classify_each-IsKept :
      (os : List CloneOperation) (w : World F) → IsKept w (classify_each fs env os w).1
  unfolding classify_each
  classify_each-IsKept [] w = IsKept-refl w
  classify_each-IsKept (o ∷ rest) w =
      bind-IsKept w (classify_recovery_operation fs env o w) _ (classify-IsKept o w) λ c v.
        bind-IsKept v (classify_each fs env rest v) _ (classify_each-IsKept rest v)
          λ cs u. IsKept-refl u

  -- Whatever the file system does, and whether the recovery succeeds or stops at an error, every stored
  -- clone operation stays stored, unchanged but for its stage, which may have become failed with the
  -- time of that change, and the jobs change only by steps of their life cycle.
  pub recovery-kept :
      (w : World F) (id : Text) (o : CloneOperation)
      → get_clone_operation id w.clones ≡ some o
      → let after = (classify_incomplete_recovery fs env w).1 in
        ((p : CloneOperation) × (get_clone_operation id after.clones ≡ some p)
          × ((p ≡ o) ⊎ ((at : Text) × (p ≡ at_stage failed at o))))
        × Steps w.jobs after.jobs
  unfolding classify_incomplete_recovery
  recovery-kept w id o h =
      let kept = classify_each-IsKept (list_incomplete_clone_operations w.clones) w in
      (kept.operations id o h, kept.life_cycle)
