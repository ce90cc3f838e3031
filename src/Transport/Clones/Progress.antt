-- ===== src/Transport/Clones/Progress.antt =====
-- What a clone operation keeps over the calls of git/transport/store.rs: a restart finds the
-- directories where they were, and no step that is done is undone.
use git_ramus.Base.Tests.{
  ◌≡◌, refl, Bool, true, false, not, ◌&&◌, ◌||◌, Option, none, some, List, [], ◌∷◌, ◌++◌, arith,
  if◌then◌else◌, is_some, sym, ◌∙◌, if-eq, inl, inr,
}
use mathlib.Core.Path.{subst}
use git_ramus.Base.Lists.{any}
use git_ramus.Base.Text.{Text, codes, text_eq, text_eq_iff}
use git_ramus.Base.Table.{Table, lookup, insert, remove, lookup-insert, lookup-remove}
use git_ramus.Base.Error.{AppError, database, invalid_input, not_found, Result, ok, err}
use git_ramus.Transport.Clones.{
  CloneStage, revised, job_taken, is_known, with_operations, CloneDb, CloneOperation,
  CloneProjectTarget, insert_clone_operation, update_clone_stage, update_clone_flag,
  update_operation, update_found, at_stage, with_filesystem, with_profile, with_provider,
  with_repository, with_project, mark_clone_filesystem_complete, mark_clone_profile,
  mark_clone_provider_binding, mark_clone_repository, mark_clone_project, delete_clone_operation,
  get_clone_operation,
}
use git_ramus.Transport.Clones.Calls.{
  Call, add, reach, files_done, profile_done, provider_done, registered, in_project, forget, exec,
  run, forgets,
}

-- The columns that no update changes.
abbrev origin : CloneOperation → Text × Text × Text × Text × CloneProjectTarget
origin o = (o.job_id, o.staging_path, o.owner_marker_path, o.final_path, o.project_target)

-- What is done of the first is done of the second.
unfoldable pub is_done_in : CloneOperation → CloneOperation → Bool
is_done_in o p =
    (not o.filesystem_complete || p.filesystem_complete)
    && ((not o.profile_applied || p.profile_applied)
        && (not o.provider_binding_complete || p.provider_binding_complete))

unfoldable pub Continues : CloneOperation → CloneOperation → Type 0
Continues o p = (origin o ≡ origin p) × (is_done_in o p ≡ true)

abbrev pub IsHeld : Text → CloneOperation → CloneDb → Type 0
IsHeld id o db = (p : CloneOperation) × (get_clone_operation id db ≡ some p) × Continues o p

implied : (a : Bool) → (not a || a) ≡ true
implied true = refl
implied false = refl

implied_trans : (a b c : Bool) → (not a || b) ≡ true → (not b || c) ≡ true → (not a || c) ≡ true
implied_trans a b c h k = ground arith

Continues-refl : (o : CloneOperation) → Continues o o
unfolding Continues is_done_in
Continues-refl o = (
  refl,
  ground (
    arith,
    implied o.filesystem_complete,
    implied o.profile_applied,
    implied o.provider_binding_complete,
  ),
)

Continues-trans : (o p q : CloneOperation) → Continues o p → Continues p q → Continues o q
unfolding Continues is_done_in
Continues-trans o p q (same, done) (again, more) = (same ∙ again, ground arith)

stays :
    (id : Text) (db : CloneDb) (p : CloneOperation)
    → get_clone_operation id db ≡ some p
    → IsHeld id p db
stays id db p held = (p, held, Continues-refl p)

-- An update sets some of the flags and clears none.
revised-Continues :
    (files profile provider : Bool) (stage : CloneStage) (repository project : Option Text)
    (at : Text) (o : CloneOperation)
    → Continues o (
        revised stage
          (files || o.filesystem_complete)
          (profile || o.profile_applied)
          (provider || o.provider_binding_complete)
          repository
          project
          at
          o)
unfolding Continues is_done_in
revised-Continues files profile provider stage repository project at o = (refl, ground arith)

update_found-IsHeld :
    (j id : Text) (f : CloneOperation → CloneOperation) (row : Option CloneOperation) (db : CloneDb)
    (p : CloneOperation)
    → ((o : CloneOperation) → Continues o (f o))
    → lookup j db.operations ≡ row
    → get_clone_operation id db ≡ some p
    → IsHeld id p (update_found j f row db).1
unfolding get_clone_operation
update_found-IsHeld j id f none db p keeps found held = stays id db p held
update_found-IsHeld j id f (some q) db p keeps found held =
    elim (if-eq (text_eq j id) _ _ (sym (lookup-insert j id (f q) db.operations))) [
      | inl t ↦
          let same : j ≡ id = (text_eq_iff j id).0 t.0 in
          let both : q ≡ p = cc in (f q, sym t.1, subst (λ o. Continues o (f q)) both (keeps q))
      | inr u ↦ (p, sym u.1 ∙ held, Continues-refl p)
    ]

update_operation-IsHeld :
    (j id : Text) (f : CloneOperation → CloneOperation) (db : CloneDb) (p : CloneOperation)
    → ((o : CloneOperation) → Continues o (f o))
    → get_clone_operation id db ≡ some p
    → IsHeld id p (update_operation j f db).1
unfolding update_operation
update_operation-IsHeld j id f db p keeps held =
    update_found-IsHeld j id f (lookup j db.operations) db p keeps refl held

-- A refusal leaves the database as it was.
unless-IsHeld :
    (test : Bool) (e : AppError) (id : Text) (db : CloneDb) (p : CloneOperation)
    (next : Result (Unit {0}) × CloneDb)
    → get_clone_operation id db ≡ some p
    → (test ≡ false → IsHeld id p next.1)
    → IsHeld id p (if test then (err e, db) else next).1
unless-IsHeld true e id db p next held rest = stays id db p held
unless-IsHeld false e id db p next held rest = rest refl

when-IsHeld :
    (test : Bool) (e : AppError) (id : Text) (db : CloneDb) (p : CloneOperation)
    (next : Result (Unit {0}) × CloneDb)
    → get_clone_operation id db ≡ some p
    → IsHeld id p next.1
    → IsHeld id p (if test then next else (err e, db)).1
when-IsHeld true e id db p next held rest = rest
when-IsHeld false e id db p next held rest = stays id db p held

lookup-insert_other :
    (j id : Text) (o p : CloneOperation) (m : Table CloneOperation) (other : Bool)
    → lookup id m ≡ some p
    → (is_some (lookup j m) || other) ≡ false
    → lookup id (insert j o m) ≡ some p
lookup-insert_other j id o p m other held free =
    ground (arith, lookup-insert j id o m, text_eq_iff j id)

insert-IsHeld :
    (o : CloneOperation) (id : Text) (db : CloneDb) (p : CloneOperation)
    → get_clone_operation id db ≡ some p
    → IsHeld id p (insert_clone_operation o db).1
unfolding get_clone_operation insert_clone_operation
insert-IsHeld o id db p held =
    unless-IsHeld
      (is_some (lookup o.operation_id db.operations) || job_taken o.job_id db.operations)
      (invalid_input (codes "Git clone operation already exists")) id db p _ held
      λ free.
        unless-IsHeld
          (not (any (text_eq o.job_id) db.jobs)
            || (not (is_known o.repository_id db.repositories)
                || not (is_known o.project_id db.projects)))
          (invalid_input (codes "Git clone operation violates a database constraint")) id db p
          (ok tt, with_operations db (insert o.operation_id o db.operations)) held
          λ known. (
            p,
            lookup-insert_other o.operation_id id o p db.operations
                (job_taken o.job_id db.operations) held free,
            Continues-refl p,
          )

delete-IsHeld :
    (j id : Text) (db : CloneDb) (p : CloneOperation)
    → text_eq j id ≡ false
    → get_clone_operation id db ≡ some p
    → IsHeld id p (delete_clone_operation j db).1
unfolding get_clone_operation delete_clone_operation
delete-IsHeld j id db p other held =
    when-IsHeld (is_some (lookup j db.operations)) (not_found (codes "Git clone operation " ++ j))
      id db p (ok tt, with_operations db (remove j db.operations)) held
      (p, ground (arith, lookup-remove j id db.operations), Continues-refl p)

mark_clone_filesystem_complete-IsHeld :
    (j id : Text) (at : Text) (db : CloneDb) (p : CloneOperation)
    → get_clone_operation id db ≡ some p
    → IsHeld id p (mark_clone_filesystem_complete j at db).1
unfolding mark_clone_filesystem_complete update_clone_flag text_eq codes
mark_clone_filesystem_complete-IsHeld j id at db p held =
    update_operation-IsHeld j id (with_filesystem at) db p
      (λ o. revised-Continues true false false o.current_stage o.repository_id o.project_id at o)
      held

mark_clone_profile-IsHeld :
    (j id : Text) (at : Text) (db : CloneDb) (p : CloneOperation)
    → get_clone_operation id db ≡ some p
    → IsHeld id p (mark_clone_profile j at db).1
unfolding mark_clone_profile update_clone_flag text_eq codes
mark_clone_profile-IsHeld j id at db p held =
    update_operation-IsHeld j id (with_profile at) db p
      (λ o. revised-Continues false true false o.current_stage o.repository_id o.project_id at o)
      held

mark_clone_provider_binding-IsHeld :
    (j id : Text) (at : Text) (db : CloneDb) (p : CloneOperation)
    → get_clone_operation id db ≡ some p
    → IsHeld id p (mark_clone_provider_binding j at db).1
unfolding mark_clone_provider_binding update_clone_flag text_eq codes
mark_clone_provider_binding-IsHeld j id at db p held =
    update_operation-IsHeld j id (with_provider at) db p
      (λ o. revised-Continues false false true o.current_stage o.repository_id o.project_id at o)
      held

mark_clone_repository-IsHeld :
    (j id repository : Text) (project : Option Text) (at : Text) (db : CloneDb) (p : CloneOperation)
    → get_clone_operation id db ≡ some p
    → IsHeld id p (mark_clone_repository j repository project at db).1
unfolding mark_clone_repository
mark_clone_repository-IsHeld j id repository project at db p held =
    unless-IsHeld
      (is_some (lookup j db.operations)
        && (not (is_known (some repository) db.repositories) || not (is_known project db.projects)))
      database id db p (update_operation j (with_repository repository project at) db) held
      λ known.
        update_operation-IsHeld j id (with_repository repository project at) db p
          (λ o. revised-Continues false false false o.current_stage (some repository) project at o)
          held

mark_clone_project-IsHeld :
    (j id project : Text) (at : Text) (db : CloneDb) (p : CloneOperation)
    → get_clone_operation id db ≡ some p
    → IsHeld id p (mark_clone_project j project at db).1
unfolding mark_clone_project
mark_clone_project-IsHeld j id project at db p held =
    unless-IsHeld (is_some (lookup j db.operations) && not (is_known (some project) db.projects))
      database id db p (update_operation j (with_project project at) db) held
      λ known.
        update_operation-IsHeld j id (with_project project at) db p
          (λ o.
            revised-Continues false false false o.current_stage o.repository_id (some project) at o)
          held

or-eq-false : (a b : Bool) → (a || b) ≡ false → (a ≡ false) × (b ≡ false)
or-eq-false a b h = (ground arith, ground arith)

exec-IsHeld :
    (c : Call) (id : Text) (db : CloneDb) (p : CloneOperation)
    → forgets id c ≡ false
    → get_clone_operation id db ≡ some p
    → IsHeld id p (exec c db)
unfolding exec forgets update_clone_stage
exec-IsHeld (add o) id db p kept held = insert-IsHeld o id db p held
exec-IsHeld (reach j stage at) id db p kept held =
    update_operation-IsHeld j id (at_stage stage at) db p
      (λ o. revised-Continues false false false stage o.repository_id o.project_id at o) held
exec-IsHeld (files_done j at) id db p kept held =
    mark_clone_filesystem_complete-IsHeld j id at db p held
exec-IsHeld (profile_done j at) id db p kept held = mark_clone_profile-IsHeld j id at db p held
exec-IsHeld (provider_done j at) id db p kept held =
    mark_clone_provider_binding-IsHeld j id at db p held
exec-IsHeld (registered j repository project at) id db p kept held =
    mark_clone_repository-IsHeld j id repository project at db p held
exec-IsHeld (in_project j project at) id db p kept held =
    mark_clone_project-IsHeld j id project at db p held
exec-IsHeld (forget j) id db p kept held = delete-IsHeld j id db p kept held

-- Over any calls of which none deletes the operation, some of which may fail, a clone operation that
-- is stored stays stored, with its job, its staging directory, the marker of its owner, its final
-- path and its project target, and no step that is marked as done becomes undone.
pub run-Continues :
    (cs : List Call) (id : Text) (db : CloneDb) (o : CloneOperation)
    → any (forgets id) cs ≡ false
    → get_clone_operation id db ≡ some o
    → (p : CloneOperation) × (get_clone_operation id (run cs db) ≡ some p) × Continues o p
unfolding run any
run-Continues [] id db o kept held = stays id db o held
run-Continues (c ∷ cs) id db o kept held =
    let (first, rest) = or-eq-false (forgets id c) (any (forgets id) cs) kept in
    let (p, found, same) = exec-IsHeld c id db o first held in
    let (q, last, again) = run-Continues cs id (exec c db) p rest found in
    (q, last, Continues-trans o p q same again)
