-- ===== src/Transport/Clones.antt =====
-- git/transport/store.rs and git/transport/model.rs: the clone operations, which survive a restart of
-- the application in the table git_clone_operations of migrations/0004_git_transport.sql.
pub mod Calls
pub mod Stages
pub mod Progress
pub mod Glob
pub mod Intents
pub mod Files
pub mod FolderName
pub mod Paths
pub mod Recovery
use git_ramus.Base.Tests.{
  Bool, true, false, not, ◌&&◌, ◌||◌, Option, none, some, List, [], ◌∷◌, ◌++◌, ltb, ◌==◌, is_some,
  is_none, if◌then◌else◌,
}
use git_ramus.Base.Lists.{any}
use git_ramus.Base.Text.{Text, codes, text_eq}
use git_ramus.Base.Order.{text_before}
use git_ramus.Base.Table.{Table, lookup, insert, remove}
use git_ramus.Base.Error.{invalid_input, not_found, database, Result, ok, err, M}

pub data CloneStage : Type 0 where
  validating : CloneStage
  awaiting_authentication : CloneStage
  transferring : CloneStage
  checking_out : CloneStage
  applying_profile : CloneStage
  registering : CloneStage
  refreshing : CloneStage
  completed : CloneStage
  failed : CloneStage
  cancelled : CloneStage
  partial : CloneStage

unfoldable pub as_str : CloneStage → Text
unfolding codes
as_str validating = codes "validating"
as_str awaiting_authentication = codes "awaitingAuthentication"
as_str transferring = codes "transferring"
as_str checking_out = codes "checkingOut"
as_str applying_profile = codes "applyingProfile"
as_str registering = codes "registering"
as_str refreshing = codes "refreshing"
as_str completed = codes "completed"
as_str failed = codes "failed"
as_str cancelled = codes "cancelled"
as_str partial = codes "partial"

unfoldable pub from_str : Text → Result CloneStage
unfolding text_eq codes
from_str value =
    if text_eq value (codes "validating")
    then ok validating
    else if text_eq value (codes "awaitingAuthentication")
    then ok awaiting_authentication
    else if text_eq value (codes "transferring")
    then ok transferring
    else if text_eq value (codes "checkingOut")
    then ok checking_out
    else if text_eq value (codes "applyingProfile")
    then ok applying_profile
    else if text_eq value (codes "registering")
    then ok registering
    else if text_eq value (codes "refreshing")
    then ok refreshing
    else if text_eq value (codes "completed")
    then ok completed
    else if text_eq value (codes "failed")
    then ok failed
    else if text_eq value (codes "cancelled")
    then ok cancelled
    else if text_eq value (codes "partial")
    then ok partial
    else err (invalid_input (codes "unknown clone stage"))

pub data CloneProjectTarget : Type 0 where
  existing new : Text → CloneProjectTarget

-- The times are the RFC 3339 texts of the table.
pub record CloneOperation : Type 0 where
  pub operation_id : Text
  pub job_id : Text
  pub source_summary : Text
  pub intent_id : Option Text
  pub transport_profile_id : Option Text
  pub provider_instance_id : Option Text
  pub provider_account_id : Option Text
  pub provider_repository_id : Option Text
  pub staging_path : Text
  pub owner_marker_path : Text
  pub final_path : Text
  pub project_target : CloneProjectTarget
  pub current_stage : CloneStage
  pub filesystem_complete : Bool
  pub repository_id : Option Text
  pub project_id : Option Text
  pub profile_applied : Bool
  pub provider_binding_complete : Bool
  pub created_at : Text
  pub updated_at : Text

-- The keys of the tables that an operation refers to.
pub record CloneDb : Type 0 where
  pub operations : Table CloneOperation
  pub jobs : List Text
  pub repositories : List Text
  pub projects : List Text

abbrev pub with_operations : CloneDb → Table CloneOperation → CloneDb
with_operations db operations = record {
  operations = operations;
  jobs = db.jobs;
  repositories = db.repositories;
  projects = db.projects;
}

-- A foreign key that may be NULL.
unfoldable pub is_known : Option Text → List Text → Bool
unfolding any text_eq
is_known none ids = true
is_known (some id) ids = any (text_eq id) ids

-- `UNIQUE` of the job
unfoldable pub job_taken : Text → Table CloneOperation → Bool
unfolding text_eq
job_taken job_id [] = false
job_taken job_id ((id, o) ∷ rest) = text_eq o.job_id job_id || job_taken job_id rest

unfoldable pub insert_clone_operation : CloneOperation → M CloneDb (Unit {0})
unfolding lookup job_taken is_known any text_eq insert codes
insert_clone_operation o db =
    if is_some (lookup o.operation_id db.operations) || job_taken o.job_id db.operations
    then (err (invalid_input (codes "Git clone operation already exists")), db)
    else if not (any (text_eq o.job_id) db.jobs)
        || (not (is_known o.repository_id db.repositories)
            || not (is_known o.project_id db.projects))
    then (err (invalid_input (codes "Git clone operation violates a database constraint")), db)
    else (ok tt, with_operations db (insert o.operation_id o db.operations))

unfoldable pub get_clone_operation : Text → CloneDb → Option CloneOperation
unfolding lookup
get_clone_operation operation_id db = lookup operation_id db.operations

-- `ensure_changed` after an update of the row that a key names
abbrev pub update_found :
    Text → (CloneOperation → CloneOperation) → Option CloneOperation → M CloneDb (Unit {0})
update_found id f none db = (err (not_found (codes "Git clone operation " ++ id)), db)
update_found id f (some o) db = (ok tt, with_operations db (insert id (f o) db.operations))

unfoldable pub update_operation : Text → (CloneOperation → CloneOperation) → M CloneDb (Unit {0})
unfolding lookup insert codes
update_operation id f db = update_found id f (lookup id db.operations) db

-- The columns that an update sets, the others as they are.
abbrev pub revised :
    CloneStage
    → Bool
    → Bool
    → Bool
    → Option Text
    → Option Text
    → Text
    → CloneOperation
    → CloneOperation
revised stage files profile provider repository project at o = record {
  operation_id = o.operation_id;
  job_id = o.job_id;
  source_summary = o.source_summary;
  intent_id = o.intent_id;
  transport_profile_id = o.transport_profile_id;
  provider_instance_id = o.provider_instance_id;
  provider_account_id = o.provider_account_id;
  provider_repository_id = o.provider_repository_id;
  staging_path = o.staging_path;
  owner_marker_path = o.owner_marker_path;
  final_path = o.final_path;
  project_target = o.project_target;
  current_stage = stage;
  filesystem_complete = files;
  repository_id = repository;
  project_id = project;
  profile_applied = profile;
  provider_binding_complete = provider;
  created_at = o.created_at;
  updated_at = at;
}

abbrev pub at_stage : CloneStage → Text → CloneOperation → CloneOperation
at_stage stage at o =
    revised stage o.filesystem_complete o.profile_applied o.provider_binding_complete
      o.repository_id o.project_id at o

abbrev pub with_filesystem : Text → CloneOperation → CloneOperation
with_filesystem at o =
    revised o.current_stage true o.profile_applied o.provider_binding_complete o.repository_id
      o.project_id at o

abbrev pub with_profile : Text → CloneOperation → CloneOperation
with_profile at o =
    revised o.current_stage o.filesystem_complete true o.provider_binding_complete o.repository_id
      o.project_id at o

abbrev pub with_provider : Text → CloneOperation → CloneOperation
with_provider at o =
    revised o.current_stage o.filesystem_complete o.profile_applied true o.repository_id
      o.project_id at o

abbrev pub with_repository : Text → Option Text → Text → CloneOperation → CloneOperation
with_repository repository project at o =
    revised o.current_stage o.filesystem_complete o.profile_applied o.provider_binding_complete
      (some repository) project at o

abbrev pub with_project : Text → Text → CloneOperation → CloneOperation
with_project project at o =
    revised o.current_stage o.filesystem_complete o.profile_applied o.provider_binding_complete
      o.repository_id (some project) at o

unfoldable pub update_clone_stage : Text → CloneStage → Text → M CloneDb (Unit {0})
unfolding update_operation
update_clone_stage id stage at = update_operation id (at_stage stage at)

unfoldable pub update_clone_flag : Text → Text → Text → M CloneDb (Unit {0})
unfolding update_operation text_eq codes
update_clone_flag id column at db =
    if text_eq column (codes "filesystem_complete")
    then update_operation id (with_filesystem at) db
    else if text_eq column (codes "profile_applied")
    then update_operation id (with_profile at) db
    else if text_eq column (codes "provider_binding_complete")
    then update_operation id (with_provider at) db
    else (err (invalid_input (codes "unknown Git clone operation flag")), db)

unfoldable pub mark_clone_filesystem_complete : Text → Text → M CloneDb (Unit {0})
unfolding update_clone_flag codes
mark_clone_filesystem_complete id at = update_clone_flag id (codes "filesystem_complete") at

unfoldable pub mark_clone_profile : Text → Text → M CloneDb (Unit {0})
unfolding update_clone_flag codes
mark_clone_profile id at = update_clone_flag id (codes "profile_applied") at

unfoldable pub mark_clone_provider_binding : Text → Text → M CloneDb (Unit {0})
unfolding update_clone_flag codes
mark_clone_provider_binding id at = update_clone_flag id (codes "provider_binding_complete") at

-- The foreign keys refuse an unknown repository or project, once there is a row to change.
unfoldable pub mark_clone_repository : Text → Text → Option Text → Text → M CloneDb (Unit {0})
unfolding lookup is_known update_operation
mark_clone_repository id repository project at db =
    if is_some (lookup id db.operations)
      && (not (is_known (some repository) db.repositories) || not (is_known project db.projects))
    then (err database, db)
    else update_operation id (with_repository repository project at) db

unfoldable pub mark_clone_project : Text → Text → Text → M CloneDb (Unit {0})
unfolding lookup is_known update_operation
mark_clone_project id project at db =
    if is_some (lookup id db.operations) && not (is_known (some project) db.projects)
    then (err database, db)
    else update_operation id (with_project project at) db

unfoldable pub is_terminal : CloneStage → Bool
is_terminal completed = true
is_terminal failed = true
is_terminal cancelled = true
is_terminal _ = false

-- `ORDER BY created_at,operation_id`
unfoldable pub place_operation : CloneOperation → List CloneOperation → List CloneOperation
unfolding text_before
place_operation o [] = o ∷ []
place_operation o (p ∷ rest) =
    if text_before p.created_at o.created_at
      || (text_eq p.created_at o.created_at && text_before p.operation_id o.operation_id)
    then p ∷ place_operation o rest
    else o ∷ p ∷ rest

unfoldable pub incomplete_rows : Table CloneOperation → List CloneOperation
unfolding is_terminal place_operation
incomplete_rows [] = []
incomplete_rows ((id, o) ∷ rest) =
    if is_terminal o.current_stage
    then incomplete_rows rest
    else place_operation o (incomplete_rows rest)

unfoldable pub list_incomplete_clone_operations : CloneDb → List CloneOperation
unfolding incomplete_rows
list_incomplete_clone_operations db = incomplete_rows db.operations

unfoldable pub delete_clone_operation : Text → M CloneDb (Unit {0})
unfolding lookup remove codes
delete_clone_operation id db =
    if is_some (lookup id db.operations)
    then (ok tt, with_operations db (remove id db.operations))
    else (err (not_found (codes "Git clone operation " ++ id)), db)
