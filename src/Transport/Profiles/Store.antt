-- ===== src/Transport/Profiles/Store.antt =====
-- git/transport/store.rs, less the clone operations: the tables of migrations/0004_git_transport.sql
-- that hold Transport profiles, their bindings to repositories and the pending repairs, with the
-- tables of git/repository.rs that the profile service reads. Any statement can fail in SQLite: the
-- state says which of the next ones do.
pub mod Listing
use git_ramus.Base.Tests.{
  ℕ, Bool, true, false, not, ◌&&◌, ◌||◌, Option, none, some, List, [], ◌∷◌, ◌++◌, ltb, ◌==◌,
  is_none, is_some, if◌then◌else◌,
}
use git_ramus.Base.Lists.{length}
use git_ramus.Base.Text.{Text, codes, text_eq, option_text_eq, is_empty, trim_with}
use git_ramus.Base.Order.{text_before, set_insert}
use git_ramus.Base.Table.{Table, lookup, insert, remove}
use git_ramus.Base.Error.{
  AppError, invalid_input, not_found, database, Result, ok, err, M, bind_case,
}
use git_ramus.Transport.Config.Parse.{Snapshot}
use git_ramus.Transport.Config.Plan.{TransportProfile, is_true}
use git_ramus.Transport.Url.{TransportKind, ssh, https}

pub data TransportDriftStatus : Type 0 where
  clean drifted : TransportDriftStatus

pub record RepositoryTransportBinding : Type 0 where
  pub repository_id : Text
  pub transport_profile_id : Text
  pub before_config : Snapshot
  pub applied_config : Snapshot
  pub applied_config_hash : Text
  pub drift_status : TransportDriftStatus
  pub bound_at : ℕ
  pub updated_at : ℕ

pub record TransportConfigRepair : Type 0 where
  pub id : Text
  pub repository_id : Text
  pub before_config : Snapshot
  pub attempted_config : Snapshot
  pub error_code : Text
  pub created_at : ℕ
  pub resolved_at : Option ℕ

-- Of a repository the service reads its id and its path.
pub record Repository : Type 0 where
  pub id : Text
  pub canonical_path : Text

pub record Remote : Type 0 where
  pub repository_id : Text
  pub name : Text
  pub fetch_url : Option Text
  pub push_url : Option Text

-- A repository is the path under its id. `faults` tells of each of the next statements whether SQLite refuses it; none does past its end.
pub record TransportDb : Type 0 where
  pub profiles : Table TransportProfile
  pub bindings : Table RepositoryTransportBinding
  pub repairs : Table TransportConfigRepair
  pub repositories : Table Text
  pub trusted : Table ℕ
  pub remotes : List Remote
  pub faults : List Bool

abbrev pub with_faults : TransportDb → List Bool → TransportDb
with_faults db faults = record {
  profiles = db.profiles;
  bindings = db.bindings;
  repairs = db.repairs;
  repositories = db.repositories;
  trusted = db.trusted;
  remotes = db.remotes;
  faults = faults;
}

abbrev pub with_bindings : TransportDb → Table RepositoryTransportBinding → TransportDb
with_bindings db bindings = record {
  profiles = db.profiles;
  bindings = bindings;
  repairs = db.repairs;
  repositories = db.repositories;
  trusted = db.trusted;
  remotes = db.remotes;
  faults = db.faults;
}

abbrev pub with_profiles : TransportDb → Table TransportProfile → TransportDb
with_profiles db profiles = record {
  profiles = profiles;
  bindings = db.bindings;
  repairs = db.repairs;
  repositories = db.repositories;
  trusted = db.trusted;
  remotes = db.remotes;
  faults = db.faults;
}

abbrev pub with_repairs : TransportDb → Table TransportConfigRepair → TransportDb
with_repairs db repairs = record {
  profiles = db.profiles;
  bindings = db.bindings;
  repairs = repairs;
  repositories = db.repositories;
  trusted = db.trusted;
  remotes = db.remotes;
  faults = db.faults;
}

-- One statement, or one transaction: SQLite runs it, or fails and changes nothing.
abbrev pub attempt :
    {A : Type 0} → List Bool → TransportDb → M TransportDb A → Result A × TransportDb
attempt [] db f = f db
attempt (true ∷ faults) db f = (err database, with_faults db faults)
attempt (false ∷ faults) db f = f (with_faults db faults)

unfoldable pub statement : {A : Type 0} → M TransportDb A → M TransportDb A
statement f db = attempt db.faults db f

-- A statement that only reads.
unfoldable pub query : {A : Type 0} → (TransportDb → A) → M TransportDb A
unfolding statement
query f = statement λ db. (ok (f db), db)

-- `ensure_changed`: an update of no row is an error.
abbrev pub ensure_changed :
    Bool → Text → Text → TransportDb → TransportDb → Result (Unit {0}) × TransportDb
ensure_changed true resource id changed db = (ok tt, changed)
ensure_changed false resource id changed db = (err (not_found (resource ++ b' ' ∷ id)), db)

abbrev pub violates : Text → AppError
violates context = invalid_input (context ++ codes " violates a database constraint")

abbrev pub exists_already : Text → AppError
exists_already context = invalid_input (context ++ codes " already exists")

-- `UNIQUE` of the display name, against the rows of the other profiles
unfoldable pub name_taken : Text → Text → Table TransportProfile → Bool
unfolding text_eq
name_taken id name [] = false
name_taken id name ((j, p) ∷ rest) =
    (not (text_eq j id) && text_eq p.display_name name) || name_taken id name rest

-- `length(trim(value)) > 0`: SQLite trims spaces
abbrev is_present : Option Text → Bool
is_present none = false
is_present (some value) = not (is_empty (trim_with (λ c. c == 32) value))

-- The CHECK of the table, whose columns of a kind stand and fall together.
abbrev kind_checks : TransportKind → TransportProfile → Bool
kind_checks ssh p =
    is_present p.ssh_key_path
    && (option_text_eq p.ssh_variant (some (codes "ssh"))
        && (is_some p.ssh_identities_only
            && (is_none p.https_username && is_none p.https_use_http_path)))
kind_checks https p =
    is_none p.ssh_key_path
    && (is_none p.ssh_variant
        && (is_none p.ssh_identities_only
            && (is_present p.https_username && is_true p.https_use_http_path)))

unfoldable pub satisfies_checks : TransportProfile → Bool
unfolding is_empty trim_with option_text_eq codes
satisfies_checks p = kind_checks p.kind p

unfoldable pub insert_profile : TransportProfile → M TransportDb (Unit {0})
unfolding statement lookup insert codes name_taken satisfies_checks
insert_profile profile = statement λ db.
    if not (satisfies_checks profile)
    then (err (violates (codes "transport profile")), db)
    else if is_some (lookup profile.id db.profiles)
        || name_taken profile.id profile.display_name db.profiles
    then (err (exists_already (codes "transport profile")), db)
    else (ok tt, with_profiles db (insert profile.id profile db.profiles))

-- The update leaves `created_at` as it is.
abbrev pub updated_profile : TransportProfile → TransportProfile → TransportProfile
updated_profile old p = record {
  id = old.id;
  display_name = p.display_name;
  kind = p.kind;
  ssh_key_path = p.ssh_key_path;
  ssh_variant = p.ssh_variant;
  ssh_identities_only = p.ssh_identities_only;
  https_username = p.https_username;
  https_use_http_path = p.https_use_http_path;
  created_at = old.created_at;
  updated_at = p.updated_at;
}

abbrev pub update_row : TransportProfile → Option TransportProfile → M TransportDb (Unit {0})
update_row profile none db = ensure_changed false (codes "transport profile") profile.id db db
update_row profile (some old) db =
    if not (satisfies_checks profile)
    then (err (violates (codes "transport profile")), db)
    else if name_taken profile.id profile.display_name db.profiles
    then (err (exists_already (codes "transport profile")), db)
    else (ok tt, with_profiles db (insert profile.id (updated_profile old profile) db.profiles))

unfoldable pub update_profile : TransportProfile → M TransportDb (Unit {0})
unfolding statement lookup insert codes name_taken satisfies_checks
update_profile profile = statement λ db. update_row profile (lookup profile.id db.profiles) db

unfoldable pub get_profile : Text → M TransportDb (Option TransportProfile)
unfolding query lookup
get_profile id = query λ db. lookup id db.profiles

unfoldable pub get_binding : Text → M TransportDb (Option RepositoryTransportBinding)
unfolding query lookup
get_binding repository_id = query λ db. lookup repository_id db.bindings

-- The repositories that the bindings of a profile name, in order.
unfoldable pub bound_repositories : Text → Table RepositoryTransportBinding → List Text
unfolding text_eq set_insert
bound_repositories profile_id [] = []
bound_repositories profile_id ((id, b) ∷ rest) =
    if text_eq b.transport_profile_id profile_id
    then set_insert id (bound_repositories profile_id rest)
    else bound_repositories profile_id rest

-- Of `list_bindings_for_profile` the service reads the number of rows.
unfoldable pub list_bindings_for_profile : Text → M TransportDb (List Text)
unfolding query bound_repositories
list_bindings_for_profile profile_id = query λ db. bound_repositories profile_id db.bindings

unfoldable pub upsert_binding : RepositoryTransportBinding → M TransportDb (Unit {0})
unfolding statement lookup insert codes
upsert_binding binding = statement λ db.
    if is_none (lookup binding.repository_id db.repositories)
      || is_none (lookup binding.transport_profile_id db.profiles)
    then (err (violates (codes "repository transport binding")), db)
    else (ok tt, with_bindings db (insert binding.repository_id binding db.bindings))

abbrev pub with_drift :
    RepositoryTransportBinding → TransportDriftStatus → ℕ → RepositoryTransportBinding
with_drift b status at = record {
  repository_id = b.repository_id;
  transport_profile_id = b.transport_profile_id;
  before_config = b.before_config;
  applied_config = b.applied_config;
  applied_config_hash = b.applied_config_hash;
  drift_status = status;
  bound_at = b.bound_at;
  updated_at = at;
}

abbrev mark_row : Text → ℕ → Option RepositoryTransportBinding → M TransportDb (Unit {0})
mark_row id at none db = ensure_changed false (codes "repository transport binding") id db db
mark_row id at (some b) db =
    (ok tt, with_bindings db (insert id (with_drift b drifted at) db.bindings))

unfoldable pub mark_binding_drifted : Text → ℕ → M TransportDb (Unit {0})
unfolding statement lookup insert codes
mark_binding_drifted repository_id updated_at =
    statement λ db. mark_row repository_id updated_at (lookup repository_id db.bindings) db

unfoldable pub delete_binding : Text → M TransportDb (Unit {0})
unfolding statement lookup remove codes
delete_binding repository_id = statement λ db.
    ensure_changed (is_some (lookup repository_id db.bindings))
      (codes "repository transport binding") repository_id
      (with_bindings db (remove repository_id db.bindings)) db

unfoldable pub profile_deletion_impact : Text → M TransportDb (List Text)
unfolding get_profile list_bindings_for_profile codes
profile_deletion_impact profile_id db = bind_case (get_profile profile_id db) λ profile db.
    if is_none profile
    then (err (not_found (codes "transport profile " ++ profile_id)), db)
    else list_bindings_for_profile profile_id db

unfoldable pub insert_repair : TransportConfigRepair → M TransportDb (Unit {0})
unfolding statement lookup insert codes
insert_repair repair = statement λ db.
    if is_some (lookup repair.id db.repairs)
    then (err (exists_already (codes "transport config repair")), db)
    else if is_none (lookup repair.repository_id db.repositories)
    then (err (violates (codes "transport config repair")), db)
    else (ok tt, with_repairs db (insert repair.id repair db.repairs))

unfoldable pub has_unresolved : Text → Table TransportConfigRepair → Bool
unfolding text_eq
has_unresolved repository_id [] = false
has_unresolved repository_id ((id, r) ∷ rest) =
    (text_eq r.repository_id repository_id && is_none r.resolved_at)
    || has_unresolved repository_id rest

unfoldable pub repository_has_unresolved_repair : Text → M TransportDb Bool
unfolding query has_unresolved
repository_has_unresolved_repair repository_id = query λ db. has_unresolved repository_id db.repairs

-- The final transaction of `delete_profile` in git/transport/profile_service.rs
unfoldable pub delete_unbound_profile : Text → M TransportDb (Unit {0})
unfolding statement lookup remove codes bound_repositories
delete_unbound_profile profile_id = statement λ db.
    if ltb 0 (length (bound_repositories profile_id db.bindings))
    then (err (invalid_input (codes "transport profile still has repository bindings")), db)
    else ensure_changed (is_some (lookup profile_id db.profiles)) (codes "transport profile")
        profile_id (with_profiles db (remove profile_id db.profiles)) db

-- git/repository.rs: the lookups that the service makes.
abbrev pub found_repository : Text → Option Text → Result Repository
found_repository id none = err (not_found (codes "repository " ++ id))
found_repository id (some path) = ok (record { id = id; canonical_path = path })

unfoldable pub get_repository : Text → M TransportDb Repository
unfolding query lookup codes
get_repository id db =
    bind_case (query (λ db. lookup id db.repositories) db)
      λ found db. (found_repository id found, db)

unfoldable pub is_trusted : Text → M TransportDb Bool
unfolding query lookup
is_trusted repository_id = query λ db. is_some (lookup repository_id db.trusted)

unfoldable pub place_remote : Remote → List Remote → List Remote
unfolding text_before
place_remote r [] = r ∷ []
place_remote r (s ∷ rest) =
    if text_before s.name r.name then s ∷ place_remote r rest else r ∷ s ∷ rest

-- `WHERE repository_id=?1 ORDER BY name`
unfoldable pub remotes_of : Text → List Remote → List Remote
unfolding text_eq place_remote
remotes_of repository_id [] = []
remotes_of repository_id (r ∷ rest) =
    if text_eq r.repository_id repository_id
    then place_remote r (remotes_of repository_id rest)
    else remotes_of repository_id rest

unfoldable pub list_remotes : Text → M TransportDb (List Remote)
unfolding query remotes_of
list_remotes repository_id = query λ db. remotes_of repository_id db.remotes
