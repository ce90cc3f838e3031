-- ===== src/Providers/Store.antt =====
-- providers/store.rs: the accounts of `ProviderStore`, their bindings to repositories and the queue
-- of secrets to clean up, over the tables of migrations/0003_provider_discovery.sql. A method is one
-- transaction, so it is one step; an error leaves the tables as they were.
pub mod Bindings
pub mod Instances
pub mod Secrets
pub mod Calls
pub mod Counting
pub mod Siblings
pub mod Defaults
pub mod Linking
pub mod Integrity
pub mod Resolving
pub mod Predicting
pub mod Deletion
pub mod Impact
use git_ramus.Base.Tests.{
  ℕ, ◌+◌, Bool, true, false, not, ◌&&◌, ◌||◌, Option, none, some, List, [], ◌∷◌, ◌++◌, leb, ◌==◌,
  is_none, is_some, if◌then◌else◌,
}
use git_ramus.Base.Lists.{length, any, all, filter}
use git_ramus.Base.Text.{Text, codes, text_eq, option_text_eq, is_empty, is_ascii_digit}
use git_ramus.Base.Utf8.{byte_len}
use git_ramus.Base.Order.{set_insert}
use git_ramus.Base.Table.{Table, lookup, insert, remove}
use git_ramus.Base.Error.{
  AppError, invalid_input, not_found, database, Result, ok, err, M, bind_case, and_then,
}
use git_ramus.Providers.Model.{ProviderKind}
use git_ramus.Plugins.Permissions.{Grant, revoke_where}

-- A time, as the tables of Providers and as the grants keep it.
pub record Instant : Type 0 where
  pub nanos : ℕ
  pub rfc3339 : Text

pub record ProviderInstance : Type 0 where
  pub provider_kind : ProviderKind
  pub display_name : Text
  pub base_url : Text
  pub api_base_url : Text
  pub custom_ca_path : Option Text
  pub last_validated_at : Option ℕ
  pub server_version : Option Text
  pub created_at : ℕ
  pub updated_at : ℕ

pub record ProviderAccount : Type 0 where
  pub instance_id : Text
  pub provider_user_id : Text
  pub username : Text
  pub display_name : Option Text
  pub avatar_url : Option Text
  pub secret_ref : Text
  pub is_default : Bool
  pub last_validated_at : ℕ
  pub created_at : ℕ
  pub updated_at : ℕ

pub data BindingSource : Type 0 where
  auto manual : BindingSource

pub record ProviderBinding : Type 0 where
  pub repository_id : Text
  pub remote_name : Text
  pub provider_instance_id : Text
  pub provider_account_id : Option Text
  pub provider_repository_id : Text
  pub full_name : Text
  pub web_url : Text
  pub matched_url : Text
  pub binding_source : BindingSource
  pub bound_at : ℕ
  pub updated_at : ℕ

pub record SecretCleanupRecord : Type 0 where
  pub created_at : ℕ
  pub last_attempt_at : Option ℕ
  pub attempt_count : ℕ
  pub last_error_code : Option Text

-- Of the remotes the methods here read the keys.
pub record ProviderDb : Type 0 where
  pub instances : Table ProviderInstance
  pub remotes : List (Text × Text)
  pub accounts : Table ProviderAccount
  pub bindings : List ProviderBinding
  pub cleanup : Table SecretCleanupRecord
  pub grants : List Grant

abbrev pub with_accounts : ProviderDb → Table ProviderAccount → ProviderDb
with_accounts db accounts = record {
  instances = db.instances;
  remotes = db.remotes;
  accounts = accounts;
  bindings = db.bindings;
  cleanup = db.cleanup;
  grants = db.grants;
}

abbrev pub with_instances : ProviderDb → Table ProviderInstance → ProviderDb
with_instances db instances = record {
  instances = instances;
  remotes = db.remotes;
  accounts = db.accounts;
  bindings = db.bindings;
  cleanup = db.cleanup;
  grants = db.grants;
}

abbrev pub with_bindings : ProviderDb → List ProviderBinding → ProviderDb
with_bindings db bindings = record {
  instances = db.instances;
  remotes = db.remotes;
  accounts = db.accounts;
  bindings = bindings;
  cleanup = db.cleanup;
  grants = db.grants;
}

abbrev pub with_cleanup : ProviderDb → Table SecretCleanupRecord → ProviderDb
with_cleanup db cleanup = record {
  instances = db.instances;
  remotes = db.remotes;
  accounts = db.accounts;
  bindings = db.bindings;
  cleanup = cleanup;
  grants = db.grants;
}

abbrev pub with_grants : ProviderDb → List Grant → ProviderDb
with_grants db grants = record {
  instances = db.instances;
  remotes = db.remotes;
  accounts = db.accounts;
  bindings = db.bindings;
  cleanup = db.cleanup;
  grants = grants;
}

-- `SELECT COUNT(*) FROM provider_accounts WHERE instance_id=?1`
unfoldable pub members : Text → Table ProviderAccount → ℕ
unfolding text_eq
members instance_id [] = 0
members instance_id ((id, a) ∷ rest) =
    (if text_eq a.instance_id instance_id then 1 else 0) + members instance_id rest

-- The UNIQUE constraints of a row, against the others: the user of an instance, and the secret.
unfoldable pub conflicts : Text → ProviderAccount → Table ProviderAccount → Bool
unfolding text_eq
conflicts id a [] = false
conflicts id a ((j, b) ∷ rest) =
    (not (text_eq j id)
      && ((text_eq b.instance_id a.instance_id && text_eq b.provider_user_id a.provider_user_id)
          || text_eq b.secret_ref a.secret_ref))
    || conflicts id a rest

abbrev account_exists : AppError
account_exists = invalid_input (codes "Provider account already exists")

abbrev pub violates : Text → AppError
violates context = invalid_input (context ++ codes " violates a database constraint")

abbrev pub with_default : ProviderAccount → Bool → ProviderAccount
with_default a is_default = record {
  instance_id = a.instance_id;
  provider_user_id = a.provider_user_id;
  username = a.username;
  display_name = a.display_name;
  avatar_url = a.avatar_url;
  secret_ref = a.secret_ref;
  is_default = is_default;
  last_validated_at = a.last_validated_at;
  created_at = a.created_at;
  updated_at = a.updated_at;
}

-- The new account of an instance without accounts is its default one, whatever the field says that
-- a `NewProviderAccount` does not have.
unfoldable pub insert_account : Text → ProviderAccount → M ProviderDb (Unit {0})
unfolding members lookup conflicts text_eq insert codes
insert_account id value db =
    if is_some (lookup id db.accounts) || conflicts id value db.accounts
    then (err account_exists, db)
    else if is_none (lookup value.instance_id db.instances)
    then (err (violates (codes "Provider account")), db)
    else (
      ok tt,
      with_accounts db
          (insert id (with_default value (members value.instance_id db.accounts == 0)) db.accounts),
    )

abbrev pub with_secret : ProviderAccount → Text → ℕ → ProviderAccount
with_secret a secret_ref validated_at = record {
  instance_id = a.instance_id;
  provider_user_id = a.provider_user_id;
  username = a.username;
  display_name = a.display_name;
  avatar_url = a.avatar_url;
  secret_ref = secret_ref;
  is_default = a.is_default;
  last_validated_at = validated_at;
  created_at = a.created_at;
  updated_at = validated_at;
}

abbrev pub missing_account : Text → AppError
missing_account id = not_found (codes "Provider account " ++ id)

abbrev pub secret_of : Text → Text → ℕ → Option ProviderAccount → M ProviderDb (Unit {0})
secret_of id secret_ref validated_at none db = (err (missing_account id), db)
secret_of id secret_ref validated_at (some a) db =
    if conflicts id (with_secret a secret_ref validated_at) db.accounts
    then (err account_exists, db)
    else (ok tt, with_accounts db (insert id (with_secret a secret_ref validated_at) db.accounts))

unfoldable pub update_account_secret : Text → Text → ℕ → M ProviderDb (Unit {0})
unfolding lookup conflicts insert codes
update_account_secret id secret_ref validated_at db =
    secret_of id secret_ref validated_at (lookup id db.accounts) db

-- `UPDATE provider_accounts SET is_default=0 WHERE instance_id=?1`
unfoldable pub reset_defaults : Text → Table ProviderAccount → Table ProviderAccount
unfolding text_eq
reset_defaults instance_id [] = []
reset_defaults instance_id ((id, a) ∷ rest) =
    (id, if text_eq a.instance_id instance_id then with_default a false else a)
    ∷ reset_defaults instance_id rest

-- `UPDATE provider_accounts SET is_default=1 WHERE id=?1 AND instance_id=?2`
unfoldable pub mark_default : Text → Text → Table ProviderAccount → Table ProviderAccount
unfolding text_eq
mark_default id instance_id [] = []
mark_default id instance_id ((j, a) ∷ rest) =
    (j, if text_eq j id && text_eq a.instance_id instance_id then with_default a true else a)
    ∷ mark_default id instance_id rest

abbrev pub move_default : Text → Text → Table ProviderAccount → Table ProviderAccount
move_default id instance_id accounts =
    mark_default id instance_id (reset_defaults instance_id accounts)

unfoldable pub belongs : Text → Text → Table ProviderAccount → Bool
unfolding lookup text_eq
belongs id instance_id accounts = elim (lookup id accounts) [
  | none ↦ false
  | some a ↦ text_eq a.instance_id instance_id
]

unfoldable pub set_default_account : Text → Text → M ProviderDb (Unit {0})
unfolding belongs mark_default reset_defaults codes
set_default_account instance_id account_id db =
    if not (belongs account_id instance_id db.accounts)
    then (err (invalid_input (codes "default Provider account must belong to its instance")), db)
    else (ok tt, with_accounts db (move_default account_id instance_id db.accounts))

-- `SELECT id FROM provider_accounts WHERE instance_id=?1 AND id<>?2 ORDER BY id`
unfoldable pub sibling_account_ids : Text → Text → Table ProviderAccount → List Text
unfolding text_eq set_insert
sibling_account_ids instance_id id [] = []
sibling_account_ids instance_id id ((j, a) ∷ rest) =
    if text_eq a.instance_id instance_id && not (text_eq j id)
    then set_insert j (sibling_account_ids instance_id id rest)
    else sibling_account_ids instance_id id rest

pub data AccountDeletionResolution : Type 0 where
  reassign : Text → AccountDeletionResolution
  inherit unbind : AccountDeletionResolution

abbrev pub rebound : ProviderBinding → Option Text → ℕ → ProviderBinding
rebound b account at = record {
  repository_id = b.repository_id;
  remote_name = b.remote_name;
  provider_instance_id = b.provider_instance_id;
  provider_account_id = account;
  provider_repository_id = b.provider_repository_id;
  full_name = b.full_name;
  web_url = b.web_url;
  matched_url = b.matched_url;
  binding_source = b.binding_source;
  bound_at = b.bound_at;
  updated_at = at;
}

unfoldable pub is_of_account : Text → ProviderBinding → Bool
unfolding option_text_eq
is_of_account id b = option_text_eq b.provider_account_id (some id)

-- `UPDATE provider_repository_bindings SET provider_account_id=.. WHERE provider_account_id=?1`
unfoldable pub rebind_all : Text → Option Text → ℕ → List ProviderBinding → List ProviderBinding
unfolding is_of_account
rebind_all id account at [] = []
rebind_all id account at (b ∷ rest) =
    (if is_of_account id b then rebound b account at else b) ∷ rebind_all id account at rest

-- The bindings that an instance's default account stands behind.
unfoldable pub is_inherited : Text → ProviderBinding → Bool
unfolding text_eq
is_inherited instance_id b =
    is_none b.provider_account_id && text_eq b.provider_instance_id instance_id

-- The foreign key of a binding on the account: it is one of the binding's instance.
unfoldable pub is_linked : Table ProviderAccount → ProviderBinding → Bool
unfolding belongs
is_linked accounts b = elim b.provider_account_id [
  | none ↦ true
  | some id ↦ belongs id b.provider_instance_id accounts
]

-- The `match` on the resolution
unfoldable pub resolve_bindings :
    Text
    → ProviderAccount
    → List Text
    → AccountDeletionResolution
    → ℕ
    → Table ProviderAccount
    → List ProviderBinding
    → Result (List ProviderBinding)
unfolding all is_linked any text_eq rebind_all filter is_of_account is_empty is_inherited codes
resolve_bindings id account siblings (reassign account_id) at accounts bindings =
    if not (any (text_eq account_id) siblings)
    then err (invalid_input (codes "replacement Provider account must belong to the same instance"))
    else if not (all (is_linked accounts) (rebind_all id (some account_id) at bindings))
    then err database
    else ok (rebind_all id (some account_id) at bindings)
resolve_bindings id account siblings inherit at accounts bindings =
    ok (rebind_all id none at bindings)
resolve_bindings id account siblings unbind at accounts bindings =
    let kept = filter (λ b. not (is_of_account id b)) bindings in
    if account.is_default && is_empty siblings
    then ok (filter (λ b. not (is_inherited account.instance_id b)) kept)
    else ok kept

abbrev move_to :
    ProviderAccount
    → List Text
    → Option Text
    → Table ProviderAccount
    → Result (Table ProviderAccount)
move_to account siblings none accounts =
    err (invalid_input (codes "deleting a default Provider account requires a replacement"))
move_to account siblings (some new_default) accounts =
    if not (any (text_eq new_default) siblings)
    then err (
        invalid_input
          (codes "replacement default Provider account must belong to the same instance"))
    else ok (move_default new_default account.instance_id accounts)

-- Which account of the instance becomes the default one
unfoldable pub replace_default :
    ProviderAccount
    → List Text
    → Option Text
    → Table ProviderAccount
    → Result (Table ProviderAccount)
unfolding is_empty any text_eq mark_default reset_defaults codes
replace_default account siblings new_default accounts =
    if account.is_default && not (is_empty siblings)
    then move_to account siblings new_default accounts
    else if is_some new_default
    then err (invalid_input (codes "replacement default Provider account is not applicable"))
    else ok accounts

unfoldable pub is_active_of : Text → Grant → Bool
unfolding text_eq
is_active_of resource g = text_eq g.permission.resource resource && is_none g.revoked_at

abbrev pub deleted_state :
    Text → Instant → List ProviderBinding → Table ProviderAccount → ProviderDb → ProviderDb
deleted_state id at bindings accounts db =
    with_grants (with_bindings (with_accounts db (remove id accounts)) bindings)
      (revoke_where (is_active_of (codes "provider-account/" ++ id)) at.rfc3339 db.grants)

-- The foreign key of the bindings refuses to drop an account that one of them names.
abbrev pub deletion :
    Text
    → Instant
    → AccountDeletionResolution
    → Option Text
    → ProviderAccount
    → List Text
    → ProviderDb
    → Result ProviderDb
deletion id at resolution new_default account siblings db =
    and_then (resolve_bindings id account siblings resolution at.nanos db.accounts db.bindings)
      λ bindings. and_then (replace_default account siblings new_default db.accounts) λ accounts.
        if any (is_of_account id) bindings
        then err database
        else ok (deleted_state id at bindings accounts db)

-- An error drops the transaction, which rolls it back.
abbrev pub committed : ProviderDb → Result ProviderDb → Result (Unit {0}) × ProviderDb
committed db (ok after) = (ok tt, after)
committed db (err e) = (err e, db)

abbrev pub delete_row :
    Text
    → Instant
    → AccountDeletionResolution
    → Option Text
    → Option ProviderAccount
    → M ProviderDb (Unit {0})
delete_row id at resolution new_default none db = (err (missing_account id), db)
delete_row id at resolution new_default (some account) db = committed db (
    deletion id at resolution new_default account
      (sibling_account_ids account.instance_id id db.accounts) db)

unfoldable pub delete_account_with_resolution :
    Text → Instant → AccountDeletionResolution → Option Text → M ProviderDb (Unit {0})
unfolding lookup sibling_account_ids resolve_bindings replace_default any is_of_account remove
    revoke_where is_active_of codes
delete_account_with_resolution id at resolution new_default db =
    delete_row id at resolution new_default (lookup id db.accounts) db
