-- ===== src/Providers/Store/Instances.antt =====
-- providers/store.rs: the instances of Providers, and the listings of the store.
use git_ramus.Base.Tests.{
  ℕ, Bool, true, false, not, ◌&&◌, ◌||◌, Option, none, some, List, [], ◌∷◌, ◌++◌, is_some, is_none,
  if◌then◌else◌,
}
use git_ramus.Base.Lists.{any, filter}
use git_ramus.Base.Text.{Text, codes, text_eq}
use git_ramus.Base.Order.{text_before, order_by}
use git_ramus.Base.Table.{Table, lookup, insert, remove}
use git_ramus.Base.Error.{AppError, invalid_input, not_found, database, Result, ok, err, M}
use git_ramus.Providers.Model.{kind_eq}
use git_ramus.Providers.Store.{
  ProviderDb, ProviderInstance, ProviderAccount, ProviderBinding, SecretCleanupRecord,
  with_instances, missing_account,
}

abbrev instance_exists : AppError
instance_exists = invalid_input (codes "Provider instance already exists")

abbrev missing_instance : Text → AppError
missing_instance id = not_found (codes "Provider instance " ++ id)

-- `UNIQUE(provider_kind, base_url)`, against the other rows
unfoldable pub instance_conflicts : Text → ProviderInstance → Table ProviderInstance → Bool
unfolding text_eq kind_eq
instance_conflicts id value [] = false
instance_conflicts id value ((j, other) ∷ rest) =
    (not (text_eq j id)
      && (kind_eq other.provider_kind value.provider_kind && text_eq other.base_url value.base_url))
    || instance_conflicts id value rest

abbrev pub instance_or_missing : Text → Option ProviderInstance → Result ProviderInstance
instance_or_missing id none = err (missing_instance id)
instance_or_missing id (some value) = ok value

unfoldable pub get_instance : Text → ProviderDb → Result ProviderInstance
unfolding lookup codes
get_instance id db = instance_or_missing id (lookup id db.instances)

-- The row as it reads back after the write.
abbrev read_back : Text → ProviderDb → Result ProviderInstance × ProviderDb
read_back id db = (get_instance id db, db)

unfoldable pub insert_instance : Text → ProviderInstance → M ProviderDb ProviderInstance
unfolding get_instance lookup instance_conflicts insert codes
insert_instance id value db =
    if is_some (lookup id db.instances) || instance_conflicts id value db.instances
    then (err instance_exists, db)
    else read_back id (with_instances db (insert id value db.instances))

-- The update leaves `created_at` as it is.
abbrev pub updated_instance : ProviderInstance → ProviderInstance → ProviderInstance
updated_instance old value = record {
  provider_kind = value.provider_kind;
  display_name = value.display_name;
  base_url = value.base_url;
  api_base_url = value.api_base_url;
  custom_ca_path = value.custom_ca_path;
  last_validated_at = value.last_validated_at;
  server_version = value.server_version;
  created_at = old.created_at;
  updated_at = value.updated_at;
}

abbrev pub replace_instance :
    Text → ProviderInstance → Option ProviderInstance → M ProviderDb ProviderInstance
replace_instance id value none db = (err (missing_instance id), db)
replace_instance id value (some old) db =
    if instance_conflicts id value db.instances
    then (err instance_exists, db)
    else read_back id (with_instances db (insert id (updated_instance old value) db.instances))

unfoldable pub update_instance : Text → ProviderInstance → M ProviderDb ProviderInstance
unfolding get_instance lookup instance_conflicts insert codes
update_instance id value db = replace_instance id value (lookup id db.instances) db

-- The foreign keys that restrict the deletion of an instance: an account or a binding that names it.
unfoldable pub has_account : Text → Table ProviderAccount → Bool
unfolding text_eq
has_account id [] = false
has_account id ((j, a) ∷ rest) = text_eq a.instance_id id || has_account id rest

unfoldable pub is_of_instance : Text → ProviderBinding → Bool
unfolding text_eq
is_of_instance id b = text_eq b.provider_instance_id id

-- `map_constraint_error` does not name the error of a RESTRICT, which stays one of the database.
unfoldable pub delete_instance : Text → M ProviderDb (Unit {0})
unfolding lookup has_account any is_of_instance remove codes
delete_instance id db =
    if is_none (lookup id db.instances)
    then (err (missing_instance id), db)
    else if has_account id db.accounts || any (is_of_instance id) db.bindings
    then (err database, db)
    else (ok tt, with_instances db (remove id db.instances))

-- `ORDER BY display_name,id`
abbrev instance_before : Text × ProviderInstance → Text × ProviderInstance → Bool
instance_before (i, a) (j, b) =
    text_before a.display_name b.display_name
    || (text_eq a.display_name b.display_name && text_before i j)

unfoldable pub list_instances : ProviderDb → List (Text × ProviderInstance)
unfolding order_by text_before text_eq
list_instances db = order_by instance_before db.instances

abbrev account_or_missing : Text → Option ProviderAccount → Result ProviderAccount
account_or_missing id none = err (missing_account id)
account_or_missing id (some a) = ok a

unfoldable pub get_account : Text → ProviderDb → Result ProviderAccount
unfolding lookup codes
get_account id db = account_or_missing id (lookup id db.accounts)

-- `ORDER BY is_default DESC,username,id`
abbrev account_before : Text × ProviderAccount → Text × ProviderAccount → Bool
account_before (i, a) (j, b) =
    if a.is_default && not b.is_default
    then true
    else if b.is_default && not a.is_default
    then false
    else text_before a.username b.username || (text_eq a.username b.username && text_before i j)

unfoldable pub list_accounts : Text → ProviderDb → List (Text × ProviderAccount)
unfolding order_by text_before text_eq filter
list_accounts instance_id db =
    order_by account_before (filter (λ row. text_eq row.1.instance_id instance_id) db.accounts)

-- `ORDER BY created_at,secret_ref`, of times as the table keeps them
abbrev cleanup_before : (ℕ → Text) → Text × SecretCleanupRecord → Text × SecretCleanupRecord → Bool
cleanup_before rfc3339 (i, a) (j, b) =
    text_before (rfc3339 a.created_at) (rfc3339 b.created_at)
    || (text_eq (rfc3339 a.created_at) (rfc3339 b.created_at) && text_before i j)

unfoldable pub list_secret_cleanup : (ℕ → Text) → ProviderDb → List (Text × SecretCleanupRecord)
unfolding order_by text_before text_eq
list_secret_cleanup rfc3339 db = order_by (cleanup_before rfc3339) db.cleanup
