-- ===== src/Plugins/Permissions.antt =====
-- plugins/permissions.rs: `PermissionGateway` over the tables `plugin_installations` and
-- `permission_grants` of migrations/0001_core.sql. A method holds the connection throughout, so it is
-- one step; the clock is an argument. SQLite's own input and output errors are not modelled.
pub mod Rows
pub mod Calls
pub mod Verdicts
pub mod Listing
use git_ramus.Base.Tests.{
  Bool, true, false, not, ◌&&◌, ◌||◌, Option, none, some, List, [], ◌∷◌, ltb, ◌==◌, is_none,
  if◌then◌else◌,
}
use git_ramus.Base.Lists.{any, filter}
use git_ramus.Base.Text.{Text, codes, text_eq, is_empty, has_char, is_control, split, starts_with}
use git_ramus.Base.Order.{text_before}
use git_ramus.Base.Table.{Table, lookup}
use git_ramus.Base.Error.{
  invalid_input, not_found, permission_denied, database, Result, ok, err, and_then, M, bind_case,
  ensure,
}
use git_ramus.Plugins.Manifest.{PermissionRequest, PluginManifest, is_builtin}

pub record Installation : Type 0 where
  pub version : Text
  pub is_builtin_kind : Bool
  pub root_path : Text
  pub enabled : Bool
  pub installed_at : Text
  pub updated_at : Text

-- The primary key of a grant.
pub record Permission : Type 0 where
  pub plugin_id : Text
  pub capability : Text
  pub resource : Text

pub record Grant : Type 0 where
  pub permission : Permission
  pub granted_at : Text
  pub revoked_at : Option Text

pub record PermissionDb : Type 0 where
  pub installations : Table Installation
  pub grants : List Grant

unfoldable pub permission_eq : Permission → Permission → Bool
permission_eq p q =
    text_eq p.plugin_id q.plugin_id
    && (text_eq p.capability q.capability && text_eq p.resource q.resource)

-- `INSERT .. ON CONFLICT(plugin_id, capability, resource) DO UPDATE SET granted_at =
-- excluded.granted_at, revoked_at = NULL`
unfoldable pub upsert : Permission → Text → List Grant → List Grant
upsert p at [] = record { permission = p; granted_at = at; revoked_at = none } ∷ []
upsert p at (g ∷ gs) =
    if permission_eq g.permission p
    then record { permission = g.permission; granted_at = at; revoked_at = none } ∷ gs
    else g ∷ upsert p at gs

-- `UPDATE permission_grants SET revoked_at = .. WHERE ..`
unfoldable pub revoke_where : (Grant → Bool) → Text → List Grant → List Grant
revoke_where test at [] = []
revoke_where test at (g ∷ gs) =
    (if test g
      then record { permission = g.permission; granted_at = g.granted_at; revoked_at = some at }
      else g)
    ∷ revoke_where test at gs

abbrev with_grants : PermissionDb → List Grant → PermissionDb
with_grants db gs = record { installations = db.installations; grants = gs }

-- One `execute` of `grant_manifest_permissions`: the foreign key refuses a new row of a plugin that
-- is not installed.
unfoldable pub has_row : Permission → List Grant → Bool
unfolding any
has_row p = any (λ g. permission_eq g.permission p)

unfoldable pub is_installed : Text → Table Installation → Bool
is_installed plugin_id installations = not (is_none (lookup plugin_id installations))

unfoldable pub execute_grant :
    Table Installation → Permission → Text → List Grant → Result (List Grant)
unfolding upsert has_row is_installed
execute_grant installations p at gs =
    if has_row p gs || is_installed p.plugin_id installations
    then ok (upsert p at gs)
    else err database

unfoldable pub grant_resources :
    Table Installation → Text → Text → Text → List Text → List Grant → Result (List Grant)
grant_resources installations plugin_id capability at [] gs = ok gs
grant_resources installations plugin_id capability at (resource ∷ rest) gs =
    let p : Permission = record {
      plugin_id = plugin_id;
      capability = capability;
      resource = resource;
    } in
    and_then (execute_grant installations p at gs)
      (grant_resources installations plugin_id capability at rest)

unfoldable pub grant_requests :
    Table Installation → Text → Text → List PermissionRequest → List Grant → Result (List Grant)
grant_requests installations plugin_id at [] gs = ok gs
grant_requests installations plugin_id at (request ∷ rest) gs =
    and_then (grant_resources installations plugin_id request.capability at request.resources gs)
      (grant_requests installations plugin_id at rest)

-- An error drops the transaction, which rolls it back.
abbrev committed : PermissionDb → Result (List Grant) → Result (Unit {0}) × PermissionDb
committed db (ok gs) = (ok tt, with_grants db gs)
committed db (err e) = (err e, db)

unfoldable pub grant_manifest_permissions : Text → PluginManifest → M PermissionDb (Unit {0})
unfolding grant_requests is_builtin
grant_manifest_permissions now manifest db =
    if not (is_builtin manifest.kind)
    then (err permission_denied, db)
    else committed db
        (grant_requests db.installations manifest.id now manifest.permissions db.grants)

unfoldable pub is_active_row : Permission → Grant → Bool
unfolding permission_eq
is_active_row p g = permission_eq g.permission p && is_none g.revoked_at

unfoldable pub is_allowed : Permission → PermissionDb → Bool
unfolding any is_active_row
is_allowed p db = any (is_active_row p) db.grants

unfoldable pub revoke : Text → Permission → M PermissionDb (Unit {0})
unfolding revoke_where permission_eq
revoke now p db =
    (ok tt, with_grants db (revoke_where (λ g. permission_eq g.permission p) now db.grants))

unfoldable pub is_exact_resource : Text → Bool
unfolding any has_char is_empty is_control split
is_exact_resource resource = not (
    is_empty resource
    || (any is_control resource
        || (has_char b'*' resource || any (text_eq (codes "..")) (split b'/' resource))))

unfoldable pub validate_exact_resource : Text → Result (Unit {0})
unfolding is_exact_resource
validate_exact_resource resource =
    ensure (is_exact_resource resource) (codes "permission resource is invalid") (ok tt)

unfoldable pub is_enabled : Text → Table Installation → Bool
unfolding lookup
is_enabled plugin_id installations = elim (lookup plugin_id installations) [
  | none ↦ false
  | some i ↦ i.enabled
]

unfoldable pub grant_dynamic : Text → Permission → M PermissionDb (Unit {0})
unfolding is_enabled upsert validate_exact_resource
grant_dynamic now p db =
    bind_case (validate_exact_resource p.resource, db)
      λ _ db.
        if is_enabled p.plugin_id db.installations
        then (ok tt, with_grants db (upsert p now db.grants))
        else (err (not_found (codes "enabled plugin installation")), db)

unfoldable pub revoke_dynamic : Text → Permission → M PermissionDb (Unit {0})
unfolding revoke validate_exact_resource
revoke_dynamic now p db = bind_case (validate_exact_resource p.resource, db) λ _. revoke now p

unfoldable pub is_active_of_resource : Text → Text → Grant → Bool
is_active_of_resource capability resource g =
    text_eq g.permission.capability capability
    && (text_eq g.permission.resource resource && is_none g.revoked_at)

unfoldable pub revoke_resource_for_all : Text → Text → Text → M PermissionDb (Unit {0})
unfolding revoke_where is_active_of_resource validate_exact_resource
revoke_resource_for_all now capability resource db =
    bind_case (validate_exact_resource resource, db)
      λ _ db. (
        ok tt,
        with_grants db (revoke_where (is_active_of_resource capability resource) now db.grants),
      )

-- `ORDER BY resource`
unfoldable pub place : Text → List Text → List Text
unfolding text_before
place r [] = r ∷ []
place r (s ∷ rest) = if text_before s r then s ∷ place r rest else r ∷ s ∷ rest

-- The rows that the query selects, by their resource.
unfoldable pub select_active : Text → Text → List Grant → List Text
select_active plugin_id capability [] = []
select_active plugin_id capability (g ∷ gs) =
    if text_eq g.permission.plugin_id plugin_id
      && (text_eq g.permission.capability capability && is_none g.revoked_at)
    then place g.permission.resource (select_active plugin_id capability gs)
    else select_active plugin_id capability gs

unfoldable pub list_active_resources : Text → Text → Text → PermissionDb → Result (List Text)
unfolding select_active filter starts_with any is_empty is_control
list_active_resources plugin_id capability prefix db =
    if is_empty prefix || any is_control prefix
    then err (invalid_input (codes "permission resource prefix is invalid"))
    else ok (filter (starts_with prefix) (select_active plugin_id capability db.grants))
