-- ===== src/Plugins/Permissions/Verdicts.antt =====
-- What a sequence of calls of `PermissionGateway` of plugins/permissions.rs leaves allowed: the table
-- against a set of permissions.
pub mod Grants
use git_ramus.Base.Tests.{
  ◌≡◌, refl, sym, ap, ◌∙◌, Bool, true, false, not, ◌&&◌, ◌||◌, Option, none, some, List, [], ◌∷◌,
  arith, if◌then◌else◌, Bool-cases, inl, inr, true≢false,
}
use git_ramus.Base.Lists.{any, all}
use git_ramus.Base.Text.{Text, codes, text_eq, text_eq_iff}
use git_ramus.Base.Table.{Table}
use git_ramus.Base.Error.{ok, err, invalid_input, ensure, bind_case}
use git_ramus.Plugins.Manifest.{PermissionRequest, PluginManifest, is_builtin}
use git_ramus.Plugins.Permissions.{
  Installation, Permission, Grant, PermissionDb, permission_eq, upsert, is_installed, is_enabled,
  is_exact_resource, is_active_row, is_active_of_resource, is_allowed, validate_exact_resource,
  grant_manifest_permissions, grant_requests, revoke, grant_dynamic, revoke_dynamic,
  revoke_resource_for_all, revoke_where,
}
use git_ramus.Plugins.Permissions.Rows.{
  permission_eq_iff, active, active-upsert, active-revoke_where, referenced, upsert-referenced,
  revoke_where-referenced,
}
use git_ramus.Plugins.Permissions.Calls.{
  PermissionCall, grants_manifest, revokes, grants_dynamic, revokes_dynamic, revokes_for_all,
  permission_step, permission_run,
}
use git_ramus.Plugins.Permissions.Verdicts.Grants.{requested, requests-Granted, requests-Refused}

-- What a call means for a permission: it allows it, it denies it, or it leaves it as it is.
unfoldable pub verdict : Table Installation → PermissionCall → Permission → Option Bool
unfolding is_builtin is_installed requested permission_eq is_exact_resource is_enabled
verdict installations (grants_manifest now m) q =
    if is_builtin m.kind
      && (is_installed m.id installations
          && (text_eq m.id q.plugin_id && requested m.permissions q))
    then some true
    else none
verdict installations (revokes now p) q = if permission_eq p q then some false else none
verdict installations (grants_dynamic now p) q =
    if permission_eq p q && (is_exact_resource p.resource && is_enabled p.plugin_id installations)
    then some true
    else none
verdict installations (revokes_dynamic now p) q =
    if permission_eq p q && is_exact_resource p.resource then some false else none
verdict installations (revokes_for_all now capability resource) q =
    if is_exact_resource resource
      && (text_eq capability q.capability && text_eq resource q.resource)
    then some false
    else none

abbrev pub judged : Bool → Option Bool → Bool
judged before none = before
judged before (some b) = b

-- The last verdict of the calls counts.
unfoldable pub judged_by : Table Installation → Permission → Bool → List PermissionCall → Bool
unfolding verdict
judged_by installations q before [] = before
judged_by installations q before (c ∷ cs) =
    judged_by installations q (judged before (verdict installations c q)) cs

-- What every call keeps.
abbrev pub Linked : PermissionDb → Type 0
Linked db = referenced db.installations db.grants ≡ true

row_resource :
    (q : Permission) (capability resource : Text) (g : Grant)
    → is_active_row q g ≡ true
    → is_active_of_resource capability resource g
      ≡ (text_eq capability q.capability && text_eq resource q.resource)
unfolding is_active_row is_active_of_resource
row_resource q capability resource g h = ground (
  arith,
  permission_eq_iff g.permission q,
  text_eq_iff q.capability capability,
  text_eq_iff capability q.capability,
  text_eq_iff resource q.resource,
  text_eq_iff q.resource resource,
)

row_permission :
    (q p : Permission) (g : Grant)
    → is_active_row q g ≡ true
    → permission_eq g.permission p ≡ permission_eq p q
unfolding is_active_row
row_permission q p g h =
    ground (arith, permission_eq_iff g.permission q, permission_eq_iff q p, permission_eq_iff p q)

revoke-allowed :
    (now : Text) (p q : Permission) (db : PermissionDb)
    → is_allowed q (revoke now p db).1 ≡ (not (permission_eq p q) && is_allowed q db)
unfolding revoke is_allowed
revoke-allowed now p q db =
    active-revoke_where q (λ g. permission_eq g.permission p) (permission_eq p q) now db.grants
      (row_permission q p)

manifest-allowed :
    (now : Text) (m : PluginManifest) (q : Permission) (db : PermissionDb)
    → Linked db
    → is_allowed q (grant_manifest_permissions now m db).1
      ≡ judged (is_allowed q db) (verdict db.installations (grants_manifest now m) q)
unfolding grant_manifest_permissions is_allowed verdict
manifest-allowed now m q db linked = elim (Bool-cases (is_installed m.id db.installations)) [
  | inl e ↦
      let (after, granted, allowed, kept) =
        requests-Granted db.installations m.id now q e m.permissions db.grants linked in
      ground arith
  | inr e ↦ elim (requests-Refused db.installations m.id now q e m.permissions db.grants linked) [
    | inl same ↦ ground arith
    | inr refused ↦ ground arith
  ]
]

step-is_allowed :
    (c : PermissionCall) (q : Permission) (db : PermissionDb)
    → Linked db
    → is_allowed q (permission_step c db) ≡ judged (is_allowed q db) (verdict db.installations c q)
unfolding permission_step verdict
step-is_allowed (grants_manifest now m) q db linked = manifest-allowed now m q db linked
step-is_allowed (revokes now p) q db linked = ground (arith, revoke-allowed now p q db)
step-is_allowed (grants_dynamic now p) q db linked =
    unfold grant_dynamic validate_exact_resource is_allowed in
    ground (arith, active-upsert q p now db.grants, permission_eq_iff p q)
step-is_allowed (revokes_dynamic now p) q db linked =
    unfold revoke_dynamic validate_exact_resource in ground (arith, revoke-allowed now p q db)
step-is_allowed (revokes_for_all now capability resource) q db linked =
    unfold revoke_resource_for_all validate_exact_resource is_allowed in
    ground (
      arith,
      active-revoke_where q (is_active_of_resource capability resource)
          (text_eq capability q.capability && text_eq resource q.resource) now db.grants
          (row_resource q capability resource),
    )

manifest-Linked :
    (now : Text) (m : PluginManifest) (db : PermissionDb)
    → Linked db
    → Linked (grant_manifest_permissions now m db).1
unfolding grant_manifest_permissions
manifest-Linked now m db linked = elim (Bool-cases (is_installed m.id db.installations)) [
  | inl e ↦
      let q : Permission = record { plugin_id = []; capability = []; resource = [] } in
      let (after, granted, allowed, kept) =
        requests-Granted db.installations m.id now q e m.permissions db.grants linked in
      ground arith
  | inr e ↦
      let q : Permission = record { plugin_id = []; capability = []; resource = [] } in
      elim (requests-Refused db.installations m.id now q e m.permissions db.grants linked) [
        | inl same ↦ ground arith
        | inr refused ↦ ground arith
      ]
]

is_enabled-is_installed :
    (id : Text) (installations : Table Installation)
    → is_enabled id installations ≡ true
    → is_installed id installations ≡ true
unfolding is_enabled is_installed
is_enabled-is_installed id installations h = ground arith

-- The foreign key: a call leaves no row of a plugin that is not installed, and no call changes the
-- installations.
step-Linked :
    (c : PermissionCall) (db : PermissionDb)
    → Linked db
    → Linked (permission_step c db) × ((permission_step c db).installations ≡ db.installations)
unfolding permission_step
step-Linked (grants_manifest now m) db linked =
    (manifest-Linked now m db linked, unfold grant_manifest_permissions in ground arith)
step-Linked (revokes now p) db linked =
    unfold revoke in (revoke_where-referenced db.installations _ now db.grants linked, refl)
step-Linked (grants_dynamic now p) db linked =
    unfold grant_dynamic validate_exact_resource in
    (
      ground (
        arith,
        upsert-referenced db.installations p now db.grants,
        is_enabled-is_installed p.plugin_id db.installations,
      ),
      ground arith,
    )
step-Linked (revokes_dynamic now p) db linked =
    unfold revoke_dynamic validate_exact_resource revoke in
    (
      ground (
        arith,
        revoke_where-referenced db.installations (λ g. permission_eq g.permission p) now db.grants,
      ),
      ground arith,
    )
step-Linked (revokes_for_all now capability resource) db linked =
    unfold revoke_resource_for_all validate_exact_resource in
    (
      ground (
        arith,
        revoke_where-referenced db.installations (is_active_of_resource capability resource) now
            db.grants,
      ),
      ground arith,
    )

-- When every row is of an installed plugin, after any sequence of calls a permission is allowed
-- exactly if the last call with a verdict on it allows it, or if none has one and it was allowed
-- before.
pub run-is_allowed :
    (cs : List PermissionCall) (q : Permission) (db : PermissionDb)
    → Linked db
    → is_allowed q (permission_run cs db) ≡ judged_by db.installations q (is_allowed q db) cs
unfolding permission_run judged_by
run-is_allowed [] q db linked = refl
run-is_allowed (c ∷ cs) q db linked =
    let (kept, same) = step-Linked c db linked in
    run-is_allowed cs q (permission_step c db) kept
    ∙ ap (λ i. judged_by i q (is_allowed q (permission_step c db)) cs) same
    ∙ ap (λ b. judged_by db.installations q b cs) (step-is_allowed c q db linked)
