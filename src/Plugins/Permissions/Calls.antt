-- ===== src/Plugins/Permissions/Calls.antt =====
-- Sequences of calls of `PermissionGateway` of plugins/permissions.rs.
use git_ramus.Base.Tests.{List, [], ◌∷◌}
use git_ramus.Base.Text.{Text}
use git_ramus.Plugins.Manifest.{PluginManifest}
use git_ramus.Plugins.Permissions.{
  Permission, PermissionDb, grant_manifest_permissions, revoke, grant_dynamic, revoke_dynamic,
  revoke_resource_for_all,
}

-- Each with the time of the call.
pub data PermissionCall : Type 0 where
  grants_manifest : Text → PluginManifest → PermissionCall
  revokes grants_dynamic revokes_dynamic : Text → Permission → PermissionCall
  revokes_for_all : Text → Text → Text → PermissionCall

unfoldable pub permission_step : PermissionCall → PermissionDb → PermissionDb
unfolding grant_manifest_permissions revoke grant_dynamic revoke_dynamic revoke_resource_for_all
permission_step (grants_manifest now manifest) db = (grant_manifest_permissions now manifest db).1
permission_step (revokes now p) db = (revoke now p db).1
permission_step (grants_dynamic now p) db = (grant_dynamic now p db).1
permission_step (revokes_dynamic now p) db = (revoke_dynamic now p db).1
permission_step (revokes_for_all now capability resource) db =
    (revoke_resource_for_all now capability resource db).1

unfoldable pub permission_run : List PermissionCall → PermissionDb → PermissionDb
unfolding permission_step
permission_run [] db = db
permission_run (c ∷ cs) db = permission_run cs (permission_step c db)
