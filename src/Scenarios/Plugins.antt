-- ===== src/Scenarios/Plugins.antt =====
-- Manifests and permissions of plugins/manifest.rs and plugins/permissions.rs at work.
use git_ramus.Base.Tests.{◌≡◌, refl, true, false, ◌&&◌, ◌||◌, none, some, List, [], ◌∷◌}
use git_ramus.Base.Lists.{any, all}
use git_ramus.Base.Text.{
  Text, codes, text_eq, is_empty, has_char, is_control, split, split_where, starts_with, cons_head,
  is_ascii_digit, is_ascii_alphabetic, is_ascii_alphanumeric,
}
use git_ramus.Base.Table.{lookup}
use git_ramus.Base.Error.{ok}
use git_ramus.Plugins.Manifest.{
  PluginKind, builtin, external, is_builtin, cloud, mode_eq, repository_discovery, capability_eq,
  ProviderContributionId, ProviderContribution, ThemeContribution, PermissionRequest,
  PluginManifest, definition_path,
}
use git_ramus.Plugins.Manifest.Names.{
  is_plugin_id, plugin_id_loop, is_ascii_lowercase, is_separator, is_capability, is_capability_char,
  is_capability_part, two_parts, is_scheme, has_url_scheme, is_safe_relative_path, contains_text,
  utf16_len, is_safe_text,
}
use git_ramus.Plugins.Manifest.Validate.{
  Platform, unique_after, values_are_unique, expected_icon, is_github, cloud_only, discovery_only,
  validate_provider, validate_providers, validate_permission, validate_permissions,
  validate_entrypoint, validate_theme, validate_identity, validate,
}
use git_ramus.Plugins.Permissions.{
  Installation, Permission, PermissionDb, is_installed, is_allowed, list_active_resources,
}
use git_ramus.Plugins.Permissions.Calls.{
  PermissionCall, grants_manifest, revokes, grants_dynamic, revokes_dynamic, revokes_for_all,
  permission_run,
}
use git_ramus.Plugins.Permissions.Verdicts.{Linked, judged_by, run-is_allowed}
use git_ramus.Plugins.Permissions.Listing.{
  is_ascending, listed, permission_of, list_active_resources-exact,
}

-- A platform on which every version parses and no relative path is absolute.
abbrev lenient : Platform
lenient = record {
  is_absolute = λ path. false;
  version_error = λ version. none;
  version_req_error = λ version. none;
}

abbrev page : Text
page = codes "ui.html"

abbrev dark : ThemeContribution
dark = record {
  theme_id = codes "x.dark";
  definition = some (codes "dark.json");
  definition_path = none;
}

abbrev reads : PermissionRequest
reads = record { capability = codes "app:read"; resources = codes "info" ∷ [] }

abbrev hub : ProviderContribution
hub = record {
  provider_id = ProviderContributionId.github;
  adapter_id = codes "x.y";
  display_name = codes "Hub";
  icon = codes "github";
  instance_modes = cloud ∷ [];
  capabilities = repository_discovery ∷ [];
}

abbrev manifest_of : PluginKind → List ProviderContribution → PluginManifest
manifest_of kind providers = record {
  schema_version = 1;
  id = codes "x.y";
  name = codes "X";
  version = codes "1.0.0";
  publisher = codes "x";
  description = codes "d";
  kind = kind;
  sdk_version = codes "1";
  entrypoints = record { ui = some page };
  contributions = record { navigation = []; theme = some dark; providers = providers };
  permissions = reads ∷ [];
}

-- A proof that unfolds it computes with every function of the validation.
manifests_opened : Unit {0}
unfolding codes text_eq is_empty has_char is_control split_where cons_head is_ascii_digit
    is_ascii_alphabetic is_ascii_alphanumeric any all is_builtin mode_eq capability_eq
    definition_path git_ramus.Plugins.Manifest.agreed_path is_plugin_id plugin_id_loop
    is_ascii_lowercase is_separator is_capability is_capability_char is_capability_part two_parts
    is_scheme has_url_scheme is_safe_relative_path contains_text utf16_len is_safe_text unique_after
    values_are_unique expected_icon is_github cloud_only discovery_only validate_provider
    validate_providers validate_permission validate_permissions validate_entrypoint validate_theme
    validate_identity validate split git_ramus.Base.Text.split_once starts_with
    git_ramus.Base.Text.trim_with git_ramus.Base.Text.trim_end git_ramus.Base.Text.trim_start
    git_ramus.Base.Text.is_whitespace git_ramus.Base.Lists.filter git_ramus.Base.Text.to_ascii_lower
manifests_opened = tt

external_valid : validate lenient (manifest_of external []) ≡ ok tt
unfolding manifests_opened
external_valid = refl

builtin_valid : validate lenient (manifest_of builtin (hub ∷ [])) ≡ ok tt
unfolding manifests_opened
builtin_valid = refl

abbrev installed_plugin : Installation
installed_plugin = record {
  version = codes "1.0.0";
  is_builtin_kind = true;
  root_path = codes "/p";
  enabled = true;
  installed_at = codes "0";
  updated_at = codes "0";
}

abbrev account : Permission
account = permission_of (codes "x.y") (codes "r:w") (codes "a/1")

abbrev parent : Permission
parent = permission_of (codes "x.y") (codes "r:w") (codes "a/../b")

abbrev seeded : PermissionDb
seeded = record {
  installations = (codes "x.y", installed_plugin) ∷ [];
  grants = record { permission = account; granted_at = codes "1"; revoked_at = none } ∷ [];
}

abbrev calls : List PermissionCall
calls =
    grants_manifest (codes "2") (manifest_of builtin (hub ∷ []))
    ∷ revokes (codes "3") account
    ∷ grants_dynamic (codes "4") account
    ∷ revokes_for_all (codes "5") (codes "r:w") (codes "a/1")
    ∷ []

abbrev denials : List PermissionCall
denials = revokes_dynamic (codes "6") account ∷ grants_dynamic (codes "7") parent ∷ []

seeded-Linked : Linked seeded
unfolding manifests_opened is_installed lookup
seeded-Linked = refl

run-is_allowed_example :
    is_allowed account (permission_run calls seeded)
    ≡ judged_by seeded.installations account (is_allowed account seeded) calls
run-is_allowed_example = run-is_allowed calls account seeded seeded-Linked

prefix_valid : (is_empty (codes "a/") || any is_control (codes "a/")) ≡ false
unfolding manifests_opened
prefix_valid = refl

list_active_resources-exact_example :
    (rs : List Text) × (list_active_resources (codes "x.y") (codes "r:w") (codes "a/") seeded
      ≡ ok rs)
    × (is_ascending rs ≡ true)
    × ((r : Text)
        → listed r rs ≡ (
            starts_with (codes "a/") r
            && is_allowed (permission_of (codes "x.y") (codes "r:w") r) seeded))
list_active_resources-exact_example =
    list_active_resources-exact (codes "x.y") (codes "r:w") (codes "a/") seeded prefix_valid
