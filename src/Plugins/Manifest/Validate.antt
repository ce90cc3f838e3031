-- ===== src/Plugins/Manifest/Validate.antt =====
-- plugins/manifest.rs: `PluginManifest::validate`. `semver` and the platform's paths are parameters:
-- `version_error` and `version_req_error` give the text of the error of `Version::parse` and
-- `VersionReq::parse`, if they fail.
use git_ramus.Base.Tests.{
  Bool, true, false, not, ◌&&◌, ◌||◌, Option, none, some, List, [], ◌∷◌, ◌++◌, leb, ◌==◌, is_none,
}
use git_ramus.Base.Lists.{any}
use git_ramus.Base.Text.{Text, codes, text_eq, is_empty}
use git_ramus.Base.Error.{invalid_input, Result, ok, err, and_then, ensure}
use git_ramus.Plugins.Manifest.{
  PluginKind, is_builtin, ProviderContributionId, ProviderInstanceMode, cloud, mode_eq,
  ProviderCapability, repository_discovery, capability_eq, ProviderContribution, ThemeContribution,
  PermissionRequest, PluginManifest, definition_path,
}
use git_ramus.Plugins.Manifest.Names.{
  is_plugin_id, is_capability, is_safe_relative_path, is_safe_text, utf16_len,
}

-- What the code takes from the platform and from the crate `semver`.
pub record Platform : Type 0 where
  pub is_absolute : Text → Bool
  pub version_error : Text → Option Text
  pub version_req_error : Text → Option Text

abbrev pub Check : Type 0
Check = Result (Unit {0})

-- `map_err(..)?` on the result of a parser of `semver`
abbrev parsed : Text → Option Text → Check
parsed what none = ok tt
parsed what (some error) = err (invalid_input (what ++ error))

-- `seen.insert(value)` for each value in turn
unfoldable pub unique_after {ℓ} : {A : Type ℓ} → (A → A → Bool) → List A → List A → Bool
unfolding any
unique_after eq seen [] = true
unique_after eq seen (x ∷ xs) = not (any (eq x) seen) && unique_after eq (x ∷ seen) xs

unfoldable pub values_are_unique {ℓ} : {A : Type ℓ} → (A → A → Bool) → List A → Bool
values_are_unique eq values = unique_after eq [] values

unfoldable pub expected_icon : ProviderContributionId → Text
expected_icon ProviderContributionId.github = codes "github"
expected_icon ProviderContributionId.gitlab = codes "gitlab"

unfoldable pub is_github : ProviderContributionId → Bool
is_github ProviderContributionId.github = true
is_github ProviderContributionId.gitlab = false

-- `instance_modes != [Cloud]`, negated, and the same of the capabilities
unfoldable pub cloud_only : List ProviderInstanceMode → Bool
cloud_only (cloud ∷ []) = true
cloud_only _ = false

unfoldable pub discovery_only : List ProviderCapability → Bool
discovery_only (repository_discovery ∷ []) = true
discovery_only _ = false

abbrev well_named : Text → Bool
well_named name = not (is_empty name) && leb (utf16_len name) 64

abbrev well_equipped : List ProviderInstanceMode → List ProviderCapability → Bool
well_equipped modes capabilities =
    not (is_empty modes)
    && (not (is_empty capabilities)
        && (values_are_unique mode_eq modes
            && (values_are_unique capability_eq capabilities
                && any (capability_eq repository_discovery) capabilities)))

unfoldable pub validate_provider : Text → ProviderContribution → Check
validate_provider id provider =
    ensure (text_eq provider.adapter_id id) (codes "Provider adapterId must match plugin id") (
      ensure (well_named provider.display_name) (codes "Provider display name is invalid") (
        ensure (well_equipped provider.instance_modes provider.capabilities)
          (codes "Provider capabilities are invalid")
          (ensure (text_eq provider.icon (expected_icon provider.provider_id))
            (codes "Provider icon must match its Provider kind")
            (ensure
              (not (is_github provider.provider_id)
                || (cloud_only provider.instance_modes && discovery_only provider.capabilities))
              (codes "GitHub supports cloud repository discovery only") (ok tt)))))

unfoldable pub validate_providers : Text → List ProviderContribution → Check
validate_providers id [] = ok tt
validate_providers id (p ∷ ps) =
    let rest = validate_providers id ps in and_then (validate_provider id p) λ _. rest

abbrev pub provider_management : Text
provider_management = codes "providers:manage"

abbrev well_formed : PermissionRequest → Bool
well_formed permission =
    is_capability permission.capability
    && (not (is_empty permission.resources) && not (any is_empty permission.resources))

unfoldable pub validate_permission : PluginKind → PermissionRequest → Check
validate_permission kind permission =
    ensure (well_formed permission) (codes "plugin permission is invalid") (
      ensure (is_builtin kind || not (text_eq permission.capability provider_management))
        (codes "Provider management is built-in only") (ok tt))

unfoldable pub validate_permissions : PluginKind → List PermissionRequest → Check
validate_permissions kind [] = ok tt
validate_permissions kind (p ∷ ps) =
    let rest = validate_permissions kind ps in and_then (validate_permission kind p) λ _. rest

module _ (platform : Platform) where
  open platform use {is_absolute, version_error, version_req_error}

  unfoldable pub validate_entrypoint : Option Text → List ProviderContribution → Check
  validate_entrypoint (some ui) providers =
      ensure (is_safe_relative_path is_absolute ui) (codes "plugin UI entrypoint escapes its root")
        (ok tt)
  validate_entrypoint none providers =
      ensure (not (is_empty providers)) (codes "plugin has no entrypoint or Provider") (ok tt)

  unfoldable pub validate_theme : Option ThemeContribution → Check
  validate_theme none = ok tt
  validate_theme (some theme) = ensure (is_plugin_id theme.theme_id) (codes "theme id is invalid") (
      and_then (definition_path theme) λ path.
        ensure (is_safe_relative_path is_absolute path)
          (codes "theme definition path escapes its plugin root") (ok tt))

  unfoldable pub validate_identity : PluginManifest → Check
  validate_identity m = ensure (m.schema_version == 1) (codes "plugin schemaVersion must be 1") (
      ensure (is_plugin_id m.id) (codes "plugin id is invalid") (
        ensure (is_safe_text m.name 64) (codes "plugin name is invalid") (
          ensure (is_safe_text m.description 256) (codes "plugin description is invalid") (
            and_then (parsed (codes "plugin version is invalid: ") (version_error m.version))
              λ _. parsed (codes "sdkVersion is invalid: ") (version_req_error m.sdk_version)))))

  unfoldable pub validate : PluginManifest → Check
  validate m =
      let contributions = m.contributions in
      and_then (validate_identity m) λ _.
        and_then (validate_entrypoint m.entrypoints.ui contributions.providers) λ _.
          ensure (not (is_none m.entrypoints.ui) || is_empty contributions.navigation)
            (codes "navigation requires a UI entrypoint")
            (and_then (validate_theme contributions.theme) λ _.
              and_then (validate_permissions m.kind m.permissions) λ _.
                ensure (is_empty contributions.providers || is_builtin m.kind)
                  (codes "Provider adapters must be built in")
                  (validate_providers m.id contributions.providers))
