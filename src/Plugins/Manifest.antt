-- ===== src/Plugins/Manifest.antt =====
-- plugins/manifest.rs: the manifest of a plugin.
pub mod Names
pub mod Validate
pub mod Identifiers
pub mod Paths
pub mod Acceptance
use git_ramus.Base.Tests.{
  ℕ, Bool, true, false, not, ◌&&◌, Option, none, some, List, [], ◌∷◌, if◌then◌else◌,
}
use git_ramus.Base.Text.{Text, codes, text_eq}
use git_ramus.Base.Error.{invalid_input, Result, ok, err}

pub data PluginKind : Type 0 where
  builtin external : PluginKind

-- `==` of the derived `PartialEq`, here and below
unfoldable pub is_builtin : PluginKind → Bool
is_builtin builtin = true
is_builtin external = false

pub record PluginEntrypoints : Type 0 where
  pub ui : Option Text

pub data ProviderContributionId : Type 0 where
  github gitlab : ProviderContributionId

pub data ProviderInstanceMode : Type 0 where
  cloud self_hosted : ProviderInstanceMode

unfoldable pub mode_eq : ProviderInstanceMode → ProviderInstanceMode → Bool
mode_eq cloud cloud = true
mode_eq self_hosted self_hosted = true
mode_eq _ _ = false

pub data ProviderCapability : Type 0 where
  repository_discovery custom_ca : ProviderCapability

unfoldable pub capability_eq : ProviderCapability → ProviderCapability → Bool
capability_eq repository_discovery repository_discovery = true
capability_eq custom_ca custom_ca = true
capability_eq _ _ = false

pub record ProviderContribution : Type 0 where
  pub provider_id : ProviderContributionId
  pub adapter_id : Text
  pub display_name : Text
  pub icon : Text
  pub instance_modes : List ProviderInstanceMode
  pub capabilities : List ProviderCapability

pub record ThemeContribution : Type 0 where
  pub theme_id : Text
  pub definition : Option Text
  pub definition_path : Option Text

pub record NavigationContribution : Type 0 where
  pub id : Text
  pub label : Text
  pub route : Text
  pub icon : Text

pub record PermissionRequest : Type 0 where
  pub capability : Text
  pub resources : List Text

pub record PluginContributions : Type 0 where
  pub navigation : List NavigationContribution
  pub theme : Option ThemeContribution
  pub providers : List ProviderContribution

pub record PluginManifest : Type 0 where
  pub schema_version : ℕ
  pub id : Text
  pub name : Text
  pub version : Text
  pub publisher : Text
  pub description : Text
  pub kind : PluginKind
  pub sdk_version : Text
  pub entrypoints : PluginEntrypoints
  pub contributions : PluginContributions
  pub permissions : List PermissionRequest

-- `ThemeContribution::definition_path`
unfoldable pub agreed_path : Option Text → Option Text → Result Text
agreed_path (some definition) (some path) =
    if not (text_eq definition path)
    then err (invalid_input (codes "theme definition and definitionPath must match"))
    else ok definition
agreed_path (some definition) none = ok definition
agreed_path none (some path) = ok path
agreed_path none none = err (invalid_input (codes "theme definition path is required"))

unfoldable pub definition_path : ThemeContribution → Result Text
unfolding agreed_path
definition_path theme = agreed_path theme.definition theme.definition_path
