-- ===== src/Plugins/Manifest/Acceptance.antt =====
-- What holds of a manifest that `PluginManifest::validate` of plugins/manifest.rs accepts.
use mathlib.Core.Path.{subst}
use git_ramus.Base.Tests.{
  ℕ, ◌≡◌, ◌≢◌, refl, sym, ◌∙◌, ◌⊎◌, inl, inr, Bool, true, false, not, ◌&&◌, ◌||◌, Option, none,
  some, List, [], ◌∷◌, ◌++◌, arith, and_iff, not-true, true≢false,
}
use git_ramus.Base.Lists.{any}
use git_ramus.Base.Text.{Text, text_eq, text_eq_iff, is_empty, split_where}
use git_ramus.Base.Error.{Result-cases, ok, then-eq-ok, ensure-eq-ok}
use git_ramus.Plugins.Manifest.{
  PluginKind, builtin, external, is_builtin, ProviderInstanceMode, cloud, self_hosted, mode_eq,
  ProviderCapability, repository_discovery, custom_ca, capability_eq, ProviderContribution,
  ThemeContribution, PermissionRequest, PluginManifest, definition_path,
}
use git_ramus.Plugins.Manifest.Names.{is_safe_relative_path, is_slash}
use git_ramus.Plugins.Manifest.Validate.{
  Platform, unique_after, values_are_unique, is_github, cloud_only, discovery_only,
  validate_provider, validate_providers, provider_management, validate_permission,
  validate_permissions, validate_entrypoint, validate_theme, validate_identity, validate,
}
use git_ramus.Plugins.Manifest.Paths.{walk, safe_path_inside}

abbrev pub Each {ℓ} : {A : Type ℓ} → (A → Type 0) → List A → Type 0
Each P [] = Unit {0}
Each P (x ∷ xs) = P x × Each P xs

-- No value stands twice.
abbrev pub AllDifferent {ℓ} : {A : Type ℓ} → (A → A → Bool) → List A → Type 0
AllDifferent eq [] = Unit {0}
AllDifferent eq (x ∷ xs) = Each (λ y. eq y x ≡ false) xs × AllDifferent eq xs

later_seen {ℓ} :
    {A : Type ℓ} (eq : A → A → Bool) (x y : A) (before seen : List A)
    → any (eq y) (before ++ x ∷ seen) ≡ false
    → eq y x ≡ false
unfolding any
later_seen eq x y [] seen h = ground arith
later_seen eq x y (z ∷ before) seen h = later_seen eq x y before seen (ground arith)

differs_from_seen {ℓ} :
    {A : Type ℓ} (eq : A → A → Bool) (x : A) (before seen xs : List A)
    → unique_after eq (before ++ x ∷ seen) xs ≡ true
    → Each (λ y. eq y x ≡ false) xs
unfolding unique_after
differs_from_seen eq x before seen [] h = tt
differs_from_seen eq x before seen (y ∷ ys) h =
    let (fresh, h') = (and_iff _ _).0 h in
    let e : any (eq y) (before ++ x ∷ seen) ≡ false = not-true fresh in
    (later_seen eq x y before seen e, differs_from_seen eq x (y ∷ before) seen ys h')

unique_after-AllDifferent {ℓ} :
    {A : Type ℓ} (eq : A → A → Bool) (seen xs : List A)
    → unique_after eq seen xs ≡ true
    → AllDifferent eq xs
unfolding unique_after
unique_after-AllDifferent eq seen [] h = tt
unique_after-AllDifferent eq seen (x ∷ xs) h =
    let (fresh, h') = (and_iff _ _).0 h in
    (differs_from_seen eq x [] seen xs h', unique_after-AllDifferent eq (x ∷ seen) xs h')

-- What is known of a Provider of a plugin with the identifier.
pub record IsAcceptedProvider (id : Text) (p : ProviderContribution) : Type 0 where
  pub adapter : p.adapter_id ≡ id
  pub modes_differ : AllDifferent mode_eq p.instance_modes
  pub capabilities_differ : AllDifferent capability_eq p.capabilities
  pub discovers : any (capability_eq repository_discovery) p.capabilities ≡ true
  pub github_cloud :
      (is_github p.provider_id ≡ false)
      ⊎ ((p.instance_modes ≡ cloud ∷ []) × (p.capabilities ≡ repository_discovery ∷ []))

cloud_only-eq : (modes : List ProviderInstanceMode) → cloud_only modes ≡ true → modes ≡ cloud ∷ []
unfolding cloud_only
cloud_only-eq (cloud ∷ []) h = refl
cloud_only-eq [] h = cc
cloud_only-eq (cloud ∷ _ ∷ _) h = cc
cloud_only-eq (self_hosted ∷ _) h = cc

discovery_only-eq :
    (cs : List ProviderCapability) → discovery_only cs ≡ true → cs ≡ repository_discovery ∷ []
unfolding discovery_only
discovery_only-eq (repository_discovery ∷ []) h = refl
discovery_only-eq [] h = cc
discovery_only-eq (repository_discovery ∷ _ ∷ _) h = cc
discovery_only-eq (custom_ca ∷ _) h = cc

github_case :
    (github : Bool) (modes : List ProviderInstanceMode) (cs : List ProviderCapability)
    → (not github || (cloud_only modes && discovery_only cs)) ≡ true
    → (github ≡ false) ⊎ ((modes ≡ cloud ∷ []) × (cs ≡ repository_discovery ∷ []))
github_case false modes cs h = inl refl
github_case true modes cs h =
    let (a, b) = (and_iff _ _).0 h in inr (cloud_only-eq modes a, discovery_only-eq cs b)

provider_tests :
    (id : Text) (p : ProviderContribution)
    → validate_provider id p ≡ ok tt
    → (text_eq p.adapter_id id ≡ true)
      × (values_are_unique mode_eq p.instance_modes ≡ true)
      × (values_are_unique capability_eq p.capabilities ≡ true)
      × (any (capability_eq repository_discovery) p.capabilities ≡ true)
      × ((not (is_github p.provider_id)
            || (cloud_only p.instance_modes && discovery_only p.capabilities))
          ≡ true)
unfolding validate_provider
provider_tests id p h = ground arith

validate_provider-IsAcceptedProvider :
    (id : Text) (p : ProviderContribution)
    → validate_provider id p ≡ ok tt
    → IsAcceptedProvider id p
unfolding values_are_unique
validate_provider-IsAcceptedProvider id p h =
    let (adapter, modes, capabilities, discovers, github) = provider_tests id p h in
    record {
      adapter = (text_eq_iff p.adapter_id id).0 adapter;
      modes_differ = unique_after-AllDifferent mode_eq [] p.instance_modes modes;
      capabilities_differ = unique_after-AllDifferent capability_eq [] p.capabilities capabilities;
      discovers = discovers;
      github_cloud = github_case (is_github p.provider_id) p.instance_modes p.capabilities github;
    }

validate_providers-Each :
    (id : Text) (ps : List ProviderContribution)
    → validate_providers id ps ≡ ok tt
    → Each (IsAcceptedProvider id) ps
unfolding validate_providers
validate_providers-Each id [] h = tt
validate_providers-Each id (p ∷ ps) h =
    let (a, b) = then-eq-ok (validate_provider id p) _ h in
    (validate_provider-IsAcceptedProvider id p a, validate_providers-Each id ps b)

permission_test :
    (p : PermissionRequest)
    → validate_permission external p ≡ ok tt
    → text_eq p.capability provider_management ≡ false
unfolding validate_permission is_builtin
permission_test p h = ground arith

validate_permissions-Each :
    (ps : List PermissionRequest)
    → validate_permissions external ps ≡ ok tt
    → Each (λ p. p.capability ≢ provider_management) ps
unfolding validate_permissions
validate_permissions-Each [] h = tt
validate_permissions-Each (p ∷ ps) h =
    let (a, b) = then-eq-ok (validate_permission external p) _ h in
    (
      λ same.
          true≢false
            (sym ((text_eq_iff p.capability provider_management).1 same) ∙ permission_test p a),
      validate_permissions-Each ps b,
    )

-- The parts of a successful validation.
pub record Passed (platform : Platform) (m : PluginManifest) : Type 0 where
  pub identity : validate_identity platform m ≡ ok tt
  pub entrypoint : validate_entrypoint platform m.entrypoints.ui m.contributions.providers ≡ ok tt
  pub theme : validate_theme platform m.contributions.theme ≡ ok tt
  pub permissions : validate_permissions m.kind m.permissions ≡ ok tt
  pub built_in : (is_empty m.contributions.providers || is_builtin m.kind) ≡ true
  pub providers : validate_providers m.id m.contributions.providers ≡ ok tt

validate-Passed :
    (platform : Platform) (m : PluginManifest) → validate platform m ≡ ok tt → Passed platform m
unfolding validate
validate-Passed platform m h = record {
  identity = ground arith;
  entrypoint = ground arith;
  theme = ground arith;
  permissions = ground arith;
  built_in = ground arith;
  providers = ground arith;
}

no_providers :
    (ps : List ProviderContribution) (kind : PluginKind)
    → (is_empty ps || is_builtin kind) ≡ true
    → (ps ≡ []) ⊎ (kind ≡ builtin)
unfolding is_empty is_builtin
no_providers [] kind h = inl refl
no_providers (p ∷ ps) builtin h = inr refl
no_providers (p ∷ ps) external h = cc

no_providers_outside :
    (ps : List ProviderContribution) (kind : PluginKind)
    → (is_empty ps || is_builtin kind) ≡ true
    → kind ≡ external
    → ps ≡ []
unfolding is_empty is_builtin
no_providers_outside [] kind h outside = refl
no_providers_outside (p ∷ ps) builtin h outside = cc
no_providers_outside (p ∷ ps) external h outside = cc

has_entrypoint :
    (platform : Platform) (ui : Option Text) (ps : List ProviderContribution)
    → validate_entrypoint platform ui ps ≡ ok tt
    → ps ≡ []
    → (path : Text) × (ui ≡ some path)
unfolding validate_entrypoint is_empty
has_entrypoint platform (some path) ps h none_left = (path, refl)
has_entrypoint platform none [] h none_left = cc
has_entrypoint platform none (p ∷ ps) h none_left = cc

ui-safe :
    (platform : Platform) (ui : Text) (ps : List ProviderContribution)
    → validate_entrypoint platform (some ui) ps ≡ ok tt
    → is_safe_relative_path platform.is_absolute ui ≡ true
unfolding validate_entrypoint
ui-safe platform ui ps h = (ensure-eq-ok _ _ (ok tt) h).0

theme-safe :
    (platform : Platform) (theme : ThemeContribution)
    → validate_theme platform (some theme) ≡ ok tt
    → (path : Text) × (definition_path theme ≡ ok path)
      × (is_safe_relative_path platform.is_absolute path ≡ true)
unfolding validate_theme
theme-safe platform theme h = elim (Result-cases (definition_path theme)) [
  | inl (path, e) ↦ (path, e, ground arith)
  | inr (x, e) ↦ ground arith
]

module _ (platform : Platform) (m : PluginManifest) (accepted : validate platform m ≡ ok tt) where
  parts : Passed platform m
  parts = validate-Passed platform m accepted

  -- Every Provider of an accepted manifest has the plugin's own identifier for its adapter, no
  -- instance mode and no capability twice and the capability of repository discovery, and one for
  -- GitHub is for the cloud and for repository discovery only. Only a built-in plugin has any.
  pub accepted_providers :
      Each (IsAcceptedProvider m.id) m.contributions.providers
      × ((m.contributions.providers ≡ []) ⊎ (m.kind ≡ builtin))
  accepted_providers = (
    validate_providers-Each m.id m.contributions.providers parts.providers,
    no_providers m.contributions.providers m.kind parts.built_in,
  )

  -- An accepted manifest of an external plugin contributes no Provider, never asks for the
  -- permission to manage Providers, and has a page of its own.
  pub accepted_external :
      m.kind ≡ external
      → (m.contributions.providers ≡ [])
        × Each (λ p. p.capability ≢ provider_management) m.permissions
        × ((ui : Text) × (m.entrypoints.ui ≡ some ui))
  accepted_external outside =
      let none_left =
        no_providers_outside m.contributions.providers m.kind parts.built_in outside in
      (
        none_left,
        validate_permissions-Each m.permissions
            (subst (λ k. validate_permissions k m.permissions ≡ ok tt) outside parts.permissions),
        has_entrypoint platform m.entrypoints.ui m.contributions.providers parts.entrypoint
            none_left,
      )

  -- The page of an accepted manifest lies inside the plugin's directory: a walk along its path never
  -- leaves the root.
  pub accepted_ui_inside :
      {ui : Text}
      → m.entrypoints.ui ≡ some ui
      → (end : ℕ) × (walk 0 (split_where is_slash ui) ≡ some end)
  accepted_ui_inside {ui} present =
      (safe_path_inside platform.is_absolute ui (
        ui-safe platform ui m.contributions.providers (
          subst (λ x. validate_entrypoint platform x m.contributions.providers ≡ ok tt) present
            parts.entrypoint))).4

  -- The theme of an accepted manifest names one definition, by either field or by both alike, and
  -- that lies inside the plugin's directory.
  pub accepted_theme_inside :
      {theme : ThemeContribution}
      → m.contributions.theme ≡ some theme
      → (path : Text) × (definition_path theme ≡ ok path)
        × ((end : ℕ) × (walk 0 (split_where is_slash path) ≡ some end))
  accepted_theme_inside {theme} present =
      let (path, named, safe) =
        theme-safe platform theme
          (subst (λ x. validate_theme platform x ≡ ok tt) present parts.theme) in
      (path, named, (safe_path_inside platform.is_absolute path safe).4)
