-- ===== src/Plugins/Permissions/Verdicts/Grants.antt =====
-- The transaction of `PermissionGateway::grant_manifest_permissions` of plugins/permissions.rs.
use git_ramus.Base.Tests.{
  ◌≡◌, refl, Bool, true, false, ◌&&◌, ◌||◌, ◌⊎◌, inl, inr, List, [], ◌∷◌, arith,
}
use git_ramus.Base.Lists.{any}
use git_ramus.Base.Text.{Text, text_eq}
use git_ramus.Base.Table.{Table}
use git_ramus.Base.Error.{database, Result, ok, err}
use git_ramus.Plugins.Manifest.{PermissionRequest}
use git_ramus.Plugins.Permissions.{
  Installation, Permission, Grant, permission_eq, upsert, is_installed, execute_grant,
  grant_resources, grant_requests,
}
use git_ramus.Plugins.Permissions.Rows.{
  active, active-upsert, referenced, has_row-is_installed, upsert-referenced,
}

unfoldable pub requested : List PermissionRequest → Permission → Bool
unfolding any
requested requests q =
    any (λ r. text_eq r.capability q.capability && any (λ x. text_eq x q.resource) r.resources)
      requests

module _ (installations : Table Installation) (id at : Text) (q : Permission) where
  -- What the statements of an installed plugin leave.
  abbrev pub Granted : Bool → List Grant → Result (List Grant) → Type 0
  Granted new gs result =
      (after : List Grant) × (result ≡ ok after)
      × (active q after ≡ ((text_eq id q.plugin_id && new) || active q gs))
      × (referenced installations after ≡ true)

  module _ (installed : is_installed id installations ≡ true) where
    resources-Granted :
        (capability : Text) (rs : List Text) (gs : List Grant)
        → referenced installations gs ≡ true
        → Granted
            (text_eq capability q.capability && any (λ x. text_eq x q.resource) rs)
            gs
            (grant_resources installations id capability at rs gs)
    unfolding grant_resources execute_grant any permission_eq
    resources-Granted capability [] gs linked = (gs, refl, ground arith, linked)
    resources-Granted capability (r ∷ rs) gs linked =
        let p : Permission = record { plugin_id = id; capability = capability; resource = r } in
        let (after, e, allowed, kept) =
          resources-Granted capability rs (upsert p at gs)
            (upsert-referenced installations p at gs linked installed) in
        (after, ground arith, ground (arith, active-upsert q p at gs), kept)

    pub requests-Granted :
        (requests : List PermissionRequest) (gs : List Grant)
        → referenced installations gs ≡ true
        → Granted (requested requests q) gs (grant_requests installations id at requests gs)
    unfolding grant_requests requested any
    requests-Granted [] gs linked = (gs, refl, ground arith, linked)
    requests-Granted (r ∷ rs) gs linked =
        let (middle, e, allowed, kept) = resources-Granted r.capability r.resources gs linked in
        let (after, e', allowed', kept') = requests-Granted rs middle kept in
        (after, ground arith, ground arith, kept')

  module _ (missing : is_installed id installations ≡ false) where
    abbrev pub Refused : List Grant → Result (List Grant) → Type 0
    Refused gs result = (result ≡ ok gs) ⊎ (result ≡ err database)

    resources-Refused :
        (capability : Text) (rs : List Text) (gs : List Grant)
        → referenced installations gs ≡ true
        → Refused gs (grant_resources installations id capability at rs gs)
    unfolding grant_resources execute_grant
    resources-Refused capability [] gs linked = inl refl
    resources-Refused capability (r ∷ rs) gs linked =
        let p : Permission = record { plugin_id = id; capability = capability; resource = r } in
        inr (ground (arith, has_row-is_installed installations p gs))

    pub requests-Refused :
        (requests : List PermissionRequest) (gs : List Grant)
        → referenced installations gs ≡ true
        → Refused gs (grant_requests installations id at requests gs)
    unfolding grant_requests
    requests-Refused [] gs linked = inl refl
    requests-Refused (r ∷ rs) gs linked =
        elim (resources-Refused r.capability r.resources gs linked) [
          | inl e ↦ rw e (requests-Refused rs gs linked)
          | inr e ↦ inr (ground arith)
        ]
