-- ===== src/Plugins/Permissions/Rows.antt =====
-- The rows of `permission_grants` under the statements of plugins/permissions.rs.
use git_ramus.Base.Tests.{◌≡◌, refl, ◌↔◌, Bool, true, not, ◌&&◌, ◌||◌, List, [], ◌∷◌, arith}
use git_ramus.Base.Lists.{any, all}
use git_ramus.Base.Text.{Text, text_eq_iff}
use git_ramus.Base.Table.{Table}
use git_ramus.Plugins.Permissions.{
  Installation, Permission, Grant, permission_eq, upsert, revoke_where, has_row, is_installed,
  is_active_row,
}

pub permission_eq_iff : (p q : Permission) → (permission_eq p q ≡ true) ↔ (p ≡ q)
unfolding permission_eq
permission_eq_iff p q = ground (
  arith,
  text_eq_iff p.plugin_id q.plugin_id,
  text_eq_iff p.capability q.capability,
  text_eq_iff p.resource q.resource,
)

abbrev pub active : Permission → List Grant → Bool
unfolding any
active q gs = any (is_active_row q) gs

pub active-upsert :
    (q p : Permission) (at : Text) (gs : List Grant)
    → active q (upsert p at gs) ≡ (permission_eq p q || active q gs)
unfolding upsert any is_active_row
active-upsert q p at [] = ground arith
active-upsert q p at (g ∷ gs) =
    ground (arith, permission_eq_iff g.permission p, active-upsert q p at gs)

pub active-revoke_where :
    (q : Permission) (test : Grant → Bool) (hit : Bool) (at : Text) (gs : List Grant)
    → ((g : Grant) → is_active_row q g ≡ true → test g ≡ hit)
    → active q (revoke_where test at gs) ≡ (not hit && active q gs)
unfolding revoke_where any is_active_row
active-revoke_where q test hit at [] same = ground arith
active-revoke_where q test hit at (g ∷ gs) same =
    ground (arith, same g, active-revoke_where q test hit at gs same)

-- The foreign key: the plugin of every row is installed.
abbrev pub referenced : Table Installation → List Grant → Bool
unfolding all
referenced installations gs = all (λ g. is_installed g.permission.plugin_id installations) gs

pub has_row-is_installed :
    (installations : Table Installation) (p : Permission) (gs : List Grant)
    → referenced installations gs ≡ true
    → has_row p gs ≡ true
    → is_installed p.plugin_id installations ≡ true
unfolding has_row any all
has_row-is_installed installations p [] h row = cc
has_row-is_installed installations p (g ∷ gs) h row =
    ground (arith, permission_eq_iff g.permission p, has_row-is_installed installations p gs)

pub upsert-referenced :
    (installations : Table Installation) (p : Permission) (at : Text) (gs : List Grant)
    → referenced installations gs ≡ true
    → is_installed p.plugin_id installations ≡ true
    → referenced installations (upsert p at gs) ≡ true
unfolding upsert all
upsert-referenced installations p at [] h installed = ground arith
upsert-referenced installations p at (g ∷ gs) h installed =
    ground (arith, upsert-referenced installations p at gs)

pub revoke_where-referenced :
    (installations : Table Installation) (test : Grant → Bool) (at : Text) (gs : List Grant)
    → referenced installations gs ≡ true
    → referenced installations (revoke_where test at gs) ≡ true
unfolding revoke_where all
revoke_where-referenced installations test at [] h = refl
revoke_where-referenced installations test at (g ∷ gs) h =
    ground (arith, revoke_where-referenced installations test at gs)
