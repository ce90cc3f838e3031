-- ===== src/Providers/Store/Deletion.antt =====
-- What a deleted account leaves, in the store of providers/store.rs and for the permission gateway
-- of plugins/permissions.rs.
use git_ramus.Base.Tests.{
  ◌≡◌, refl, true, false, Option, none, some, List, [], ◌∷◌, ◌++◌, arith, ◌∙◌,
}
use mathlib.Core.Path.{subst}
use git_ramus.Base.Lists.{any}
use git_ramus.Base.Text.{Text, codes, text_eq, text_eq_iff}
use git_ramus.Base.Table.{Table, lookup, lookup-remove}
use git_ramus.Base.Error.{Result, ok, err, and_then-eq-ok, ok_injective, unless-eq-ok}
use git_ramus.Plugins.Permissions.{
  Permission, Grant, Installation, permission_eq, is_active_row, is_allowed, revoke_where,
}
use git_ramus.Providers.Store.{
  Instant, ProviderAccount, ProviderDb, AccountDeletionResolution, sibling_account_ids, deletion,
  committed, delete_row, delete_account_with_resolution, resolve_bindings, is_active_of,
  replace_default, is_of_account,
}

revoked_denied :
    (resource at : Text) (p : Permission) (gs : List Grant)
    → text_eq p.resource resource ≡ true
    → any (is_active_row p) (revoke_where (is_active_of resource) at gs) ≡ false
unfolding any is_active_row revoke_where is_active_of permission_eq
revoked_denied resource at p [] h = refl
revoked_denied resource at p (g ∷ gs) h = ground (
  arith,
  revoked_denied resource at p gs h,
  text_eq_iff p.resource resource,
  text_eq_iff g.permission.resource resource,
  text_eq_iff g.permission.resource p.resource,
)

-- What the deletion guarantees of the state after it.
pub record IsDeleted (id : Text) (p : Permission) (installations : Table Installation)
    (db : ProviderDb) : Type 0 where
  pub gone : lookup id db.accounts ≡ none
  pub unbound : any (is_of_account id) db.bindings ≡ false
  pub denied : is_allowed p (record { installations = installations; grants = db.grants }) ≡ false

committed-eq-ok :
    (db : ProviderDb) (r : Result ProviderDb) {after : ProviderDb}
    → committed db r ≡ (ok tt, after)
    → r ≡ ok after
committed-eq-ok db (ok a) h = λ i. ok ((h i).1)
committed-eq-ok db (err e) h = cc

module _ (id : Text) (at : Instant) (p : Permission) (installations : Table Installation) where
  deletion-IsDeleted :
      (resolution : AccountDeletionResolution) (new_default : Option Text) (a : ProviderAccount)
      (siblings : List Text) (db : ProviderDb) {after : ProviderDb}
      → text_eq p.resource (codes "provider-account/" ++ id) ≡ true
      → deletion id at resolution new_default a siblings db ≡ ok after
      → IsDeleted id p installations after
  deletion-IsDeleted resolution new_default a siblings db named h =
      let (bindings, resolved, h₁) =
        and_then-eq-ok (resolve_bindings id a siblings resolution at.nanos db.accounts db.bindings)
          _ h in
      let (accounts, replaced, h₂) =
        and_then-eq-ok (replace_default a siblings new_default db.accounts) _ h₁ in
      let (free, last) = unless-eq-ok (any (is_of_account id) bindings) _ _ h₂ in
      subst (IsDeleted id p installations) (ok_injective last) (record {
        gone = lookup-remove id id accounts ∙ ground (arith, text_eq_iff id id);
        unbound = free;
        denied =
            unfold is_allowed in
            revoked_denied (codes "provider-account/" ++ id) at.rfc3339 p db.grants named;
      })

  delete_row-IsDeleted :
      (resolution : AccountDeletionResolution) (new_default : Option Text)
      (found : Option ProviderAccount) (db : ProviderDb) {after : ProviderDb}
      → text_eq p.resource (codes "provider-account/" ++ id) ≡ true
      → delete_row id at resolution new_default found db ≡ (ok tt, after)
      → IsDeleted id p installations after
  delete_row-IsDeleted resolution new_default none db named h = cc
  delete_row-IsDeleted resolution new_default (some a) db named h =
      deletion-IsDeleted resolution new_default a (sibling_account_ids a.instance_id id db.accounts)
        db named
        (committed-eq-ok db
          (deletion id at resolution new_default a
            (sibling_account_ids a.instance_id id db.accounts) db)
          h)

  -- After a successful deletion of an account, under any resolution, the account is gone, no binding
  -- names it, and the permission gateway denies every permission on its resource.
  pub delete_account-IsDeleted :
      (resolution : AccountDeletionResolution) (new_default : Option Text) (db : ProviderDb)
      {after : ProviderDb}
      → text_eq p.resource (codes "provider-account/" ++ id) ≡ true
      → delete_account_with_resolution id at resolution new_default db ≡ (ok tt, after)
      → IsDeleted id p installations after
  unfolding delete_account_with_resolution
  delete_account-IsDeleted resolution new_default db named h =
      delete_row-IsDeleted resolution new_default (lookup id db.accounts) db named h
