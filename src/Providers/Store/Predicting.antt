-- ===== src/Providers/Store/Predicting.antt =====
-- The impact that is shown before an account is deleted, against the deletion itself, in
-- providers/store.rs.
use git_ramus.Base.Tests.{
  ◌≡◌, refl, Bool, true, false, ◌&&◌, Option, none, some, List, ap, ◌∙◌, Bool-cases, inl, inr,
  if◌then◌else◌,
}
use git_ramus.Base.Lists.{any, all}
use git_ramus.Base.Text.{Text, text_eq, text_eq_refl}
use git_ramus.Base.Table.{Table, lookup}
use git_ramus.Base.Keys.{Distinct}
use git_ramus.Base.Error.{Result, ok, err, is_ok, and_then, ok_injective, database}
use git_ramus.Providers.Store.{
  Instant, ProviderAccount, ProviderBinding, ProviderDb, AccountDeletionResolution, is_linked,
  is_of_account, replace_default, deletion, deleted_state, committed, delete_row,
  delete_account_with_resolution, sibling_account_ids,
}
use git_ramus.Providers.Store.Bindings.{
  AccountDeletionImpact, account_deletion_impact, impact_or_missing,
}
use git_ramus.Providers.Store.Siblings.{sibling_row}
use git_ramus.Providers.Store.Resolving.{
  fits_default, fits_resolution, replaced, resolved, resolved_free, resolved_accepts,
}
use git_ramus.Providers.Store.Defaults.{OneDefault, run-OneDefault}
use git_ramus.Providers.Store.Integrity.{HasKeys}
use git_ramus.Providers.Store.Integrity.Runs.{run-HasKeys}
use git_ramus.Providers.Store.Calls.{Call, run}

-- What the impact lets a user choose: another account of the instance for the bindings, and a new
-- default account exactly if one is required.
unfoldable pub accepts : AccountDeletionImpact → AccountDeletionResolution → Option Text → Bool
unfolding any text_eq
accepts impact resolution new_default =
    fits_resolution impact.sibling_account_ids resolution
    && fits_default impact.requires_new_default impact.sibling_account_ids new_default

module _ (id : Text) (at : Instant) where
  outcome :
      (bindings : Result (List ProviderBinding)) (accounts : Result (Table ProviderAccount))
      (db : ProviderDb)
      → ((bs : List ProviderBinding) → bindings ≡ ok bs → any (is_of_account id) bs ≡ false)
      → is_ok (
          and_then bindings λ bs. and_then accounts λ t.
            if any (is_of_account id) bs then err database else ok (deleted_state id at bs t db))
        ≡ (is_ok bindings && is_ok accounts)
  outcome (ok bs) (ok t) db free = rw (free bs refl) refl
  outcome (ok bs) (err e) db free = refl
  outcome (err e) accounts db free = refl

  not_own_sibling :
      (i : Text) (t : Table ProviderAccount)
      → Distinct t
      → any (text_eq id) (sibling_account_ids i id t) ≡ false
  not_own_sibling i t d = elim (Bool-cases (any (text_eq id) (sibling_account_ids i id t))) [
    | inr e ↦ e
    | inl e ↦
        let (b, there, inside, other) = sibling_row i id id t d e in
        let same = text_eq_refl id in cc
  ]

  committed_ok : (db : ProviderDb) (r : Result ProviderDb) → is_ok (committed db r).0 ≡ is_ok r
  committed_ok db (ok a) = refl
  committed_ok db (err e) = refl

  delete_row-accepts :
      (resolution : AccountDeletionResolution) (new_default : Option Text)
      (found : Option ProviderAccount) (db : ProviderDb) {impact : AccountDeletionImpact}
      → lookup id db.accounts ≡ found
      → Distinct db.accounts
      → all (is_linked db.accounts) db.bindings ≡ true
      → impact_or_missing id found db ≡ ok impact
      → is_ok (delete_row id at resolution new_default found db).0
        ≡ accepts impact resolution new_default
  unfolding accepts
  delete_row-accepts resolution new_default none db here d linked h = cc
  delete_row-accepts resolution new_default (some a) db here d linked h =
      let siblings = sibling_account_ids a.instance_id id db.accounts in
      let bindings = resolved id a at.nanos db.accounts db.bindings siblings resolution in
      let accounts = replace_default a siblings new_default db.accounts in
      committed_ok db (deletion id at resolution new_default a siblings db)
      ∙ outcome bindings accounts db (λ bs e.
        resolved_free id a at.nanos db.accounts db.bindings siblings resolution
          (not_own_sibling a.instance_id db.accounts d) e)
      ∙ (λ i.
          resolved_accepts id a at.nanos db.accounts db.bindings resolution d here linked i
          && replaced a siblings new_default db.accounts i)
      ∙ ap (λ r. accepts r resolution new_default) (ok_injective h)

-- Whatever calls came before on a store that was sound, a deletion of an account succeeds exactly if
-- the impact that was shown for the account accepts the choices: its bindings may go to any other
-- account of the instance, to the default one or away, and a new default account is to be named, one
-- of the others, exactly if the impact says that one is required.
pub run-delete_account-accepts :
    (cs : List Call) (db : ProviderDb) (id : Text) (at : Instant)
    (resolution : AccountDeletionResolution) (new_default : Option Text)
    {impact : AccountDeletionImpact}
    → OneDefault db.accounts
    → HasKeys db
    → account_deletion_impact id (run cs db) ≡ ok impact
    → is_ok (delete_account_with_resolution id at resolution new_default (run cs db)).0
      ≡ accepts impact resolution new_default
unfolding account_deletion_impact delete_account_with_resolution
run-delete_account-accepts cs db id at resolution new_default one keys h =
    delete_row-accepts id at resolution new_default (lookup id (run cs db).accounts) (run cs db)
      refl (run-OneDefault cs db one).distinct (run-HasKeys cs db keys).linked h
