-- ===== src/Providers/Store/Impact.antt =====
-- What the user sees before an account is deleted: `account_deletion_impact` against
-- `list_bindings_for_account` of providers/store.rs.
use git_ramus.Base.Tests.{
  suc, ◌+◌, ◌≡◌, refl, Bool, false, ◌&&◌, Option, none, some, List, [], ◌∷◌, arith, ap, ◌∙◌,
  if◌then◌else◌, is_none,
}
use git_ramus.Base.Lists.{length, filter, count_if}
use git_ramus.Base.Text.{Text, option_text_eq, text_eq}
use git_ramus.Base.Table.{lookup}
use git_ramus.Base.Error.{ok, ok_injective}
use git_ramus.Providers.Store.{
  ProviderDb, ProviderAccount, ProviderBinding, is_of_account, is_inherited,
}
use git_ramus.Providers.Store.Bindings.{
  AccountDeletionImpact, account_deletion_impact, impact_or_missing, list_bindings_for_account,
  is_listed, order_bindings, place_binding,
}

length-place_binding :
    (b : ProviderBinding) (bs : List ProviderBinding)
    → length (place_binding b bs) ≡ suc (length bs)
unfolding place_binding
length-place_binding b [] = refl
length-place_binding b (c ∷ bs) = ground (arith, length-place_binding b bs)

length-order_bindings : (bs : List ProviderBinding) → length (order_bindings bs) ≡ length bs
unfolding order_bindings
length-order_bindings [] = refl
length-order_bindings (b ∷ bs) =
    length-place_binding b (order_bindings bs) ∙ ap suc (length-order_bindings bs)

named_or_not :
    (account : Option Text) (id : Text) (c : Bool)
    → (option_text_eq account (some id) && (is_none account && c)) ≡ false
unfolding option_text_eq
named_or_not none id c = refl
named_or_not (some j) id c = ground arith

-- No binding both names an account and inherits one.
not_both : (id i : Text) (b : ProviderBinding) → (is_of_account id b && is_inherited i b) ≡ false
unfolding is_of_account is_inherited
not_both id i b = named_or_not b.provider_account_id id (text_eq b.provider_instance_id i)

length-listed :
    (id : Text) (a : ProviderAccount) (bs : List ProviderBinding)
    → length (filter (is_listed id a) bs)
      ≡ count_if (is_of_account id) bs
        + (if a.is_default then count_if (is_inherited a.instance_id) bs else 0)
unfolding filter count_if
length-listed id a [] = ground arith
length-listed id a (b ∷ bs) = ground (arith, length-listed id a bs, not_both id a.instance_id b)

listed_case :
    (id : Text) (found : Option ProviderAccount) (db : ProviderDb) {impact : AccountDeletionImpact}
    → impact_or_missing id found db ≡ ok impact
    → length (elim found as (λ _. List ProviderBinding) [
      | none ↦ []
      | some account ↦ order_bindings (filter (is_listed id account) db.bindings)
    ])
      ≡ impact.explicit_binding_count + impact.inherited_binding_count
listed_case id none db h = cc
listed_case id (some a) db h =
    length-order_bindings (filter (is_listed id a) db.bindings)
    ∙ length-listed id a db.bindings
    ∙ ap (λ r. r.explicit_binding_count + r.inherited_binding_count) (ok_injective h)

-- The impact that is shown before a deletion counts exactly the bindings that the listing for the
-- account gives: those that name it, and those that it stands behind as the default account.
pub account_deletion_impact-listed :
    (id : Text) (db : ProviderDb) {impact : AccountDeletionImpact}
    → account_deletion_impact id db ≡ ok impact
    → length (list_bindings_for_account id db)
      ≡ impact.explicit_binding_count + impact.inherited_binding_count
unfolding account_deletion_impact list_bindings_for_account
account_deletion_impact-listed id db h = listed_case id (lookup id db.accounts) db h
