-- ===== src/Providers/Store/Bindings.antt =====
-- providers/store.rs: the bindings of remotes to repositories of a Provider.
use git_ramus.Base.Tests.{
  ℕ, Bool, not, is_some, ◌&&◌, ◌||◌, Option, none, some, List, [], ◌∷◌, if◌then◌else◌,
}
use git_ramus.Base.Lists.{any, filter, count_if}
use git_ramus.Base.Text.{Text, codes, text_eq, is_empty}
use git_ramus.Base.Order.{text_before}
use git_ramus.Base.Table.{lookup}
use git_ramus.Base.Error.{Result, ok, err, M}
use git_ramus.Providers.Store.{
  ProviderDb, ProviderAccount, ProviderBinding, with_bindings, violates, is_linked, is_of_account,
  is_inherited, missing_account, sibling_account_ids,
}

-- The primary key of a binding.
unfoldable pub has_key : Text → Text → ProviderBinding → Bool
unfolding text_eq
has_key repository_id remote_name b =
    text_eq b.repository_id repository_id && text_eq b.remote_name remote_name

-- `INSERT .. ON CONFLICT(repository_id,remote_name) DO UPDATE SET ..`
unfoldable pub put_binding : ProviderBinding → List ProviderBinding → List ProviderBinding
unfolding has_key
put_binding value [] = value ∷ []
put_binding value (b ∷ rest) =
    if has_key value.repository_id value.remote_name b
    then value ∷ rest
    else b ∷ put_binding value rest

-- The foreign keys: the remote, the instance, and the account with its instance.
unfoldable pub satisfies_keys : ProviderBinding → ProviderDb → Bool
unfolding any text_eq lookup is_linked
satisfies_keys value db =
    any (λ r. text_eq r.0 value.repository_id && text_eq r.1 value.remote_name) db.remotes
    && (is_some (lookup value.provider_instance_id db.instances) && is_linked db.accounts value)

unfoldable pub upsert_binding : ProviderBinding → M ProviderDb (Unit {0})
unfolding satisfies_keys put_binding codes
upsert_binding value db =
    if not (satisfies_keys value db)
    then (err (violates (codes "Provider repository binding")), db)
    else (ok tt, with_bindings db (put_binding value db.bindings))

unfoldable pub find_binding : Text → Text → List ProviderBinding → Option ProviderBinding
unfolding has_key
find_binding repository_id remote_name [] = none
find_binding repository_id remote_name (b ∷ rest) =
    if has_key repository_id remote_name b
    then some b
    else find_binding repository_id remote_name rest

unfoldable pub get_binding : Text → Text → M ProviderDb (Option ProviderBinding)
unfolding find_binding
get_binding repository_id remote_name db =
    (ok (find_binding repository_id remote_name db.bindings), db)

unfoldable pub delete_binding : Text → Text → M ProviderDb (Unit {0})
unfolding filter has_key
delete_binding repository_id remote_name db =
    (ok tt, with_bindings db (filter (λ b. not (has_key repository_id remote_name b)) db.bindings))

-- `ORDER BY repository_id,remote_name`
unfoldable pub comes_before : ProviderBinding → ProviderBinding → Bool
unfolding text_before text_eq
comes_before a b =
    text_before a.repository_id b.repository_id
    || (text_eq a.repository_id b.repository_id && text_before a.remote_name b.remote_name)

unfoldable pub place_binding : ProviderBinding → List ProviderBinding → List ProviderBinding
unfolding comes_before
place_binding b [] = b ∷ []
place_binding b (c ∷ rest) = if comes_before c b then c ∷ place_binding b rest else b ∷ c ∷ rest

unfoldable pub order_bindings : List ProviderBinding → List ProviderBinding
unfolding place_binding
order_bindings [] = []
order_bindings (b ∷ rest) = place_binding b (order_bindings rest)

-- The bindings that name the account, and those that it stands behind as the default one.
abbrev pub is_listed : Text → ProviderAccount → ProviderBinding → Bool
is_listed id account b =
    is_of_account id b || (account.is_default && is_inherited account.instance_id b)

unfoldable pub list_bindings_for_account : Text → ProviderDb → List ProviderBinding
unfolding lookup filter is_of_account is_inherited order_bindings
list_bindings_for_account id db = elim (lookup id db.accounts) [
  | none ↦ []
  | some account ↦ order_bindings (filter (is_listed id account) db.bindings)
]

unfoldable pub list_bindings : Option Text → ProviderDb → List ProviderBinding
unfolding text_eq filter order_bindings
list_bindings none db = order_bindings db.bindings
list_bindings (some instance_id) db =
    order_bindings (filter (λ b. text_eq b.provider_instance_id instance_id) db.bindings)

pub record AccountDeletionImpact : Type 0 where
  pub account_id : Text
  pub instance_id : Text
  pub is_default : Bool
  pub explicit_binding_count : ℕ
  pub inherited_binding_count : ℕ
  pub sibling_account_ids : List Text
  pub requires_new_default : Bool

abbrev pub impact_of : Text → ProviderAccount → ProviderDb → AccountDeletionImpact
impact_of id account db =
    let siblings =
      git_ramus.Providers.Store.sibling_account_ids account.instance_id id db.accounts in
    record {
      account_id = id;
      instance_id = account.instance_id;
      is_default = account.is_default;
      explicit_binding_count = count_if (is_of_account id) db.bindings;
      inherited_binding_count =
          if account.is_default then count_if (is_inherited account.instance_id) db.bindings else 0;
      sibling_account_ids = siblings;
      requires_new_default = account.is_default && not (is_empty siblings);
    }

abbrev pub impact_or_missing :
    Text → Option ProviderAccount → ProviderDb → Result AccountDeletionImpact
impact_or_missing id none db = err (missing_account id)
impact_or_missing id (some account) db = ok (impact_of id account db)

unfoldable pub account_deletion_impact : Text → ProviderDb → Result AccountDeletionImpact
unfolding lookup count_if is_of_account is_inherited sibling_account_ids is_empty codes
account_deletion_impact id db = impact_or_missing id (lookup id db.accounts) db
