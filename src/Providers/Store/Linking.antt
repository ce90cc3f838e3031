-- ===== src/Providers/Store/Linking.antt =====
-- The bindings and the accounts that they name, over all calls of `ProviderStore`.
use git_ramus.Base.Tests.{
  ℕ, ◌≡◌, refl, Bool, true, false, Option, none, some, List, [], ◌∷◌, arith, ◌∙◌, Bool-cases,
  Option-cases, inl, inr, is_some, if◌then◌else◌,
}
use git_ramus.Base.Lists.{any, all, all-implied}
use git_ramus.Base.Text.{Text, text_eq, text_eq_iff, option_text_eq}
use git_ramus.Base.Table.{Table, lookup, insert, remove, lookup-insert, lookup-remove}
use git_ramus.Providers.Store.{
  ProviderInstance, ProviderAccount, ProviderBinding, belongs, rebound, is_linked, is_of_account,
  mark_default, reset_defaults, rebind_all,
}
use git_ramus.Providers.Store.Instances.{has_account, is_of_instance}
use git_ramus.Providers.Store.Bindings.{put_binding}

pub belongs-insert_new :
    (id : Text) (a : ProviderAccount) (t : Table ProviderAccount) (j i : Text)
    → lookup id t ≡ none
    → belongs j i t ≡ true
    → belongs j i (insert id a t) ≡ true
unfolding belongs
belongs-insert_new id a t j i fresh h = ground (arith, lookup-insert id j a t, text_eq_iff id j)

pub belongs-insert_same :
    (id : Text) (a b : ProviderAccount) (t : Table ProviderAccount) (j i : Text)
    → lookup id t ≡ some b
    → a.instance_id ≡ b.instance_id
    → belongs j i t ≡ true
    → belongs j i (insert id a t) ≡ true
unfolding belongs
belongs-insert_same id a b t j i here same h =
    ground (arith, lookup-insert id j a t, text_eq_iff id j)

pub belongs-remove :
    (id : Text) (t : Table ProviderAccount) (j i : Text)
    → text_eq id j ≡ false
    → belongs j i (remove id t) ≡ belongs j i t
unfolding belongs
belongs-remove id t j i other = ground (arith, lookup-remove id j t)

pub belongs-reset :
    (k : Text) (t : Table ProviderAccount) (j i : Text)
    → belongs j i (reset_defaults k t) ≡ belongs j i t
unfolding belongs reset_defaults lookup
belongs-reset k [] j i = refl
belongs-reset k ((id, a) ∷ rest) j i = ground (arith, belongs-reset k rest j i)

pub belongs-mark :
    (id k : Text) (t : Table ProviderAccount) (j i : Text)
    → belongs j i (mark_default id k t) ≡ belongs j i t
unfolding belongs mark_default lookup
belongs-mark id k [] j i = refl
belongs-mark id k ((x, a) ∷ rest) j i = ground (arith, belongs-mark id k rest j i)

pub is_linked_mono :
    (t u : Table ProviderAccount) (b : ProviderBinding)
    → ((j i : Text) → belongs j i t ≡ true → belongs j i u ≡ true)
    → is_linked t b ≡ true
    → is_linked u b ≡ true
unfolding is_linked
is_linked_mono t u b kept h = elim (Option-cases b.provider_account_id) [
  | inl e ↦ rw e refl
  | inr (j, e) ↦ rw e (kept j b.provider_instance_id (rw e at h))
]

unfoldable pub is_owned : Table ProviderInstance → Text × ProviderAccount → Bool
is_owned instances row = is_some (lookup row.1.instance_id instances)

unfoldable pub is_placed : Table ProviderInstance → ProviderBinding → Bool
is_placed instances b = is_some (lookup b.provider_instance_id instances)

lookup-insert_some :
    {V : Type 0} (id k : Text) (v : V) (t : Table V)
    → is_some (lookup k t) ≡ true
    → is_some (lookup k (insert id v t)) ≡ true
lookup-insert_some id k v t h = ground (arith, lookup-insert id k v t)

-- A row for an instance, new or replaced.
pub put_instance-kept :
    (id : Text) (value : ProviderInstance) (t : Table ProviderInstance)
    (accounts : Table ProviderAccount) (bindings : List ProviderBinding)
    → (all (is_owned t) accounts ≡ true) × (all (is_placed t) bindings ≡ true)
    → (all (is_owned (insert id value t)) accounts ≡ true)
      × (all (is_placed (insert id value t)) bindings ≡ true)
unfolding is_owned is_placed
put_instance-kept id value t accounts bindings (owned, placed) = (
  all-implied _ _ accounts (λ r h. lookup-insert_some id r.1.instance_id value t h) owned,
  all-implied _ _ bindings (λ b h. lookup-insert_some id b.provider_instance_id value t h) placed,
)

pub drop_instance-owned :
    (id : Text) (t : Table ProviderInstance) (accounts : Table ProviderAccount)
    → has_account id accounts ≡ false
    → all (is_owned t) accounts ≡ true
    → all (is_owned (remove id t)) accounts ≡ true
unfolding has_account all is_owned
drop_instance-owned id t [] free h = refl
drop_instance-owned id t ((j, a) ∷ rest) free h = ground (
  arith,
  drop_instance-owned id t rest,
  lookup-remove id a.instance_id t,
  text_eq_iff a.instance_id id,
  text_eq_iff id a.instance_id,
)

pub drop_instance-placed :
    (id : Text) (t : Table ProviderInstance) (bindings : List ProviderBinding)
    → any (is_of_instance id) bindings ≡ false
    → all (is_placed t) bindings ≡ true
    → all (is_placed (remove id t)) bindings ≡ true
unfolding any is_of_instance all is_placed
drop_instance-placed id t [] free h = refl
drop_instance-placed id t (b ∷ rest) free h = ground (
  arith,
  drop_instance-placed id t rest,
  lookup-remove id b.provider_instance_id t,
  text_eq_iff b.provider_instance_id id,
  text_eq_iff id b.provider_instance_id,
)

module _ (instances : Table ProviderInstance) where
  pub insert-owned :
      (id : Text) (a : ProviderAccount) (t : Table ProviderAccount)
      → is_some (lookup a.instance_id instances) ≡ true
      → all (is_owned instances) t ≡ true
      → all (is_owned instances) (insert id a t) ≡ true
  unfolding all insert is_owned
  insert-owned id a [] here h = ground arith
  insert-owned id a ((j, b) ∷ rest) here h = ground (arith, insert-owned id a rest)

  pub remove-owned :
      (id : Text) (t : Table ProviderAccount)
      → all (is_owned instances) t ≡ true
      → all (is_owned instances) (remove id t) ≡ true
  unfolding all remove
  remove-owned id [] h = refl
  remove-owned id ((j, b) ∷ rest) h = ground (arith, remove-owned id rest)

  pub reset-owned :
      (i : Text) (t : Table ProviderAccount)
      → all (is_owned instances) (reset_defaults i t) ≡ all (is_owned instances) t
  unfolding all reset_defaults is_owned
  reset-owned i [] = refl
  reset-owned i ((j, b) ∷ rest) = ground (arith, reset-owned i rest)

  pub mark-owned :
      (id i : Text) (t : Table ProviderAccount)
      → all (is_owned instances) (mark_default id i t) ≡ all (is_owned instances) t
  unfolding all mark_default is_owned
  mark-owned id i [] = refl
  mark-owned id i ((j, b) ∷ rest) = ground (arith, mark-owned id i rest)

pub all-put_binding :
    (p : ProviderBinding → Bool) (value : ProviderBinding) (bs : List ProviderBinding)
    → p value ≡ true
    → all p bs ≡ true
    → all p (put_binding value bs) ≡ true
unfolding all put_binding
all-put_binding p value [] here h = ground arith
all-put_binding p value (b ∷ rest) here h = ground (arith, all-put_binding p value rest)

pub rebind_all-placed :
    (instances : Table ProviderInstance) (id : Text) (account : Option Text) (at : ℕ)
    (bs : List ProviderBinding)
    → all (is_placed instances) (rebind_all id account at bs) ≡ all (is_placed instances) bs
unfolding all is_placed rebind_all
rebind_all-placed instances id account at [] = refl
rebind_all-placed instances id account at (b ∷ rest) =
    ground (arith, rebind_all-placed instances id account at rest)

rebound-none-linked :
    (id : Text) (at : ℕ) (t : Table ProviderAccount) (b : ProviderBinding)
    → is_linked t b ≡ true
    → is_linked t (if is_of_account id b then rebound b none at else b) ≡ true
unfolding is_linked
rebound-none-linked id at t b h = elim (Bool-cases (is_of_account id b)) [
  | inl e ↦ rw e refl
  | inr e ↦ rw e h
]

pub rebind_none-linked :
    (id : Text) (at : ℕ) (t : Table ProviderAccount) (bs : List ProviderBinding)
    → all (is_linked t) bs ≡ true
    → all (is_linked t) (rebind_all id none at bs) ≡ true
unfolding all rebind_all
rebind_none-linked id at t [] h = refl
rebind_none-linked id at t (b ∷ rest) h =
    ground (arith, rebind_none-linked id at t rest, rebound-none-linked id at t b)

link_survives :
    (id : Text) (t u : Table ProviderAccount) (b : ProviderBinding)
    → ((j i : Text) → belongs j i u ≡ belongs j i t)
    → is_of_account id b ≡ false
    → is_linked t b ≡ true
    → is_linked (remove id u) b ≡ true
unfolding is_linked is_of_account option_text_eq
link_survives id t u b same other h = elim (Option-cases b.provider_account_id) [
  | inl e ↦ rw e refl
  | inr (j, e) ↦
      let apart : text_eq id j ≡ false =
        ground (arith, rw e at other, text_eq_iff id j, text_eq_iff j id) in
      rw e (
        belongs-remove id u j b.provider_instance_id apart
        ∙ same j b.provider_instance_id
        ∙ (rw e at h))
]

-- The links that do not go to an account survive its removal.
pub linked-remove :
    (id : Text) (t u : Table ProviderAccount) (bs : List ProviderBinding)
    → ((j i : Text) → belongs j i u ≡ belongs j i t)
    → any (is_of_account id) bs ≡ false
    → all (is_linked t) bs ≡ true
    → all (is_linked (remove id u)) bs ≡ true
unfolding all any
linked-remove id t u [] same free h = refl
linked-remove id t u (b ∷ rest) same free h =
    ground (arith, linked-remove id t u rest same, link_survives id t u b same)
