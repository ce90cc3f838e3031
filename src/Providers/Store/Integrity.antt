-- ===== src/Providers/Store/Integrity.antt =====
-- The foreign keys of the tables of providers/store.rs, over all calls.
pub mod Runs
use git_ramus.Base.Tests.{
  ℕ, ◌≡◌, refl, Bool, true, false, not, ◌&&◌, ◌||◌, Option, none, some, List, [], ◌∷◌, arith, ap,
  sym, ◌∙◌, if-eq, Bool-cases, Option-cases, inl, inr, is_some, is_none, not-false, if◌then◌else◌,
}
use mathlib.Core.Path.{subst}
use git_ramus.Base.Lists.{any, all, filter, all-implied, all-filter}
use git_ramus.Base.Text.{Text, text_eq, text_eq_iff, option_text_eq, is_empty}
use git_ramus.Base.Table.{Table, lookup, insert, remove, lookup-insert, lookup-remove}
use git_ramus.Base.Keys.{Distinct}
use git_ramus.Base.Error.{Result, ok, err, and_then-eq-ok, ok_injective, unless-eq-ok}
use git_ramus.Providers.Store.{
  Instant, ProviderInstance, ProviderAccount, ProviderBinding, ProviderDb,
  AccountDeletionResolution, belongs, is_linked, is_of_account, mark_default, reset_defaults,
  move_default, rebind_all, resolve_bindings, reassign, inherit, unbind, is_inherited,
  replace_default, deletion,
}
use git_ramus.Providers.Store.Instances.{has_account, is_of_instance}
use git_ramus.Providers.Store.Bindings.{put_binding}
use git_ramus.Providers.Store.Siblings.{sibling_row, member_of}
use git_ramus.Providers.Store.Defaults.{OneDefault, exec-OneDefault}
use git_ramus.Providers.Store.Linking.{
  is_owned, is_placed, is_linked_mono, belongs-insert_new, belongs-insert_same, belongs-remove,
  belongs-reset, belongs-mark, put_instance-kept, drop_instance-owned, drop_instance-placed,
  insert-owned, remove-owned, reset-owned, mark-owned, all-put_binding, rebind_all-placed,
  rebind_none-linked, linked-remove,
}

-- Every account is of a stored instance, and every binding of a stored instance and, where it names
-- an account, of a stored account of that instance.
pub record HasKeys (db : ProviderDb) : Type 0 where
  pub owned : all (is_owned db.instances) db.accounts ≡ true
  pub placed : all (is_placed db.instances) db.bindings ≡ true
  pub linked : all (is_linked db.accounts) db.bindings ≡ true

-- The bindings that a resolution leaves keep their keys.
pub resolve_bindings-kept :
    (id : Text) (a : ProviderAccount) (siblings : List Text)
    (resolution : AccountDeletionResolution) (at : ℕ) (instances : Table ProviderInstance)
    (t : Table ProviderAccount) (bs : List ProviderBinding) {bs' : List ProviderBinding}
    → all (is_placed instances) bs ≡ true
    → all (is_linked t) bs ≡ true
    → resolve_bindings id a siblings resolution at t bs ≡ ok bs'
    → (all (is_placed instances) bs' ≡ true) × (all (is_linked t) bs' ≡ true)
unfolding resolve_bindings
resolve_bindings-kept id a siblings (reassign x) at instances t bs placed linked h =
    let (member, h₁) = unless-eq-ok (not (any (text_eq x) siblings)) _ _ h in
    let (valid, last) =
      unless-eq-ok (not (all (is_linked t) (rebind_all id (some x) at bs))) _ _ h₁ in
    let same = ok_injective last in
    (
      ap (all (is_placed instances)) (sym same)
          ∙ rebind_all-placed instances id (some x) at bs
          ∙ placed,
      ap (all (is_linked t)) (sym same) ∙ not-false valid,
    )
resolve_bindings-kept id a siblings inherit at instances t bs placed linked h =
    let same = ok_injective h in
    (
      ap (all (is_placed instances)) (sym same)
          ∙ rebind_all-placed instances id none at bs
          ∙ placed,
      ap (all (is_linked t)) (sym same) ∙ rebind_none-linked id at t bs linked,
    )
resolve_bindings-kept id a siblings unbind at instances t bs placed linked h =
    let kept = filter (λ b. not (is_of_account id b)) bs in
    let left = λ (p : ProviderBinding → Bool). all-filter p (λ b. not (is_of_account id b)) bs in
    let less =
      λ (p : ProviderBinding → Bool). all-filter p (λ b. not (is_inherited a.instance_id b)) kept in
    elim (if-eq (a.is_default && is_empty siblings) _ _ h) [
      | inl e ↦
          let same = ok_injective e.1 in
          (
            ap (all (is_placed instances)) (sym same)
                ∙ less (is_placed instances) (left (is_placed instances) placed),
            ap (all (is_linked t)) (sym same) ∙ less (is_linked t) (left (is_linked t) linked),
          )
      | inr e ↦
          let same = ok_injective e.1 in
          (
            ap (all (is_placed instances)) (sym same) ∙ left (is_placed instances) placed,
            ap (all (is_linked t)) (sym same) ∙ left (is_linked t) linked,
          )
    ]

-- A new default account moves no account to another instance.
pub record IsSameShape (instances : Table ProviderInstance) (t u : Table ProviderAccount)
    : Type 0 where
  pub owned : all (is_owned instances) u ≡ all (is_owned instances) t
  pub belonging : (j i : Text) → belongs j i u ≡ belongs j i t

pub move_default-IsSameShape :
    (instances : Table ProviderInstance) (id i : Text) (t : Table ProviderAccount)
    → IsSameShape instances t (move_default id i t)
move_default-IsSameShape instances id i t = record {
  owned = mark-owned instances id i (reset_defaults i t) ∙ reset-owned instances i t;
  belonging = λ j k. belongs-mark id i (reset_defaults i t) j k ∙ belongs-reset i t j k;
}

replace_default-IsSameShape :
    (instances : Table ProviderInstance) (a : ProviderAccount) (siblings : List Text)
    (new_default : Option Text) (t : Table ProviderAccount) {u : Table ProviderAccount}
    → replace_default a siblings new_default t ≡ ok u
    → IsSameShape instances t u
unfolding replace_default
replace_default-IsSameShape instances a siblings none t h =
    elim (if-eq (a.is_default && not (is_empty siblings)) _ _ h) [
      | inl e ↦ let wrong = e.1 in cc
      | inr e ↦
          subst (IsSameShape instances t) (ok_injective e.1)
            (record { owned = refl; belonging = λ j i. refl })
    ]
replace_default-IsSameShape instances a siblings (some n) t h =
    elim (if-eq (a.is_default && not (is_empty siblings)) _ _ h) [
      | inr e ↦ let wrong = e.1 in cc
      | inl e ↦
          let (member, last) = unless-eq-ok (not (any (text_eq n) siblings)) _ _ e.1 in
          subst (IsSameShape instances t) (ok_injective last)
            (move_default-IsSameShape instances n a.instance_id t)
    ]

pub deletion-HasKeys :
    (id : Text) (at : Instant) (resolution : AccountDeletionResolution) (new_default : Option Text)
    (a : ProviderAccount) (siblings : List Text) (db : ProviderDb) {after : ProviderDb}
    → HasKeys db
    → deletion id at resolution new_default a siblings db ≡ ok after
    → HasKeys after
deletion-HasKeys id at resolution new_default a siblings db keys h =
    let (bindings, resolved, h₁) =
      and_then-eq-ok (resolve_bindings id a siblings resolution at.nanos db.accounts db.bindings) _
        h in
    let (accounts, replaced, h₂) =
      and_then-eq-ok (replace_default a siblings new_default db.accounts) _ h₁ in
    let (free, last) = unless-eq-ok (any (is_of_account id) bindings) _ _ h₂ in
    let (placed, linked) =
      resolve_bindings-kept id a siblings resolution at.nanos db.instances db.accounts db.bindings
        keys.placed keys.linked resolved in
    let shape =
      replace_default-IsSameShape db.instances a siblings new_default db.accounts replaced in
    subst HasKeys (ok_injective last) (record {
      owned = remove-owned db.instances id accounts (shape.owned ∙ keys.owned);
      placed = placed;
      linked = linked-remove id db.accounts accounts bindings shape.belonging free linked;
    })
