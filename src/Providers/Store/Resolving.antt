-- ===== src/Providers/Store/Resolving.antt =====
-- Which resolutions of a deletion of an account succeed, in providers/store.rs.
use git_ramus.Base.Tests.{
  ℕ, ◌≡◌, refl, Bool, true, false, not, ◌&&◌, Option, none, some, List, [], ◌∷◌, arith, ap, sym,
  ◌∙◌, if-eq, Bool-cases, inl, inr, not-false, if◌then◌else◌,
}
use git_ramus.Base.Lists.{any, all, filter}
use git_ramus.Base.Text.{Text, text_eq, text_eq_iff, option_text_eq, option_text_eq_iff, is_empty}
use git_ramus.Base.Table.{Table, lookup}
use git_ramus.Base.Keys.{Distinct}
use git_ramus.Base.Error.{Result, ok, is_ok, ok_injective, unless-eq-ok}
use git_ramus.Providers.Store.{
  ProviderAccount, ProviderBinding, AccountDeletionResolution, reassign, inherit, unbind, belongs,
  is_linked, is_of_account, is_inherited, rebound, rebind_all, resolve_bindings, replace_default,
  sibling_account_ids,
}
use git_ramus.Providers.Store.Siblings.{sibling_row}

abbrev pub fits_default : Bool → List Text → Option Text → Bool
fits_default needed siblings none = not needed
fits_default needed siblings (some account) = needed && any (text_eq account) siblings

abbrev pub fits_resolution : List Text → AccountDeletionResolution → Bool
fits_resolution siblings (reassign account) = any (text_eq account) siblings
fits_resolution siblings _ = true

pub replaced :
    (a : ProviderAccount) (siblings : List Text) (new_default : Option Text)
    (t : Table ProviderAccount)
    → is_ok (replace_default a siblings new_default t)
      ≡ fits_default (a.is_default && not (is_empty siblings)) siblings new_default
unfolding replace_default
replaced a siblings none t = ground arith
replaced a siblings (some n) t = ground arith

rebind_free :
    (id : Text) (account : Option Text) (at : ℕ) (bs : List ProviderBinding)
    → option_text_eq account (some id) ≡ false
    → any (is_of_account id) (rebind_all id account at bs) ≡ false
unfolding any is_of_account rebind_all
rebind_free id account at [] other = refl
rebind_free id account at (b ∷ rest) other = ground (arith, rebind_free id account at rest other)

any-filter :
    {A : Type 0} (p q : A → Bool) (xs : List A) → any p xs ≡ false → any p (filter q xs) ≡ false
unfolding any filter
any-filter p q [] h = refl
any-filter p q (x ∷ xs) h = ground (arith, any-filter p q xs)

any-filter-not :
    {A : Type 0} (p : A → Bool) (xs : List A) → any p (filter (λ x. not (p x)) xs) ≡ false
unfolding any filter
any-filter-not p [] = refl
any-filter-not p (x ∷ xs) = ground (arith, any-filter-not p xs)

named_account :
    (id : Text) (b : ProviderBinding) → is_of_account id b ≡ true → b.provider_account_id ≡ some id
unfolding is_of_account
named_account id b h = (option_text_eq_iff b.provider_account_id (some id)).0 h

link_of :
    (id : Text) (t : Table ProviderAccount) (b : ProviderBinding)
    → b.provider_account_id ≡ some id
    → is_linked t b ≡ true
    → belongs id b.provider_instance_id t ≡ true
unfolding is_linked
link_of id t b e h = rw e at h

belongs_row :
    (id i : Text) (a : ProviderAccount) (t : Table ProviderAccount)
    → lookup id t ≡ some a
    → belongs id i t ≡ text_eq a.instance_id i
unfolding belongs
belongs_row id i a t here = rw (here, belongs) refl

module _ (id : Text) (a : ProviderAccount) (t : Table ProviderAccount) (here : lookup id t ≡ some a)
    (x : Text) (at : ℕ) (inside : belongs x a.instance_id t ≡ true) where
  rebound-linked :
      (b : ProviderBinding)
      → is_linked t b ≡ true
      → is_linked t (if is_of_account id b then rebound b (some x) at else b) ≡ true
  unfolding is_linked
  rebound-linked b h = elim (Bool-cases (is_of_account id b)) [
    | inr e ↦ rw e h
    | inl e ↦
        let linked = link_of id t b (named_account id b e) h in
        let same =
          (text_eq_iff a.instance_id b.provider_instance_id).0
            (sym (belongs_row id b.provider_instance_id a t here) ∙ linked) in
        rw e (ap (λ i. belongs x i t) (sym same) ∙ inside)
  ]

  rebind_linked :
      (bs : List ProviderBinding)
      → all (is_linked t) bs ≡ true
      → all (is_linked t) (rebind_all id (some x) at bs) ≡ true
  unfolding all rebind_all
  rebind_linked [] h = refl
  rebind_linked (b ∷ rest) h = ground (arith, rebind_linked rest, rebound-linked b)

differs :
    (id x : Text) (siblings : List Text)
    → any (text_eq id) siblings ≡ false
    → any (text_eq x) siblings ≡ true
    → option_text_eq (some x) (some id) ≡ false
differs id x siblings apart member = elim (Bool-cases (text_eq x id)) [
  | inr e ↦ unfold option_text_eq in e
  | inl e ↦
      let same = (text_eq_iff x id).0 e in let both = ap (λ y. any (text_eq y) siblings) same in cc
]

module _ (id : Text) (a : ProviderAccount) (at : ℕ) (t : Table ProviderAccount)
    (bs : List ProviderBinding) where
  abbrev pub resolved : List Text → AccountDeletionResolution → Result (List ProviderBinding)
  resolved siblings resolution = resolve_bindings id a siblings resolution at t bs

  -- No binding that a resolution leaves names the account.
  pub resolved_free :
      (siblings : List Text) (resolution : AccountDeletionResolution) {bs' : List ProviderBinding}
      → any (text_eq id) siblings ≡ false
      → resolved siblings resolution ≡ ok bs'
      → any (is_of_account id) bs' ≡ false
  unfolding resolve_bindings
  resolved_free siblings (reassign x) apart h =
      let (member, h₁) = unless-eq-ok (not (any (text_eq x) siblings)) _ _ h in
      let (valid, last) =
        unless-eq-ok (not (all (is_linked t) (rebind_all id (some x) at bs))) _ _ h₁ in
      ap (any (is_of_account id)) (sym (ok_injective last))
      ∙ rebind_free id (some x) at bs (differs id x siblings apart (not-false member))
  resolved_free siblings inherit apart h =
      ap (any (is_of_account id)) (sym (ok_injective h)) ∙ rebind_free id none at bs refl
  resolved_free siblings unbind apart h =
      let kept = filter (λ b. not (is_of_account id b)) bs in
      elim (if-eq (a.is_default && is_empty siblings) _ _ h) [
        | inl e ↦
            ap (any (is_of_account id)) (sym (ok_injective e.1))
            ∙ any-filter (is_of_account id) (λ b. not (is_inherited a.instance_id b)) kept
                (any-filter-not (is_of_account id) bs)
        | inr e ↦
            ap (any (is_of_account id)) (sym (ok_injective e.1))
            ∙ any-filter-not (is_of_account id) bs
      ]

  -- A resolution succeeds exactly if it names another account of the instance, or none.
  pub resolved_accepts :
      (resolution : AccountDeletionResolution)
      → Distinct t
      → lookup id t ≡ some a
      → all (is_linked t) bs ≡ true
      → is_ok (resolved (sibling_account_ids a.instance_id id t) resolution)
        ≡ fits_resolution (sibling_account_ids a.instance_id id t) resolution
  unfolding resolve_bindings
  resolved_accepts (reassign x) d here linked =
      elim (Bool-cases (any (text_eq x) (sibling_account_ids a.instance_id id t))) [
        | inr e ↦ rw e refl
        | inl e ↦
            let (b, there, inside, other) = sibling_row a.instance_id id x t d e in
            let valid =
              rebind_linked id a t here x at (belongs_row x a.instance_id b t there ∙ inside) bs
                linked in
            rw (e, valid) refl
      ]
  resolved_accepts inherit d here linked = refl
  resolved_accepts unbind d here linked = ground arith
