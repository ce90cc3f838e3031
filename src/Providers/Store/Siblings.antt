-- ===== src/Providers/Store/Siblings.antt =====
-- The other accounts of an instance, in providers/store.rs.
use git_ramus.Base.Tests.{
  ◌≡◌, refl, Bool, true, false, not, ◌&&◌, ◌||◌, Option, none, some, List, [], ◌∷◌, arith, ap, sym,
  ◌∙◌, Bool-cases, inl, inr,
}
use git_ramus.Base.Lists.{any}
use git_ramus.Base.Text.{Text, text_eq, text_eq_iff}
use git_ramus.Base.Order.{set_insert}
use git_ramus.Base.Table.{Table, lookup}
use git_ramus.Base.Keys.{Distinct}
use git_ramus.Providers.Store.{ProviderAccount, sibling_account_ids, belongs}

member_case :
    (o : Option ProviderAccount) (i : Text)
    → (elim o as (λ _. Bool) [ none ↦ false | some a ↦ text_eq a.instance_id i ]) ≡ true
    → (a : ProviderAccount) × (o ≡ some a) × (text_eq a.instance_id i ≡ true)
member_case none i h = cc
member_case (some a) i h = (a, refl, h)

pub member_of :
    (id i : Text) (t : Table ProviderAccount)
    → belongs id i t ≡ true
    → (a : ProviderAccount) × (lookup id t ≡ some a) × (text_eq a.instance_id i ≡ true)
unfolding belongs
member_of id i t h = member_case (lookup id t) i h

any-set_insert :
    (n k : Text) (ks : List Text)
    → any (text_eq n) (set_insert k ks) ≡ (text_eq n k || any (text_eq n) ks)
unfolding any set_insert
any-set_insert n k [] = refl
any-set_insert n k (j ∷ js) =
    ground (arith, any-set_insert n k js, text_eq_iff j k, text_eq_iff n j, text_eq_iff n k)

-- A sibling that is not the first row is one of the later rows.
sibling_later :
    (i id n j : Text) (a : ProviderAccount) (rest : Table ProviderAccount)
    → text_eq j n ≡ false
    → any (text_eq n) (sibling_account_ids i id ((j, a) ∷ rest)) ≡ true
    → any (text_eq n) (sibling_account_ids i id rest) ≡ true
unfolding sibling_account_ids
sibling_later i id n j a rest e h =
    ground
      (arith, any-set_insert n j (sibling_account_ids i id rest), text_eq_iff j n, text_eq_iff n j)

pub sibling_row :
    (i id n : Text) (t : Table ProviderAccount)
    → Distinct t
    → any (text_eq n) (sibling_account_ids i id t) ≡ true
    → (b : ProviderAccount) × (lookup n t ≡ some b)
      × (text_eq b.instance_id i ≡ true)
      × (text_eq n id ≡ false)
unfolding any sibling_account_ids lookup
sibling_row i id n [] d h = cc
sibling_row i id n ((j, a) ∷ rest) d h = elim (Bool-cases (text_eq j n)) [
  | inl e ↦
      let same = (text_eq_iff j n).0 e in
      let gone : lookup n rest ≡ none = ap (λ x. lookup x rest) (sym same) ∙ d.0 in
      elim (Bool-cases (text_eq a.instance_id i && not (text_eq j id))) [
        | inl f ↦
            rw e (a, refl, ground (arith, f), ground (arith, f, text_eq_iff j id, text_eq_iff n id))
        | inr f ↦
            let (b, here, inside, other) = sibling_row i id n rest d.1 (ground (arith, f, h)) in cc
      ]
  | inr e ↦ rw e (sibling_row i id n rest d.1 (sibling_later i id n j a rest e h))
]
