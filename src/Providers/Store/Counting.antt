-- ===== src/Providers/Store/Counting.antt =====
-- The accounts of an instance, and the default ones among them, counted over the table of
-- providers/store.rs.
use git_ramus.Base.Tests.{
  ℕ, ◌+◌, ◌≤◌, ◌≡◌, refl, Bool, true, false, ◌&&◌, none, some, List, [], ◌∷◌, arith, ap, sym, ◌∙◌,
  if-eq, ◌==◌, Bool-cases, inl, inr, if◌then◌else◌,
}
use git_ramus.Base.Text.{Text, text_eq, text_eq_iff, is_empty}
use git_ramus.Base.Order.{set_insert}
use git_ramus.Base.Table.{Table, lookup, insert, remove}
use git_ramus.Base.Keys.{Distinct}
use git_ramus.Providers.Store.{
  ProviderAccount, members, with_default, reset_defaults, mark_default, sibling_account_ids,
}

-- What one row adds to the two counts.
abbrev pub is_member : Text → ProviderAccount → Bool
is_member instance_id a = text_eq a.instance_id instance_id

abbrev pub is_chosen : Text → ProviderAccount → Bool
is_chosen instance_id a = is_member instance_id a && a.is_default

abbrev pub one_if : Bool → ℕ
one_if true = 1
one_if false = 0

unfoldable pub defaults : Text → Table ProviderAccount → ℕ
defaults instance_id [] = 0
defaults instance_id ((id, a) ∷ rest) = one_if (is_chosen instance_id a) + defaults instance_id rest

pub defaults-members : (i : Text) (t : Table ProviderAccount) → defaults i t ≤ members i t
unfolding defaults members
defaults-members i [] = omega arith
defaults-members i ((id, a) ∷ rest) = ground (arith, defaults-members i rest)

-- A new row at the end.
pub members-insert :
    (i id : Text) (a : ProviderAccount) (t : Table ProviderAccount)
    → lookup id t ≡ none
    → members i (insert id a t) ≡ members i t + one_if (is_member i a)
unfolding members insert lookup
members-insert i id a [] h = ground arith
members-insert i id a ((j, b) ∷ rest) h = ground (arith, members-insert i id a rest)

pub defaults-insert :
    (i id : Text) (a : ProviderAccount) (t : Table ProviderAccount)
    → lookup id t ≡ none
    → defaults i (insert id a t) ≡ defaults i t + one_if (is_chosen i a)
unfolding defaults insert lookup
defaults-insert i id a [] h = ground arith
defaults-insert i id a ((j, b) ∷ rest) h = ground (arith, defaults-insert i id a rest)

-- A row replaced.
pub members-replace :
    (i id : Text) (a b : ProviderAccount) (t : Table ProviderAccount)
    → lookup id t ≡ some b
    → a.instance_id ≡ b.instance_id
    → members i (insert id a t) ≡ members i t
unfolding members insert lookup
members-replace i id a b [] h e = cc
members-replace i id a b ((j, c) ∷ rest) h e = ground (arith, members-replace i id a b rest)

pub defaults-replace :
    (i id : Text) (a b : ProviderAccount) (t : Table ProviderAccount)
    → lookup id t ≡ some b
    → a.instance_id ≡ b.instance_id
    → a.is_default ≡ b.is_default
    → defaults i (insert id a t) ≡ defaults i t
unfolding defaults insert lookup
defaults-replace i id a b [] h e d = cc
defaults-replace i id a b ((j, c) ∷ rest) h e d = ground (arith, defaults-replace i id a b rest)

-- `remove` of a key that is not there, and of one that is there once.
remove_absent : (id : Text) (t : Table ProviderAccount) → lookup id t ≡ none → remove id t ≡ t
unfolding remove lookup
remove_absent id [] h = refl
remove_absent id ((j, b) ∷ rest) h = elim (Bool-cases (text_eq j id)) [
  | inl e ↦ ground arith
  | inr e ↦ rw e (ap (λ r. (j, b) ∷ r) (remove_absent id rest (ground arith)))
]

pub members-remove :
    (i id : Text) (a : ProviderAccount) (t : Table ProviderAccount)
    → Distinct t
    → lookup id t ≡ some a
    → members i t ≡ members i (remove id t) + one_if (is_member i a)
unfolding members remove lookup
members-remove i id a [] d h = cc
members-remove i id a ((j, b) ∷ rest) d h =
    ground (arith, members-remove i id a rest d.1, text_eq_iff j id, remove_absent id rest)

pub defaults-remove :
    (i id : Text) (a : ProviderAccount) (t : Table ProviderAccount)
    → Distinct t
    → lookup id t ≡ some a
    → defaults i t ≡ defaults i (remove id t) + one_if (is_chosen i a)
unfolding defaults remove lookup
defaults-remove i id a [] d h = cc
defaults-remove i id a ((j, b) ∷ rest) d h =
    ground (arith, defaults-remove i id a rest d.1, text_eq_iff j id, remove_absent id rest)

-- The update that leaves an instance without a default account.
pub members-reset_defaults :
    (i j : Text) (t : Table ProviderAccount) → members j (reset_defaults i t) ≡ members j t
unfolding members reset_defaults
members-reset_defaults i j [] = refl
members-reset_defaults i j ((id, a) ∷ rest) = ground (arith, members-reset_defaults i j rest)

pub defaults-reset_defaults :
    (i j : Text) (t : Table ProviderAccount)
    → defaults j (reset_defaults i t) ≡ (if text_eq i j then 0 else defaults j t)
unfolding defaults reset_defaults
defaults-reset_defaults i j [] = ground arith
defaults-reset_defaults i j ((id, a) ∷ rest) = ground (
  arith,
  defaults-reset_defaults i j rest,
  text_eq_iff i j,
  text_eq_iff a.instance_id i,
  text_eq_iff a.instance_id j,
)

mark_absent :
    (id i : Text) (t : Table ProviderAccount) → lookup id t ≡ none → mark_default id i t ≡ t
unfolding mark_default lookup
mark_absent id i [] h = refl
mark_absent id i ((j, a) ∷ rest) h = elim (Bool-cases (text_eq j id)) [
  | inl e ↦ ground arith
  | inr e ↦ rw e (ap (λ r. (j, a) ∷ r) (mark_absent id i rest (ground arith)))
]

pub members-mark_default :
    (id i j : Text) (t : Table ProviderAccount) → members j (mark_default id i t) ≡ members j t
unfolding members mark_default
members-mark_default id i j [] = refl
members-mark_default id i j ((k, a) ∷ rest) = ground (arith, members-mark_default id i j rest)

-- The update that chooses the default account of an instance that has none.
pub defaults-mark_default :
    (id i j : Text) (a : ProviderAccount) (t : Table ProviderAccount)
    → Distinct t
    → lookup id t ≡ some a
    → text_eq a.instance_id i ≡ true
    → defaults i t ≡ 0
    → defaults j (mark_default id i t) ≡ (if text_eq i j then 1 else defaults j t)
unfolding defaults mark_default lookup
defaults-mark_default id i j a [] d h m z = cc
defaults-mark_default id i j a ((k, b) ∷ rest) d h m z = elim (Bool-cases (text_eq k id)) [
  | inl e ↦
      let same = (text_eq_iff k id).0 e in
      let gone : lookup id rest ≡ none = ap (λ x. lookup x rest) (sym same) ∙ d.0 in
      rw (e, mark_absent id i rest gone)
        (ground (arith, text_eq_iff i j, text_eq_iff b.instance_id i, text_eq_iff b.instance_id j))
  | inr e ↦ rw e (
      ground (
        arith,
        defaults-mark_default id i j a rest d.1,
        text_eq_iff i j,
        text_eq_iff b.instance_id i,
        text_eq_iff b.instance_id j,
      ))
]

-- The two updates keep the keys.
pub lookup-reset_defaults :
    (i id : Text) (t : Table ProviderAccount) {a : ProviderAccount}
    → lookup id t ≡ some a
    → (b : ProviderAccount) × (lookup id (reset_defaults i t) ≡ some b)
      × (b.instance_id ≡ a.instance_id)
      × ((text_eq a.instance_id i && b.is_default) ≡ false)
unfolding lookup reset_defaults
lookup-reset_defaults i id [] h = cc
lookup-reset_defaults i id ((j, c) ∷ rest) {a} h = elim (if-eq (text_eq j id) _ _ h) [
  | inl t ↦ rw (t.0) (
    if text_eq c.instance_id i then with_default c false else c,
    refl,
    ground arith,
    ground arith,
  )
  | inr f ↦ rw (f.0) (lookup-reset_defaults i id rest f.1)
]

pub lookup-reset_absent :
    (i id : Text) (t : Table ProviderAccount)
    → lookup id t ≡ none
    → lookup id (reset_defaults i t) ≡ none
unfolding lookup reset_defaults
lookup-reset_absent i id [] h = refl
lookup-reset_absent i id ((j, c) ∷ rest) h = ground (arith, lookup-reset_absent i id rest)

pub reset_defaults-Distinct :
    (i : Text) (t : Table ProviderAccount) → Distinct t → Distinct (reset_defaults i t)
unfolding reset_defaults
reset_defaults-Distinct i [] d = tt
reset_defaults-Distinct i ((j, c) ∷ rest) (fresh, d) =
    (lookup-reset_absent i j rest fresh, reset_defaults-Distinct i rest d)

pub lookup-mark_other :
    (id i k : Text) (t : Table ProviderAccount)
    → text_eq id k ≡ false
    → lookup k (mark_default id i t) ≡ lookup k t
unfolding lookup mark_default
lookup-mark_other id i k [] h = refl
lookup-mark_other id i k ((j, c) ∷ rest) h =
    ground
      (arith, lookup-mark_other id i k rest, text_eq_iff j k, text_eq_iff j id, text_eq_iff id k)

lookup-mark_absent :
    (id i k : Text) (t : Table ProviderAccount)
    → lookup k t ≡ none
    → lookup k (mark_default id i t) ≡ none
unfolding lookup mark_default
lookup-mark_absent id i k [] h = refl
lookup-mark_absent id i k ((j, c) ∷ rest) h = ground (arith, lookup-mark_absent id i k rest)

pub mark_default-Distinct :
    (id i : Text) (t : Table ProviderAccount) → Distinct t → Distinct (mark_default id i t)
unfolding mark_default
mark_default-Distinct id i [] d = tt
mark_default-Distinct id i ((j, c) ∷ rest) (fresh, d) =
    (lookup-mark_absent id i j rest fresh, mark_default-Distinct id i rest d)

set_insert-nonempty : (k : Text) (ks : List Text) → is_empty (set_insert k ks) ≡ false
unfolding is_empty set_insert
set_insert-nonempty k [] = refl
set_insert-nonempty k (j ∷ js) = ground arith

-- The siblings of an account are the other accounts of its instance.
pub siblings_members :
    (i id : Text) (t : Table ProviderAccount)
    → is_empty (sibling_account_ids i id t) ≡ (members i (remove id t) == 0)
unfolding sibling_account_ids members remove is_empty
siblings_members i id [] = refl
siblings_members i id ((j, a) ∷ rest) =
    ground
      (arith, siblings_members i id rest, set_insert-nonempty j (sibling_account_ids i id rest))
