-- ===== src/Base/Order.antt =====
-- The order of texts, and the ordered collections of the standard library over it: `BTreeSet<String>`
-- and `BTreeMap<String, V>` as ascending lists, and `sort` of a `Vec<String>`.
use git_ramus.Base.Tests.{
  Bool-cases, ◌⊎◌, inl, inr, Bool, true, false, ◌&&◌, ◌||◌, List, [], ◌∷◌, ltb, ◌==◌, if◌then◌else◌,
  ◌≡◌, refl, some, arith,
}
use mathlib.Core.List.{Memᴰ}
use mathlib.Core.List.Memᴰ
use mathlib.Core.Path.{subst}
use git_ramus.Base.Text.{Text, text_eq, text_eq_iff}
use git_ramus.Base.Table.{Table, lookup}

-- The order of the UTF-8 encodings, which is that of the code points: `Ord` of `String`, and that
-- of SQLite.
unfoldable pub text_before : Text → Text → Bool
text_before [] [] = false
text_before [] (_ ∷ _) = true
text_before (_ ∷ _) [] = false
text_before (a ∷ s) (b ∷ t) = ltb a b || (a == b && text_before s t)

-- `BTreeSet::insert`
unfoldable pub set_insert : Text → List Text → List Text
set_insert k [] = k ∷ []
set_insert k (j ∷ js) =
    if text_eq j k then j ∷ js else if text_before j k then j ∷ set_insert k js else k ∷ j ∷ js

-- `BTreeSet::extend`
unfoldable pub set_extend : List Text → List Text → List Text
unfolding set_insert
set_extend set [] = set
set_extend set (k ∷ ks) = set_extend (set_insert k set) ks

-- `sort`
unfoldable pub insert_sorted : Text → List Text → List Text
insert_sorted k [] = k ∷ []
insert_sorted k (j ∷ js) = if text_before j k then j ∷ insert_sorted k js else k ∷ j ∷ js

unfoldable pub sort : List Text → List Text
unfolding insert_sorted
sort [] = []
sort (k ∷ ks) = insert_sorted k (sort ks)

-- `ORDER BY`, by a test whether one row stands before another.
module _ {A : Type 0} (before : A → A → Bool) where
  unfoldable pub place : A → List A → List A
  place a [] = a ∷ []
  place a (b ∷ rest) = if before b a then b ∷ place a rest else a ∷ b ∷ rest

  unfoldable pub order_by : List A → List A
  unfolding place
  order_by [] = []
  order_by (a ∷ rest) = place a (order_by rest)

  mem-place : (x a : A) (l : List A) → Memᴰ x (place a l) → (x ≡ a) ⊎ Memᴰ x l
  unfolding place
  mem-place x a [] h = Memᴰ.cases_cons h
  mem-place x a (b ∷ rest) h = elim (Bool-cases (before b a)) [
    | inl e ↦ elim (Memᴰ.cases_cons (subst (Memᴰ x) (rw e refl) h)) [
      | inl same ↦ inr (Memᴰ.head same)
      | inr later ↦ elim (mem-place x a rest later) [
        | inl same ↦ inl same
        | inr there ↦ inr (Memᴰ.tail there)
      ]
    ]
    | inr e ↦ Memᴰ.cases_cons (subst (Memᴰ x) (rw e refl) h)
  ]

  pub mem-order_by : (x : A) (l : List A) → Memᴰ x (order_by l) → Memᴰ x l
  unfolding order_by
  mem-order_by x [] h = h
  mem-order_by x (a ∷ rest) h = elim (mem-place x a (order_by rest) h) [
    | inl same ↦ Memᴰ.head same
    | inr there ↦ Memᴰ.tail (mem-order_by x rest there)
  ]

module _ {V : Type 0} where
  -- `BTreeMap::insert`
  unfoldable pub map_insert : Text → V → Table V → Table V
  map_insert k v [] = (k, v) ∷ []
  map_insert k v ((j, w) ∷ m) =
      if text_eq j k
      then (k, v) ∷ m
      else if text_before j k
      then (j, w) ∷ map_insert k v m
      else (k, v) ∷ (j, w) ∷ m

  -- `keys`
  unfoldable pub keys : Table V → List Text
  keys [] = []
  keys ((k, v) ∷ m) = k ∷ keys m

  pub lookup-map_insert :
      (k j : Text) (v : V) (m : Table V)
      → lookup j (map_insert k v m) ≡ (if text_eq k j then some v else lookup j m)
  unfolding lookup map_insert
  lookup-map_insert k j v [] = refl
  lookup-map_insert k j v ((i, w) ∷ m) =
      ground (arith, text_eq_iff k j, text_eq_iff i k, text_eq_iff i j, lookup-map_insert k j v m)
