-- ===== src/Base/Keys.antt =====
-- Tables in which no key stands twice, as in a map of Rust or a SQL table with a primary key.
use git_ramus.Base.Tests.{
  ◌+◌, ◌≤◌, ◌<◌, ◌≡◌, refl, Bool, Option, none, some, [], ◌∷◌, arith, Bool-cases, inl, inr,
  if◌then◌else◌,
}
use git_ramus.Base.Lists.{length}
use git_ramus.Base.Text.{Text, text_eq, text_eq_iff}
use git_ramus.Base.Table.{Table, lookup, insert, remove, retain, lookup-insert, lookup-remove}

abbrev pub Distinct : {V : Type 0} → Table V → Type 0
Distinct [] = Unit {0}
Distinct ((k, v) ∷ m) = (lookup k m ≡ none) × Distinct m

-- What is left of a value that a test may drop.
abbrev pub filtered : {V : Type 0} → (V → Bool) → Option V → Option V
filtered p none = none
filtered p (some v) = if p v then some v else none

module _ {V : Type 0} where
  pub insert-Distinct : (k : Text) (v : V) (m : Table V) → Distinct m → Distinct (insert k v m)
  unfolding insert
  insert-Distinct k v [] d = (unfold lookup in refl, tt)
  insert-Distinct k v ((j, w) ∷ m) d = elim (Bool-cases (text_eq j k)) [
    | inl e ↦ rw e (ground (arith, text_eq_iff j k), d.1)
    | inr e ↦ rw e (
      ground (arith, lookup-insert k j v m, text_eq_iff k j, text_eq_iff j k),
      insert-Distinct k v m d.1,
    )
  ]

  pub remove-Distinct : (k : Text) (m : Table V) → Distinct m → Distinct (remove k m)
  unfolding remove
  remove-Distinct k [] d = tt
  remove-Distinct k ((j, w) ∷ m) d = elim (Bool-cases (text_eq j k)) [
    | inl e ↦ rw e (remove-Distinct k m d.1)
    | inr e ↦ rw e (ground (arith, lookup-remove k j m), remove-Distinct k m d.1)
  ]

  lookup-retain_absent :
      (p : V → Bool) (k : Text) (m : Table V) → lookup k m ≡ none → lookup k (retain p m) ≡ none
  unfolding lookup retain
  lookup-retain_absent p k [] h = refl
  lookup-retain_absent p k ((j, w) ∷ m) h = ground (arith, lookup-retain_absent p k m)

  pub retain-Distinct : (p : V → Bool) (m : Table V) → Distinct m → Distinct (retain p m)
  unfolding retain
  retain-Distinct p [] d = tt
  retain-Distinct p ((j, w) ∷ m) d = elim (Bool-cases (p w)) [
    | inl e ↦ rw e (lookup-retain_absent p j m d.0, retain-Distinct p m d.1)
    | inr e ↦ rw e (retain-Distinct p m d.1)
  ]

  pub lookup-retain :
      (p : V → Bool) (k : Text) (m : Table V)
      → Distinct m
      → lookup k (retain p m) ≡ filtered p (lookup k m)
  unfolding lookup retain
  lookup-retain p k [] d = refl
  lookup-retain p k ((j, w) ∷ m) d =
      ground (arith, lookup-retain p k m d.1, lookup-retain_absent p j m d.0, text_eq_iff j k)

  pub length-insert : (k : Text) (v : V) (m : Table V) → length (insert k v m) ≤ length m + 1
  unfolding insert
  length-insert k v [] = omega arith
  length-insert k v ((j, w) ∷ m) = ground (arith, length-insert k v m)

  pub length-retain : (p : V → Bool) (m : Table V) → length (retain p m) ≤ length m
  unfolding retain
  length-retain p [] = omega arith
  length-retain p ((j, w) ∷ m) = ground (arith, length-retain p m)

  pub length-remove : (k : Text) (m : Table V) → length (remove k m) ≤ length m
  unfolding remove
  length-remove k [] = omega arith
  length-remove k ((j, w) ∷ m) = ground (arith, length-remove k m)

  pub length-remove_present :
      (k : Text) (v : V) (m : Table V) → lookup k m ≡ some v → length (remove k m) < length m
  unfolding remove lookup
  length-remove_present k v [] h = cc
  length-remove_present k v ((j, w) ∷ m) h =
      ground (arith, length-remove_present k v m, length-remove k m)
