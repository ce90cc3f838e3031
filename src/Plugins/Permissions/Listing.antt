-- ===== src/Plugins/Permissions/Listing.antt =====
-- `PermissionGateway::list_active_resources` of plugins/permissions.rs.
use git_ramus.Base.Tests.{
  ◌≡◌, refl, ap, ◌∙◌, Bool, true, false, not, ◌&&◌, ◌||◌, List, [], ◌∷◌, arith, Bool-cases, inl,
  inr,
}
use git_ramus.Base.Lists.{any, all, filter}
use git_ramus.Base.Text.{Text, text_eq, text_eq_iff, is_empty, is_control, starts_with}
use git_ramus.Base.Order.{text_before}
use git_ramus.Base.Error.{ok}
use git_ramus.Plugins.Permissions.{
  Permission, Grant, PermissionDb, permission_eq, is_active_row, is_allowed, place, select_active,
  list_active_resources,
}
use git_ramus.Plugins.Permissions.Rows.{active}

-- No text comes before an earlier one.
unfoldable pub is_ascending : List Text → Bool
unfolding all text_before
is_ascending [] = true
is_ascending (x ∷ xs) = all (λ y. not (text_before y x)) xs && is_ascending xs

text_before-flip : (s t : Text) → text_before s t ≡ true → text_before t s ≡ false
unfolding text_before
text_before-flip (a ∷ s) (b ∷ t) h = ground (arith, text_before-flip s t)
text_before-flip [] (_ ∷ _) h = refl
text_before-flip [] [] h = refl
text_before-flip (_ ∷ _) [] h = cc

text_before_split :
    (s t u : Text) → text_before s t ≡ false → text_before t u ≡ false → text_before s u ≡ false
unfolding text_before
text_before_split (a ∷ s) (b ∷ t) (c ∷ u) h k = ground (arith, text_before_split s t u)
text_before_split [] [] u h k = k
text_before_split [] (_ ∷ _) u h k = cc
text_before_split (_ ∷ _) t [] h k = refl
text_before_split (_ ∷ _) [] (_ ∷ _) h k = cc

all-later :
    (s r : Text) (xs : List Text)
    → text_before s r ≡ false
    → all (λ y. not (text_before y s)) xs ≡ true
    → all (λ y. not (text_before y r)) xs ≡ true
unfolding all
all-later s r [] h k = refl
all-later s r (x ∷ xs) h k = ground (arith, text_before_split x s r, all-later s r xs h)

all-place : (p : Text → Bool) (r : Text) (xs : List Text) → all p (place r xs) ≡ (p r && all p xs)
unfolding all place
all-place p r [] = refl
all-place p r (x ∷ xs) = ground (arith, all-place p r xs)

place-is_ascending :
    (r : Text) (xs : List Text) → is_ascending xs ≡ true → is_ascending (place r xs) ≡ true
unfolding is_ascending place all
place-is_ascending r [] h = refl
place-is_ascending r (x ∷ xs) h = elim (Bool-cases (text_before x r)) [
  | inl e ↦ ground (
    arith,
    all-place (λ y. not (text_before y x)) r xs,
    text_before-flip x r e,
    place-is_ascending r xs,
  )
  | inr e ↦ ground (arith, all-later x r xs e)
]

select_active-is_ascending :
    (id capability : Text) (gs : List Grant) → is_ascending (select_active id capability gs) ≡ true
unfolding select_active
select_active-is_ascending id capability [] = unfold is_ascending in refl
select_active-is_ascending id capability (g ∷ gs) =
    let rest = select_active-is_ascending id capability gs in
    let placed = place-is_ascending g.permission.resource (select_active id capability gs) rest in
    ground arith

all-filter : (p q : Text → Bool) (xs : List Text) → all q xs ≡ true → all q (filter p xs) ≡ true
unfolding all filter
all-filter p q [] h = refl
all-filter p q (x ∷ xs) h = ground (arith, all-filter p q xs)

filter-is_ascending :
    (p : Text → Bool) (xs : List Text) → is_ascending xs ≡ true → is_ascending (filter p xs) ≡ true
unfolding is_ascending filter all
filter-is_ascending p [] h = refl
filter-is_ascending p (x ∷ xs) h =
    ground (arith, filter-is_ascending p xs, all-filter p (λ y. not (text_before y x)) xs)

abbrev pub listed : Text → List Text → Bool
unfolding any
listed r rs = any (text_eq r) rs

listed-place : (r s : Text) (xs : List Text) → listed r (place s xs) ≡ (text_eq r s || listed r xs)
unfolding any place
listed-place r s [] = refl
listed-place r s (x ∷ xs) = ground (arith, listed-place r s xs)

listed-filter :
    (p : Text → Bool) (r : Text) (xs : List Text) → listed r (filter p xs) ≡ (p r && listed r xs)
unfolding any filter
listed-filter p r [] = ground arith
listed-filter p r (x ∷ xs) = ground (arith, listed-filter p r xs, text_eq_iff r x)

abbrev pub permission_of : Text → Text → Text → Permission
permission_of id capability resource = record {
  plugin_id = id;
  capability = capability;
  resource = resource;
}

listed-select_active :
    (id capability r : Text) (gs : List Grant)
    → listed r (select_active id capability gs) ≡ active (permission_of id capability r) gs
unfolding select_active any is_active_row permission_eq
listed-select_active id capability r [] = refl
listed-select_active id capability r (g ∷ gs) = ground (
  arith,
  listed-select_active id capability r gs,
  listed-place r g.permission.resource (select_active id capability gs),
  text_eq_iff r g.permission.resource,
  text_eq_iff g.permission.resource r,
)

-- For a prefix that is not empty and has no control character, the listing succeeds, its resources
-- ascend, and they are exactly those with the prefix on which the plugin is allowed the capability.
pub list_active_resources-exact :
    (id capability prefix : Text) (db : PermissionDb)
    → (is_empty prefix || any is_control prefix) ≡ false
    → (rs : List Text) × (list_active_resources id capability prefix db ≡ ok rs)
      × (is_ascending rs ≡ true)
      × ((r : Text)
          → listed r rs ≡ (starts_with prefix r && is_allowed (permission_of id capability r) db))
unfolding list_active_resources is_allowed
list_active_resources-exact id capability prefix db valid =
    let rows = select_active id capability db.grants in
    (
      filter (starts_with prefix) rows,
      ground arith,
      filter-is_ascending (starts_with prefix) rows
          (select_active-is_ascending id capability db.grants),
      λ r.
          listed-filter (starts_with prefix) r rows
          ∙ ap (λ b. starts_with prefix r && b) (listed-select_active id capability r db.grants),
    )
