-- ===== src/Providers/Cursor/Lookup.antt =====
-- What the calls of `CursorStore` of providers/cursor.rs do to each identifier.
use git_ramus.Base.Tests.{
  ℕ, ◌≤◌, ◌≡◌, refl, inl, inr, Bool, false, ◌&&◌, Option, none, some, [], ◌∷◌, arith, Bool-cases,
  ltb, leb, if◌then◌else◌,
}
use git_ramus.Base.Lists.{length}
use git_ramus.Base.Text.{Text, text_eq, text_eq_iff}
use git_ramus.Base.Table.{Table, lookup, remove, lookup-remove}
use git_ramus.Base.Keys.{Distinct, filtered, lookup-retain}
use git_ramus.Base.Error.{Result, invalid_cursor, ok, err}
use git_ramus.Providers.Cursor.{
  CursorEntry, CursorStore, Claim, unexpired, make_room, is_bound_to, take_found, take,
}
use git_ramus.Providers.Cursor.Capacity.{Nearest, first_least}

-- An entry that has not expired by `now`.
abbrev pub live : ℕ → Option CursorEntry → Option CursorEntry
live now o = filtered (λ e. ltb now e.expires_at) o

pub lookup-unexpired :
    (now : ℕ) (id : Text) (m : Table CursorEntry)
    → Distinct m
    → lookup id (unexpired now m) ≡ live now (lookup id m)
unfolding unexpired
lookup-unexpired now id m d = lookup-retain (λ e. ltb now e.expires_at) id m d

-- The answer of `take`, and the table after it, by the entry that the cursor has.
abbrev pub redeemable : Claim → Option CursorEntry → Bool
redeemable c none = false
redeemable c (some e) = is_bound_to c e

abbrev pub answered : Bool → Option CursorEntry → Result CursorEntry
answered valid none = err invalid_cursor
answered valid (some e) = if valid then ok e else err invalid_cursor

take_found-effect :
    (cursor : Text) (c : Claim) (m : Table CursorEntry) (o : Option CursorEntry) (j : Text)
    → lookup cursor m ≡ o
    → ((take_found cursor c m o).0 ≡ answered (redeemable c o) o)
      × (lookup j (take_found cursor c m o).1
          ≡ (if redeemable c o && text_eq cursor j then none else lookup j m))
unfolding take_found
take_found-effect cursor c m none j h = (refl, refl)
take_found-effect cursor c m (some e) j h = elim (Bool-cases (is_bound_to c e)) [
  | inl mine ↦ rw mine (refl, lookup-remove cursor j m)
  | inr other ↦ rw other (refl, refl)
]

pub take-effect :
    (cursor : Text) (c : Claim) (now : ℕ) (s : CursorStore) (j : Text)
    → Distinct s.entries
    → let o = live now (lookup cursor s.entries) in
      let (answer, s') = take cursor c now s in
      (answer ≡ answered (redeemable c o) o)
      × (lookup j s'.entries
          ≡ (if redeemable c o && text_eq cursor j then none else live now (lookup j s.entries)))
unfolding take
take-effect cursor c now s j d =
    let m = unexpired now s.entries in
    let e = take_found-effect cursor c m (lookup cursor m) j refl in
    rw (← lookup-unexpired now cursor s.entries d, ← lookup-unexpired now j s.entries d) e

-- What is gone with the nearest entry is the nearest entry.
soonest :
    (j : Text) (f : CursorEntry) (m : Table CursorEntry) (n : Nearest m)
    → lookup j m ≡ some f
    → lookup j (remove n.key m) ≡ none
    → f.expires_at ≡ n.entry.expires_at
soonest j f m n here gone = ground (arith, lookup-remove n.key j m, text_eq_iff n.key j, n.present)

-- Room for one more costs at most the entry that would have expired first.
pub make_room-keeps :
    (capacity : ℕ) (m : Table CursorEntry) (j : Text) {f : CursorEntry}
    → Distinct m
    → lookup j m ≡ some f
    → lookup j (make_room capacity m) ≡ none
    → (capacity ≤ length m)
      × ((k : Text) (g : CursorEntry) → lookup k m ≡ some g → f.expires_at ≤ g.expires_at)
unfolding make_room
make_room-keeps capacity [] j {f} d here gone = unfold lookup in cc
make_room-keeps capacity (x ∷ m) j {f} d here gone =
    let n = first_least x m d in
    elim (Bool-cases (leb capacity (length (x ∷ m)))) [
      | inr room ↦ let g = rw room at gone in cc
      | inl full ↦
          let g = rw (full, n.found) at gone in
          (
            ground arith,
            λ k h there. omega (arith, n.least k h there, soonest j f (x ∷ m) n here g),
          )
    ]
