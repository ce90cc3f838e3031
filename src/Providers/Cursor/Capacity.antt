-- ===== src/Providers/Cursor/Capacity.antt =====
-- The cursors of providers/cursor.rs never outnumber the capacity of their store.
use mathlib.Core.Path.{subst}
use git_ramus.Base.Tests.{
  ℕ, ◌+◌, ◌≤◌, ◌<◌, ◌≡◌, refl, sym, ◌∙◌, ◌⊎◌, inl, inr, Bool, true, false, Option, none, some, List,
  [], ◌∷◌, arith, Bool-cases, Option-cases, leb, max_one, if◌then◌else◌,
}
use git_ramus.Base.Lists.{length}
use git_ramus.Base.Text.{Text, text_eq_iff, text_eq_refl}
use git_ramus.Base.Table.{Table, lookup, remove, retain}
use git_ramus.Base.Keys.{
  Distinct, insert-Distinct, remove-Distinct, retain-Distinct, length-insert, length-retain,
  length-remove, length-remove_present,
}
use git_ramus.Providers.Cursor.{
  CursorEntry, CursorStore, Claim, with_capacity, unexpired, nearest, make_room, insert_cursor,
  is_bound_to, take_found, take,
}
use git_ramus.Providers.Cursor.Calls.{CursorCall, inserts, takes, cursor_step, cursor_run}

-- The first of the least entries, with what makes it that.
pub record Nearest (entries : Table CursorEntry) : Type 0 where
  pub key : Text
  pub entry : CursorEntry
  pub found : nearest entries ≡ some (key, entry)
  pub present : lookup key entries ≡ some entry
  pub least :
      (j : Text) (f : CursorEntry) → lookup j entries ≡ some f → entry.expires_at ≤ f.expires_at

-- One more entry.
cons-Nearest :
    (i : Text) (e : CursorEntry) (rest : Table CursorEntry)
    → lookup i rest ≡ none
    → Nearest rest
    → Nearest ((i, e) ∷ rest)
unfolding nearest lookup
cons-Nearest i e rest absent n = elim (Bool-cases (leb e.expires_at n.entry.expires_at)) [
  | inl first ↦ record {
    key = i;
    entry = e;
    found = rw (n.found) (rw first refl);
    present = rw text_eq_refl refl;
    least = λ j f h. ground (arith, n.least j f);
  }
  | inr second ↦ record {
    key = n.key;
    entry = n.entry;
    found = rw (n.found) (rw second refl);
    present = ground (arith, n.present, text_eq_iff i n.key);
    least = λ j f h. ground (arith, n.least j f);
  }
]

pub first_least :
    (x : Text × CursorEntry) (rest : Table CursorEntry) → Distinct (x ∷ rest) → Nearest (x ∷ rest)
first_least (i, e) [] d = record {
  key = i;
  entry = e;
  found = unfold nearest in refl;
  present = unfold lookup in rw text_eq_refl refl;
  least = λ j f h. unfold lookup in ground arith;
}
first_least (i, e) (y ∷ rest) d = cons-Nearest i e (y ∷ rest) d.0 (first_least y rest d.1)

-- The keys are distinct and the capacity is not exceeded.
pub record IsBounded (s : CursorStore) : Type 0 where
  pub distinct : Distinct s.entries
  pub fits : length s.entries ≤ s.capacity
  pub positive : 1 ≤ s.capacity

pub make_room-nil : (capacity : ℕ) → make_room capacity [] ≡ []
unfolding make_room nearest
make_room-nil capacity = elim (Bool-cases (leb capacity 0)) [
  | inl full ↦ rw full refl
  | inr room ↦ rw room refl
]

pub make_room-Distinct :
    (capacity : ℕ) (m : Table CursorEntry) → Distinct m → Distinct (make_room capacity m)
unfolding make_room
make_room-Distinct capacity [] d = rw make_room-nil tt
make_room-Distinct capacity (x ∷ m) d =
    let n = first_least x m d in
    elim (Bool-cases (leb capacity (length (x ∷ m)))) [
      | inl full ↦ rw (full, n.found) (remove-Distinct n.key (x ∷ m) d)
      | inr room ↦ rw room d
    ]

make_room-length :
    (capacity : ℕ) (m : Table CursorEntry)
    → Distinct m
    → 1 ≤ capacity
    → length m ≤ capacity
    → length (make_room capacity m) < capacity
unfolding make_room
make_room-length capacity [] d p h = rw make_room-nil p
make_room-length capacity (x ∷ m) d p h =
    let n = first_least x m d in
    elim (Bool-cases (leb capacity (length (x ∷ m)))) [
      | inl full ↦
          rw (full, n.found) (omega (arith, length-remove_present n.key n.entry (x ∷ m) n.present))
      | inr room ↦ rw room (ground arith)
    ]

pub insert_cursor-IsBounded :
    (id : Text) (entry : CursorEntry) (now : ℕ) (s : CursorStore)
    → IsBounded s
    → IsBounded (insert_cursor id entry now s)
unfolding insert_cursor unexpired
insert_cursor-IsBounded id entry now s b =
    let p = λ (e : CursorEntry). git_ramus.Base.Tests.ltb now e.expires_at in
    let kept = retain p s.entries in
    let d = retain-Distinct p s.entries b.distinct in
    record {
      distinct =
          insert-Distinct id entry (make_room s.capacity kept)
            (make_room-Distinct s.capacity kept d);
      fits = omega (
        arith,
        length-insert id entry (make_room s.capacity kept),
        make_room-length s.capacity kept d b.positive,
        length-retain p s.entries,
      );
      positive = b.positive;
    }

pub take_found-entries :
    (cursor : Text) (c : Claim) (m : Table CursorEntry) (o : Option CursorEntry)
    → ((take_found cursor c m o).1 ≡ m) ⊎ ((take_found cursor c m o).1 ≡ remove cursor m)
unfolding take_found
take_found-entries cursor c m none = inl refl
take_found-entries cursor c m (some e) = elim (Bool-cases (is_bound_to c e)) [
  | inl mine ↦ inr (rw mine refl)
  | inr other ↦ inl (rw other refl)
]

pub take-IsBounded :
    (cursor : Text) (c : Claim) (now : ℕ) (s : CursorStore)
    → IsBounded s
    → IsBounded (take cursor c now s).1
unfolding take unexpired
take-IsBounded cursor c now s b =
    let p = λ (e : CursorEntry). git_ramus.Base.Tests.ltb now e.expires_at in
    let kept = retain p s.entries in
    let d = retain-Distinct p s.entries b.distinct in
    elim (take_found-entries cursor c kept (lookup cursor kept)) [
      | inl same ↦ record {
        distinct = rw same d;
        fits = rw same (omega (arith, length-retain p s.entries));
        positive = b.positive;
      }
      | inr gone ↦ record {
        distinct = rw gone (remove-Distinct cursor kept d);
        fits = rw gone (omega (arith, length-retain p s.entries, length-remove cursor kept));
        positive = b.positive;
      }
    ]

pub cursor_step-IsBounded :
    (c : CursorCall) (s : CursorStore) → IsBounded s → IsBounded (cursor_step c s)
unfolding cursor_step
cursor_step-IsBounded (inserts id entry now) s b = insert_cursor-IsBounded id entry now s b
cursor_step-IsBounded (takes cursor c now) s b = take-IsBounded cursor c now s b

pub cursor_run-IsBounded_from :
    (cs : List CursorCall) (s : CursorStore) → IsBounded s → IsBounded (cursor_run cs s)
unfolding cursor_run
cursor_run-IsBounded_from [] s b = b
cursor_run-IsBounded_from (c ∷ cs) s b =
    cursor_run-IsBounded_from cs (cursor_step c s) (cursor_step-IsBounded c s b)

with_capacity-IsBounded : (n : ℕ) → IsBounded (with_capacity n)
unfolding with_capacity
with_capacity-IsBounded n = record { distinct = tt; fits = omega arith; positive = ground arith }

pub cursor_run-IsBounded :
    (cs : List CursorCall) (n : ℕ) → IsBounded (cursor_run cs (with_capacity n))
cursor_run-IsBounded cs n =
    cursor_run-IsBounded_from cs (with_capacity n) (with_capacity-IsBounded n)

step-capacity : (c : CursorCall) (s : CursorStore) → (cursor_step c s).capacity ≡ s.capacity
unfolding cursor_step insert_cursor take
step-capacity (inserts id entry now) s = refl
step-capacity (takes cursor c now) s = refl

run-capacity : (cs : List CursorCall) (s : CursorStore) → (cursor_run cs s).capacity ≡ s.capacity
unfolding cursor_run
run-capacity [] s = refl
run-capacity (c ∷ cs) s = run-capacity cs (cursor_step c s) ∙ step-capacity c s

-- Whatever cursors are inserted and taken in a new store, at any times, it never holds more of them
-- than the capacity it was made with (at least one), and no identifier twice.
pub cursors_bounded :
    (cs : List CursorCall) (n : ℕ)
    → let s = cursor_run cs (with_capacity n) in (length s.entries ≤ max_one n) × Distinct s.entries
cursors_bounded cs n =
    let b = cursor_run-IsBounded cs n in
    (
      subst (λ c. length (cursor_run cs (with_capacity n)).entries ≤ c)
          (run-capacity cs (with_capacity n) ∙ (unfold with_capacity in refl)) b.fits,
      b.distinct,
    )
