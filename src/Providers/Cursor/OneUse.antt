-- ===== src/Providers/Cursor/OneUse.antt =====
-- A cursor of providers/cursor.rs is redeemed once, by the owner that it was made for, whatever
-- calls come before, in between and after.
use git_ramus.Base.Tests.{
  ℕ, suc, ◌+◌, ◌≤◌, ◌<◌, ◌≡◌, ◌≢◌, refl, ◌∙◌, ◌⊎◌, inl, inr, false, ◌&&◌, none, some, List, [], ◌∷◌,
  arith, Bool-cases, ltb, leb, if◌then◌else◌,
}
use git_ramus.Base.Lists.{length}
use git_ramus.Base.Text.{Text, text_eq, text_eq_iff}
use git_ramus.Base.Table.{
  Table, lookup, insert, remove, lookup-insert, lookup-remove, lookup-insert_self,
}
use git_ramus.Base.Keys.{Distinct, retain-Distinct, length-insert, length-retain, length-remove}
use git_ramus.Base.Error.{invalid_cursor, ok, err}
use git_ramus.Providers.Cursor.{
  CursorEntry, CursorStore, Claim, with_capacity, unexpired, make_room, insert_cursor, take,
}
use git_ramus.Providers.Cursor.Calls.{CursorCall, inserts, takes, cursor_step, cursor_run}
use git_ramus.Providers.Cursor.Capacity.{
  IsBounded, first_least, make_room-nil, take_found-entries, cursor_run-IsBounded,
  cursor_run-IsBounded_from, insert_cursor-IsBounded, take-IsBounded,
}
use git_ramus.Providers.Cursor.Lookup.{live, lookup-unexpired, redeemable, take-effect}
use git_ramus.Providers.Cursor.Redemption.{
  IsOwner, IsOwner-is_bound_to, live-some, take_absent, take_owned, take_spares,
}

-- Calls while a cursor waits to be redeemed, before it expires: they make other cursors, and they ask
-- for other cursors, or for this one without being its owner.
abbrev pub Spares : Text → CursorEntry → List CursorCall → Type 0
Spares id entry [] = Unit {0}
Spares id entry (inserts j _ now ∷ cs) = (j ≢ id) × (now < entry.expires_at) × Spares id entry cs
Spares id entry (takes cursor c now ∷ cs) =
    ((cursor ≢ id) ⊎ (¬ IsOwner c entry)) × (now < entry.expires_at) × Spares id entry cs

-- How many cursors the calls make.
abbrev pub made : List CursorCall → ℕ
made [] = 0
made (inserts _ _ _ ∷ cs) = suc (made cs)
made (takes _ _ _ ∷ cs) = made cs

-- No call makes the cursor anew.
abbrev pub Leaves : Text → List CursorCall → Type 0
Leaves id [] = Unit {0}
Leaves id (inserts j _ _ ∷ cs) = (j ≢ id) × Leaves id cs
Leaves id (takes _ _ _ ∷ cs) = Leaves id cs

lookup-insert_other :
    (k j : Text) (v : CursorEntry) (m : Table CursorEntry)
    → k ≢ j
    → lookup j (insert k v m) ≡ lookup j m
lookup-insert_other k j v m ne = elim (Bool-cases (text_eq k j)) [
  | inl same ↦ absurd (ne ((text_eq_iff k j).0 same))
  | inr other ↦ lookup-insert k j v m ∙ rw other refl
]

-- A table below the capacity makes room without a loss.
make_room-below :
    (capacity : ℕ) (m : Table CursorEntry) → length m < capacity → make_room capacity m ≡ m
unfolding make_room
make_room-below capacity m h =
    let room : leb capacity (length m) ≡ false = ground arith in rw room refl

make_room-absent :
    (capacity : ℕ) (m : Table CursorEntry) (j : Text)
    → Distinct m
    → lookup j m ≡ none
    → lookup j (make_room capacity m) ≡ none
unfolding make_room
make_room-absent capacity [] j d gone = rw make_room-nil gone
make_room-absent capacity (x ∷ m) j d gone =
    let n = first_least x m d in
    elim (Bool-cases (leb capacity (length (x ∷ m)))) [
      | inl full ↦ rw (full, n.found) (lookup-remove n.key j (x ∷ m) ∙ rw gone (ground arith))
      | inr room ↦ rw room gone
    ]

take-length :
    (cursor : Text) (c : Claim) (now : ℕ) (s : CursorStore)
    → length (take cursor c now s).1.entries ≤ length s.entries
unfolding take unexpired
take-length cursor c now s =
    let p = λ (e : CursorEntry). ltb now e.expires_at in
    let kept = git_ramus.Base.Table.retain p s.entries in
    elim (take_found-entries cursor c kept (lookup cursor kept)) [
      | inl same ↦ rw same (length-retain p s.entries)
      | inr gone ↦ rw gone (omega (arith, length-retain p s.entries, length-remove cursor kept))
    ]

-- The cursor is there, and there is room for the cursors still to be made.
record IsWaiting (id : Text) (entry : CursorEntry) (more : ℕ) (s : CursorStore) : Type 0 where
  bounded : IsBounded s
  present : lookup id s.entries ≡ some entry
  room : length s.entries + more ≤ s.capacity

insert-IsWaiting :
    (id j : Text) (entry other : CursorEntry) (now more : ℕ) (s : CursorStore)
    → IsWaiting id entry (suc more) s
    → j ≢ id
    → now < entry.expires_at
    → IsWaiting id entry more (insert_cursor j other now s)
unfolding insert_cursor
insert-IsWaiting id j entry other now more s w ne soon =
    let kept = unexpired now s.entries in
    let fewer : length kept ≤ length s.entries =
      unfold unexpired in length-retain (λ e. ltb now e.expires_at) s.entries in
    let below : length kept < s.capacity = omega (arith, fewer, w.room) in
    let same = make_room-below s.capacity kept below in
    record {
      bounded = insert_cursor-IsBounded j other now s w.bounded;
      present =
          lookup-insert_other j id other (make_room s.capacity kept) ne
          ∙ rw same (
              lookup-unexpired now id s.entries w.bounded.distinct
              ∙ rw w.present (live-some now entry soon));
      room = rw same (omega (arith, length-insert j other kept, fewer, w.room));
    }

run-IsWaiting :
    (id : Text) (entry : CursorEntry) (cs : List CursorCall) (s : CursorStore)
    → IsWaiting id entry (made cs) s
    → Spares id entry cs
    → IsWaiting id entry 0 (cursor_run cs s)
unfolding cursor_run cursor_step take
run-IsWaiting id entry [] s w spares = w
run-IsWaiting id entry (inserts j other now ∷ cs) s w (ne, soon, rest) =
    run-IsWaiting id entry cs (insert_cursor j other now s)
      (insert-IsWaiting id j entry other now (made cs) s w ne soon) rest
run-IsWaiting id entry (takes cursor c now ∷ cs) s w (other, soon, rest) =
    run-IsWaiting id entry cs (take cursor c now s).1
      (record {
        bounded = take-IsBounded cursor c now s w.bounded;
        present = take_spares cursor id c now s entry w.bounded.distinct w.present soon other;
        room = omega (arith, take-length cursor c now s, w.room);
      })
      rest

-- A cursor that is gone stays gone.
run-absent :
    (id : Text) (cs : List CursorCall) (s : CursorStore)
    → IsBounded s
    → lookup id s.entries ≡ none
    → Leaves id cs
    → lookup id (cursor_run cs s).entries ≡ none
unfolding cursor_run cursor_step insert_cursor
run-absent id [] s b gone leaves = gone
run-absent id (inserts j other now ∷ cs) s b gone (ne, rest) =
    let kept = unexpired now s.entries in
    let kept_distinct : Distinct kept =
      unfold unexpired in retain-Distinct (λ e. ltb now e.expires_at) s.entries b.distinct in
    let dropped : lookup id kept ≡ none =
      lookup-unexpired now id s.entries b.distinct ∙ rw gone refl in
    run-absent id cs (insert_cursor j other now s) (insert_cursor-IsBounded j other now s b)
      (lookup-insert_other j id other (make_room s.capacity kept) ne
        ∙ make_room-absent s.capacity kept id kept_distinct dropped)
      rest
run-absent id (takes cursor c now ∷ cs) s b gone leaves =
    let o = live now (lookup cursor s.entries) in
    let still : (if redeemable c o && text_eq cursor id
          then none
          else live now (lookup id s.entries))
        ≡ none =
      rw gone (ground arith) in
    run-absent id cs (take cursor c now s).1 (take-IsBounded cursor c now s b)
      ((take-effect cursor c now s id b.distinct).1 ∙ still) leaves

-- Whatever calls came before, a cursor that is made is redeemed by its owner before it expires, after
-- any calls in that time that make or ask for other cursors, or ask for it as somebody else, as long as
-- the store has room for the cursors they make: `take` gives back the entry as it was inserted. After
-- any calls that do not make the cursor anew, a further `take` of it is then refused, whoever makes it
-- and whenever.
pub cursor_one_use :
    (before between after : List CursorCall) (n : ℕ) (id : Text) (entry : CursorEntry)
    (now later latest : ℕ) (c c' : Claim)
    → let s = insert_cursor id entry now (cursor_run before (with_capacity n)) in
      length s.entries + made between ≤ s.capacity
      → Spares id entry between
      → Leaves id after
      → later < entry.expires_at
      → IsOwner c entry
      → let (answer, s') = take id c later (cursor_run between s) in
        (answer ≡ ok entry) × ((take id c' latest (cursor_run after s')).0 ≡ err invalid_cursor)
cursor_one_use before between after n id entry now later latest c c' room spares leaves soon owner =
    let s₀ = cursor_run before (with_capacity n) in
    let s = insert_cursor id entry now s₀ in
    let w =
      run-IsWaiting id entry between s
        (record {
          bounded = insert_cursor-IsBounded id entry now s₀ (cursor_run-IsBounded before n);
          present = unfold insert_cursor in lookup-insert_self id entry _;
          room = room;
        })
        spares in
    let (given, gone) =
      take_owned id c later (cursor_run between s) entry w.bounded.distinct w.present soon
        (IsOwner-is_bound_to c entry owner) in
    let s' = (take id c later (cursor_run between s)).1 in
    let b = take-IsBounded id c later (cursor_run between s) w.bounded in
    (
      given,
      take_absent id c' latest (cursor_run after s') (cursor_run-IsBounded_from after s' b).distinct
          (run-absent id after s' b gone leaves),
    )
