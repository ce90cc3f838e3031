-- ===== src/Providers/Cursor/Eviction.antt =====
-- What `insert` of `CursorStore` of providers/cursor.rs gives up for a new cursor.
use git_ramus.Base.Tests.{
  ℕ, ◌≤◌, ◌<◌, ◌≡◌, ◌≢◌, refl, sym, ◌∙◌, inl, inr, some, none, List, arith, Bool-cases, ltb,
}
use git_ramus.Base.Lists.{length}
use git_ramus.Base.Text.{Text, text_eq, text_eq_iff}
use git_ramus.Base.Table.{Table, lookup, lookup-insert}
use git_ramus.Base.Keys.{Distinct, retain-Distinct}
use git_ramus.Providers.Cursor.{
  CursorEntry, CursorStore, with_capacity, unexpired, make_room, insert_cursor,
}
use git_ramus.Providers.Cursor.Calls.{CursorCall, cursor_run}
use git_ramus.Providers.Cursor.Capacity.{cursor_run-IsBounded}
use git_ramus.Providers.Cursor.Lookup.{lookup-unexpired, make_room-keeps}

unexpired-Distinct : (now : ℕ) (m : Table CursorEntry) → Distinct m → Distinct (unexpired now m)
unfolding unexpired
unexpired-Distinct now m d = retain-Distinct (λ e. ltb now e.expires_at) m d

alive_at :
    (now : ℕ) (k : Text) (m : Table CursorEntry) {g : CursorEntry}
    → Distinct m
    → lookup k m ≡ some g
    → now < g.expires_at
    → lookup k (unexpired now m) ≡ some g
alive_at now k m {g} d there soon = lookup-unexpired now k m d ∙ rw there (ground arith)

insert_costs :
    (id j : Text) (entry : CursorEntry) (now : ℕ) (s : CursorStore) {f : CursorEntry}
    → Distinct s.entries
    → lookup j s.entries ≡ some f
    → now < f.expires_at
    → id ≢ j
    → lookup j (insert_cursor id entry now s).entries ≡ none
    → (s.capacity ≤ length (unexpired now s.entries))
      × ((k : Text) (g : CursorEntry)
          → lookup k s.entries ≡ some g
          → now < g.expires_at
          → f.expires_at ≤ g.expires_at)
unfolding insert_cursor
insert_costs id j entry now s {f} d present soon other gone =
    let m = unexpired now s.entries in
    let room = make_room s.capacity m in
    let dropped : lookup j room ≡ none = elim (Bool-cases (text_eq id j)) [
      | inl same ↦ absurd (other ((text_eq_iff id j).0 same))
      | inr differ ↦ sym (lookup-insert id j entry room ∙ rw differ refl) ∙ gone
    ] in
    let (full, least) =
      make_room-keeps s.capacity m j (unexpired-Distinct now s.entries d)
        (alive_at now j s.entries d present soon) dropped in
    (full, λ k g there later. least k g (alive_at now k s.entries d there later))

-- Whatever happened before, if a cursor that has not expired is lost when another one is inserted,
-- then the store was full of cursors that had not expired, and none of them would have expired
-- before the lost one.
pub insert_evicts_nearest :
    (cs : List CursorCall) (n : ℕ) (id j : Text) (entry : CursorEntry) (now : ℕ) {f : CursorEntry}
    → lookup j (cursor_run cs (with_capacity n)).entries ≡ some f
    → now < f.expires_at
    → id ≢ j
    → lookup j (insert_cursor id entry now (cursor_run cs (with_capacity n))).entries ≡ none
    → let s = cursor_run cs (with_capacity n) in
      (s.capacity ≤ length (unexpired now s.entries))
      × ((k : Text) (g : CursorEntry)
          → lookup k s.entries ≡ some g
          → now < g.expires_at
          → f.expires_at ≤ g.expires_at)
insert_evicts_nearest cs n id j entry now present soon other gone =
    insert_costs id j entry now (cursor_run cs (with_capacity n))
      (cursor_run-IsBounded cs n).distinct present soon other gone
