-- ===== src/Providers/Cursor.antt =====
-- providers/cursor.rs, `CursorStore`: the pages of a repository listing that a plugin may still ask
-- for. The mutex makes each method one step; `now` stands for `Instant::now()`, `id` for the fresh
-- UUID. The iteration order of the map is that of the list.
pub mod Calls
pub mod Capacity
pub mod Lookup
pub mod Redemption
pub mod OneUse
pub mod Eviction
use git_ramus.Base.Tests.{
  ℕ, Bool, ◌&&◌, not, Option, none, some, List, [], ◌∷◌, leb, ltb, max_one, if◌then◌else◌,
}
use git_ramus.Base.Lists.{length}
use git_ramus.Base.Text.{Text, text_eq}
use git_ramus.Base.Table.{Table, lookup, insert, remove, retain}
use git_ramus.Base.Error.{invalid_cursor, Result, ok, err}
use git_ramus.Providers.Model.{
  ProviderKind, kind_eq, ProviderRepositoryQuery, query_eq, AdapterCursor, RemoteRepository,
}

pub record CursorEntry : Type 0 where
  pub plugin_id : Text
  pub provider_kind : ProviderKind
  pub instance_id : Text
  pub account_id : Text
  pub query : ProviderRepositoryQuery
  pub adapter_cursor : Option AdapterCursor
  pub buffered : List RemoteRepository
  pub expires_at : ℕ

pub record CursorStore : Type 0 where
  pub entries : Table CursorEntry
  pub capacity : ℕ

abbrev pub default_cursor_capacity : ℕ
default_cursor_capacity = 512

unfoldable pub with_capacity : ℕ → CursorStore
with_capacity capacity = record { entries = []; capacity = max_one capacity }

-- `retain(|_, entry| entry.expires_at > now)`
unfoldable pub unexpired : ℕ → Table CursorEntry → Table CursorEntry
unexpired now entries = retain (λ entry. ltb now entry.expires_at) entries

-- `iter().min_by_key(expires_at)`: the first of the least
unfoldable pub sooner : Text × CursorEntry → Option (Text × CursorEntry) → Text × CursorEntry
sooner x none = x
sooner (i, e) (some (j, f)) = if leb e.expires_at f.expires_at then (i, e) else (j, f)

unfoldable pub nearest : Table CursorEntry → Option (Text × CursorEntry)
unfolding sooner
nearest [] = none
nearest (x ∷ rest) = some (sooner x (nearest rest))

abbrev remove_nearest : Option (Text × CursorEntry) → Table CursorEntry → Table CursorEntry
remove_nearest none entries = entries
remove_nearest (some (id, _)) entries = remove id entries

unfoldable pub make_room : ℕ → Table CursorEntry → Table CursorEntry
make_room capacity entries =
    if leb capacity (length entries) then remove_nearest (nearest entries) entries else entries

unfoldable pub insert_cursor : Text → CursorEntry → ℕ → CursorStore → CursorStore
insert_cursor id entry now s = record s {
  entries = insert id entry (make_room s.capacity (unexpired now s.entries));
}

-- Who may redeem a cursor: the arguments of `take`.
pub record Claim : Type 0 where
  pub plugin_id : Text
  pub provider_kind : ProviderKind
  pub instance_id : Text
  pub account_id : Text
  pub query : ProviderRepositoryQuery

unfoldable pub is_bound_to : Claim → CursorEntry → Bool
is_bound_to c entry =
    text_eq entry.plugin_id c.plugin_id
    && (kind_eq entry.provider_kind c.provider_kind
        && (text_eq entry.instance_id c.instance_id
            && (text_eq entry.account_id c.account_id && query_eq entry.query c.query)))

unfoldable pub take_found :
    Text → Claim → Table CursorEntry → Option CursorEntry → Result CursorEntry × Table CursorEntry
take_found cursor c entries none = (err invalid_cursor, entries)
take_found cursor c entries (some entry) =
    if is_bound_to c entry then (ok entry, remove cursor entries) else (err invalid_cursor, entries)

unfoldable pub take : Text → Claim → ℕ → CursorStore → Result CursorEntry × CursorStore
take cursor c now s =
    let kept = unexpired now s.entries in
    let (answer, entries) = take_found cursor c kept (lookup cursor kept) in
    (answer, record s { entries = entries })
