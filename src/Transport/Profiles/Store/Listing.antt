-- ===== src/Transport/Profiles/Store/Listing.antt =====
-- git/transport/store.rs: what the user interface sees of the Transport profiles, and the two
-- statements on profiles and repairs that the profile service does not make.
use git_ramus.Base.Tests.{
  ℕ, Bool, true, false, not, ◌&&◌, ◌||◌, Option, none, some, List, [], ◌∷◌, ◌==◌, map, is_some,
  is_none, if◌then◌else◌,
}
use git_ramus.Base.Lists.{count_if}
use git_ramus.Base.Text.{Text, codes, text_eq, is_empty, split_where}
use git_ramus.Base.Order.{text_before, order_by}
use git_ramus.Base.Table.{Table, lookup, insert, remove}
use git_ramus.Base.Error.{database, err, M}
use git_ramus.Transport.Config.Plan.{TransportProfile}
use git_ramus.Transport.Url.{TransportKind, ssh, https}
use git_ramus.Transport.Profiles.Store.{
  TransportDb, RepositoryTransportBinding, TransportConfigRepair, statement, query, ensure_changed,
  with_profiles, with_repairs,
}

pub record TransportProfileSummary : Type 0 where
  pub id : Text
  pub display_name : Text
  pub kind : TransportKind
  pub ssh_key_file_name : Option Text
  pub ssh_identities_only : Option Bool
  pub https_username : Option Text
  pub available : Bool
  pub bound_repository_count : ℕ

abbrev or_this : Option Text → Text → Option Text
or_this (some found) component = some found
or_this none component = if is_empty component then none else some component

-- `rsplit(..).find(..)`: the last component that is not empty
unfoldable pub last_component : List Text → Option Text
unfolding is_empty
last_component [] = none
last_component (component ∷ rest) = or_this (last_component rest) component

abbrev on_path : {A : Type 0} → (Text → Option A) → Option Text → Option A
on_path f none = none
on_path f (some path) = f path

unfoldable pub portable_file_name : Text → Option Text
unfolding split_where last_component
portable_file_name path = last_component (split_where (λ c. c == b'/' || c == 92) path)

abbrev pub summary : TransportProfile → Bool → ℕ → TransportProfileSummary
summary p available bound_repository_count = record {
  id = p.id;
  display_name = p.display_name;
  kind = p.kind;
  ssh_key_file_name = on_path portable_file_name p.ssh_key_path;
  ssh_identities_only = p.ssh_identities_only;
  https_username = p.https_username;
  available = available;
  bound_repository_count = bound_repository_count;
}

-- A row as `map_profile` reads it, its key as the identifier
abbrev pub map_profile : Text × TransportProfile → TransportProfile
map_profile (id, p) = record {
  id = id;
  display_name = p.display_name;
  kind = p.kind;
  ssh_key_path = p.ssh_key_path;
  ssh_variant = p.ssh_variant;
  ssh_identities_only = p.ssh_identities_only;
  https_username = p.https_username;
  https_use_http_path = p.https_use_http_path;
  created_at = p.created_at;
  updated_at = p.updated_at;
}

-- `ORDER BY display_name,id`
abbrev pub profile_before : TransportProfile → TransportProfile → Bool
profile_before a b =
    text_before a.display_name b.display_name
    || (text_eq a.display_name b.display_name && text_before a.id b.id)

unfoldable pub ordered_profiles : TransportDb → List TransportProfile
unfolding order_by text_before text_eq
ordered_profiles db = order_by profile_before (map map_profile db.profiles)

unfoldable pub list_profiles : M TransportDb (List TransportProfile)
unfolding query ordered_profiles
list_profiles = query ordered_profiles

-- `COUNT(b.repository_id)` of the join with the bindings
unfoldable pub bound_count : Text → Table RepositoryTransportBinding → ℕ
unfolding count_if text_eq
bound_count profile_id bindings =
    count_if (λ row. text_eq row.1.transport_profile_id profile_id) bindings

abbrev is_there : (Text → Bool) → Option Text → Bool
is_there is_file none = false
is_there is_file (some path) = is_file path

abbrev pub is_available : (Text → Bool) → TransportKind → Option Text → Bool
is_available is_file ssh path = is_there is_file path
is_available is_file https path = true

abbrev pub summary_of :
    (Text → Bool) → Table RepositoryTransportBinding → TransportProfile → TransportProfileSummary
summary_of is_file bindings p =
    summary p (is_available is_file p.kind p.ssh_key_path) (bound_count p.id bindings)

unfoldable pub list_profile_summaries : (Text → Bool) → M TransportDb (List TransportProfileSummary)
unfolding query ordered_profiles bound_count portable_file_name
list_profile_summaries is_file =
    query λ db. map (summary_of is_file db.bindings) (ordered_profiles db)

-- The bindings keep their profile: `map_constraint_error` does not name the error of a RESTRICT.
unfoldable pub delete_profile : Text → M TransportDb (Unit {0})
unfolding statement lookup remove bound_count codes
delete_profile id = statement λ db.
    if is_some (lookup id db.profiles) && not (bound_count id db.bindings == 0)
    then (err database, db)
    else ensure_changed (is_some (lookup id db.profiles)) (codes "transport profile") id
        (with_profiles db (remove id db.profiles)) db

abbrev pub resolved : TransportConfigRepair → ℕ → TransportConfigRepair
resolved r at = record {
  id = r.id;
  repository_id = r.repository_id;
  before_config = r.before_config;
  attempted_config = r.attempted_config;
  error_code = r.error_code;
  created_at = r.created_at;
  resolved_at = some at;
}

abbrev pub resolve_row : Text → ℕ → Option TransportConfigRepair → M TransportDb (Unit {0})
resolve_row id at none db = ensure_changed false (codes "transport config repair") id db db
resolve_row id at (some r) db =
    ensure_changed (is_none r.resolved_at) (codes "transport config repair") id
      (with_repairs db (insert id (resolved r at) db.repairs)) db

unfoldable pub resolve_repair : Text → ℕ → M TransportDb (Unit {0})
unfolding statement lookup insert codes
resolve_repair repair_id resolved_at =
    statement λ db. resolve_row repair_id resolved_at (lookup repair_id db.repairs) db
