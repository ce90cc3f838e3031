-- ===== src/Transport/Operation.antt =====
-- git/transport/operation.rs: the registry of running transport operations and the guards that
-- release them. The mutex makes every method one step. An `Arc<AtomicBool>` is an address into
-- `flags`; `alive` says that the registry a guard points to weakly has not been dropped.
pub mod Invariant
pub mod Binding
pub mod System
pub mod Soundness
pub mod Exclusion
use git_ramus.Base.Tests.{
  ℕ, suc, ◌+◌, Bool, true, false, not, ◌&&◌, ◌||◌, Option, none, some, [], is_some, ◌==◌,
  if◌then◌else◌,
}
use git_ramus.Base.Text.{Text, codes, text_eq, option_text_eq, is_empty}
use git_ramus.Base.Table.{Table, lookup, insert, remove}
use git_ramus.Base.Error.{
  AppError, invalid_input, permission_denied, canceled, repository_busy, Result, ok, err,
}

pub data TransportAuthorizationDomain : Type 0 where
  clone_intents repositories : TransportAuthorizationDomain

unfoldable pub domain_eq : TransportAuthorizationDomain → TransportAuthorizationDomain → Bool
domain_eq clone_intents clone_intents = true
domain_eq repositories repositories = true
domain_eq _ _ = false

pub record OperationEntry : Type 0 where
  pub resource_key : Option Text
  pub plugin_id : Text
  pub domain : TransportAuthorizationDomain
  pub cancellation : ℕ

pub record RegistryState : Type 0 where
  pub operations : Table OperationEntry
  pub resources : Table Text
  pub flags : ℕ → Bool
  pub next : ℕ

pub record TransportOperationAuthorization : Type 0 where
  pub plugin_id : Text
  pub domain : TransportAuthorizationDomain

pub record TransportOperationGuard : Type 0 where
  pub operation_id : Text
  pub resource_key : Option Text
  pub cancellation : ℕ
  pub active : Bool

abbrev pub empty : RegistryState
empty = record { operations = []; resources = []; flags = λ a. false; next = 0 }

-- `cancellation.store(v)`
unfoldable pub store_flag : ℕ → Bool → (ℕ → Bool) → ℕ → Bool
store_flag a v flags b = if a == b then v else flags b

abbrev pub new_entry : Text → TransportAuthorizationDomain → ℕ → OperationEntry
new_entry plugin_id domain flag = record {
  resource_key = none;
  plugin_id = plugin_id;
  domain = domain;
  cancellation = flag;
}

unfoldable pub reserved : Text → Text → TransportAuthorizationDomain → RegistryState → RegistryState
unfolding store_flag
reserved operation_id plugin_id domain s = record {
  operations = insert operation_id (new_entry plugin_id domain s.next) s.operations;
  resources = s.resources;
  flags = store_flag s.next false s.flags;
  next = suc s.next;
}

unfoldable pub new_guard : Text → RegistryState → TransportOperationGuard
new_guard operation_id s = record {
  operation_id = operation_id;
  resource_key = none;
  cancellation = s.next;
  active = true;
}

unfoldable pub reserve :
    Text
    → Text
    → TransportAuthorizationDomain
    → RegistryState
    → Result TransportOperationGuard × RegistryState
reserve operation_id plugin_id domain s =
    if is_empty operation_id || is_empty plugin_id
    then (err (invalid_input (codes "transport operation identity is empty")), s)
    else if is_some (lookup operation_id s.operations)
    then (err repository_busy, s)
    else (ok (new_guard operation_id s), reserved operation_id plugin_id domain s)

abbrev pub BindResult : Type 0
BindResult = Result (Unit {0}) × TransportOperationGuard × RegistryState

abbrev deactivate : TransportOperationGuard → TransportOperationGuard
deactivate g = record g { active = false }

-- The end of `bind_resource`: both indexes and the guard learn the key.
unfoldable pub bound : TransportOperationGuard → Text → OperationEntry → RegistryState → BindResult
bound g key entry s = (
  ok tt,
  record g { resource_key = some key },
  record s {
    resources = insert key g.operation_id s.resources;
    operations = insert g.operation_id (record entry { resource_key = some key }) s.operations;
  },
)

-- The rest of `bind_resource`, by the key that the entry has.
unfoldable pub bind_key :
    TransportOperationGuard → Text → OperationEntry → RegistryState → Option Text → BindResult
unfolding bound
bind_key g key entry s (some bound_key) = if text_eq bound_key key then (ok tt, g, s) else (
  err (invalid_input (codes "transport operation is already bound to another resource")),
  g,
  s,
)
bind_key g key entry s none =
    if is_some (lookup key s.resources) then (err repository_busy, g, s) else bound g key entry s

-- `bind_resource` on the entry of the guard's operation.
unfoldable pub bind_entry :
    TransportOperationGuard → Text → OperationEntry → RegistryState → BindResult
unfolding bind_key
bind_entry g key entry s =
    if not (entry.cancellation == g.cancellation)
    then (err canceled, deactivate g, s)
    else if s.flags g.cancellation
    then (err canceled, g, s)
    else bind_key g key entry s entry.resource_key

unfoldable pub bind_resource : Bool → TransportOperationGuard → Text → RegistryState → BindResult
unfolding bind_entry
bind_resource alive g key s =
    if is_empty key
    then (err (invalid_input (codes "transport operation resource is empty")), g, s)
    else if not g.active
    then (err canceled, g, s)
    else if not alive
    then (err canceled, deactivate g, s)
    else elim (lookup g.operation_id s.operations) [
      | none ↦ (err canceled, deactivate g, s)
      | some entry ↦ bind_entry g key entry s
    ]

-- The first half of `remove_registration`.
unfoldable pub remove_operation : Text → Option Text → RegistryState → RegistryState
remove_operation operation_id key s = elim (lookup operation_id s.operations) [
  | none ↦ s
  | some entry ↦
      if option_text_eq entry.resource_key key
      then record s { operations = remove operation_id s.operations }
      else s
]

-- The second half.
unfoldable pub remove_resource : Text → Option Text → RegistryState → RegistryState
remove_resource operation_id none s = s
remove_resource operation_id (some key) s = elim (lookup key s.resources) [
  | none ↦ s
  | some owner ↦
      if text_eq owner operation_id then record s { resources = remove key s.resources } else s
]

unfoldable pub remove_registration : Text → Option Text → RegistryState → RegistryState
unfolding remove_operation remove_resource
remove_registration operation_id key s =
    remove_resource operation_id key (remove_operation operation_id key s)

-- `release`, which `finish` and `drop` call; the guard is gone afterwards.
unfoldable pub release : Bool → TransportOperationGuard → RegistryState → RegistryState
release alive g s =
    if not g.active
    then s
    else if not alive
    then s
    else remove_registration g.operation_id g.resource_key s

unfoldable pub finish_if_not_cancelled :
    Bool → TransportOperationGuard → RegistryState → Bool × RegistryState
finish_if_not_cancelled alive g s =
    if not g.active
    then (false, s)
    else if not alive
    then (not (s.flags g.cancellation), s)
    else (not (s.flags g.cancellation), remove_registration g.operation_id g.resource_key s)

-- The end of `register`: an error drops the guard, whose `drop` releases it.
unfoldable pub registered : BindResult → Result TransportOperationGuard × RegistryState
unfolding release
registered (ok _, g, s) = (ok g, s)
registered (err e, g, s) = (err e, release true g s)

abbrev pub register_bind :
    Text
    → Result TransportOperationGuard × RegistryState
    → Result TransportOperationGuard × RegistryState
register_bind key (err e, s) = (err e, s)
register_bind key (ok g, s) = registered (bind_resource true g key s)

unfoldable pub register :
    Text → Text → RegistryState → Result TransportOperationGuard × RegistryState
unfolding registered
register operation_id key s =
    register_bind key (reserve operation_id (codes "git-transport.internal") repositories s)

unfoldable pub authorization : Text → RegistryState → Option TransportOperationAuthorization
authorization operation_id s = elim (lookup operation_id s.operations) [
  | none ↦ none
  | some entry ↦ some (record { plugin_id = entry.plugin_id; domain = entry.domain })
]

unfoldable pub cancel_owned :
    Text → Text → TransportAuthorizationDomain → RegistryState → Result Bool × RegistryState
unfolding store_flag
cancel_owned operation_id plugin_id domain s = elim (lookup operation_id s.operations) [
  | none ↦ (ok false, s)
  | some entry ↦
      if not (text_eq entry.plugin_id plugin_id) || not (domain_eq entry.domain domain)
      then (err permission_denied, s)
      else (ok true, record s { flags = store_flag entry.cancellation true s.flags })
]

unfoldable pub cancel : Text → RegistryState → Bool × RegistryState
unfolding store_flag
cancel operation_id s = elim (lookup operation_id s.operations) [
  | none ↦ (false, s)
  | some entry ↦ (true, record s { flags = store_flag entry.cancellation true s.flags })
]
