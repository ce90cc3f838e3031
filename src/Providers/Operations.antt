-- ===== src/Providers/Operations.antt =====
-- providers/cursor.rs, `OperationRegistry`: the requests to hosting services that are under way, with
-- their limits and their cancellation. The mutex makes each method one step. A `CancellationToken`
-- is an address into `cancelled`; `notifications` counts the calls of
-- `notify_waiters`; the iteration order of the map is that of the list.
pub mod Calls
pub mod Limits
pub mod Cancellation
pub mod Waiting
use git_ramus.Base.Tests.{
  ℕ, suc, Bool, true, false, not, ◌&&◌, ◌||◌, Option, none, some, List, [], ◌∷◌, map, is_some, leb,
  ◌==◌, max_one, if◌then◌else◌,
}
use git_ramus.Base.Lists.{length, filter, count_if, any}
use git_ramus.Base.Text.{Text, text_eq}
use git_ramus.Base.Error.{provider_busy, Result, ok, err}

-- `(String, String, String)`
pub record OperationKey : Type 0 where
  pub plugin_id : Text
  pub account_id : Text
  pub operation_id : Text

unfoldable pub key_eq : OperationKey → OperationKey → Bool
key_eq a b =
    text_eq a.plugin_id b.plugin_id
    && (text_eq a.account_id b.account_id && text_eq a.operation_id b.operation_id)

abbrev pub Tokens : Type 0
Tokens = List (OperationKey × ℕ)

pub record OperationRegistry : Type 0 where
  pub tokens : Tokens
  pub cancelled : ℕ → Bool
  pub next : ℕ
  pub notifications : ℕ
  pub global_limit : ℕ
  pub account_limit : ℕ

pub record OperationGuard : Type 0 where
  pub key : OperationKey
  pub token : ℕ

abbrev pub default_global_operation_limit : ℕ
default_global_operation_limit = 1024

abbrev pub default_account_operation_limit : ℕ
default_account_operation_limit = 64

unfoldable pub new : ℕ → ℕ → OperationRegistry
new global_limit account_limit = record {
  tokens = [];
  cancelled = λ a. false;
  next = 0;
  notifications = 0;
  global_limit = max_one global_limit;
  account_limit = max_one account_limit;
}

unfoldable pub token_of : OperationKey → Tokens → Option ℕ
token_of k [] = none
token_of k ((j, a) ∷ rest) = if key_eq j k then some a else token_of k rest

unfoldable pub remove_token : OperationKey → Tokens → Tokens
remove_token k [] = []
remove_token k ((j, a) ∷ rest) =
    if key_eq j k then remove_token k rest else (j, a) ∷ remove_token k rest

abbrev pub of_account : Text → OperationKey → Bool
of_account account_id k = text_eq k.account_id account_id

abbrev pub of_plugin_account : Text → Text → OperationKey → Bool
of_plugin_account plugin_id account_id k =
    text_eq k.plugin_id plugin_id && text_eq k.account_id account_id

unfoldable pub account_operations : Text → Tokens → ℕ
unfolding count_if
account_operations account_id tokens = count_if (λ entry. of_account account_id entry.0) tokens

unfoldable pub start : OperationKey → OperationRegistry → Result OperationGuard × OperationRegistry
start key s =
    if is_some (token_of key s.tokens)
      || (leb s.global_limit (length s.tokens)
          || leb s.account_limit (account_operations key.account_id s.tokens))
    then (err (provider_busy (some 250)), s)
    else (
      ok (record { key = key; token = s.next }),
      record s {
        tokens = (key, s.next) ∷ s.tokens;
        cancelled = λ a. if a == s.next then false else s.cancelled a;
        next = suc s.next;
      },
    )

-- `token.cancel()`
unfoldable pub cancel_token : ℕ → (ℕ → Bool) → ℕ → Bool
cancel_token t cancelled a = a == t || cancelled a

abbrev cancel_found : Option ℕ → OperationRegistry → Bool × OperationRegistry
cancel_found none s = (false, s)
cancel_found (some t) s = (true, record s { cancelled = cancel_token t s.cancelled })

unfoldable pub cancel : OperationKey → OperationRegistry → Bool × OperationRegistry
cancel key s = cancel_found (token_of key s.tokens) s

unfoldable pub cancel_all : List ℕ → (ℕ → Bool) → ℕ → Bool
unfolding cancel_token
cancel_all [] cancelled = cancelled
cancel_all (t ∷ ts) cancelled = cancel_all ts (cancel_token t cancelled)

unfoldable pub cancel_matching : (OperationKey → Bool) → OperationRegistry → ℕ × OperationRegistry
cancel_matching p s =
    let tokens =
      map (λ (entry : OperationKey × ℕ). entry.1) (filter (λ entry. p entry.0) s.tokens) in
    (length tokens, record s { cancelled = cancel_all tokens s.cancelled })

unfoldable pub cancel_for_plugin_account : Text → Text → OperationRegistry → ℕ × OperationRegistry
cancel_for_plugin_account plugin_id account_id =
    cancel_matching (of_plugin_account plugin_id account_id)

unfoldable pub cancel_for_account : Text → OperationRegistry → ℕ × OperationRegistry
cancel_for_account account_id = cancel_matching (of_account account_id)

-- `drop` of a guard, which then notifies the waiters
unfoldable pub drop_guard : OperationGuard → OperationRegistry → OperationRegistry
drop_guard g s = record s {
  tokens = remove_token g.key s.tokens;
  notifications = suc s.notifications;
}

-- The test of the loop in `wait_until_idle`.
unfoldable pub is_idle : (OperationKey → Bool) → OperationRegistry → Bool
unfolding any
is_idle p s = not (any (λ entry. p entry.0) s.tokens)

-- The loop of `wait_until_idle` over the registries that stand, one after the other, until the
-- deadline: a round that found `seen` notifications is woken by the first registry with more of them.
unfoldable pub wait_woken : (OperationKey → Bool) → ℕ → List OperationRegistry → Result (Unit {0})
wait_woken p seen [] = err (provider_busy (some 250))
wait_woken p seen (s ∷ rest) =
    let asleep = wait_woken p seen rest in
    let again = wait_woken p s.notifications rest in
    if s.notifications == seen then asleep else if is_idle p s then ok tt else again

-- `wait_until_idle` on the registry of its first round and those that follow.
unfoldable pub wait_until_idle :
    (OperationKey → Bool) → OperationRegistry → List OperationRegistry → Result (Unit {0})
wait_until_idle p s later = if is_idle p s then ok tt else wait_woken p s.notifications later

unfoldable pub wait_for_plugin_account_idle :
    Text → Text → OperationRegistry → List OperationRegistry → Result (Unit {0})
wait_for_plugin_account_idle plugin_id account_id =
    wait_until_idle (of_plugin_account plugin_id account_id)

unfoldable pub wait_for_account_idle :
    Text → OperationRegistry → List OperationRegistry → Result (Unit {0})
wait_for_account_idle account_id = wait_until_idle (of_account account_id)
