-- ===== src/Scenarios/Providers.antt =====
-- Cursors and operations of providers/cursor.rs at work.
use git_ramus.Base.Tests.{
  inr, ◌+◌, ℕ, ◌≤◌, ◌≡◌, ◌≢◌, refl, true, ◌||◌, none, some, List, [], ◌∷◌, arith, max_one,
}
use git_ramus.Base.Lists.{length, filter, count_if, any}
use git_ramus.Base.Text.{Text, text_eq, option_text_eq}
use git_ramus.Base.Table.{lookup, insert, remove, retain}
use git_ramus.Base.Keys.{Distinct}
use git_ramus.Base.Error.{ok, err, invalid_cursor}
use git_ramus.Providers.Model.{
  github, public, everything, by_name, asc, ProviderRepositoryQuery, kind_eq, query_eq,
  option_visibility_eq, archived_eq, sort_eq, direction_eq,
}
use git_ramus.Providers.Cursor.{
  CursorEntry, Claim, with_capacity, insert_cursor, take, unexpired, nearest, make_room, take_found,
  is_bound_to,
}
use git_ramus.Providers.Cursor.Calls.{CursorCall, inserts, takes, cursor_run}
use git_ramus.Providers.Cursor.Capacity.{cursors_bounded}
use git_ramus.Providers.Cursor.Redemption.{IsOwner}
use git_ramus.Providers.Cursor.OneUse.{Spares, Leaves, made, cursor_one_use}
use git_ramus.Providers.Operations.{
  OperationKey, OperationGuard, key_eq, new, token_of, start, cancel, cancel_for_plugin_account,
  cancel_for_account, of_account, of_plugin_account, account_operations, drop_guard, remove_token,
  is_idle,
}
use git_ramus.Providers.Operations.Calls.{
  OperationCall, starts, drops, cancels_account, operation_run,
}
use git_ramus.Providers.Operations.Limits.{operations_limited}
use git_ramus.Providers.Operations.Cancellation.{cancellation_scoped}
use git_ramus.Providers.Operations.Waiting.{dropped, starts_none, all_of}

abbrev letter : ℕ → Text
letter c = c ∷ []

abbrev listing : ProviderRepositoryQuery
listing = record {
  search = [];
  visibility = some public;
  namespace = none;
  archived = everything;
  sort = by_name;
  direction = asc;
  page_size = 20;
}

abbrev entry_until : ℕ → CursorEntry
entry_until t = record {
  plugin_id = letter b'p';
  provider_kind = github;
  instance_id = letter b'i';
  account_id = letter b'a';
  query = listing;
  adapter_cursor = none;
  buffered = [];
  expires_at = t;
}

abbrev claim_of : ℕ → Claim
claim_of plugin = record {
  plugin_id = letter plugin;
  provider_kind = github;
  instance_id = letter b'i';
  account_id = letter b'a';
  query = listing;
}

-- Two cursors fill the store; the second expires first.
abbrev filling : List CursorCall
filling = inserts (letter b'1') (entry_until 90) 0 ∷ inserts (letter b'2') (entry_until 80) 1 ∷ []

-- A proof that unfolds it computes with every function of the cursors.
cursors_opened : Unit {0}
unfolding cursor_run git_ramus.Providers.Cursor.Calls.cursor_step insert_cursor take with_capacity
    unexpired nearest make_room take_found is_bound_to lookup insert remove retain text_eq kind_eq
    query_eq option_text_eq option_visibility_eq archived_eq sort_eq direction_eq
cursors_opened = tt

cursors_bounded_example :
    let s = cursor_run filling (with_capacity 2) in
    (length s.entries ≤ max_one 2) × Distinct s.entries
cursors_bounded_example = cursors_bounded filling 2

owner : IsOwner (claim_of b'p') (entry_until 70)
owner = record { plugin = refl; provider = refl; instance_of = refl; account = refl; query = refl }

-- While the cursor waits, another is made, and another plugin asks for it.
abbrev meanwhile : List CursorCall
meanwhile = inserts (letter b'4') (entry_until 90) 6 ∷ takes (letter b'3') (claim_of b'q') 7 ∷ []

abbrev afterwards : List CursorCall
afterwards = takes (letter b'4') (claim_of b'p') 9 ∷ inserts (letter b'5') (entry_until 90) 9 ∷ []

other_plugin : ¬ IsOwner (claim_of b'q') (entry_until 70)
other_plugin o = absurd (q_is_not_p o.plugin)
  where
    q_is_not_p : letter b'p' ≡ letter b'q' → ⊥
    q_is_not_p h = ground arith

meanwhile-Spares : Spares (letter b'3') (entry_until 70) meanwhile
meanwhile-Spares = (four_is_not_three, omega arith, (inr other_plugin, omega arith, tt))
  where
    four_is_not_three : letter b'4' ≡ letter b'3' → ⊥
    four_is_not_three h = ground arith

afterwards-Leaves : Leaves (letter b'3') afterwards
afterwards-Leaves = (five_is_not_three, tt)
  where
    five_is_not_three : letter b'5' ≡ letter b'3' → ⊥
    five_is_not_three h = ground arith

has_room :
    let s = insert_cursor (letter b'3') (entry_until 70) 5 (cursor_run filling (with_capacity 4)) in
    length s.entries + made meanwhile ≤ s.capacity
unfolding cursors_opened
has_room = omega arith

cursor_one_use_example :
    let s = insert_cursor (letter b'3') (entry_until 70) 5 (cursor_run filling (with_capacity 4)) in
    let (answer, s') = take (letter b'3') (claim_of b'p') 8 (cursor_run meanwhile s) in
    (answer ≡ ok (entry_until 70))
    × ((take (letter b'3') (claim_of b'p') 10 (cursor_run afterwards s')).0 ≡ err invalid_cursor)
cursor_one_use_example =
    cursor_one_use filling meanwhile afterwards 4 (letter b'3') (entry_until 70) 5 8 10
      (claim_of b'p') (claim_of b'p') has_room meanwhile-Spares afterwards-Leaves (omega arith)
      owner

abbrev taken : List CursorCall
taken = inserts (letter b'1') (entry_until 90) 0 ∷ []

second_present :
    lookup (letter b'2') (cursor_run filling (with_capacity 2)).entries ≡ some (entry_until 80)
unfolding cursors_opened
second_present = refl

-- Another plugin asks for the cursor and does not spend it.
stranger : ¬ IsOwner (claim_of b'q') (entry_until 80)
stranger o = absurd (q_is_not_p o.plugin)
  where
    q_is_not_p : letter b'p' ≡ letter b'q' → ⊥
    q_is_not_p h = ground arith

three_is_not_two : ◌≢◌ {A = Text} (letter b'3') (letter b'2')
three_is_not_two = ground arith

abbrev key : ℕ → ℕ → OperationKey
key account operation = record {
  plugin_id = letter b'p';
  account_id = letter account;
  operation_id = letter operation;
}

abbrev busy : List OperationCall
busy = starts (key b'a' b'1') ∷ starts (key b'b' b'2') ∷ starts (key b'a' b'3') ∷ []

operations_opened : Unit {0}
unfolding operation_run git_ramus.Providers.Operations.Calls.operation_step start new token_of
    key_eq text_eq account_operations drop_guard remove_token is_idle count_if filter any
operations_opened = tt

operations_limited_example :
    let s = operation_run busy (new 2 1) in
    (length s.tokens ≤ max_one 2) × (account_operations (letter b'a') s.tokens ≤ max_one 1)
operations_limited_example = operations_limited busy 2 1 (letter b'a')

first_token : token_of (key b'a' b'1') (operation_run busy (new 4 4)).tokens ≡ some 0
unfolding operations_opened
first_token = refl

other_token : token_of (key b'b' b'2') (operation_run busy (new 4 4)).tokens ≡ some 1
unfolding operations_opened
other_token = refl

cancellation_scoped_example :
    let s = operation_run busy (new 4 4) in
    let k = key b'a' b'1' in
    let j = key b'b' b'2' in
    ((cancel k s).0 ≡ true)
    × ((cancel k s).1.cancelled 1 ≡ (key_eq k j || s.cancelled 1))
    × ((cancel_for_plugin_account (letter b'p') (letter b'a') s).1.cancelled 1
        ≡ (of_plugin_account (letter b'p') (letter b'a') j || s.cancelled 1))
    × ((cancel_for_account (letter b'a') s).1.cancelled 1
        ≡ (of_account (letter b'a') j || s.cancelled 1))
    × ((cancel_for_account (letter b'a') s).0 ≡ account_operations (letter b'a') s.tokens)
cancellation_scoped_example =
    cancellation_scoped busy 4 4 (key b'a' b'1') (key b'b' b'2') (letter b'p') (letter b'a')
      first_token other_token

-- The guards of one account are dropped while another one starts an operation.
abbrev ending : List OperationCall
ending = drops (key b'a' b'3') ∷ starts (key b'b' b'4') ∷ drops (key b'a' b'1') ∷ []

waiting_opened : Unit {0}
unfolding operations_opened starts_none dropped all_of
waiting_opened = tt
