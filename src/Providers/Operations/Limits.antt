-- ===== src/Providers/Operations/Limits.antt =====
-- The limits of `OperationRegistry` of providers/cursor.rs, and the shape of its table.
use mathlib.Core.Path.{subst}
use git_ramus.Base.Tests.{
  ap, ℕ, suc, ◌≤◌, ◌<◌, ◌≡◌, ◌↔◌, refl, ◌∙◌, inl, inr, Bool, true, false, ◌||◌, none, some, List,
  [], ◌∷◌, arith, Bool-cases, is_some, leb, ◌==◌, max_one, if◌then◌else◌,
}
use git_ramus.Base.Lists.{length}
use git_ramus.Base.Text.{Text, text_eq_iff}
use git_ramus.Base.Error.{ok, err, provider_busy}
use git_ramus.Providers.Operations.{
  OperationKey, key_eq, Tokens, OperationRegistry, OperationGuard, new, token_of, remove_token,
  account_operations, start, cancel, cancel_matching, cancel_for_plugin_account, cancel_for_account,
  drop_guard,
}
use git_ramus.Providers.Operations.Calls.{
  OperationCall, starts, cancels, drops, cancels_plugin_account, cancels_account, operation_step,
  operation_run,
}

pub key_eq_iff : (a b : OperationKey) → (key_eq a b ≡ true) ↔ (a ≡ b)
unfolding key_eq
key_eq_iff a b = ground (
  arith,
  text_eq_iff a.plugin_id b.plugin_id,
  text_eq_iff a.account_id b.account_id,
  text_eq_iff a.operation_id b.operation_id,
)

-- Every token of the list was made before the number.
abbrev pub Below : ℕ → Tokens → Type 0
Below n [] = Unit {0}
Below n ((k, a) ∷ rest) = (a < n) × Below n rest

-- No key twice, and the newer tokens first.
abbrev pub Ordered : Tokens → Type 0
Ordered [] = Unit {0}
Ordered ((k, a) ∷ rest) = (token_of k rest ≡ none) × Below a rest × Ordered rest

pub record IsLimited (s : OperationRegistry) : Type 0 where
  pub ordered : Ordered s.tokens
  pub below : Below s.next s.tokens
  pub total : length s.tokens ≤ s.global_limit
  pub per_account : (account : Text) → account_operations account s.tokens ≤ s.account_limit

Below-mono : (n m : ℕ) (t : Tokens) → n ≤ m → Below n t → Below m t
Below-mono n m [] h b = tt
Below-mono n m ((k, a) ∷ t) h b = (omega arith, Below-mono n m t h b.1)

module _ (k : OperationKey) where
  remove-Below : (n : ℕ) (t : Tokens) → Below n t → Below n (remove_token k t)
  unfolding remove_token
  remove-Below n [] b = tt
  remove-Below n ((j, a) ∷ t) b = elim (Bool-cases (key_eq j k)) [
    | inl e ↦ rw e (remove-Below n t b.1)
    | inr e ↦ rw e (b.0, remove-Below n t b.1)
  ]

  remove-absent :
      (j : OperationKey) (t : Tokens) → token_of j t ≡ none → token_of j (remove_token k t) ≡ none
  unfolding remove_token token_of
  remove-absent j [] h = refl
  remove-absent j ((i, a) ∷ t) h = ground (arith, remove-absent j t)

  remove-Ordered : (t : Tokens) → Ordered t → Ordered (remove_token k t)
  unfolding remove_token
  remove-Ordered [] o = tt
  remove-Ordered ((j, a) ∷ t) o = elim (Bool-cases (key_eq j k)) [
    | inl e ↦ rw e (remove-Ordered t o.2)
    | inr e ↦ rw e (remove-absent j t o.0, remove-Below a t o.1, remove-Ordered t o.2)
  ]

  length-remove_token : (t : Tokens) → length (remove_token k t) ≤ length t
  unfolding remove_token
  length-remove_token [] = omega arith
  length-remove_token ((j, a) ∷ t) = ground (arith, length-remove_token t)

  account_operations-remove :
      (account : Text) (t : Tokens)
      → account_operations account (remove_token k t) ≤ account_operations account t
  unfolding remove_token account_operations
  account_operations-remove account [] = omega arith
  account_operations-remove account ((j, a) ∷ t) =
      ground (arith, account_operations-remove account t)

-- `start` refuses and changes nothing, or enters a new key within both limits.
pub data StartOutcome (k : OperationKey) (s : OperationRegistry) : Type 0 where
  refused : start k s ≡ (err (provider_busy (some 250)), s) → StartOutcome k s
  entered :
      token_of k s.tokens ≡ none
      → length s.tokens < s.global_limit
      → account_operations k.account_id s.tokens < s.account_limit
      → start k s ≡ (
        ok (record { key = k; token = s.next }),
        record s {
          tokens = (k, s.next) ∷ s.tokens;
          cancelled = λ a. if a == s.next then false else s.cancelled a;
          next = suc s.next;
        },
      )
      → StartOutcome k s

pub start-StartOutcome : (k : OperationKey) (s : OperationRegistry) → StartOutcome k s
unfolding start
start-StartOutcome k s =
    elim (Bool-cases (
      is_some (token_of k s.tokens)
      || (leb s.global_limit (length s.tokens)
          || leb s.account_limit (account_operations k.account_id s.tokens)))) [
            | inl full ↦ refused (rw full refl)
            | inr room ↦ entered (ground arith) (ground arith) (ground arith) (rw room refl)
          ]

entered-IsLimited :
    (k : OperationKey) (s : OperationRegistry)
    → token_of k s.tokens ≡ none
    → length s.tokens < s.global_limit
    → account_operations k.account_id s.tokens < s.account_limit
    → IsLimited s
    → IsLimited (record s {
      tokens = (k, s.next) ∷ s.tokens;
      cancelled = λ a. if a == s.next then false else s.cancelled a;
      next = suc s.next;
    })
unfolding account_operations
entered-IsLimited k s absent room few i = record {
  ordered = (absent, i.below, i.ordered);
  below = (omega arith, Below-mono s.next (suc s.next) s.tokens (omega arith) i.below);
  total = omega arith;
  per_account = λ account. ground (arith, i.per_account account, text_eq_iff k.account_id account);
}

start-IsLimited : (k : OperationKey) (s : OperationRegistry) → IsLimited s → IsLimited (start k s).1
start-IsLimited k s i = elim (start-StartOutcome k s) [
  | refused e ↦ rw e i
  | entered absent room few e ↦ rw e (entered-IsLimited k s absent room few i)
]

drop-IsLimited :
    (g : OperationGuard) (s : OperationRegistry) → IsLimited s → IsLimited (drop_guard g s)
unfolding drop_guard
drop-IsLimited g s i = record {
  ordered = remove-Ordered g.key s.tokens i.ordered;
  below = remove-Below g.key s.next s.tokens i.below;
  total = omega (arith, length-remove_token g.key s.tokens, i.total);
  per_account = λ account.
      omega (arith, account_operations-remove g.key account s.tokens, i.per_account account);
}

-- A cancellation changes no more than the flags.
flags-IsLimited :
    (f : ℕ → Bool) (s : OperationRegistry) → IsLimited s → IsLimited (record s { cancelled = f })
flags-IsLimited f s i = record {
  ordered = i.ordered;
  below = i.below;
  total = i.total;
  per_account = i.per_account;
}

cancel-flags :
    (k : OperationKey) (s : OperationRegistry)
    → (cancel k s).1 ≡ record s { cancelled = (cancel k s).1.cancelled }
unfolding cancel
cancel-flags k s = ground arith

operation_step-IsLimited :
    (c : OperationCall) (s : OperationRegistry) → IsLimited s → IsLimited (operation_step c s)
unfolding operation_step cancel_for_plugin_account cancel_for_account cancel_matching
operation_step-IsLimited (starts k) s i = start-IsLimited k s i
operation_step-IsLimited (cancels k) s i =
    rw cancel-flags (flags-IsLimited (cancel k s).1.cancelled s i)
operation_step-IsLimited (drops k) s i = drop-IsLimited (record { key = k; token = 0 }) s i
operation_step-IsLimited (cancels_plugin_account p a) s i = flags-IsLimited _ s i
operation_step-IsLimited (cancels_account a) s i = flags-IsLimited _ s i

run-IsLimited :
    (cs : List OperationCall) (s : OperationRegistry) → IsLimited s → IsLimited (operation_run cs s)
unfolding operation_run
run-IsLimited [] s i = i
run-IsLimited (c ∷ cs) s i = run-IsLimited cs (operation_step c s) (operation_step-IsLimited c s i)

new-IsLimited : (global account : ℕ) → IsLimited (new global account)
unfolding new account_operations
new-IsLimited global account = record {
  ordered = tt;
  below = tt;
  total = omega arith;
  per_account = λ a. omega arith;
}

pub operation_run-IsLimited :
    (cs : List OperationCall) (global account : ℕ)
    → IsLimited (operation_run cs (new global account))
operation_run-IsLimited cs global account =
    run-IsLimited cs (new global account) (new-IsLimited global account)

abbrev limits : OperationRegistry → ℕ × ℕ
limits s = (s.global_limit, s.account_limit)

step-limits : (c : OperationCall) (s : OperationRegistry) → limits (operation_step c s) ≡ limits s
unfolding operation_step cancel_for_plugin_account cancel_for_account cancel_matching drop_guard
    start cancel
step-limits (starts k) s = ground arith
step-limits (cancels k) s = ground arith
step-limits (drops k) s = refl
step-limits (cancels_plugin_account p a) s = refl
step-limits (cancels_account a) s = refl

run-limits :
    (cs : List OperationCall) (s : OperationRegistry) → limits (operation_run cs s) ≡ limits s
unfolding operation_run
run-limits [] s = refl
run-limits (c ∷ cs) s = run-limits cs (operation_step c s) ∙ step-limits c s

-- Whatever operations are started, canceled and ended in a new registry, there are never more of
-- them than its global limit, nor more of one account than its account limit (each at least one).
pub operations_limited :
    (cs : List OperationCall) (global account : ℕ) (id : Text)
    → let s = operation_run cs (new global account) in
      (length s.tokens ≤ max_one global) × (account_operations id s.tokens ≤ max_one account)
operations_limited cs global account id =
    let s = operation_run cs (new global account) in
    let i = operation_run-IsLimited cs global account in
    let made : limits (new global account) ≡ (max_one global, max_one account) =
      unfold new in refl in
    let e = run-limits cs (new global account) ∙ made in
    (
      subst (λ x. length s.tokens ≤ x) (ap (λ (x : ℕ × ℕ). x.0) e) i.total,
      subst (λ x. account_operations id s.tokens ≤ x) (ap (λ (x : ℕ × ℕ). x.1) e)
          (i.per_account id),
    )
