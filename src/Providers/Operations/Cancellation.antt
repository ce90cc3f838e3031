-- ===== src/Providers/Operations/Cancellation.antt =====
-- Whom the cancellations of `OperationRegistry` of providers/cursor.rs reach.
use git_ramus.Base.Tests.{
  ℕ, ◌<◌, ◌≡◌, refl, ap, ◌∙◌, inl, inr, Bool, true, false, ◌||◌, none, some, List, [], ◌∷◌, map,
  arith, Bool-cases, ◌==◌, if◌then◌else◌,
}
use git_ramus.Base.Lists.{length, filter, count_if}
use git_ramus.Base.Text.{Text}
use git_ramus.Base.Error.{ok, Result, ok_injective}
use git_ramus.Providers.Operations.{
  OperationKey, key_eq, Tokens, OperationRegistry, OperationGuard, new, token_of, remove_token,
  of_account, of_plugin_account, account_operations, start, cancel_token, cancel, cancel_all,
  cancel_matching, cancel_for_plugin_account, cancel_for_account, drop_guard,
}
use git_ramus.Providers.Operations.Calls.{OperationCall, operation_run}
use git_ramus.Providers.Operations.Limits.{
  key_eq_iff, Below, Ordered, operation_run-IsLimited, start-StartOutcome, refused, entered,
}

token_of-Below :
    (n : ℕ) (k : OperationKey) (t : Tokens) (a : ℕ) → Below n t → token_of k t ≡ some a → a < n
unfolding token_of
token_of-Below n k [] a b h = cc
token_of-Below n k ((j, c) ∷ t) a b h = ground (arith, token_of-Below n k t a b.1)

-- Two operations have one token only if they are one.
separate :
    (k j : OperationKey) (t : Tokens) (a : ℕ)
    → Ordered t
    → token_of k t ≡ some a
    → token_of j t ≡ some a
    → k ≡ j
unfolding token_of
separate k j [] a o h g = cc
separate k j ((i, c) ∷ t) a o h g = ground (
  arith,
  key_eq_iff i k,
  key_eq_iff i j,
  separate k j t a o.2,
  token_of-Below c k t a o.1,
  token_of-Below c j t a o.1,
)

abbrev chosen : (OperationKey → Bool) → Tokens → List ℕ
chosen p t = map (λ (entry : OperationKey × ℕ). entry.1) (filter (λ entry. p entry.0) t)

-- A token that is newer than all others is not canceled with them.
cancel_all-newer :
    (p : OperationKey → Bool) (t : Tokens) (c : ℕ → Bool) (a : ℕ)
    → Below a t
    → cancel_all (chosen p t) c a ≡ c a
unfolding cancel_all filter
cancel_all-newer p [] c a b = refl
cancel_all-newer p ((j, n) ∷ t) c a b = elim (Bool-cases (p j)) [
  | inl e ↦ rw e (cancel_all-newer p t (cancel_token n c) a b.1 ∙ ground arith)
  | inr e ↦ rw e (cancel_all-newer p t c a b.1)
]

cancel_all-first :
    (p : OperationKey → Bool) (j : OperationKey) (n : ℕ) (t : Tokens) (c : ℕ → Bool)
    → Below n t
    → cancel_all (chosen p ((j, n) ∷ t)) c n ≡ (p j || c n)
unfolding cancel_all filter
cancel_all-first p j n t c b = elim (Bool-cases (p j)) [
  | inl e ↦ rw e (cancel_all-newer p t (cancel_token n c) n b ∙ ground arith)
  | inr e ↦ rw e (cancel_all-newer p t c n b)
]

cancel_all-older :
    (p : OperationKey → Bool) (j : OperationKey) (n : ℕ) (t : Tokens) (c : ℕ → Bool) (a : ℕ)
    → a < n
    → (q : Bool) → ((d : ℕ → Bool) → cancel_all (chosen p t) d a ≡ (q || d a))
    → cancel_all (chosen p ((j, n) ∷ t)) c a ≡ (q || c a)
unfolding cancel_all filter
cancel_all-older p j n t c a older q h = elim (Bool-cases (p j)) [
  | inl e ↦ rw e (h (cancel_token n c) ∙ ground arith)
  | inr e ↦ rw e (h c)
]

cancel_all-chosen :
    (p : OperationKey → Bool) (t : Tokens) (k : OperationKey) (a : ℕ)
    → Ordered t
    → token_of k t ≡ some a
    → (c : ℕ → Bool) → cancel_all (chosen p t) c a ≡ (p k || c a)
unfolding token_of
cancel_all-chosen p [] k a o h c = cc
cancel_all-chosen p ((j, n) ∷ t) k a o h c = elim (Bool-cases (key_eq j k)) [
  | inl here ↦
      let same : n ≡ a = ground arith in
      rw (← same, ← (key_eq_iff j k).0 here) (cancel_all-first p j n t c o.1)
  | inr there ↦
      let h' : token_of k t ≡ some a = rw there at h in
      cancel_all-older p j n t c a (token_of-Below n k t a o.1 h') (p k)
        (cancel_all-chosen p t k a o.2 h')
]

length-chosen :
    (p : OperationKey → Bool) (t : Tokens)
    → length (chosen p t) ≡ count_if (λ (entry : OperationKey × ℕ). p entry.0) t
unfolding filter count_if
length-chosen p [] = refl
length-chosen p ((j, n) ∷ t) = elim (Bool-cases (p j)) [
  | inl e ↦ rw e (omega (arith, length-chosen p t))
  | inr e ↦ rw e (omega (arith, length-chosen p t))
]

cancel_flag :
    (k j : OperationKey) (s : OperationRegistry) (a b : ℕ)
    → Ordered s.tokens
    → token_of k s.tokens ≡ some a
    → token_of j s.tokens ≡ some b
    → (cancel k s).1.cancelled b ≡ (key_eq k j || s.cancelled b)
unfolding cancel cancel_token
cancel_flag k j s a b o h g = rw h (ground (arith, key_eq_iff k j, separate k j s.tokens a o))

cancel_answer :
    (k : OperationKey) (s : OperationRegistry) (a : ℕ)
    → token_of k s.tokens ≡ some a
    → (cancel k s).0 ≡ true
unfolding cancel
cancel_answer k s a h = rw h refl

module _ (cs : List OperationCall) (global account : ℕ) where
  -- In every registry that calls can make, a cancellation reaches the operations that it names and
  -- no other: `cancel` sets the flag of the operation with exactly the given plugin, account and
  -- identifier, `cancel_for_plugin_account` the flags of the operations of the plugin for the
  -- account, and `cancel_for_account` those of all operations of the account, and it answers how
  -- many these are. Here `j` is any operation under way, `k` the one that is canceled.
  pub cancellation_scoped :
      (k j : OperationKey) (plugin id : Text) {a b : ℕ}
      → token_of k (operation_run cs (new global account)).tokens ≡ some a
      → token_of j (operation_run cs (new global account)).tokens ≡ some b
      → let s = operation_run cs (new global account) in
        ((cancel k s).0 ≡ true)
        × ((cancel k s).1.cancelled b ≡ (key_eq k j || s.cancelled b))
        × ((cancel_for_plugin_account plugin id s).1.cancelled b
            ≡ (of_plugin_account plugin id j || s.cancelled b))
        × ((cancel_for_account id s).1.cancelled b ≡ (of_account id j || s.cancelled b))
        × ((cancel_for_account id s).0 ≡ account_operations id s.tokens)
  unfolding cancel_for_plugin_account cancel_for_account cancel_matching account_operations
  cancellation_scoped k j plugin id {a} {b} here there =
      let s = operation_run cs (new global account) in
      let o = (operation_run-IsLimited cs global account).ordered in
      (
        cancel_answer k s a here,
        cancel_flag k j s a b o here there,
        cancel_all-chosen (of_plugin_account plugin id) s.tokens j b o there s.cancelled,
        cancel_all-chosen (of_account id) s.tokens j b o there s.cancelled,
        length-chosen (of_account id) s.tokens,
      )

remove_token-absent : (k : OperationKey) (t : Tokens) → token_of k t ≡ none → remove_token k t ≡ t
unfolding remove_token token_of
remove_token-absent k [] h = refl
remove_token-absent k ((j, n) ∷ t) h = ground (arith, remove_token-absent k t)

remove_token-first :
    (k : OperationKey) (n : ℕ) (t : Tokens) → token_of k t ≡ none → remove_token k ((k, n) ∷ t) ≡ t
unfolding remove_token
remove_token-first k n t h = rw ((key_eq_iff k k).1 refl) (remove_token-absent k t h)

fresh_token : (k : OperationKey) (n : ℕ) (t : Tokens) → token_of k ((k, n) ∷ t) ≡ some n
unfolding token_of
fresh_token k n t = rw ((key_eq_iff k k).1 refl) refl

fresh_flag : (n : ℕ) (b : Bool) → (if n == n then false else b) ≡ false
fresh_flag n b = ground arith

-- An operation that `start` accepted was not under way, begins with its flag not set, and when its
-- guard is dropped the registry has the operations that it had before.
pub drop_guard-start :
    (k : OperationKey) (s : OperationRegistry) {g : OperationGuard} {s' : OperationRegistry}
    → start k s ≡ (ok g, s')
    → (token_of k s.tokens ≡ none)
      × (token_of k s'.tokens ≡ some g.token)
      × (s'.cancelled g.token ≡ false)
      × ((drop_guard g s').tokens ≡ s.tokens)
unfolding drop_guard
drop_guard-start k s {g} {s'} h = elim (start-StartOutcome k s) [
  | refused e ↦ let x = rw e at h in cc
  | entered absent room few e ↦
      let x = rw e at h in
      rw
        (
          ← ok_injective (ap (λ (y : Result OperationGuard × OperationRegistry). y.0) x),
          ← ap (λ (y : Result OperationGuard × OperationRegistry). y.1) x,
        )
        (
          absent,
          fresh_token k s.next s.tokens,
          fresh_flag s.next (s.cancelled s.next),
          remove_token-first k s.next s.tokens absent,
        )
]
