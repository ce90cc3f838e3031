-- ===== src/Base/Error.antt =====
-- error.rs: the error values that the modelled code returns, and the two monads it runs in.
use git_ramus.Base.Tests.{
  ℕ, ◌≡◌, refl, if◌then◌else◌, ◌⊎◌, inl, inr, Bool, true, false, Option, none, some,
}
use git_ramus.Base.Text.{Text}

-- The variants of `AppError` that the modelled code constructs. `repository_busy` is
-- `AppError::Transport(TransportFailure::repository_busy())`, `database` an error of SQLite,
-- `invalid_cursor` and `provider_busy` are `AppError::Provider` of the `ProviderFailure` so named.
-- `git_failed` is `AppError::Git`, `timeout` is `AppError::Timeout`. `profile_mismatch`,
-- `config_drift` and `transport_partial` are `AppError::Transport` of the `TransportFailure` so named,
-- with its resource and its failed step; `invalid_response` is `AppError::Provider`, `unsafe_path` and
-- `destination_exists` are again `AppError::Transport`, and `io` is any error of the file system.
pub data AppError : Type 0 where
  invalid_input : Text → AppError
  not_found : Text → AppError
  permission_denied canceled repository_busy database output_limit timeout invalid_cursor : AppError
  provider_busy : Option ℕ → AppError
  git_failed user_action_required : Text → AppError
  trust_required : AppError
  profile_mismatch : Option Text → AppError
  config_drift : Text → Text → AppError
  transport_partial : Text → Text → AppError
  invalid_response unsafe_path destination_exists io : AppError

pub data Result {ℓ} (A : Type ℓ) : Type ℓ where
  ok : A → Result A
  err : AppError → Result A

abbrev pub and_then {ℓ κ} : {A : Type ℓ} {B : Type κ} → Result A → (A → Result B) → Result B
and_then (ok a) f = f a
and_then (err e) f = err e

-- `if !test { return Err(AppError::InvalidInput(message)) }`, and what follows
abbrev pub ensure {ℓ} : {A : Type ℓ} → Bool → Text → Result A → Result A
ensure true message rest = rest
ensure false message rest = err (invalid_input message)

-- `ok_or`
abbrev pub ok_or {ℓ} : {A : Type ℓ} → Option A → AppError → Result A
ok_or none e = err e
ok_or (some a) e = ok a

abbrev pub is_ok {ℓ} : {A : Type ℓ} → Result A → Bool
is_ok (ok _) = true
is_ok (err _) = false

pub and_then-eq-ok {ℓ κ} :
    {A : Type ℓ} {B : Type κ} (m : Result A) (f : A → Result B) {b : B}
    → and_then m f ≡ ok b
    → (a : A) × (m ≡ ok a) × (f a ≡ ok b)
and_then-eq-ok (ok a) f h = (a, refl, h)
and_then-eq-ok (err e) f h = cc

pub Result-cases {ℓ} :
    {A : Type ℓ} (r : Result A) → ((a : A) × (r ≡ ok a)) ⊎ ((e : AppError) × (r ≡ err e))
Result-cases (ok a) = inl (a, refl)
Result-cases (err e) = inr (e, refl)

-- A handler takes the state of its component and gives back a result and the new state.
abbrev pub M : Type 0 → Type 0 → Type 0
M S A = S → Result A × S

abbrev pub bind_case : {S A B : Type 0} → Result A × S → (A → M S B) → Result B × S
bind_case (ok a, s) f = f a s
bind_case (err e, s) f = (err e, s)

infixl 5 ◌>>=◌
abbrev pub ◌>>=◌ : {S A B : Type 0} → M S A → (A → M S B) → M S B
◌>>=◌ m f s = bind_case (m s) f

abbrev pub return : {S A : Type 0} → A → M S A
return a s = (ok a, s)

abbrev pub throw : {S A : Type 0} → AppError → M S A
throw e s = (err e, s)

infixl 5 ◌>>◌
abbrev pub ◌>>◌ : {S A B : Type 0} → M S A → M S B → M S B
m >> k = m >>= λ _. k

pub bind-eq-ok :
    {S A B : Type 0} (m : Result A × S) (f : A → M S B) {b : B} {u : S}
    → bind_case m f ≡ (ok b, u)
    → (a : A) × (s : S) × (m ≡ (ok a, s)) × (f a s ≡ (ok b, u))
bind-eq-ok (ok a, s) f h = (a, s, refl, h)
bind-eq-ok (err e, s) f h = cc

pub ok_injective {ℓ} : {A : Type ℓ} {a b : A} → ok a ≡ ok b → a ≡ b
ok_injective h = cc

pub ensure-eq-ok {ℓ} :
    {A : Type ℓ} (test : Bool) (message : Text) (rest : Result A) {a : A}
    → ensure test message rest ≡ ok a
    → (test ≡ true) × (rest ≡ ok a)
ensure-eq-ok true message rest h = (refl, h)
ensure-eq-ok false message rest h = cc

pub then-eq-ok {ℓ} :
    {B : Type ℓ} (m : Result (Unit {0})) (k : Result B) {b : B}
    → and_then m (λ _. k) ≡ ok b
    → (m ≡ ok tt) × (k ≡ ok b)
then-eq-ok (ok tt) k h = (refl, h)
then-eq-ok (err e) k h = cc

-- A guard that refuses with an error.
pub unless-eq-ok {ℓ} :
    {A : Type ℓ} (test : Bool) (e : AppError) (rest : Result A) {a : A}
    → (if test then err e else rest) ≡ ok a
    → (test ≡ false) × (rest ≡ ok a)
unless-eq-ok true e rest h = cc
unless-eq-ok false e rest h = (refl, h)

pub ok_or-eq-ok {ℓ} :
    {A : Type ℓ} (o : Option A) (e : AppError) {a : A} → ok_or o e ≡ ok a → o ≡ some a
ok_or-eq-ok none e h = cc
ok_or-eq-ok (some a) e h = cc
