-- ===== src/Providers/Store/Secrets.antt =====
-- providers/store.rs: the queue of secrets that wait for their removal from the key ring.
use git_ramus.Base.Tests.{
  ℕ, suc, Bool, false, not, ◌&&◌, ◌||◌, Option, none, some, [], ◌∷◌, leb, ◌==◌, is_some,
  if◌then◌else◌,
}
use git_ramus.Base.Lists.{all}
use git_ramus.Base.Text.{Text, codes, text_eq, is_ascii_digit}
use git_ramus.Base.Utf8.{byte_len}
use git_ramus.Base.Table.{Table, lookup, insert, remove}
use git_ramus.Base.Error.{invalid_input, not_found, ok, err, M}
use git_ramus.Providers.Store.{ProviderDb, ProviderAccount, SecretCleanupRecord, with_cleanup}

abbrev is_ascii_lowercase : ℕ → Bool
is_ascii_lowercase c = leb b'a' c && leb c b'z'

unfoldable pub is_code_char : ℕ → Bool
unfolding is_ascii_digit
is_code_char c = is_ascii_lowercase c || (is_ascii_digit c || (c == b'.' || c == b'-'))

unfoldable pub is_stable_error_code : Text → Bool
unfolding is_code_char byte_len all
is_stable_error_code [] = false
is_stable_error_code (c ∷ s) =
    is_ascii_lowercase c && (leb (byte_len (c ∷ s)) 128 && all is_code_char s)

-- `SELECT EXISTS(SELECT 1 FROM provider_accounts WHERE secret_ref=?1)`
unfoldable pub secret_ref_is_referenced : Text → Table ProviderAccount → Bool
unfolding text_eq
secret_ref_is_referenced secret_ref [] = false
secret_ref_is_referenced secret_ref ((id, a) ∷ rest) =
    text_eq a.secret_ref secret_ref || secret_ref_is_referenced secret_ref rest

-- `ON CONFLICT(secret_ref) DO NOTHING`
unfoldable pub enqueue_secret_cleanup : Text → ℕ → M ProviderDb (Unit {0})
unfolding lookup insert
enqueue_secret_cleanup secret_ref now db =
    if is_some (lookup secret_ref db.cleanup) then (ok tt, db) else (
      ok tt,
      with_cleanup db (
          insert secret_ref
            (record {
              created_at = now;
              last_attempt_at = none;
              attempt_count = 0;
              last_error_code = none;
            })
            db.cleanup),
    )

abbrev attempted : SecretCleanupRecord → ℕ → Option Text → SecretCleanupRecord
attempted r now error_code = record {
  created_at = r.created_at;
  last_attempt_at = some now;
  attempt_count = suc r.attempt_count;
  last_error_code = error_code;
}

abbrev finish_cleanup : Text → M ProviderDb (Unit {0})
finish_cleanup secret_ref db =
    if secret_ref_is_referenced secret_ref db.accounts
    then (err (invalid_input (codes "referenced Provider secret cannot be cleaned up")), db)
    else if is_some (lookup secret_ref db.cleanup)
    then (ok tt, with_cleanup db (remove secret_ref db.cleanup))
    else (err (not_found (codes "Provider secret cleanup")), db)

abbrev note_failure : Text → ℕ → Option Text → Option SecretCleanupRecord → M ProviderDb (Unit {0})
note_failure secret_ref now error_code none db =
    (err (not_found (codes "Provider secret cleanup")), db)
note_failure secret_ref now error_code (some r) db =
    (ok tt, with_cleanup db (insert secret_ref (attempted r now error_code) db.cleanup))

-- `error_code.is_some_and(is_stable_error_code)`
abbrev is_stable : Option Text → Bool
is_stable none = false
is_stable (some code) = is_stable_error_code code

unfoldable pub record_cleanup_attempt : Text → Bool → Option Text → ℕ → M ProviderDb (Unit {0})
unfolding is_stable_error_code secret_ref_is_referenced lookup remove insert codes
record_cleanup_attempt secret_ref succeeded error_code now db =
    if succeeded && is_some error_code
    then (err (invalid_input (codes "successful cleanup cannot include an error code")), db)
    else if not succeeded && not (is_stable error_code)
    then (err (invalid_input (codes "cleanup failure requires a stable error code")), db)
    else if succeeded
    then finish_cleanup secret_ref db
    else note_failure secret_ref now error_code (lookup secret_ref db.cleanup) db
