-- ===== src/Transport/Url/Safety.antt =====
-- What the validation of git/transport/url.rs guarantees about the URL that Git gets.
use git_ramus.Base.Tests.{◌++◌, ◌≡◌, Bool, true, false, not, ◌||◌, ◌∷◌}
use git_ramus.Base.Lists.{any}
use git_ramus.Base.Text.{Text, codes, is_empty, has_char, split, text_eq}
use git_ramus.Transport.Url.{ssh, https, Url, ValidatedRemoteUrl, authority}

-- A user that ends where the `@` of a URL stands.
unfoldable pub is_plain_user : Text → Bool
unfolding is_empty has_char
is_plain_user user = not (
    is_empty user
    || (has_char b'@' user
        || (has_char b':' user
            || (has_char b'/' user || (has_char b' ' user || has_char b'%' user)))))

-- The texts of the three forms of a URL that Git gets.
pub data IsRemoteForm (r : ValidatedRemoteUrl) : Type 0 where
  over_https :
      r.kind ≡ https
      → r.execution_url
        ≡ codes "https://" ++ (authority r.host r.port ++ b'/' ∷ (r.path ++ codes ".git"))
      → IsRemoteForm r
  over_ssh :
      (user : Text)
      → r.kind ≡ ssh
      → is_plain_user user ≡ true
      → r.execution_url
        ≡ codes "ssh://"
          ++ (user ++ b'@' ∷ (authority r.host r.port ++ b'/' ∷ (r.path ++ codes ".git")))
      → IsRemoteForm r
  over_scp :
      (user : Text)
      → r.kind ≡ ssh
      → is_plain_user user ≡ true
      → r.execution_url ≡ user ++ b'@' ∷ (r.host ++ b':' ∷ (r.path ++ codes ".git"))
      → IsRemoteForm r

-- A path, relative to the root of the host, that goes only down.
pub record GoesDown (path : Text) : Type 0 where
  pub no_empty : any is_empty (split b'/' path) ≡ false
  pub no_dot : any (text_eq (codes ".")) (split b'/' path) ≡ false
  pub no_parent : any (text_eq (codes "..")) (split b'/' path) ≡ false
  pub no_backslash : has_char b'\\' path ≡ false
  pub no_query : (has_char b'?' path || has_char b'#' path) ≡ false

pub record IsSafeRemote (r : ValidatedRemoteUrl) : Type 0 where
  pub inside : GoesDown r.path
  pub shown_as_run : r.sanitized_display ≡ r.execution_url
  pub form : IsRemoteForm r
