-- ===== src/Transport/Url.antt =====
-- git/transport/url.rs: which remote URLs the application hands to Git. `Url::parse` of the crate url
-- is a parameter, and so is the record of what its accessors give.
pub mod Safety
use git_ramus.Base.Tests.{
  ℕ, suc, zero, ◌+◌, ◌/◌, ◌%◌, Bool, true, false, not, ◌&&◌, ◌||◌, Option, none, some, List, [],
  ◌∷◌, ◌++◌, map, leb, ltb, ◌==◌, is_none, is_some, if◌then◌else◌,
}
use git_ramus.Base.Lists.{any, all}
use git_ramus.Base.Text.{
  Text, codes, text_eq, is_empty, has_char, is_control, starts_with, strip_suffix, split,
  split_once, trim_with, to_ascii_lower, is_ascii_alphabetic, is_ascii_alphanumeric,
}
use git_ramus.Base.Utf8.{byte_len}
use git_ramus.Base.Error.{AppError, invalid_input, Result, ok, err, and_then, ok_or}

pub data TransportKind : Type 0 where
  ssh https : TransportKind

unfoldable pub kind_eq : TransportKind → TransportKind → Bool
kind_eq ssh ssh = true
kind_eq https https = true
kind_eq _ _ = false

-- What the code reads from a parsed `Url`.
pub record Url : Type 0 where
  pub scheme : Text
  pub username : Text
  pub password : Option Text
  pub host_str : Option Text
  pub port : Option ℕ
  pub port_or_known_default : Option ℕ
  pub path : Text
  pub query : Option Text
  pub fragment : Option Text

pub record ValidatedRemoteUrl : Type 0 where
  pub kind : TransportKind
  pub host : Text
  pub port : Option ℕ
  pub path : Text
  pub sanitized_display : Text
  pub execution_url : Text

abbrev pub invalid_remote : AppError
invalid_remote = invalid_input (codes "Git transport URL is invalid")

-- `contains` for a text
unfoldable pub has_text : Text → Text → Bool
unfolding starts_with
has_text needle [] = is_empty needle
has_text needle (c ∷ s) = starts_with needle (c ∷ s) || has_text needle s

-- `split_once(separator).map(|(before, _)| before)`
unfoldable pub text_before_text : Text → Text → Option Text
unfolding starts_with
text_before_text separator [] = if is_empty separator then some [] else none
text_before_text separator (c ∷ s) =
    let rest = text_before_text separator s in
    if starts_with separator (c ∷ s)
    then some []
    else elim rest [ none ↦ none | some t ↦ some (c ∷ t) ]

unfoldable pub is_helper_char : ℕ → Bool
unfolding is_ascii_alphanumeric
is_helper_char c = is_ascii_alphanumeric c || (c == b'+' || (c == b'-' || c == b'.'))

unfoldable pub is_helper_name : Text → Bool
unfolding is_helper_char is_ascii_alphabetic all
is_helper_name [] = false
is_helper_name (c ∷ s) = is_ascii_alphabetic c && all is_helper_char s

unfoldable pub is_remote_helper : Text → Bool
unfolding text_before_text is_helper_name
is_remote_helper value = elim (text_before_text (codes "::") value) [
  | none ↦ false
  | some helper ↦ is_helper_name helper
]

unfoldable pub safe_ssh_char : ℕ → Bool
unfolding is_ascii_alphanumeric
safe_ssh_char c = is_ascii_alphanumeric c || (c == b'.' || (c == b'_' || c == b'-'))

unfoldable pub safe_ssh_username : Text → Bool
unfolding safe_ssh_char byte_len all is_empty
safe_ssh_username value =
    not (is_empty value) && (leb (byte_len value) 256 && all safe_ssh_char value)

unfoldable pub is_bad_component : Text → Bool
unfolding is_empty text_eq codes any is_control
is_bad_component component =
    is_empty component
    || (text_eq component (codes ".")
        || (text_eq component (codes "..") || any is_control component))

unfoldable pub is_bad_path : Text → Bool
unfolding is_empty has_char has_text codes any split is_bad_component
is_bad_path value =
    let lowered = map to_ascii_lower value in
    is_empty value
    || (has_char b'\\' value
        || ((has_char b'?' value || has_char b'#' value)
            || (has_text (codes "%00") lowered
                || (has_text (codes "%2f") lowered
                    || (has_text (codes "%5c") lowered
                        || (has_text (codes "%2e") lowered
                            || any is_bad_component (split b'/' value)))))))

abbrev or_whole : Option Text → Text → Text
or_whole none value = value
or_whole (some t) value = t

-- `trim_matches('/')`, then `strip_suffix(".git").unwrap_or(value)`
unfoldable pub repository_path_of : Text → Text
unfolding trim_with strip_suffix codes
repository_path_of value =
    let trimmed = trim_with (λ c. c == b'/') value in
    or_whole (strip_suffix (codes ".git") trimmed) trimmed

unfoldable pub normalize_repository_path : Text → Result Text
unfolding repository_path_of is_bad_path
normalize_repository_path value =
    let path = repository_path_of value in if is_bad_path path then err invalid_remote else ok path

unfoldable pub canonical_port : Text → Option ℕ → Option ℕ
unfolding text_eq codes
canonical_port scheme none = none
canonical_port scheme (some n) =
    if (text_eq scheme (codes "https") && n == 443) || (text_eq scheme (codes "ssh") && n == 22)
    then none
    else some n

-- The decimal digits of a number below `10 ^ digits`.
unfoldable pub decimal : ℕ → ℕ → Text
decimal zero n = []
decimal (suc digits) n =
    let front = decimal digits (n / 10) in
    if ltb n 10 then (b'0' + n) ∷ [] else front ++ (b'0' + n % 10) ∷ []

-- A `u16` has at most five digits.
abbrev with_port : Text → Option ℕ → Text
with_port host none = host
with_port host (some port) = host ++ b':' ∷ decimal 5 port

unfoldable pub authority : Text → Option ℕ → Text
unfolding has_char decimal
authority host port =
    with_port (if has_char b':' host then b'[' ∷ (host ++ b']' ∷ []) else host) port

-- `filter(|value| !value.is_empty()).map(str::to_ascii_lowercase).ok_or_else(invalid_remote)`
unfoldable pub host_of : Option Text → Result Text
unfolding is_empty
host_of none = err invalid_remote
host_of (some value) = if is_empty value then err invalid_remote else ok (map to_ascii_lower value)

abbrev pub remote_url : TransportKind → Text → Option ℕ → Text → Text → ValidatedRemoteUrl
remote_url kind host port path url = record {
  kind = kind;
  host = host;
  port = port;
  path = path;
  sanitized_display = url;
  execution_url = url;
}

unfoldable pub https_url : Text → Text → Text
unfolding codes
https_url authority path = codes "https://" ++ (authority ++ b'/' ∷ (path ++ codes ".git"))

unfoldable pub ssh_url : Text → Text → Text → Text
unfolding codes
ssh_url username authority path =
    codes "ssh://" ++ (username ++ b'@' ∷ (authority ++ b'/' ∷ (path ++ codes ".git")))

unfoldable pub scp_url : Text → Text → Text → Text
unfolding codes
scp_url username host path = username ++ b'@' ∷ (host ++ b':' ∷ (path ++ codes ".git"))

-- The `match` on the scheme
unfoldable pub remote_of_scheme : Url → Text → Option ℕ → Text → Result ValidatedRemoteUrl
unfolding text_eq codes is_empty safe_ssh_username authority https_url ssh_url
remote_of_scheme parsed host port path =
    if text_eq parsed.scheme (codes "https")
      && (is_empty parsed.username
          && (is_none parsed.password && is_some parsed.port_or_known_default))
    then ok (remote_url https host port path (https_url (authority host port) path))
    else if text_eq parsed.scheme (codes "ssh")
        && (is_none parsed.password
            && (safe_ssh_username parsed.username && is_some parsed.port_or_known_default))
    then ok (remote_url ssh host port path (ssh_url parsed.username (authority host port) path))
    else err invalid_remote

unfoldable pub validate_parsed : Url → Result ValidatedRemoteUrl
unfolding host_of normalize_repository_path canonical_port remote_of_scheme
validate_parsed parsed =
    if is_some parsed.query || is_some parsed.fragment
    then err invalid_remote
    else and_then (host_of parsed.host_str) λ host.
      and_then (normalize_repository_path parsed.path)
        (remote_of_scheme parsed host (canonical_port parsed.scheme parsed.port))

unfoldable pub has_any : List ℕ → Text → Bool
unfolding any has_char
has_any chars value = any (λ c. has_char c value) chars

unfoldable pub starts_absolute : Text → Bool
starts_absolute [] = false
starts_absolute (c ∷ s) = c == b'/' || c == b'\\'

module _ (parse_url : Text → Option Url) where
  unfoldable pub validate_url : Text → Result ValidatedRemoteUrl
  unfolding validate_parsed
  validate_url input = and_then (ok_or (parse_url input) invalid_remote) validate_parsed

  -- `Url::parse(&format!("ssh://{raw_host}/"))` and its host
  unfoldable pub scp_host : Text → Result Text
  unfolding host_of codes
  scp_host raw_host =
      and_then (ok_or (parse_url (codes "ssh://" ++ (raw_host ++ b'/' ∷ []))) invalid_remote)
        λ parsed. host_of parsed.host_str

  unfoldable pub validate_scp_parts : Text → Text → Text → Result ValidatedRemoteUrl
  unfolding scp_host normalize_repository_path scp_url is_empty has_any starts_absolute
  validate_scp_parts username raw_host raw_path =
      if is_empty raw_host
        || (has_any (b'/' ∷ b'\\' ∷ b':' ∷ []) raw_host || starts_absolute raw_path)
      then err invalid_remote
      else and_then (scp_host raw_host) λ host.
        and_then (normalize_repository_path raw_path)
          λ path. ok (remote_url ssh host none path (scp_url username host path))

  unfoldable pub validate_scp_url : Text → Result ValidatedRemoteUrl
  unfolding split_once safe_ssh_username has_char validate_scp_parts
  validate_scp_url input = and_then (ok_or (split_once b'@' input) invalid_remote) λ at.
      if not (safe_ssh_username at.0) || has_char b'@' at.1
      then err invalid_remote
      else and_then (ok_or (split_once b':' at.1) invalid_remote)
          λ parts. validate_scp_parts at.0 parts.0 parts.1

  unfoldable pub validate_clone_url : Text → Result ValidatedRemoteUrl
  unfolding is_empty any is_control is_remote_helper has_text codes validate_url validate_scp_url
  validate_clone_url input =
      if is_empty input || (any is_control input || is_remote_helper input)
      then err invalid_remote
      else if has_text (codes "://") input
      then validate_url input
      else validate_scp_url input
