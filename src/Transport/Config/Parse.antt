-- ===== src/Transport/Config/Parse.antt =====
-- git/transport/config.rs and git/transport/model.rs: the snapshot of the managed settings, and the
-- parser of what `git config --null --get-regexp` prints.
use git_ramus.Base.Tests.{
  ℕ, suc, Bool, true, false, not, ◌&&◌, ◌||◌, Option, none, some, List, [], ◌∷◌, ◌++◌, ltb,
  if◌then◌else◌,
}
use git_ramus.Base.Lists.{length}
use git_ramus.Base.Text.{
  Text, codes, text_eq, is_empty, split, split_once, strip_prefix, strip_suffix,
}
use git_ramus.Base.Utf8.{from_utf8, byte_len}
use git_ramus.Base.Order.{sort, map_insert}
use git_ramus.Base.Table.{Table, lookup}
use git_ramus.Base.Error.{
  AppError, invalid_input, output_limit, user_action_required, Result, ok, err, and_then, ok_or,
}
use git_ramus.Git.Status.Records.{Bytes, ends_with_nul}
use git_ramus.Transport.Url.{Url, https, kind_eq, ValidatedRemoteUrl, validate_clone_url}

-- `TransportConfigSnapshot`: a `BTreeMap<String, Vec<String>>`
abbrev pub Snapshot : Type 0
Snapshot = Table (List Text)

-- `==` of snapshots
unfoldable pub values_eq : List Text → List Text → Bool
unfolding text_eq
values_eq [] [] = true
values_eq (v ∷ vs) (w ∷ ws) = text_eq v w && values_eq vs ws
values_eq _ _ = false

unfoldable pub snapshot_eq : Snapshot → Snapshot → Bool
unfolding text_eq values_eq
snapshot_eq [] [] = true
snapshot_eq ((j, v) ∷ m) ((k, w) ∷ n) = text_eq j k && (values_eq v w && snapshot_eq m n)
snapshot_eq _ _ = false

abbrev pub max_managed_config_entries : ℕ
max_managed_config_entries = 256

abbrev pub max_managed_config_key_bytes : ℕ
max_managed_config_key_bytes = 8192

abbrev pub max_managed_config_value_bytes : ℕ
max_managed_config_value_bytes = 65536

abbrev pub invalid_managed_key : AppError
invalid_managed_key = invalid_input (codes "invalid managed Git config key")

-- `map_err(|_| invalid_managed_key())`
abbrev as_managed_key : Result ValidatedRemoteUrl → Result ValidatedRemoteUrl
as_managed_key (ok r) = ok r
as_managed_key (err e) = err invalid_managed_key

-- `strip_prefix("credential.").and_then(|value| value.strip_suffix(".username"))`
abbrev strip_username : Option Text → Option Text
strip_username none = none
strip_username (some value) = strip_suffix (codes ".username") value

unfoldable pub username_key : Text → Text
unfolding codes
username_key url = codes "credential." ++ (url ++ codes ".username")

module _ (parse_url : Text → Option Url) where
  unfoldable pub credential_key : Text → Result Text
  unfolding validate_clone_url kind_eq text_eq username_key
  credential_key url = and_then (as_managed_key (validate_clone_url parse_url url)) λ remote.
      if not (kind_eq remote.kind https) || not (text_eq remote.execution_url url)
      then err invalid_managed_key
      else ok (username_key url)

  unfoldable pub canonical_managed_key : Text → Result Text
  unfolding byte_len text_eq codes strip_prefix strip_suffix credential_key
  canonical_managed_key key =
      if ltb max_managed_config_key_bytes (byte_len key)
      then err output_limit
      else if text_eq key (codes "core.sshCommand") || text_eq key (codes "core.sshcommand")
      then ok (codes "core.sshcommand")
      else if text_eq key (codes "ssh.variant")
      then ok (codes "ssh.variant")
      else if text_eq key (codes "credential.useHttpPath")
          || text_eq key (codes "credential.usehttppath")
      then ok (codes "credential.usehttppath")
      else and_then
          (ok_or (strip_username (strip_prefix (codes "credential.") key)) invalid_managed_key)
          credential_key

  abbrev pub unsupported_values : AppError
  unsupported_values =
      user_action_required
        (codes "managed Git configuration contains unsupported multiple or oversized values")

  -- `values.len() != 1 || values[0].len() > MAX_MANAGED_CONFIG_VALUE_BYTES`
  unfoldable pub is_unsupported : List Text → Bool
  unfolding byte_len
  is_unsupported (value ∷ []) = ltb max_managed_config_value_bytes (byte_len value)
  is_unsupported _ = true

  unfoldable pub ensure_restorable_entries : Snapshot → Result (Unit {0})
  unfolding canonical_managed_key is_unsupported
  ensure_restorable_entries [] = ok tt
  ensure_restorable_entries ((key, values) ∷ rest) =
      and_then (canonical_managed_key key) λ _.
        if is_unsupported values then err unsupported_values else ensure_restorable_entries rest

  unfoldable pub ensure_restorable_snapshot : Snapshot → Result (Unit {0})
  unfolding ensure_restorable_entries
  ensure_restorable_snapshot snapshot =
      if ltb max_managed_config_entries (length snapshot)
      then err output_limit
      else ensure_restorable_entries snapshot

  abbrev or_empty : Option (List Text) → List Text
  or_empty none = []
  or_empty (some values) = values

  -- `values.entry(key).or_default().push(value)`
  unfoldable pub push_value : Text → Text → Snapshot → Snapshot
  unfolding map_insert lookup
  push_value key value values = map_insert key (or_empty (lookup key values) ++ value ∷ []) values

  -- The checks of one decoded record, before it is counted.
  unfoldable pub check_record : Text → Text → Result (Unit {0})
  unfolding canonical_managed_key text_eq byte_len
  check_record key value = and_then (canonical_managed_key key) λ canonical.
      if not (text_eq canonical key)
      then err (invalid_input (codes "Git returned an unexpected managed config key"))
      else if ltb max_managed_config_value_bytes (byte_len value)
      then err output_limit
      else ok tt

  -- One record split at its first line feed, decoded and checked.
  unfoldable pub read_managed_record : Bytes → Result (Text × Text)
  unfolding split_once from_utf8 check_record
  read_managed_record bytes =
      and_then (ok_or (split_once 10 bytes) (invalid_input (codes "malformed Git config record")))
        λ at.
          and_then (ok_or (from_utf8 at.0) (invalid_input (codes "Git config key is not UTF-8")))
            λ key.
              and_then
                (ok_or (from_utf8 at.1) (invalid_input (codes "Git config value is not UTF-8")))
                λ value. and_then (check_record key value) λ _. ok (key, value)

  unfoldable pub managed_records : List Bytes → ℕ → Snapshot → Result Snapshot
  unfolding read_managed_record push_value
  managed_records [] entries values = ok values
  managed_records (bytes ∷ rest) entries values = and_then (read_managed_record bytes) λ at.
      if ltb max_managed_config_entries (suc entries)
      then err output_limit
      else managed_records rest (suc entries) (push_value at.0 at.1 values)

  unfoldable pub sort_values : Snapshot → Snapshot
  unfolding sort
  sort_values [] = []
  sort_values ((key, values) ∷ rest) = (key, sort values) ∷ sort_values rest

  -- `&input[..input.len() - 1]`
  unfoldable pub without_last : Bytes → Bytes
  unfolding is_empty
  without_last [] = []
  without_last (b ∷ bs) = if is_empty bs then [] else b ∷ without_last bs

  unfoldable pub parse_managed_config : Bytes → Result Snapshot
  unfolding is_empty ends_with_nul split managed_records sort_values without_last codes
  parse_managed_config input =
      if is_empty input
      then ok []
      else if not (ends_with_nul input)
      then err (invalid_input (codes "Git config stream is not NUL terminated"))
      else and_then (managed_records (split 0 (without_last input)) 0 [])
          λ values. ok (sort_values values)
