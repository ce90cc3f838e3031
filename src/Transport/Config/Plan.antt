-- ===== src/Transport/Config/Plan.antt =====
-- git/transport/config.rs and git/transport/model.rs: a Transport profile, and the settings that it
-- wants in a repository.
use git_ramus.Base.Tests.{
  ℕ, Bool, false, not, ◌||◌, Option, none, some, [], ◌∷◌, ◌++◌, ◌==◌, is_some, if◌then◌else◌,
}
use git_ramus.Base.Lists.{any}
use git_ramus.Base.Text.{
  Text, codes, option_text_eq, is_empty, is_control, is_whitespace, trim_with,
}
use git_ramus.Base.Order.{map_insert}
use git_ramus.Base.Table.{Table, lookup}
use git_ramus.Base.Error.{AppError, invalid_input, Result, ok, err, and_then, ok_or}
use git_ramus.Transport.Url.{TransportKind, ssh, https, Url, ValidatedRemoteUrl, kind_eq}
use git_ramus.Transport.Config.Parse.{Snapshot, canonical_managed_key, username_key}

-- A `DateTime<Utc>` is a number of nanoseconds.
pub record TransportProfile : Type 0 where
  pub id : Text
  pub display_name : Text
  pub kind : TransportKind
  pub ssh_key_path : Option Text
  pub ssh_variant : Option Text
  pub ssh_identities_only : Option Bool
  pub https_username : Option Text
  pub https_use_http_path : Option Bool
  pub created_at : ℕ
  pub updated_at : ℕ

pub record ManagedConfigPlan : Type 0 where
  pub kind : TransportKind
  pub values : Table Text

abbrev pub invalid_profile : AppError
invalid_profile = invalid_input (codes "Git transport profile is invalid")

-- `replace('\'', "'\\''")`
unfoldable pub replace_quotes : Text → Text
replace_quotes [] = []
replace_quotes (c ∷ s) =
    let rest = replace_quotes s in
    if c == b'\'' then b'\'' ∷ b'\\' ∷ b'\'' ∷ b'\'' ∷ rest else c ∷ rest

unfoldable pub shell_quote : Text → Result Text
unfolding is_empty any is_control replace_quotes
shell_quote value =
    if is_empty value || any is_control value
    then err invalid_profile
    else ok (b'\'' ∷ (replace_quotes value ++ b'\'' ∷ []))

-- `filter(|value| !value.is_empty() && !value.chars().any(char::is_control)).ok_or_else(..)`
unfoldable pub plain_text : Option Text → Result Text
unfolding is_empty any is_control
plain_text none = err invalid_profile
plain_text (some value) =
    if is_empty value || any is_control value then err invalid_profile else ok value

unfoldable pub trimmed : Option Text → Option Text
unfolding trim_with is_whitespace
trimmed none = none
trimmed (some value) = some (trim_with is_whitespace value)

unfoldable pub ssh_command : Text → Bool → Text
unfolding codes
ssh_command quoted identities_only =
    codes "ssh -i " ++ (quoted ++ (if identities_only then codes " -o IdentitiesOnly=yes" else []))

abbrev pub is_true : Option Bool → Bool
is_true none = false
is_true (some b) = b

unfoldable pub ssh_plan : Text → ManagedConfigPlan
unfolding codes map_insert
ssh_plan command = record {
  kind = ssh;
  values =
      map_insert (codes "core.sshCommand") command
        (map_insert (codes "ssh.variant") (codes "ssh") []);
}

unfoldable pub https_plan : Text → Text → ManagedConfigPlan
unfolding codes map_insert username_key
https_plan url username = record {
  kind = https;
  values =
      map_insert (username_key url) username
        (map_insert (codes "credential.useHttpPath") (codes "true") []);
}

unfoldable pub https_config_plan : TransportProfile → ValidatedRemoteUrl → Result ManagedConfigPlan
unfolding plain_text trimmed https_plan
https_config_plan profile remote =
    and_then (plain_text (trimmed profile.https_username)) λ username.
      if not (is_true profile.https_use_http_path)
        || (is_some profile.ssh_key_path
            || (is_some profile.ssh_variant || is_some profile.ssh_identities_only))
      then err invalid_profile
      else ok (https_plan remote.execution_url username)

-- The plan is a map that has every key once already: only the canonical spellings can collide.
abbrev insert_new : Text → Text → Snapshot → (Snapshot → Result Snapshot) → Result Snapshot
insert_new key value values next =
    if is_some (lookup key values)
    then err invalid_profile
    else next (map_insert key (value ∷ []) values)

module _ (is_absolute is_file : Text → Bool) where
  unfoldable pub ssh_config_plan : TransportProfile → Result ManagedConfigPlan
  unfolding plain_text option_text_eq codes shell_quote ssh_command ssh_plan
  ssh_config_plan profile = and_then (plain_text profile.ssh_key_path) λ key_path.
      if not (is_absolute key_path)
        || (not (is_file key_path) || not (option_text_eq profile.ssh_variant (some (codes "ssh"))))
      then err invalid_profile
      else and_then (ok_or profile.ssh_identities_only invalid_profile) λ identities_only.
        if is_some profile.https_username || is_some profile.https_use_http_path
        then err invalid_profile
        else and_then (shell_quote key_path)
            λ quoted. ok (ssh_plan (ssh_command quoted identities_only))

  -- The `match` on the kind
  unfoldable pub plan_of_kind :
      TransportKind → TransportProfile → ValidatedRemoteUrl → Result ManagedConfigPlan
  unfolding ssh_config_plan https_config_plan
  plan_of_kind ssh profile remote = ssh_config_plan profile
  plan_of_kind https profile remote = https_config_plan profile remote

  unfoldable pub config_plan : TransportProfile → ValidatedRemoteUrl → Result ManagedConfigPlan
  unfolding kind_eq plan_of_kind
  config_plan profile remote =
      if not (kind_eq profile.kind remote.kind)
      then err invalid_profile
      else plan_of_kind profile.kind profile remote

module _ (parse_url : Text → Option Url) where
  unfoldable pub plan_values : Table Text → Snapshot → Result Snapshot
  unfolding canonical_managed_key lookup map_insert
  plan_values [] values = ok values
  plan_values ((key, value) ∷ rest) values =
      and_then (canonical_managed_key parse_url key)
        λ canonical. insert_new canonical value values (plan_values rest)

  unfoldable pub plan_snapshot : ManagedConfigPlan → Result Snapshot
  unfolding plan_values
  plan_snapshot plan = plan_values plan.values []
