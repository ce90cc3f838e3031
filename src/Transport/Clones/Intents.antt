-- ===== src/Transport/Clones/Intents.antt =====
-- git/transport/clone.rs, `CloneIntentRegistry` and `CloneIntentBroker`: the permissions to clone a
-- repository of a Provider, which a plugin creates and the Git client consumes. The mutex makes each
-- method one step; `now` stands for the clock, in nanoseconds, `id` for the fresh UUID, `parse` for
-- `Url::parse`. What a resolver of the Provider answers is an argument.
pub mod OneUse
pub mod Redemption
use git_ramus.Base.Tests.{
  ℕ, ◌+◌, ◌*◌, Bool, true, false, not, ◌&&◌, ◌||◌, Option, none, some, List, [], ◌∷◌, ◌++◌, ltb,
  leb, is_some, if◌then◌else◌,
}
use git_ramus.Base.Lists.{length, any}
use git_ramus.Base.Text.{Text, codes, text_eq, is_empty, is_control, is_whitespace, trim_with}
use git_ramus.Base.Utf8.{byte_len}
use git_ramus.Base.Table.{Table, lookup, insert, remove, retain}
use git_ramus.Base.Error.{
  AppError, invalid_input, not_found, permission_denied, invalid_response, Result, ok, err,
  and_then, M,
}
use git_ramus.Providers.Model.{RemoteRepository}
use git_ramus.Transport.Url.{Url, TransportKind, ssh, https, kind_eq, validate_clone_url}

pub record CloneIntent : Type 0 where
  pub id : Text
  pub repository : RemoteRepository
  pub available_transports : List TransportKind
  pub created_at : ℕ
  pub expires_at : ℕ

pub record CloneIntentRecord : Type 0 where
  pub intent : CloneIntent
  pub creator_plugin_id : Text
  pub account_id : Text
  pub consumed : Bool

pub record ConsumedCloneIntent : Type 0 where
  pub intent_id : Text
  pub creator_plugin_id : Text
  pub account_id : Text
  pub repository : RemoteRepository

-- Ten minutes
abbrev pub clone_intent_ttl : ℕ
clone_intent_ttl = 600000000000

abbrev pub max_active_clone_intents : ℕ
max_active_clone_intents = 1024

unfoldable pub git_client_plugin_id : Text
unfolding codes
git_client_plugin_id = codes "git-ramus.git-client"

-- `value.trim().is_empty() || value.len() > 256 || value.chars().any(char::is_control)`
unfoldable pub is_bad_identity : Text → Bool
unfolding is_empty trim_with is_whitespace byte_len any is_control
is_bad_identity value =
    is_empty (trim_with is_whitespace value) || (ltb 256 (byte_len value) || any is_control value)

unfoldable pub validate_intent_identity : Text → Text → Result (Unit {0})
unfolding is_bad_identity codes
validate_intent_identity value label =
    if is_bad_identity value then err (invalid_input (label ++ codes " is invalid")) else ok tt

-- The repository of an intent can be cloned over both transports.
unfoldable pub validate_repository : (Text → Option Url) → RemoteRepository → Result (Unit {0})
unfolding validate_clone_url kind_eq is_bad_identity codes
validate_repository parse repository =
    and_then (validate_clone_url parse repository.https_url) λ over_https.
      and_then (validate_clone_url parse repository.ssh_url) λ over_ssh.
        if not (kind_eq over_https.kind https) || not (kind_eq over_ssh.kind ssh)
        then err (invalid_input (codes "Provider repository transports are invalid"))
        else if is_bad_identity repository.repository_id
        then err (invalid_input (codes "Provider repository id is invalid"))
        else ok tt

unfoldable pub purge_expired_intents : ℕ → Table CloneIntentRecord → Table CloneIntentRecord
unfolding retain
purge_expired_intents now records =
    retain (λ r. not r.consumed && ltb now r.intent.expires_at) records

abbrev pub new_intent : Text → ℕ → RemoteRepository → CloneIntent
new_intent id now repository = record {
  id = id;
  repository = repository;
  available_transports = https ∷ ssh ∷ [];
  created_at = now;
  expires_at = now + clone_intent_ttl;
}

abbrev pub new_record : Text → ℕ → Text → Text → RemoteRepository → CloneIntentRecord
new_record id now creator_plugin_id account_id repository = record {
  intent = new_intent id now repository;
  creator_plugin_id = creator_plugin_id;
  account_id = account_id;
  consumed = false;
}

-- The part of `insert_verified` under the lock
abbrev pub insert_intent : CloneIntentRecord → M (Table CloneIntentRecord) CloneIntent
insert_intent r kept =
    if leb max_active_clone_intents (length kept)
    then (err (invalid_input (codes "Too many active Clone intents")), kept)
    else (ok r.intent, insert r.intent.id r kept)

abbrev pub insert_checked :
    Result (Unit {0}) → ℕ → CloneIntentRecord → M (Table CloneIntentRecord) CloneIntent
insert_checked (err e) now r records = (err e, records)
insert_checked (ok _) now r records = insert_intent r (purge_expired_intents now records)

abbrev pub is_verified : (Text → Option Url) → Text → Text → RemoteRepository → Result (Unit {0})
is_verified parse creator_plugin_id account_id repository =
    and_then (validate_intent_identity creator_plugin_id (codes "Clone intent creator")) λ _.
      and_then (validate_intent_identity account_id (codes "Provider account"))
        λ _. validate_repository parse repository

unfoldable pub insert_verified :
    (Text → Option Url)
    → Text
    → ℕ
    → Text
    → Text
    → RemoteRepository
    → M (Table CloneIntentRecord) CloneIntent
unfolding validate_intent_identity validate_repository purge_expired_intents insert codes
insert_verified parse id now creator_plugin_id account_id repository records =
    insert_checked (is_verified parse creator_plugin_id account_id repository) now
      (new_record id now creator_plugin_id account_id repository) records

abbrev missing_intent : Text → AppError
missing_intent id = not_found (codes "Clone intent " ++ id)

-- `get(..).filter(|record| !record.consumed)`
abbrev open_record : Option CloneIntentRecord → Option CloneIntentRecord
open_record none = none
open_record (some r) = if r.consumed then none else some r

abbrev intent_of : Text → Option CloneIntentRecord → Result CloneIntent
intent_of id none = err (missing_intent id)
intent_of id (some r) = ok r.intent

unfoldable pub get : Text → ℕ → M (Table CloneIntentRecord) CloneIntent
unfolding purge_expired_intents lookup codes
get intent_id now records =
    let kept = purge_expired_intents now records in
    (intent_of intent_id (open_record (lookup intent_id kept)), kept)

abbrev created_by : Text → Text → Option CloneIntentRecord → Result CloneIntent
created_by id creator_plugin_id none = err (missing_intent id)
created_by id creator_plugin_id (some r) =
    if text_eq r.creator_plugin_id creator_plugin_id then ok r.intent else err permission_denied

unfoldable pub get_for_creator : Text → Text → ℕ → M (Table CloneIntentRecord) CloneIntent
unfolding purge_expired_intents lookup text_eq codes
get_for_creator intent_id creator_plugin_id now records =
    let kept = purge_expired_intents now records in
    (created_by intent_id creator_plugin_id (open_record (lookup intent_id kept)), kept)

abbrev pub consumed_intent : CloneIntentRecord → ConsumedCloneIntent
consumed_intent r = record {
  intent_id = r.intent.id;
  creator_plugin_id = r.creator_plugin_id;
  account_id = r.account_id;
  repository = r.intent.repository;
}

abbrev pub consume_found :
    Text → Option CloneIntentRecord → M (Table CloneIntentRecord) ConsumedCloneIntent
consume_found id none kept = (err (missing_intent id), kept)
consume_found id (some r) kept =
    if r.consumed
    then (err (invalid_input (codes "Clone intent was already consumed")), kept)
    else (ok (consumed_intent r), remove id kept)

unfoldable pub consume : Text → Text → ℕ → M (Table CloneIntentRecord) ConsumedCloneIntent
unfolding text_eq git_client_plugin_id purge_expired_intents lookup remove codes
consume intent_id consumer_plugin_id now records =
    if not (text_eq consumer_plugin_id git_client_plugin_id)
    then (err permission_denied, records)
    else let kept = purge_expired_intents now records in
      consume_found intent_id (lookup intent_id kept) kept

unfoldable pub cancel : Text → ℕ → Table CloneIntentRecord → Bool × Table CloneIntentRecord
unfolding purge_expired_intents lookup remove
cancel intent_id now records =
    let kept = purge_expired_intents now records in
    (is_some (lookup intent_id kept), remove intent_id kept)

-- `CloneIntentBroker::create`
abbrev pub create_resolved :
    (Text → Option Url)
    → Text
    → ℕ
    → Text
    → Text
    → Text
    → Result RemoteRepository
    → M (Table CloneIntentRecord) CloneIntent
create_resolved parse id now creator account repository_id (err e) records = (err e, records)
create_resolved parse id now creator account repository_id (ok repository) records =
    if not (text_eq repository.repository_id repository_id)
    then (err invalid_response, records)
    else insert_verified parse id now creator account repository records

abbrev pub create_identified :
    (Text → Option Url)
    → Text
    → ℕ
    → Text
    → Text
    → Text
    → Result RemoteRepository
    → Result (Unit {0})
    → M (Table CloneIntentRecord) CloneIntent
create_identified parse id now creator account repository_id found (err e) records =
    (err e, records)
create_identified parse id now creator account repository_id found (ok _) records =
    create_resolved parse id now creator account repository_id found records

unfoldable pub create :
    (Text → Option Url)
    → (Text → Text → Result RemoteRepository)
    → Text
    → ℕ
    → Text
    → Text
    → Text
    → M (Table CloneIntentRecord) CloneIntent
unfolding validate_intent_identity insert_verified text_eq codes
create parse resolver id now creator_plugin_id account_id repository_id records =
    create_identified parse id now creator_plugin_id account_id repository_id
      (resolver account_id repository_id)
      (validate_intent_identity repository_id (codes "Provider repository")) records
