-- ===== src/Transport/Clones/Intents/OneUse.antt =====
-- Any calls of the registry of Clone intents in git/transport/clone.rs, by any plugins in any order.
use git_ramus.Base.Tests.{
  ℕ, ◌≤◌, Bool, false, not, ◌&&◌, Option, none, some, List, [], ◌∷◌, arith, ltb, leb, Bool-cases,
  inl, inr,
}
use git_ramus.Base.Lists.{length}
use git_ramus.Base.Text.{Text, codes, text_eq}
use git_ramus.Base.Table.{Table, lookup, remove}
use git_ramus.Base.Keys.{
  Distinct, insert-Distinct, remove-Distinct, retain-Distinct, length-insert, length-retain,
  length-remove,
}
use git_ramus.Base.Error.{Result, ok, err}
use git_ramus.Providers.Model.{RemoteRepository}
use git_ramus.Transport.Url.{Url}
use git_ramus.Transport.Clones.Intents.{
  CloneIntentRecord, max_active_clone_intents, git_client_plugin_id, validate_intent_identity,
  purge_expired_intents, new_record, insert_intent, insert_checked, is_verified, insert_verified,
  get, get_for_creator, consume_found, consume, cancel, create_identified, create,
}

pub data Call : Type 0 where
  ask : Text → ℕ → Text → Text → Text → Call
  look : Text → ℕ → Call
  look_as redeem : Text → Text → ℕ → Call
  withdraw : Text → ℕ → Call

module _ (parse : Text → Option Url) (resolver : Text → Text → Result RemoteRepository) where
  -- The records after a call, whether it succeeds or fails.
  unfoldable pub exec : Call → Table CloneIntentRecord → Table CloneIntentRecord
  unfolding create get get_for_creator consume cancel
  exec (ask id now creator account repository_id) records =
      (create parse resolver id now creator account repository_id records).1
  exec (look id now) records = (get id now records).1
  exec (look_as id creator now) records = (get_for_creator id creator now records).1
  exec (redeem id consumer now) records = (consume id consumer now records).1
  exec (withdraw id now) records = (cancel id now records).1

  unfoldable pub run : List Call → Table CloneIntentRecord → Table CloneIntentRecord
  unfolding exec
  run [] records = records
  run (c ∷ cs) records = run cs (exec c records)

-- The calls that make an intent of this identifier.
unfoldable pub asks : Text → Call → Bool
unfolding text_eq
asks id (ask j now creator account repository_id) = text_eq j id
asks id _ = false

-- The calls before a time that neither make, redeem nor withdraw this intent.
unfoldable pub spares : Text → ℕ → Call → Bool
unfolding text_eq git_client_plugin_id
spares id expiry (ask j now creator account repository_id) = not (text_eq j id) && ltb now expiry
spares id expiry (look j now) = ltb now expiry
spares id expiry (look_as j creator now) = ltb now expiry
spares id expiry (redeem j consumer now) =
    not (text_eq j id && text_eq consumer git_client_plugin_id) && ltb now expiry
spares id expiry (withdraw j now) = not (text_eq j id) && ltb now expiry

-- What the registry holds at any time.
pub record IsSound (records : Table CloneIntentRecord) : Type 0 where
  pub distinct : Distinct records
  pub bounded : length records ≤ max_active_clone_intents

pub purge-IsSound :
    (now : ℕ) (records : Table CloneIntentRecord)
    → IsSound records
    → IsSound (purge_expired_intents now records)
unfolding purge_expired_intents
purge-IsSound now records sound = record {
  distinct = retain-Distinct _ records sound.distinct;
  bounded = omega (
    arith,
    length-retain (λ r. not r.consumed && ltb now r.intent.expires_at) records,
    sound.bounded,
  );
}

pub remove-IsSound :
    (id : Text) (records : Table CloneIntentRecord) → IsSound records → IsSound (remove id records)
remove-IsSound id records sound = record {
  distinct = remove-Distinct id records sound.distinct;
  bounded = omega (arith, length-remove id records, sound.bounded);
}

insert_intent-IsSound :
    (r : CloneIntentRecord) (records : Table CloneIntentRecord)
    → IsSound records
    → IsSound (insert_intent r records).1
insert_intent-IsSound r records sound =
    elim (Bool-cases (leb max_active_clone_intents (length records))) [
      | inl e ↦ rw e sound
      | inr e ↦ rw e (record {
        distinct = insert-Distinct r.intent.id r records sound.distinct;
        bounded = ground (arith, length-insert r.intent.id r records);
      })
    ]

insert_checked-IsSound :
    (checked : Result (Unit {0})) (now : ℕ) (r : CloneIntentRecord)
    (records : Table CloneIntentRecord)
    → IsSound records
    → IsSound (insert_checked checked now r records).1
insert_checked-IsSound (err e) now r records sound = sound
insert_checked-IsSound (ok u) now r records sound =
    insert_intent-IsSound r (purge_expired_intents now records) (purge-IsSound now records sound)

consume_found-IsSound :
    (id : Text) (found : Option CloneIntentRecord) (records : Table CloneIntentRecord)
    → IsSound records
    → IsSound (consume_found id found records).1
consume_found-IsSound id none records sound = sound
consume_found-IsSound id (some r) records sound = elim (Bool-cases r.consumed) [
  | inl e ↦ rw e sound
  | inr e ↦ rw e (remove-IsSound id records sound)
]

pub create-IsSound :
    (parse : Text → Option Url) (id : Text) (now : ℕ) (creator account repository_id : Text)
    (found : Result RemoteRepository) (named : Result (Unit {0}))
    (records : Table CloneIntentRecord)
    → IsSound records
    → IsSound (create_identified parse id now creator account repository_id found named records).1
unfolding insert_verified
create-IsSound parse id now creator account repository_id found (err e) records sound = sound
create-IsSound parse id now creator account repository_id (err e) (ok u) records sound = sound
create-IsSound parse id now creator account repository_id (ok r) (ok u) records sound =
    elim (Bool-cases (text_eq r.repository_id repository_id)) [
      | inr e ↦ rw e sound
      | inl e ↦ rw e (
          insert_checked-IsSound (is_verified parse creator account r) now
            (new_record id now creator account r) records sound)
    ]

consume-IsSound :
    (id consumer : Text) (now : ℕ) (records : Table CloneIntentRecord)
    → IsSound records
    → IsSound (consume id consumer now records).1
unfolding consume
consume-IsSound id consumer now records sound =
    let kept = purge_expired_intents now records in
    elim (Bool-cases (text_eq consumer git_client_plugin_id)) [
      | inr e ↦ rw e sound
      | inl e ↦
          rw e (consume_found-IsSound id (lookup id kept) kept (purge-IsSound now records sound))
    ]

module _ (parse : Text → Option Url) (resolver : Text → Text → Result RemoteRepository) where
  pub exec-IsSound :
      (c : Call) (records : Table CloneIntentRecord)
      → IsSound records
      → IsSound (exec parse resolver c records)
  unfolding exec create get get_for_creator cancel
  exec-IsSound (ask id now creator account repository_id) records sound =
      create-IsSound parse id now creator account repository_id (resolver account repository_id)
        (validate_intent_identity repository_id (codes "Provider repository")) records sound
  exec-IsSound (look id now) records sound = purge-IsSound now records sound
  exec-IsSound (look_as id creator now) records sound = purge-IsSound now records sound
  exec-IsSound (redeem id consumer now) records sound =
      consume-IsSound id consumer now records sound
  exec-IsSound (withdraw id now) records sound =
      remove-IsSound id (purge_expired_intents now records) (purge-IsSound now records sound)

  -- After any calls the registry holds at most 1024 intents, and no identifier twice.
  pub run-IsSound :
      (cs : List Call) (records : Table CloneIntentRecord)
      → IsSound records
      → IsSound (run parse resolver cs records)
  unfolding run
  run-IsSound [] records sound = sound
  run-IsSound (c ∷ cs) records sound =
      run-IsSound cs (exec parse resolver c records) (exec-IsSound c records sound)
