-- ===== src/Transport/Clones/Intents/Redemption.antt =====
-- An intent of the registry in git/transport/clone.rs is consumed once.
use git_ramus.Base.Tests.{
  ℕ, ◌+◌, ◌≡◌, refl, Bool, true, false, not, ◌&&◌, Option, none, some, List, [], ◌∷◌, arith, ap,
  sym, ◌∙◌, ltb, leb, Bool-cases, inl, inr, if-eq, not-false, and_iff,
}
use mathlib.Core.Path.{subst}
use git_ramus.Base.Lists.{length, any, all}
use git_ramus.Base.Text.{Text, codes, text_eq, text_eq_iff, text_eq_refl}
use git_ramus.Base.Table.{Table, lookup, remove, lookup-insert, lookup-remove, lookup-insert_self}
use git_ramus.Base.Keys.{Distinct, lookup-retain, filtered}
use git_ramus.Base.Error.{Result, ok, err, is_ok, ok_injective}
use git_ramus.Providers.Model.{RemoteRepository}
use git_ramus.Transport.Url.{Url}
use git_ramus.Transport.Clones.Intents.{
  CloneIntent, CloneIntentRecord, clone_intent_ttl, max_active_clone_intents, git_client_plugin_id,
  validate_intent_identity, purge_expired_intents, new_record, insert_intent, insert_checked,
  is_verified, insert_verified, get, get_for_creator, consumed_intent, consume_found, consume,
  cancel, create_identified, create,
}
use git_ramus.Transport.Clones.Intents.OneUse.{
  Call, ask, look, look_as, redeem, withdraw, exec, run, asks, spares, IsSound, exec-IsSound,
  run-IsSound, purge-IsSound, remove-IsSound, create-IsSound,
}

abbrev is_open_at : ℕ → CloneIntentRecord → Bool
is_open_at now r = not r.consumed && ltb now r.intent.expires_at

-- A purge keeps what it finds, or finds nothing, under an identifier.
lookup-purge :
    (id : Text) (now : ℕ) (o : Option CloneIntentRecord) (records : Table CloneIntentRecord)
    → Distinct records
    → filtered (is_open_at now) o ≡ o
    → lookup id records ≡ o
    → lookup id (purge_expired_intents now records) ≡ o
unfolding purge_expired_intents
lookup-purge id now o records d survives here =
    lookup-retain (is_open_at now) id records d ∙ ap (filtered (is_open_at now)) here ∙ survives

lookup-insert_intent :
    (id : Text) (r : CloneIntentRecord) (o : Option CloneIntentRecord)
    (records : Table CloneIntentRecord)
    → text_eq r.intent.id id ≡ false
    → lookup id records ≡ o
    → lookup id (insert_intent r records).1 ≡ o
lookup-insert_intent id r o records other here =
    elim (Bool-cases (leb max_active_clone_intents (length records))) [
      | inl e ↦ rw e here
      | inr e ↦ rw e (ground (arith, lookup-insert r.intent.id id r records))
    ]

lookup-insert_checked :
    (id : Text) (checked : Result (Unit {0})) (now : ℕ) (r : CloneIntentRecord)
    (o : Option CloneIntentRecord) (records : Table CloneIntentRecord)
    → Distinct records
    → text_eq r.intent.id id ≡ false
    → filtered (is_open_at now) o ≡ o
    → lookup id records ≡ o
    → lookup id (insert_checked checked now r records).1 ≡ o
lookup-insert_checked id (err e) now r o records d other survives here = here
lookup-insert_checked id (ok u) now r o records d other survives here =
    lookup-insert_intent id r o (purge_expired_intents now records) other
      (lookup-purge id now o records d survives here)

lookup-create :
    (parse : Text → Option Url) (id j : Text) (now : ℕ) (creator account repository_id : Text)
    (found : Result RemoteRepository) (named : Result (Unit {0})) (o : Option CloneIntentRecord)
    (records : Table CloneIntentRecord)
    → Distinct records
    → text_eq j id ≡ false
    → filtered (is_open_at now) o ≡ o
    → lookup id records ≡ o
    → lookup id (create_identified parse j now creator account repository_id found named records).1
      ≡ o
unfolding insert_verified
lookup-create parse id j now creator account repository_id found (err e) o records d other survives
      here =
    here
lookup-create parse id j now creator account repository_id (err e) (ok u) o records d other survives
      here =
    here
lookup-create parse id j now creator account repository_id (ok r) (ok u) o records d other survives
      here =
    elim (Bool-cases (text_eq r.repository_id repository_id)) [
      | inr e ↦ rw e here
      | inl e ↦ rw e (
          lookup-insert_checked id (is_verified parse creator account r) now
            (new_record j now creator account r) o records d other survives here)
    ]

lookup-consume_found :
    (id j : Text) (row o : Option CloneIntentRecord) (records : Table CloneIntentRecord)
    → text_eq j id ≡ false
    → lookup id records ≡ o
    → lookup id (consume_found j row records).1 ≡ o
lookup-consume_found id j none o records other here = here
lookup-consume_found id j (some r) o records other here = elim (Bool-cases r.consumed) [
  | inl e ↦ rw e here
  | inr e ↦ rw e (ground (arith, lookup-remove j id records))
]

consume_found-none :
    (id j : Text) (row : Option CloneIntentRecord) (records : Table CloneIntentRecord)
    → lookup id records ≡ none
    → lookup id (consume_found j row records).1 ≡ none
consume_found-none id j none records here = here
consume_found-none id j (some r) records here = elim (Bool-cases r.consumed) [
  | inl e ↦ rw e here
  | inr e ↦ rw e (ground (arith, lookup-remove j id records))
]

lookup-consume :
    (id j consumer : Text) (now : ℕ) (o : Option CloneIntentRecord)
    (records : Table CloneIntentRecord)
    → Distinct records
    → (text_eq consumer git_client_plugin_id ≡ true → text_eq j id ≡ false)
    → filtered (is_open_at now) o ≡ o
    → lookup id records ≡ o
    → lookup id (consume j consumer now records).1 ≡ o
unfolding consume
lookup-consume id j consumer now o records d other survives here =
    let kept = purge_expired_intents now records in
    elim (Bool-cases (text_eq consumer git_client_plugin_id)) [
      | inr e ↦ rw e here
      | inl e ↦ rw e (
          lookup-consume_found id j (lookup j kept) o kept (other e)
            (lookup-purge id now o records d survives here))
    ]

consume-none :
    (id j consumer : Text) (now : ℕ) (records : Table CloneIntentRecord)
    → Distinct records
    → lookup id records ≡ none
    → lookup id (consume j consumer now records).1 ≡ none
unfolding consume
consume-none id j consumer now records d here =
    let kept = purge_expired_intents now records in
    elim (Bool-cases (text_eq consumer git_client_plugin_id)) [
      | inr e ↦ rw e here
      | inl e ↦ rw e (
          consume_found-none id j (lookup j kept) kept
            (lookup-purge id now none records d refl here))
    ]

module _ (parse : Text → Option Url) (resolver : Text → Text → Result RemoteRepository)
    (id : Text) where
  exec-kept :
      (c : Call) (r : CloneIntentRecord) (records : Table CloneIntentRecord)
      → Distinct records
      → spares id r.intent.expires_at c ≡ true
      → r.consumed ≡ false
      → lookup id records ≡ some r
      → lookup id (exec parse resolver c records) ≡ some r
  unfolding exec create get get_for_creator consume cancel spares
  exec-kept (ask j now creator account repository_id) r records d spared fresh here =
      lookup-create parse id j now creator account repository_id (resolver account repository_id)
        (validate_intent_identity repository_id (codes "Provider repository")) (some r) records d
        (ground arith) (ground arith) here
  exec-kept (look j now) r records d spared fresh here =
      lookup-purge id now (some r) records d (ground arith) here
  exec-kept (look_as j creator now) r records d spared fresh here =
      lookup-purge id now (some r) records d (ground arith) here
  exec-kept (withdraw j now) r records d spared fresh here =
      let kept = lookup-purge id now (some r) records d (ground arith) here in
      ground (arith, lookup-remove j id (purge_expired_intents now records))
  exec-kept (redeem j consumer now) r records d spared fresh here =
      lookup-consume id j consumer now (some r) records d (λ client. ground (arith, client))
        (ground arith) here

  exec-gone :
      (c : Call) (records : Table CloneIntentRecord)
      → Distinct records
      → asks id c ≡ false
      → lookup id records ≡ none
      → lookup id (exec parse resolver c records) ≡ none
  unfolding exec create get get_for_creator consume cancel asks
  exec-gone (ask j now creator account repository_id) records d free here =
      lookup-create parse id j now creator account repository_id (resolver account repository_id)
        (validate_intent_identity repository_id (codes "Provider repository")) none records d free
        refl here
  exec-gone (look j now) records d free here = lookup-purge id now none records d refl here
  exec-gone (look_as j creator now) records d free here =
      lookup-purge id now none records d refl here
  exec-gone (withdraw j now) records d free here =
      let kept = lookup-purge id now none records d refl here in
      ground (arith, lookup-remove j id (purge_expired_intents now records))
  exec-gone (redeem j consumer now) records d free here =
      consume-none id j consumer now records d here

  run-kept :
      (cs : List Call) (r : CloneIntentRecord) (records : Table CloneIntentRecord)
      → IsSound records
      → all (spares id r.intent.expires_at) cs ≡ true
      → r.consumed ≡ false
      → lookup id records ≡ some r
      → lookup id (run parse resolver cs records) ≡ some r
  unfolding run all
  run-kept [] r records sound spared fresh here = here
  run-kept (c ∷ cs) r records sound spared fresh here =
      let (first, rest) = (and_iff _ _).0 spared in
      run-kept cs r (exec parse resolver c records) (exec-IsSound parse resolver c records sound)
        rest fresh (exec-kept c r records sound.distinct first fresh here)

  run-gone :
      (cs : List Call) (records : Table CloneIntentRecord)
      → IsSound records
      → any (asks id) cs ≡ false
      → lookup id records ≡ none
      → lookup id (run parse resolver cs records) ≡ none
  unfolding run any
  run-gone [] records sound free here = here
  run-gone (c ∷ cs) records sound free here =
      run-gone cs (exec parse resolver c records) (exec-IsSound parse resolver c records sound)
        (ground arith) (exec-gone c records sound.distinct (ground arith) here)

inserted :
    (r : CloneIntentRecord) (records : Table CloneIntentRecord) {intent : CloneIntent}
    {after : Table CloneIntentRecord}
    → insert_intent r records ≡ (ok intent, after)
    → (intent ≡ r.intent) × (lookup r.intent.id after ≡ some r)
inserted r records h = elim (if-eq (leb max_active_clone_intents (length records)) _ _ h) [
  | inl e ↦ let wrong = e.1 in cc
  | inr e ↦ (
    sym (ok_injective (ap (λ p. p.0) e.1)),
    ap (lookup r.intent.id) (sym (ap (λ p. p.1) e.1)) ∙ lookup-insert_self r.intent.id r records,
  )
]

insert_checked_stored :
    (checked : Result (Unit {0})) (now : ℕ) (r : CloneIntentRecord)
    (records : Table CloneIntentRecord) {intent : CloneIntent} {after : Table CloneIntentRecord}
    → insert_checked checked now r records ≡ (ok intent, after)
    → (intent ≡ r.intent) × (lookup r.intent.id after ≡ some r)
insert_checked_stored (err e) now r records h = cc
insert_checked_stored (ok u) now r records h = inserted r (purge_expired_intents now records) h

-- A created intent is for the repository that was asked for, and is stored.
record IsCreated (id : Text) (now : ℕ) (creator account repository_id : Text) (intent : CloneIntent)
    (after : Table CloneIntentRecord) : Type 0 where
  named : text_eq intent.repository.repository_id repository_id ≡ true
  stored : lookup id after ≡ some (new_record id now creator account intent.repository)

create-IsCreated :
    (parse : Text → Option Url) (id : Text) (now : ℕ) (creator account repository_id : Text)
    (found : Result RemoteRepository) (named : Result (Unit {0}))
    (records : Table CloneIntentRecord) {intent : CloneIntent} {after : Table CloneIntentRecord}
    → create_identified parse id now creator account repository_id found named records
      ≡ (ok intent, after)
    → IsCreated id now creator account repository_id intent after
unfolding insert_verified
create-IsCreated parse id now creator account repository_id found (err e) records h = cc
create-IsCreated parse id now creator account repository_id (err e) (ok u) records h = cc
create-IsCreated parse id now creator account repository_id (ok r) (ok u) records {after = after}
      h =
    elim (if-eq (not (text_eq r.repository_id repository_id)) _ _ h) [
      | inl e ↦ let wrong = e.1 in cc
      | inr e ↦
          let (same, there) =
            insert_checked_stored (is_verified parse creator account r) now
              (new_record id now creator account r) records e.1 in
          subst (λ i. IsCreated id now creator account repository_id i after) (sym same)
            (record { named = not-false e.0; stored = there })
    ]

-- The Git client redeems a stored intent before it expires.
redeemed :
    (id consumer : Text) (later : ℕ) (r : CloneIntentRecord) (records : Table CloneIntentRecord)
    → Distinct records
    → r.consumed ≡ false
    → ltb later r.intent.expires_at ≡ true
    → lookup id records ≡ some r
    → text_eq consumer git_client_plugin_id ≡ true
    → consume id consumer later records
      ≡ (ok (consumed_intent r), remove id (purge_expired_intents later records))
unfolding consume
redeemed id consumer later r records d fresh early here client =
    rw (client, lookup-purge id later (some r) records d (ground arith) here, fresh) refl

-- Nobody redeems an intent that is not stored.
refused :
    (id consumer : Text) (t : ℕ) (records : Table CloneIntentRecord)
    → Distinct records
    → lookup id records ≡ none
    → is_ok (consume id consumer t records).0 ≡ false
unfolding consume
refused id consumer t records d here = elim (Bool-cases (text_eq consumer git_client_plugin_id)) [
  | inr e ↦ rw e refl
  | inl e ↦ rw (e, lookup-purge id t none records d refl here) refl
]

module _ (parse : Text → Option Url) (resolver : Text → Text → Result RemoteRepository) where
  -- Whatever calls came before, an intent that a plugin has created can be redeemed by the Git client
  -- within ten minutes, after any calls in that time that do not make, redeem or withdraw it. It gives
  -- the creator, the account and the repository of the intent, which is the one that was asked for, and
  -- after it nobody redeems the intent again, unless an intent of the same identifier is created anew.
  pub intent_one_use :
      (before between after : List Call) (id : Text) (now : ℕ)
      (creator account repository_id : Text) (later : ℕ) (consumer : Text) (t : ℕ)
      {intent : CloneIntent} {records : Table CloneIntentRecord}
      → create parse resolver id now creator account repository_id (run parse resolver before [])
        ≡ (ok intent, records)
      → all (spares id (now + clone_intent_ttl)) between ≡ true
      → ltb later (now + clone_intent_ttl) ≡ true
      → any (asks id) after ≡ false
      → let redemption =
          consume id git_client_plugin_id later (run parse resolver between records) in
        (redemption.0
          ≡ ok (record {
            intent_id = id;
            creator_plugin_id = creator;
            account_id = account;
            repository = intent.repository;
          }))
        × (text_eq intent.repository.repository_id repository_id ≡ true)
        × (is_ok (consume id consumer t (run parse resolver after redemption.1)).0 ≡ false)
  unfolding create
  intent_one_use before between after id now creator account repository_id later consumer t
        {intent = intent} {records = records} h spared early free =
      let nothing : IsSound [] = record { distinct = tt; bounded = omega arith } in
      let start = run-IsSound parse resolver before [] nothing in
      let checked = validate_intent_identity repository_id (codes "Provider repository") in
      let found = resolver account repository_id in
      let created =
        create-IsCreated parse id now creator account repository_id found checked
          (run parse resolver before []) h in
      let sound : IsSound records =
        subst (λ p. IsSound p.1) h
          (create-IsSound parse id now creator account repository_id found checked
            (run parse resolver before []) start) in
      let r = new_record id now creator account intent.repository in
      let kept = run-kept parse resolver id between r records sound spared refl created.stored in
      let middle = run-IsSound parse resolver between records sound in
      let once =
        redeemed id git_client_plugin_id later r (run parse resolver between records)
          middle.distinct refl early kept (text_eq_refl git_client_plugin_id) in
      let left = remove id (purge_expired_intents later (run parse resolver between records)) in
      let clean : IsSound left =
        remove-IsSound id _ (purge-IsSound later (run parse resolver between records) middle) in
      let gone : lookup id left ≡ none = ground (
        arith,
        lookup-remove id id (purge_expired_intents later (run parse resolver between records)),
        text_eq_iff id id,
      ) in
      (
        ap (λ p. p.0) once,
        created.named,
        rw once (
            refused id consumer t (run parse resolver after left)
              (run-IsSound parse resolver after left clean).distinct
              (run-gone parse resolver id after left clean free gone)),
      )
