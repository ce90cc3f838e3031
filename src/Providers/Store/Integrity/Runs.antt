-- ===== src/Providers/Store/Integrity/Runs.antt =====
-- Every call of `ProviderStore` keeps the foreign keys of its tables.
use git_ramus.Base.Tests.{
  ℕ, ◌≡◌, refl, Bool, true, false, not, ◌||◌, Option, none, some, List, [], ◌∷◌, arith, ◌∙◌,
  Bool-cases, Option-cases, ◌==◌, inl, inr, is_some, is_none,
}
use git_ramus.Base.Lists.{any, all, all-filter, all-implied}
use git_ramus.Base.Text.{Text}
use git_ramus.Base.Table.{Table, lookup, insert}
use git_ramus.Base.Error.{Result, ok, err}
use git_ramus.Providers.Store.{
  Instant, ProviderInstance, ProviderAccount, ProviderBinding, ProviderDb,
  AccountDeletionResolution, with_instances, with_accounts, insert_account, conflicts, with_default,
  with_secret, members, secret_of, update_account_secret, set_default_account, belongs, is_linked,
  deletion, committed, delete_row, delete_account_with_resolution, sibling_account_ids,
  move_default,
}
use git_ramus.Providers.Store.Instances.{
  insert_instance, update_instance, replace_instance, delete_instance, instance_conflicts,
  updated_instance, has_account, is_of_instance,
}
use git_ramus.Providers.Store.Bindings.{upsert_binding, delete_binding, satisfies_keys, has_key}
use git_ramus.Providers.Store.Secrets.{enqueue_secret_cleanup, record_cleanup_attempt}
use git_ramus.Providers.Store.Linking.{
  is_owned, is_placed, is_linked_mono, belongs-insert_new, belongs-insert_same, put_instance-kept,
  drop_instance-owned, drop_instance-placed, insert-owned, all-put_binding,
}
use git_ramus.Providers.Store.Calls.{
  Call, add_instance, change_instance, drop_instance, add_account, change_secret, choose_default,
  drop_account, bind, unbind_remote, enqueue, record_attempt, exec, run,
}
use git_ramus.Providers.Store.Integrity.{HasKeys, deletion-HasKeys, move_default-IsSameShape}

present : {A : Type 0} (o : Option A) → is_none o ≡ false → is_some o ≡ true
present none h = cc
present (some a) h = refl

absent : {A : Type 0} (o : Option A) (c : Bool) → (is_some o || c) ≡ false → o ≡ none
absent none c h = refl
absent (some a) c h = cc

put-HasKeys :
    (id : Text) (value : ProviderInstance) (db : ProviderDb)
    → HasKeys db
    → HasKeys (with_instances db (insert id value db.instances))
put-HasKeys id value db keys =
    let (owned, placed) =
      put_instance-kept id value db.instances db.accounts db.bindings (keys.owned, keys.placed) in
    record { owned = owned; placed = placed; linked = keys.linked }

insert_instance-HasKeys :
    (id : Text) (value : ProviderInstance) (db : ProviderDb)
    → HasKeys db
    → HasKeys (insert_instance id value db).1
unfolding insert_instance
insert_instance-HasKeys id value db keys =
    elim (Bool-cases
      (is_some (lookup id db.instances) || instance_conflicts id value db.instances)) [
        | inl e ↦ rw e keys
        | inr e ↦ rw e (put-HasKeys id value db keys)
      ]

replace_instance-HasKeys :
    (id : Text) (value : ProviderInstance) (found : Option ProviderInstance) (db : ProviderDb)
    → HasKeys db
    → HasKeys (replace_instance id value found db).1
replace_instance-HasKeys id value none db keys = keys
replace_instance-HasKeys id value (some old) db keys =
    elim (Bool-cases (instance_conflicts id value db.instances)) [
      | inl e ↦ rw e keys
      | inr e ↦ rw e (put-HasKeys id (updated_instance old value) db keys)
    ]

delete_instance-HasKeys :
    (id : Text) (db : ProviderDb) → HasKeys db → HasKeys (delete_instance id db).1
unfolding delete_instance
delete_instance-HasKeys id db keys = elim (Bool-cases (is_none (lookup id db.instances))) [
  | inl e ↦ rw e keys
  | inr e ↦
      rw e (elim (Bool-cases (has_account id db.accounts || any (is_of_instance id) db.bindings)) [
        | inl f ↦ rw f keys
        | inr f ↦ rw f (record {
          owned = drop_instance-owned id db.instances db.accounts (ground (arith, f)) keys.owned;
          placed = drop_instance-placed id db.instances db.bindings (ground (arith, f)) keys.placed;
          linked = keys.linked;
        })
      ])
]

-- A change of an account that moves it to no other instance.
account-HasKeys :
    (id : Text) (a : ProviderAccount) (db : ProviderDb)
    → is_some (lookup a.instance_id db.instances) ≡ true
    → ((j i : Text) → belongs j i db.accounts ≡ true → belongs j i (insert id a db.accounts) ≡ true)
    → HasKeys db
    → HasKeys (with_accounts db (insert id a db.accounts))
account-HasKeys id a db here kept keys = record {
  owned = insert-owned db.instances id a db.accounts here keys.owned;
  placed = keys.placed;
  linked =
      all-implied _ _ db.bindings
        (λ b h. is_linked_mono db.accounts (insert id a db.accounts) b kept h) keys.linked;
}

insert_account-HasKeys :
    (id : Text) (value : ProviderAccount) (db : ProviderDb)
    → HasKeys db
    → HasKeys (insert_account id value db).1
unfolding insert_account
insert_account-HasKeys id value db keys =
    elim (Bool-cases (is_some (lookup id db.accounts) || conflicts id value db.accounts)) [
      | inl e ↦ rw e keys
      | inr e ↦ rw e (elim (Bool-cases (is_none (lookup value.instance_id db.instances))) [
        | inl f ↦ rw f keys
        | inr f ↦
            let row = with_default value (members value.instance_id db.accounts == 0) in
            rw f (
              account-HasKeys id row db (present (lookup value.instance_id db.instances) f)
                (λ j i h.
                  belongs-insert_new id row db.accounts j i
                    (absent (lookup id db.accounts) (conflicts id value db.accounts) e) h)
                keys)
      ])
    ]

owned_row :
    (instances : Table ProviderInstance) (id : Text) (a : ProviderAccount)
    (t : Table ProviderAccount)
    → lookup id t ≡ some a
    → all (is_owned instances) t ≡ true
    → is_some (lookup a.instance_id instances) ≡ true
unfolding lookup all is_owned
owned_row instances id a [] here h = cc
owned_row instances id a ((j, b) ∷ rest) here h = ground (arith, owned_row instances id a rest)

secret_of-HasKeys :
    (id secret_ref : Text) (at : ℕ) (found : Option ProviderAccount) (db : ProviderDb)
    → lookup id db.accounts ≡ found
    → HasKeys db
    → HasKeys (secret_of id secret_ref at found db).1
secret_of-HasKeys id secret_ref at none db here keys = keys
secret_of-HasKeys id secret_ref at (some a) db here keys =
    elim (Bool-cases (conflicts id (with_secret a secret_ref at) db.accounts)) [
      | inl e ↦ rw e keys
      | inr e ↦ rw e (
          account-HasKeys id (with_secret a secret_ref at) db
            (owned_row db.instances id a db.accounts here keys.owned)
            (λ j i h.
              belongs-insert_same id (with_secret a secret_ref at) a db.accounts j i here refl h)
            keys)
    ]

set_default_account-HasKeys :
    (i id : Text) (db : ProviderDb) → HasKeys db → HasKeys (set_default_account i id db).1
unfolding set_default_account
set_default_account-HasKeys i id db keys = elim (Bool-cases (belongs id i db.accounts)) [
  | inr e ↦ rw e keys
  | inl e ↦
      let shape = move_default-IsSameShape db.instances id i db.accounts in
      rw e (record {
        owned = shape.owned ∙ keys.owned;
        placed = keys.placed;
        linked =
            all-implied _ _ db.bindings
              (λ b h.
                is_linked_mono db.accounts (move_default id i db.accounts) b
                  (λ j k inside. shape.belonging j k ∙ inside) h)
              keys.linked;
      })
]

committed-HasKeys :
    (db : ProviderDb) (r : Result ProviderDb)
    → HasKeys db
    → ((after : ProviderDb) → r ≡ ok after → HasKeys after)
    → HasKeys (committed db r).1
committed-HasKeys db (ok after) keys step = step after refl
committed-HasKeys db (err e) keys step = keys

delete_row-HasKeys :
    (id : Text) (at : Instant) (resolution : AccountDeletionResolution) (new_default : Option Text)
    (found : Option ProviderAccount) (db : ProviderDb)
    → HasKeys db
    → HasKeys (delete_row id at resolution new_default found db).1
delete_row-HasKeys id at resolution new_default none db keys = keys
delete_row-HasKeys id at resolution new_default (some a) db keys =
    let siblings = sibling_account_ids a.instance_id id db.accounts in
    committed-HasKeys db (deletion id at resolution new_default a siblings db) keys
      λ after e. deletion-HasKeys id at resolution new_default a siblings db keys e

upsert_binding-HasKeys :
    (b : ProviderBinding) (db : ProviderDb) → HasKeys db → HasKeys (upsert_binding b db).1
unfolding upsert_binding
upsert_binding-HasKeys b db keys = elim (Bool-cases (satisfies_keys b db)) [
  | inr e ↦ rw e keys
  | inl e ↦ rw e (record {
    owned = keys.owned;
    placed =
        all-put_binding (is_placed db.instances) b db.bindings
          (unfold satisfies_keys is_placed in ground (arith, e)) keys.placed;
    linked =
        all-put_binding (is_linked db.accounts) b db.bindings
          (unfold satisfies_keys in ground (arith, e)) keys.linked;
  })
]

same-HasKeys :
    (db after : ProviderDb)
    → (after.instances ≡ db.instances)
      × (after.accounts ≡ db.accounts)
      × (after.bindings ≡ db.bindings)
    → HasKeys db
    → HasKeys after
same-HasKeys db after (instances, accounts, bindings) keys = record {
  owned = rw (instances, accounts) keys.owned;
  placed = rw (instances, bindings) keys.placed;
  linked = rw (accounts, bindings) keys.linked;
}

enqueue_kept :
    (s : Text) (now : ℕ) (db : ProviderDb)
    → let after = (enqueue_secret_cleanup s now db).1 in
      (after.instances ≡ db.instances)
      × (after.accounts ≡ db.accounts)
      × (after.bindings ≡ db.bindings)
unfolding enqueue_secret_cleanup
enqueue_kept s now db = (ground arith, ground arith, ground arith)

attempt_kept :
    (s : Text) (succeeded : Bool) (code : Option Text) (now : ℕ) (db : ProviderDb)
    → let after = (record_cleanup_attempt s succeeded code now db).1 in
      (after.instances ≡ db.instances)
      × (after.accounts ≡ db.accounts)
      × (after.bindings ≡ db.bindings)
unfolding record_cleanup_attempt
attempt_kept s succeeded code now db = elim (Option-cases (lookup s db.cleanup)) [
  | inl e ↦ rw e (ground arith, ground arith, ground arith)
  | inr e ↦ rw (e.1) (ground arith, ground arith, ground arith)
]

exec-HasKeys : (c : Call) (db : ProviderDb) → HasKeys db → HasKeys (exec c db)
unfolding exec update_instance update_account_secret delete_account_with_resolution delete_binding
exec-HasKeys (add_instance id value) db keys = insert_instance-HasKeys id value db keys
exec-HasKeys (change_instance id value) db keys =
    replace_instance-HasKeys id value (lookup id db.instances) db keys
exec-HasKeys (drop_instance id) db keys = delete_instance-HasKeys id db keys
exec-HasKeys (add_account id value) db keys = insert_account-HasKeys id value db keys
exec-HasKeys (change_secret id secret_ref at) db keys =
    secret_of-HasKeys id secret_ref at (lookup id db.accounts) db refl keys
exec-HasKeys (choose_default i id) db keys = set_default_account-HasKeys i id db keys
exec-HasKeys (drop_account id at resolution new_default) db keys =
    delete_row-HasKeys id at resolution new_default (lookup id db.accounts) db keys
exec-HasKeys (bind b) db keys = upsert_binding-HasKeys b db keys
exec-HasKeys (unbind_remote repository_id remote_name) db keys =
    let kept = λ (p : ProviderBinding → Bool).
      all-filter p (λ b. not (has_key repository_id remote_name b)) db.bindings in
    record {
      owned = keys.owned;
      placed = kept (is_placed db.instances) keys.placed;
      linked = kept (is_linked db.accounts) keys.linked;
    }
exec-HasKeys (enqueue s now) db keys =
    same-HasKeys db (enqueue_secret_cleanup s now db).1 (enqueue_kept s now db) keys
exec-HasKeys (record_attempt s succeeded code now) db keys =
    same-HasKeys db (record_cleanup_attempt s succeeded code now db).1
      (attempt_kept s succeeded code now db) keys

-- Over any calls of the store, of which some may fail, every account stays one of a stored instance,
-- and every binding one of a stored instance and, where it names an account, of a stored account of
-- that instance.
pub run-HasKeys : (cs : List Call) (db : ProviderDb) → HasKeys db → HasKeys (run cs db)
unfolding run
run-HasKeys [] db keys = keys
run-HasKeys (c ∷ cs) db keys = run-HasKeys cs (exec c db) (exec-HasKeys c db keys)
