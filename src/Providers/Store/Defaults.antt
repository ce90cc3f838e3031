-- ===== src/Providers/Store/Defaults.antt =====
-- The default account of each instance, over all calls of `ProviderStore`.
use git_ramus.Base.Tests.{
  ℕ, ◌≡◌, refl, Bool, true, false, not, ◌&&◌, ◌||◌, Option, none, some, List, [], ◌∷◌, arith, ap,
  ◌∙◌, if-eq, ◌==◌, Bool-cases, Option-cases, inl, inr, is_some, is_none, not-false, if◌then◌else◌,
}
use mathlib.Core.Path.{subst}
use git_ramus.Base.Lists.{any}
use git_ramus.Base.Text.{Text, text_eq, text_eq_iff, is_empty}
use git_ramus.Base.Table.{Table, lookup, remove}
use git_ramus.Base.Keys.{Distinct, insert-Distinct, remove-Distinct}
use git_ramus.Base.Error.{Result, ok, err, and_then-eq-ok, ok_injective, unless-eq-ok}
use git_ramus.Providers.Store.{
  Instant, ProviderInstance, ProviderAccount, ProviderBinding, ProviderDb,
  AccountDeletionResolution, members, with_default, move_default, reset_defaults,
  sibling_account_ids, belongs, insert_account, update_account_secret, secret_of,
  set_default_account, replace_default, deletion, committed, delete_row, with_secret,
  resolve_bindings, is_of_account, delete_account_with_resolution, conflicts,
}
use git_ramus.Providers.Store.Calls.{
  Call, add_instance, change_instance, drop_instance, add_account, change_secret, choose_default,
  drop_account, bind, unbind_remote, enqueue, record_attempt, exec, run,
}
use git_ramus.Providers.Store.Instances.{insert_instance, update_instance, delete_instance}
use git_ramus.Providers.Store.Bindings.{upsert_binding, delete_binding}
use git_ramus.Providers.Store.Secrets.{enqueue_secret_cleanup, record_cleanup_attempt}
use git_ramus.Providers.Store.Siblings.{member_of, sibling_row}
use git_ramus.Providers.Store.Counting.{
  defaults, defaults-members, members-insert, defaults-insert, members-replace, defaults-replace,
  members-remove, defaults-remove, members-reset_defaults, defaults-reset_defaults,
  members-mark_default, defaults-mark_default, lookup-reset_defaults, reset_defaults-Distinct,
  mark_default-Distinct, lookup-mark_other, siblings_members,
}

-- No account stands twice, and an instance with accounts has exactly one default account.
pub record OneDefault (t : Table ProviderAccount) : Type 0 where
  pub distinct : Distinct t
  pub counted : (i : Text) → defaults i t ≡ (if members i t == 0 then 0 else 1)

fresh_row : (o : Option ProviderAccount) (c : Bool) → (is_some o || c) ≡ false → o ≡ none
fresh_row none c h = refl
fresh_row (some a) c h = cc

insert_account-OneDefault :
    (id : Text) (value : ProviderAccount) (db : ProviderDb)
    → OneDefault db.accounts
    → OneDefault (insert_account id value db).1.accounts
unfolding insert_account
insert_account-OneDefault id value db one =
    elim (Bool-cases (is_some (lookup id db.accounts) || conflicts id value db.accounts)) [
      | inl e ↦ rw e one
      | inr e ↦ rw e (elim (Bool-cases (is_none (lookup value.instance_id db.instances))) [
        | inl f ↦ rw f one
        | inr f ↦
            let fresh = fresh_row (lookup id db.accounts) (conflicts id value db.accounts) e in
            let row = with_default value (members value.instance_id db.accounts == 0) in
            rw f (record {
              distinct = insert-Distinct id row db.accounts one.distinct;
              counted = λ i. ground (
                arith,
                members-insert i id row db.accounts fresh,
                defaults-insert i id row db.accounts fresh,
                one.counted i,
                text_eq_iff value.instance_id i,
              );
            })
      ])
    ]

secret_of-OneDefault :
    (id secret_ref : Text) (at : ℕ) (found : Option ProviderAccount) (db : ProviderDb)
    → lookup id db.accounts ≡ found
    → OneDefault db.accounts
    → OneDefault (secret_of id secret_ref at found db).1.accounts
secret_of-OneDefault id secret_ref at none db h one = one
secret_of-OneDefault id secret_ref at (some a) db h one =
    elim (Bool-cases (conflicts id (with_secret a secret_ref at) db.accounts)) [
      | inl e ↦ rw e one
      | inr e ↦
          let row = with_secret a secret_ref at in
          rw e (record {
            distinct = insert-Distinct id row db.accounts one.distinct;
            counted = λ i.
                rw
                  (
                    members-replace i id row a db.accounts h refl,
                    defaults-replace i id row a db.accounts h refl refl,
                  )
                  (one.counted i);
          })
    ]

-- The two updates that move the default of an instance to one of its accounts.
move_default-OneDefault :
    (id i : Text) (a : ProviderAccount) (t : Table ProviderAccount)
    → lookup id t ≡ some a
    → text_eq a.instance_id i ≡ true
    → OneDefault t
    → OneDefault (move_default id i t)
move_default-OneDefault id i a t here inside one =
    let (b, there, same, cleared) = lookup-reset_defaults i id t here in
    let none_left : defaults i (reset_defaults i t) ≡ 0 =
      ground (arith, defaults-reset_defaults i i t, text_eq_iff i i) in
    let marked = λ (j : Text).
      defaults-mark_default id i j b (reset_defaults i t) (reset_defaults-Distinct i t one.distinct)
        there (ap (λ x. text_eq x i) same ∙ inside) none_left in
    let some_member = members-remove i id a t one.distinct here in
    record {
      distinct = mark_default-Distinct id i _ (reset_defaults-Distinct i t one.distinct);
      counted = λ j. ground (
        arith,
        marked j,
        defaults-reset_defaults i j t,
        members-mark_default id i j (reset_defaults i t),
        members-reset_defaults i j t,
        one.counted j,
        some_member,
        text_eq_iff i j,
      );
    }

set_default_account-OneDefault :
    (i id : Text) (db : ProviderDb)
    → OneDefault db.accounts
    → OneDefault (set_default_account i id db).1.accounts
unfolding set_default_account
set_default_account-OneDefault i id db one = elim (Bool-cases (belongs id i db.accounts)) [
  | inr e ↦ rw e one
  | inl e ↦
      let (a, here, inside) = member_of id i db.accounts e in
      rw e (move_default-OneDefault id i a db.accounts here inside one)
]

-- A row that is not a default one, or the last of its instance, can go.
remove-OneDefault :
    (id : Text) (a : ProviderAccount) (t : Table ProviderAccount)
    → lookup id t ≡ some a
    → (a.is_default && not (members a.instance_id (remove id t) == 0)) ≡ false
    → OneDefault t
    → OneDefault (remove id t)
remove-OneDefault id a t here safe one = record {
  distinct = remove-Distinct id t one.distinct;
  counted = λ i. ground (
    arith,
    members-remove i id a t one.distinct here,
    defaults-remove i id a t one.distinct here,
    defaults-members i (remove id t),
    one.counted i,
    text_eq_iff a.instance_id i,
  );
}

replace_default-OneDefault :
    (id : Text) (a : ProviderAccount) (new_default : Option Text) (t : Table ProviderAccount)
    {t' : Table ProviderAccount}
    → lookup id t ≡ some a
    → OneDefault t
    → replace_default a (sibling_account_ids a.instance_id id t) new_default t ≡ ok t'
    → OneDefault (remove id t')
unfolding replace_default
replace_default-OneDefault id a none t here one h =
    elim (if-eq (a.is_default && not (is_empty (sibling_account_ids a.instance_id id t))) _ _ h) [
      | inl e ↦ let wrong = e.1 in cc
      | inr e ↦
          subst (λ x. OneDefault (remove id x)) (ok_injective e.1)
            (remove-OneDefault id a t here (rw (← siblings_members a.instance_id id t) e.0) one)
    ]
replace_default-OneDefault id a (some n) t here one h =
    elim (if-eq (a.is_default && not (is_empty (sibling_account_ids a.instance_id id t))) _ _ h) [
      | inr e ↦ let wrong = e.1 in cc
      | inl e ↦
          elim (if-eq (not (any (text_eq n) (sibling_account_ids a.instance_id id t))) _ _ e.1) [
            | inl f ↦ let wrong = f.1 in cc
            | inr f ↦
                let (b, there, inside, other) =
                  sibling_row a.instance_id id n t one.distinct (not-false f.0) in
                let moved = move_default-OneDefault n a.instance_id b t there inside one in
                let (c, row, same, cleared) = lookup-reset_defaults a.instance_id id t here in
                let kept =
                  lookup-mark_other n a.instance_id id (reset_defaults a.instance_id t) other
                  ∙ row in
                subst (λ x. OneDefault (remove id x)) (ok_injective f.1)
                  (remove-OneDefault id c (move_default n a.instance_id t) kept
                    (ground (arith, cleared, text_eq_iff a.instance_id a.instance_id)) moved)
          ]
    ]

deletion-OneDefault :
    (id : Text) (at : Instant) (resolution : AccountDeletionResolution) (new_default : Option Text)
    (a : ProviderAccount) (db : ProviderDb) {after : ProviderDb}
    → lookup id db.accounts ≡ some a
    → OneDefault db.accounts
    → deletion id at resolution new_default a (sibling_account_ids a.instance_id id db.accounts) db
      ≡ ok after
    → OneDefault after.accounts
deletion-OneDefault id at resolution new_default a db here one h =
    let siblings = sibling_account_ids a.instance_id id db.accounts in
    let (bindings, resolved, h₁) =
      and_then-eq-ok (resolve_bindings id a siblings resolution at.nanos db.accounts db.bindings) _
        h in
    let (accounts, replaced, h₂) =
      and_then-eq-ok (replace_default a siblings new_default db.accounts) _ h₁ in
    let (free, last) = unless-eq-ok (any (is_of_account id) bindings) _ _ h₂ in
    subst (λ x. OneDefault x.accounts) (ok_injective last)
      (replace_default-OneDefault id a new_default db.accounts here one replaced)

committed-OneDefault :
    (db : ProviderDb) (r : Result ProviderDb)
    → OneDefault db.accounts
    → ((after : ProviderDb) → r ≡ ok after → OneDefault after.accounts)
    → OneDefault (committed db r).1.accounts
committed-OneDefault db (ok after) one step = step after refl
committed-OneDefault db (err e) one step = one

delete_row-OneDefault :
    (id : Text) (at : Instant) (resolution : AccountDeletionResolution) (new_default : Option Text)
    (found : Option ProviderAccount) (db : ProviderDb)
    → lookup id db.accounts ≡ found
    → OneDefault db.accounts
    → OneDefault (delete_row id at resolution new_default found db).1.accounts
delete_row-OneDefault id at resolution new_default none db h one = one
delete_row-OneDefault id at resolution new_default (some a) db h one =
    committed-OneDefault db
      (deletion id at resolution new_default a (sibling_account_ids a.instance_id id db.accounts)
        db)
      one (λ after e. deletion-OneDefault id at resolution new_default a db h one e)

upsert_accounts :
    (b : ProviderBinding) (db : ProviderDb) → (upsert_binding b db).1.accounts ≡ db.accounts
unfolding upsert_binding
upsert_accounts b db = ground arith

enqueue_accounts :
    (s : Text) (now : ℕ) (db : ProviderDb)
    → (enqueue_secret_cleanup s now db).1.accounts ≡ db.accounts
unfolding enqueue_secret_cleanup
enqueue_accounts s now db = ground arith

attempt_accounts :
    (s : Text) (succeeded : Bool) (code : Option Text) (now : ℕ) (db : ProviderDb)
    → (record_cleanup_attempt s succeeded code now db).1.accounts ≡ db.accounts
unfolding record_cleanup_attempt
attempt_accounts s succeeded code now db = elim (Option-cases (lookup s db.cleanup)) [
  | inl e ↦ rw e (ground arith)
  | inr e ↦ rw (e.1) (ground arith)
]

insert_instance_accounts :
    (id : Text) (value : ProviderInstance) (db : ProviderDb)
    → (insert_instance id value db).1.accounts ≡ db.accounts
unfolding insert_instance
insert_instance_accounts id value db = ground arith

update_instance_accounts :
    (id : Text) (value : ProviderInstance) (db : ProviderDb)
    → (update_instance id value db).1.accounts ≡ db.accounts
unfolding update_instance
update_instance_accounts id value db = elim (Option-cases (lookup id db.instances)) [
  | inl e ↦ rw e refl
  | inr e ↦ rw (e.1) (ground arith)
]

delete_instance_accounts :
    (id : Text) (db : ProviderDb) → (delete_instance id db).1.accounts ≡ db.accounts
unfolding delete_instance
delete_instance_accounts id db = ground arith

pub exec-OneDefault :
    (c : Call) (db : ProviderDb) → OneDefault db.accounts → OneDefault (exec c db).accounts
unfolding exec update_account_secret delete_account_with_resolution delete_binding
exec-OneDefault (add_instance id value) db one = rw (insert_instance_accounts id value db) one
exec-OneDefault (change_instance id value) db one = rw (update_instance_accounts id value db) one
exec-OneDefault (drop_instance id) db one = rw (delete_instance_accounts id db) one
exec-OneDefault (add_account id value) db one = insert_account-OneDefault id value db one
exec-OneDefault (change_secret id secret_ref at) db one =
    secret_of-OneDefault id secret_ref at (lookup id db.accounts) db refl one
exec-OneDefault (choose_default i id) db one = set_default_account-OneDefault i id db one
exec-OneDefault (drop_account id at resolution new_default) db one =
    delete_row-OneDefault id at resolution new_default (lookup id db.accounts) db refl one
exec-OneDefault (bind b) db one = rw (upsert_accounts b db) one
exec-OneDefault (unbind_remote repository_id remote_name) db one = one
exec-OneDefault (enqueue s now) db one = rw (enqueue_accounts s now db) one
exec-OneDefault (record_attempt s succeeded code now) db one =
    rw (attempt_accounts s succeeded code now db) one

-- After any calls of the store, of which some may fail, no account stands twice and every instance
-- that has an account has exactly one default account, if that held before.
pub run-OneDefault :
    (cs : List Call) (db : ProviderDb) → OneDefault db.accounts → OneDefault (run cs db).accounts
unfolding run
run-OneDefault [] db one = one
run-OneDefault (c ∷ cs) db one = run-OneDefault cs (exec c db) (exec-OneDefault c db one)
