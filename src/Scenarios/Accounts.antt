-- ===== src/Scenarios/Accounts.antt =====
-- The accounts of providers/store.rs at work.
use git_ramus.Base.Tests.{◌+◌, ◌≡◌, refl, true, false, Option, none, some, List, [], ◌∷◌, ◌++◌}
use git_ramus.Base.Text.{Text, codes, text_eq}
use git_ramus.Base.Table.{lookup}
use git_ramus.Base.Error.{ok, is_ok}
use git_ramus.Plugins.Permissions.{Permission}
use git_ramus.Providers.Model.{gitlab}
use git_ramus.Providers.Store.{
  Instant, ProviderInstance, ProviderAccount, ProviderBinding, auto, ProviderDb, inherit, reassign,
  members, delete_account_with_resolution,
}
use git_ramus.Providers.Store.Bindings.{AccountDeletionImpact, account_deletion_impact}
use git_ramus.Providers.Store.Calls.{
  Call, add_instance, drop_instance, add_account, choose_default, drop_account, bind, run,
}
use git_ramus.Providers.Store.Counting.{defaults}
use git_ramus.Providers.Store.Defaults.{OneDefault, run-OneDefault}
use git_ramus.Providers.Store.Deletion.{IsDeleted, delete_account-IsDeleted}
use git_ramus.Providers.Store.Integrity.{HasKeys}
use git_ramus.Providers.Store.Integrity.Runs.{run-HasKeys}
use git_ramus.Providers.Store.Predicting.{accepts, run-delete_account-accepts}

opened : Unit {0}
unfolding run codes text_eq delete_account_with_resolution account_deletion_impact lookup members
    defaults git_ramus.Base.Order.text_before
opened = tt

abbrev cloud : Text
cloud = codes "cloud"

abbrev account_of : Text → ProviderAccount
account_of user = record {
  instance_id = cloud;
  provider_user_id = user;
  username = user;
  display_name = none;
  avatar_url = none;
  secret_ref = user;
  is_default = false;
  last_validated_at = 1;
  created_at = 1;
  updated_at = 1;
}

abbrev binding_to : Option Text → Text → ProviderBinding
binding_to account remote = record {
  repository_id = codes "r";
  remote_name = remote;
  provider_instance_id = cloud;
  provider_account_id = account;
  provider_repository_id = codes "7";
  full_name = codes "a/b";
  web_url = [];
  matched_url = [];
  binding_source = auto;
  bound_at = 1;
  updated_at = 1;
}

abbrev resource : Permission
resource = record {
  plugin_id = codes "p.q";
  capability = codes "provider.read";
  resource = codes "provider-account/a";
}

abbrev server : ProviderInstance
server = record {
  provider_kind = gitlab;
  display_name = codes "Work";
  base_url = codes "https://g";
  api_base_url = codes "https://g/api/v4";
  custom_ca_path = none;
  last_validated_at = none;
  server_version = none;
  created_at = 0;
  updated_at = 0;
}

abbrev empty_db : ProviderDb
empty_db = record {
  instances = (cloud, server) ∷ [];
  remotes = (codes "r", codes "origin") ∷ (codes "r", codes "fork") ∷ [];
  accounts = [];
  bindings = [];
  cleanup = [];
  grants = record { permission = resource; granted_at = []; revoked_at = none } ∷ [];
}

abbrev at_five : Instant
at_five = record { nanos = 5; rfc3339 = codes "5" }

-- Two accounts of one instance, with a binding to the first and one that inherits it.
abbrev life : List Call
life =
    add_account (codes "a") (account_of (codes "1"))
    ∷ add_account (codes "b") (account_of (codes "2"))
    ∷ bind (binding_to (some (codes "a")) (codes "origin"))
    ∷ bind (binding_to none (codes "fork"))
    ∷ []

nothing_stored : OneDefault empty_db.accounts
unfolding opened
nothing_stored = record { distinct = tt; counted = λ i. refl }

run-OneDefault_example :
    OneDefault
      (run
        (add_account (codes "a") (account_of (codes "1"))
          ∷ add_account (codes "b") (account_of (codes "2"))
          ∷ choose_default cloud (codes "b")
          ∷ drop_account (codes "b") at_five inherit (some (codes "a"))
          ∷ [])
        empty_db).accounts
run-OneDefault_example =
    run-OneDefault
      (add_account (codes "a") (account_of (codes "1"))
        ∷ add_account (codes "b") (account_of (codes "2"))
        ∷ choose_default cloud (codes "b")
        ∷ drop_account (codes "b") at_five inherit (some (codes "a"))
        ∷ [])
      empty_db nothing_stored

shown :
    (impact : AccountDeletionImpact) × (account_deletion_impact (codes "a") (run life empty_db)
      ≡ ok impact)
unfolding opened
shown = (_, refl)

both_counted : shown.0.explicit_binding_count + shown.0.inherited_binding_count ≡ 2
unfolding opened shown
both_counted = refl

deleted :
    (db : ProviderDb) × (delete_account_with_resolution
        (codes "a")
        at_five
        inherit
        (some (codes "b"))
        (run life empty_db)
      ≡ (ok tt, db))
unfolding opened
deleted = (_, refl)

named : text_eq resource.resource (codes "provider-account/" ++ codes "a") ≡ true
unfolding opened
named = refl

delete_account-IsDeleted_example : IsDeleted (codes "a") resource [] deleted.0
delete_account-IsDeleted_example =
    delete_account-IsDeleted (codes "a") at_five resource [] inherit (some (codes "b"))
      (run life empty_db) named deleted.1

keys_stored : HasKeys empty_db
unfolding opened
keys_stored = record { owned = refl; placed = refl; linked = refl }

-- The instance of the accounts is not deleted under them, and one without accounts is.
run-HasKeys_example : HasKeys (
    run
      (add_instance (codes "other") (record server { base_url = codes "https://o" })
        ∷ drop_instance cloud
        ∷ drop_instance (codes "other")
        ∷ life)
      empty_db)
run-HasKeys_example =
    run-HasKeys
      (add_instance (codes "other") (record server { base_url = codes "https://o" })
        ∷ drop_instance cloud
        ∷ drop_instance (codes "other")
        ∷ life)
      empty_db keys_stored

needs_default : accepts shown.0 (reassign (codes "b")) none ≡ false
unfolding opened shown accepts
needs_default = refl

fits : accepts shown.0 (reassign (codes "b")) (some (codes "b")) ≡ true
unfolding opened shown accepts
fits = refl

run-delete_account-accepts_example :
    is_ok
      (delete_account_with_resolution
        (codes "a")
        at_five
        (reassign (codes "b"))
        (some (codes "b"))
        (run life empty_db)).0
    ≡ accepts shown.0 (reassign (codes "b")) (some (codes "b"))
run-delete_account-accepts_example =
    run-delete_account-accepts life empty_db (codes "a") at_five (reassign (codes "b"))
      (some (codes "b")) nothing_stored keys_stored shown.1
