-- ===== src/Providers/Store/Calls.antt =====
-- The methods of `ProviderStore` that change state, as calls that any callers make in any order.
use git_ramus.Base.Tests.{ℕ, Bool, Option, List, [], ◌∷◌}
use git_ramus.Base.Text.{Text}
use git_ramus.Providers.Store.{
  Instant, ProviderInstance, ProviderAccount, ProviderBinding, ProviderDb,
  AccountDeletionResolution, insert_account, update_account_secret, set_default_account,
  delete_account_with_resolution,
}
use git_ramus.Providers.Store.Instances.{insert_instance, update_instance, delete_instance}
use git_ramus.Providers.Store.Bindings.{upsert_binding, delete_binding}
use git_ramus.Providers.Store.Secrets.{enqueue_secret_cleanup, record_cleanup_attempt}

pub data Call : Type 0 where
  add_instance change_instance : Text → ProviderInstance → Call
  drop_instance : Text → Call
  add_account : Text → ProviderAccount → Call
  change_secret : Text → Text → ℕ → Call
  choose_default : Text → Text → Call
  drop_account : Text → Instant → AccountDeletionResolution → Option Text → Call
  bind : ProviderBinding → Call
  unbind_remote : Text → Text → Call
  enqueue : Text → ℕ → Call
  record_attempt : Text → Bool → Option Text → ℕ → Call

-- The state after a call, whether it succeeds or fails.
unfoldable pub exec : Call → ProviderDb → ProviderDb
unfolding insert_instance update_instance delete_instance insert_account update_account_secret
    set_default_account delete_account_with_resolution upsert_binding delete_binding
    enqueue_secret_cleanup record_cleanup_attempt
exec (add_instance id value) db = (insert_instance id value db).1
exec (change_instance id value) db = (update_instance id value db).1
exec (drop_instance id) db = (delete_instance id db).1
exec (add_account id value) db = (insert_account id value db).1
exec (change_secret id secret_ref at) db = (update_account_secret id secret_ref at db).1
exec (choose_default instance_id id) db = (set_default_account instance_id id db).1
exec (drop_account id at resolution new_default) db =
    (delete_account_with_resolution id at resolution new_default db).1
exec (bind value) db = (upsert_binding value db).1
exec (unbind_remote repository_id remote_name) db = (delete_binding repository_id remote_name db).1
exec (enqueue secret_ref now) db = (enqueue_secret_cleanup secret_ref now db).1
exec (record_attempt secret_ref succeeded error_code now) db =
    (record_cleanup_attempt secret_ref succeeded error_code now db).1

unfoldable pub run : List Call → ProviderDb → ProviderDb
unfolding exec
run [] db = db
run (c ∷ cs) db = run cs (exec c db)
