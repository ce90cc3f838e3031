-- ===== src/Scenarios/Profiles.antt =====
-- The URLs, the managed settings and the Transport profiles of git/transport/ at work, on a runner
-- that keeps the settings of one repository in a map.
use git_ramus.Base.Tests.{
  map, ℕ, ◌≡◌, refl, true, false, Option, none, some, List, [], ◌∷◌, ◌++◌, if◌then◌else◌,
}
use git_ramus.Base.Lists.{any}
use git_ramus.Base.Text.{Text, codes, text_eq, is_control, is_empty}
use git_ramus.Base.Order.{map_insert}
use git_ramus.Base.Table.{Table, lookup, remove}
use git_ramus.Base.Error.{ok, Result, output_limit}
use git_ramus.Git.Status.Records.{Bytes}
use git_ramus.Transport.Url.{Url, validate_clone_url}
use git_ramus.Transport.Config.{GitOutput, Host, read_managed_snapshot, write_managed_snapshot}
use git_ramus.Transport.Config.Parse.{Snapshot}
use git_ramus.Transport.Config.Plan.{TransportProfile, shell_quote}
use git_ramus.Transport.Profiles.{
  bind_repository_locked, unbind_trusted, reject, keep_external, is_drifted,
}
use git_ramus.Transport.Profiles.Store.{
  TransportDb, Repository, RepositoryTransportBinding, bound_repositories, drifted, with_drift,
  with_bindings,
}
use git_ramus.Transport.Profiles.Service.{
  World, Moment, write_with_compensation, record_repair, config_drifted,
}
use git_ramus.Transport.Profiles.Store.{has_unresolved}
use git_ramus.Transport.Profiles.{bind_repository}
use git_ramus.Transport.Profiles.Compensation.{IsWritten, write_with_compensation-cases}
use git_ramus.Transport.Profiles.Sequences.{BindCall, run_binds, run_binds-restored}
use git_ramus.Transport.Profiles.Refusals.{IsRefused, repair_blocks_bind}
use git_ramus.Transport.Profiles.Repairs.{BindingCall, binds, unbinds, binding_run}
use git_ramus.Transport.Profiles.Lifecycle.{
  ProfileDeletionResolution, repository_id_of, unbind, covers, ssh_profile, update_ssh_profile,
  delete_profile,
}
use git_ramus.Transport.Profiles.Lifecycle.Freezing.{update_ssh_profile-frozen}
use git_ramus.Transport.Profiles.Lifecycle.Deleting.{
  none_bound_to, all_bound_among, delete_profile-unbound,
}
use git_ramus.Transport.Config.Quoting.{shell_word, shell_word-shell_quote}
use git_ramus.Transport.Config.Writing.{WasRead, write_managed_snapshot-WasRead}

-- The only host that `Url::parse` knows here is `h`.
abbrev parsed : Url
parsed = record {
  scheme = codes "ssh";
  username = [];
  password = none;
  host_str = some (b'h' ∷ []);
  port = none;
  port_or_known_default = some 22;
  path = b'/' ∷ [];
  query = none;
  fragment = none;
}

abbrev parse_one : Text → Option Url
parse_one s = some parsed

abbrev Settings : Type 0
Settings = Table Text

unfoldable printed : Settings → Bytes
printed [] = []
printed ((k, v) ∷ rest) = k ++ 10 ∷ (v ++ 0 ∷ printed rest)

abbrev success : Bytes → GitOutput
success out = record { exit_code = some 0; stdout = out; stderr = [] }

abbrev not_found_output : GitOutput
not_found_output = record { exit_code = some 1; stdout = []; stderr = [] }

unfoldable run_git : List Text → Settings → Result GitOutput × Settings
run_git (a ∷ b ∷ mode ∷ key ∷ value ∷ []) [] =
    if text_eq mode (codes "--null")
    then (ok not_found_output, [])
    else (ok (success []), (key, value) ∷ [])
run_git (a ∷ b ∷ mode ∷ key ∷ value ∷ []) (s ∷ rest) =
    if text_eq mode (codes "--null")
    then (ok (success (printed (s ∷ rest))), s ∷ rest)
    else (ok (success []), map_insert key value (s ∷ rest))
run_git (a ∷ b ∷ mode ∷ key ∷ []) g = (ok (success []), remove key g)
run_git _ g = (ok not_found_output, g)

abbrev fake : Host Settings
fake = record {
  run = λ command g. run_git command.args g;
  is_absolute = λ path. true;
  is_file = λ path. true;
  canonicalize = λ path. ok path;
  parse_url = parse_one;
  digest = λ bytes. bytes;
}

abbrev here : Text
here = codes "/r"

abbrev variant : Snapshot
variant = (codes "ssh.variant", codes "ssh" ∷ []) ∷ []

opened : Unit {0}
unfolding validate_clone_url write_managed_snapshot run_git printed text_eq codes any is_control
    git_ramus.Base.Text.trim_end git_ramus.Base.Text.trim_start git_ramus.Base.Text.to_ascii_lower
    git_ramus.Base.Order.text_before git_ramus.Transport.Profiles.bind_repository_locked
    git_ramus.Transport.Profiles.unbind_trusted git_ramus.Transport.Profiles.Service.record_repair
    git_ramus.Transport.Profiles.Service.write_with_compensation
    git_ramus.Transport.Profiles.Lifecycle.update_ssh_profile
    git_ramus.Transport.Profiles.Lifecycle.delete_profile lookup
    git_ramus.Transport.Profiles.Sequences.run_binds
    git_ramus.Transport.Profiles.Store.bound_repositories
opened = tt

shell_word-shell_quote_example :
    shell_word (b'\'' ∷ b'\'' ∷ b'\\' ∷ b'\'' ∷ b'\'' ∷ b'k' ∷ b'\'' ∷ [])
    ≡ some (b'\'' ∷ b'k' ∷ [])
unfolding shell_quote
shell_word-shell_quote_example = shell_word-shell_quote (b'\'' ∷ b'k' ∷ []) refl

-- From one setting to another: the old one is unset and the new one written.
written :
    write_managed_snapshot fake here variant ((codes "core.sshcommand", codes "a") ∷ [])
    ≡ (ok tt, (codes "ssh.variant", codes "ssh") ∷ [])
unfolding opened
written = refl

write_managed_snapshot-WasRead_example :
    WasRead fake here variant ((codes "ssh.variant", codes "ssh") ∷ [])
write_managed_snapshot-WasRead_example =
    write_managed_snapshot-WasRead fake here variant ((codes "core.sshcommand", codes "a") ∷ [])
      written

-- One repository with a remote, and two SSH profiles.
abbrev home : Repository
home = record { id = codes "r"; canonical_path = here }

abbrev pub profile_of : Text → TransportProfile
profile_of id = ssh_profile id id (codes "/k") true 1 1

abbrev pub empty_db : TransportDb
empty_db = record {
  profiles = (codes "p", profile_of (codes "p")) ∷ (codes "q", profile_of (codes "q")) ∷ [];
  bindings = [];
  repairs = [];
  repositories = (codes "r", here) ∷ [];
  trusted = (codes "r", 1) ∷ [];
  remotes =
      record {
        repository_id = codes "r";
        name = codes "origin";
        fetch_url = some (codes "git@H:p.git");
        push_url = none;
      }
      ∷ [];
  faults = [];
}

abbrev pub at_time : ℕ → Moment
at_time n = record { now = n; fresh_id = n ∷ [] }

-- Before any bind, the repository has a setting of its own.
abbrev before : Settings
before = (codes "ssh.variant", codes "simple") ∷ []

abbrev start : World Settings
start = record { git = before; db = empty_db }

abbrev first_bind : BindCall
first_bind = record { at = at_time 2; profile_id = codes "p"; replace_existing = true }

abbrev second_bind : BindCall
second_bind = record { at = at_time 3; profile_id = codes "q"; replace_existing = false }

bound_twice :
    (b : RepositoryTransportBinding) × (w : World Settings) × (run_binds fake home first_bind
        (second_bind ∷ [])
        start
      ≡ (ok b, w))
unfolding opened
bound_twice = (_, _, refl)

abbrev bound_world : World Settings
bound_world = bound_twice.1

fresh_start : lookup home.id start.db.bindings ≡ none
unfolding opened
fresh_start = refl

before_reads :
    read_managed_snapshot fake here start.git
    ≡ (ok ((codes "ssh.variant", codes "simple" ∷ []) ∷ []), before)
unfolding opened
before_reads = refl

undone :
    (w : World Settings) × (unbind_trusted fake
        (at_time 4)
        home
        reject
        (record { git = bound_world.git; db = bound_world.db })
      ≡ (ok tt, w))
unfolding opened bound_twice
undone = (_, refl)

run_binds-restored_example :
    WasRead fake here ((codes "ssh.variant", codes "simple" ∷ []) ∷ []) undone.0.git
    × (lookup home.id undone.0.db.bindings ≡ none)
run_binds-restored_example =
    run_binds-restored fake home first_bind (second_bind ∷ []) start (at_time 4) bound_world.git
      fresh_start before_reads bound_twice.2 undone.1

write_with_compensation-cases_example :
    IsWritten fake
      (at_time 5)
      home
      variant
      []
      (codes "applyConfig")
      start
      (write_with_compensation fake (at_time 5) home variant [] (codes "applyConfig") start)
write_with_compensation-cases_example =
    write_with_compensation-cases fake (at_time 5) home variant [] (codes "applyConfig") start refl

-- A write that Git stopped, and whose undoing failed too
abbrev repair_pending : World Settings
repair_pending =
    record_repair fake (at_time 5) home [] variant output_limit
      (record { git = before; db = empty_db })

pending : has_unresolved home.id repair_pending.db.repairs ≡ true
unfolding opened has_unresolved
pending = refl

abbrev attempts : List BindingCall
attempts = binds (at_time 6) home.id (codes "p") false ∷ unbinds (at_time 7) home.id reject ∷ []

repair_blocks_bind_example : IsRefused fake (binding_run fake attempts repair_pending) (
    bind_repository fake
      (at_time 8)
      home.id
      (codes "q")
      true
      (binding_run fake attempts repair_pending))
repair_blocks_bind_example =
    repair_blocks_bind fake attempts (at_time 8) home.id (codes "q") true repair_pending pending

-- While `r` is bound to `q`, the profile gets another name, and the same key.
renamed :
    (q : TransportProfile) × (w : World Settings) × (update_ssh_profile fake
        (at_time 8)
        (codes "q")
        (codes "new")
        none
        true
        bound_world
      ≡ (ok q, w))
unfolding opened bound_twice
renamed = (_, _, refl)

q_stored : lookup (codes "q") bound_world.db.profiles ≡ some (profile_of (codes "q"))
unfolding opened bound_twice
q_stored = refl

q_bound : bound_repositories (codes "q") bound_world.db.bindings ≡ codes "r" ∷ []
unfolding opened bound_twice
q_bound = refl

update_ssh_profile-frozen_example :
    (r : TransportProfile) × (lookup (codes "q") renamed.1.db.profiles ≡ some r)
    × (r.ssh_key_path ≡ some (codes "/k"))
    × (r.ssh_identities_only ≡ some true)
update_ssh_profile-frozen_example =
    update_ssh_profile-frozen fake (at_time 8) (codes "q") (codes "new") none true bound_world
      q_stored refl q_bound renamed.2

-- Another repository is bound to `p`, and the profile `q` is deleted.
abbrev other_row : RepositoryTransportBinding
other_row = record {
  repository_id = codes "s";
  transport_profile_id = codes "p";
  before_config = [];
  applied_config = [];
  applied_config_hash = [];
  drift_status = drifted;
  bound_at = 1;
  updated_at = 1;
}

abbrev two_bound : World Settings
two_bound = record {
  git = bound_world.git;
  db = with_bindings bound_world.db ((codes "s", other_row) ∷ bound_world.db.bindings);
}

abbrev resolutions : List ProfileDeletionResolution
resolutions = unbind (codes "r") reject ∷ []

deleted :
    (w : World Settings) × (delete_profile fake
        (at_time 9)
        (λ id. at_time 10)
        (codes "q")
        resolutions
        two_bound
      ≡ (ok tt, w))
unfolding opened bound_twice
deleted = (_, refl)

delete_profile-unbound_example :
    (lookup (codes "q") deleted.0.db.profiles ≡ none)
    × (none_bound_to (codes "q") deleted.0.db.bindings ≡ true)
    × (all_bound_among (codes "q") (map repository_id_of resolutions) two_bound.db.bindings ≡ true)
delete_profile-unbound_example =
    delete_profile-unbound fake (at_time 9) (λ id. at_time 10) (codes "q") resolutions two_bound
      deleted.1
