-- ===== src/Transport/Config.antt =====
-- git/transport/config.rs: the settings of a repository's local Git configuration that the
-- application manages. The runner of Git commands, the file system and `Url::parse` are parameters.
pub mod Plan
pub mod Parse
pub mod Writing
pub mod Quoting
use git_ramus.Base.Tests.{
  ℕ, suc, Bool, true, false, not, ◌&&◌, ◌||◌, Option, none, some, List, [], ◌∷◌, ltb, ◌==◌, is_none,
  is_some, if◌then◌else◌,
}
use git_ramus.Base.Lists.{length}
use git_ramus.Base.Text.{Text, codes, text_eq, option_text_eq, is_empty}
use git_ramus.Base.Order.{keys, set_extend, map_insert}
use git_ramus.Base.Table.{lookup, remove}
use git_ramus.Base.Error.{
  AppError, output_limit, git_failed, Result, ok, err, M, bind_case, throw, return,
}
use git_ramus.Git.Status.Records.{Bytes}
use git_ramus.Transport.Config.Parse.{
  Snapshot, snapshot_eq, max_managed_config_entries, ensure_restorable_snapshot,
  parse_managed_config,
}
use git_ramus.Transport.Url.{Url}

-- `GitCommand`, less its standard input and its timeout, which are the same in every command here.
pub record GitCommand : Type 0 where
  pub repo : Text
  pub args : List Text

-- The exit code is missing when a signal ended the process.
pub record GitOutput : Type 0 where
  pub exit_code : Option ℕ
  pub stdout : Bytes
  pub stderr : Bytes

-- The code that this part calls: `GitRunner::run` over the state of the repositories on disk, the
-- tests of `Path`, `canonicalize` of a path and its text, `Url::parse`, and SHA-256.
pub record Host (G : Type 0) : Type 0 where
  pub run : GitCommand → M G GitOutput
  pub is_absolute : Text → Bool
  pub is_file : Text → Bool
  pub canonicalize : Text → Result Text
  pub parse_url : Text → Option Url
  pub digest : Bytes → Bytes

-- `status.code() == Some(code)`; `status.success()` is that of zero.
unfoldable pub has_code : ℕ → Option ℕ → Bool
has_code code none = false
has_code code (some n) = n == code

abbrev pub config_git_failure : AppError
config_git_failure = git_failed (codes "transport config command failed")

unfoldable pub host_owned_config_regex : Text
unfolding codes
host_owned_config_regex =
    codes
      "^(core\\.sshcommand|ssh\\.variant|credential\\.usehttppath|credential\\.https://.*\\.username)$"

unfoldable pub read_command : Text → GitCommand
unfolding codes host_owned_config_regex
read_command repository = record {
  repo = repository;
  args =
      codes "config"
      ∷ codes "--local"
      ∷ codes "--null"
      ∷ codes "--get-regexp"
      ∷ host_owned_config_regex
      ∷ [];
}

unfoldable pub replace_command : Text → Text → Text → GitCommand
unfolding codes
replace_command repository key value = record {
  repo = repository;
  args = codes "config" ∷ codes "--local" ∷ codes "--replace-all" ∷ key ∷ value ∷ [];
}

unfoldable pub unset_command : Text → Text → GitCommand
unfolding codes
unset_command repository key = record {
  repo = repository;
  args = codes "config" ∷ codes "--local" ∷ codes "--unset-all" ∷ key ∷ [];
}

-- `values.first()` of a key that may be missing
abbrev pub first_value : Option (List Text) → Option Text
first_value none = none
first_value (some []) = none
first_value (some (v ∷ vs)) = some v

abbrev pub value_count : Option (List Text) → ℕ
value_count none = 0
value_count (some vs) = length vs

module _ {G : Type 0} (host : Host G) where
  -- What becomes of the output of a read.
  unfoldable pub read_output : GitOutput → Result Snapshot
  unfolding has_code is_empty parse_managed_config
  read_output output =
      if not (has_code 0 output.exit_code)
      then (if has_code 1 output.exit_code && (is_empty output.stdout && is_empty output.stderr)
          then ok []
          else err config_git_failure)
      else parse_managed_config host.parse_url output.stdout

  unfoldable pub read_managed_snapshot : Text → M G Snapshot
  unfolding read_command read_output
  read_managed_snapshot repository g =
      bind_case (host.run (read_command repository) g) λ output g. (read_output output, g)

  -- A command that must succeed.
  unfoldable pub run_config : GitCommand → M G (Unit {0})
  unfolding has_code
  run_config command g =
      bind_case (host.run command g)
        λ output g. if has_code 0 output.exit_code then (ok tt, g) else (err config_git_failure, g)

  -- The read after a write, which must give what the write leaves.
  unfoldable pub verify_written : Text → Snapshot → M G (Unit {0})
  unfolding read_managed_snapshot snapshot_eq
  verify_written repository expected g =
      bind_case (read_managed_snapshot repository g)
        λ found g. if snapshot_eq found expected then (ok tt, g) else (err config_git_failure, g)

  -- A command that writes, the read that verifies it, and the rest of the loop.
  abbrev pub write_then :
      Text → GitCommand → Snapshot → (Snapshot → M G (Unit {0})) → M G (Unit {0})
  write_then repository command expected next g =
      bind_case (run_config command g)
        λ _ g. bind_case (verify_written repository expected g) λ _ g. next expected g

  abbrev pub write_value :
      Text
      → Text
      → Option Text
      → Option (List Text)
      → Snapshot
      → (Snapshot → M G (Unit {0}))
      → M G (Unit {0})
  write_value repository key (some value) present expected next =
      write_then repository (replace_command repository key value)
        (map_insert key (value ∷ []) expected) next
  write_value repository key none none expected next = next expected
  write_value repository key none (some values) expected next =
      write_then repository (unset_command repository key) (remove key expected) next

  -- The test of `continue`: the key has the target value already.
  unfoldable pub is_written : Option Text → Option (List Text) → Bool
  unfolding option_text_eq
  is_written target_value present =
      option_text_eq (first_value present) target_value
      && value_count present == (if is_some target_value then 1 else 0)

  -- One round of the loop over the keys, and the rest of it.
  unfoldable pub write_key :
      Text → Snapshot → Text → Snapshot → (Snapshot → M G (Unit {0})) → M G (Unit {0})
  unfolding is_written lookup map_insert remove replace_command unset_command run_config
      verify_written
  write_key repository target key expected next g =
      if is_written (first_value (lookup key target)) (lookup key expected)
      then next expected g
      else write_value repository key (first_value (lookup key target)) (lookup key expected)
          expected next g

  unfoldable pub write_keys : Text → Snapshot → List Text → Snapshot → M G (Unit {0})
  unfolding write_key snapshot_eq
  write_keys repository target [] expected g =
      if snapshot_eq expected target then (ok tt, g) else (err config_git_failure, g)
  write_keys repository target (key ∷ rest) expected g =
      write_key repository target key expected (write_keys repository target rest) g

  -- The keys of both snapshots, without repetition and in order.
  unfoldable pub affected_keys : Snapshot → Snapshot → List Text
  unfolding set_extend keys
  affected_keys expected target = set_extend (keys expected) (keys target)

  unfoldable pub write_managed_snapshot : Text → Snapshot → M G (Unit {0})
  unfolding ensure_restorable_snapshot read_managed_snapshot affected_keys write_keys
  write_managed_snapshot repository target g =
      bind_case (ensure_restorable_snapshot host.parse_url target, g)
        λ _ g. bind_case (read_managed_snapshot repository g) λ expected g.
          if ltb max_managed_config_entries (length (affected_keys expected target))
          then (err output_limit, g)
          else write_keys repository target (affected_keys expected target) expected g
