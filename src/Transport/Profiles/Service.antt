-- ===== src/Transport/Profiles/Service.antt =====
-- git/transport/profile_service.rs: the state of the profile service, and what its operations share.
-- The lifecycle lock is held throughout an operation, so each is one step; the clock and the fresh
-- identifiers are arguments.
use git_ramus.Base.Tests.{
  ℕ, zero, suc, ◌/◌, ◌%◌, ◌+◌, ◌-◌, Option, none, some, List, [], ◌∷◌, ◌++◌, ltb, if◌then◌else◌,
}
use git_ramus.Base.Lists.{length}
use git_ramus.Base.Text.{Text, codes, text_eq}
use git_ramus.Base.Utf8.{encode}
use git_ramus.Base.Error.{
  io, timeout, destination_exists, unsafe_path, AppError, invalid_input, not_found, database,
  git_failed, output_limit, repository_busy, profile_mismatch, config_drift, transport_partial,
  trust_required, Result, ok, err, and_then, M, bind_case,
}
use git_ramus.Git.Status.Records.{Bytes}
use git_ramus.Transport.Url.{ValidatedRemoteUrl, validate_clone_url}
use git_ramus.Transport.Config.{Host, write_managed_snapshot}
use git_ramus.Transport.Config.Parse.{Snapshot}
use git_ramus.Transport.Config.Plan.{TransportProfile, config_plan, plan_snapshot}
use git_ramus.Transport.Profiles.Store.{
  TransportDb, Repository, Remote, TransportConfigRepair, get_profile, insert_repair, list_remotes,
  get_repository, is_trusted,
}

-- The repositories on disk, and the database.
pub record World (G : Type 0) : Type 0 where
  pub git : G
  pub db : TransportDb

-- What the clock and the generator of identifiers give an operation.
pub record Moment : Type 0 where
  pub now : ℕ
  pub fresh_id : Text

-- `to_be_bytes` of a `u64`
unfoldable pub be_bytes : ℕ → ℕ → Bytes
be_bytes zero n = []
be_bytes (suc count) n = be_bytes count (n / 256) ++ n % 256 ∷ []

unfoldable pub hash_field : Bytes → Bytes
unfolding be_bytes
hash_field value = be_bytes 8 (length value) ++ value

unfoldable pub hash_values : List Text → Bytes
unfolding hash_field encode
hash_values [] = []
hash_values (value ∷ rest) = hash_field (encode value) ++ hash_values rest

unfoldable pub hash_entries : Snapshot → Bytes
unfolding be_bytes hash_field hash_values encode
hash_entries [] = []
hash_entries ((key, values) ∷ rest) =
    hash_field (encode key)
    ++ (be_bytes 8 (length values) ++ (hash_values values ++ hash_entries rest))

-- Everything that goes into the hash.
unfoldable pub hash_input : Snapshot → Bytes
unfolding be_bytes hash_entries
hash_input snapshot = be_bytes 8 (length snapshot) ++ hash_entries snapshot

unfoldable pub hex_digit : ℕ → ℕ
hex_digit n = if ltb n 10 then b'0' + n else b'a' + (n - 10)

unfoldable pub hex : Bytes → Text
unfolding hex_digit
hex [] = []
hex (b ∷ bs) = hex_digit (b / 16) ∷ hex_digit (b % 16) ∷ hex bs

unfoldable pub stable_error_code : AppError → Text
unfolding codes
stable_error_code database = codes "storage.database"
stable_error_code (git_failed m) = codes "git.failed"
stable_error_code io = codes "storage.io"
stable_error_code timeout = codes "git.timeout"
stable_error_code output_limit = codes "git.output-limit"
stable_error_code repository_busy = codes "git.transport.repository-busy"
stable_error_code (profile_mismatch r) = codes "git.transport.profile-mismatch"
stable_error_code (config_drift r s) = codes "git.transport.config-drift"
stable_error_code destination_exists = codes "git.transport.destination-exists"
stable_error_code unsafe_path = codes "git.transport.unsafe-path"
stable_error_code _ = codes "git.transport.partial"

abbrev pub config_drifted : Text → AppError
config_drifted repository_id = config_drift repository_id (codes "restoreConfig")

-- `find(|remote| remote.name == "origin").or_else(|| remotes.first())`
unfoldable pub find_origin : List Remote → Option Remote
unfolding text_eq codes
find_origin [] = none
find_origin (r ∷ rest) =
    let later = find_origin rest in if text_eq r.name (codes "origin") then some r else later

abbrev first_remote : List Remote → Option Remote
first_remote [] = none
first_remote (r ∷ rest) = some r

abbrev or_first : Option Remote → List Remote → Option Remote
or_first none remotes = first_remote remotes
or_first (some r) remotes = some r

-- `fetch_url.or(push_url)`
abbrev remote_address : Remote → Option Text
remote_address r = elim r.fetch_url [ none ↦ r.push_url | some url ↦ some url ]

abbrev address_of : Text → Option Remote → Result Text
address_of id none = err (not_found (codes "remote for repository " ++ id))
address_of id (some r) = elim (remote_address r) [
  | none ↦ err (not_found (codes "remote URL for repository " ++ id))
  | some url ↦ ok url
]

abbrev pub new_repair : Moment → Repository → Snapshot → Snapshot → AppError → TransportConfigRepair
new_repair at repository attempted restore error = record {
  id = at.fresh_id;
  repository_id = repository.id;
  before_config = restore;
  attempted_config = attempted;
  error_code = stable_error_code error;
  created_at = at.now;
  resolved_at = none;
}

abbrev pub required : Text → Option TransportProfile → Result TransportProfile
required id none = err (not_found (codes "transport profile " ++ id))
required id (some p) = ok p

module _ {G : Type 0} (host : Host G) where
  abbrev pub on_db : {A : Type 0} → M TransportDb A → M (World G) A
  on_db m w = let r = m w.db in (r.0, record { git = w.git; db = r.1 })

  abbrev pub on_git : {A : Type 0} → M G A → M (World G) A
  on_git m w = let r = m w.git in (r.0, record { git = r.1; db = w.db })

  abbrev pub lift : {A : Type 0} → Result A → M (World G) A
  lift r w = (r, w)

  unfoldable pub sha256 : Snapshot → Text
  unfolding hex hash_input
  sha256 snapshot = hex (host.digest (hash_input snapshot))

  unfoldable pub repository_path : Repository → Result Text
  repository_path repository =
      if host.is_absolute repository.canonical_path
      then ok repository.canonical_path
      else err (invalid_input (codes "repository path is not absolute"))

  unfoldable pub required_profile : Text → M (World G) TransportProfile
  unfolding get_profile
  required_profile profile_id w =
      bind_case (on_db (get_profile profile_id) w) λ found w. (required profile_id found, w)

  unfoldable pub primary_url : Repository → List Remote → Result ValidatedRemoteUrl
  unfolding find_origin validate_clone_url
  primary_url repository remotes =
      and_then (address_of repository.id (or_first (find_origin remotes) remotes))
        (validate_clone_url host.parse_url)

  unfoldable pub primary_remote : Repository → M (World G) ValidatedRemoteUrl
  unfolding list_remotes primary_url
  primary_remote repository w =
      bind_case (on_db (list_remotes repository.id) w)
        λ remotes w. (primary_url repository remotes, w)

  unfoldable pub desired_snapshot : TransportProfile → ValidatedRemoteUrl → Result Snapshot
  unfolding config_plan plan_snapshot
  desired_snapshot profile remote =
      and_then (config_plan host.is_absolute host.is_file profile remote)
        (plan_snapshot host.parse_url)

  -- `repositories.get(..)?`, then the test of trust
  unfoldable pub trusted_repository : Text → M (World G) Repository
  unfolding get_repository is_trusted
  trusted_repository repository_id w =
      bind_case (on_db (get_repository repository_id) w) λ repository w.
        bind_case (on_db (is_trusted repository_id) w)
          λ trusted w. if trusted then (ok repository, w) else (err trust_required, w)

  -- What `compensate_or_partial` leaves once the restoring write has failed: a pending repair, as
  -- far as the database takes it.
  unfoldable pub record_repair :
      Moment → Repository → Snapshot → Snapshot → AppError → World G → World G
  unfolding insert_repair stable_error_code
  record_repair at repository attempted restore error w =
      (on_db (insert_repair (new_repair at repository attempted restore error)) w).1

  abbrev pub compensated :
      Moment
      → Repository
      → Snapshot
      → Snapshot
      → AppError
      → Text
      → Result (Unit {0}) × World G
      → AppError × World G
  compensated at repository attempted restore error failed_step (ok _, w) = (error, w)
  compensated at repository attempted restore error failed_step (err _, w) = (
    transport_partial repository.id failed_step,
    record_repair at repository attempted restore error w,
  )

  abbrev pub compensate_at :
      Moment
      → Repository
      → Snapshot
      → Snapshot
      → AppError
      → Text
      → Result Text
      → World G
      → AppError × World G
  compensate_at at repository attempted restore error failed_step (err _) w =
      (transport_partial repository.id failed_step, w)
  compensate_at at repository attempted restore error failed_step (ok path) w =
      compensated at repository attempted restore error failed_step
        (on_git (write_managed_snapshot host path restore) w)

  unfoldable pub compensate_or_partial :
      Moment → Repository → Snapshot → Snapshot → AppError → Text → World G → AppError × World G
  unfolding repository_path write_managed_snapshot record_repair
  compensate_or_partial at repository attempted restore error failed_step w =
      compensate_at at repository attempted restore error failed_step (repository_path repository) w

  -- `if let Err(error) = .. { return Err(self.compensate_or_partial(..)) }`
  abbrev pub or_compensate :
      {A : Type 0}
      → Moment
      → Repository
      → Snapshot
      → Snapshot
      → Text
      → A
      → Result (Unit {0}) × World G
      → Result A × World G
  or_compensate at repository attempted restore failed_step value (ok _, w) = (ok value, w)
  or_compensate at repository attempted restore failed_step value (err e, w) =
      let r = compensate_or_partial at repository attempted restore e failed_step w in
      (err r.0, r.1)

  unfoldable pub write_with_compensation :
      Moment → Repository → Snapshot → Snapshot → Text → M (World G) (Unit {0})
  unfolding repository_path write_managed_snapshot compensate_or_partial
  write_with_compensation at repository original target failed_step w =
      bind_case (lift (repository_path repository) w) λ path w.
        or_compensate at repository target original failed_step tt
          (on_git (write_managed_snapshot host path target) w)
