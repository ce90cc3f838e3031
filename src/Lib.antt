-- ===== src/Lib.antt =====
-- Git-Ramus: the core of the desktop application's back end, in Rust under
-- apps/desktop/src-tauri/src.
--
-- The back end is a set of services that the commands of the user interface call. Each keeps its
-- state in a SQLite table or behind a mutex, so a method is one step on that state, and the
-- interleavings of concurrent callers are the sequences of such steps. A model function takes the
-- state and gives a result and the new state (`M` of Base/Error.antt); an error is a value.
--
-- Jobs (apps/desktop/src-tauri/src/jobs/model.rs, apps/desktop/src-tauri/src/jobs/repository.rs,
--   apps/desktop/src-tauri/src/jobs/service.rs)
--   Jobs/Model.antt has the data, Jobs/Repository.antt the table with its constraints,
--   Jobs/Service.antt every method of `JobService`: `transition` is behind start, succeed, fail and
--   cancel. The abstract life cycle of a job is in Jobs/Moves.antt.
-- Transport (apps/desktop/src-tauri/src/git/transport/operation.rs,
--   apps/desktop/src-tauri/src/git/transport/progress.rs,
--   apps/desktop/src-tauri/src/git/transport/url.rs,
--   apps/desktop/src-tauri/src/git/transport/config.rs,
--   apps/desktop/src-tauri/src/git/transport/store.rs,
--   apps/desktop/src-tauri/src/git/transport/clone.rs,
--   apps/desktop/src-tauri/src/git/transport/profile_service.rs)
--   Transport/Operation.antt has the two indices of `TransportOperationRegistry` and its guards:
--   `bind_resource`, `cancel_owned`, `finish_if_not_cancelled` and the others.
--   Transport/Operation/System.antt runs any calls of any callers, who hold the guards.
--   Transport/Progress.antt is `parse_progress_line`, a panic being a value,
--   Transport/Progress/Framing.antt is `GitProgressParser::push`.
--   Transport/Url.antt is `validate_clone_url`. Transport/Config.antt reads and writes the settings
--   of a repository that the application manages, Transport/Config/Parse.antt parses what Git prints,
--   Transport/Config/Plan.antt is `config_plan` and `plan_snapshot`. Transport/Profiles/Store.antt
--   has the tables of `TransportStore`, Transport/Profiles/Store/Listing.antt the summaries of profiles
--   that the user interface shows, Transport/Profiles/Service.antt the compensation of a failed
--   step, Transport/Profiles.antt `bind_repository` and `unbind_repository`,
--   Transport/Profiles/Lifecycle.antt the other operations of `TransportProfileService`. The state is
--   the repositories on disk, whose type is a parameter, and the database. Transport/Clones.antt has
--   the clone operations of `TransportStore`, which a restart of the application reads again. Of
--   apps/desktop/src-tauri/src/git/transport/clone.rs, Transport/Clones/Intents.antt is the registry of
--   Clone intents, Transport/Clones/Glob.antt the patterns of excluded directories,
--   Transport/Clones/FolderName.antt `validate_clone_folder_name`,
--   Transport/Clones/Paths.antt `ClonePaths` with the staging directory and its marker, and
--   Transport/Clones/Recovery.antt `classify_incomplete_recovery`, which works on the clone operations,
--   the jobs and the disk together.
-- Git (apps/desktop/src-tauri/src/git/parser.rs)
--   Git/Status is `parse_status_v2`, over lists of bytes; Git/Status/Render.antt writes the records
--   that the git executable documents, as the reference for the parser. Git/Config.antt is
--   `parse_git_config`, Git/Config/RoundTrip.antt the entries that it reads.
-- Providers (apps/desktop/src-tauri/src/providers/cursor.rs,
--   apps/desktop/src-tauri/src/providers/store.rs, with types of
--   apps/desktop/src-tauri/src/providers/model.rs)
--   Providers/Cursor.antt is `CursorStore`, Providers/Operations.antt `OperationRegistry`, whose
--   asynchronous wait is a run over the registries that stand until its deadline. Providers/Store.antt has the
--   accounts of `ProviderStore`, Providers/Store/Instances.antt its rows of Provider instances,
--   Providers/Store/Bindings.antt the bindings of remotes,
--   Providers/Store/Secrets.antt the queue of secrets to remove. The deletion of an account revokes
--   the grants on it, which are those that Plugins/Permissions.antt answers from.
-- Plugins (apps/desktop/src-tauri/src/plugins/manifest.rs,
--   apps/desktop/src-tauri/src/plugins/permissions.rs)
--   Plugins/Manifest and Plugins/Manifest/Validate.antt are the manifest and
--   `PluginManifest::validate`, Plugins/Permissions.antt is `PermissionGateway` over its two tables.
--   A manifest that the gateway grants is one that was validated; the gateway does not depend on it.
-- Scenarios runs the code at concrete inputs.
--
-- Base has what the parts share: texts as lists of code points (Base/Text.antt), UTF-8
-- (Base/Utf8.antt), maps and SQL tables as association lists (Base/Table.antt, Base/Keys.antt), the
-- errors and the two monads (Base/Error.antt). No loop runs on fuel: every loop of the source
-- consumes a list, and the model recurses on it. The digits of a port in Transport/Url.antt are at most
-- five, as a `u16` has.
--
-- Parameters. The clock, fresh identifiers (UUID) and the order of the texts of timestamps are
-- arguments of the functions that use them, and so are the crate semver and the platform's test for
-- an absolute path in Plugins/Manifest/Validate.antt. The record Host of Transport/Config.antt has the
-- runner of Git commands, the tests of paths, `canonicalize`, `Url::parse` and SHA-256: nothing is
-- assumed of them. The record Files of Transport/Clones/Files.antt has the file system, std::path on
-- texts and the crates dunce and uuid. Nothing is assumed of them but where a theorem names IsLawful of
-- Transport/Clones/Paths/Allocation.antt, the documented behaviour of paths and directories. Floating point is one in
-- Transport/Progress.antt: `scaled` is what `parse_byte_count` makes of an amount and its unit.
--
-- Bounds. Numbers are unbounded where the source only counts what it stores; where it parses a number
-- the bound of the machine type is a test in the parser (`parse_unsigned` of Base/Text.antt).
--
-- SQLite. In Transport/Profiles/Store.antt any statement can fail, as the state says; elsewhere the
-- errors of a table are those of its keys and checks.
--
-- Not modelled: JSON forms, the child processes that run Git, the HTTP
-- clients, the rest of apps/desktop/src-tauri/src/git/parser.rs (diffs, remotes), the steps of
-- `clone_repository` in apps/desktop/src-tauri/src/git/transport/clone.rs, identities and themes, and the user interface.
pub mod Base
pub mod Jobs
pub mod Transport
pub mod Git
pub mod Providers
pub mod Plugins
pub mod Scenarios
