-- ===== src/Scenarios/Clones.antt =====
-- The clone operations of git/transport/store.rs at work.
use git_ramus.Base.Tests.{ℕ, true, ◌↔◌, ◌≡◌, refl, false, none, some, List, [], ◌∷◌}
use git_ramus.Base.Lists.{any}
use git_ramus.Base.Text.{Text, codes, text_eq}
use git_ramus.Base.Table.{lookup, insert, remove}
use git_ramus.Transport.Clones.{
  CloneDb, CloneOperation, new, validating, transferring, completed, insert_clone_operation,
  update_clone_stage, update_operation, update_clone_flag, job_taken,
  mark_clone_filesystem_complete, mark_clone_repository, delete_clone_operation,
  get_clone_operation, is_known, is_terminal, place_operation, incomplete_rows,
  list_incomplete_clone_operations,
}
use git_ramus.Transport.Clones.Calls.{
  Call, add, reach, files_done, registered, forget, exec, run, forgets,
}
use git_ramus.Transport.Clones.Glob.{clone_glob_match, clone_path_is_excluded}
use git_ramus.Transport.Clones.Glob.Matching.{Matches, clone_glob_match_iff}
use git_ramus.Transport.Clones.Progress.{Continues, run-Continues}

opened : Unit {0}
unfolding codes text_eq any lookup insert remove insert_clone_operation update_clone_stage
    update_operation update_clone_flag job_taken mark_clone_filesystem_complete
    mark_clone_repository delete_clone_operation get_clone_operation is_known is_terminal
    place_operation incomplete_rows list_incomplete_clone_operations exec run forgets
opened = tt

abbrev clone_of : Text → Text → CloneOperation
clone_of id job = record {
  operation_id = id;
  job_id = job;
  source_summary = codes "h/r";
  intent_id = none;
  transport_profile_id = none;
  provider_instance_id = none;
  provider_account_id = none;
  provider_repository_id = none;
  staging_path = codes "/tmp/s";
  owner_marker_path = codes "/tmp/m";
  final_path = codes "/home/r";
  project_target = new (codes "r");
  current_stage = validating;
  filesystem_complete = false;
  repository_id = none;
  project_id = none;
  profile_applied = false;
  provider_binding_complete = false;
  created_at = codes "1";
  updated_at = codes "1";
}

abbrev empty_db : CloneDb
empty_db = record {
  operations = [];
  jobs = codes "j" ∷ codes "k" ∷ [];
  repositories = codes "r" ∷ [];
  projects = [];
}

-- A clone, another that takes its key, and one whose row is deleted.
abbrev life : List Call
life =
    files_done (codes "a") (codes "2")
    ∷ add (clone_of (codes "a") (codes "k"))
    ∷ add (clone_of (codes "b") (codes "k"))
    ∷ registered (codes "a") (codes "r") (some (codes "p")) (codes "3")
    ∷ reach (codes "b") transferring (codes "3")
    ∷ forget (codes "b")
    ∷ reach (codes "a") completed (codes "4")
    ∷ []

abbrev started : CloneDb
started = run (add (clone_of (codes "a") (codes "j")) ∷ []) empty_db

not_forgotten : any (forgets (codes "a")) life ≡ false
unfolding opened
not_forgotten = refl

held : get_clone_operation (codes "a") started ≡ some (clone_of (codes "a") (codes "j"))
unfolding opened
held = refl

one_listed : list_incomplete_clone_operations started ≡ clone_of (codes "a") (codes "j") ∷ []
unfolding opened
one_listed = refl

none_listed : list_incomplete_clone_operations (run life started) ≡ []
unfolding opened
none_listed = refl

run-Continues_example :
    (p : CloneOperation) × (get_clone_operation (codes "a") (run life started) ≡ some p)
    × Continues (clone_of (codes "a") (codes "j")) p
run-Continues_example =
    run-Continues life (codes "a") started (clone_of (codes "a") (codes "j")) not_forgotten held

-- A pattern with both wildcards.
pattern_bytes : List ℕ
unfolding opened
pattern_bytes = codes "n*e_?od*"

excluded_module : clone_glob_match pattern_bytes (codes "node_modules") ≡ true
unfolding opened pattern_bytes clone_glob_match
excluded_module = refl

clone_glob_match_iff_example :
    (clone_glob_match pattern_bytes (codes "node_modules") ≡ true)
    ↔ Matches pattern_bytes (codes "node_modules")
clone_glob_match_iff_example = clone_glob_match_iff pattern_bytes (codes "node_modules")

vendor_excluded : clone_path_is_excluded (codes "x") (codes "a/x") (codes "a\\?" ∷ []) ≡ true
unfolding opened clone_path_is_excluded
vendor_excluded = refl
