-- ===== src/Transport/Clones/Calls.antt =====
-- The updates of a clone operation in git/transport/store.rs, as calls that any callers make in any
-- order.
use git_ramus.Base.Tests.{Bool, false, Option, List, [], ◌∷◌}
use git_ramus.Base.Text.{Text, text_eq}
use git_ramus.Transport.Clones.{
  CloneDb, CloneOperation, CloneStage, insert_clone_operation, update_clone_stage,
  mark_clone_filesystem_complete, mark_clone_profile, mark_clone_provider_binding,
  mark_clone_repository, mark_clone_project, delete_clone_operation,
}

pub data Call : Type 0 where
  add : CloneOperation → Call
  reach : Text → CloneStage → Text → Call
  files_done profile_done provider_done : Text → Text → Call
  registered : Text → Text → Option Text → Text → Call
  in_project : Text → Text → Text → Call
  forget : Text → Call

-- The state after a call, whether it succeeds or fails.
unfoldable pub exec : Call → CloneDb → CloneDb
unfolding insert_clone_operation update_clone_stage mark_clone_filesystem_complete
    mark_clone_profile mark_clone_provider_binding mark_clone_repository mark_clone_project
    delete_clone_operation
exec (add o) db = (insert_clone_operation o db).1
exec (reach id stage at) db = (update_clone_stage id stage at db).1
exec (files_done id at) db = (mark_clone_filesystem_complete id at db).1
exec (profile_done id at) db = (mark_clone_profile id at db).1
exec (provider_done id at) db = (mark_clone_provider_binding id at db).1
exec (registered id repository project at) db =
    (mark_clone_repository id repository project at db).1
exec (in_project id project at) db = (mark_clone_project id project at db).1
exec (forget id) db = (delete_clone_operation id db).1

unfoldable pub run : List Call → CloneDb → CloneDb
unfolding exec
run [] db = db
run (c ∷ cs) db = run cs (exec c db)

-- The calls that delete an operation.
unfoldable pub forgets : Text → Call → Bool
unfolding text_eq
forgets id (forget j) = text_eq j id
forgets id _ = false
