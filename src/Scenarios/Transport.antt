-- ===== src/Scenarios/Transport.antt =====
-- The registry of git/transport/operation.rs at work.
use git_ramus.Base.Tests.{
  ◌≡◌, ◌≢◌, refl, Bool, true, false, not, ◌&&◌, ◌||◌, Option, none, some, List, [], ◌∷◌,
  if◌then◌else◌,
}
use git_ramus.Base.Text.{Text, codes, text_eq, option_text_eq, is_empty}
use git_ramus.Base.Table.{lookup, insert, remove}
use git_ramus.Base.Error.{permission_denied, ok, err}
use git_ramus.Transport.Operation
use git_ramus.Transport.Operation.{
  OperationEntry, TransportOperationGuard, clone_intents, repositories, domain_eq,
}
use git_ramus.Transport.Operation.System.{
  System, empty, Call, reserve, register, bind_resource, cancel, finish, run,
}
use git_ramus.Transport.Operation.Exclusion.{
  resource_exclusive, released_when_gone, one_winner, cancel_owned_isolated,
}

abbrev one : Text
one = b'1' ∷ []

abbrev two : Text
two = b'2' ∷ []

abbrev plugin : Text
plugin = b'p' ∷ []

abbrev repository : Text
repository = b'r' ∷ []

-- The second operation asks for the resource that the first one has.
abbrev calls : List Call
calls =
    reserve one plugin clone_intents
    ∷ bind_resource one repository
    ∷ register two repository
    ∷ reserve two plugin repositories
    ∷ []

-- A proof that unfolds it computes with every function of the registry.
opened : Unit {0}
unfolding run git_ramus.Transport.Operation.System.step git_ramus.Transport.Operation.System.keep
    git_ramus.Transport.Operation.System.with_guard Operation.reserve Operation.reserved
    Operation.register Operation.registered Operation.bind_resource Operation.bind_entry
    Operation.bind_key Operation.bound Operation.cancel Operation.cancel_owned Operation.release
    Operation.remove_registration Operation.remove_operation Operation.remove_resource
    Operation.finish_if_not_cancelled Operation.new_guard Operation.store_flag codes text_eq
    is_empty option_text_eq lookup insert remove domain_eq
opened = tt

abbrev first_entry : OperationEntry
first_entry = record {
  resource_key = some repository;
  plugin_id = plugin;
  domain = clone_intents;
  cancellation = 0;
}

abbrev second_entry : OperationEntry
second_entry = record {
  resource_key = none;
  plugin_id = plugin;
  domain = repositories;
  cancellation = 2;
}

abbrev first_guard : TransportOperationGuard
first_guard = record {
  operation_id = one;
  resource_key = some repository;
  cancellation = 0;
  active = true;
}

first_present : lookup one (run calls empty).registry.operations ≡ some first_entry
unfolding opened
first_present = refl

-- The refused registration left nothing behind.
second_present : lookup two (run calls empty).registry.operations ≡ some second_entry
unfolding opened
second_present = refl

first_held : lookup one (run calls empty).guards ≡ some first_guard
unfolding opened
first_held = refl

resource_exclusive_example : ◌≡◌ {A = Text} one one
resource_exclusive_example =
    resource_exclusive calls one one repository first_held first_held refl refl

abbrev ended : List Call
ended =
    reserve one plugin clone_intents ∷ bind_resource one repository ∷ cancel one ∷ finish one ∷ []

ended_gone : lookup one (run ended empty).guards ≡ none
unfolding opened
ended_gone = refl

released_when_gone_example :
    (lookup one (run ended empty).registry.operations ≡ none)
    × ((key : Text) → lookup key (run ended empty).registry.resources ≢ some one)
released_when_gone_example = released_when_gone ended one ended_gone

one_winner_example :
    let r = (run calls empty).registry in
    ((Operation.cancel one r).0 ≡ true)
    × ((Operation.finish_if_not_cancelled true first_guard (Operation.cancel one r).1).0 ≡ false)
    × ((Operation.finish_if_not_cancelled true first_guard r).0 ≡ not (r.flags 0))
    × ((Operation.cancel one (Operation.finish_if_not_cancelled true first_guard r).1).0 ≡ false)
one_winner_example = one_winner calls one first_held

one_is_not_two : ◌≢◌ {A = Text} one two
one_is_not_two = ground git_ramus.Base.Tests.arith

cancel_owned_isolated_example :
    let s = (run calls empty).registry in
    let (answer, s') = Operation.cancel_owned one two repositories s in
    let own = text_eq plugin two && domain_eq clone_intents repositories in
    (answer ≡ (if own then ok true else err permission_denied))
    × (s'.flags 0 ≡ (own || s.flags 0))
    × (s'.flags 2 ≡ s.flags 2)
    × (s'.operations ≡ s.operations)
    × (s'.resources ≡ s.resources)
cancel_owned_isolated_example =
    cancel_owned_isolated calls one two two repositories first_present second_present one_is_not_two
