-- ===== src/Scenarios/Summaries.antt =====
-- The summaries of Transport profiles in git/transport/store.rs at work.
use git_ramus.Base.Tests.{◌≡◌, ◌↔◌, refl, true, false, none, some, List, [], ◌∷◌}
use mathlib.Core.List.Memᴰ
use git_ramus.Base.Text.{codes, text_eq}
use git_ramus.Base.Table.{insert}
use git_ramus.Base.Error.{ok, err, is_ok, database}
use git_ramus.Transport.Config.{Host}
use git_ramus.Transport.Profiles.Store.{
  TransportDb, TransportConfigRepair, clean, with_bindings, insert_repair,
  repository_has_unresolved_repair,
}
use git_ramus.Transport.Profiles.Store.Listing.{
  TransportProfileSummary, summary, list_profile_summaries, portable_file_name, delete_profile,
  resolve_repair,
}
use git_ramus.Transport.Profiles.Service.{World}
use git_ramus.Transport.Profiles.Lifecycle as Lifecycle
use git_ramus.Transport.Profiles.Lifecycle.Summaries.{list_profiles, listed-delete_profile}
use git_ramus.Scenarios.Profiles.{profile_of, empty_db, at_time}

abbrev bound_db : TransportDb
bound_db = with_bindings empty_db (
    (
      codes "r",
      record {
        repository_id = codes "r";
        transport_profile_id = codes "p";
        before_config = [];
        applied_config = [];
        applied_config_hash = [];
        drift_status = clean;
        bound_at = 1;
        updated_at = 1;
      },
    )
    ∷ [])

-- A machine whose Git fails, and where every file is there
abbrev machine : Host (Unit {0})
machine = record {
  run = λ command g. (err database, g);
  is_absolute = λ path. true;
  is_file = λ path. true;
  canonicalize = λ path. ok path;
  parse_url = λ text. none;
  digest = λ bytes. bytes;
}

abbrev bound_world : World (Unit {0})
bound_world = record { git = tt; db = bound_db }

opened : Unit {0}
unfolding codes text_eq insert list_profile_summaries portable_file_name list_profiles
    delete_profile resolve_repair insert_repair repository_has_unresolved_repair
opened = tt

abbrev bound_profile : TransportProfileSummary
bound_profile = summary (profile_of (codes "p")) true 1

abbrev shown : List TransportProfileSummary
shown = bound_profile ∷ summary (profile_of (codes "q")) true 0 ∷ []

summaries_shown : (list_profiles machine bound_world).0 ≡ ok shown
unfolding opened
summaries_shown = refl

listed-delete_profile_example :
    (is_ok
        (Lifecycle.delete_profile machine
          (at_time 2)
          (λ id. at_time 2)
          (codes "p")
          []
          bound_world).0
      ≡ true)
    ↔ (bound_profile.bound_repository_count ≡ 0)
listed-delete_profile_example =
    listed-delete_profile machine (at_time 2) (λ id. at_time 2) bound_world shown bound_profile refl
      summaries_shown (Memᴰ.head refl)

key_file_name : portable_file_name (codes "/k/id\\") ≡ some (codes "id")
unfolding opened
key_file_name = refl

bound_stays : is_ok (delete_profile (codes "p") bound_db).0 ≡ false
unfolding opened
bound_stays = refl

-- A repair that is resolved no longer stands in the way of its repository.
abbrev repair : TransportConfigRepair
repair = record {
  id = codes "x";
  repository_id = codes "r";
  before_config = [];
  attempted_config = [];
  error_code = [];
  created_at = 1;
  resolved_at = none;
}

repair_resolved :
    (repository_has_unresolved_repair
      (codes "r")
      (resolve_repair (codes "x") 2 (insert_repair repair empty_db).1).1).0
    ≡ ok false
unfolding opened
repair_resolved = refl
