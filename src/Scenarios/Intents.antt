-- ===== src/Scenarios/Intents.antt =====
-- The registry of Clone intents of git/transport/clone.rs at work.
use git_ramus.Base.Tests.{◌+◌, ◌≡◌, refl, true, false, Option, none, some, List, [], ◌∷◌, arith}
use git_ramus.Base.Lists.{any, all}
use git_ramus.Base.Text.{Text, codes, text_eq}
use git_ramus.Base.Table.{Table}
use git_ramus.Base.Error.{Result, ok, is_ok}
use git_ramus.Providers.Model.{RemoteRepository, github, public, read}
use git_ramus.Transport.Url.{Url}
use git_ramus.Transport.Clones.Intents.{
  CloneIntent, CloneIntentRecord, create, consume, git_client_plugin_id, clone_intent_ttl,
}
use git_ramus.Transport.Clones.Intents.OneUse.{Call, ask, look, redeem, run, asks, spares, IsSound}
use git_ramus.Transport.Clones.Intents.Redemption.{intent_one_use}

opened : Unit {0}
unfolding codes text_eq any all create consume run asks spares git_ramus.Base.Text.trim_end
    git_ramus.Base.Text.trim_start git_ramus.Base.Text.to_ascii_lower
opened = tt

abbrev over_https : Url
over_https = record {
  scheme = codes "https";
  username = [];
  password = none;
  host_str = some (b'h' ∷ []);
  port = none;
  port_or_known_default = some 443;
  path = codes "/o/r";
  query = none;
  fragment = none;
}

abbrev parse : Text → Option Url
parse s = some over_https

abbrev hosted : RemoteRepository
hosted = record {
  provider_kind = github;
  instance_id = codes "i";
  repository_id = codes "7";
  namespace = codes "o";
  name = codes "r";
  full_name = codes "o/r";
  web_url = codes "https://h/o/r";
  https_url = codes "https://h/o/r";
  ssh_url = codes "git@h:o/r";
  default_branch = none;
  visibility = public;
  archived = false;
  fork = false;
  permission = read;
  updated_at = 0;
}

abbrev resolver : Text → Text → Result RemoteRepository
resolver account repository_id = ok hosted

abbrev before : List Call
before =
    ask (codes "x") 5 (codes "p") (codes "a") (codes "7") ∷ redeem (codes "x") (codes "p") 6 ∷ []

made :
    (intent : CloneIntent) × (records : Table CloneIntentRecord) × (create parse resolver
        (codes "y")
        10
        (codes "p")
        (codes "a")
        (codes "7")
        (run parse resolver before [])
      ≡ (ok intent, records))
unfolding opened
made = (_, _, refl)

-- Another intent is redeemed, this one is looked at, and a stranger tries to redeem it.
abbrev between : List Call
between =
    redeem (codes "x") git_client_plugin_id 11
    ∷ look (codes "y") 12
    ∷ redeem (codes "y") (codes "p") 13
    ∷ []

spared : all (spares (codes "y") (10 + clone_intent_ttl)) between ≡ true
unfolding opened
spared = refl

not_asked : any (asks (codes "y")) before ≡ false
unfolding opened
not_asked = refl

intent_one_use_example :
    let redemption =
      consume (codes "y") git_client_plugin_id 20 (run parse resolver between made.1) in
    (redemption.0
      ≡ ok (record {
        intent_id = codes "y";
        creator_plugin_id = codes "p";
        account_id = codes "a";
        repository = made.0.repository;
      }))
    × (text_eq made.0.repository.repository_id (codes "7") ≡ true)
    × (is_ok
          (consume (codes "y") git_client_plugin_id 30 (run parse resolver before redemption.1)).0
        ≡ false)
intent_one_use_example =
    intent_one_use parse resolver before between before (codes "y") 10 (codes "p") (codes "a")
      (codes "7") 20 git_client_plugin_id 30 made.2 spared refl not_asked

none_held : IsSound []
none_held = record { distinct = tt; bounded = omega arith }
