-- ===== src/Transport/Profiles/Steps.antt =====
-- The steps of git/transport/profile_service.rs that only read the database, and what a successful
-- step says of the state.
use git_ramus.Base.Tests.{
  ◌≡◌, refl, Bool, true, false, Option, none, some, List, [], ◌∷◌, sym, ◌∙◌, ap,
}
use mathlib.Core.Path.{subst}
use git_ramus.Base.Text.{Text}
use git_ramus.Base.Table.{lookup}
use git_ramus.Base.Error.{Result, ok, err, bind-eq-ok, M, ok_injective}
use git_ramus.Transport.Url.{ValidatedRemoteUrl}
use git_ramus.Transport.Config.{Host}
use git_ramus.Transport.Config.Parse.{Snapshot}
use git_ramus.Transport.Config.Plan.{TransportProfile}
use git_ramus.Transport.Profiles.Store.{
  TransportDb, Repository, RepositoryTransportBinding, with_faults, attempt, statement, query,
  get_profile, list_remotes, remotes_of, get_binding,
}
use git_ramus.Transport.Profiles.Service.{
  World, Moment, on_db, or_compensate, required, required_profile, primary_remote, lift, on_git,
}

-- The tables and the repositories on disk are as before.
pub record IsQuiet {G : Type 0} (w w' : World G) : Type 0 where
  pub git_kept : w'.git ≡ w.git
  pub faults : List Bool
  pub rows_kept : w'.db ≡ with_faults w.db faults

attempt-eq-ok :
    {A : Type 0} (faults : List Bool) (db : TransportDb) (f : M TransportDb A) {a : A}
    {db' : TransportDb}
    → attempt faults db f ≡ (ok a, db')
    → (left : List Bool) × (f (with_faults db left) ≡ (ok a, db'))
attempt-eq-ok [] db f e = (db.faults, e)
attempt-eq-ok (true ∷ faults) db f e = cc
attempt-eq-ok (false ∷ faults) db f e = (faults, e)

pub statement-eq-ok :
    {A : Type 0} (f : M TransportDb A) (db : TransportDb) {a : A} {db' : TransportDb}
    → statement f db ≡ (ok a, db')
    → (left : List Bool) × (f (with_faults db left) ≡ (ok a, db'))
unfolding statement
statement-eq-ok f db e = attempt-eq-ok db.faults db f e

required-eq-ok :
    (id : Text) (found : Option TransportProfile) {p : TransportProfile}
    → required id found ≡ ok p
    → found ≡ some p
required-eq-ok id none h = cc
required-eq-ok id (some q) h = ap some (ok_injective h)

module _ {G : Type 0} (host : Host G) where
  pub IsQuiet-refl : (w : World G) → IsQuiet w w
  IsQuiet-refl w = record { git_kept = refl; faults = w.db.faults; rows_kept = refl }

  pub IsQuiet-trans : {a b c : World G} → IsQuiet a b → IsQuiet b c → IsQuiet a c
  IsQuiet-trans {a} {b} {c} p q = record {
    git_kept = cc;
    faults = q.faults;
    rows_kept = subst (λ db. c.db ≡ with_faults db q.faults) p.rows_kept q.rows_kept;
  }

  pub on_db-eq-ok :
      {A : Type 0} (m : M TransportDb A) (w : World G) {a : A} {w' : World G}
      → on_db host m w ≡ (ok a, w')
      → (w'.git ≡ w.git) × (m w.db ≡ (ok a, w'.db))
  on_db-eq-ok m w {a} {w'} h = (sym (λ i. ((h i).1).git), λ i. ((h i).0, ((h i).1).db))

  -- A query gives what it reads from the state it leaves.
  pub query-eq-ok :
      {A : Type 0} (f : TransportDb → A) (w : World G) {a : A} {w' : World G}
      → on_db host (query f) w ≡ (ok a, w')
      → IsQuiet w w' × (a ≡ f w'.db)
  unfolding query
  query-eq-ok f w {a} {w'} h =
      let (git_kept, ran) = on_db-eq-ok (query f) w h in
      let (left, e) = statement-eq-ok (λ db. (ok (f db), db)) w.db ran in
      let kept : w'.db ≡ with_faults w.db left = sym (λ i. (e i).1) in
      let value : a ≡ f (with_faults w.db left) = sym (ok_injective (λ i. (e i).0)) in
      (record { git_kept = git_kept; faults = left; rows_kept = kept }, value ∙ ap f (sym kept))

  pub required_profile-IsQuiet :
      (id : Text) (w : World G) {p : TransportProfile} {w' : World G}
      → required_profile host id w ≡ (ok p, w')
      → IsQuiet w w'
  unfolding required_profile get_profile
  required_profile-IsQuiet id w h =
      let (found, w₁, queried, rest) = bind-eq-ok (on_db host (get_profile id) w) _ h in
      let (quiet, value) = query-eq-ok (λ db. lookup id db.profiles) w queried in
      subst (IsQuiet w) (λ i. (rest i).1) quiet

  pub required_profile-found :
      (id : Text) (w : World G) {p : TransportProfile} {w' : World G}
      → required_profile host id w ≡ (ok p, w')
      → lookup id w.db.profiles ≡ some p
  unfolding required_profile get_profile
  required_profile-found id w h =
      let (found, w₁, queried, rest) = bind-eq-ok (on_db host (get_profile id) w) _ h in
      let (quiet, value) = query-eq-ok (λ db. lookup id db.profiles) w queried in
      sym (value ∙ ap (λ db. lookup id db.profiles) quiet.rows_kept)
      ∙ required-eq-ok id found (λ i. (rest i).0)

  pub primary_remote-IsQuiet :
      (repository : Repository) (w : World G) {r : ValidatedRemoteUrl} {w' : World G}
      → primary_remote host repository w ≡ (ok r, w')
      → IsQuiet w w'
  unfolding primary_remote list_remotes
  primary_remote-IsQuiet repository w h =
      let (found, w₁, queried, rest) = bind-eq-ok (on_db host (list_remotes repository.id) w) _ h in
      let (quiet, value) = query-eq-ok (λ db. remotes_of repository.id db.remotes) w queried in
      subst (IsQuiet w) (λ i. (rest i).1) quiet

  pub get_binding-eq-ok :
      (id : Text) (w : World G) {found : Option RepositoryTransportBinding} {w' : World G}
      → on_db host (get_binding id) w ≡ (ok found, w')
      → IsQuiet w w' × (found ≡ lookup id w.db.bindings)
  unfolding get_binding
  get_binding-eq-ok id w h =
      let (quiet, value) = query-eq-ok (λ db. lookup id db.bindings) w h in
      (quiet, value ∙ ap (λ db. lookup id db.bindings) quiet.rows_kept)

  -- A computation that touches neither the database nor Git.
  pub lift-eq-ok :
      {A : Type 0} (r : Result A) (w : World G) {a : A} {w' : World G}
      → lift host r w ≡ (ok a, w')
      → (r ≡ ok a) × (w ≡ w')
  lift-eq-ok r w h = (λ i. (h i).0, λ i. (h i).1)

  pub on_git-eq-ok :
      {A : Type 0} (m : M G A) (w : World G) {a : A} {w' : World G}
      → on_git host m w ≡ (ok a, w')
      → (m w.git ≡ (ok a, w'.git)) × (w'.db ≡ w.db)
  on_git-eq-ok m w h = (λ i. ((h i).0, ((h i).1).git), sym (λ i. ((h i).1).db))

  -- A step that compensates for its failure gives its value only when it succeeds.
  pub or_compensate-eq-ok :
      {A : Type 0} (at : Moment) (repository : Repository) (attempted restore : Snapshot)
      (failed_step : Text) (value : A) (r : Result (Unit {0}) × World G) {a : A} {w' : World G}
      → or_compensate host at repository attempted restore failed_step value r ≡ (ok a, w')
      → (r ≡ (ok tt, w')) × (value ≡ a)
  or_compensate-eq-ok at repository attempted restore failed_step value (ok tt, w) h =
      (λ i. (ok tt, (h i).1), ok_injective (λ i. (h i).0))
  or_compensate-eq-ok at repository attempted restore failed_step value (err e, w) h = cc
