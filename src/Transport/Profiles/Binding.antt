-- ===== src/Transport/Profiles/Binding.antt =====
-- Binding a repository and undoing it, in git/transport/profile_service.rs.
use git_ramus.Base.Tests.{◌≡◌, refl, ◌||◌, some, if-eq, is_none, sym, ◌∙◌, ap, inl, inr}
use mathlib.Core.Path.{subst}
use git_ramus.Base.Text.{Text, codes}
use git_ramus.Base.Table.{lookup, lookup-insert_self}
use git_ramus.Base.Error.{ok, bind-eq-ok, ok_injective}
use git_ramus.Transport.Config.{Host, write_managed_snapshot}
use git_ramus.Transport.Config.Parse.{Snapshot}
use git_ramus.Transport.Config.Plan.{TransportProfile}
use git_ramus.Transport.Config.Writing.{WasRead, write_managed_snapshot-WasRead}
use git_ramus.Transport.Profiles.Store.{
  Repository, RepositoryTransportBinding, clean, upsert_binding,
}
use git_ramus.Transport.Profiles.Service.{
  World, Moment, on_db, on_git, lift, repository_path, sha256, write_with_compensation,
}
use git_ramus.Transport.Profiles.{Prepared, new_binding, apply_binding}
use git_ramus.Transport.Profiles.Steps.{
  statement-eq-ok, on_db-eq-ok, lift-eq-ok, on_git-eq-ok, or_compensate-eq-ok,
}

module _ {G : Type 0} (host : Host G) where
  pub upsert_binding-eq-ok :
      (b : RepositoryTransportBinding) (w : World G) {w' : World G}
      → on_db host (upsert_binding b) w ≡ (ok tt, w')
      → (w'.git ≡ w.git) × (lookup b.repository_id w'.db.bindings ≡ some b)
  unfolding upsert_binding
  upsert_binding-eq-ok b w h =
      let (git_kept, ran) = on_db-eq-ok host (upsert_binding b) w h in
      let (left, e) = statement-eq-ok _ w.db ran in
      elim (if-eq
        (is_none (lookup b.repository_id w.db.repositories)
          || is_none (lookup b.transport_profile_id w.db.profiles))
        _ _ e) [
          | inl t ↦ let wrong = t.1 in cc
          | inr f ↦ (
            git_kept,
            ap (λ r. lookup b.repository_id (r.1).bindings) (sym f.1)
                ∙ lookup-insert_self b.repository_id b w.db.bindings,
          )
        ]

  pub repository_path-eq-ok :
      (repository : Repository) {path : Text}
      → repository_path host repository ≡ ok path
      → path ≡ repository.canonical_path
  unfolding repository_path
  repository_path-eq-ok repository h =
      elim (if-eq (host.is_absolute repository.canonical_path) _ _ h) [
        | inl t ↦ sym (ok_injective t.1)
        | inr f ↦ let wrong = f.1 in cc
      ]

  pub write_with_compensation-eq-ok :
      (at : Moment) (repository : Repository) (original target : Snapshot) (failed_step : Text)
      (w : World G) {w' : World G}
      → write_with_compensation host at repository original target failed_step w ≡ (ok tt, w')
      → (w'.db ≡ w.db) × WasRead host repository.canonical_path target w'.git
  unfolding write_with_compensation
  write_with_compensation-eq-ok at repository original target failed_step w {w'} h =
      let (path, w₁, located, rest) =
        bind-eq-ok (lift host (repository_path host repository) w) _ h in
      let (path_eq, here) = lift-eq-ok host (repository_path host repository) w located in
      let (wrote, u) =
        or_compensate-eq-ok host at repository target original failed_step tt
          (on_git host (write_managed_snapshot host path target) w₁) rest in
      let (written, kept) = on_git-eq-ok host (write_managed_snapshot host path target) w₁ wrote in
      (
        kept ∙ sym (ap (λ w. w.db) here),
        subst (λ p. WasRead host p target w'.git) (repository_path-eq-ok repository path_eq)
            (write_managed_snapshot-WasRead host path target w₁.git written),
      )

  -- What a successful bind leaves, from the preparation on.
  pub record IsBound (repository : Repository) (b : RepositoryTransportBinding) (w : World G)
      : Type 0 where
    pub same_repository : b.repository_id ≡ repository.id
    pub stored : lookup repository.id w.db.bindings ≡ some b
    pub applied : WasRead host repository.canonical_path b.applied_config w.git
    pub hashed : b.applied_config_hash ≡ sha256 host b.applied_config
    pub starts_clean : b.drift_status ≡ clean

  new_binding-IsBound :
      (at : Moment) (repository : Repository) (profile : TransportProfile) (desired : Snapshot)
      (prepared : Prepared) (w : World G)
      → lookup repository.id w.db.bindings
        ≡ some (new_binding host at repository profile desired prepared)
      → WasRead host repository.canonical_path desired w.git
      → IsBound repository (new_binding host at repository profile desired prepared) w
  new_binding-IsBound at repository profile desired prepared w stored applied = record {
    same_repository = refl;
    stored = stored;
    applied = applied;
    hashed = refl;
    starts_clean = refl;
  }

  pub apply_binding-IsBound :
      (at : Moment) (repository : Repository) (profile : TransportProfile) (desired : Snapshot)
      (prepared : Prepared) (w : World G) {b : RepositoryTransportBinding} {w' : World G}
      → apply_binding host at repository profile desired prepared w ≡ (ok b, w')
      → IsBound repository b w' × (b.before_config ≡ prepared.before_config)
  unfolding apply_binding
  apply_binding-IsBound at repository profile desired prepared w {b} {w'} h =
      let (u, w₁, wrote, rest) =
        bind-eq-ok
          (write_with_compensation host at repository prepared.current_config desired
            (codes "applyConfig") w)
          _ h in
      let (kept, was) =
        write_with_compensation-eq-ok at repository prepared.current_config desired
          (codes "applyConfig") w wrote in
      let row = new_binding host at repository profile desired prepared in
      let (saved, value) =
        or_compensate-eq-ok host at repository desired prepared.current_config (codes "saveBinding")
          row (on_db host (upsert_binding row) w₁) rest in
      let (git_kept, stored) = upsert_binding-eq-ok row w₁ saved in
      subst (λ r. IsBound repository r w' × (r.before_config ≡ prepared.before_config)) value
        (
          new_binding-IsBound at repository profile desired prepared w' stored
              (subst (WasRead host repository.canonical_path desired) (sym git_kept) was),
          refl,
        )
