-- ===== src/Transport/Profiles/Sequences.antt =====
-- Any series of binds of a repository and the unbind after it, in git/transport/profile_service.rs.
use git_ramus.Base.Tests.{◌≡◌, Bool, none, some, List, [], ◌∷◌, sym, ◌∙◌, ap}
use mathlib.Core.Path.{subst}
use git_ramus.Base.Text.{Text}
use git_ramus.Base.Table.{lookup}
use git_ramus.Base.Error.{ok, bind_case, bind-eq-ok, M, ok_injective}
use git_ramus.Transport.Config.{Host, read_managed_snapshot}
use git_ramus.Transport.Config.Parse.{Snapshot}
use git_ramus.Transport.Config.Writing.{WasRead}
use git_ramus.Transport.Profiles.Store.{Repository, RepositoryTransportBinding}
use git_ramus.Transport.Profiles.Service.{World, Moment}
use git_ramus.Transport.Profiles.{reject, bind_repository_locked, unbind_trusted}
use git_ramus.Transport.Profiles.Restoring.{
  original_settings, WereKept, bind_repository_locked-IsBound, unbind_trusted-restores,
}

-- One call of `bind_repository` for a repository.
pub record BindCall : Type 0 where
  pub at : Moment
  pub profile_id : Text
  pub replace_existing : Bool

module _ {G : Type 0} (host : Host G) (repository : Repository) where
  -- A first bind, and further binds that all succeed; a caller stops at the first error.
  unfoldable pub run_binds : BindCall → List BindCall → M (World G) RepositoryTransportBinding
  run_binds c [] w = bind_repository_locked host c.at repository c.profile_id c.replace_existing w
  run_binds c (d ∷ rest) w =
      bind_case (bind_repository_locked host c.at repository c.profile_id c.replace_existing w)
        λ _ w. run_binds d rest w

  abbrev Kept : World G → RepositoryTransportBinding → World G → Type 0
  Kept w b w' =
      WereKept host repository.canonical_path (lookup repository.id w.db.bindings) b.before_config
        w.git
      × (lookup repository.id w'.db.bindings ≡ some b)

  Kept-trans :
      {a b : RepositoryTransportBinding} (u v w : World G) → Kept u a v → Kept v b w → Kept u b w
  Kept-trans u v w (before, stored) (again, bound) = (
    record {
      current = before.current;
      g = before.g;
      reads = before.reads;
      kept = again.kept ∙ ap (λ e. original_settings e again.current) stored ∙ before.kept;
    },
    bound,
  )

  bind-Kept :
      (c : BindCall) (w : World G) {b : RepositoryTransportBinding} {w' : World G}
      → bind_repository_locked host c.at repository c.profile_id c.replace_existing w ≡ (ok b, w')
      → Kept w b w'
  bind-Kept c w h =
      let (bound, kept) =
        bind_repository_locked-IsBound host c.at repository c.profile_id c.replace_existing w h in
      (kept, bound.stored)

  run_binds-Kept :
      (c : BindCall) (rest : List BindCall) (w : World G) {b : RepositoryTransportBinding}
      {w' : World G}
      → run_binds c rest w ≡ (ok b, w')
      → Kept w b w'
  unfolding run_binds
  run_binds-Kept c [] w h = bind-Kept c w h
  run_binds-Kept c (d ∷ rest) w {b} {w'} h =
      let (first, w₁, ran, last) =
        bind-eq-ok (bind_repository_locked host c.at repository c.profile_id c.replace_existing w) _
          h in
      Kept-trans w w₁ w' (bind-Kept c w ran) (run_binds-Kept d rest w₁ last)

  -- Bind a repository that has no binding, and rebind it any number of times, to any profiles, all
  -- with success. Whatever then happens to the repository on disk, an unbind that rejects drift and
  -- succeeds has removed the binding, and the last thing it read back were the settings that the
  -- repository had before the first bind.
  pub run_binds-restored :
      (c : BindCall) (rest : List BindCall) (w : World G) {b : RepositoryTransportBinding}
      {w₁ : World G} (at : Moment) (git_later : G) {w₂ : World G} {current : Snapshot} {g : G}
      → lookup repository.id w.db.bindings ≡ none
      → read_managed_snapshot host repository.canonical_path w.git ≡ (ok current, g)
      → run_binds c rest w ≡ (ok b, w₁)
      → unbind_trusted host at repository reject (record { git = git_later; db = w₁.db })
        ≡ (ok tt, w₂)
      → WasRead host repository.canonical_path current w₂.git
        × (lookup repository.id w₂.db.bindings ≡ none)
  run_binds-restored c rest w {b} {w₁} at git_later {w₂} {current} fresh reads bound unbound =
      let (kept, stored) = run_binds-Kept c rest w bound in
      let (was, gone) =
        unbind_trusted-restores host at repository (record { git = git_later; db = w₁.db }) stored
          unbound in
      let same : kept.current ≡ current = ok_injective (λ i. ((sym kept.reads ∙ reads) i).0) in
      (
        subst (λ s. WasRead host repository.canonical_path s w₂.git)
            (kept.kept ∙ ap (λ e. original_settings e kept.current) fresh ∙ same) was,
        gone,
      )
