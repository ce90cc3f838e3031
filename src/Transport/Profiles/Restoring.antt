-- ===== src/Transport/Profiles/Restoring.antt =====
-- Binds and the unbind after them, in git/transport/profile_service.rs: what the repository's
-- settings are in the end.
use git_ramus.Base.Tests.{
  ◌≡◌, refl, Bool, true, false, not, ◌&&◌, Option, none, some, arith, if-eq, is_some, sym, ◌∙◌, ap,
  inl, inr,
}
use mathlib.Core.Path.{subst}
use git_ramus.Base.Text.{Text, codes, is_empty, text_eq_iff}
use git_ramus.Base.Table.{lookup, remove, lookup-remove}
use git_ramus.Base.Error.{ok, bind-eq-ok, ok_injective}
use git_ramus.Transport.Url.{kind_eq}
use git_ramus.Transport.Config.{Host, read_managed_snapshot}
use git_ramus.Transport.Config.Parse.{Snapshot, snapshot_eq, ensure_restorable_snapshot}
use git_ramus.Transport.Config.Plan.{TransportProfile}
use git_ramus.Transport.Config.Writing.{WasRead}
use git_ramus.Transport.Profiles.Store.{
  TransportDb, Repository, RepositoryTransportBinding, with_faults, with_bindings, delete_binding,
  repository_has_unresolved_repair, has_unresolved, get_binding, mark_binding_drifted,
  ensure_changed,
}
use git_ramus.Transport.Profiles.Service.{
  World, Moment, on_db, on_git, lift, repository_path, required_profile, primary_remote,
  desired_snapshot, write_with_compensation,
}
use git_ramus.Transport.Profiles.{
  Prepared, reject, prepare, prepare_bind, prepare_rebind, bind_desired, bind_repository_locked,
  is_drifted, restore_before, required_binding, bound_transport, unbind_live, unbind_trusted,
  resolve_drift,
}
use git_ramus.Transport.Profiles.Steps.{
  IsQuiet, IsQuiet-trans, statement-eq-ok, on_db-eq-ok, query-eq-ok, required_profile-IsQuiet,
  primary_remote-IsQuiet, get_binding-eq-ok, lift-eq-ok, on_git-eq-ok, or_compensate-eq-ok,
}
use git_ramus.Transport.Profiles.Binding.{
  repository_path-eq-ok, write_with_compensation-eq-ok, IsBound, apply_binding-IsBound,
}

-- The settings from before any binding: those that a binding keeps, or the current ones.
abbrev pub original_settings : Option RepositoryTransportBinding → Snapshot → Snapshot
original_settings none current = current
original_settings (some b) current = b.before_config

-- The update of `delete_binding` that changes a row.
deleted_row :
    (id : Text) (present : Bool) (db : TransportDb) {db' : TransportDb}
    → ensure_changed present
        (codes "repository transport binding")
        id
        (with_bindings db (remove id db.bindings))
        db
      ≡ (ok tt, db')
    → lookup id db'.bindings ≡ none
deleted_row id true db h =
    ap (λ r. lookup id (r.1).bindings) (sym h)
    ∙ lookup-remove id id db.bindings
    ∙ ground (arith, text_eq_iff id id)
deleted_row id false db h = cc

the_binding :
    (id : Text) {found : Option RepositoryTransportBinding} {b c : RepositoryTransportBinding}
    → found ≡ some c
    → required_binding id found ≡ ok b
    → b ≡ c
the_binding id {found} {b} {c} here h =
    sym (ok_injective (subst (λ f. required_binding id f ≡ ok b) here h))

module _ {G : Type 0} (host : Host G) where
  -- The settings kept are those of the binding before, or what a read gave when there was none.
  pub record WereKept (path : Text) (existing : Option RepositoryTransportBinding)
      (before_config : Snapshot) (start : G) : Type 0 where
    pub current : Snapshot
    pub g : G
    pub reads : read_managed_snapshot host path start ≡ (ok current, g)
    pub kept : before_config ≡ original_settings existing current

  prepare-before :
      (at : Moment) (repository : Repository) (path : Text) (desired : Snapshot)
      (replace_existing : Bool) (existing : Option RepositoryTransportBinding) (w : World G)
      {p : Prepared} {w' : World G}
      → prepare host at repository path desired replace_existing existing w ≡ (ok p, w')
      → WereKept path existing p.before_config w.git
  unfolding prepare_bind prepare_rebind
  prepare-before at repository path desired replace_existing none w h =
      let (found, w₁, read, rest) =
        bind-eq-ok (on_git host (read_managed_snapshot host path) w) _ h in
      let (same, kept) = on_git-eq-ok host (read_managed_snapshot host path) w read in
      let (u, w₂, restorable, last) =
        bind-eq-ok (lift host (ensure_restorable_snapshot host.parse_url found) w₁) _ rest in
      elim (if-eq
        (not (is_empty found) && (not (snapshot_eq found desired) && not replace_existing)) _ _
        last) [
          | inl t ↦ let wrong = t.1 in cc
          | inr f ↦ record {
            current = found;
            g = w₁.git;
            reads = same;
            kept = ap (λ q. q.before_config) (sym (ok_injective (λ i. (f.1 i).0)));
          }
        ]
  prepare-before at repository path desired replace_existing (some b) w h =
      let (found, w₁, read, rest) =
        bind-eq-ok (on_git host (read_managed_snapshot host path) w) _ h in
      let (same, kept) = on_git-eq-ok host (read_managed_snapshot host path) w read in
      elim (if-eq (is_drifted host found b) _ _ rest) [
        | inl t ↦
            let (u, w₂, marked, last) =
              bind-eq-ok (on_db host (mark_binding_drifted repository.id at.now) w₁) _ t.1 in
            cc
        | inr f ↦
            let (u, w₂, restorable, last) =
              bind-eq-ok (lift host (ensure_restorable_snapshot host.parse_url found) w₁) _ f.1 in
            record {
              current = found;
              g = w₁.git;
              reads = same;
              kept = ap (λ q. q.before_config) (sym (ok_injective (λ i. (last i).0)));
            }
      ]

  moved :
      {path path' : Text} {existing existing' : Option RepositoryTransportBinding}
      {before before' : Snapshot} {g g' : G}
      → path ≡ path'
      → existing ≡ existing'
      → before ≡ before'
      → g ≡ g'
      → WereKept path existing before g
      → WereKept path' existing' before' g'
  moved p e b q =
      subst
        (λ (x : Text × Option RepositoryTransportBinding × Snapshot × G). WereKept x.0 x.1 x.2 x.3)
        (λ i. (p i, e i, b i, q i))

  bind_desired-IsBound :
      (at : Moment) (repository : Repository) (replace_existing : Bool) (profile : TransportProfile)
      (desired : Snapshot) (w : World G) {b : RepositoryTransportBinding} {w' : World G}
      → bind_desired host at repository replace_existing profile desired w ≡ (ok b, w')
      → IsBound host repository b w'
        × WereKept repository.canonical_path
            (lookup repository.id w.db.bindings)
            b.before_config
            w.git
  unfolding bind_desired
  bind_desired-IsBound at repository replace_existing profile desired w {b} h =
      let (path, w₁, located, h₁) =
        bind-eq-ok (lift host (repository_path host repository) w) _ h in
      let (path_eq, here) = lift-eq-ok host (repository_path host repository) w located in
      let (existing, w₂, got, h₂) = bind-eq-ok (on_db host (get_binding repository.id) w₁) _ h₁ in
      let (quiet, found) = get_binding-eq-ok host repository.id w₁ got in
      let (prepared, w₃, ready, h₃) =
        bind-eq-ok (prepare host at repository path desired replace_existing existing w₂) _ h₂ in
      let (u, w₄, restorable, h₄) =
        bind-eq-ok (lift host (ensure_restorable_snapshot host.parse_url desired) w₃) _ h₃ in
      let (bound, kept) = apply_binding-IsBound host at repository profile desired prepared w₄ h₄ in
      let before = prepare-before at repository path desired replace_existing existing w₂ ready in
      (
        bound,
        moved (repository_path-eq-ok host repository path_eq)
            (found ∙ ap (λ w. lookup repository.id w.db.bindings) (sym here)) (sym kept)
            (quiet.git_kept ∙ ap (λ w. w.git) (sym here)) before,
      )

  -- Once a bind has succeeded, its binding is stored as clean under the hash of the settings that it
  -- applied, the repository's settings were last read back as those, and the settings kept to be
  -- restored are those that the binding before it kept, or those that a read of the repository gives
  -- when it had none.
  pub bind_repository_locked-IsBound :
      (at : Moment) (repository : Repository) (profile_id : Text) (replace_existing : Bool)
      (w : World G) {b : RepositoryTransportBinding} {w' : World G}
      → bind_repository_locked host at repository profile_id replace_existing w ≡ (ok b, w')
      → IsBound host repository b w'
        × WereKept repository.canonical_path
            (lookup repository.id w.db.bindings)
            b.before_config
            w.git
  unfolding bind_repository_locked repository_has_unresolved_repair
  bind_repository_locked-IsBound at repository profile_id replace_existing w h =
      let (unresolved, w₁, asked, h₁) =
        bind-eq-ok (on_db host (repository_has_unresolved_repair repository.id) w) _ h in
      let (quiet₁, value) =
        query-eq-ok host (λ db. has_unresolved repository.id db.repairs) w asked in
      elim (if-eq unresolved _ _ h₁) [
        | inl t ↦ let wrong = t.1 in cc
        | inr f ↦
            let (profile, w₂, got, h₂) = bind-eq-ok (required_profile host profile_id w₁) _ f.1 in
            let (remote, w₃, chosen, h₃) = bind-eq-ok (primary_remote host repository w₂) _ h₂ in
            let quiet : IsQuiet w w₃ = IsQuiet-trans host quiet₁ (
              IsQuiet-trans host (required_profile-IsQuiet host profile_id w₁ got)
                (primary_remote-IsQuiet host repository w₂ chosen)) in
            elim (if-eq (not (kind_eq profile.kind remote.kind)) _ _ h₃) [
              | inl t ↦ let wrong = t.1 in cc
              | inr k ↦
                  let (desired, w₄, planned, h₄) =
                    bind-eq-ok (lift host (desired_snapshot host profile remote) w₃) _ k.1 in
                  let (plan_eq, here) =
                    lift-eq-ok host (desired_snapshot host profile remote) w₃ planned in
                  let (bound, kept) =
                    bind_desired-IsBound at repository replace_existing profile desired w₄ h₄ in
                  (
                    bound,
                    moved refl
                        (ap (λ w. lookup repository.id w.db.bindings) (sym here)
                          ∙ ap (λ db. lookup repository.id db.bindings) quiet.rows_kept)
                        refl (ap (λ w. w.git) (sym here) ∙ quiet.git_kept) kept,
                  )
            ]
      ]

  delete_binding-eq-ok :
      (id : Text) (w : World G) {w' : World G}
      → on_db host (delete_binding id) w ≡ (ok tt, w')
      → (w'.git ≡ w.git) × (lookup id w'.db.bindings ≡ none)
  unfolding delete_binding
  delete_binding-eq-ok id w {w'} h =
      let (git_kept, ran) = on_db-eq-ok host (delete_binding id) w h in
      let (left, e) = statement-eq-ok _ w.db ran in
      (git_kept, deleted_row id (is_some (lookup id w.db.bindings)) (with_faults w.db left) e)

  restore_before-eq-ok :
      (at : Moment) (repository : Repository) (binding : RepositoryTransportBinding)
      (live : Snapshot) (w : World G) {w' : World G}
      → restore_before host at repository binding live w ≡ (ok tt, w')
      → WasRead host repository.canonical_path binding.before_config w'.git
        × (lookup repository.id w'.db.bindings ≡ none)
  unfolding restore_before
  restore_before-eq-ok at repository binding live w h =
      let (u, w₁, wrote, rest) =
        bind-eq-ok
          (write_with_compensation host at repository live binding.before_config
            (codes "restoreConfig") w)
          _ h in
      let (kept, was) =
        write_with_compensation-eq-ok host at repository live binding.before_config
          (codes "restoreConfig") w wrote in
      let (deleted, value) =
        or_compensate-eq-ok host at repository binding.before_config live (codes "deleteBinding") tt
          (on_db host (delete_binding repository.id) w₁) rest in
      let (git_kept, gone) = delete_binding-eq-ok repository.id w₁ deleted in
      (
        subst (WasRead host repository.canonical_path binding.before_config) (sym git_kept) was,
        gone,
      )

  -- A successful unbind that rejects drift has read back the settings kept by the binding, and
  -- removed it.
  pub unbind_trusted-restores :
      (at : Moment) (repository : Repository) (w : World G) {b : RepositoryTransportBinding}
      {w' : World G}
      → lookup repository.id w.db.bindings ≡ some b
      → unbind_trusted host at repository reject w ≡ (ok tt, w')
      → WasRead host repository.canonical_path b.before_config w'.git
        × (lookup repository.id w'.db.bindings ≡ none)
  unfolding unbind_trusted bound_transport unbind_live resolve_drift
  unbind_trusted-restores at repository w {b} {w'} present h =
      let (binding, w₁, bound, h₁) = bind-eq-ok (bound_transport host repository.id w) _ h in
      let (found, w₀, got, h₀) = bind-eq-ok (on_db host (get_binding repository.id) w) _ bound in
      let (quiet, row) = get_binding-eq-ok host repository.id w got in
      let same : binding ≡ b = the_binding repository.id (row ∙ present) (λ i. (h₀ i).0) in
      let (path, w₂, located, h₂) =
        bind-eq-ok (lift host (repository_path host repository) w₁) _ h₁ in
      let (live, w₃, read, h₃) =
        bind-eq-ok (on_git host (read_managed_snapshot host path) w₂) _ h₂ in
      elim (if-eq (is_drifted host live binding) _ _ h₃) [
        | inl t ↦
            let (u, w₄, marked, last) =
              bind-eq-ok (on_db host (mark_binding_drifted repository.id at.now) w₃) _ t.1 in
            cc
        | inr f ↦
            let (was, gone) = restore_before-eq-ok at repository binding live w₃ f.1 in
            (
              subst (λ x. WasRead host repository.canonical_path x w'.git)
                  (ap (λ x. x.before_config) same) was,
              gone,
            )
      ]
