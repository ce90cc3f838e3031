-- ===== src/Transport/Profiles/Refusals.antt =====
-- What `bind_repository` of git/transport/profile_service.rs refuses, and that it then leaves the
-- repository alone.
use git_ramus.Base.Tests.{
  ◌≡◌, refl, Bool, true, false, Option, none, some, List, [], ◌∷◌, ap, sym, ◌∙◌, Bool-cases, if-eq,
  inl, inr,
}
use mathlib.Core.Path.{subst}
use git_ramus.Base.Text.{Text}
use git_ramus.Base.Table.{lookup}
use git_ramus.Base.Error.{Result, ok, err, is_ok, M, bind_case, bind-eq-ok, ok_injective}
use git_ramus.Transport.Config.{Host}
use git_ramus.Transport.Profiles.Store.{
  TransportDb, Repository, with_faults, attempt, statement, query, has_unresolved,
  repository_has_unresolved_repair, get_repository, found_repository, is_trusted,
}
use git_ramus.Transport.Profiles.Service.{World, Moment, on_db, trusted_repository}
use git_ramus.Transport.Profiles.{bind_repository_locked, bind_repository}
use git_ramus.Transport.Profiles.Steps.{
  IsQuiet, IsQuiet-refl, IsQuiet-trans, on_db-eq-ok, query-eq-ok,
}
use git_ramus.Transport.Profiles.Repairs.{BindingCall, binding_run, run-Keeps}

found-id :
    (id : Text) (path : Option Text) {r : Repository} → found_repository id path ≡ ok r → r.id ≡ id
found-id id none h = cc
found-id id (some path) h = ap (λ r. r.id) (sym (ok_injective h))

pure-state :
    {A B : Type 0} (m : Result A × TransportDb) (g : A → Result B)
    → (bind_case m λ a e. (g a, e)).1 ≡ m.1
pure-state (ok a, e) g = refl
pure-state (err f, e) g = refl

query-state :
    {A : Type 0} (f : TransportDb → A) (db : TransportDb)
    → (left : List Bool) × ((query f db).1 ≡ with_faults db left)
unfolding query statement
query-state f db = go db.faults
  where
    go :
        (faults : List Bool)
        → (left : List Bool) × ((attempt faults db λ e. (ok (f e), e)).1 ≡ with_faults db left)
    go [] = (db.faults, refl)
    go (true ∷ faults) = (faults, refl)
    go (false ∷ faults) = (faults, refl)

module _ {G : Type 0} (host : Host G) where
  -- An error, the repositories on disk and every table as before.
  abbrev pub IsRefused : {A : Type 0} → World G → Result A × World G → Type 0
  IsRefused w m = (is_ok m.0 ≡ false) × IsQuiet w m.1

  bind-IsQuiet :
      {A B : Type 0} (w : World G) (m : Result A × World G) (f : A → M (World G) B)
      → IsQuiet w m.1
      → ((a : A) (v : World G) → IsQuiet v (f a v).1)
      → IsQuiet w (bind_case m f).1
  bind-IsQuiet w (ok a, v) f first second = IsQuiet-trans host first (second a v)
  bind-IsQuiet w (err e, v) f first second = first

  bind-IsRefused :
      {A B : Type 0} (w : World G) (m : Result A × World G) (f : A → M (World G) B)
      → IsQuiet w m.1
      → ((a : A) (v : World G) → m ≡ (ok a, v) → IsRefused v (f a v))
      → IsRefused w (bind_case m f)
  bind-IsRefused w (ok a, v) f first second =
      let (fails, quiet) = second a v refl in (fails, IsQuiet-trans host first quiet)
  bind-IsRefused w (err e, v) f first second = (refl, first)

  query-IsQuiet :
      {A : Type 0} (f : TransportDb → A) (w : World G) → IsQuiet w (on_db host (query f) w).1
  query-IsQuiet f w =
      let (left, same) = query-state f w.db in
      record { git_kept = refl; faults = left; rows_kept = same }

  get_repository-IsQuiet :
      (id : Text) (w : World G) → IsQuiet w (on_db host (get_repository id) w).1
  unfolding get_repository
  get_repository-IsQuiet id w =
      let (left, same) = query-state (λ db. lookup id db.repositories) w.db in
      record {
        git_kept = refl;
        faults = left;
        rows_kept =
            pure-state (query (λ db. lookup id db.repositories) w.db) (found_repository id) ∙ same;
      }

  trusted_repository-IsQuiet :
      (id : Text) (w : World G) → IsQuiet w (trusted_repository host id w).1
  unfolding trusted_repository is_trusted
  trusted_repository-IsQuiet id w =
      bind-IsQuiet w (on_db host (get_repository id) w) _ (get_repository-IsQuiet id w) λ r v.
        bind-IsQuiet v (on_db host (is_trusted id) v) _ (query-IsQuiet _ v) λ trusted u.
          elim (Bool-cases trusted) [
            | inl t ↦ rw t (IsQuiet-refl host u)
            | inr f ↦ rw f (IsQuiet-refl host u)
          ]

  trusted_repository-id :
      (id : Text) (w : World G) {r : Repository} {v : World G}
      → trusted_repository host id w ≡ (ok r, v)
      → r.id ≡ id
  unfolding trusted_repository get_repository
  trusted_repository-id id w h =
      let (q, w₁, got, h₁) = bind-eq-ok (on_db host (get_repository id) w) _ h in
      let (trusted, w₂, asked, h₂) = bind-eq-ok (on_db host (is_trusted id) w₁) _ h₁ in
      let (git_kept, ran) = on_db-eq-ok host (get_repository id) w got in
      let (path, db, queried, last) =
        bind-eq-ok (query (λ db. lookup id db.repositories) w.db) _ ran in
      elim (if-eq trusted _ _ h₂) [
        | inl t ↦
            let same : q ≡ _ = ok_injective (ap (λ x. x.0) t.1) in
            ap (λ x. x.id) (sym same) ∙ found-id id path (ap (λ x. x.0) last)
        | inr f ↦ let wrong = f.1 in cc
      ]

  bind_repository-IsRefused :
      (at : Moment) (id profile_id : Text) (replace_existing : Bool) (w : World G)
      → has_unresolved id w.db.repairs ≡ true
      → IsRefused w (bind_repository host at id profile_id replace_existing w)
  unfolding bind_repository bind_repository_locked repository_has_unresolved_repair
  bind_repository-IsRefused at id profile_id replace_existing w pending =
      bind-IsRefused w (trusted_repository host id w) _ (trusted_repository-IsQuiet id w)
        λ r v trusted.
          let quiet : IsQuiet w v =
            subst (λ m. IsQuiet w m.1) trusted (trusted_repository-IsQuiet id w) in
          bind-IsRefused v (on_db host (repository_has_unresolved_repair r.id) v) _
            (query-IsQuiet _ v)
            λ unresolved u asked.
              let (quiet₂, value) =
                query-eq-ok host (λ db. has_unresolved r.id db.repairs) v asked in
              let repairs : u.db.repairs ≡ w.db.repairs =
                ap (λ db. db.repairs) quiet₂.rows_kept ∙ ap (λ db. db.repairs) quiet.rows_kept in
              let blocked : unresolved ≡ true =
                value
                ∙ ap (λ t. has_unresolved r.id t) repairs
                ∙ ap (λ i. has_unresolved i w.db.repairs) (trusted_repository-id id w trusted)
                ∙ pending in
              rw blocked (refl, IsQuiet-refl host u)

  -- While a repository has an unresolved repair, after any further binds and unbinds of any
  -- repositories, and whatever Git and SQLite do, every bind of it fails, and it leaves the
  -- repositories on disk and all tables as they are.
  pub repair_blocks_bind :
      (calls : List BindingCall) (at : Moment) (id profile_id : Text) (replace_existing : Bool)
      (w : World G)
      → has_unresolved id w.db.repairs ≡ true
      → IsRefused
          (binding_run host calls w)
          (bind_repository host at id profile_id replace_existing (binding_run host calls w))
  repair_blocks_bind calls at id profile_id replace_existing w pending =
      bind_repository-IsRefused at id profile_id replace_existing (binding_run host calls w)
        (run-Keeps host calls w id pending)
