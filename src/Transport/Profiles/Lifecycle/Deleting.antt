-- ===== src/Transport/Profiles/Lifecycle/Deleting.antt =====
-- Deleting a Transport profile, in git/transport/profile_service.rs.
use git_ramus.Base.Tests.{
  Bool-cases, map, ◌||◌, and_iff, ◌≡◌, ◌≢◌, refl, Bool, true, false, not, none, List, [], ◌∷◌, sym,
  ◌∙◌, ap, arith, if-eq, inl, inr, ltb, is_none, not-false,
}
use git_ramus.Base.Lists.{length, any, all}
use git_ramus.Base.Text.{Text, codes, text_eq, text_eq_iff, text_eq_refl}
use git_ramus.Base.Order.{set_insert, set_extend}
use git_ramus.Base.Table.{Table, lookup, remove, lookup-remove}
use git_ramus.Base.Error.{ok, bind-eq-ok, M}
use git_ramus.Transport.Config.{Host}
use git_ramus.Transport.Config.Writing.{values_eq_iff}
use git_ramus.Transport.Config.Plan.{TransportProfile}
use git_ramus.Transport.Profiles.Store.{
  TransportDb, RepositoryTransportBinding, bound_repositories, delete_unbound_profile,
  profile_deletion_impact, get_profile, list_bindings_for_profile, with_faults, with_profiles,
  ensure_changed,
}
use git_ramus.Transport.Profiles.Service.{World, Moment, on_db, required_profile}
use git_ramus.Transport.Profiles.Steps.{
  on_db-eq-ok, statement-eq-ok, query-eq-ok, required_profile-IsQuiet,
}
use git_ramus.Transport.Profiles.Lifecycle.{
  ProfileDeletionResolution, repository_id_of, covers, each_resolution, validate_resolution,
  apply_resolution, delete_profile,
}

set_insert-nonempty : (k : Text) (ks : List Text) → set_insert k ks ≢ []
unfolding set_insert
set_insert-nonempty k [] h = cc
set_insert-nonempty k (j ∷ js) h = ground arith

abbrev pub is_bound_to : Text → Text × RepositoryTransportBinding → Bool
is_bound_to profile_id row = text_eq row.1.transport_profile_id profile_id

-- No binding is to the profile.
unfoldable pub none_bound_to : Text → Table RepositoryTransportBinding → Bool
unfolding all text_eq
none_bound_to profile_id = all (λ row. not (is_bound_to profile_id row))

-- Each repository that is bound to the profile is one of these.
unfoldable pub all_bound_among : Text → List Text → Table RepositoryTransportBinding → Bool
unfolding all any text_eq
all_bound_among profile_id ids =
    all (λ row. not (is_bound_to profile_id row) || any (text_eq row.0) ids)

bound_repositories-none :
    (profile_id : Text) (t : Table RepositoryTransportBinding)
    → bound_repositories profile_id t ≡ []
    → none_bound_to profile_id t ≡ true
unfolding bound_repositories none_bound_to all
bound_repositories-none profile_id [] h = refl
bound_repositories-none profile_id ((j, c) ∷ rest) h =
    elim (if-eq (text_eq c.transport_profile_id profile_id) _ _ h) [
      | inl t ↦ absurd (set_insert-nonempty j (bound_repositories profile_id rest) t.1)
      | inr f ↦ rw f.0 (bound_repositories-none profile_id rest f.1)
    ]

any-set_insert :
    (x k : Text) (ks : List Text)
    → any (text_eq x) (set_insert k ks) ≡ (text_eq x k || any (text_eq x) ks)
unfolding any set_insert
any-set_insert x k [] = refl
any-set_insert x k (j ∷ js) =
    ground (arith, any-set_insert x k js, text_eq_iff j k, text_eq_iff x j, text_eq_iff x k)

any-set_extend :
    (x : Text) (set ks : List Text)
    → any (text_eq x) (set_extend set ks) ≡ (any (text_eq x) set || any (text_eq x) ks)
unfolding any set_extend
any-set_extend x set [] = ground arith
any-set_extend x set (k ∷ ks) =
    ground (arith, any-set_extend x (set_insert k set) ks, any-set_insert x k set)

bound_among :
    (profile_id : Text) (ids : List Text) (t : Table RepositoryTransportBinding)
    → ((x : Text)
        → any (text_eq x) (bound_repositories profile_id t) ≡ true
        → any (text_eq x) ids ≡ true)
    → all_bound_among profile_id ids t ≡ true
unfolding bound_repositories all_bound_among all
bound_among profile_id ids [] among = refl
bound_among profile_id ids ((j, c) ∷ rest) among =
    let others = bound_repositories profile_id rest in
    elim (Bool-cases (text_eq c.transport_profile_id profile_id)) [
      | inl mine ↦
          let here : any (text_eq j) (set_insert j others) ≡ true =
            any-set_insert j j others ∙ rw (text_eq_refl j) refl in
          let resolved : any (text_eq j) ids ≡ true = among j (rw mine here) in
          rw (mine, resolved)
            (bound_among profile_id ids rest
              (λ x found. among x (rw mine (any-set_insert x j others ∙ rw found (ground arith)))))
      | inr other ↦ rw other (bound_among profile_id ids rest (λ x found. among x (rw other found)))
    ]

covers-all_bound_among :
    (resolutions : List ProfileDeletionResolution) (profile_id : Text)
    (t : Table RepositoryTransportBinding)
    → covers resolutions (bound_repositories profile_id t) ≡ true
    → all_bound_among profile_id (map repository_id_of resolutions) t ≡ true
unfolding covers any
covers-all_bound_among resolutions profile_id t h =
    let ids = map repository_id_of resolutions in
    let same : set_extend [] ids ≡ bound_repositories profile_id t =
      (values_eq_iff (set_extend [] ids) (bound_repositories profile_id t)).0
        ((and_iff _ _).0 h).1 in
    bound_among profile_id ids t
      λ x found. sym (any-set_extend x [] ids) ∙ ap (any (text_eq x)) same ∙ found

deleted_profile :
    (id : Text) (present : Bool) (db : TransportDb) {db' : TransportDb}
    → ensure_changed present
        (codes "transport profile")
        id
        (with_profiles db (remove id db.profiles))
        db
      ≡ (ok tt, db')
    → (lookup id db'.profiles ≡ none) × (db'.bindings ≡ db.bindings)
deleted_profile id true db h = (
  ap (λ r. lookup id (r.1).profiles) (sym h)
      ∙ lookup-remove id id db.profiles
      ∙ ground (arith, text_eq_iff id id),
  ap (λ r. (r.1).bindings) (sym h),
)
deleted_profile id false db h = cc

none_bound : (ids : List Text) → ltb 0 (length ids) ≡ false → ids ≡ []
none_bound [] h = refl
none_bound (id ∷ ids) h = ground arith

module _ {G : Type 0} (host : Host G) where
  on_world :
      {A : Type 0} (m : M TransportDb A) (w : World G) {a : A} {db : TransportDb}
      → m w.db ≡ (ok a, db)
      → on_db host m w ≡ (ok a, record { git = w.git; db = db })
  on_world m w h i = ((h i).0, record { git = w.git; db = (h i).1 })

  delete_unbound_profile-eq-ok :
      (profile_id : Text) (w : World G) {w' : World G}
      → on_db host (delete_unbound_profile profile_id) w ≡ (ok tt, w')
      → (lookup profile_id w'.db.profiles ≡ none)
        × (bound_repositories profile_id w'.db.bindings ≡ [])
  unfolding delete_unbound_profile
  delete_unbound_profile-eq-ok profile_id w h =
      let (git_kept, ran) = on_db-eq-ok host (delete_unbound_profile profile_id) w h in
      let (left, e) = statement-eq-ok _ w.db ran in
      elim (if-eq (ltb 0 (length (bound_repositories profile_id w.db.bindings))) _ _ e) [
        | inl t ↦ let wrong = t.1 in cc
        | inr f ↦
            let (gone, kept) = deleted_profile profile_id _ (with_faults w.db left) f.1 in
            (
              gone,
              ap (bound_repositories profile_id) kept
                  ∙ none_bound (bound_repositories profile_id w.db.bindings) f.0,
            )
      ]

  impact_rows :
      (profile_id : Text) (w : World G) {p : TransportProfile} {w₁ w₂ : World G}
      {impact : List Text}
      → required_profile host profile_id w ≡ (ok p, w₁)
      → on_db host (profile_deletion_impact profile_id) w₁ ≡ (ok impact, w₂)
      → impact ≡ bound_repositories profile_id w.db.bindings
  unfolding profile_deletion_impact get_profile list_bindings_for_profile
  impact_rows profile_id w {p} {w₁} got asked =
      let quiet = required_profile-IsQuiet host profile_id w got in
      let (git_kept, ran) = on_db-eq-ok host (profile_deletion_impact profile_id) w₁ asked in
      let (found, db, queried, rest) = bind-eq-ok (get_profile profile_id w₁.db) _ ran in
      let (quiet₂, row) =
        query-eq-ok host (λ db. lookup profile_id db.profiles) w₁
          (on_world (get_profile profile_id) w₁ queried) in
      elim (if-eq (is_none found) _ _ rest) [
        | inl t ↦ let wrong = t.1 in cc
        | inr f ↦
            let (quiet₃, rows) =
              query-eq-ok host (λ db. bound_repositories profile_id db.bindings)
                (record { git = w₁.git; db = db })
                (on_world (list_bindings_for_profile profile_id) (record { git = w₁.git; db = db })
                  f.1) in
            rows
            ∙ ap (λ d. bound_repositories profile_id d.bindings) quiet₃.rows_kept
            ∙ ap (λ d. bound_repositories profile_id d.bindings) quiet₂.rows_kept
            ∙ ap (λ d. bound_repositories profile_id d.bindings) quiet.rows_kept
      ]

  -- After a successful deletion, the profile is gone and no binding that is left is to it, and every
  -- repository that was bound to it when the deletion began had a resolution among those given.
  pub delete_profile-unbound :
      (at : Moment) (moments : Text → Moment) (profile_id : Text)
      (resolutions : List ProfileDeletionResolution) (w : World G) {w' : World G}
      → delete_profile host at moments profile_id resolutions w ≡ (ok tt, w')
      → (lookup profile_id w'.db.profiles ≡ none)
        × (none_bound_to profile_id w'.db.bindings ≡ true)
        × (all_bound_among profile_id (map repository_id_of resolutions) w.db.bindings ≡ true)
  unfolding delete_profile
  delete_profile-unbound at moments profile_id resolutions w {w'} h =
      let (profile, w₁, got, h₁) = bind-eq-ok (required_profile host profile_id w) _ h in
      let (impact, w₂, asked, h₂) =
        bind-eq-ok (on_db host (profile_deletion_impact profile_id) w₁) _ h₁ in
      elim (if-eq (not (covers resolutions impact)) _ _ h₂) [
        | inl t ↦ let wrong = t.1 in cc
        | inr f ↦
            let (u, w₃, validated, h₃) =
              bind-eq-ok
                (each_resolution host (validate_resolution host at profile_id profile) resolutions
                  impact w₂)
                _ f.1 in
            let (v, w₄, applied, last) =
              bind-eq-ok
                (each_resolution host (λ id. apply_resolution host (moments id) id) resolutions
                  impact w₃)
                _ h₃ in
            let (gone, unbound) = delete_unbound_profile-eq-ok profile_id w₄ last in
            let same = impact_rows profile_id w got asked in
            (
              gone,
              bound_repositories-none profile_id w'.db.bindings unbound,
              covers-all_bound_among resolutions profile_id w.db.bindings
                  (ap (covers resolutions) (sym same) ∙ not-false f.0),
            )
      ]
