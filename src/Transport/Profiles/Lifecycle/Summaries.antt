-- ===== src/Transport/Profiles/Lifecycle/Summaries.antt =====
-- git/transport/profile_service.rs, `list_profiles`, and what its summaries say of a deletion.
use git_ramus.Base.Tests.{
  ◌≡◌, ◌↔◌, refl, Bool, true, false, some, List, [], ◌∷◌, ◌==◌, map, arith, sym, ap, ◌∙◌, inl, inr,
  is_some, Option-cases, ==_iff,
}
use mathlib.Core.List.{Memᴰ}
use git_ramus.Base.Lists.{length, count_if}
use git_ramus.Base.Text.{Text, text_eq_iff}
use git_ramus.Base.Order.{set_insert, mem-order_by}
use git_ramus.Base.Table.{Table, lookup}
use git_ramus.Base.Error.{ok, is_ok, ok_injective, M}
use mathlib.Core.Path.{subst}
use git_ramus.Transport.Config.{Host}
use git_ramus.Transport.Config.Plan.{TransportProfile}
use git_ramus.Transport.Profiles.Store.{
  attempt, RepositoryTransportBinding, statement, query, bound_repositories, get_profile,
  list_bindings_for_profile, profile_deletion_impact, delete_unbound_profile,
}
use git_ramus.Transport.Profiles.Store.Listing.{
  TransportProfileSummary, map_profile, profile_before, summary_of, ordered_profiles, bound_count,
  list_profile_summaries,
}
use git_ramus.Transport.Profiles.Service.{World, Moment, on_db, required_profile}
use git_ramus.Transport.Profiles.Lifecycle.{covers, each_resolution, delete_profile}

set_insert-occupied : (k : Text) (ks : List Text) → (length (set_insert k ks) == 0) ≡ false
unfolding set_insert
set_insert-occupied k [] = refl
set_insert-occupied k (j ∷ js) = ground arith

-- The count of the listing is 0 exactly when no repository stands in the way of a deletion.
bound_count-length :
    (id : Text) (bindings : Table RepositoryTransportBinding)
    → (bound_count id bindings == 0) ≡ (length (bound_repositories id bindings) == 0)
unfolding bound_count bound_repositories count_if
bound_count-length id [] = refl
bound_count-length id ((k, b) ∷ rest) =
    ground (arith, bound_count-length id rest, set_insert-occupied k (bound_repositories id rest))

profile_row :
    (p : TransportProfile) (profiles : Table TransportProfile)
    → Memᴰ p (map map_profile profiles)
    → is_some (lookup p.id profiles) ≡ true
unfolding lookup
profile_row p [] h = elim h [ ]
profile_row p ((id, row) ∷ rest) (Memᴰ.head e) =
    let same : p.id ≡ id = ap (λ q. q.id) e in ground (arith, text_eq_iff id p.id)
profile_row p ((id, row) ∷ rest) (Memᴰ.tail h) = ground (arith, profile_row p rest h)

summarised :
    (is_file : Text → Bool) (bindings : Table RepositoryTransportBinding)
    (s : TransportProfileSummary) (ps : List TransportProfile)
    → Memᴰ s (map (summary_of is_file bindings) ps)
    → (p : TransportProfile) × Memᴰ p ps × (s ≡ summary_of is_file bindings p)
summarised is_file bindings s [] h = elim h [ ]
summarised is_file bindings s (p ∷ ps) (Memᴰ.head e) = (p, Memᴰ.head refl, e)
summarised is_file bindings s (p ∷ ps) (Memᴰ.tail h) =
    let (q, found, e) = summarised is_file bindings s ps h in (q, Memᴰ.tail found, e)

module _ {G : Type 0} (host : Host G) where
  unfoldable pub list_profiles : M (World G) (List TransportProfileSummary)
  unfolding list_profile_summaries
  list_profiles w = on_db host (list_profile_summaries host.is_file) w

  -- With no resolutions, a deletion is accepted when nothing is bound to the profile.
  deletion_by_impact :
      (at : Moment) (moments : Text → Moment) (id : Text) (w : World G) (row : TransportProfile)
      (impact : List Text)
      → w.db.faults ≡ []
      → lookup id w.db.profiles ≡ some row
      → bound_repositories id w.db.bindings ≡ impact
      → is_ok (delete_profile host at moments id [] w).0 ≡ (length impact == 0)
  unfolding delete_profile required_profile get_profile query statement profile_deletion_impact
      list_bindings_for_profile covers each_resolution delete_unbound_profile
  deletion_by_impact at moments id w row [] sound found bound =
      rw (sound, found, found, bound, bound, found) refl
  deletion_by_impact at moments id w row (r ∷ rest) sound found bound =
      let occupied : (length (r ∷ rest) == 0) ≡ false = ground arith in
      rw (sound, found, found, bound) (sym occupied)

  -- With no resolutions, and a database that refuses no statement, a listed profile can be deleted
  -- exactly when its summary counts no bound repository.
  pub listed-delete_profile :
      (at : Moment) (moments : Text → Moment) (w : World G) (shown : List TransportProfileSummary)
      (s : TransportProfileSummary)
      → w.db.faults ≡ []
      → (list_profiles w).0 ≡ ok shown
      → Memᴰ s shown
      → (is_ok (delete_profile host at moments s.id [] w).0 ≡ true) ↔ (s.bound_repository_count ≡ 0)
  unfolding list_profiles list_profile_summaries query statement ordered_profiles
  listed-delete_profile at moments w shown s sound listed member =
      let all_shown : map (summary_of host.is_file w.db.bindings) (ordered_profiles w.db) ≡ shown =
        ok_injective (
          subst
            (λ faults.
              (attempt faults w.db
                λ db. (ok (map (summary_of host.is_file db.bindings) (ordered_profiles db)), db)).0
              ≡ ok shown)
            sound listed) in
      let (p, stored, same) =
        summarised host.is_file w.db.bindings s (ordered_profiles w.db)
          (subst (Memᴰ s) (sym all_shown) member) in
      let present = profile_row p w.db.profiles (mem-order_by profile_before p _ stored) in
      let predicted : is_ok (delete_profile host at moments p.id [] w).0
          ≡ (bound_count p.id w.db.bindings == 0) =
        elim (Option-cases (lookup p.id w.db.profiles)) [
          | inl missing ↦ cc
          | inr (row, found) ↦
              deletion_by_impact at moments p.id w row (bound_repositories p.id w.db.bindings) sound
                found refl
              ∙ sym (bound_count-length p.id w.db.bindings)
        ] in
      subst
        (λ t.
          (is_ok (delete_profile host at moments t.id [] w).0 ≡ true)
          ↔ (t.bound_repository_count ≡ 0))
        (sym same) (rw predicted (==_iff (bound_count p.id w.db.bindings) 0))
