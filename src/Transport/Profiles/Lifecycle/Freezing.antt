-- ===== src/Transport/Profiles/Lifecycle/Freezing.antt =====
-- Changing a Transport profile that repositories are bound to, in git/transport/profile_service.rs.
use git_ramus.Base.Tests.{
  ◌≡◌, refl, Bool, true, false, not, Option, none, some, List, ◌∷◌, sym, ◌∙◌, ap, arith, if-eq, inl,
  inr,
}
use git_ramus.Base.Text.{Text, option_text_eq_iff, is_empty}
use git_ramus.Base.Table.{lookup, lookup-insert_self}
use git_ramus.Base.Error.{ok, bind-eq-ok}
use git_ramus.Transport.Url.{ssh, kind_eq}
use git_ramus.Transport.Config.{Host}
use git_ramus.Transport.Config.Plan.{TransportProfile}
use git_ramus.Transport.Profiles.Store.{
  TransportDb, bound_repositories, list_bindings_for_profile, update_profile, update_row,
  updated_profile, satisfies_checks, name_taken, with_faults,
}
use git_ramus.Transport.Profiles.Service.{World, Moment, on_db, lift, required_profile}
use git_ramus.Transport.Profiles.Steps.{
  query-eq-ok, lift-eq-ok, on_db-eq-ok, statement-eq-ok, required_profile-IsQuiet,
  required_profile-found,
}
use git_ramus.Transport.Profiles.Lifecycle.{
  flag_eq, ssh_fields_changed, ensure_unbound, chosen_key, update_ssh_profile, ssh_profile,
  validated_display_name,
}

flag_eq_sound : (o : Option Bool) (b : Bool) → flag_eq o b ≡ true → o ≡ some b
unfolding flag_eq
flag_eq_sound o b h = ground arith

unchanged :
    (p : TransportProfile) (key : Text) (only : Bool)
    → ssh_fields_changed p key only ≡ false
    → (p.ssh_key_path ≡ some key) × (p.ssh_identities_only ≡ some only)
unfolding ssh_fields_changed
unchanged p key only h = (
  (option_text_eq_iff p.ssh_key_path (some key)).0 (ground (arith, h)),
  flag_eq_sound p.ssh_identities_only only (ground (arith, h)),
)

some_injective : {A : Type 0} {a b : A} → some a ≡ some b → a ≡ b
some_injective h = cc

updated_row :
    (q : TransportProfile) (old : Option TransportProfile) (db : TransportDb) {db' : TransportDb}
    → update_row q old db ≡ (ok tt, db')
    → (r : TransportProfile) × (lookup q.id db'.profiles ≡ some r)
      × (r.ssh_key_path ≡ q.ssh_key_path)
      × (r.ssh_identities_only ≡ q.ssh_identities_only)
updated_row q none db h = cc
updated_row q (some old) db {db'} h = elim (if-eq (not (satisfies_checks q)) _ _ h) [
  | inl t ↦ let wrong = t.1 in cc
  | inr f ↦ elim (if-eq (name_taken q.id q.display_name db.profiles) _ _ f.1) [
    | inl t ↦ let wrong = t.1 in cc
    | inr g ↦ (
      updated_profile old q,
      ap (λ r. lookup q.id (r.1).profiles) (sym g.1)
          ∙ lookup-insert_self q.id (updated_profile old q) db.profiles,
      refl,
      refl,
    )
  ]
]

module _ {G : Type 0} (host : Host G) where
  ensure_unbound-eq-ok :
      (changed : Bool) (profile_id : Text) (w : World G) {w' : World G} {id : Text}
      {ids : List Text}
      → bound_repositories profile_id w.db.bindings ≡ id ∷ ids
      → ensure_unbound host changed profile_id w ≡ (ok tt, w')
      → changed ≡ false
  unfolding ensure_unbound list_bindings_for_profile
  ensure_unbound-eq-ok false profile_id w bound h = refl
  ensure_unbound-eq-ok true profile_id w bound h =
      let (found, w₁, queried, rest) =
        bind-eq-ok (on_db host (list_bindings_for_profile profile_id) w) _ h in
      let (quiet, value) =
        query-eq-ok host (λ db. bound_repositories profile_id db.bindings) w queried in
      let full : found ≡ _ ∷ _ =
        value ∙ ap (λ db. bound_repositories profile_id db.bindings) quiet.rows_kept ∙ bound in
      elim (if-eq (is_empty found) _ _ rest) [
        | inl t ↦ let wrong = t.0 in cc
        | inr f ↦ let wrong = f.1 in cc
      ]

  update_profile-stored :
      (q : TransportProfile) (w : World G) {w' : World G}
      → on_db host (update_profile q) w ≡ (ok tt, w')
      → (r : TransportProfile) × (lookup q.id w'.db.profiles ≡ some r)
        × (r.ssh_key_path ≡ q.ssh_key_path)
        × (r.ssh_identities_only ≡ q.ssh_identities_only)
  unfolding update_profile
  update_profile-stored q w h =
      let (git_kept, ran) = on_db-eq-ok host (update_profile q) w h in
      let (left, e) = statement-eq-ok _ w.db ran in
      updated_row q (lookup q.id w.db.profiles) (with_faults w.db left) e

  -- While a repository is bound to an SSH profile whose row carries its id, an update of the
  -- profile that succeeds leaves the key and the setting IdentitiesOnly that it stores as they
  -- were.
  pub update_ssh_profile-frozen :
      (at : Moment) (profile_id display_name : Text) (selected_key_path : Option Text)
      (identities_only : Bool) (w : World G) {p q : TransportProfile} {w' : World G} {id : Text}
      {ids : List Text}
      → lookup profile_id w.db.profiles ≡ some p
      → p.id ≡ profile_id
      → bound_repositories profile_id w.db.bindings ≡ id ∷ ids
      → update_ssh_profile host at profile_id display_name selected_key_path identities_only w
        ≡ (ok q, w')
      → (r : TransportProfile) × (lookup profile_id w'.db.profiles ≡ some r)
        × (r.ssh_key_path ≡ p.ssh_key_path)
        × (r.ssh_identities_only ≡ p.ssh_identities_only)
  unfolding update_ssh_profile
  update_ssh_profile-frozen at profile_id display_name selected_key_path identities_only w {p} {q}
        {w'} stored named bound h =
      let (profile, w₁, got, h₁) = bind-eq-ok (required_profile host profile_id w) _ h in
      let quiet = required_profile-IsQuiet host profile_id w got in
      let same : profile ≡ p =
        some_injective (sym (required_profile-found host profile_id w got) ∙ stored) in
      elim (if-eq (not (kind_eq profile.kind ssh)) _ _ h₁) [
        | inl t ↦ let wrong = t.1 in cc
        | inr f ↦
            let (key, w₂, chosen, h₂) =
              bind-eq-ok (lift host (chosen_key host profile selected_key_path) w₁) _ f.1 in
            let (key_eq, here) =
              lift-eq-ok host (chosen_key host profile selected_key_path) w₁ chosen in
            let (u, w₃, unbound, h₃) =
              bind-eq-ok
                (ensure_unbound host (ssh_fields_changed profile key identities_only) profile_id w₂)
                _ h₂ in
            let bound₂ =
              ap (λ w. bound_repositories profile_id w.db.bindings) (sym here)
              ∙ ap (λ db. bound_repositories profile_id db.bindings) quiet.rows_kept
              ∙ bound in
            let (same_key, same_only) = unchanged profile key identities_only (
              ensure_unbound-eq-ok (ssh_fields_changed profile key identities_only) profile_id w₂
                bound₂ unbound) in
            let (name, w₄, named₂, h₄) =
              bind-eq-ok (lift host (validated_display_name display_name) w₃) _ h₃ in
            let changed =
              ssh_profile profile.id name key identities_only profile.created_at at.now in
            let (v, w₅, updated, last) = bind-eq-ok (on_db host (update_profile changed) w₄) _ h₄ in
            let (r, row, row_key, row_only) = update_profile-stored changed w₄ updated in
            let there : w₅ ≡ w' = λ i. (last i).1 in
            (
              r,
              ap (λ w. lookup profile_id w.db.profiles) (sym there)
                  ∙ ap (λ k. lookup k w₅.db.profiles) (sym named ∙ ap (λ x. x.id) (sym same))
                  ∙ row,
              row_key ∙ sym same_key ∙ ap (λ x. x.ssh_key_path) same,
              row_only ∙ sym same_only ∙ ap (λ x. x.ssh_identities_only) same,
            )
      ]
