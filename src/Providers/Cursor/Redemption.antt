-- ===== src/Providers/Cursor/Redemption.antt =====
-- What `take` of providers/cursor.rs gives, and to whom.
use mathlib.Core.Path.{subst}
use git_ramus.Base.Tests.{
  ℕ, ◌<◌, ◌≡◌, ◌≢◌, refl, sym, ap, ◌∙◌, ◌⊎◌, inl, inr, Bool, true, false, Option, none, some, List,
  arith, Bool-cases, and_iff,
}
use git_ramus.Base.Text.{Text, text_eq, text_eq_iff, text_eq_refl}
use git_ramus.Base.Table.{lookup}
use git_ramus.Base.Keys.{Distinct}
use git_ramus.Base.Error.{Result, invalid_cursor, ok, err, ok_injective}
use git_ramus.Providers.Model.{kind_eq_iff, query_eq_iff}
use git_ramus.Providers.Cursor.{CursorEntry, CursorStore, Claim, with_capacity, is_bound_to, take}
use git_ramus.Providers.Cursor.Calls.{CursorCall, cursor_run}
use git_ramus.Providers.Cursor.Capacity.{cursor_run-IsBounded}
use git_ramus.Providers.Cursor.Lookup.{live, redeemable, answered, take-effect}

-- The five bindings that a claim has to match.
pub record IsOwner (c : Claim) (e : CursorEntry) : Type 0 where
  pub plugin : e.plugin_id ≡ c.plugin_id
  pub provider : e.provider_kind ≡ c.provider_kind
  pub instance_of : e.instance_id ≡ c.instance_id
  pub account : e.account_id ≡ c.account_id
  pub query : e.query ≡ c.query

is_bound_to-IsOwner : (c : Claim) (e : CursorEntry) → is_bound_to c e ≡ true → IsOwner c e
unfolding is_bound_to
is_bound_to-IsOwner c e h =
    let (a, h₁) = (and_iff _ _).0 h in
    let (b, h₂) = (and_iff _ _).0 h₁ in
    let (i, h₃) = (and_iff _ _).0 h₂ in
    let (d, q) = (and_iff _ _).0 h₃ in
    record {
      plugin = (text_eq_iff e.plugin_id c.plugin_id).0 a;
      provider = (kind_eq_iff e.provider_kind c.provider_kind).0 b;
      instance_of = (text_eq_iff e.instance_id c.instance_id).0 i;
      account = (text_eq_iff e.account_id c.account_id).0 d;
      query = (query_eq_iff e.query c.query).0 q;
    }

pub IsOwner-is_bound_to : (c : Claim) (e : CursorEntry) → IsOwner c e → is_bound_to c e ≡ true
unfolding is_bound_to
IsOwner-is_bound_to c e o =
    rw
      (
        (text_eq_iff e.plugin_id c.plugin_id).1 o.plugin,
        (kind_eq_iff e.provider_kind c.provider_kind).1 o.provider,
      )
      (rw
        (
          (text_eq_iff e.instance_id c.instance_id).1 o.instance_of,
          (text_eq_iff e.account_id c.account_id).1 o.account,
        )
        (rw ((query_eq_iff e.query c.query).1 o.query) refl))

pub live-some : (now : ℕ) (e : CursorEntry) → now < e.expires_at → live now (some e) ≡ some e
live-some now e h = ground arith

pub take_absent :
    (cursor : Text) (c : Claim) (now : ℕ) (s : CursorStore)
    → Distinct s.entries
    → lookup cursor s.entries ≡ none
    → (take cursor c now s).0 ≡ err invalid_cursor
take_absent cursor c now s d gone = (take-effect cursor c now s cursor d).0 ∙ rw gone refl

pub take_owned :
    (cursor : Text) (c : Claim) (now : ℕ) (s : CursorStore) (e : CursorEntry)
    → Distinct s.entries
    → lookup cursor s.entries ≡ some e
    → now < e.expires_at
    → is_bound_to c e ≡ true
    → ((take cursor c now s).0 ≡ ok e) × (lookup cursor (take cursor c now s).1.entries ≡ none)
take_owned cursor c now s e d present soon bound =
    let (a, b) = take-effect cursor c now s cursor d in
    let alive : live now (lookup cursor s.entries) ≡ some e = rw present (live-some now e soon) in
    (a ∙ rw alive (rw bound refl), b ∙ rw alive (rw (bound, text_eq_refl cursor) refl))

answered-eq-ok :
    (b : Bool) (o : Option CursorEntry) {e : CursorEntry}
    → answered b o ≡ ok e
    → (o ≡ some e) × (b ≡ true)
answered-eq-ok true (some e) h = (ap some (ok_injective h), refl)
answered-eq-ok false (some e) h = cc
answered-eq-ok _ none h = cc

live-eq-some :
    (now : ℕ) (o : Option CursorEntry) {e : CursorEntry}
    → live now o ≡ some e
    → (o ≡ some e) × (now < e.expires_at)
live-eq-some now none h = cc
live-eq-some now (some f) h = ground arith

take_gives :
    (cursor : Text) (c : Claim) (now : ℕ) (s : CursorStore) {e : CursorEntry} {s' : CursorStore}
    → Distinct s.entries
    → take cursor c now s ≡ (ok e, s')
    → (lookup cursor s.entries ≡ some e)
      × (now < e.expires_at)
      × IsOwner c e
      × (lookup cursor s'.entries ≡ none)
take_gives cursor c now s {e} {s'} d h =
    let (a, b) = take-effect cursor c now s cursor d in
    let o = live now (lookup cursor s.entries) in
    let (alive, valid) =
      answered-eq-ok (redeemable c o) o
        (sym a ∙ ap (λ (x : Result CursorEntry × CursorStore). x.0) h) in
    let (present, soon) = live-eq-some now (lookup cursor s.entries) alive in
    let same = ap (λ (x : Result CursorEntry × CursorStore). lookup cursor x.1.entries) h in
    (
      present,
      soon,
      is_bound_to-IsOwner c e (subst (λ x. redeemable c x ≡ true) alive valid),
      sym same ∙ b ∙ rw (valid, text_eq_refl cursor) refl,
    )

pub take_spares :
    (cursor j : Text) (c : Claim) (now : ℕ) (s : CursorStore) (f : CursorEntry)
    → Distinct s.entries
    → lookup j s.entries ≡ some f
    → now < f.expires_at
    → (cursor ≢ j) ⊎ (¬ IsOwner c f)
    → lookup j (take cursor c now s).1.entries ≡ some f
take_spares cursor j c now s f d present soon other =
    let b = (take-effect cursor c now s j d).1 in
    let alive : live now (lookup j s.entries) ≡ some f = rw present (live-some now f soon) in
    b
    ∙ rw alive (elim (Bool-cases (text_eq cursor j)) [
      | inr distinct ↦ rw distinct (ground arith)
      | inl same ↦ elim other [
        | inl ne ↦ absurd (ne ((text_eq_iff cursor j).0 same))
        | inr stranger ↦ rw ((text_eq_iff cursor j).0 same) (
            rw alive (elim (Bool-cases (is_bound_to c f)) [
              | inl bound ↦ absurd (stranger (is_bound_to-IsOwner c f bound))
              | inr unbound ↦ rw unbound refl
            ]))
      ]
    ])

module _ (cs : List CursorCall) (n : ℕ) where
  -- When `take` gives an entry back, that is the entry of the cursor, it has not expired, the
  -- plugin, provider, instance, account and query of the claim are those of the entry, and the
  -- cursor is gone.
  pub take_bound_only :
      (cursor : Text) (c : Claim) (now : ℕ) {e : CursorEntry} {s' : CursorStore}
      → take cursor c now (cursor_run cs (with_capacity n)) ≡ (ok e, s')
      → (lookup cursor (cursor_run cs (with_capacity n)).entries ≡ some e)
        × (now < e.expires_at)
        × IsOwner c e
        × (lookup cursor s'.entries ≡ none)
  take_bound_only cursor c now {e} {s'} h =
      take_gives cursor c now (cursor_run cs (with_capacity n)) (cursor_run-IsBounded cs n).distinct
        h

  -- `take` drops no cursor that has not expired, but the one that it redeems: a cursor other than
  -- the requested one stays, and so does the requested one if it is not bound to the claim.
  pub take_keeps_others :
      (cursor j : Text) (c : Claim) (now : ℕ) {f : CursorEntry}
      → lookup j (cursor_run cs (with_capacity n)).entries ≡ some f
      → now < f.expires_at
      → (cursor ≢ j) ⊎ (¬ IsOwner c f)
      → lookup j (take cursor c now (cursor_run cs (with_capacity n))).1.entries ≡ some f
  take_keeps_others cursor j c now {f} present soon other =
      take_spares cursor j c now (cursor_run cs (with_capacity n)) f
        (cursor_run-IsBounded cs n).distinct present soon other
