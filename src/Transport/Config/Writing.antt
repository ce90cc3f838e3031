-- ===== src/Transport/Config/Writing.antt =====
-- `write_managed_snapshot` of git/transport/config.rs against any runner of Git commands: it takes
-- nothing that Git reports on trust.
use git_ramus.Base.Tests.{
  ◌≡◌, ◌↔◌, inl, inr, true, Option, none, some, List, [], ◌∷◌, arith, if-eq, ltb,
}
use git_ramus.Base.Lists.{length}
use git_ramus.Base.Text.{Text, text_eq_iff}
use git_ramus.Base.Table.{lookup}
use git_ramus.Base.Error.{ok, bind-eq-ok, M}
use git_ramus.Transport.Config.Parse.{
  Snapshot, snapshot_eq, values_eq, ensure_restorable_snapshot, max_managed_config_entries,
}
use git_ramus.Transport.Config.{
  GitCommand, Host, first_value, read_managed_snapshot, run_config, verify_written, write_then,
  write_value, write_key, write_keys, is_written, affected_keys, write_managed_snapshot,
}

pub values_eq_iff : (v w : List Text) → (values_eq v w ≡ true) ↔ (v ≡ w)
unfolding values_eq
values_eq_iff (a ∷ v) (b ∷ w) = ground (arith, text_eq_iff a b, values_eq_iff v w)
values_eq_iff _ _ = ground arith

pub snapshot_eq_iff : (m n : Snapshot) → (snapshot_eq m n ≡ true) ↔ (m ≡ n)
unfolding snapshot_eq
snapshot_eq_iff ((j, v) ∷ m) ((k, w) ∷ n) =
    ground (arith, text_eq_iff j k, values_eq_iff v w, snapshot_eq_iff m n)
snapshot_eq_iff _ _ = ground arith

module _ {G : Type 0} (host : Host G) (repository : Text) where
  -- The last commands that ran, from the state `before` on, were a read that gave the snapshot.
  pub record WasRead (snapshot : Snapshot) (g : G) : Type 0 where
    pub before : G
    pub reads : read_managed_snapshot host repository before ≡ (ok snapshot, g)

  verify_written-WasRead :
      (expected : Snapshot) (g : G) {h : G}
      → verify_written host repository expected g ≡ (ok tt, h)
      → WasRead expected h
  unfolding verify_written
  verify_written-WasRead expected g {h} e =
      let (found, g₁, reads, test) = bind-eq-ok (read_managed_snapshot host repository g) _ e in
      elim (if-eq (snapshot_eq found expected) _ _ test) [
        | inl t ↦
            let same : found ≡ expected = (snapshot_eq_iff found expected).0 t.0 in
            let there : g₁ ≡ h = cc in record { before = g; reads = cc }
        | inr f ↦ let wrong = f.1 in cc
      ]

  module _ (target : Snapshot) where
    write_then-WasRead :
        (command : GitCommand) (expected : Snapshot) (next : Snapshot → M G (Unit {0})) (g : G)
        {h : G}
        → ((g₁ : G) → WasRead expected g₁ → next expected g₁ ≡ (ok tt, h) → WasRead target h)
        → write_then host repository command expected next g ≡ (ok tt, h)
        → WasRead target h
    write_then-WasRead command expected next g step e =
        let (u, g₁, ran, rest) = bind-eq-ok (run_config host command g) _ e in
        let (v, g₂, verified, last) =
          bind-eq-ok (verify_written host repository expected g₁) _ rest in
        step g₂ (verify_written-WasRead expected g₁ verified) last

    write_value-WasRead :
        (key : Text) (value : Option Text) (present : Option (List Text)) (expected : Snapshot)
        (next : Snapshot → M G (Unit {0})) (g : G) {h : G}
        → ((now : Snapshot) (g₁ : G) → WasRead now g₁ → next now g₁ ≡ (ok tt, h) → WasRead target h)
        → WasRead expected g
        → write_value host repository key value present expected next g ≡ (ok tt, h)
        → WasRead target h
    write_value-WasRead key (some value) present expected next g step was e =
        write_then-WasRead _ _ next g (step _) e
    write_value-WasRead key none none expected next g step was e = step expected g was e
    write_value-WasRead key none (some values) expected next g step was e =
        write_then-WasRead _ _ next g (step _) e

    write_keys-WasRead :
        (keys : List Text) (expected : Snapshot) (g : G) {h : G}
        → WasRead expected g
        → write_keys host repository target keys expected g ≡ (ok tt, h)
        → WasRead target h
    unfolding write_keys write_key
    write_keys-WasRead [] expected g {h} was e = elim (if-eq (snapshot_eq expected target) _ _ e) [
      | inl t ↦
          let same : expected ≡ target = (snapshot_eq_iff expected target).0 t.0 in
          let there : g ≡ h = cc in
          record { before = was.before; reads = rw (← same, ← there) was.reads }
      | inr f ↦ let wrong = f.1 in cc
    ]
    write_keys-WasRead (key ∷ rest) expected g {h} was e =
        elim (if-eq (is_written host (first_value (lookup key target)) (lookup key expected)) _ _
          e) [
            | inl t ↦ write_keys-WasRead rest expected g was t.1
            | inr f ↦
                write_value-WasRead key (first_value (lookup key target)) (lookup key expected)
                  expected (write_keys host repository target rest) g
                  (λ now g₁ w. write_keys-WasRead rest now g₁ w) was f.1
          ]

    -- When the write of a target succeeds, whatever the runner of Git commands does, the last thing
    -- that happened was a read that gave exactly the target.
    pub write_managed_snapshot-WasRead :
        (g : G) {h : G}
        → write_managed_snapshot host repository target g ≡ (ok tt, h)
        → WasRead target h
    unfolding write_managed_snapshot
    write_managed_snapshot-WasRead g {h} e =
        let (u, g₁, restorable, rest) =
          bind-eq-ok (ensure_restorable_snapshot host.parse_url target, g) _ e in
        let (found, g₂, reads, last) =
          bind-eq-ok (read_managed_snapshot host repository g₁) _ rest in
        elim (if-eq (ltb max_managed_config_entries (length (affected_keys host found target))) _ _
          last) [
            | inl t ↦ let wrong = t.1 in cc
            | inr f ↦
                write_keys-WasRead (affected_keys host found target) found g₂
                  (record { before = g₁; reads = reads }) f.1
          ]
