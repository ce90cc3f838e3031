-- ===== src/Transport/Profiles/Repairs.antt =====
-- No bind and no unbind of git/transport/profile_service.rs settles a pending repair, whatever Git and
-- SQLite do.
use git_ramus.Base.Tests.{
  ◌≡◌, refl, Bool, true, false, not, ◌||◌, ◌&&◌, Option, none, some, List, [], ◌∷◌, arith,
  Bool-cases, Option-cases, inl, inr, is_some, is_none, if◌then◌else◌,
}
use git_ramus.Base.Text.{Text, codes, is_empty}
use git_ramus.Base.Table.{Table, lookup, insert}
use git_ramus.Base.Error.{AppError, Result, ok, err, M, bind_case}
use git_ramus.Transport.Url.{kind_eq}
use git_ramus.Transport.Config.{Host, read_managed_snapshot, write_managed_snapshot}
use git_ramus.Transport.Config.Parse.{Snapshot, snapshot_eq, ensure_restorable_snapshot}
use git_ramus.Transport.Config.Plan.{TransportProfile}
use git_ramus.Transport.Profiles.Store.{
  TransportDb, TransportConfigRepair, Repository, RepositoryTransportBinding, attempt, statement,
  query, has_unresolved, insert_repair, upsert_binding, mark_binding_drifted, delete_binding,
  get_binding, repository_has_unresolved_repair, get_repository, is_trusted, get_profile,
  list_remotes,
}
use git_ramus.Transport.Profiles.Service.{
  World, Moment, on_db, on_git, lift, record_repair, compensated, compensate_at,
  compensate_or_partial, or_compensate, write_with_compensation, repository_path,
  trusted_repository, required_profile, primary_remote, desired_snapshot,
}
use git_ramus.Transport.Profiles.{
  DriftResolution, reject, keep_external, reapply, is_drifted, Prepared, prepare, prepare_bind,
  prepare_rebind, apply_binding, bind_desired, bind_repository_locked, bind_repository,
  reapply_drifted_locked, resolve_drift, restore_before, bound_transport, unbind_live,
  unbind_trusted, unbind_repository,
}

-- Every repository with an unresolved repair in the first table has one in the second.
abbrev pub AreKept : Table TransportConfigRepair → Table TransportConfigRepair → Type 0
AreKept a b = (id : Text) → has_unresolved id a ≡ true → has_unresolved id b ≡ true

-- A repair under a new key leaves the others.
has_unresolved-insert :
    (k id : Text) (r : TransportConfigRepair) (t : Table TransportConfigRepair)
    → lookup k t ≡ none
    → has_unresolved id t ≡ true
    → has_unresolved id (insert k r t) ≡ true
unfolding has_unresolved insert lookup
has_unresolved-insert k id r [] new h = cc
has_unresolved-insert k id r ((j, s) ∷ rest) new h =
    ground (arith, has_unresolved-insert k id r rest)

statement-AreKept :
    {A : Type 0} (f : M TransportDb A) (db : TransportDb)
    → ((e : TransportDb) → AreKept e.repairs (f e).1.repairs)
    → AreKept db.repairs (statement f db).1.repairs
unfolding statement
statement-AreKept f db step = go db.faults
  where
    go : (faults : List Bool) → AreKept db.repairs (attempt faults db f).1.repairs
    go [] = step db
    go (true ∷ faults) = λ id h. h
    go (false ∷ faults) = step (git_ramus.Transport.Profiles.Store.with_faults db faults)

query-AreKept :
    {A : Type 0} (f : TransportDb → A) (db : TransportDb)
    → AreKept db.repairs (query f db).1.repairs
unfolding query
query-AreKept f db = statement-AreKept (λ e. (ok (f e), e)) db (λ e id h. h)

-- A pure step after another.
pure-AreKept :
    {A B : Type 0} (db : TransportDb) (m : Result A × TransportDb) (g : A → Result B)
    → AreKept db.repairs m.1.repairs
    → AreKept db.repairs (bind_case m λ a e. (g a, e)).1.repairs
pure-AreKept db (ok a, e) g kept = kept
pure-AreKept db (err f, e) g kept = kept

insert_repair-AreKept :
    (r : TransportConfigRepair) (db : TransportDb)
    → AreKept db.repairs (insert_repair r db).1.repairs
unfolding insert_repair
insert_repair-AreKept r db = statement-AreKept _ db λ e.
    elim (Option-cases (lookup r.id e.repairs)) [
      | inr (old, found) ↦ rw found (λ id h. h)
      | inl new ↦ rw new (elim (Bool-cases (is_none (lookup r.repository_id e.repositories))) [
        | inl unknown ↦ rw unknown (λ id h. h)
        | inr known ↦ rw known (λ id h. has_unresolved-insert r.id id r e.repairs new h)
      ])
    ]

upsert_binding-AreKept :
    (b : RepositoryTransportBinding) (db : TransportDb)
    → AreKept db.repairs (upsert_binding b db).1.repairs
unfolding upsert_binding
upsert_binding-AreKept b db = statement-AreKept _ db λ e.
    elim (Bool-cases (
      is_none (lookup b.repository_id e.repositories)
      || is_none (lookup b.transport_profile_id e.profiles))) [
        | inl t ↦ rw t (λ id h. h)
        | inr f ↦ rw f (λ id h. h)
      ]

mark_binding_drifted-AreKept :
    (repository_id : Text) (at : git_ramus.Base.Tests.ℕ) (db : TransportDb)
    → AreKept db.repairs (mark_binding_drifted repository_id at db).1.repairs
unfolding mark_binding_drifted
mark_binding_drifted-AreKept repository_id at db = statement-AreKept _ db λ e.
    elim (Option-cases (lookup repository_id e.bindings)) [
      | inl none_there ↦ rw none_there (λ id h. h)
      | inr (b, found) ↦ rw found (λ id h. h)
    ]

delete_binding-AreKept :
    (repository_id : Text) (db : TransportDb)
    → AreKept db.repairs (delete_binding repository_id db).1.repairs
unfolding delete_binding
delete_binding-AreKept repository_id db = statement-AreKept _ db λ e.
    elim (Option-cases (lookup repository_id e.bindings)) [
      | inl none_there ↦ rw none_there (λ id h. h)
      | inr (b, found) ↦ rw found (λ id h. h)
    ]

-- Binds and unbinds, of any repositories.
pub data BindingCall : Type 0 where
  binds : Moment → Text → Text → Bool → BindingCall
  unbinds : Moment → Text → DriftResolution → BindingCall

module _ {G : Type 0} (host : Host G) where
  abbrev pub Keeps : World G → World G → Type 0
  Keeps w v = AreKept w.db.repairs v.db.repairs

  bind-Keeps :
      {A B : Type 0} (w : World G) (m : Result A × World G) (f : A → M (World G) B)
      → Keeps w m.1
      → ((a : A) (v : World G) → Keeps v (f a v).1)
      → Keeps w (bind_case m f).1
  bind-Keeps w (ok a, v) f first second = λ id h. second a v id (first id h)
  bind-Keeps w (err e, v) f first second = first

  if-Keeps :
      {A : Type 0} (w : World G) (test : Bool) (m n : Result A × World G)
      → Keeps w m.1
      → Keeps w n.1
      → Keeps w (if test then m else n).1
  if-Keeps w true m n first second = first
  if-Keeps w false m n first second = second

  compensated-Keeps :
      (at : Moment) (r : Repository) (attempted restore : Snapshot) (e : AppError) (step : Text)
      (m : Result (Unit {0}) × World G)
      → Keeps m.1 (compensated host at r attempted restore e step m).1
  unfolding record_repair
  compensated-Keeps at r attempted restore e step (ok _, w) = λ id h. h
  compensated-Keeps at r attempted restore e step (err _, w) = insert_repair-AreKept _ w.db

  compensate_at-Keeps :
      (at : Moment) (r : Repository) (attempted restore : Snapshot) (e : AppError) (step : Text)
      (path : Result Text) (w : World G)
      → Keeps w (compensate_at host at r attempted restore e step path w).1
  compensate_at-Keeps at r attempted restore e step (err _) w = λ id h. h
  compensate_at-Keeps at r attempted restore e step (ok path) w =
      compensated-Keeps at r attempted restore e step
        (on_git host (write_managed_snapshot host path restore) w)

  or_compensate-Keeps :
      {A : Type 0} (at : Moment) (r : Repository) (attempted restore : Snapshot) (step : Text)
      (value : A) (w : World G) (m : Result (Unit {0}) × World G)
      → Keeps w m.1
      → Keeps w (or_compensate host at r attempted restore step value m).1
  unfolding compensate_or_partial
  or_compensate-Keeps at r attempted restore step value w (ok _, v) first = first
  or_compensate-Keeps at r attempted restore step value w (err e, v) first = λ id h.
      compensate_at-Keeps at r attempted restore e step (repository_path host r) v id (first id h)

  write-Keeps :
      (at : Moment) (r : Repository) (original target : Snapshot) (step : Text) (w : World G)
      → Keeps w (write_with_compensation host at r original target step w).1
  unfolding write_with_compensation
  write-Keeps at r original target step w =
      bind-Keeps w (lift host (repository_path host r) w) _ (λ id h. h)
        λ path v.
          or_compensate-Keeps at r target original step tt v
            (on_git host (write_managed_snapshot host path target) v) (λ id h. h)

  prepare-Keeps :
      (at : Moment) (r : Repository) (path : Text) (desired : Snapshot) (replace_existing : Bool)
      (existing : Option RepositoryTransportBinding) (w : World G)
      → Keeps w (prepare host at r path desired replace_existing existing w).1
  unfolding prepare_bind prepare_rebind
  prepare-Keeps at r path desired replace_existing none w =
      bind-Keeps w (on_git host (read_managed_snapshot host path) w) _ (λ id h. h)
        λ current v.
          bind-Keeps v (lift host (ensure_restorable_snapshot host.parse_url current) v) _
            (λ id h. h)
            λ _ u.
              elim (Bool-cases (
                not (is_empty current)
                && (not (snapshot_eq current desired) && not replace_existing))) [
                  | inl t ↦ rw t (λ id h. h)
                  | inr f ↦ rw f (λ id h. h)
                ]
  prepare-Keeps at r path desired replace_existing (some b) w =
      bind-Keeps w (on_git host (read_managed_snapshot host path) w) _ (λ id h. h)
        λ current v. elim (Bool-cases (is_drifted host current b)) [
          | inl t ↦ rw t (
              bind-Keeps v (on_db host (mark_binding_drifted r.id at.now) v) _
                (mark_binding_drifted-AreKept r.id at.now v.db) λ _ u id h. h)
          | inr f ↦ rw f (
              bind-Keeps v (lift host (ensure_restorable_snapshot host.parse_url current) v) _
                (λ id h. h) λ _ u id h. h)
        ]

  bind_desired-Keeps :
      (at : Moment) (r : Repository) (replace_existing : Bool) (profile : TransportProfile)
      (desired : Snapshot) (w : World G)
      → Keeps w (bind_desired host at r replace_existing profile desired w).1
  unfolding bind_desired apply_binding get_binding
  bind_desired-Keeps at r replace_existing profile desired w =
      bind-Keeps w (lift host (repository_path host r) w) _ (λ id h. h)
        λ path v.
          bind-Keeps v (on_db host (get_binding r.id) v) _ (query-AreKept _ v.db) λ existing u.
            bind-Keeps u (prepare host at r path desired replace_existing existing u) _
              (prepare-Keeps at r path desired replace_existing existing u)
              λ prepared t.
                bind-Keeps t (lift host (ensure_restorable_snapshot host.parse_url desired) t) _
                  (λ id h. h)
                  λ _ z.
                    bind-Keeps z
                      (write_with_compensation host at r prepared.current_config desired
                        (codes "applyConfig") z)
                      _ (write-Keeps at r prepared.current_config desired (codes "applyConfig") z)
                      λ _ y.
                        or_compensate-Keeps at r desired prepared.current_config
                          (codes "saveBinding") _ y (on_db host (upsert_binding _) y)
                          (upsert_binding-AreKept _ y.db)

  required_profile-Keeps : (id : Text) (w : World G) → Keeps w (required_profile host id w).1
  unfolding required_profile get_profile
  required_profile-Keeps id w =
      bind-Keeps w (on_db host (get_profile id) w) _ (query-AreKept _ w.db) λ found v id h. h

  primary_remote-Keeps : (r : Repository) (w : World G) → Keeps w (primary_remote host r w).1
  unfolding primary_remote list_remotes
  primary_remote-Keeps r w =
      bind-Keeps w (on_db host (list_remotes r.id) w) _ (query-AreKept _ w.db) λ found v id h. h

  trusted_repository-Keeps : (id : Text) (w : World G) → Keeps w (trusted_repository host id w).1
  unfolding trusted_repository get_repository is_trusted
  trusted_repository-Keeps id w =
      bind-Keeps w (on_db host (get_repository id) w) _
        (pure-AreKept w.db (query (λ db. lookup id db.repositories) w.db) _ (query-AreKept _ w.db))
        λ repository v.
          bind-Keeps v (on_db host (is_trusted id) v) _ (query-AreKept _ v.db) λ trusted u.
            elim (Bool-cases trusted) [ inl t ↦ rw t (λ id h. h) | inr f ↦ rw f (λ id h. h) ]

  bind_locked-Keeps :
      (at : Moment) (r : Repository) (profile_id : Text) (replace_existing : Bool) (w : World G)
      → Keeps w (bind_repository_locked host at r profile_id replace_existing w).1
  unfolding bind_repository_locked repository_has_unresolved_repair
  bind_locked-Keeps at r profile_id replace_existing w =
      bind-Keeps w (on_db host (repository_has_unresolved_repair r.id) w) _ (query-AreKept _ w.db)
        λ unresolved v. elim (Bool-cases unresolved) [
          | inl t ↦ rw t (λ id h. h)
          | inr f ↦ rw f (
              bind-Keeps v (required_profile host profile_id v) _
                (required_profile-Keeps profile_id v)
                λ profile u.
                  bind-Keeps u (primary_remote host r u) _ (primary_remote-Keeps r u) λ remote t.
                    if-Keeps t (not (kind_eq profile.kind remote.kind)) _ _ (λ id h. h)
                      (bind-Keeps t (lift host (desired_snapshot host profile remote) t) _
                        (λ id h. h)
                        λ desired z. bind_desired-Keeps at r replace_existing profile desired z))
        ]

  bind_repository-Keeps :
      (at : Moment) (id profile_id : Text) (replace_existing : Bool) (w : World G)
      → Keeps w (bind_repository host at id profile_id replace_existing w).1
  unfolding bind_repository
  bind_repository-Keeps at id profile_id replace_existing w =
      bind-Keeps w (trusted_repository host id w) _ (trusted_repository-Keeps id w)
        λ r v. bind_locked-Keeps at r profile_id replace_existing v

  resolve_drift-Keeps :
      (at : Moment) (r : Repository) (b : RepositoryTransportBinding) (live : Snapshot)
      (resolution : DriftResolution) (w : World G)
      → Keeps w (resolve_drift host at r b live resolution w).1
  unfolding resolve_drift reapply_drifted_locked
  resolve_drift-Keeps at r b live reject w = λ id h. h
  resolve_drift-Keeps at r b live keep_external w = delete_binding-AreKept r.id w.db
  resolve_drift-Keeps at r b live reapply w =
      bind-Keeps w (lift host (ensure_restorable_snapshot host.parse_url live) w) _ (λ id h. h)
        λ _ v.
          bind-Keeps v
            (write_with_compensation host at r live b.applied_config (codes "reapplyConfig") v) _
            (write-Keeps at r live b.applied_config (codes "reapplyConfig") v)
            λ _ u.
              or_compensate-Keeps at r b.applied_config live (codes "saveBinding") tt u
                (on_db host (upsert_binding _) u) (upsert_binding-AreKept _ u.db)

  restore_before-Keeps :
      (at : Moment) (r : Repository) (b : RepositoryTransportBinding) (live : Snapshot)
      (w : World G)
      → Keeps w (restore_before host at r b live w).1
  unfolding restore_before
  restore_before-Keeps at r b live w =
      bind-Keeps w
        (write_with_compensation host at r live b.before_config (codes "restoreConfig") w) _
        (write-Keeps at r live b.before_config (codes "restoreConfig") w)
        λ _ v.
          or_compensate-Keeps at r b.before_config live (codes "deleteBinding") tt v
            (on_db host (delete_binding r.id) v) (delete_binding-AreKept r.id v.db)

  unbind_live-Keeps :
      (at : Moment) (r : Repository) (b : RepositoryTransportBinding) (resolution : DriftResolution)
      (live : Snapshot) (w : World G)
      → Keeps w (unbind_live host at r b resolution live w).1
  unfolding unbind_live
  unbind_live-Keeps at r b resolution live w = elim (Bool-cases (is_drifted host live b)) [
    | inl t ↦ rw t (
        bind-Keeps w (on_db host (mark_binding_drifted r.id at.now) w) _
          (mark_binding_drifted-AreKept r.id at.now w.db)
          λ _ v. resolve_drift-Keeps at r b live resolution v)
    | inr f ↦ rw f (restore_before-Keeps at r b live w)
  ]

  bound_transport-Keeps : (id : Text) (w : World G) → Keeps w (bound_transport host id w).1
  unfolding bound_transport get_binding
  bound_transport-Keeps id w =
      bind-Keeps w (on_db host (get_binding id) w) _ (query-AreKept _ w.db) λ found v id h. h

  unbind_repository-Keeps :
      (at : Moment) (id : Text) (resolution : DriftResolution) (w : World G)
      → Keeps w (unbind_repository host at id resolution w).1
  unfolding unbind_repository unbind_trusted
  unbind_repository-Keeps at id resolution w =
      bind-Keeps w (trusted_repository host id w) _ (trusted_repository-Keeps id w) λ r v.
        bind-Keeps v (bound_transport host r.id v) _ (bound_transport-Keeps r.id v) λ b u.
          bind-Keeps u (lift host (repository_path host r) u) _ (λ id h. h)
            λ path t.
              bind-Keeps t (on_git host (read_managed_snapshot host path) t) _ (λ id h. h)
                λ live z. unbind_live-Keeps at r b resolution live z

  unfoldable pub binding_step : BindingCall → World G → World G
  unfolding bind_repository unbind_repository
  binding_step (binds at id profile_id replace_existing) w =
      (bind_repository host at id profile_id replace_existing w).1
  binding_step (unbinds at id resolution) w = (unbind_repository host at id resolution w).1

  unfoldable pub binding_run : List BindingCall → World G → World G
  unfolding binding_step
  binding_run [] w = w
  binding_run (c ∷ cs) w = binding_run cs (binding_step c w)

  step-Keeps : (c : BindingCall) (w : World G) → Keeps w (binding_step c w)
  unfolding binding_step
  step-Keeps (binds at id profile_id replace_existing) w =
      bind_repository-Keeps at id profile_id replace_existing w
  step-Keeps (unbinds at id resolution) w = unbind_repository-Keeps at id resolution w

  pub run-Keeps : (cs : List BindingCall) (w : World G) → Keeps w (binding_run cs w)
  unfolding binding_run
  run-Keeps [] w = λ id h. h
  run-Keeps (c ∷ cs) w = λ id h. run-Keeps cs (binding_step c w) id (step-Keeps c w id h)
