-- ===== src/Transport/Operation/Soundness.antt =====
-- Every sequence of calls keeps the registry of git/transport/operation.rs sound, and what follows.
use mathlib.Core.Path.{subst}
use git_ramus.Base.Tests.{
  ℕ, ◌≡◌, refl, sym, Bool, true, not, Option, none, some, arith, inl, inr, Bool-cases, Option-cases,
}
use git_ramus.Base.Text.{Text, text_eq, text_eq_iff, option_text_eq_iff, codes}
use git_ramus.Base.Table.{
  Table, lookup, insert, remove, lookup-insert, lookup-insert_self, insert-insert, lookup-remove,
}
use git_ramus.Base.Error.{Result}
use git_ramus.Transport.Operation
use git_ramus.Transport.Operation.{
  OperationEntry, RegistryState, TransportOperationGuard, TransportAuthorizationDomain, new_entry,
  new_guard, reserved, bound, registered, register_bind, remove_registration, store_flag,
}
use git_ramus.Transport.Operation.Invariant.{
  IsConsistent, operations-remove, remove_registration-IsConsistent, owns, reserved-IsConsistent,
  bound-IsConsistent,
}
use git_ramus.Transport.Operation.Binding.{
  Outcome, fresh, again, bind_resource-Outcome, ReserveOutcome, entered, reserve-Outcome,
}
use git_ramus.Transport.Operation.System.{
  System, Call, reserve, register, bind_resource, cancel_owned, cancel, finish,
  finish_if_not_cancelled, keep, bind_kept, step, Matches, IsSound,
}

abbrev Guards : Type 0
Guards = Table TransportOperationGuard

abbrev AllMatch : Guards → RegistryState → Type 0
AllMatch gs r = (id : Text) → Matches id (lookup id gs) (lookup id r.operations)

reserved-AllMatch :
    (id plugin : Text) (d : TransportAuthorizationDomain) (gs : Guards) (r : RegistryState)
    → AllMatch gs r
    → AllMatch (insert id (new_guard id r) gs) (reserved id plugin d r)
unfolding reserved new_guard
reserved-AllMatch id plugin d gs r m o =
    rw (lookup-insert, lookup-insert)
      (elim (Bool-cases (text_eq id o)) [
        | inl same ↦ rw same ((text_eq_iff id o).0 same, refl, refl, refl)
        | inr other ↦ rw other (m o)
      ])

bound-AllMatch :
    (id key : Text) (g : TransportOperationGuard) (entry : OperationEntry) (gs : Guards)
    (r : RegistryState)
    → AllMatch gs r
    → g.operation_id ≡ id
    → g.active ≡ true
    → entry.cancellation ≡ g.cancellation
    → AllMatch (insert id (bound g key entry r).1 gs) (bound g key entry r).2
unfolding bound
bound-AllMatch id key g entry gs r m same active c o =
    rw (same, lookup-insert, lookup-insert)
      (elim (Bool-cases (text_eq id o)) [
        | inl e ↦ rw e ((text_eq_iff id o).0 e, active, refl, c)
        | inr other ↦ rw other (m o)
      ])

removed-AllMatch :
    (id : Text) (key : Option Text) (gs : Guards) (r : RegistryState) (entry : OperationEntry)
    → AllMatch gs r
    → lookup id r.operations ≡ some entry
    → entry.resource_key ≡ key
    → AllMatch (remove id gs) (remove_registration id key r)
removed-AllMatch id key gs r entry m present k o =
    let owned : owns (lookup id r.operations) key ≡ true =
      rw present ((option_text_eq_iff entry.resource_key key).1 k) in
    rw (operations-remove, owned, lookup-remove)
      (elim (Bool-cases (text_eq id o)) [ inl same ↦ rw same tt | inr other ↦ rw other (m o) ])

sound :
    (r : RegistryState) (gs : Guards)
    → IsConsistent r
    → AllMatch gs r
    → IsSound (record { registry = r; guards = gs })
sound r gs c m = record { consistent = c; matching = m }

reserve-IsSound :
    (id plugin : Text) (d : TransportAuthorizationDomain) (gs : Guards) (r : RegistryState)
    {a : Result TransportOperationGuard × RegistryState}
    → IsConsistent r
    → AllMatch gs r
    → ReserveOutcome id plugin d r a
    → IsSound (keep id gs a)
unfolding keep
reserve-IsSound id plugin d gs r c m (ReserveOutcome.refused e) = sound r gs c m
reserve-IsSound id plugin d gs r c m (entered absent) =
    sound (reserved id plugin d r) _ (reserved-IsConsistent id plugin d r absent c)
      (reserved-AllMatch id plugin d gs r m)

same_guard :
    (id o : Text) (g : TransportOperationGuard) (gs : Guards)
    → lookup id gs ≡ some g
    → lookup o gs ≡ lookup o (insert id g gs)
same_guard id o g gs held = ground (arith, lookup-insert id o g gs, text_eq_iff id o)

kept-AllMatch :
    (id : Text) (g : TransportOperationGuard) (gs : Guards) (r : RegistryState)
    → lookup id gs ≡ some g
    → AllMatch gs r
    → AllMatch (insert id g gs) r
kept-AllMatch id g gs r held m o =
    subst (λ x. Matches o x (lookup o r.operations)) (same_guard id o g gs held) (m o)

bind-IsSound :
    (id key : Text) (gs : Guards) (g : TransportOperationGuard) (entry : OperationEntry)
    (r : RegistryState) {a : Operation.BindResult}
    → IsConsistent r
    → AllMatch gs r
    → lookup id gs ≡ some g
    → lookup id r.operations ≡ some entry
    → Matches id (some g) (some entry)
    → Outcome g key entry r a
    → IsSound (bind_kept id gs a)
bind-IsSound id key gs g entry r c m held present w (Outcome.refused e) =
    sound r _ c (kept-AllMatch id g gs r held m)
bind-IsSound id key gs g entry r c m held present w (again h) =
    sound r _ c (kept-AllMatch id g gs r held m)
bind-IsSound id key gs g entry r c m held present (same, active, k, f) (fresh unbound free) =
    sound (bound g key entry r).2 _
      (bound-IsConsistent g key entry r (rw same present) unbound free c)
      (bound-AllMatch id key g entry gs r m same active f)

-- The entry of a guard that a caller holds.
pub record Held (id : Text) (gs : Guards) (r : RegistryState) (g : TransportOperationGuard)
    : Type 0 where
  pub entry : OperationEntry
  pub present : lookup id r.operations ≡ some entry
  pub same : g.operation_id ≡ id
  pub active : g.active ≡ true
  pub key : entry.resource_key ≡ g.resource_key
  pub flag : entry.cancellation ≡ g.cancellation

entry-Held :
    (id : Text) (gs : Guards) (r : RegistryState) (g : TransportOperationGuard)
    (o : Option OperationEntry)
    → lookup id r.operations ≡ o
    → Matches id (some g) o
    → Held id gs r g
entry-Held id gs r g none p w = absurd w
entry-Held id gs r g (some e) p (same, active, k, f) = record {
  entry = e;
  present = p;
  same = same;
  active = active;
  key = k;
  flag = f;
}

pub held :
    (id : Text) (gs : Guards) (r : RegistryState) (g : TransportOperationGuard)
    → AllMatch gs r
    → lookup id gs ≡ some g
    → Held id gs r g
held id gs r g m h =
    entry-Held id gs r g (lookup id r.operations) refl
      (subst (λ x. Matches id x (lookup id r.operations)) h (m id))

flags-IsConsistent :
    (flags : ℕ → Bool) (r : RegistryState)
    → IsConsistent r
    → IsConsistent (record r { flags = flags })
flags-IsConsistent flags r c = record {
  owner = c.owner;
  listed = c.listed;
  allocated = c.allocated;
  separate = c.separate;
}

removed-IsSound :
    (id : Text) (gs : Guards) (r : RegistryState) (g : TransportOperationGuard)
    → IsConsistent r
    → AllMatch gs r
    → lookup id gs ≡ some g
    → IsSound (record {
      registry = remove_registration g.operation_id g.resource_key r;
      guards = remove id gs;
    })
removed-IsSound id gs r g c m h =
    let w = held id gs r g m h in
    sound _ _ (remove_registration-IsConsistent g.operation_id g.resource_key r c) (
      subst (λ x. AllMatch (remove id gs) (remove_registration x g.resource_key r)) (sym w.same)
        (removed-AllMatch id g.resource_key gs r w.entry m w.present w.key))

pub release_active :
    (g : TransportOperationGuard) (r : RegistryState)
    → g.active ≡ true
    → Operation.release true g r ≡ remove_registration g.operation_id g.resource_key r
unfolding Operation.release
release_active g r h = ground arith

pub finish_active :
    (g : TransportOperationGuard) (r : RegistryState)
    → g.active ≡ true
    → Operation.finish_if_not_cancelled true g r
      ≡ (not (r.flags g.cancellation), remove_registration g.operation_id g.resource_key r)
unfolding Operation.finish_if_not_cancelled
finish_active g r h = ground arith

cancel_flags :
    (id : Text) (r : RegistryState)
    → (Operation.cancel id r).1 ≡ record r { flags = (Operation.cancel id r).1.flags }
unfolding Operation.cancel
cancel_flags id r = ground arith

cancel_owned_flags :
    (id plugin : Text) (d : TransportAuthorizationDomain) (r : RegistryState)
    → (Operation.cancel_owned id plugin d r).1
      ≡ record r { flags = (Operation.cancel_owned id plugin d r).1.flags }
unfolding Operation.cancel_owned
cancel_owned_flags id plugin d r = ground arith

pub no_guard : (id : Text) (o : Option TransportOperationGuard) → Matches id o none → o ≡ none
no_guard id none m = refl
no_guard id (some g) m = absurd m

pub absent_guard :
    (id : Text) (gs : Guards) (r : RegistryState)
    → AllMatch gs r
    → lookup id r.operations ≡ none
    → lookup id gs ≡ none
absent_guard id gs r m absent =
    no_guard id (lookup id gs) (subst (Matches id (lookup id gs)) absent (m id))

-- A guard that was never handed out leaves no trace.
unseen :
    (id : Text) (g : TransportOperationGuard) (gs : Guards) (o : Text)
    → lookup id gs ≡ none
    → lookup o (remove id (insert id g gs)) ≡ lookup o gs
unseen id g gs o absent =
    ground (arith, lookup-remove id o (insert id g gs), lookup-insert id o g gs, text_eq_iff id o)

unseen-AllMatch :
    (id : Text) (g : TransportOperationGuard) (gs : Guards) (r : RegistryState)
    → lookup id gs ≡ none
    → AllMatch (remove id (insert id g gs)) r
    → AllMatch gs r
unseen-AllMatch id g gs r absent m o =
    subst (λ x. Matches o x (lookup o r.operations)) (unseen id g gs o absent) (m o)

registered-IsSound :
    (id key : Text) (gs : Guards) (g : TransportOperationGuard) (entry : OperationEntry)
    (r : RegistryState) {a : Operation.BindResult}
    → IsConsistent r
    → AllMatch (insert id g gs) r
    → lookup id gs ≡ none
    → lookup id r.operations ≡ some entry
    → Matches id (some g) (some entry)
    → Outcome g key entry r a
    → IsSound (keep id gs (registered a))
unfolding registered keep bound
registered-IsSound id key gs g entry r c m absent present (same, active, k, f) (Outcome.refused e) =
    rw (release_active g r active) (
      sound _ _ (remove_registration-IsConsistent g.operation_id g.resource_key r c) (
        unseen-AllMatch id g gs (remove_registration g.operation_id g.resource_key r) absent (
          subst
            (λ x. AllMatch (remove id (insert id g gs)) (remove_registration x g.resource_key r))
            (sym same) (removed-AllMatch id g.resource_key (insert id g gs) r entry m present k))))
registered-IsSound id key gs g entry r c m absent present w (again h) = sound r _ c m
registered-IsSound id key gs g entry r c m absent present (same, active, k, f)
      (fresh unbound free) =
    sound (bound g key entry r).2 (insert id (bound g key entry r).1 gs)
      (bound-IsConsistent g key entry r
        (subst (λ x. lookup x r.operations ≡ some entry) (sym same) present) unbound free c)
      (rw (← insert-insert id (bound g key entry r).1 g gs)
        (bound-AllMatch id key g entry (insert id g gs) r m same active f))

register-IsSound :
    (id key : Text) (gs : Guards) (r : RegistryState)
    {a : Result TransportOperationGuard × RegistryState}
    → IsConsistent r
    → AllMatch gs r
    → ReserveOutcome id
        (codes "git-transport.internal")
        TransportAuthorizationDomain.repositories
        r
        a
    → IsSound (keep id gs (register_bind key a))
unfolding keep
register-IsSound id key gs r c m (ReserveOutcome.refused e) = sound r gs c m
register-IsSound id key gs r c m (entered absent) =
    let plugin = codes "git-transport.internal" in
    let d = TransportAuthorizationDomain.repositories in
    let e = new_entry plugin d r.next in
    let g = new_guard id r in
    let r' = reserved id plugin d r in
    let present : lookup id r'.operations ≡ some e =
      unfold reserved in lookup-insert_self id e r.operations in
    registered-IsSound id key gs g e r' (reserved-IsConsistent id plugin d r absent c)
      (reserved-AllMatch id plugin d gs r m) (absent_guard id gs r m absent) present
      (unfold new_guard in (refl, refl, refl, refl))
      (bind_resource-Outcome g key e r' (unfold new_guard in present) (unfold new_guard in refl)
        (unfold new_guard in refl) (unfold new_guard in refl))

pub step-IsSound : (c : Call) (s : System) → IsSound s → IsSound (step c s)
unfolding step
step-IsSound (reserve id plugin d) s i =
    reserve-IsSound id plugin d s.guards s.registry i.consistent i.matching
      (reserve-Outcome id plugin d s.registry)
step-IsSound (register id key) s i =
    unfold Operation.register in
    register-IsSound id key s.guards s.registry i.consistent i.matching (
      reserve-Outcome id (codes "git-transport.internal") TransportAuthorizationDomain.repositories
        s.registry)
step-IsSound (bind_resource id key) s i = elim (Option-cases (lookup id s.guards)) [
  | inl gone ↦ rw gone i
  | inr (g, h) ↦ rw h (
      let w = held id s.guards s.registry g i.matching h in
      bind-IsSound id key s.guards g w.entry s.registry i.consistent i.matching h w.present
        (w.same, w.active, w.key, w.flag)
        (bind_resource-Outcome g key w.entry s.registry
          (subst (λ x. lookup x s.registry.operations ≡ some w.entry) (sym w.same) w.present)
          w.active w.key w.flag))
]
step-IsSound (cancel_owned id plugin d) s i = rw cancel_owned_flags (
    sound _ _
      (flags-IsConsistent (Operation.cancel_owned id plugin d s.registry).1.flags s.registry
        i.consistent)
      i.matching)
step-IsSound (cancel id) s i = rw cancel_flags (
    sound _ _ (flags-IsConsistent (Operation.cancel id s.registry).1.flags s.registry i.consistent)
      i.matching)
step-IsSound (finish id) s i = elim (Option-cases (lookup id s.guards)) [
  | inl gone ↦ rw gone i
  | inr (g, h) ↦ rw h (
      let w = held id s.guards s.registry g i.matching h in
      rw (release_active g s.registry w.active)
        (removed-IsSound id s.guards s.registry g i.consistent i.matching h))
]
step-IsSound (finish_if_not_cancelled id) s i = elim (Option-cases (lookup id s.guards)) [
  | inl gone ↦ rw gone i
  | inr (g, h) ↦ rw h (
      let w = held id s.guards s.registry g i.matching h in
      rw (finish_active g s.registry w.active)
        (removed-IsSound id s.guards s.registry g i.consistent i.matching h))
]
