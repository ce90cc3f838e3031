-- ===== src/Transport/Operation/Exclusion.antt =====
-- What the registry of git/transport/operation.rs guarantees to its callers.
use mathlib.Core.Path.{subst}
use git_ramus.Base.Tests.{
  ◌≡◌, refl, ◌≢◌, sym, ap, ◌∙◌, Bool, true, false, not, ◌&&◌, ◌||◌, Option, none, some, List, [],
  ◌∷◌, arith, if◌then◌else◌,
}
use git_ramus.Base.Text.{Text, text_eq, text_eq_iff, option_text_eq_iff}
use git_ramus.Base.Table.{lookup}
use git_ramus.Base.Error.{permission_denied, ok, err}
use git_ramus.Transport.Operation
use git_ramus.Transport.Operation.{
  OperationEntry, RegistryState, TransportOperationGuard, TransportAuthorizationDomain, domain_eq,
  remove_registration, store_flag,
}
use git_ramus.Transport.Operation.Invariant.{operations-remove}
use git_ramus.Transport.Operation.System.{System, empty, Call, step, run, Matches, IsSound}
use git_ramus.Transport.Operation.Soundness.{step-IsSound, finish_active, held}

empty-IsSound : IsSound empty
empty-IsSound = record {
  consistent = record {
    owner = λ key o h. unfold lookup in cc;
    listed = λ o key e h k. unfold lookup in cc;
    allocated = λ o e h. unfold lookup in cc;
    separate = λ o o' e e' h h' k. unfold lookup in cc;
  };
  matching = λ id. unfold lookup in tt;
}

run-IsSound : (cs : List Call) (s : System) → IsSound s → IsSound (run cs s)
unfolding run
run-IsSound [] s i = i
run-IsSound (c ∷ cs) s i = run-IsSound cs (step c s) (step-IsSound c s i)

some_equal : {a b : Text} → some a ≡ some b → a ≡ b
some_equal h = cc

none-ne-some : {e : OperationEntry} → none ≡ some e → ⊥
none-ne-some h = cc

no_entry : (id : Text) (o : Option OperationEntry) → Matches id none o → o ≡ none
no_entry id none m = refl
no_entry id (some e) m = absurd m

-- Whatever calls are made on an empty registry, two guards that are held for the same resource are
-- guards of the same operation.
pub resource_exclusive :
    (cs : List Call) (o o' key : Text) {g g' : TransportOperationGuard}
    → lookup o (run cs empty).guards ≡ some g
    → lookup o' (run cs empty).guards ≡ some g'
    → g.resource_key ≡ some key
    → g'.resource_key ≡ some key
    → o ≡ o'
resource_exclusive cs o o' key {g} {g'} h h' k k' =
    let i = run-IsSound cs empty empty-IsSound in
    let w = held o (run cs empty).guards (run cs empty).registry g i.matching h in
    let w' = held o' (run cs empty).guards (run cs empty).registry g' i.matching h' in
    let c = i.consistent in
    some_equal (
      sym (c.listed o key w.entry w.present (w.key ∙ k))
      ∙ c.listed o' key w'.entry w'.present (w'.key ∙ k'))

-- Whatever calls are made on an empty registry, an operation whose guard is gone is in neither
-- index: its identifier and its resource are free again.
pub released_when_gone :
    (cs : List Call) (o : Text)
    → lookup o (run cs empty).guards ≡ none
    → (lookup o (run cs empty).registry.operations ≡ none)
      × ((key : Text) → lookup key (run cs empty).registry.resources ≢ some o)
released_when_gone cs o gone =
    let i = run-IsSound cs empty empty-IsSound in
    let absent = no_entry o (lookup o (run cs empty).registry.operations) (
      subst (λ x. Matches o x (lookup o (run cs empty).registry.operations)) gone (i.matching o)) in
    (
      absent,
      λ key h.
          let (e, present, k) = i.consistent.owner key o h in none-ne-some (sym absent ∙ present),
    )

cancel_reaches :
    (r : RegistryState) (o : Text) {e : OperationEntry}
    → lookup o r.operations ≡ some e
    → (Operation.cancel o r).0 ≡ true
unfolding Operation.cancel
cancel_reaches r o present = ground arith

cancel_misses :
    (r : RegistryState) (o : Text) → lookup o r.operations ≡ none → (Operation.cancel o r).0 ≡ false
unfolding Operation.cancel
cancel_misses r o absent = ground arith

cancelled_flag :
    (r : RegistryState) (o : Text) (g : TransportOperationGuard) {e : OperationEntry}
    → lookup o r.operations ≡ some e
    → e.cancellation ≡ g.cancellation
    → not ((Operation.cancel o r).1.flags g.cancellation) ≡ false
unfolding Operation.cancel
cancelled_flag r o g present same = ground arith

gone_after :
    (r : RegistryState) (o : Text) (key : Option Text) {e : OperationEntry} {id : Text}
    → lookup o r.operations ≡ some e
    → e.resource_key ≡ key
    → id ≡ o
    → lookup o (remove_registration id key r).operations ≡ none
gone_after r o key {e} {id} present k same =
    ground
      (arith, operations-remove id key r o, text_eq_iff id o, option_text_eq_iff e.resource_key key)

cancel_owned_effect :
    (s : RegistryState) (o plugin : Text) (d : TransportAuthorizationDomain) (e' : OperationEntry)
    {e : OperationEntry}
    → lookup o s.operations ≡ some e
    → e.cancellation ≢ e'.cancellation
    → let (answer, s') = Operation.cancel_owned o plugin d s in
      let own = text_eq e.plugin_id plugin && domain_eq e.domain d in
      (answer ≡ (if own then ok true else err permission_denied))
      × (s'.flags e.cancellation ≡ (own || s.flags e.cancellation))
      × (s'.flags e'.cancellation ≡ s.flags e'.cancellation)
      × (s'.operations ≡ s.operations)
      × (s'.resources ≡ s.resources)
unfolding Operation.cancel_owned
cancel_owned_effect s o plugin d e' present other = ground arith

-- Completion and cancellation exclude one another, after any calls on an empty registry. While a
-- guard is held, `cancel` reports that it reached the operation, and a completion after it reports
-- failure; a completion reports success exactly if the flag is not set, and a cancellation after it
-- reports that it reached nothing.
pub one_winner :
    (cs : List Call) (o : Text) {g : TransportOperationGuard}
    → lookup o (run cs empty).guards ≡ some g
    → let r = (run cs empty).registry in
      ((Operation.cancel o r).0 ≡ true)
      × ((Operation.finish_if_not_cancelled true g (Operation.cancel o r).1).0 ≡ false)
      × ((Operation.finish_if_not_cancelled true g r).0 ≡ not (r.flags g.cancellation))
      × ((Operation.cancel o (Operation.finish_if_not_cancelled true g r).1).0 ≡ false)
one_winner cs o {g} h =
    let i = run-IsSound cs empty empty-IsSound in
    let r = (run cs empty).registry in
    let w = held o (run cs empty).guards r g i.matching h in
    let done = finish_active g r w.active in
    (
      cancel_reaches r o w.present,
      rw (finish_active g (Operation.cancel o r).1 w.active)
          (cancelled_flag r o g w.present w.flag),
      ap (λ (x : Bool × RegistryState). x.0) done,
      rw done (cancel_misses _ o (gone_after r o g.resource_key w.present w.key w.same)),
    )

-- `cancel_owned` by another plugin or for another domain is denied and changes nothing. By the
-- owner it succeeds and sets the operation's flag. It never touches the flag of another operation,
-- nor either index. The registry is one that calls on an empty registry can make.
pub cancel_owned_isolated :
    (cs : List Call) (o o' plugin : Text) (d : TransportAuthorizationDomain) {e e' : OperationEntry}
    → lookup o (run cs empty).registry.operations ≡ some e
    → lookup o' (run cs empty).registry.operations ≡ some e'
    → o ≢ o'
    → let s = (run cs empty).registry in
      let (answer, s') = Operation.cancel_owned o plugin d s in
      let own = text_eq e.plugin_id plugin && domain_eq e.domain d in
      (answer ≡ (if own then ok true else err permission_denied))
      × (s'.flags e.cancellation ≡ (own || s.flags e.cancellation))
      × (s'.flags e'.cancellation ≡ s.flags e'.cancellation)
      × (s'.operations ≡ s.operations)
      × (s'.resources ≡ s.resources)
cancel_owned_isolated cs o o' plugin d {e} {e'} present present' other =
    let c = (run-IsSound cs empty empty-IsSound).consistent in
    cancel_owned_effect (run cs empty).registry o plugin d e' present
      (λ k. other (c.separate o o' e e' present present' k))
