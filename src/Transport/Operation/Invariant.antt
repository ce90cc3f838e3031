-- ===== src/Transport/Operation/Invariant.antt =====
-- The two indexes of the registry of git/transport/operation.rs agree.
use git_ramus.Base.Tests.{
  ◌<◌, ◌≡◌, Bool, false, ◌&&◌, Option, none, some, arith, inl, inr, Bool-cases, if◌then◌else◌,
}
use git_ramus.Base.Text.{Text, text_eq, text_eq_iff, option_text_eq, option_text_eq_iff}
use git_ramus.Base.Table.{Table, lookup, insert, lookup-insert, lookup-remove}
use git_ramus.Transport.Operation.{
  OperationEntry, RegistryState, TransportOperationGuard, TransportAuthorizationDomain, new_entry,
  reserved, bound, remove_registration,
}

-- A resource belongs to the operation whose entry names it, and to no other; every flag that an
-- entry points to has been allocated, and no two operations share one.
pub record IsConsistent (s : RegistryState) : Type 0 where
  pub owner :
      (key o : Text)
      → lookup key s.resources ≡ some o
      → (e : OperationEntry) × (lookup o s.operations ≡ some e) × (e.resource_key ≡ some key)
  pub listed :
      (o key : Text) (e : OperationEntry)
      → lookup o s.operations ≡ some e
      → e.resource_key ≡ some key
      → lookup key s.resources ≡ some o
  pub allocated :
      (o : Text) (e : OperationEntry) → lookup o s.operations ≡ some e → e.cancellation < s.next
  pub separate :
      (o o' : Text) (e e' : OperationEntry)
      → lookup o s.operations ≡ some e
      → lookup o' s.operations ≡ some e'
      → e.cancellation ≡ e'.cancellation
      → o ≡ o'

pub reserved-IsConsistent :
    (id plugin : Text) (d : TransportAuthorizationDomain) (s : RegistryState)
    → lookup id s.operations ≡ none
    → IsConsistent s
    → IsConsistent (reserved id plugin d s)
unfolding reserved
reserved-IsConsistent id plugin d s absent c = record {
  owner = λ key o h.
      let (e, present, k) = c.owner key o h in (e, ground (arith, text_eq_iff id o, new o), k);
  listed = λ o key e h k. ground (arith, text_eq_iff id o, new o, c.listed o key e);
  allocated = λ o e h. ground (arith, text_eq_iff id o, new o, c.allocated o e);
  separate = λ o o' e e' h h' k. ground (
    arith,
    text_eq_iff id o,
    text_eq_iff id o',
    new o,
    new o',
    c.allocated o e,
    c.allocated o' e',
    c.separate o o' e e',
  );
}
  where
    new :
        (o : Text)
        → lookup o (insert id (new_entry plugin d s.next) s.operations)
          ≡ (if text_eq id o then some (new_entry plugin d s.next) else lookup o s.operations)
    new o = lookup-insert id o (new_entry plugin d s.next) s.operations

abbrev pub keyed : OperationEntry → Text → OperationEntry
keyed entry key = record entry { resource_key = some key }

pub bound-IsConsistent :
    (g : TransportOperationGuard) (key : Text) (entry : OperationEntry) (s : RegistryState)
    → lookup g.operation_id s.operations ≡ some entry
    → entry.resource_key ≡ none
    → lookup key s.resources ≡ none
    → IsConsistent s
    → IsConsistent (bound g key entry s).2
unfolding bound
bound-IsConsistent g key entry s present unbound free c = record {
  owner = λ k o h. bound_owner k o h;
  listed =
      λ o k e h q. ground (arith, text_eq_iff id o, text_eq_iff key k, op o, res k, c.listed o k e);
  allocated =
      λ o e h. ground (arith, text_eq_iff id o, op o, c.allocated o e, c.allocated id entry);
  separate = λ o o' e e' h h' k. ground (
    arith,
    text_eq_iff id o,
    text_eq_iff id o',
    op o,
    op o',
    c.separate o o' e e',
    c.separate id o' entry e',
    c.separate o id e entry,
  );
}
  where
    id : Text
    id = g.operation_id

    op :
        (o : Text)
        → lookup o (insert id (keyed entry key) s.operations)
          ≡ (if text_eq id o then some (keyed entry key) else lookup o s.operations)
    op o = lookup-insert id o (keyed entry key) s.operations

    res :
        (k : Text)
        → lookup k (insert key id s.resources)
          ≡ (if text_eq key k then some id else lookup k s.resources)
    res k = lookup-insert key k id s.resources

    bound_owner :
        (k o : Text)
        → lookup k (insert key id s.resources) ≡ some o
        → (e : OperationEntry) × (lookup o (insert id (keyed entry key) s.operations) ≡ some e)
          × (e.resource_key ≡ some k)
    bound_owner k o h = elim (Bool-cases (text_eq key k)) [
      | inl same ↦ (
        keyed entry key,
        ground (arith, res k, op o, text_eq_iff id o),
        ground (arith, text_eq_iff key k),
      )
      | inr other ↦
          let (e, p, q) = c.owner k o (ground (arith, res k)) in
          (e, ground (arith, op o, text_eq_iff id o), q)
    ]

abbrev pub owns : Option OperationEntry → Option Text → Bool
owns none key = false
owns (some e) key = option_text_eq e.resource_key key

abbrev is_owner : Text → Option Text → Bool
is_owner id none = false
is_owner id (some o) = text_eq o id

-- `remove_registration` drops the binding of `k`.
abbrev drops : Text → Option Text → Text → Table Text → Bool
drops id none k m = false
drops id (some key) k m = is_owner id (lookup key m) && text_eq key k

pub operations-remove :
    (id : Text) (key : Option Text) (s : RegistryState) (o : Text)
    → lookup o (remove_registration id key s).operations
      ≡ (if owns (lookup id s.operations) key && text_eq id o then none else lookup o s.operations)
unfolding remove_registration
operations-remove id none s o = ground (arith, lookup-remove id o s.operations)
operations-remove id (some key) s o = ground (arith, lookup-remove id o s.operations)

resources-remove :
    (id : Text) (key : Option Text) (s : RegistryState) (k : Text)
    → lookup k (remove_registration id key s).resources
      ≡ (if drops id key k s.resources then none else lookup k s.resources)
unfolding remove_registration
resources-remove id none s k = ground arith
resources-remove id (some key) s k = ground (arith, lookup-remove key k s.resources)

next-remove :
    (id : Text) (key : Option Text) (s : RegistryState)
    → (remove_registration id key s).next ≡ s.next
unfolding remove_registration
next-remove id none s = ground arith
next-remove id (some key) s = ground arith

pub flags-remove :
    (id : Text) (key : Option Text) (s : RegistryState)
    → (remove_registration id key s).flags ≡ s.flags
unfolding remove_registration
flags-remove id none s = ground arith
flags-remove id (some key) s = ground arith

listed-remove :
    (id : Text) (key : Option Text) (s : RegistryState)
    → IsConsistent s
    → (o k : Text) (e : OperationEntry)
    → lookup o (remove_registration id key s).operations ≡ some e
    → e.resource_key ≡ some k
    → lookup k (remove_registration id key s).resources ≡ some o
listed-remove id none s c o k e h q =
    ground (arith, operations-remove id none s o, resources-remove id none s k, c.listed o k e)
listed-remove id (some key) s c o k e h q = ground (
  arith,
  operations-remove id (some key) s o,
  resources-remove id (some key) s k,
  c.listed o k e,
  option_text_eq_iff e.resource_key (some key),
  text_eq_iff key k,
  text_eq_iff id o,
  text_eq_iff o id,
)

pub remove_registration-IsConsistent :
    (id : Text) (key : Option Text) (s : RegistryState)
    → IsConsistent s
    → IsConsistent (remove_registration id key s)
remove_registration-IsConsistent id key s c = record {
  owner = λ k o h.
      let (e, p, q) = c.owner k o (ground (arith, resources-remove id key s k)) in
      (
        e,
        ground (
          arith,
          operations-remove id key s o,
          resources-remove id key s k,
          option_text_eq_iff e.resource_key key,
          text_eq_iff id o,
          text_eq_iff o id,
          text_eq_iff k k,
        ),
        q,
      );
  listed = λ o k e h q. listed-remove id key s c o k e h q;
  allocated =
      λ o e h. ground (arith, operations-remove id key s o, next-remove id key s, c.allocated o e);
  separate = λ o o' e e' h h' k.
      ground
        (arith, operations-remove id key s o, operations-remove id key s o', c.separate o o' e e');
}
