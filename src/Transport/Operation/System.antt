-- ===== src/Transport/Operation/System.antt =====
-- The registry of git/transport/operation.rs together with the guards that its callers hold, under
-- every sequence of calls. A caller reaches its guard by the operation's identifier.
use git_ramus.Base.Tests.{◌≡◌, true, Option, none, some, List, [], ◌∷◌}
use git_ramus.Base.Text.{Text}
use git_ramus.Base.Table.{Table, lookup, insert, remove}
use git_ramus.Base.Error.{Result, ok, err}
use git_ramus.Transport.Operation
use git_ramus.Transport.Operation.{
  OperationEntry, RegistryState, TransportOperationGuard, TransportAuthorizationDomain,
}
use git_ramus.Transport.Operation.Invariant.{IsConsistent}

pub record System : Type 0 where
  pub registry : RegistryState
  pub guards : Table TransportOperationGuard

abbrev pub empty : System
empty = record { registry = Operation.empty; guards = [] }

pub data Call : Type 0 where
  reserve : Text → Text → TransportAuthorizationDomain → Call
  register : Text → Text → Call
  bind_resource : Text → Text → Call
  cancel_owned : Text → Text → TransportAuthorizationDomain → Call
  cancel : Text → Call
  finish : Text → Call
  finish_if_not_cancelled : Text → Call

-- A returned guard is kept by the caller.
unfoldable pub keep :
    Text → Table TransportOperationGuard → Result TransportOperationGuard × RegistryState → System
keep id guards (ok g, s) = record { registry = s; guards = insert id g guards }
keep id guards (err e, s) = record { registry = s; guards = guards }

abbrev pub bind_kept : Text → Table TransportOperationGuard → Operation.BindResult → System
bind_kept id guards (answer, g, s) = record { registry = s; guards = insert id g guards }

-- What a call does to a guard that the caller holds; a call for a guard that is gone does nothing.
unfoldable pub with_guard :
    (TransportOperationGuard → System) → System → Option TransportOperationGuard → System
with_guard f s none = s
with_guard f s (some g) = f g

unfoldable pub step : Call → System → System
unfolding keep with_guard
step (reserve id plugin d) s = keep id s.guards (Operation.reserve id plugin d s.registry)
step (register id key) s = keep id s.guards (Operation.register id key s.registry)
step (bind_resource id key) s =
    with_guard (λ g. bind_kept id s.guards (Operation.bind_resource true g key s.registry)) s
      (lookup id s.guards)
step (cancel_owned id plugin d) s = record s {
  registry = (Operation.cancel_owned id plugin d s.registry).1;
}
step (cancel id) s = record s { registry = (Operation.cancel id s.registry).1 }
step (finish id) s =
    with_guard
      (λ g. record { registry = Operation.release true g s.registry; guards = remove id s.guards })
      s (lookup id s.guards)
step (finish_if_not_cancelled id) s =
    with_guard
      (λ g. record {
        registry = (Operation.finish_if_not_cancelled true g s.registry).1;
        guards = remove id s.guards;
      })
      s (lookup id s.guards)

unfoldable pub run : List Call → System → System
unfolding step
run [] s = s
run (c ∷ cs) s = run cs (step c s)

-- The guard that the caller holds for an operation and the operation's entry belong together.
abbrev pub Matches : Text → Option TransportOperationGuard → Option OperationEntry → Type 0
Matches id none none = Unit {0}
Matches id none (some e) = ⊥
Matches id (some g) none = ⊥
Matches id (some g) (some e) =
    (g.operation_id ≡ id)
    × (g.active ≡ true)
    × (e.resource_key ≡ g.resource_key)
    × (e.cancellation ≡ g.cancellation)

pub record IsSound (s : System) : Type 0 where
  pub consistent : IsConsistent s.registry
  pub matching : (id : Text) → Matches id (lookup id s.guards) (lookup id s.registry.operations)
