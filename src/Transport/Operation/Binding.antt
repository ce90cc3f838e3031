-- ===== src/Transport/Operation/Binding.antt =====
-- The outcomes of `bind_resource` and `reserve` of git/transport/operation.rs for a guard whose
-- entry is there.
use git_ramus.Base.Tests.{
  ◌≡◌, refl, sym, ap, ==_iff, ◌∙◌, true, ◌||◌, Option, none, some, inl, inr, Bool-cases,
  Option-cases, ◌==◌,
}
use git_ramus.Base.Text.{Text, text_eq, text_eq_iff, is_empty, codes}
use git_ramus.Base.Table.{lookup}
use git_ramus.Base.Error.{AppError, invalid_input, canceled, repository_busy, Result, ok, err}
use git_ramus.Transport.Operation.{
  OperationEntry, RegistryState, TransportOperationGuard, TransportAuthorizationDomain, BindResult,
  bound, bind_key, bind_entry, bind_resource, reserve, reserved, new_guard,
}

-- Refused, bound to this key before, or bound now.
pub data Outcome (g : TransportOperationGuard) (key : Text) (entry : OperationEntry)
    (s : RegistryState) : BindResult → Type 0 where
  refused : (e : AppError) → Outcome g key entry s (err e, g, s)
  again : g.resource_key ≡ some key → Outcome g key entry s (ok tt, g, s)
  fresh :
      entry.resource_key ≡ none
      → lookup key s.resources ≡ none
      → Outcome g key entry s (bound g key entry s)

module _ (g : TransportOperationGuard) (key : Text) (entry : OperationEntry)
    (s : RegistryState) where
  bind_key-Outcome :
      (o : Option Text)
      → entry.resource_key ≡ o
      → g.resource_key ≡ o
      → Outcome g key entry s (bind_key g key entry s o)
  unfolding bind_key
  bind_key-Outcome none k gk = elim (Option-cases (lookup key s.resources)) [
    | inl free ↦ rw free (fresh k free)
    | inr (o, taken) ↦ rw taken (refused repository_busy)
  ]
  bind_key-Outcome (some b) k gk = elim (Bool-cases (text_eq b key)) [
    | inl same ↦ rw same (again (gk ∙ ap some ((text_eq_iff b key).0 same)))
    | inr other ↦
        rw other (
          refused
            (invalid_input (codes "transport operation is already bound to another resource")))
  ]

  bind_entry-Outcome :
      entry.resource_key ≡ g.resource_key
      → (entry.cancellation == g.cancellation) ≡ true
      → Outcome g key entry s (bind_entry g key entry s)
  unfolding bind_entry
  bind_entry-Outcome k same = elim (Bool-cases (s.flags g.cancellation)) [
    | inl asked ↦ rw (same, asked) (refused canceled)
    | inr calm ↦ rw (same, calm) (bind_key-Outcome entry.resource_key refl (sym k))
  ]

  pub bind_resource-Outcome :
      lookup g.operation_id s.operations ≡ some entry
      → g.active ≡ true
      → entry.resource_key ≡ g.resource_key
      → entry.cancellation ≡ g.cancellation
      → Outcome g key entry s (bind_resource true g key s)
  unfolding bind_resource
  bind_resource-Outcome present active k c = elim (Bool-cases (is_empty key)) [
    | inl nothing ↦
        rw nothing (refused (invalid_input (codes "transport operation resource is empty")))
    | inr full ↦ rw full (simp (active, present) (bind_entry-Outcome k ((==_iff _ _).1 c)))
  ]

-- `reserve` refuses and changes nothing, or enters a new operation.
pub data ReserveOutcome (id plugin : Text) (d : TransportAuthorizationDomain) (s : RegistryState)
    : Result TransportOperationGuard × RegistryState → Type 0 where
  refused : (e : AppError) → ReserveOutcome id plugin d s (err e, s)
  entered :
      lookup id s.operations ≡ none
      → ReserveOutcome id plugin d s (ok (new_guard id s), reserved id plugin d s)

pub reserve-Outcome :
    (id plugin : Text) (d : TransportAuthorizationDomain) (s : RegistryState)
    → ReserveOutcome id plugin d s (reserve id plugin d s)
unfolding reserve
reserve-Outcome id plugin d s = elim (Bool-cases (is_empty id || is_empty plugin)) [
  | inl nothing ↦
      rw nothing
        (ReserveOutcome.refused (invalid_input (codes "transport operation identity is empty")))
  | inr full ↦ rw full (elim (Option-cases (lookup id s.operations)) [
    | inl absent ↦ rw absent (entered absent)
    | inr (e, present) ↦ rw present (ReserveOutcome.refused repository_busy)
  ])
]
