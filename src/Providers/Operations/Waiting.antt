-- ===== src/Providers/Operations/Waiting.antt =====
-- Waiting until no operation is under way, in `OperationRegistry` of providers/cursor.rs, while other
-- callers go on.
use git_ramus.Base.Tests.{Bool, true, not, ◌||◌, ◌&&◌, List, [], ◌∷◌}
use git_ramus.Base.Lists.{any}
use git_ramus.Providers.Operations.{OperationKey, key_eq, Tokens, OperationRegistry}
use git_ramus.Providers.Operations.Calls.{OperationCall, starts, drops, operation_step}

-- The registries after each of the calls.
unfoldable pub registries : List OperationCall → OperationRegistry → List OperationRegistry
unfolding operation_step
registries [] s = []
registries (c ∷ cs) s = operation_step c s ∷ registries cs (operation_step c s)

-- The operations whose guards the calls drop.
unfoldable pub dropped : List OperationCall → List OperationKey
dropped [] = []
dropped (drops k ∷ cs) = k ∷ dropped cs
dropped (_ ∷ cs) = dropped cs

-- No call starts an operation that is waited for.
unfoldable pub starts_none : (OperationKey → Bool) → List OperationCall → Bool
starts_none p [] = true
starts_none p (starts k ∷ cs) = not (p k) && starts_none p cs
starts_none p (_ ∷ cs) = starts_none p cs

-- Every running operation that is waited for is one of these.
unfoldable pub all_of : (OperationKey → Bool) → List OperationKey → Tokens → Bool
unfolding any key_eq
all_of p ks [] = true
all_of p ks ((k, _) ∷ t) = (not (p k) || any (key_eq k) ks) && all_of p ks t
