-- ===== src/Providers/Operations/Calls.antt =====
-- Sequences of calls of `OperationRegistry` of providers/cursor.rs. A caller holds the guard of an
-- operation exactly as long as the registry has its key, so a guard's drop is named by its key.
use git_ramus.Base.Tests.{List, [], ◌∷◌}
use git_ramus.Base.Text.{Text}
use git_ramus.Providers.Operations.{
  OperationKey, OperationRegistry, start, cancel, cancel_for_plugin_account, cancel_for_account,
  drop_guard,
}

pub data OperationCall : Type 0 where
  starts cancels drops : OperationKey → OperationCall
  cancels_plugin_account : Text → Text → OperationCall
  cancels_account : Text → OperationCall

unfoldable pub operation_step : OperationCall → OperationRegistry → OperationRegistry
operation_step (starts k) s = (start k s).1
operation_step (cancels k) s = (cancel k s).1
operation_step (drops k) s = drop_guard (record { key = k; token = 0 }) s
operation_step (cancels_plugin_account p a) s = (cancel_for_plugin_account p a s).1
operation_step (cancels_account a) s = (cancel_for_account a s).1

unfoldable pub operation_run : List OperationCall → OperationRegistry → OperationRegistry
unfolding operation_step
operation_run [] s = s
operation_run (c ∷ cs) s = operation_run cs (operation_step c s)
