-- ===== src/Providers/Cursor/Calls.antt =====
-- Sequences of calls of `CursorStore` of providers/cursor.rs, by any callers at any times.
use git_ramus.Base.Tests.{ℕ, List, [], ◌∷◌}
use git_ramus.Base.Text.{Text}
use git_ramus.Providers.Cursor.{CursorEntry, CursorStore, Claim, insert_cursor, take}

pub data CursorCall : Type 0 where
  inserts : Text → CursorEntry → ℕ → CursorCall
  takes : Text → Claim → ℕ → CursorCall

unfoldable pub cursor_step : CursorCall → CursorStore → CursorStore
cursor_step (inserts id entry now) s = insert_cursor id entry now s
cursor_step (takes cursor c now) s = (take cursor c now s).1

unfoldable pub cursor_run : List CursorCall → CursorStore → CursorStore
unfolding cursor_step
cursor_run [] s = s
cursor_run (c ∷ cs) s = cursor_run cs (cursor_step c s)
