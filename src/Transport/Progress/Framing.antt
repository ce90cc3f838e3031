-- ===== src/Transport/Progress/Framing.antt =====
-- `GitProgressParser::push` of git/transport/progress.rs.
use git_ramus.Base.Tests.{
  ℕ, Bool, true, false, not, ◌&&◌, ◌||◌, Option, none, some, List, [], ◌∷◌, ◌++◌, ◌*◌, ◌==◌,
  if◌then◌else◌,
}
use git_ramus.Base.Lists.{length}
use git_ramus.Base.Text.{Text, is_empty}
use git_ramus.Transport.Progress.{GitProgressEvent, Panics, option_bind, parse_progress_line}

abbrev pub max_incomplete_line_bytes : ℕ
max_incomplete_line_bytes = 8 * 1024

pub record GitProgressParser : Type 0 where
  pub pending : List ℕ
  pub dropping_oversized_line : Bool

-- `GitProgressParser::default`
abbrev pub fresh : GitProgressParser
fresh = record { pending = []; dropping_oversized_line = false }

unfoldable pub is_line_end : ℕ → Bool
is_line_end byte = byte == 13 || byte == 10

-- The events of a call so far, and the parser it leaves.
abbrev pub Pushed : Type 0
Pushed = Panics (List GitProgressEvent × GitProgressParser)

abbrev pub event_list : Option GitProgressEvent → List GitProgressEvent
event_list none = []
event_list (some e) = e ∷ []

-- What a call does with the rest, behind the events that it has.
abbrev pub and_push : Pushed → (GitProgressParser → Pushed) → Pushed
and_push m k =
    option_bind m λ before. option_bind (k before.1) λ after. some (before.0 ++ after.0, after.1)

module _ (scaled : Text → ℕ → Option ℕ) where
  unfoldable pub end_line : GitProgressParser → Pushed
  unfolding is_empty parse_progress_line
  end_line p =
      if not p.dropping_oversized_line && not (is_empty p.pending)
      then option_bind (parse_progress_line scaled p.pending)
          (λ event. some (event_list event, fresh))
      else some ([], fresh)

  unfoldable pub push_byte : GitProgressParser → ℕ → Pushed
  unfolding end_line is_line_end
  push_byte p byte =
      if is_line_end byte
      then end_line p
      else if p.dropping_oversized_line
      then some ([], p)
      else if length p.pending == max_incomplete_line_bytes
      then some ([], record { pending = []; dropping_oversized_line = true })
      else some ([], record { pending = p.pending ++ byte ∷ []; dropping_oversized_line = false })

  unfoldable pub push : List ℕ → GitProgressParser → Pushed
  unfolding push_byte
  push [] p = some ([], p)
  push (byte ∷ bytes) p = and_push (push_byte p byte) λ q. push bytes q
