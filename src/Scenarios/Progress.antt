-- ===== src/Scenarios/Progress.antt =====
-- Progress lines of git/transport/progress.rs at work.
use git_ramus.Base.Tests.{ℕ, ◌≡◌, refl, false, Option, none, some, List, [], ◌∷◌, ◌++◌}
use git_ramus.Base.Text.{Text, codes, split_where}
use git_ramus.Transport.Progress.{GitProgressEvent, NetworkObjectProgress, parse_progress_line}
use git_ramus.Transport.Progress.Framing.{fresh, is_line_end, push}
use git_ramus.Transport.Progress.Lines.{read_all, push-lines}

-- No amount of bytes is read.
abbrev unread : Text → ℕ → Option ℕ
unread amount unit = none

abbrev writing : List ℕ
writing = codes "Writing objects: 5"

abbrev half : List ℕ
half = b'0' ∷ b'%' ∷ 13 ∷ b'x' ∷ []

abbrev half_done : GitProgressEvent
half_done = record { fraction = some 50; objects = none; bytes = none }

-- A line whose percentage stands behind an `é`.
abbrev accented : List ℕ
accented = codes "Writing objects: " ++ 0xc3 ∷ 0xa9 ∷ b'5' ∷ b'%' ∷ 10 ∷ []

-- A proof that unfolds it computes with every function of the parser.
progress_opened : Unit {0}
unfolding push codes git_ramus.Base.Utf8.from_utf8 git_ramus.Base.Text.strip_prefix
    git_ramus.Base.Text.trim_with git_ramus.Base.Text.trim_end git_ramus.Base.Text.trim_start
    git_ramus.Base.Text.is_whitespace git_ramus.Base.Text.split_once
    git_ramus.Base.Text.is_ascii_digit git_ramus.Base.Text.parse_unsigned
    git_ramus.Transport.Progress.parse_text git_ramus.Transport.Progress.strip_any
    git_ramus.Transport.Progress.parse_progress
progress_opened = tt

push-lines_example : push unread half fresh ≡ read_all unread [] (split_where is_line_end half)
push-lines_example = push-lines unread half

reported :
    push unread (writing ++ half) fresh
    ≡ some (half_done ∷ [], record { pending = b'x' ∷ []; dropping_oversized_line = false })
unfolding progress_opened
reported = refl

panics_on_accent : push unread accented fresh ≡ none
unfolding progress_opened
panics_on_accent = refl
