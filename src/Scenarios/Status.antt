-- ===== src/Scenarios/Status.antt =====
-- A status output of Git, written and read back by git/parser.rs.
use git_ramus.Base.Tests.{◌≡◌, refl, List, [], ◌∷◌}
use git_ramus.Base.Text.{has_char, is_empty}
use git_ramus.Base.Lists.{all}
use git_ramus.Base.Utf8.{from_utf8}
use git_ramus.Base.Error.{ok}
use git_ramus.Git.Status.Model.{empty_snapshot}
use git_ramus.Git.Status.Records.{Bytes, parse_status_v2, with_counts}
use git_ramus.Git.Status.Render.{
  Item, head, ordinary, rename, untracked, ignored, all_records, terminated, apply_all, AllWritten,
}
use git_ramus.Git.Status.RoundTrip.{parse_status_v2-terminated}

abbrev name : Bytes
name = b'm' ∷ []

abbrev columns : List Bytes
columns = name ∷ name ∷ name ∷ name ∷ name ∷ name ∷ []

-- The second path is not ASCII.
abbrev items : List Item
items =
    head name name
    ∷ ordinary b'.' b'M' columns (0xc3 ∷ 0xa9 ∷ []) (0xe9 ∷ [])
    ∷ rename b'R' b'.' (name ∷ columns) name name (b'n' ∷ []) (b'n' ∷ [])
    ∷ untracked name name
    ∷ ignored name
    ∷ []

items-AllWritten : AllWritten items
unfolding has_char is_empty from_utf8 all
items-AllWritten = (
  (refl, refl, refl),
  (
    ((refl, refl), (refl, refl, refl)),
    (((refl, refl), (refl, refl, refl), (refl, refl, refl)), ((refl, refl, refl), (refl, tt))),
  ),
)

parse_status_v2-terminated_example :
    parse_status_v2 (terminated (all_records items))
    ≡ ok (with_counts (apply_all items empty_snapshot))
parse_status_v2-terminated_example = parse_status_v2-terminated items items-AllWritten
