-- ===== src/Scenarios/Config.antt =====
-- `parse_git_config` of git/parser.rs at work.
use git_ramus.Base.Tests.{ℕ, ◌≡◌, refl, Option, none, some, List, [], ◌∷◌, ◌++◌, arith}
use git_ramus.Base.Lists.{any}
use git_ramus.Base.Text.{Text, codes, has_char, is_empty}
use git_ramus.Base.Utf8.{from_utf8}
use git_ramus.Base.Table.{lookup}
use git_ramus.Base.Error.{ok}
use git_ramus.Git.Status.Render.{terminated}
use git_ramus.Git.Config.{max_config_entries, GitConfig, is_config_separator, parse_git_config}
use git_ramus.Git.Config.RoundTrip.{
  ConfigEntry, config_records, IsWrittenEntry, first_value, parse_git_config-written,
}

abbrev letter : Text
letter = b'a' ∷ []

abbrev entry_of : Option ℕ → Text → ConfigEntry
entry_of separator value = record {
  separator = separator;
  key_bytes = letter;
  value_bytes = value;
  key = letter;
  value = value;
}

-- An empty value in a record of its own, and another value of the same key behind a line feed.
abbrev entries : List ConfigEntry
entries = entry_of none [] ∷ entry_of (some 10) letter ∷ []

first_written : IsWrittenEntry (entry_of none [])
unfolding is_empty any is_config_separator has_char from_utf8
first_written = record {
  separated = refl;
  named = refl;
  plain = refl;
  key_clean = refl;
  value_clean = refl;
  key_utf8 = refl;
  value_utf8 = refl;
}

second_written : IsWrittenEntry (entry_of (some 10) letter)
unfolding is_empty any is_config_separator has_char from_utf8
second_written = record {
  separated = refl;
  named = refl;
  plain = refl;
  key_clean = refl;
  value_clean = refl;
  key_utf8 = refl;
  value_utf8 = refl;
}

parse_git_config-written_example :
    (config : GitConfig) × (parse_git_config (terminated (config_records entries)) ≡ ok config)
    × ((k : Text) → lookup k config ≡ first_value k entries)
parse_git_config-written_example =
    parse_git_config-written entries (first_written, (second_written, tt)) (omega arith)

-- A key with an equals sign is cut there, although a line feed ends it.
splits_at_equals :
    parse_git_config (codes "a=b" ++ 10 ∷ b'c' ∷ 0 ∷ []) ≡ ok ((letter, b'b' ∷ 10 ∷ b'c' ∷ []) ∷ [])
unfolding parse_git_config codes is_empty git_ramus.Git.Status.Records.ends_with_nul
    git_ramus.Git.Config.parse_entries git_ramus.Base.Text.split
    git_ramus.Git.Config.split_at_separator git_ramus.Git.Config.decode_config_key
    git_ramus.Git.Config.decode_config_value git_ramus.Git.Config.or_insert
splits_at_equals = refl
