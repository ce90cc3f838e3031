-- ===== src/Git/Config.antt =====
-- git/parser.rs: `parse_git_config`, which reads the NUL-terminated output of `git config`.
pub mod RoundTrip
use git_ramus.Base.Tests.{
  ℕ, suc, Bool, true, false, not, ◌&&◌, ◌||◌, Option, none, some, List, [], ◌∷◌, leb, ◌==◌,
  if◌then◌else◌,
}
use git_ramus.Base.Text.{Text, codes, text_eq, is_empty, split}
use git_ramus.Base.Utf8.{from_utf8}
use git_ramus.Base.Table.{Table}
use git_ramus.Base.Error.{AppError, invalid_input, output_limit, Result, ok, err, and_then}
use git_ramus.Git.Status.Header.{invalid_path}
use git_ramus.Git.Status.Records.{Bytes, decoded, decode_path, ends_with_nul}

abbrev pub max_config_entries : ℕ
max_config_entries = 4096

-- `BTreeMap<String, String>`; the order of its keys plays no part here.
abbrev pub GitConfig : Type 0
GitConfig = Table Text

-- `entry(key).or_insert(value)`
unfoldable pub or_insert : Text → Text → GitConfig → GitConfig
or_insert k v [] = (k, v) ∷ []
or_insert k v ((j, w) ∷ m) = if text_eq j k then (j, w) ∷ m else (j, w) ∷ or_insert k v m

unfoldable pub is_config_separator : ℕ → Bool
is_config_separator byte = byte == 10 || (byte == 9 || byte == b'=')

-- `position` of a separator, and the two slices beside it
unfoldable pub split_at_separator : Bytes → Option (Bytes × Bytes)
unfolding is_config_separator
split_at_separator [] = none
split_at_separator (b ∷ bs) =
    let rest = split_at_separator bs in
    if is_config_separator b
    then some ([], bs)
    else elim rest [ none ↦ none | some at ↦ some (b ∷ at.0, at.1) ]

unfoldable pub decode_config_key : Bytes → Result Text
unfolding decode_path
decode_config_key value =
    if is_empty value then err (invalid_input (codes "empty Git config key")) else decode_path value

unfoldable pub decode_config_value : Bytes → Result Text
decode_config_value value = decoded (from_utf8 value)

-- One entry that the loop has found, and the rest of the loop.
abbrev pub store_entry :
    ℕ → Bytes → Bytes → GitConfig → (GitConfig → Result GitConfig) → Result GitConfig
store_entry entries key value config rest =
    if leb max_config_entries entries
    then err output_limit
    else and_then (decode_config_key key)
        λ k. and_then (decode_config_value value) λ v. rest (or_insert k v config)

abbrev pub unpaired : Result GitConfig
unpaired = err (invalid_input (codes "unpaired Git config key"))

-- The rest of the loop: `key` is one that stood in a record of its own, whose value comes next.
abbrev pub Loop : Type 0
Loop = Option Bytes → Bool → ℕ → GitConfig → Result GitConfig

abbrev pub store_next : ℕ → Bytes → Bytes → GitConfig → Loop → Result GitConfig
store_next entries key value config next =
    store_entry entries key value config (λ c. next none true (suc entries) c)

abbrev pub first_record :
    Option (Bytes × Bytes) → Bytes → Bool → ℕ → GitConfig → Loop → Result GitConfig
first_record none record_bytes saw_record entries config next =
    next (some record_bytes) saw_record entries config
first_record (some at) record_bytes saw_record entries config next =
    store_next entries at.0 at.1 config next

-- One record; `last` says that `peek` has nothing behind it.
abbrev pub read_record :
    Bytes → Option Bytes → Bool → Bool → ℕ → GitConfig → Loop → Result GitConfig
read_record value (some key) last saw_record entries config next =
    if is_empty value && last then unpaired else store_next entries key value config next
read_record record_bytes none last saw_record entries config next =
    if is_empty record_bytes
    then (if saw_record && last
        then ok config
        else err (invalid_input (codes "empty Git config key")))
    else first_record (split_at_separator record_bytes) record_bytes saw_record entries config next

abbrev pub no_record : Option Bytes → GitConfig → Result GitConfig
no_record none config = ok config
no_record (some key) config = unpaired

unfoldable pub parse_entries : List Bytes → Loop
parse_entries [] key saw_record entries config = no_record key config
parse_entries (record_bytes ∷ records) key saw_record entries config =
    let next = parse_entries records in
    read_record record_bytes key (is_empty records) saw_record entries config next

unfoldable pub parse_git_config : Bytes → Result GitConfig
parse_git_config input =
    if not (is_empty input) && not (ends_with_nul input)
    then err (invalid_input (codes "Git config stream is not NUL terminated"))
    else if is_empty input
    then ok []
    else parse_entries (split 0 input) none false 0 []
