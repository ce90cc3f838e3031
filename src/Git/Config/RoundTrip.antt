-- ===== src/Git/Config/RoundTrip.antt =====
-- `parse_git_config` of git/parser.rs on the entries that Git writes, in either of its two forms.
use mathlib.Core.List.{append_assoc}
use git_ramus.Base.Tests.{
  ℕ, suc, ◌+◌, ◌≤◌, ◌<◌, ◌≡◌, refl, ◌∙◌, Bool, true, false, not, ◌&&◌, Option, none, some, List, [],
  ◌∷◌, ◌++◌, arith, leb, ◌==◌, Bool-cases, Option-cases, inl, inr, and_iff, if◌then◌else◌,
}
use git_ramus.Base.Lists.{length, any, all, all-append}
use git_ramus.Base.Text.{Text, text_eq, text_eq_iff, has_char, has_char-append, is_empty}
use git_ramus.Base.Utf8.{from_utf8}
use git_ramus.Base.Table.{lookup}
use git_ramus.Base.Error.{output_limit, Result, ok, err}
use git_ramus.Git.Status.Records.{Bytes, decode_path}
use git_ramus.Git.Status.Render.{terminated}
use git_ramus.Git.Status.RoundTrip.{clean, split-terminated, ends_with_nul-terminated}
use git_ramus.Git.Config.{
  max_config_entries, GitConfig, or_insert, is_config_separator, split_at_separator,
  decode_config_key, decode_config_value, store_entry, parse_entries, parse_git_config,
}

-- An entry of the output: the key and the value as bytes and as texts. They stand in one record with
-- a separator between them, or in two records.
pub record ConfigEntry : Type 0 where
  pub separator : Option ℕ
  pub key_bytes : Bytes
  pub value_bytes : Bytes
  pub key : Text
  pub value : Text

abbrev entry_records : Option ℕ → Bytes → Bytes → List Bytes
entry_records none key value = key ∷ value ∷ []
entry_records (some s) key value = (key ++ s ∷ value) ∷ []

unfoldable pub config_records : List ConfigEntry → List Bytes
config_records [] = []
config_records (e ∷ es) = entry_records e.separator e.key_bytes e.value_bytes ++ config_records es

abbrev separates : Option ℕ → Bool
separates none = true
separates (some s) = is_config_separator s && not (s == 0)

-- The key is not empty and has no separator in it; neither part has a NUL; both are UTF-8.
pub record IsWrittenEntry (e : ConfigEntry) : Type 0 where
  pub separated : separates e.separator ≡ true
  pub named : is_empty e.key_bytes ≡ false
  pub plain : any is_config_separator e.key_bytes ≡ false
  pub key_clean : has_char 0 e.key_bytes ≡ false
  pub value_clean : has_char 0 e.value_bytes ≡ false
  pub key_utf8 : from_utf8 e.key_bytes ≡ some e.key
  pub value_utf8 : from_utf8 e.value_bytes ≡ some e.value

abbrev pub AllEntriesWritten : List ConfigEntry → Type 0
AllEntriesWritten [] = Unit {0}
AllEntriesWritten (e ∷ es) = IsWrittenEntry e × AllEntriesWritten es

-- The value of the first entry with the key.
unfoldable pub first_value : Text → List ConfigEntry → Option Text
first_value k [] = none
first_value k (e ∷ es) = if text_eq e.key k then some e.value else first_value k es

abbrev insert_all : List ConfigEntry → GitConfig → GitConfig
insert_all [] config = config
insert_all (e ∷ es) config = insert_all es (or_insert e.key e.value config)

split_at_separator-plain :
    (key : Bytes) → any is_config_separator key ≡ false → split_at_separator key ≡ none
unfolding split_at_separator any
split_at_separator-plain [] h = refl
split_at_separator-plain (b ∷ key) h = ground (arith, split_at_separator-plain key)

split_at_separator-append :
    (key value : Bytes) (s : ℕ)
    → any is_config_separator key ≡ false
    → is_config_separator s ≡ true
    → split_at_separator (key ++ s ∷ value) ≡ some (key, value)
unfolding split_at_separator any
split_at_separator-append [] value s h sep = ground arith
split_at_separator-append (b ∷ key) value s h sep =
    ground (arith, split_at_separator-append key value s)

-- What the loop does with a stored entry.
abbrev stored : ℕ → Text → Text → GitConfig → (GitConfig → Result GitConfig) → Result GitConfig
stored entries k v config rest =
    if leb max_config_entries entries then err output_limit else rest (or_insert k v config)

store_entry-written :
    (e : ConfigEntry) (n : ℕ) (config : GitConfig) (rest : GitConfig → Result GitConfig)
    → IsWrittenEntry e
    → store_entry n e.key_bytes e.value_bytes config rest ≡ stored n e.key e.value config rest
unfolding decode_config_key decode_config_value decode_path
store_entry-written e n config rest w = elim (Bool-cases (leb max_config_entries n)) [
  | inl full ↦ rw full refl
  | inr room ↦ rw room (rw (w.named, w.key_utf8, w.value_utf8) refl)
]

is_empty-join : (key value : Bytes) (s : ℕ) → is_empty (key ++ s ∷ value) ≡ false
unfolding is_empty
is_empty-join [] value s = refl
is_empty-join (b ∷ key) value s = refl

abbrev entry_step : ℕ → ConfigEntry → GitConfig → List Bytes → Result GitConfig
entry_step n e config rest =
    stored n e.key e.value config (λ c. parse_entries rest none true (suc n) c)

and_false : (b : Bool) → (b && false) ≡ false
and_false b = ground arith

entry-parses :
    (e : ConfigEntry) (saw : Bool) (n : ℕ) (config : GitConfig) (rest : List Bytes)
    → IsWrittenEntry e
    → is_empty rest ≡ false
    → parse_entries (entry_records e.separator e.key_bytes e.value_bytes ++ rest) none saw n config
      ≡ entry_step n e config rest
unfolding parse_entries
entry-parses e saw n config rest w more =
    let loop : GitConfig → Result GitConfig = λ c. parse_entries rest none true (suc n) c in
    let written = store_entry-written e n config loop w in
    elim (Option-cases e.separator) [
      | inl two ↦
          rw (two, w.named, split_at_separator-plain e.key_bytes w.plain)
            (rw more (rw and_false written))
      | inr (s, one) ↦
          let both = rw one at w.separated in
          let separated : is_config_separator s ≡ true = ((and_iff _ _).0 both).0 in
          rw
            (
              one,
              is_empty-join e.key_bytes e.value_bytes s,
              split_at_separator-append e.key_bytes e.value_bytes s w.plain separated,
            )
            written
    ]

-- What the entries leave: the limit is on their number.
abbrev outcome : ℕ → List ConfigEntry → GitConfig → Result GitConfig
outcome n es config =
    if leb (n + length es) max_config_entries then ok (insert_all es config) else err output_limit

is_empty-last : (rs : List Bytes) → is_empty (rs ++ [] ∷ []) ≡ false
unfolding is_empty
is_empty-last [] = refl
is_empty-last (r ∷ rs) = refl

entries-parse :
    (es : List ConfigEntry) (n : ℕ) (config : GitConfig)
    → AllEntriesWritten es
    → n ≤ max_config_entries
    → parse_entries (config_records es ++ [] ∷ []) none true n config ≡ outcome n es config
unfolding config_records
entries-parse [] n config w fits =
    let room : leb (n + 0) max_config_entries ≡ true = ground arith in
    unfold parse_entries is_empty in rw room refl
entries-parse (e ∷ es) n config (w, ws) fits =
    let rest = config_records es ++ [] ∷ [] in
    let later = entries-parse es (suc n) (or_insert e.key e.value config) ws in
    rw append_assoc (
      entry-parses e true n config rest w (is_empty-last (config_records es))
      ∙ elim (Bool-cases (leb max_config_entries n)) [
        | inl full ↦
            let over : leb (n + suc (length es)) max_config_entries ≡ false = ground arith in
            rw (full, over) refl
        | inr room ↦
            let less : suc n ≤ max_config_entries = ground arith in
            let same : n + suc (length es) ≡ suc n + length es = omega arith in
            rw room (later less ∙ rw same refl)
      ])

joined-clean :
    (key value : Bytes) (s : ℕ)
    → has_char 0 key ≡ false
    → has_char 0 value ≡ false
    → separates (some s) ≡ true
    → has_char 0 (key ++ s ∷ value) ≡ false
unfolding has_char
joined-clean key value s k v h = rw (has_char-append 0 key (s ∷ value)) (ground arith)

entry-clean :
    (e : ConfigEntry)
    → IsWrittenEntry e
    → clean (entry_records e.separator e.key_bytes e.value_bytes) ≡ true
unfolding all
entry-clean e w = elim (Option-cases e.separator) [
  | inl two ↦ rw (two, w.key_clean, w.value_clean) refl
  | inr (s, one) ↦
      rw
        (
          one,
          joined-clean e.key_bytes e.value_bytes s w.key_clean w.value_clean
              (rw one at w.separated),
        )
        refl
]

entries-clean : (es : List ConfigEntry) → AllEntriesWritten es → clean (config_records es) ≡ true
unfolding config_records all
entries-clean [] w = refl
entries-clean (e ∷ es) (w, ws) = rw all-append (rw (entry-clean e w, entries-clean es ws) refl)

terminated-is_empty : (r : Bytes) (rs : List Bytes) → is_empty (terminated (r ∷ rs)) ≡ false
unfolding terminated is_empty
terminated-is_empty [] rs = refl
terminated-is_empty (b ∷ r) rs = refl

entries-is_empty :
    (e : ConfigEntry) (es : List ConfigEntry)
    → is_empty (terminated (config_records (e ∷ es))) ≡ false
unfolding config_records
entries-is_empty e es = elim (Option-cases e.separator) [
  | inl two ↦ rw two (terminated-is_empty e.key_bytes _)
  | inr (s, one) ↦ rw one (terminated-is_empty (e.key_bytes ++ s ∷ e.value_bytes) _)
]

first-parses :
    (e : ConfigEntry) (es : List ConfigEntry)
    → AllEntriesWritten (e ∷ es)
    → parse_entries (config_records (e ∷ es) ++ [] ∷ []) none false 0 [] ≡ outcome 0 (e ∷ es) []
unfolding config_records
first-parses e es (w, ws) =
    let rest = config_records es ++ [] ∷ [] in
    let some_left : 1 ≤ max_config_entries = omega arith in
    let same : 0 + suc (length es) ≡ 1 + length es = omega arith in
    rw append_assoc (
      entry-parses e false 0 [] rest w (is_empty-last (config_records es))
      ∙ entries-parse es 1 (or_insert e.key e.value []) ws some_left
      ∙ rw same refl)

config-parses :
    (es : List ConfigEntry)
    → AllEntriesWritten es
    → parse_git_config (terminated (config_records es)) ≡ outcome 0 es []
unfolding parse_git_config
config-parses [] w = unfold config_records terminated is_empty in refl
config-parses (e ∷ es) w =
    rw
      (
        ends_with_nul-terminated (config_records (e ∷ es)),
        entries-is_empty e es,
        split-terminated (config_records (e ∷ es)) (entries-clean (e ∷ es) w),
      )
      (first-parses e es w)

abbrev or_else : Option Text → Option Text → Option Text
or_else (some v) o = some v
or_else none o = o

lookup-or_insert :
    (k j v : Text) (m : GitConfig)
    → lookup k (or_insert j v m) ≡ or_else (lookup k m) (if text_eq j k then some v else none)
unfolding lookup or_insert
lookup-or_insert k j v [] = refl
lookup-or_insert k j v ((i, w) ∷ m) =
    ground (arith, text_eq_iff i j, text_eq_iff i k, text_eq_iff j k, lookup-or_insert k j v m)

lookup-insert_all :
    (k : Text) (es : List ConfigEntry) (m : GitConfig)
    → lookup k (insert_all es m) ≡ or_else (lookup k m) (first_value k es)
unfolding first_value
lookup-insert_all k [] m = ground arith
lookup-insert_all k (e ∷ es) m =
    ground (
      arith,
      lookup-insert_all k es (or_insert e.key e.value m),
      lookup-or_insert k e.key e.value m,
    )

-- `parse_git_config` reads back up to 4096 written entries, whose keys are not empty and have no `=`,
-- tab, line feed or NUL, whose values have no NUL, and which are UTF-8, in either form and in any
-- mixture: it succeeds, and every key has the value of its first entry, if it has one.
pub parse_git_config-written :
    (es : List ConfigEntry)
    → AllEntriesWritten es
    → length es ≤ max_config_entries
    → (config : GitConfig) × (parse_git_config (terminated (config_records es)) ≡ ok config)
      × ((k : Text) → lookup k config ≡ first_value k es)
parse_git_config-written es w fits =
    let room : leb (0 + length es) max_config_entries ≡ true = ground arith in
    let parsed : outcome 0 es [] ≡ ok (insert_all es []) = rw room refl in
    (
      insert_all es [],
      config-parses es w ∙ parsed,
      λ k. lookup-insert_all k es [] ∙ (unfold lookup in refl),
    )

-- More than 4096 such entries, in either form and in any mixture, are refused as too much output.
pub parse_git_config-limit :
    (es : List ConfigEntry)
    → AllEntriesWritten es
    → max_config_entries < length es
    → parse_git_config (terminated (config_records es)) ≡ err output_limit
parse_git_config-limit es w over =
    let full : leb (0 + length es) max_config_entries ≡ false = ground arith in
    let refused : outcome 0 es [] ≡ err output_limit = rw full refl in config-parses es w ∙ refused
