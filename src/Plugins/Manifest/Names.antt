-- ===== src/Plugins/Manifest/Names.antt =====
-- plugins/manifest.rs: the tests on the texts of a manifest.
use git_ramus.Base.Tests.{
  ℕ, ◌+◌, Bool, true, false, not, ◌&&◌, ◌||◌, Option, none, some, List, [], ◌∷◌, map, ltb, leb,
  ◌==◌, if◌then◌else◌,
}
use git_ramus.Base.Lists.{any, all, filter}
use git_ramus.Base.Text.{
  Text, codes, text_eq, is_empty, is_control, is_whitespace, is_ascii_digit, is_ascii_alphabetic,
  is_ascii_alphanumeric, starts_with, split, split_once, split_where, to_ascii_lower, trim_with,
}

unfoldable pub is_ascii_lowercase : ℕ → Bool
is_ascii_lowercase c = leb b'a' c && leb c b'z'

unfoldable pub is_separator : ℕ → Bool
is_separator c = c == b'.' || c == b'-'

-- The loop of `is_plugin_id`, from `contains_dot` and `previous_was_separator`.
unfoldable pub plugin_id_loop : Bool → Bool → Text → Bool
plugin_id_loop dot separated [] = dot && not separated
plugin_id_loop dot separated (c ∷ s) =
    let stepped = plugin_id_loop (dot || c == b'.') true s in
    let plain = plugin_id_loop dot false s in
    if is_separator c
    then (if separated then false else stepped)
    else if is_ascii_lowercase c || is_ascii_digit c
    then plain
    else false

unfoldable pub is_plugin_id : Text → Bool
unfolding plugin_id_loop is_separator is_ascii_lowercase is_ascii_digit
is_plugin_id value = plugin_id_loop false true value

unfoldable pub is_capability_char : ℕ → Bool
unfolding is_ascii_lowercase is_ascii_digit
is_capability_char c = is_ascii_lowercase c || (is_ascii_digit c || (c == b'.' || c == b'-'))

unfoldable pub is_capability_part : Text → Bool
unfolding is_capability_char is_ascii_lowercase all
is_capability_part [] = false
is_capability_part (c ∷ s) = is_ascii_lowercase c && all is_capability_char s

-- the `matches!` on the first three parts
unfoldable pub two_parts : List Text → Bool
two_parts (namespace ∷ action ∷ []) = is_capability_part namespace && is_capability_part action
two_parts _ = false

unfoldable pub is_capability : Text → Bool
unfolding two_parts is_capability_part split
is_capability value = two_parts (split b':' value)

abbrev pub is_scheme_char : ℕ → Bool
is_scheme_char c = is_ascii_alphanumeric c || (c == b'+' || (c == b'-' || c == b'.'))

unfoldable pub is_scheme : Text → Bool
unfolding all
is_scheme [] = false
is_scheme (c ∷ s) = is_ascii_alphabetic c && all is_scheme_char s

abbrev scheme_of : Option (Text × Text) → Bool
scheme_of none = false
scheme_of (some (prefix, _)) = is_scheme prefix

unfoldable pub has_url_scheme : Text → Bool
unfolding is_scheme split_once
has_url_scheme value = scheme_of (split_once b':' value)

abbrev pub is_slash : ℕ → Bool
is_slash c = c == b'/' || c == b'\\'

abbrev pub dot_dot : Text
dot_dot = b'.' ∷ b'.' ∷ []

abbrev begins_with_slash : Text → Bool
begins_with_slash [] = false
begins_with_slash (c ∷ _) = is_slash c

-- `is_absolute` is that of `std::path::Path`, which depends on the platform.
unfoldable pub is_safe_relative_path : (Text → Bool) → Text → Bool
is_safe_relative_path is_absolute value =
    not (is_empty value)
    && (not (is_absolute value)
        && (not (begins_with_slash value)
            && (not (has_url_scheme value)
                && (not (any is_control value)
                    && not (
                        any (λ component. text_eq component dot_dot)
                          (split_where is_slash value))))))

-- `contains` for a text
unfoldable pub contains_text : Text → Text → Bool
contains_text needle [] = is_empty needle
contains_text needle (c ∷ s) = starts_with needle (c ∷ s) || contains_text needle s

-- `encode_utf16().count()`
unfoldable pub utf16_len : Text → ℕ
utf16_len [] = 0
utf16_len (c ∷ s) = (if ltb c 0x10000 then 1 else 2) + utf16_len s

abbrev pub is_markup_char : ℕ → Bool
is_markup_char c = c == b'<' || (c == b'>' || (c == b';' || (c == b'{' || c == b'}')))

abbrev pub markers : List Text
markers = codes "url(" ∷ codes "@import" ∷ codes "javascript:" ∷ codes "expression(" ∷ []

unfoldable pub is_safe_text : Text → ℕ → Bool
is_safe_text value maximum =
    let compact = filter (λ c. not (is_whitespace c)) (map to_ascii_lower value) in
    not (is_empty (trim_with is_whitespace value))
    && (leb (utf16_len value) maximum
        && (not (any is_control value)
            && (not (any is_markup_char value)
                && not (any (λ marker. contains_text marker compact) markers))))
