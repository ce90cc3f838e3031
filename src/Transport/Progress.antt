-- ===== src/Transport/Progress.antt =====
-- git/transport/progress.rs: the progress lines that Git prints, and their framing from the chunks
-- that a pipe gives. Floating point is a parameter: `scaled amount multiplier` is the number of bytes
-- that `parse_byte_count` makes of `amount.parse::<f64>()` times the multiplier, if it accepts it.
pub mod Framing
pub mod Lines
pub mod Ascii
use git_ramus.Base.Tests.{
  ℕ, ◌*◌, ◌^◌, Bool, true, false, not, ◌&&◌, ◌||◌, Option, none, some, List, [], ◌∷◌, ◌++◌, ltb,
  leb, ◌==◌, if◌then◌else◌,
}
use git_ramus.Base.Lists.{length}
use git_ramus.Base.Text.{
  Text, codes, text_eq, is_empty, split, split_once, split_whitespace, strip_prefix, trim_with,
  is_whitespace, is_ascii_digit, parse_unsigned,
}
use git_ramus.Base.Utf8.{from_utf8}

pub record NetworkObjectProgress : Type 0 where
  pub completed : ℕ
  pub total : Option ℕ

pub record NetworkByteProgress : Type 0 where
  pub transferred : ℕ
  pub total : Option ℕ

-- The stage is always `Transferring`. The fraction is a whole number of hundredths.
pub record GitProgressEvent : Type 0 where
  pub fraction : Option ℕ
  pub objects : Option NetworkObjectProgress
  pub bytes : Option NetworkByteProgress

-- `parse::<u64>()`
abbrev parse_u64 : Text → Option ℕ
parse_u64 = parse_unsigned (2 ^ 64)

abbrev pub trim : Text → Text
trim = trim_with is_whitespace

abbrev pub option_bind : {A B : Type 0} → Option A → (A → Option B) → Option B
option_bind none f = none
option_bind (some a) f = f a

unfoldable pub parse_object_count : Text → Option NetworkObjectProgress
parse_object_count value = option_bind (split_once b'(' value) λ opened.
    option_bind (split_once b')' opened.1) λ closed.
      option_bind (split_once b'/' closed.0) λ counts.
        option_bind (parse_u64 (trim counts.0)) λ completed.
          option_bind (parse_u64 (trim counts.1))
            λ total. some (record { completed = completed; total = some total })

unfoldable pub multiplier : Text → Option ℕ
multiplier unit =
    if text_eq unit (codes "B")
    then some 1
    else if text_eq unit (codes "KiB")
    then some 1024
    else if text_eq unit (codes "MiB")
    then some (1024 * 1024)
    else if text_eq unit (codes "GiB")
    then some (1024 * 1024 * 1024)
    else none

-- The amount and the unit that stand first.
abbrev two_fields : List Text → Option (Text × Text)
two_fields (amount ∷ unit ∷ _) = some (amount, unit)
two_fields _ = none

abbrev first_piece : List Text → Text
first_piece [] = []
first_piece (w ∷ ws) = w

-- The first prefix that the line has, off the line.
unfoldable pub strip_any : List Text → Text → Option Text
strip_any [] line = none
strip_any (p ∷ ps) line =
    let rest = strip_any ps line in
    elim (strip_prefix p line) [ none ↦ rest | some progress ↦ some progress ]

abbrev pub prefixes : List Text
prefixes =
    codes "Enumerating objects:"
    ∷ codes "Counting objects:"
    ∷ codes "Compressing objects:"
    ∷ codes "Receiving objects:"
    ∷ codes "Resolving deltas:"
    ∷ codes "Writing objects:"
    ∷ []

abbrev pub strip_or_keep : Text → Text → Text
strip_or_keep p line = elim (strip_prefix p line) [ none ↦ line | some rest ↦ rest ]

-- `rfind` of a character that is no digit: that character, and the digits behind it.
unfoldable pub last_non_digit : Text → Option ℕ × Text
last_non_digit [] = (none, [])
last_non_digit (c ∷ s) =
    let rest = last_non_digit s in
    elim rest.0 [
      | some d ↦ (some d, rest.1)
      | none ↦ if not (is_ascii_digit c) then (some c, rest.1) else (none, c ∷ rest.1)
    ]

-- The slice from `index + 1`: a character of several bytes at the index makes it panic, which is
-- `none`.
unfoldable pub percent_text : Text → Option Text
unfolding last_non_digit
percent_text before =
    let (last, digits) = last_non_digit before in
    elim last [ none ↦ some digits | some c ↦ if ltb c 0x80 then some digits else none ]

-- The outcome of code that may panic.
abbrev pub Panics : Type 0 → Type 0
Panics A = Option A

module _ (scaled : Text → ℕ → Option ℕ) where
  unfoldable pub parse_byte_count : Text → Option NetworkByteProgress
  unfolding multiplier
  parse_byte_count value = option_bind (split_once b')' value) λ closed.
      option_bind (strip_prefix (codes ",") (trim (first_piece (split b'|' closed.1)))) λ quantity.
        option_bind (two_fields (split_whitespace (trim quantity))) λ fields.
          option_bind (multiplier fields.1) λ unit.
            option_bind (scaled fields.0 unit)
              λ transferred. some (record { transferred = transferred; total = none })

  unfoldable pub event_of : ℕ → Text → Text → Option GitProgressEvent
  unfolding parse_object_count parse_byte_count
  event_of percent progress after =
      if ltb 100 percent
      then none
      else some (record {
        fraction = some percent;
        objects = parse_object_count after;
        bytes = parse_byte_count progress;
      })

  -- What follows the `%` that `find` found.
  unfoldable pub parse_percent : Text → Text → Text → Panics (Option GitProgressEvent)
  unfolding percent_text event_of
  parse_percent progress before after = elim (percent_text before) [
    | none ↦ none
    | some digits ↦
        some (option_bind (parse_unsigned 256 digits) λ percent. event_of percent progress after)
  ]

  unfoldable pub parse_progress : Text → Panics (Option GitProgressEvent)
  unfolding parse_percent
  parse_progress progress = elim (split_once b'%' progress) [
    | none ↦ some none
    | some at ↦ parse_percent progress at.0 at.1
  ]

  abbrev pub parse_stripped : Option Text → Panics (Option GitProgressEvent)
  parse_stripped none = some none
  parse_stripped (some progress) = parse_progress (trim progress)

  unfoldable pub parse_text : Text → Panics (Option GitProgressEvent)
  parse_text text =
      parse_stripped (strip_any prefixes (strip_or_keep (codes "remote: ") (trim text)))

  abbrev pub parse_decoded : Option Text → Panics (Option GitProgressEvent)
  parse_decoded none = some none
  parse_decoded (some text) = parse_text text

  unfoldable pub parse_progress_line : List ℕ → Panics (Option GitProgressEvent)
  parse_progress_line bytes = parse_decoded (from_utf8 bytes)
