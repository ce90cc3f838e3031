-- ===== src/Transport/Progress/Ascii.antt =====
-- ASCII input of git/transport/progress.rs.
use mathlib.Core.List.{append-nil}
use git_ramus.Base.Tests.{
  ℕ, ◌≡◌, ◌≢◌, refl, sym, ap, ◌∙◌, Bool, true, false, Option, none, some, List, [], ◌∷◌, ◌++◌,
  arith, ltb, Bool-cases, Option-cases, inl, inr, is_some, and_iff,
}
use git_ramus.Base.Text.{
  Text, codes, strip_prefix, split_once, trim_start, trim_end, trim_with, is_whitespace,
}
use git_ramus.Base.Utf8.{from_utf8, all_ascii, from_utf8-append}
use git_ramus.Transport.Progress.{
  prefixes, strip_any, last_non_digit, percent_text, parse_percent, parse_progress, parse_stripped,
  strip_or_keep, trim, parse_text, parse_decoded, parse_progress_line,
}
use git_ramus.Transport.Progress.Framing.{
  GitProgressParser, fresh, is_line_end, Pushed, end_line, push_byte, push,
}

from_utf8-all_ascii : (bytes : List ℕ) → all_ascii bytes ≡ true → from_utf8 bytes ≡ some bytes
from_utf8-all_ascii bytes h =
    let nothing : from_utf8 [] ≡ some [] = unfold from_utf8 in refl in
    sym (ap from_utf8 (append-nil bytes))
    ∙ from_utf8-append bytes [] [] h nothing
    ∙ ap (λ s. some s) (append-nil bytes)

trim_start-all_ascii :
    (p : ℕ → Bool) (s : Text) → all_ascii s ≡ true → all_ascii (trim_start p s) ≡ true
unfolding trim_start
trim_start-all_ascii p [] h = refl
trim_start-all_ascii p (c ∷ s) h = ground (arith, trim_start-all_ascii p s)

trim_end-all_ascii :
    (p : ℕ → Bool) (s : Text) → all_ascii s ≡ true → all_ascii (trim_end p s) ≡ true
unfolding trim_end
trim_end-all_ascii p [] h = refl
trim_end-all_ascii p (c ∷ s) h = ground (arith, trim_end-all_ascii p s)

trim_with-all_ascii :
    (p : ℕ → Bool) (s : Text) → all_ascii s ≡ true → all_ascii (trim_with p s) ≡ true
unfolding trim_with
trim_with-all_ascii p s h = trim_end-all_ascii p (trim_start p s) (trim_start-all_ascii p s h)

-- What is there is ASCII.
abbrev text_fine : Option Text → Bool
text_fine none = true
text_fine (some s) = all_ascii s

abbrev first_fine : Option (Text × Text) → Bool
first_fine none = true
first_fine (some at) = all_ascii at.0

abbrev char_fine : Option ℕ → Bool
char_fine none = true
char_fine (some c) = ltb c 0x80

strip_prefix-fine : (p s : Text) → all_ascii s ≡ true → text_fine (strip_prefix p s) ≡ true
unfolding strip_prefix
strip_prefix-fine [] s a = a
strip_prefix-fine (b ∷ p) [] a = refl
strip_prefix-fine (b ∷ p) (c ∷ s) a = ground (arith, strip_prefix-fine p s)

strip_any-fine :
    (ps : List Text) (s : Text) → all_ascii s ≡ true → text_fine (strip_any ps s) ≡ true
unfolding strip_any
strip_any-fine [] s a = refl
strip_any-fine (p ∷ ps) s a = ground (arith, strip_prefix-fine p s a, strip_any-fine ps s a)

split_once-fine : (c : ℕ) (s : Text) → all_ascii s ≡ true → first_fine (split_once c s) ≡ true
unfolding split_once
split_once-fine c [] a = refl
split_once-fine c (b ∷ s) a = ground (arith, split_once-fine c s)

last_non_digit-fine : (s : Text) → all_ascii s ≡ true → char_fine (last_non_digit s).0 ≡ true
unfolding last_non_digit
last_non_digit-fine [] a = refl
last_non_digit-fine (b ∷ s) a = ground (arith, last_non_digit-fine s)

percent_text-is_some : (s : Text) → all_ascii s ≡ true → is_some (percent_text s) ≡ true
unfolding percent_text
percent_text-is_some s a = ground (arith, last_non_digit-fine s a)

module _ (scaled : Text → ℕ → Option ℕ) where
  parse_percent-is_some :
      (progress before after : Text)
      → all_ascii before ≡ true
      → is_some (parse_percent scaled progress before after) ≡ true
  unfolding parse_percent
  parse_percent-is_some progress before after a = ground (arith, percent_text-is_some before a)

  parse_progress-is_some :
      (progress : Text)
      → all_ascii progress ≡ true
      → is_some (parse_progress scaled progress) ≡ true
  unfolding parse_progress
  parse_progress-is_some progress a = elim (Option-cases (split_once b'%' progress)) [
    | inl e ↦ rw (e, is_some) refl
    | inr (at, e) ↦
        let fine = rw e at (split_once-fine b'%' progress a) in
        rw (e, is_some) (parse_percent-is_some progress at.0 at.1 fine)
  ]

  parse_stripped-is_some :
      (stripped : Option Text)
      → text_fine stripped ≡ true
      → is_some (parse_stripped scaled stripped) ≡ true
  parse_stripped-is_some none a = refl
  parse_stripped-is_some (some progress) a =
      parse_progress-is_some (trim progress) (trim_with-all_ascii is_whitespace progress a)

  strip_or_keep-all_ascii :
      (p line : Text) → all_ascii line ≡ true → all_ascii (strip_or_keep p line) ≡ true
  strip_or_keep-all_ascii p line a = ground (arith, strip_prefix-fine p line a)

  parse_text-is_some :
      (text : Text) → all_ascii text ≡ true → is_some (parse_text scaled text) ≡ true
  unfolding parse_text
  parse_text-is_some text a =
      parse_stripped-is_some (strip_any prefixes (strip_or_keep (codes "remote: ") (trim text))) (
        strip_any-fine prefixes (strip_or_keep (codes "remote: ") (trim text)) (
          strip_or_keep-all_ascii (codes "remote: ") (trim text)
            (trim_with-all_ascii is_whitespace text a)))

  parse_progress_line-is_some :
      (bytes : List ℕ) → all_ascii bytes ≡ true → is_some (parse_progress_line scaled bytes) ≡ true
  unfolding parse_progress_line
  parse_progress_line-is_some bytes a =
      ap (λ o. is_some (parse_decoded scaled o)) (from_utf8-all_ascii bytes a)
      ∙ parse_text-is_some bytes a

  -- A call that did not panic and left ASCII in the buffer.
  abbrev went_well : Pushed → Bool
  went_well none = false
  went_well (some (events, q)) = all_ascii q.pending

  all_ascii-snoc :
      (s : Text) (c : ℕ) → all_ascii s ≡ true → ltb c 0x80 ≡ true → all_ascii (s ++ c ∷ []) ≡ true
  all_ascii-snoc [] c a h = ground arith
  all_ascii-snoc (b ∷ s) c a h = ground (arith, all_ascii-snoc s c)

  end_line-went_well :
      (p : GitProgressParser) → all_ascii p.pending ≡ true → went_well (end_line scaled p) ≡ true
  unfolding end_line
  end_line-went_well p a = ground (arith, parse_progress_line-is_some p.pending a)

  push_byte-went_well :
      (p : GitProgressParser) (byte : ℕ)
      → all_ascii p.pending ≡ true
      → ltb byte 0x80 ≡ true
      → went_well (push_byte scaled p byte) ≡ true
  unfolding push_byte
  push_byte-went_well p byte a h = elim (Bool-cases (is_line_end byte)) [
    | inl ends ↦ rw ends (end_line-went_well p a)
    | inr goes_on ↦ rw goes_on (ground (arith, all_ascii-snoc p.pending byte a h))
  ]

  push-went_well :
      (bytes : List ℕ) (p : GitProgressParser)
      → all_ascii p.pending ≡ true
      → all_ascii bytes ≡ true
      → went_well (push scaled bytes p) ≡ true
  unfolding push
  push-went_well [] p a h = a
  push-went_well (byte ∷ bytes) p a h =
      let (h₀, h₁) = (and_iff _ _).0 h in
      elim (Option-cases (push_byte scaled p byte)) [
        | inl e ↦ let k = rw e at (push_byte-went_well p byte a h₀) in cc
        | inr ((events, q), e) ↦
            let fine = rw e at (push_byte-went_well p byte a h₀) in
            let later = push-went_well bytes q fine h₁ in ground arith
      ]

  -- On ASCII, `push` on a new parser never panics.
  pub push-ascii : (bytes : List ℕ) → all_ascii bytes ≡ true → push scaled bytes fresh ≢ none
  push-ascii bytes a panics = let k = rw panics at (push-went_well bytes fresh refl a) in cc
