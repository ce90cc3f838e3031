-- ===== src/Base/Text.antt =====
-- Texts as lists of code points: the methods of `str` and `char` that the code calls.
use Prim.Native.Char.{code}
use Prim.Native.String.{String}
use git_ramus.Base.Lists.{filter}
use git_ramus.Base.Tests.{
  ℕ, ◌+◌, ◌-◌, ◌*◌, ◌≡◌, refl, ◌↔◌, Bool, true, false, not, ◌&&◌, ◌||◌, Option, none, some, List,
  [], ◌∷◌, ◌++◌, arith, leb, ltb, ◌==◌, if◌then◌else◌, Bool-cases, inl, inr,
}

abbrev pub Text : Type 0
Text = List ℕ

-- A literal.
unfoldable pub codes : String → Text
codes String.[] = []
codes (String.◌∷◌ c s) = code c ∷ codes s

unfoldable pub text_eq : Text → Text → Bool
text_eq [] [] = true
text_eq (a ∷ s) (b ∷ t) = a == b && text_eq s t
text_eq _ _ = false

pub text_eq_iff : (s t : Text) → (text_eq s t ≡ true) ↔ (s ≡ t)
unfolding text_eq
text_eq_iff (a ∷ s) (b ∷ t) = ground (arith, text_eq_iff s t)
text_eq_iff _ _ = ground arith

pub text_eq_refl : (s : Text) → text_eq s s ≡ true
text_eq_refl s = (text_eq_iff s s).1 refl

-- `Option<&str> == Option<&str>`
unfoldable pub option_text_eq : Option Text → Option Text → Bool
option_text_eq none none = true
option_text_eq (some s) (some t) = text_eq s t
option_text_eq _ _ = false

pub option_text_eq_iff : (s t : Option Text) → (option_text_eq s t ≡ true) ↔ (s ≡ t)
unfolding option_text_eq
option_text_eq_iff (some s) (some t) = ground (arith, text_eq_iff s t)
option_text_eq_iff _ _ = ground arith

-- `is_empty()`
unfoldable pub is_empty {ℓ} : {A : Type ℓ} → List A → Bool
is_empty [] = true
is_empty (_ ∷ _) = false

-- `contains(c)` for a character
unfoldable pub has_char : ℕ → Text → Bool
has_char c [] = false
has_char c (a ∷ s) = a == c || has_char c s

-- `char::is_control`: the general category Cc
unfoldable pub is_control : ℕ → Bool
is_control c = ltb c 32 || (leb 127 c && leb c 159)

-- `strip_prefix`; `starts_with` is its success
unfoldable pub strip_prefix : Text → Text → Option Text
strip_prefix [] s = some s
strip_prefix (p ∷ ps) [] = none
strip_prefix (p ∷ ps) (a ∷ s) = if p == a then strip_prefix ps s else none

unfoldable pub starts_with : Text → Text → Bool
starts_with [] s = true
starts_with (p ∷ ps) [] = false
starts_with (p ∷ ps) (a ∷ s) = p == a && starts_with ps s

pub strip_prefix-append : (p s : Text) → strip_prefix p (p ++ s) ≡ some s
unfolding strip_prefix
strip_prefix-append [] s = refl
strip_prefix-append (a ∷ p) s = ground (arith, strip_prefix-append p s)

-- `split(c)`: at least one component, the empty ones kept
unfoldable pub cons_head : ℕ → List Text → List Text
cons_head a [] = (a ∷ []) ∷ []
cons_head a (w ∷ ws) = (a ∷ w) ∷ ws

unfoldable pub split : ℕ → Text → List Text
unfolding cons_head
split c [] = [] ∷ []
split c (a ∷ s) = let rest = split c s in if a == c then [] ∷ rest else cons_head a rest

-- `split_once(c)` for a character: the parts before and after its first occurrence
unfoldable pub split_once : ℕ → Text → Option (Text × Text)
split_once c [] = none
split_once c (a ∷ s) =
    let rest = split_once c s in
    if a == c then some ([], s) else elim rest [ none ↦ none | some (x, y) ↦ some (a ∷ x, y) ]

pub split_once-append :
    (c : ℕ) (x y : Text) → has_char c x ≡ false → split_once c (x ++ c ∷ y) ≡ some (x, y)
unfolding split_once has_char
split_once-append c [] y h = ground arith
split_once-append c (a ∷ x) y h = ground (arith, split_once-append c x y)

pub has_char-append : (c : ℕ) (x y : Text) → has_char c (x ++ y) ≡ (has_char c x || has_char c y)
unfolding has_char
has_char-append c [] y = refl
has_char-append c (a ∷ x) y = ground (arith, has_char-append c x y)

-- `is_ascii_digit`, `is_ascii_alphabetic`, `is_ascii_alphanumeric`, `to_ascii_lowercase`
unfoldable pub is_ascii_digit : ℕ → Bool
is_ascii_digit c = leb b'0' c && leb c b'9'

unfoldable pub is_ascii_alphabetic : ℕ → Bool
is_ascii_alphabetic c = (leb b'a' c && leb c b'z') || (leb b'A' c && leb c b'Z')

unfoldable pub is_ascii_alphanumeric : ℕ → Bool
unfolding is_ascii_digit is_ascii_alphabetic
is_ascii_alphanumeric c = is_ascii_alphabetic c || is_ascii_digit c

unfoldable pub to_ascii_lower : ℕ → ℕ
to_ascii_lower c = if leb b'A' c && leb c b'Z' then c + 32 else c

-- `char::is_whitespace`: the property White_Space
unfoldable pub is_whitespace : ℕ → Bool
is_whitespace c =
    (leb 9 c && leb c 13)
    || c == 32
    || c == 0x85
    || c == 0xa0
    || c == 0x1680
    || (leb 0x2000 c && leb c 0x200a)
    || c == 0x2028
    || c == 0x2029
    || c == 0x202f
    || c == 0x205f
    || c == 0x3000

-- `trim_start_matches`, `trim_end_matches` and `trim_matches` by a test on characters
unfoldable pub trim_start : (ℕ → Bool) → Text → Text
trim_start p [] = []
trim_start p (a ∷ s) = let rest = trim_start p s in if p a then rest else a ∷ s

unfoldable pub trim_end : (ℕ → Bool) → Text → Text
trim_end p [] = []
trim_end p (a ∷ s) = let rest = trim_end p s in if p a && is_empty rest then [] else a ∷ rest

unfoldable pub trim_with : (ℕ → Bool) → Text → Text
trim_with p s = trim_end p (trim_start p s)

-- `split` by a test on characters
unfoldable pub split_where : (ℕ → Bool) → Text → List Text
unfolding cons_head
split_where p [] = [] ∷ []
split_where p (a ∷ s) = let rest = split_where p s in if p a then [] ∷ rest else cons_head a rest

-- `split_whitespace`
unfoldable pub split_whitespace : Text → List Text
unfolding filter split_where is_whitespace
split_whitespace s = filter (λ w. not (is_empty w)) (split_where is_whitespace s)

-- `strip_suffix`
unfoldable pub strip_suffix : Text → Text → Option Text
strip_suffix suffix [] = if is_empty suffix then some [] else none
strip_suffix suffix (a ∷ s) =
    let rest = strip_suffix suffix s in
    if text_eq (a ∷ s) suffix then some [] else elim rest [ none ↦ none | some t ↦ some (a ∷ t) ]

-- `parse::<u64>()` and the like: an optional plus sign and at least one digit, below the bound
unfoldable pub parse_digits : ℕ → Text → Option ℕ
parse_digits acc [] = some acc
parse_digits acc (c ∷ s) =
    let rest = parse_digits (acc * 10 + (c - b'0')) s in if is_ascii_digit c then rest else none

abbrev bounded : ℕ → Option ℕ → Option ℕ
bounded limit none = none
bounded limit (some n) = if ltb n limit then some n else none

unfoldable pub parse_unsigned : ℕ → Text → Option ℕ
unfolding parse_digits
parse_unsigned limit [] = none
parse_unsigned limit (c ∷ s) =
    if c == b'+'
    then (if is_empty s then none else bounded limit (parse_digits 0 s))
    else bounded limit (parse_digits 0 (c ∷ s))

pub split-append :
    (c : ℕ) (x y : Text) → has_char c x ≡ false → split c (x ++ c ∷ y) ≡ x ∷ split c y
unfolding split has_char
split-append c [] y h = ground arith
split-append c (a ∷ x) y h = ground (arith, split-append c x y)

-- `split` gives at least one segment.
pub split_where-cons :
    (p : ℕ → Bool) (s : Text) → (w : Text) × (ws : List Text) × (split_where p s ≡ w ∷ ws)
unfolding split_where
split_where-cons p [] = ([], [], refl)
split_where-cons p (c ∷ s) =
    let (w, ws, e) = split_where-cons p s in
    elim (Bool-cases (p c)) [
      | inl h ↦ ([], split_where p s, rw h refl)
      | inr h ↦ (c ∷ w, ws, rw (h, e) refl)
    ]
