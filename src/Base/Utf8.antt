-- ===== src/Base/Utf8.antt =====
-- `std::str::from_utf8`: the well-formed byte sequences of the Unicode standard (table 3-7).
use git_ramus.Base.Tests.{
  ℕ, ◌+◌, ◌-◌, ◌*◌, ◌/◌, ◌%◌, ◌≡◌, Bool, true, false, ◌&&◌, Option, none, some, List, [], ◌∷◌, ◌++◌,
  arith, leb, ltb, if◌then◌else◌,
}
use git_ramus.Base.Text.{Text}

-- `len()` of a `str`: the bytes of its UTF-8 encoding
unfoldable pub byte_len : Text → ℕ
byte_len [] = 0
byte_len (c ∷ s) =
    (if ltb c 0x80 then 1 else if ltb c 0x800 then 2 else if ltb c 0x10000 then 3 else 4)
    + byte_len s

-- `as_bytes()`
unfoldable pub encode : Text → List ℕ
encode [] = []
encode (c ∷ s) =
    (if ltb c 0x80
      then c ∷ []
      else if ltb c 0x800
      then (0xc0 + c / 0x40) ∷ (0x80 + c % 0x40) ∷ []
      else if ltb c 0x10000
      then (0xe0 + c / 0x1000) ∷ (0x80 + (c / 0x40) % 0x40) ∷ (0x80 + c % 0x40) ∷ []
      else (0xf0 + c / 0x40000)
        ∷ (0x80 + (c / 0x1000) % 0x40)
        ∷ (0x80 + (c / 0x40) % 0x40)
        ∷ (0x80 + c % 0x40)
        ∷ [])
    ++ encode s

-- `need` continuation bytes are missing, the next one lies in `lo ..= hi`, `acc` holds the bits
-- read so far.
record Decoder : Type 0 where
  need : ℕ
  lo : ℕ
  hi : ℕ
  acc : ℕ

abbrev lead : ℕ → ℕ → ℕ → ℕ → Option Decoder
lead need lo hi acc = some (record { need = need; lo = lo; hi = hi; acc = acc })

-- The state after a lead byte that is not ASCII.
start_sequence : ℕ → Option Decoder
start_sequence b =
    if ltb b 0xc2
    then none
    else if ltb b 0xe0
    then lead 1 0x80 0xbf (b - 0xc0)
    else if ltb b 0xe1
    then lead 2 0xa0 0xbf 0
    else if ltb b 0xed
    then lead 2 0x80 0xbf (b - 0xe0)
    else if ltb b 0xee
    then lead 2 0x80 0x9f (b - 0xe0)
    else if ltb b 0xf0
    then lead 2 0x80 0xbf (b - 0xe0)
    else if ltb b 0xf1
    then lead 3 0x90 0xbf 0
    else if ltb b 0xf4
    then lead 3 0x80 0xbf (b - 0xf0)
    else if ltb b 0xf5
    then lead 3 0x80 0x8f (b - 0xf0)
    else none

push_char : ℕ → Option Text → Option Text
push_char c none = none
push_char c (some s) = some (c ∷ s)

mutual
  decode : List ℕ → Option Text
  decode [] = some []
  decode (b ∷ bs) =
      let plain = push_char b (decode bs) in
      let wide = continue (start_sequence b) bs in if ltb b 0x80 then plain else wide

  continue : Option Decoder → List ℕ → Option Text
  continue none [] = none
  continue (some d) [] = none
  continue none (b ∷ bs) = none
  continue (some d) (b ∷ bs) =
      let bits = d.acc * 64 + (b - 0x80) in
      let last = push_char bits (decode bs) in
      let more =
        continue (some (record { need = d.need - 1; lo = 0x80; hi = 0xbf; acc = bits })) bs in
      if leb d.lo b && leb b d.hi then (if leb d.need 1 then last else more) else none

unfoldable pub from_utf8 : List ℕ → Option Text
unfolding decode continue start_sequence push_char
from_utf8 = decode

abbrev replacement : ℕ
replacement = 0xfffd

-- The two bytes begin a longer sequence, so `from_utf8_lossy` replaces them together.
truncated : Option Decoder → ℕ → Bool
truncated none b = false
truncated (some d) b = leb d.lo b && leb b d.hi

lossy : ℕ → ℕ → Option Text → Text
unfolding truncated start_sequence
lossy a b (some s) = s
lossy a b none =
    if ltb a 0x80
    then a ∷ replacement ∷ []
    else if ltb b 0x80
    then replacement ∷ b ∷ []
    else if truncated (start_sequence a) b
    then replacement ∷ []
    else replacement ∷ replacement ∷ []

-- `String::from_utf8_lossy` of two bytes.
unfoldable pub from_utf8_lossy_pair : ℕ → ℕ → Text
unfolding lossy
from_utf8_lossy_pair a b = lossy a b (from_utf8 (a ∷ b ∷ []))

abbrev pub all_ascii : Text → Bool
all_ascii [] = true
all_ascii (c ∷ s) = ltb c 0x80 && all_ascii s

-- ASCII stands for itself.
pub from_utf8-append :
    (p b : List ℕ) (t : Text)
    → all_ascii p ≡ true
    → from_utf8 b ≡ some t
    → from_utf8 (p ++ b) ≡ some (p ++ t)
unfolding from_utf8
from_utf8-append [] b t h e = e
from_utf8-append (c ∷ p) b t h e = ground (arith, from_utf8-append p b t)
