-- ===== src/Transport/Clones/Glob/Matching.antt =====
-- What a pattern of git/transport/clone.rs matches.
use git_ramus.Base.Tests.{
  ℕ, suc, ◌<◌, ◌≡◌, ◌↔◌, refl, Bool, true, false, ◌&&◌, ◌||◌, List, [], ◌∷◌, ◌==◌, ==_iff, arith,
  ap, sym, ◌∙◌, Bool-cases, inl, inr, if◌then◌else◌,
}
use mathlib.Core.Path.{subst}
use git_ramus.Base.Lists.{length}
use git_ramus.Transport.Clones.Glob.{
  star_row, takes, shifted, next_row, last_row, none_set, at_end, clone_glob_match,
}

-- A `*` stands for any bytes, a `?` for any byte, another byte for itself.
pub data Matches : List ℕ → List ℕ → Type 0 where
  end : Matches [] []
  star_empty : (pattern value : List ℕ) → Matches pattern value → Matches (b'*' ∷ pattern) value
  star_byte :
      (pattern value : List ℕ) (byte : ℕ)
      → Matches (b'*' ∷ pattern) value
      → Matches (b'*' ∷ pattern) (byte ∷ value)
  any_byte :
      (pattern value : List ℕ) (byte : ℕ)
      → Matches pattern value
      → Matches (b'?' ∷ pattern) (byte ∷ value)
  this_byte :
      (pattern value : List ℕ) (byte : ℕ)
      → Matches pattern value
      → Matches (byte ∷ pattern) (byte ∷ value)

-- The same by recursion on the pattern.
some_suffix : (List ℕ → Bool) → List ℕ → Bool
some_suffix f [] = f []
some_suffix f (byte ∷ value) = f (byte ∷ value) || some_suffix f value

after_byte : ℕ → (List ℕ → Bool) → List ℕ → Bool
after_byte token f [] = false
after_byte token f (byte ∷ value) = takes token byte && f value

-- `nil`
is_end : List ℕ → Bool
is_end [] = true
is_end (_ ∷ _) = false

glob : List ℕ → List ℕ → Bool
glob [] = is_end
glob (token ∷ pattern) =
    if token == b'*' then some_suffix (glob pattern) else after_byte token (glob pattern)

-- Whether the rest of the pattern matches from one of the indices that the row marks.
accepts : (List ℕ → Bool) → List Bool → List ℕ → Bool
accepts f [] value = false
accepts f (s ∷ state) [] = s && f []
accepts f (s ∷ state) (byte ∷ value) = (s && f (byte ∷ value)) || accepts f state value

length-star_row : (seen : Bool) (state : List Bool) → length (star_row seen state) ≡ length state
unfolding star_row
length-star_row seen [] = refl
length-star_row seen (s ∷ state) = ap suc (length-star_row (seen || s) state)

length-shifted :
    (token : ℕ) (state : List Bool) (value : List ℕ)
    → length value < length state
    → length (shifted token state value) ≡ length value
unfolding shifted
length-shifted token [] value h = elim h [ ]
length-shifted token (s ∷ state) [] h = refl
length-shifted token (s ∷ state) (byte ∷ value) h =
    ap suc (length-shifted token state value (omega arith))

accepts-star_row :
    (f : List ℕ → Bool) (seen : Bool) (state : List Bool) (value : List ℕ)
    → length value < length state
    → accepts f (star_row seen state) value
      ≡ ((seen && some_suffix f value) || accepts (some_suffix f) state value)
unfolding accepts star_row some_suffix
accepts-star_row f seen [] value h = elim h [ ]
accepts-star_row f seen (s ∷ state) [] h = ground arith
accepts-star_row f seen (s ∷ state) (byte ∷ value) h =
    ground (arith, accepts-star_row f (seen || s) state value (omega arith))

accepts-shifted :
    (token : ℕ) (f : List ℕ → Bool) (here : Bool) (state : List Bool) (value : List ℕ)
    → length value < length state
    → accepts f (here ∷ shifted token state value) value
      ≡ ((here && f value) || accepts (after_byte token f) state value)
unfolding accepts shifted after_byte
accepts-shifted token f here [] value h = elim h [ ]
accepts-shifted token f here (s ∷ state) [] h = ground arith
accepts-shifted token f here (s ∷ state) (byte ∷ value) h =
    ground (arith, accepts-shifted token f (s && takes token byte) state value (omega arith))

length-next_row :
    (token : ℕ) (state : List Bool) (value : List ℕ)
    → length value < length state
    → length value < length (next_row token state value)
unfolding next_row
length-next_row token state value h =
    ground (arith, length-star_row false state, length-shifted token state value h)

accepts-next_row :
    (token : ℕ) (pattern : List ℕ) (state : List Bool) (value : List ℕ)
    → length value < length state
    → accepts (glob pattern) (next_row token state value) value
      ≡ accepts (glob (token ∷ pattern)) state value
unfolding next_row glob
accepts-next_row token pattern state value h = elim (Bool-cases (token == b'*')) [
  | inl e ↦ rw e (accepts-star_row (glob pattern) false state value h)
  | inr e ↦ rw e (accepts-shifted token (glob pattern) false state value h)
]

at_end-accepts :
    (state : List Bool) (value : List ℕ) → at_end state value ≡ accepts is_end state value
unfolding at_end accepts is_end
at_end-accepts [] value = refl
at_end-accepts (s ∷ state) [] = ground arith
at_end-accepts (s ∷ state) (byte ∷ value) = ground (arith, at_end-accepts state value)

last_row-accepts :
    (pattern : List ℕ) (state : List Bool) (value : List ℕ)
    → length value < length state
    → at_end (last_row pattern state value) value ≡ accepts (glob pattern) state value
unfolding last_row glob
last_row-accepts [] state value h = at_end-accepts state value
last_row-accepts (token ∷ pattern) state value h =
    last_row-accepts pattern (next_row token state value) value
      (length-next_row token state value h)
    ∙ accepts-next_row token pattern state value h

accepts-none_set :
    (f : List ℕ → Bool) (value : List ℕ) → accepts f (false ∷ none_set value) value ≡ false
unfolding accepts none_set
accepts-none_set f [] = refl
accepts-none_set f (byte ∷ value) = accepts-none_set f value

or_left : (a b : Bool) → b ≡ false → (a || b) ≡ a
or_left a b h = ground arith

accepts-start :
    (f : List ℕ → Bool) (value : List ℕ) → accepts f (true ∷ none_set value) value ≡ f value
unfolding accepts none_set
accepts-start f [] = refl
accepts-start f (byte ∷ value) = or_left (f (byte ∷ value)) _ (accepts-none_set f value)

length-none_set : (value : List ℕ) → length (none_set value) ≡ length value
unfolding none_set
length-none_set [] = refl
length-none_set (byte ∷ value) = ap suc (length-none_set value)

clone_glob_match-glob :
    (pattern value : List ℕ) → clone_glob_match pattern value ≡ glob pattern value
unfolding clone_glob_match
clone_glob_match-glob pattern value =
    last_row-accepts pattern (true ∷ none_set value) value (omega (arith, length-none_set value))
    ∙ accepts-start (glob pattern) value

some_suffix_here :
    (f : List ℕ → Bool) (value : List ℕ) → f value ≡ true → some_suffix f value ≡ true
unfolding some_suffix
some_suffix_here f [] h = h
some_suffix_here f (byte ∷ value) h = ground arith

glob-star_byte :
    (f : List ℕ → Bool) (byte : ℕ) (value : List ℕ)
    → some_suffix f value ≡ true
    → some_suffix f (byte ∷ value) ≡ true
unfolding some_suffix
glob-star_byte f byte value h = ground arith

glob-byte :
    (pattern value : List ℕ) (token byte : ℕ)
    → takes token byte ≡ true
    → glob pattern value ≡ true
    → glob (token ∷ pattern) (byte ∷ value) ≡ true
unfolding glob
glob-byte pattern value token byte taken h = elim (Bool-cases (token == b'*')) [
  | inl e ↦
      rw e (glob-star_byte (glob pattern) byte value (some_suffix_here (glob pattern) value h))
  | inr e ↦ rw e (unfold after_byte in ground arith)
]

takes_same : (byte : ℕ) → takes byte byte ≡ true
unfolding takes
takes_same byte = ground arith

takes_any : (byte : ℕ) → takes b'?' byte ≡ true
unfolding takes
takes_any byte = refl

Matches-glob : {pattern value : List ℕ} → Matches pattern value → glob pattern value ≡ true
unfolding glob is_end
Matches-glob end = refl
Matches-glob (star_empty pattern value m) = some_suffix_here (glob pattern) value (Matches-glob m)
Matches-glob (star_byte pattern value byte m) =
    glob-star_byte (glob pattern) byte value (Matches-glob m)
Matches-glob (any_byte pattern value byte m) =
    glob-byte pattern value b'?' byte (takes_any byte) (Matches-glob m)
Matches-glob (this_byte pattern value byte m) =
    glob-byte pattern value byte byte (takes_same byte) (Matches-glob m)

suffix-Matches :
    (pattern value : List ℕ)
    → ((v : List ℕ) → glob pattern v ≡ true → Matches pattern v)
    → some_suffix (glob pattern) value ≡ true
    → Matches (b'*' ∷ pattern) value
unfolding some_suffix
suffix-Matches pattern [] rest h = star_empty pattern [] (rest [] h)
suffix-Matches pattern (byte ∷ value) rest h = elim (Bool-cases (glob pattern (byte ∷ value))) [
  | inl e ↦ star_empty pattern (byte ∷ value) (rest (byte ∷ value) e)
  | inr e ↦ star_byte pattern value byte (suffix-Matches pattern value rest (ground arith))
]

byte-Matches :
    (token : ℕ) (pattern value : List ℕ)
    → ((v : List ℕ) → glob pattern v ≡ true → Matches pattern v)
    → after_byte token (glob pattern) value ≡ true
    → Matches (token ∷ pattern) value
unfolding after_byte takes
byte-Matches token pattern [] rest h = cc
byte-Matches token pattern (byte ∷ value) rest h =
    let tail = rest value (ground arith) in
    elim (Bool-cases (token == b'?')) [
      | inl e ↦
          subst (λ t. Matches (t ∷ pattern) (byte ∷ value)) (sym ((==_iff token b'?').0 e))
            (any_byte pattern value byte tail)
      | inr e ↦
          subst (λ t. Matches (t ∷ pattern) (byte ∷ value))
            (sym ((==_iff token byte).0 (ground arith))) (this_byte pattern value byte tail)
    ]

glob-Matches : (pattern value : List ℕ) → glob pattern value ≡ true → Matches pattern value
unfolding glob is_end
glob-Matches [] [] h = end
glob-Matches [] (byte ∷ value) h = cc
glob-Matches (token ∷ pattern) value h = elim (Bool-cases (token == b'*')) [
  | inl e ↦
      subst (λ t. Matches (t ∷ pattern) value) (sym ((==_iff token b'*').0 e))
        (suffix-Matches pattern value (glob-Matches pattern) (rw e at h))
  | inr e ↦ byte-Matches token pattern value (glob-Matches pattern) (rw e at h)
]

-- The table that the code fills row by row decides whether a pattern matches: `*` stands for any
-- bytes, `?` for any byte, and any other byte for itself.
pub clone_glob_match_iff :
    (pattern value : List ℕ) → (clone_glob_match pattern value ≡ true) ↔ Matches pattern value
clone_glob_match_iff pattern value = (
  λ h. glob-Matches pattern value (sym (clone_glob_match-glob pattern value) ∙ h),
  λ m. clone_glob_match-glob pattern value ∙ Matches-glob m,
)
