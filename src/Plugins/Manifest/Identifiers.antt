-- ===== src/Plugins/Manifest/Identifiers.antt =====
-- plugins/manifest.rs: the loop of `is_plugin_id` against a description of identifiers by segments.
use git_ramus.Base.Tests.{
  ℕ, ◌≡◌, ◌∙◌, refl, Bool, true, false, not, ◌&&◌, ◌||◌, List, [], ◌∷◌, arith, Bool-cases, inl, inr,
  ◌==◌, if◌then◌else◌,
}
use git_ramus.Base.Lists.{all}
use git_ramus.Base.Text.{Text, is_empty, has_char, is_ascii_digit, split_where, split_where-cons}
use git_ramus.Plugins.Manifest.Names.{
  is_ascii_lowercase, is_separator, plugin_id_loop, is_plugin_id,
}

unfoldable pub is_id_char : ℕ → Bool
is_id_char c = is_separator c || (is_ascii_lowercase c || is_ascii_digit c)

-- The segments after the current one, which need not be empty if it has begun.
abbrev segments_full : Bool → List Text → Bool
segments_full separated [] = false
segments_full separated (w ∷ ws) =
    (not separated || not (is_empty w)) && all (λ v. not (is_empty v)) ws

-- One round at a separator, and one at another character of an identifier.
at_separator :
    (separated dot now rest full others later : Bool)
    → (if separated then false else (rest && ((full && others) && ((dot || now) || later))))
      ≡ (rest && (((not separated || false) && (full && others)) && (dot || (now || later))))
at_separator true dot now rest full others later = ground arith
at_separator false dot now rest full others later = ground arith

at_plain :
    (separated dot rest others later : Bool)
    → (rest && ((true && others) && (dot || later)))
      ≡ (rest && (((not separated || true) && others) && (dot || (false || later))))
at_plain true dot rest others later = refl
at_plain false dot rest others later = refl

plain_is_no_dot : (c : ℕ) → is_separator c ≡ false → (c == b'.') ≡ false
unfolding is_separator
plain_is_no_dot c h = ground arith

loop_meets_segments :
    (dot separated : Bool) (s : Text)
    → plugin_id_loop dot separated s ≡ (
        all is_id_char s
        && (segments_full separated (split_where is_separator s) && (dot || has_char b'.' s)))
unfolding all split_where has_char is_empty plugin_id_loop is_id_char
loop_meets_segments true true [] = refl
loop_meets_segments true false [] = refl
loop_meets_segments false true [] = refl
loop_meets_segments false false [] = refl
loop_meets_segments dot separated (c ∷ s) =
    let (w, ws, e) = split_where-cons is_separator s in
    let stepped = loop_meets_segments (dot || c == b'.') true s in
    let plain = loop_meets_segments dot false s in
    elim (Bool-cases (is_separator c)) [
      | inl h ↦ rw h (
          rw (stepped, e)
            (at_separator separated dot (c == b'.') (all is_id_char s) (not (is_empty w))
              (all (λ v. not (is_empty v)) ws) (has_char b'.' s)))
      | inr h ↦
          rw (h, plain_is_no_dot c h)
            (elim (Bool-cases (is_ascii_lowercase c || is_ascii_digit c)) [
              | inl g ↦ rw g (
                  rw (plain, e)
                    (at_plain separated dot (all is_id_char s) (all (λ v. not (is_empty v)) ws)
                      (has_char b'.' s)))
              | inr g ↦ rw g refl
            ])
    ]

-- `is_plugin_id` accepts exactly the texts of lower-case letters, digits, dots and dashes that have a
-- dot and in which no segment between dots and dashes is empty, the first and last included.
pub is_plugin_id-segments :
    (s : Text)
    → is_plugin_id s ≡ (
        all is_id_char s
        && (all (λ segment. not (is_empty segment)) (split_where is_separator s)
            && has_char b'.' s))
unfolding is_plugin_id all
is_plugin_id-segments s =
    let (w, ws, e) = split_where-cons is_separator s in
    loop_meets_segments false true s ∙ rw (e, all) refl
