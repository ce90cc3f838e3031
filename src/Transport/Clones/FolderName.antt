-- ===== src/Transport/Clones/FolderName.antt =====
-- git/transport/clone.rs, `validate_clone_folder_name`: the names that a cloned repository may have.
use git_ramus.Base.Tests.{
  ℕ, ◌-◌, Bool, false, ◌&&◌, ◌||◌, Option, none, some, List, [], ◌∷◌, ltb, leb, map, ◌==◌,
  if◌then◌else◌,
}
use git_ramus.Base.Lists.{any}
use git_ramus.Base.Text.{Text, codes, text_eq, is_empty, is_control, has_char, split, strip_prefix}
use git_ramus.Base.Utf8.{byte_len}
use git_ramus.Base.Error.{invalid_input, Result, ok, err}
use git_ramus.Transport.Clones.Files.{Files}

unfoldable pub to_ascii_upper : ℕ → ℕ
to_ascii_upper c = if leb b'a' c && leb c b'z' then c - 32 else c

-- `split('.').next()`
abbrev stem : List Text → Text → Text
stem [] value = value
stem (first ∷ _) value = first

abbrev or_else : Option Text → Option Text → Option Text
or_else none other = other
or_else (some value) other = some value

abbrev one_to_nine : Option Text → Bool
one_to_nine (some (d ∷ [])) = leb b'1' d && leb d b'9'
one_to_nine _ = false

unfoldable pub is_windows_device : Text → Bool
unfolding to_ascii_upper split text_eq strip_prefix codes
is_windows_device value =
    let upper = map to_ascii_upper (stem (split b'.' value) value) in
    (text_eq upper (codes "CON")
      || (text_eq upper (codes "PRN")
          || (text_eq upper (codes "AUX") || text_eq upper (codes "NUL"))))
    || one_to_nine (or_else (strip_prefix (codes "COM") upper) (strip_prefix (codes "LPT") upper))

-- `ends_with(c)`
unfoldable pub ends_with : ℕ → Text → Bool
ends_with c [] = false
ends_with c (a ∷ []) = a == c
ends_with c (_ ∷ b ∷ s) = ends_with c (b ∷ s)

module _ {F : Type 0} (fs : Files F) where
  unfoldable pub validate_clone_folder_name : Text → Result (Unit {0})
  unfolding is_empty byte_len text_eq ends_with has_char any is_control is_windows_device codes
  validate_clone_folder_name value =
      if is_empty value
        || (ltb 255 (byte_len value)
            || ((text_eq value (codes ".") || text_eq value (codes ".."))
                || ((ends_with b'.' value || ends_with b' ' value)
                    || (fs.is_absolute value
                        || ((has_char b'/' value || has_char 92 value)
                            || (any is_control value || is_windows_device value))))))
      then err (invalid_input (codes "unsafe Clone destination folder name"))
      else ok tt
