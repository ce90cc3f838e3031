-- ===== src/Plugins/Manifest/Paths.antt =====
-- plugins/manifest.rs: a path that `is_safe_relative_path` accepts stays inside its root.
use git_ramus.Base.Tests.{
  ℕ, zero, suc, ◌≡◌, refl, inl, inr, Bool, true, false, ◌||◌, Option, none, some, List, [], ◌∷◌,
  Bool-cases, and_iff, not-true, if◌then◌else◌,
}
use git_ramus.Base.Lists.{any}
use git_ramus.Base.Text.{Text, text_eq, is_empty, split_where, is_control}
use git_ramus.Plugins.Manifest.Names.{is_slash, dot_dot, is_safe_relative_path, has_url_scheme}

abbrev single_dot : Text
single_dot = b'.' ∷ []

-- How deep below the root a walk along the components ends, and `none` if it leaves the root on the
-- way.
unfoldable pub walk : ℕ → List Text → Option ℕ
walk depth [] = some depth
walk depth (w ∷ ws) =
    let above : Option ℕ = elim depth [ zero ↦ none | suc d ↦ walk d ws ] in
    let same = walk depth ws in
    let below = walk (suc depth) ws in
    if text_eq w dot_dot then above else if is_empty w || text_eq w single_dot then same else below

walk-inside :
    (ws : List Text) (depth : ℕ)
    → any (λ component. text_eq component dot_dot) ws ≡ false
    → (end : ℕ) × (walk depth ws ≡ some end)
unfolding any walk
walk-inside [] depth h = (depth, refl)
walk-inside (w ∷ ws) depth h = elim (Bool-cases (text_eq w dot_dot)) [
  | inl e ↦ let g = rw e at h in cc
  | inr e ↦
      let h' = rw e at h in
      rw e (elim (Bool-cases (is_empty w || text_eq w single_dot)) [
        | inl s ↦ rw s (walk-inside ws depth h')
        | inr s ↦ rw s (walk-inside ws (suc depth) h')
      ])
]

-- A path that is accepted is not empty, is neither absolute nor a URL, has no control character, and
-- a walk along its components, taken apart at slashes of both kinds, never leaves the root.
pub safe_path_inside :
    (is_absolute : Text → Bool) (path : Text)
    → is_safe_relative_path is_absolute path ≡ true
    → (is_empty path ≡ false)
      × (is_absolute path ≡ false)
      × (has_url_scheme path ≡ false)
      × (any is_control path ≡ false)
      × ((end : ℕ) × (walk 0 (split_where is_slash path) ≡ some end))
unfolding is_safe_relative_path
safe_path_inside is_absolute path h =
    let (a, h₁) = (and_iff _ _).0 h in
    let (b, h₂) = (and_iff _ _).0 h₁ in
    let (c, h₃) = (and_iff _ _).0 h₂ in
    let (d, h₄) = (and_iff _ _).0 h₃ in
    let (e, f) = (and_iff _ _).0 h₄ in
    (not-true a, not-true b, not-true d, not-true e, walk-inside _ 0 (not-true f))
