-- ===== src/Transport/Clones/Glob.antt =====
-- git/transport/clone.rs: which directories the search of a project leaves out, `clone_glob_match`
-- and `clone_path_is_excluded`.
pub mod Matching
use git_ramus.Base.Tests.{ℕ, Bool, true, false, ◌&&◌, ◌||◌, List, [], ◌∷◌, ◌==◌, map, if◌then◌else◌}
use git_ramus.Base.Lists.{any}
use git_ramus.Base.Text.{Text, codes, text_eq}
use git_ramus.Base.Utf8.{encode}

-- The body of the loop over the indices for `*`, where `seen` says what stood before.
unfoldable pub star_row : Bool → List Bool → List Bool
star_row seen [] = []
star_row seen (s ∷ state) = (seen || s) ∷ star_row (seen || s) state

unfoldable pub takes : ℕ → ℕ → Bool
takes token byte = token == b'?' || token == byte

-- `next[index + 1]`, for each index of the value
unfoldable pub shifted : ℕ → List Bool → List ℕ → List Bool
unfolding takes
shifted token [] value = []
shifted token (s ∷ state) [] = []
shifted token (s ∷ state) (byte ∷ value) = (s && takes token byte) ∷ shifted token state value

-- `next` from `state`
unfoldable pub next_row : ℕ → List Bool → List ℕ → List Bool
unfolding star_row shifted
next_row token state value =
    if token == b'*' then star_row false state else false ∷ shifted token state value

unfoldable pub last_row : List ℕ → List Bool → List ℕ → List Bool
unfolding next_row
last_row [] state value = state
last_row (token ∷ pattern) state value = last_row pattern (next_row token state value) value

unfoldable pub none_set : List ℕ → List Bool
none_set [] = []
none_set (_ ∷ value) = false ∷ none_set value

-- `state[value.len()]`
unfoldable pub at_end : List Bool → List ℕ → Bool
at_end [] value = false
at_end (s ∷ state) [] = s
at_end (s ∷ state) (byte ∷ value) = at_end state value

unfoldable pub clone_glob_match : List ℕ → List ℕ → Bool
unfolding at_end last_row none_set
clone_glob_match pattern value = at_end (last_row pattern (true ∷ none_set value) value) value

abbrev default_excludes : List Text
default_excludes =
    codes ".git"
    ∷ codes "node_modules"
    ∷ codes "target"
    ∷ codes "dist"
    ∷ codes "build"
    ∷ codes ".next"
    ∷ codes ".cache"
    ∷ codes ".venv"
    ∷ codes "vendor"
    ∷ []

-- `replace('\\', "/")`
abbrev normalized : Text → Text
normalized = map (λ c. if c == 92 then b'/' else c)

unfoldable pub clone_path_is_excluded : Text → Text → List Text → Bool
unfolding any text_eq codes encode clone_glob_match
clone_path_is_excluded name relative patterns =
    any (text_eq name) default_excludes
    || any
        (λ pattern.
          clone_glob_match (encode (normalized pattern)) (encode name)
          || clone_glob_match (encode (normalized pattern)) (encode relative))
        patterns
