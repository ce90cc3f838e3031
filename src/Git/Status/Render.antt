-- ===== src/Git/Status/Render.antt =====
-- The records of `git status --porcelain=v2 -z --branch` as data, how they are written, and what a
-- reader is to make of them. Git's documentation of the format gives the columns.
use git_ramus.Base.Tests.{
  ℕ, ◌≡◌, Bool, true, false, not, ◌&&◌, ◌||◌, none, some, List, [], ◌∷◌, ◌++◌, ◌==◌, if◌then◌else◌,
}
use git_ramus.Base.Lists.{length, all}
use git_ramus.Base.Text.{Text, codes, has_char, is_empty}
use git_ramus.Base.Utf8.{from_utf8}
use git_ramus.Git.Status.Model.{
  conflicted, copied, renamed, status_entry, untracked_entry, RepositorySnapshot,
}
use git_ramus.Git.Status.Header.{branch_oid, branch_head, branch_upstream}
use git_ramus.Git.Status.Records.{Bytes, status_is_conflicted, kind_from_status, push_change}

-- A path stands as its bytes and as the text that they encode.
pub data Item : Type 0 where
  oid head upstream : Bytes → Text → Item
  ordinary unmerged : ℕ → ℕ → List Bytes → Bytes → Text → Item
  rename : ℕ → ℕ → List Bytes → Bytes → Text → Bytes → Text → Item
  untracked : Bytes → Text → Item
  ignored : Bytes → Item

-- Columns, each with a space behind it, and a last one.
unfoldable pub join : List Bytes → Bytes → Bytes
join [] last = last
join (f ∷ fs) last = f ++ b' ' ∷ join fs last

abbrev pub columns_of : ℕ → ℕ → ℕ → List Bytes → List Bytes
columns_of tag x y columns = (tag ∷ []) ∷ (x ∷ y ∷ []) ∷ columns

-- The records of an item: a renaming has two.
unfoldable pub records : Item → List Bytes
unfolding join
records (oid b t) = (codes "# branch.oid " ++ b) ∷ []
records (head b t) = (codes "# branch.head " ++ b) ∷ []
records (upstream b t) = (codes "# branch.upstream " ++ b) ∷ []
records (ordinary x y columns p t) = join (columns_of b'1' x y columns) p ∷ []
records (unmerged x y columns p t) = join (columns_of b'u' x y columns) p ∷ []
records (rename x y columns p t q u) = join (columns_of b'2' x y columns) p ∷ q ∷ []
records (untracked p t) = (b'?' ∷ b' ' ∷ p) ∷ []
records (ignored p) = (b'!' ∷ b' ' ∷ p) ∷ []

unfoldable pub all_records : List Item → List Bytes
unfolding records
all_records [] = []
all_records (i ∷ items) = records i ++ all_records items

-- Each record with its NUL.
unfoldable pub terminated : List Bytes → Bytes
terminated [] = []
terminated (r ∷ rs) = r ++ 0 ∷ terminated rs

-- The effect of an item on the snapshot.
unfoldable pub apply : Item → RepositorySnapshot → RepositorySnapshot
apply (oid b t) s = branch_oid t s
apply (head b t) s = branch_head t s
apply (upstream b t) s = branch_upstream t s
apply (ordinary x y columns p t) s =
    let conflict = status_is_conflicted x y in
    push_change (status_entry t none (kind_from_status x y false conflict) x y conflict) s
apply (unmerged x y columns p t) s = push_change (status_entry t none conflicted x y true) s
apply (rename x y columns p t q u) s =
    push_change
      (status_entry t (some u) (if x == b'C' || y == b'C' then copied else renamed) x y
        (status_is_conflicted x y))
      s
apply (untracked p t) s = push_change (untracked_entry t) s
apply (ignored p) s = s

unfoldable pub apply_all : List Item → RepositorySnapshot → RepositorySnapshot
unfolding apply
apply_all [] s = s
apply_all (i ∷ items) s = apply_all items (apply i s)

-- A column has neither a space nor a NUL in it.
abbrev pub is_column : Bytes → Bool
is_column f = not (has_char b' ' f) && not (has_char 0 f)

-- The bytes of a path are not empty, have no NUL and encode the text.
abbrev pub IsPath : Bytes → Text → Type 0
IsPath p t = (is_empty p ≡ false) × (has_char 0 p ≡ false) × (from_utf8 p ≡ some t)

-- A header's value is one line.
abbrev pub IsValue : Bytes → Text → Type 0
IsValue b t = (has_char b'\n' b ≡ false) × (has_char 0 b ≡ false) × (from_utf8 b ≡ some t)

abbrev pub HasColumns : ℕ → ℕ → ℕ → List Bytes → Type 0
HasColumns n x y columns = (length columns ≡ n) × (all is_column ((x ∷ y ∷ []) ∷ columns) ≡ true)

abbrev pub IsWritten : Item → Type 0
IsWritten (oid b t) = IsValue b t
IsWritten (head b t) = IsValue b t
IsWritten (upstream b t) = IsValue b t
IsWritten (ordinary x y columns p t) = HasColumns 6 x y columns × IsPath p t
IsWritten (unmerged x y columns p t) = HasColumns 8 x y columns × IsPath p t
IsWritten (rename x y columns p t q u) = HasColumns 7 x y columns × IsPath p t × IsPath q u
IsWritten (untracked p t) = IsPath p t
IsWritten (ignored p) = has_char 0 p ≡ false

abbrev pub AllWritten : List Item → Type 0
AllWritten [] = Unit {0}
AllWritten (i ∷ items) = IsWritten i × AllWritten items
