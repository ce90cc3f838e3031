-- ===== src/Git/Status/Columns.antt =====
-- git/parser.rs: the columns of a status record are taken apart as they were joined.
use git_ramus.Base.Tests.{ℕ, zero, suc, ◌≡◌, refl, true, false, List, [], ◌∷◌, ◌++◌, arith}
use git_ramus.Base.Lists.{length, all}
use git_ramus.Base.Text.{Text, has_char, has_char-append, is_empty, split_once-append}
use git_ramus.Base.Error.{ok}
use git_ramus.Git.Status.Model.{RepositorySnapshot}
use git_ramus.Git.Status.Records.{
  Bytes, split_prefix_fields, field_at, two_bytes, decode_path, ordinary_record, rename_record,
  unmerged_record, untracked_record,
}
use git_ramus.Git.Status.Render.{
  ordinary, unmerged, rename, untracked, join, columns_of, apply, is_column, IsPath, HasColumns,
}

split_prefix_fields-join :
    (n : ℕ) (fs : List Bytes) (last : Bytes)
    → length fs ≡ n
    → all is_column fs ≡ true
    → split_prefix_fields n (join fs last) ≡ ok (fs ++ last ∷ [])
unfolding split_prefix_fields join all
split_prefix_fields-join zero [] last e h = refl
split_prefix_fields-join (suc n) [] last e h = absurd (omega arith)
split_prefix_fields-join zero (f ∷ fs) last e h = absurd (omega arith)
split_prefix_fields-join (suc n) (f ∷ fs) last e h =
    ground (arith, split_once-append b' ' f (join fs last), split_prefix_fields-join n fs last)

field_at-last :
    (n : ℕ) (fs : List Bytes) (last : Bytes) → length fs ≡ n → field_at n (fs ++ last ∷ []) ≡ last
field_at-last zero [] last e = refl
field_at-last (suc n) [] last e = absurd (omega arith)
field_at-last zero (f ∷ fs) last e = absurd (omega arith)
field_at-last (suc n) (f ∷ fs) last e = field_at-last n fs last (omega arith)

pub has_char-join :
    (fs : List Bytes) (last : Bytes)
    → all is_column fs ≡ true
    → has_char 0 last ≡ false
    → has_char 0 (join fs last) ≡ false
unfolding join all has_char
has_char-join [] last h k = k
has_char-join (f ∷ fs) last h k =
    ground (arith, has_char-append 0 f (b' ' ∷ join fs last), has_char-join fs last)

decode_path-IsPath : (p : Bytes) (t : Text) → IsPath p t → decode_path p ≡ ok t
unfolding decode_path
decode_path-IsPath p t (full, clean, e) = rw (full, e) refl

pub ordinary-parses :
    (x y : ℕ) (columns : List Bytes) (p : Bytes) (t : Text) (s : RepositorySnapshot)
    → HasColumns 6 x y columns
    → IsPath p t
    → ordinary_record (join (columns_of b'1' x y columns) p) s
      ≡ ok (apply (ordinary x y columns p t) s)
unfolding ordinary_record two_bytes apply all has_char
ordinary-parses x y columns p t s (n, clean) path =
    rw (split_prefix_fields-join 8 (columns_of b'1' x y columns) p (omega arith) clean)
      (rw (field_at-last 6 columns p n) (rw (decode_path-IsPath p t path) refl))

pub unmerged-parses :
    (x y : ℕ) (columns : List Bytes) (p : Bytes) (t : Text) (s : RepositorySnapshot)
    → HasColumns 8 x y columns
    → IsPath p t
    → unmerged_record (join (columns_of b'u' x y columns) p) s
      ≡ ok (apply (unmerged x y columns p t) s)
unfolding unmerged_record two_bytes apply all has_char
unmerged-parses x y columns p t s (n, clean) path =
    rw (split_prefix_fields-join 10 (columns_of b'u' x y columns) p (omega arith) clean)
      (rw (field_at-last 8 columns p n) (rw (decode_path-IsPath p t path) refl))

pub rename-parses :
    (x y : ℕ) (columns : List Bytes) (p : Bytes) (t : Text) (q : Bytes) (u : Text)
    (rest : List Bytes) (s : RepositorySnapshot)
    → HasColumns 7 x y columns
    → IsPath p t
    → IsPath q u
    → rename_record (join (columns_of b'2' x y columns) p) (q ∷ rest) s
      ≡ ok (apply (rename x y columns p t q u) s)
unfolding rename_record two_bytes apply all has_char
rename-parses x y columns p t q u rest s (n, clean) path original =
    rw (split_prefix_fields-join 9 (columns_of b'2' x y columns) p (omega arith) clean) (
      rw (field_at-last 7 columns p n)
        (rw (decode_path-IsPath p t path) (rw (decode_path-IsPath q u original) refl)))

pub untracked-parses :
    (p : Bytes) (t : Text) (s : RepositorySnapshot)
    → IsPath p t
    → untracked_record (b'?' ∷ b' ' ∷ p) s ≡ ok (apply (untracked p t) s)
unfolding untracked_record apply is_empty
untracked-parses [] t s (full, clean, e) = cc
untracked-parses (b ∷ p) t s path = rw (decode_path-IsPath (b ∷ p) t path) (ground arith)
