-- ===== src/Transport/Config/Quoting.antt =====
-- `shell_quote` of git/transport/config.rs against the POSIX shell, which runs `core.sshCommand`.
use git_ramus.Base.Tests.{
  ℕ, ◌≡◌, ◌||◌, Option, none, some, [], ◌∷◌, ◌++◌, arith, ◌==◌, if◌then◌else◌,
}
use git_ramus.Base.Lists.{any}
use git_ramus.Base.Text.{Text, is_empty, is_control}
use git_ramus.Base.Error.{ok, unless-eq-ok, ok_injective}
use git_ramus.Transport.Config.Plan.{shell_quote, replace_quotes}

abbrev cons : ℕ → Option Text → Option Text
cons c none = none
cons c (some s) = some (c ∷ s)

pub data Position : Type 0 where
  outside inside escaped : Position

-- One word of the shell that consists of parts in single quotes and escaped characters: outside of
-- quotes a backslash keeps the next character, within quotes every character but the quote stands
-- for itself. Anything else is not one quoted word.
unfoldable pub read_word : Text → Position → Option Text
read_word [] outside = some []
read_word [] inside = none
read_word [] escaped = none
read_word (c ∷ s) outside =
    let quoted = read_word s inside in
    let kept = read_word s escaped in
    if c == b'\'' then quoted else if c == b'\\' then kept else none
read_word (c ∷ s) inside =
    let closed = read_word s outside in
    let rest = cons c (read_word s inside) in if c == b'\'' then closed else rest
read_word (c ∷ s) escaped = cons c (read_word s outside)

abbrev pub shell_word : Text → Option Text
shell_word s = read_word s outside

inside-replace_quotes :
    (value : Text) → read_word (replace_quotes value ++ b'\'' ∷ []) inside ≡ some value
unfolding replace_quotes read_word
inside-replace_quotes [] = ground arith
inside-replace_quotes (c ∷ s) = ground (arith, inside-replace_quotes s)

-- A quoted value is one word of the shell, and that word is the value again.
pub shell_word-shell_quote :
    (value : Text) {quoted : Text} → shell_quote value ≡ ok quoted → shell_word quoted ≡ some value
unfolding shell_quote read_word
shell_word-shell_quote value h =
    let (plain, e) = unless-eq-ok (is_empty value || any is_control value) _ _ h in
    rw (← ok_injective e) (ground (arith, inside-replace_quotes value))
