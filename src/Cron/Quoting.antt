-- ===== src/Cron/Quoting.antt =====
-- `shellQuote` against the way a POSIX shell reads a word.
use cloudpanel_gateway.Base.{
  ℕ, ◌≡◌, refl, Bool, ◌&&◌, ◌||◌, Option, none, some, [], ◌∷◌, ◌++◌, append_assoc, append-nil,
  arith, leb, ◌==◌, if◌then◌else◌, Bytes,
}

-- `strings.ReplaceAll(v, "'", "'\\''")`
unfoldable pub escape : Bytes → Bytes
escape [] = []
escape (c ∷ v) =
    let rest = escape v in if c == b'\'' then b'\'' ∷ b'\\' ∷ b'\'' ∷ b'\'' ∷ rest else c ∷ rest

-- `shellQuote(v)`
unfoldable pub shell_quote : Bytes → Bytes
unfolding escape
shell_quote v = b'\'' ∷ (escape v ++ b'\'' ∷ [])

abbrev push_char : ℕ → Option (Bytes × Bytes) → Option (Bytes × Bytes)
push_char c none = none
push_char c (some (w, rest)) = some (c ∷ w, rest)

-- Where a shell stands in a word: before it, or in one of its parts.
pub data Mode : Type 0 where
  start unquoted quoted backslash : Mode

-- A letter or a digit stands for itself.
abbrev is_literal : ℕ → Bool
is_literal c =
    (leb b'a' c && leb c b'z') || (leb b'A' c && leb c b'Z') || (leb b'0' c && leb c b'9')

abbrev read_char : Mode → ℕ → Bytes → (Mode → Option (Bytes × Bytes)) → Option (Bytes × Bytes)
read_char start c s next =
    if c == b'\''
    then next quoted
    else if c == b'\\'
    then next backslash
    else if is_literal c
    then push_char c (next unquoted)
    else none
read_char unquoted c s next =
    if c == b'\''
    then next quoted
    else if c == b' '
    then some ([], c ∷ s)
    else if c == b'\\'
    then next backslash
    else if is_literal c
    then push_char c (next unquoted)
    else none
read_char quoted c s next = if c == b'\'' then next unquoted else push_char c (next quoted)
read_char backslash c s next = if c == 10 then none else push_char c (next unquoted)

-- The rest of a word of a shell command, and what stands behind the word. The reader knows quotes,
-- backslashes, letters and digits, and no other unquoted byte: `none` where a byte that a shell may
-- take as an operator, a comment or an expansion stands unquoted, a quote is not closed, or no
-- word begins.
pub read_word : Mode → Bytes → Option (Bytes × Bytes)
read_word start [] = none
read_word unquoted [] = some ([], [])
read_word quoted [] = none
read_word backslash [] = none
read_word mode (c ∷ s) = read_char mode c s (λ m. read_word m s)

abbrev prepend : Bytes → Option (Bytes × Bytes) → Option (Bytes × Bytes)
prepend [] o = o
prepend (c ∷ v) o = push_char c (prepend v o)

read_word-escape :
    (v rest : Bytes)
    → read_word quoted (escape v ++ b'\'' ∷ rest) ≡ prepend v (read_word unquoted rest)
unfolding read_word escape
read_word-escape [] rest = refl
read_word-escape (c ∷ v) rest = ground (arith, read_word-escape v rest)

prepend-some : (v w rest : Bytes) → prepend v (some (w, rest)) ≡ some (v ++ w, rest)
prepend-some [] w rest = refl
prepend-some (c ∷ v) w rest = rw (prepend-some v w rest)

-- Whatever bytes a text holds, quotes, blanks, backslashes and operators among them, a reader of shell
-- words that refuses every unquoted byte but letters and digits reads its quoted form back as one
-- word, the text itself, and stops at the blank behind it.
pub read_word-shell_quote :
    (v rest : Bytes) → read_word start (shell_quote v ++ b' ' ∷ rest) ≡ some (v, b' ' ∷ rest)
unfolding shell_quote read_word
read_word-shell_quote v rest =
    rw
      (
        append_assoc (escape v) (b'\'' ∷ []) (b' ' ∷ rest),
        read_word-escape v (b' ' ∷ rest),
        prepend-some v [] (b' ' ∷ rest),
        append-nil v,
      )
      refl
