-- ===== src/Tokenize/Literal.antt =====
-- Character and string literals, as they are cut from the line: `parse_escape_sequence`,
-- `strtochar` and `strtostr`. A scan that passes the terminating NUL reads outside the line.
use lacc.Base.{
  ℕ, zero, suc, ◌+◌, true, false, not, [], ◌∷◌, ◌==◌, if◌then◌else◌, Text, take, drop, length, Run,
  ok, err, assertion, diagnostic, undefined, exhausted, ◌>>=◌, ◌>>◌, guard,
}
use lacc.Strings.{str_register, backslash}
use lacc.Strings.Char.{isxdigit}
use lacc.Tokenize.Escape.{isoctal, octal_length}
use lacc.Tokenize.Kind.{kind_prep_char, kind_prep_string}
use lacc.Tokenize.Token.{Token, at, text_token}

-- The number of hexadecimal digits at the start.
unfoldable pub hex_length : Text → ℕ
hex_length [] = 0
hex_length (c ∷ s) = let more = hex_length s in if isxdigit c then suc more else 0

-- The bytes of an escape sequence behind the backslash.
unfoldable pub parse_escape_sequence : Text → Run ℕ
unfolding hex_length octal_length
parse_escape_sequence [] = err undefined
parse_escape_sequence (c ∷ s) =
    if c == b'x'
    then ok (1 + hex_length s)
    else if isoctal c
    then ok (octal_length (c ∷ s))
    else ok 1

-- The first character behind the quotation mark.
char_length : Text → Run ℕ
unfolding parse_escape_sequence
char_length [] = err undefined
char_length (c ∷ s) =
    if c == backslash
    then (do n ← parse_escape_sequence s; ok (1 + n))
    else if not (c == b'\'')
    then ok 1
    else err diagnostic

unfoldable pub strtochar : Text → Run (Token × ℕ)
unfolding char_length
strtochar s = do
  guard (at s 0 == b'\'') assertion
  n ← char_length (drop 1 s)
  guard (at (drop 1 s) n == b'\'') diagnostic
  text ← str_register (take n (drop 1 s))
  ok (text_token kind_prep_char text, 2 + n)

-- The loop of `strtostr`: the bytes up to the closing quotation mark. Each round reads a byte at
-- least.
unfoldable pub string_length : ℕ → Text → Run ℕ
unfolding parse_escape_sequence
string_length zero s = err exhausted
string_length (suc f) [] = err undefined
string_length (suc f) (c ∷ s) = elim (c == b'"') [
  | true ↦ ok 0
  | false ↦ elim (c == backslash) [
    | true ↦ do n ← parse_escape_sequence s; more ← string_length f (drop n s); ok (1 + n + more)
    | false ↦ do more ← string_length f s; ok (1 + more)
  ]
]

unfoldable pub strtostr : Text → Run (Token × ℕ)
unfolding string_length
strtostr s = do
  guard (at s 0 == b'"') assertion
  n ← string_length (suc (length s)) (drop 1 s)
  text ← str_register (take n (drop 1 s))
  ok (text_token kind_prep_string text, 2 + n)
