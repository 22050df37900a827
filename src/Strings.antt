-- ===== src/Strings.antt =====
-- src/util/string.c and src/preprocessor/strtab.c: strings, as the list of their bytes. A string
-- knows its length in an unsigned short.
pub mod Char
use lacc.Base.{
  ℕ, zero, suc, ◌+◌, ◌/◌, ◌%◌, ◌<◌, Bool, true, false, not, ◌&&◌, ◌||◌, Option, none, some, List,
  [], ◌∷◌, ◌++◌, ltb, leb, ◌==◌, if◌then◌else◌, Text, Run, ok, err, undefined, length,
}
use Char.{isprint}

-- `str_register`: the same string, if the length fits its field. (The table in which long strings
-- are shared does not change what they hold; short ones are copied.)
unfoldable pub str_register : Text → Run Text
str_register s = if ltb (length s) 65536 then ok s else err undefined

unfoldable pub str_cat : Text → Text → Run Text
unfolding str_register
str_cat a b = str_register (a ++ b)

-- `str_chr`: the index of the first occurrence.
unfoldable pub str_chr : Text → ℕ → Option ℕ
str_chr [] c = none
str_chr (d ∷ s) c =
    let rest : Option ℕ = elim (str_chr s c) [ none ↦ none | some i ↦ some (suc i) ] in
    if d == c then some 0 else rest

abbrev pub backslash : ℕ
backslash = 92

-- `\\%03o`
abbrev octal_escape : ℕ → Text
octal_escape c = backslash ∷ (b'0' + c / 64) ∷ (b'0' + c / 8 % 8) ∷ (b'0' + c % 8) ∷ []

abbrev letter_escape : ℕ → Text
letter_escape c = backslash ∷ c ∷ []

-- The bytes that `printchar` writes for a byte.
unfoldable pub printchar : ℕ → Text
printchar c =
    if isprint c && not (c == b'"') && not (c == backslash)
    then c ∷ []
    else if c == 8
    then letter_escape b'b'
    else if c == 9
    then letter_escape b't'
    else if c == 10
    then letter_escape b'n'
    else if c == 12
    then letter_escape b'f'
    else if c == 13
    then letter_escape b'r'
    else if c == backslash
    then letter_escape backslash
    else if c == b'"'
    then letter_escape b'"'
    else octal_escape c

unfoldable pub printchars : Text → Text
unfolding printchar
printchars [] = []
printchars (c ∷ s) = printchar c ++ printchars s

-- `fprintstr`: what it writes to the stream.
unfoldable pub fprintstr : Text → Text
unfolding printchars
fprintstr s = b'"' ∷ (printchars s ++ b'"' ∷ [])
