-- ===== src/Tokenize/Escape.antt =====
-- Escape sequences and the conversion of character and string tokens.
pub mod Agree
pub mod Printed
use lacc.Base.{
  ℕ, zero, suc, ◌+◌, ◌-◌, ◌*◌, ◌^◌, ◌%◌, Bool, true, false, not, ◌&&◌, ◌||◌, List, [], ◌∷◌, ltb,
  leb, ◌==◌, if◌then◌else◌, Text, take, drop, length, Run, ok, err, diagnostic, exhausted, ◌>>=◌,
  ◌>>◌, guard,
}
use lacc.Types.Defs.{basic as basic_type, int}
use lacc.Strings.{str_register, backslash}
use lacc.Strings.Char.{isxdigit}
use lacc.Tokenize.Kind.{kind_string, kind_number}
use lacc.Tokenize.Number.{scan_digits, has_hex_prefix, long_max}
use lacc.Tokenize.Token.{Token, at, text_token, blank_token}

abbrev pub isoctal : ℕ → Bool
isoctal c = leb b'0' c && ltb c b'8'

-- A `long` cast to `char`, as the byte that it leaves; `strtol` stops at LONG_MAX.
abbrev char_of : ℕ → ℕ
char_of n = (if ltb long_max n then long_max else n) % 256

-- `strtol(in, &end, 16)` of the C standard on a text that starts with a hexadecimal digit: an `0x`
-- in front of a digit is skipped.
unfoldable pub strtol_hex : Text → ℕ × ℕ
unfolding scan_digits
strtol_hex s =
    if has_hex_prefix s
    then (let (v, n) = scan_digits 16 (drop 2 s) 0 in (v, 2 + n))
    else scan_digits 16 s 0

-- The letters that stand for one character.
unfoldable pub simple_escape : ℕ → ℕ
simple_escape c =
    if c == b'a'
    then 7
    else if c == b'b'
    then 8
    else if c == b't'
    then 9
    else if c == b'n'
    then 10
    else if c == b'v'
    then 11
    else if c == b'f'
    then 12
    else if c == b'r'
    then 13
    else if c == b'?' || c == b'\'' || c == b'"' || c == backslash
    then c
    else 256

-- The number of octal digits at the start, three at most.
unfoldable pub octal_length : Text → ℕ
octal_length s =
    if isoctal (at s 0)
    then if isoctal (at s 1) then if isoctal (at s 2) then 3 else 2 else 1
    else 0

-- The byte, and the bytes read behind the backslash.
unfoldable pub convert_escape_sequence : Text → Run (ℕ × ℕ)
unfolding simple_escape octal_length scan_digits strtol_hex
convert_escape_sequence s =
    let c = at s 0 in
    if ltb (simple_escape c) 256
    then ok (simple_escape c, 1)
    else if c == b'x'
    then if isxdigit (at s 1)
      then (let (v, n) = strtol_hex (drop 1 s) in ok (char_of v, 1 + n))
      else err diagnostic
    else if isoctal c
    then (let n = octal_length s in let (v, m) = scan_digits 8 (take n s) 0 in ok (char_of v, n))
    else err diagnostic

unfoldable pub convert_char : Text → Run (ℕ × ℕ)
convert_char s =
    if at s 0 == backslash
    then (do (c, n) ← convert_escape_sequence (drop 1 s); ok (c, 1 + n))
    else ok (at s 0, 1)

-- The loop of `convert_preprocessing_string`. Each round reads a byte at least, so the length of
-- the text is fuel enough.
unfoldable pub convert_chars : ℕ → Text → Run Text
unfolding convert_char
convert_chars fuel [] = ok []
convert_chars zero (c ∷ s) = err exhausted
convert_chars (suc fuel) (c ∷ s) = do
  (b, n) ← convert_char (c ∷ s)
  rest ← convert_chars fuel (drop n (c ∷ s))
  ok (b ∷ rest)

unfoldable pub convert_preprocessing_string : Token → Run Token
unfolding convert_chars
convert_preprocessing_string t = do
  bytes ← convert_chars (length t.text) t.text
  text ← str_register bytes
  ok (text_token kind_string text)

-- A `char` is signed: the value of the token is the byte, sign extended to 64 bits.
unfoldable pub sign_extend : ℕ → ℕ
sign_extend c = if ltb c 128 then c else 2 ^ 64 - 256 + c

unfoldable pub convert_preprocessing_char : Token → Run Token
unfolding convert_char sign_extend
convert_preprocessing_char t = do
  (c, n) ← convert_char t.text
  let plain = blank_token kind_number
  ok (record plain { type = basic_type int false; val = sign_extend c })
