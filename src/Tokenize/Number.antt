-- ===== src/Tokenize/Number.antt =====
-- Numbers: `stringtonum`, `read_integer_suffix`, `constant_integer_type` and
-- `convert_preprocessing_number`, with what they use of strtoul. The conversion to floating point
-- is the C library's `strtod`, a parameter.
pub mod Constant
use lacc.Base.{
  ℕ, zero, suc, ◌+◌, ◌-◌, ◌*◌, ◌^◌, Bool, true, false, not, ◌&&◌, ◌||◌, Option, none, some, List,
  [], ◌∷◌, ltb, leb, ◌==◌, if◌then◌else◌, Text, take, drop, length, Run, ok, err, assertion,
  diagnostic, ◌>>=◌, ◌>>◌, guard,
}
use lacc.Types.Defs.{CType, basic as basic_type, int, long, float, double, ldouble}
use lacc.Strings.{str_register}
use lacc.Strings.Char.{isdigit, isalpha, isxdigit, isupper, tolower}
use lacc.Tokenize.Kind.{kind_prep_number, kind_number}
use lacc.Tokenize.Token.{Token, at, text_token, blank_token}

-- An exponent letter; `p` in the newer standards.
abbrev is_exponent : Bool → ℕ → Bool
is_exponent c99 c = tolower c == b'e' || c99 && tolower c == b'p'

abbrev is_sign : ℕ → Bool
is_sign c = c == b'+' || c == b'-'

-- The length of the loop of `stringtonum`; with `skip` the next character is the sign of an
-- exponent, which belongs to the number.
unfoldable pub number_length : Bool → Bool → Text → ℕ
number_length c99 skip [] = 0
number_length c99 skip (c ∷ s) =
    let signed = not skip && isalpha c && is_exponent c99 c && is_sign (at s 0) in
    let more = number_length c99 signed s in
    if skip || isdigit c || c == b'.' || c == b'_' || isalpha c then suc more else 0

unfoldable pub stringtonum : Bool → Text → Run (Token × ℕ)
unfolding number_length
stringtonum c99 s = do
  let dot : ℕ = if at s 0 == b'.' then 1 else 0
  guard (isdigit (at s dot)) assertion
  let n = dot + number_length c99 false (drop dot s)
  text ← str_register (take n s)
  ok (text_token kind_prep_number text, n)

-- The bits of `enum suffix`: U is 1, L is 2, and LL is 6.
pub record Suffix : Type 0 where
  pub u : Bool
  pub l : Bool
  pub ll : Bool

-- From an `l` on: the second `l` in the same case, and a `u` behind.
suffix_long : Bool → Text → ℕ → Suffix × ℕ
suffix_long u s i =
    let twice : Bool = at s (suc i) == at s i in
    let j : ℕ = if twice then suc (suc i) else suc i in
    let late : Bool = not u && tolower (at s j) == b'u' in
    (record { u = u || late; l = true; ll = twice }, if late then suc j else j)

-- The suffix at the start of the text, and its length.
unfoldable pub read_integer_suffix : Text → Suffix × ℕ
unfolding suffix_long
read_integer_suffix s =
    let u : Bool = tolower (at s 0) == b'u' in
    let i : ℕ = if u then 1 else 0 in
    if tolower (at s i) == b'l'
    then suffix_long u s i
    else (record { u = u; l = false; ll = false }, i)

abbrev pub int_max : ℕ
int_max = 2 ^ 31 - 1

abbrev pub uint_max : ℕ
uint_max = 2 ^ 32 - 1

abbrev pub long_max : ℕ
long_max = 2 ^ 63 - 1

-- The warnings are left out.
unfoldable pub constant_integer_type : ℕ → Suffix → Bool → CType
constant_integer_type value suffix is_decimal =
    if suffix.l
    then if suffix.u
      then basic_type long true
      else if leb value long_max
      then basic_type long false
      else basic_type long true
    else if suffix.u
    then if leb value uint_max then basic_type int true else basic_type long true
    else if leb value int_max
    then basic_type int false
    else if not is_decimal && leb value uint_max
    then basic_type int true
    else if leb value long_max
    then basic_type long false
    else basic_type long true

-- The value of a digit, 36 for a character that is none.
unfoldable pub digit_value : ℕ → ℕ
digit_value c = if isdigit c then c - b'0' else if isalpha c then tolower c - b'a' + 10 else 36

-- The value of the digits at the start of the text, and their number.
unfoldable pub scan_digits : ℕ → Text → ℕ → ℕ × ℕ
unfolding digit_value
scan_digits base [] acc = (acc, 0)
scan_digits base (c ∷ s) acc =
    let more = scan_digits base s (acc * base + digit_value c) in
    if ltb (digit_value c) base then (more.0, suc more.1) else (acc, 0)

-- `0x` in front of a hexadecimal digit.
abbrev pub has_hex_prefix : Text → Bool
has_hex_prefix s = at s 0 == b'0' && tolower (at s 1) == b'x' && isxdigit (at s 2)

-- `strtoul(str, &end, 0)` of the C standard on a text that starts with a digit or a period: the
-- value, whether it is out of range, and the number of bytes read.
unfoldable pub strtoul : Text → ℕ × Bool × ℕ
unfolding scan_digits
strtoul s =
    let prefix : ℕ = if has_hex_prefix s then 2 else 0 in
    let base : ℕ = if has_hex_prefix s then 16 else if at s 0 == b'0' then 8 else 10 in
    let (v, n) = scan_digits base (drop prefix s) 0 in
    if ltb v (2 ^ 64) then (v, false, prefix + n) else (2 ^ 64 - 1, true, prefix + n)

-- The C library's floating point: the bits of the value that `strtod` reads, whether it is out of
-- range, and the bytes read; and the casts of a double to float and long double.
pub record FloatLibrary : Type 0 where
  pub strtod : Text → ℕ × Bool × ℕ
  pub to_float : ℕ → ℕ
  pub to_long_double : ℕ → ℕ

-- The reading as floating point, with a suffix.
convert_floating : FloatLibrary → Text → Bool × ℕ × CType × ℕ
convert_floating lib s =
    let (v, range, n) = lib.strtod s in
    let c = at s n in
    if not (ltb n (length s))
    then (range, n, basic_type double false, v)
    else if c == b'f' || c == b'F'
    then (range, suc n, basic_type float false, lib.to_float v)
    else if c == b'l' || c == b'L'
    then (range, suc n, basic_type ldouble false, lib.to_long_double v)
    else (range, n, basic_type double false, v)

unfoldable pub convert_preprocessing_number : FloatLibrary → Token → Run Token
unfolding strtoul read_integer_suffix constant_integer_type convert_floating
convert_preprocessing_number lib t = do
  guard (t.token == kind_prep_number) assertion
  let s = t.text
  let (v, range, n) = strtoul s
  let (suffix, m) = read_integer_suffix (drop n s)
  let plain = blank_token kind_number
  if n + m == length s
      then (do
        guard (isdigit (at s 0)) assertion
        guard (not range) diagnostic
        ok (record plain {
          leading_whitespace = t.leading_whitespace;
          type = constant_integer_type v suffix (not (at s 0 == b'0'));
          val = v;
        }))
      else (do
        let (range', n', ty, v') = convert_floating lib s
        guard (not range' && n' == length s) diagnostic
        ok (record plain { leading_whitespace = t.leading_whitespace; type = ty; val = v' }))
