-- ===== src/Tokenize/Line.antt =====
-- `skip_spaces` and `tokenize`.
use lacc.Base.{
  ℕ, suc, ◌+◌, ◌%◌, ◌^◌, Bool, ◌&&◌, ◌||◌, [], ◌∷◌, ◌==◌, if◌then◌else◌, Text, Run, ok, drop, ◌>>=◌,
}
use lacc.Strings.Char.{isspace, isalpha, isdigit}
use lacc.Tokenize.Token.{Token, at}
use lacc.Tokenize.Kind.{kind_end}
use lacc.Tokenize.Table.{basic_token}
use lacc.Tokenize.Number.{stringtonum}
use lacc.Tokenize.Literal.{strtochar, strtostr}
use lacc.Tokenize.Ident.{strtoident}
use lacc.Tokenize.Operator.{strtoop}

unfoldable pub skip_spaces : Text → ℕ
skip_spaces [] = 0
skip_spaces (c ∷ s) = let more = skip_spaces s in if isspace c then suc more else 0

-- The choice by the first character of a line without leading spaces.
unfoldable pub tokenize_here : Bool → Text → Run (Token × ℕ)
tokenize_here c99 s =
    let c = at s 0 in
    if isalpha c || c == b'_'
    then strtoident c99 s
    else if c == 0
    then ok (basic_token kind_end, 0)
    else if isdigit c || c == b'.' && isdigit (at s 1)
    then stringtonum c99 s
    else if c == b'"'
    then strtostr s
    else if c == b'\''
    then strtochar s
    else strtoop s

-- The width of the space in front fits the 16 bits of its field by wrapping.
unfoldable pub tokenize : Bool → Text → Run (Token × ℕ)
unfolding skip_spaces tokenize_here
tokenize c99 s = do
  let ws = skip_spaces s
  (tok, n) ← tokenize_here c99 (drop ws s)
  ok (record tok { leading_whitespace = ws % 2 ^ 16 }, ws + n)
