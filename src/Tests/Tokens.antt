-- ===== src/Tests/Tokens.antt =====
-- Constants, escape sequences and printed strings.
use lacc.Base.{
  Bool, All, Text, not, ◌&&◌, ◌++◌, text_eq, text_eq_refl, ◌≢◌, ap, true, ℕ, false, List, [], ◌∷◌,
  length, ok, ◌≡◌, ◌≤◌, ◌<◌, refl, arith,
}
use lacc.Strings.{printchars, fprintstr}
use lacc.Tokenize.Token.{at, codes, text_token}
use lacc.Tokenize.Ident.Words.{spellings, StartsWith, static_assert_text}
use lacc.Tokenize.Kind.{kind_lshift_assign, kind_do, kind_prep_string, kind_string}
use lacc.Tokenize.Number.{Suffix, constant_integer_type}
use lacc.Tokenize.Number.Constant.{constant_integer_type-first_fit, first_fit, candidates, largest}
use lacc.Tokenize.Escape.{convert_escape_sequence, convert_preprocessing_string}
use lacc.Tokenize.Escape.Agree.{parse-convert_escape_sequence, second_prefix_differs}
use lacc.Tokenize.Escape.Printed.{convert-strtostr-fprintstr, IsByte}
use lacc.Tokenize.Table.{basic_token, basic_tokens}
use lacc.Tokenize.Operator.{strtoop}
use lacc.Tokenize.Operator.Longest.{strtoop-longest, longest, operators}
use lacc.Tokenize.Ident.{strtoident}
use lacc.Tokenize.Ident.Names.{strtoident-name, name_token}
use lacc.Tokenize.Ident.Keywords.{strtoident-keywords}
use lacc.Tokenize.Literal.{parse_escape_sequence, strtostr}

abbrev plain_suffix : Suffix
plain_suffix = record { u = false; l = false; ll = false }

-- 0x80000000 is an unsigned int.
constant_integer_type-first_fit_example :
    (constant_integer_type 2147483648 plain_suffix false
      ≡ first_fit 2147483648 (candidates plain_suffix false))
    × (2147483648 ≤ largest (constant_integer_type 2147483648 plain_suffix false))
constant_integer_type-first_fit_example =
    constant_integer_type-first_fit 2147483648 plain_suffix false (ground arith)

escape_x41 : convert_escape_sequence (b'x' ∷ b'4' ∷ b'1' ∷ b'g' ∷ []) ≡ ok (65, 3)
unfolding convert_escape_sequence
escape_x41 = refl

parse-convert_escape_sequence_example :
    parse_escape_sequence (b'x' ∷ b'4' ∷ b'1' ∷ b'g' ∷ []) ≡ ok 3
parse-convert_escape_sequence_example =
    parse-convert_escape_sequence (b'x' ∷ b'4' ∷ b'1' ∷ b'g' ∷ []) 65 3 refl escape_x41

second_prefix_differs_example :
    (parse_escape_sequence (b'x' ∷ b'0' ∷ b'x' ∷ b'4' ∷ []) ≡ ok 2)
    × ((b : ℕ) × (n : ℕ) × (convert_escape_sequence (b'x' ∷ b'0' ∷ b'x' ∷ b'4' ∷ []) ≡ ok (b, n))
        × (4 ≤ n))
second_prefix_differs_example = second_prefix_differs b'4' [] refl

-- The newline and the quote are escaped.
abbrev line : List ℕ
line = b'a' ∷ 10 ∷ b'"' ∷ []

line-IsByte : All IsByte line
line-IsByte = (omega arith, (omega arith, (omega arith, tt)))

line_short : length (printchars line) < 65536
unfolding printchars
line_short = omega arith

convert-strtostr-fprintstr_example :
    (strtostr (fprintstr line ++ b';' ∷ [])
      ≡ ok (text_token kind_prep_string (printchars line), length (fprintstr line)))
    × (convert_preprocessing_string (text_token kind_prep_string (printchars line))
        ≡ ok (text_token kind_string line))
convert-strtostr-fprintstr_example =
    convert-strtostr-fprintstr line (b';' ∷ []) line-IsByte line_short

-- `<<=1`
shift : longest operators (b'<' ∷ b'<' ∷ b'=' ∷ b'1' ∷ []) 0 ≡ kind_lshift_assign
unfolding basic_token basic_tokens
shift = refl

shift_there : 0 < longest operators (b'<' ∷ b'<' ∷ b'=' ∷ b'1' ∷ []) 0
shift_there = rw shift (omega arith)

strtoop-longest_example :
    strtoop (b'<' ∷ b'<' ∷ b'=' ∷ b'1' ∷ [])
    ≡ ok (
      basic_token (longest operators (b'<' ∷ b'<' ∷ b'=' ∷ b'1' ∷ []) 0),
      length (basic_token (longest operators (b'<' ∷ b'<' ∷ b'=' ∷ b'1' ∷ []) 0)).text,
    )
strtoop-longest_example = strtoop-longest (b'<' ∷ b'<' ∷ b'=' ∷ b'1' ∷ []) shift_there

-- `do{`
strtoident-keywords_example :
    strtoident true ((basic_token kind_do).text ++ b'{' ∷ [])
    ≡ ok (basic_token kind_do, length (basic_token kind_do).text)
strtoident-keywords_example = strtoident-keywords 7 kind_do (b'{' ∷ []) refl refl

abbrev differs_from_all : Text → List Text → Bool
differs_from_all n [] = true
differs_from_all n (w ∷ ws) = not (text_eq n w) && differs_from_all n ws

all_differ : (n : Text) (ws : List Text) → differs_from_all n ws ≡ true → All (λ w. n ≢ w) ws
all_differ n [] h = tt
all_differ n (w ∷ ws) h = (apart, all_differ n ws (ground arith))
  where
    apart : n ≢ w
    apart e = let same : text_eq n w ≡ true = rw (← e) (text_eq_refl n) in cc (rw same at h)

-- `integer;`, which begins with a keyword.
integer_unlisted : All (λ w. codes "integer" ≢ w) (spellings true)
integer_unlisted = all_differ (codes "integer") (spellings true) refl

integer_plain : ¬ StartsWith static_assert_text (codes "integer" ++ b';' ∷ [])
integer_plain (rest, e) =
    let first_char : b'i' ≡ b'_' = ap (λ s. at s 0) e in absurd (omega (arith, first_char))

strtoident-name_example :
    strtoident true (codes "integer" ++ b';' ∷ []) ≡ ok (name_token (codes "integer"), 7)
strtoident-name_example =
    strtoident-name true b'i' (codes "nteger") (b';' ∷ [])
      (refl, (refl, (refl, (refl, (refl, (refl, (refl, tt))))))) refl integer_unlisted integer_plain
      (omega arith)
