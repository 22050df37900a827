-- ===== src/Tokenize/Table.antt =====
-- The table `basic_token` of src/preprocessor/tokenize.c, indexed by the kind of the token, which
-- for punctuation is its character, and the numbers of the kinds that the code names.
use lacc.Base.{ℕ, List, [], ◌∷◌, get_or}
use lacc.Tokenize.Token.{Token, tok, idn, blank_token}

unfoldable pub basic_tokens : List Token
basic_tokens =
    tok 0 "$"
    ∷ idn 1 "auto"
    ∷ idn 2 "break"
    ∷ idn 3 "case"
    ∷ idn 4 "char"
    ∷ idn 5 "const"
    ∷ idn 6 "continue"
    ∷ idn 7 "default"
    ∷ idn 8 "do"
    ∷ idn 9 "double"
    ∷ tok 10 "\n"
    ∷ idn 11 "else"
    ∷ idn 12 "enum"
    ∷ idn 13 "extern"
    ∷ idn 14 "float"
    ∷ idn 15 "for"
    ∷ idn 16 "goto"
    ∷ idn 17 "if"
    ∷ idn 18 "int"
    ∷ idn 19 "long"
    ∷ idn 20 "register"
    ∷ idn 21 "return"
    ∷ idn 22 "short"
    ∷ idn 23 "signed"
    ∷ idn 24 "sizeof"
    ∷ idn 25 "static"
    ∷ idn 26 "struct"
    ∷ idn 27 "switch"
    ∷ idn 28 "typedef"
    ∷ idn 29 "union"
    ∷ idn 30 "unsigned"
    ∷ idn 31 "void"
    ∷ idn 32 "inline"
    ∷ tok 33 "!"
    ∷ idn 34 "volatile"
    ∷ tok 35 "#"
    ∷ tok 36 "$"
    ∷ tok 37 "%"
    ∷ tok 38 "&"
    ∷ idn 39 "while"
    ∷ tok 40 "("
    ∷ tok 41 ")"
    ∷ tok 42 "*"
    ∷ tok 43 "+"
    ∷ tok 44 ","
    ∷ tok 45 "-"
    ∷ tok 46 "."
    ∷ tok 47 "/"
    ∷ idn 48 "restrict"
    ∷ tok 49 "_Alignof"
    ∷ tok 50 "_Bool"
    ∷ blank_token 0
    ∷ blank_token 0
    ∷ blank_token 0
    ∷ blank_token 0
    ∷ blank_token 0
    ∷ idn 56 ""
    ∷ blank_token 0
    ∷ tok 58 ":"
    ∷ tok 59 ";"
    ∷ tok 60 "<"
    ∷ tok 61 "="
    ∷ tok 62 ">"
    ∷ tok 63 "?"
    ∷ tok 64 "@"
    ∷ tok 65 "||"
    ∷ tok 66 "&&"
    ∷ tok 67 "<="
    ∷ tok 68 ">="
    ∷ tok 69 "=="
    ∷ tok 70 "!="
    ∷ tok 71 "->"
    ∷ tok 72 "++"
    ∷ tok 73 "--"
    ∷ tok 74 "<<"
    ∷ tok 75 ">>"
    ∷ tok 76 "*="
    ∷ tok 77 "/="
    ∷ tok 78 "%="
    ∷ tok 79 "+="
    ∷ tok 80 "-="
    ∷ tok 81 "<<="
    ∷ tok 82 ">>="
    ∷ tok 83 "&="
    ∷ tok 84 "^="
    ∷ tok 85 "|="
    ∷ tok 86 "##"
    ∷ tok 87 "..."
    ∷ blank_token 0
    ∷ blank_token 0
    ∷ blank_token 0
    ∷ tok 91 "["
    ∷ tok 92 "\\"
    ∷ tok 93 "]"
    ∷ tok 94 "^"
    ∷ blank_token 0
    ∷ tok 96 "`"
    ∷ blank_token 0
    ∷ blank_token 0
    ∷ blank_token 0
    ∷ blank_token 0
    ∷ blank_token 0
    ∷ blank_token 0
    ∷ blank_token 0
    ∷ tok 104 "__asm__"
    ∷ blank_token 0
    ∷ blank_token 0
    ∷ blank_token 0
    ∷ blank_token 0
    ∷ blank_token 0
    ∷ blank_token 0
    ∷ blank_token 0
    ∷ blank_token 0
    ∷ blank_token 0
    ∷ blank_token 0
    ∷ blank_token 0
    ∷ blank_token 116
    ∷ (let plain = blank_token 117 in record plain { leading_whitespace = 1 })
    ∷ blank_token 118
    ∷ blank_token 119
    ∷ blank_token 120
    ∷ blank_token 121
    ∷ blank_token 122
    ∷ tok 123 "{"
    ∷ tok 124 "|"
    ∷ tok 125 "}"
    ∷ tok 126 "~"
    ∷ blank_token 0
    ∷ []

unfoldable pub basic_token : ℕ → Token
unfolding basic_tokens
basic_token k = get_or basic_tokens k (blank_token 0)
