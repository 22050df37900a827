-- ===== src/Tokenize/Escape/Printed.antt =====
-- What `fprintstr` prints is a string literal, and the tokenizer reads the string back from it.
use mathlib.Core.List.{append_assoc}
use lacc.Base.{
  ℕ, zero, suc, ◌+◌, ◌/◌, ◌%◌, ◌≤◌, ◌<◌, false, not, ◌&&◌, [], ◌∷◌, ◌++◌, ◌==◌, Text, take, drop,
  length, All, ok, ◌≡◌, refl, arith, ap, Bool-cases, ◌⊎◌, inl, inr, lt→ltb, length-append,
}
use lacc.Strings.{printchar, printchars, fprintstr, str_register, backslash}
use lacc.Strings.Char.{isprint}
use lacc.Tokenize.Escape.{
  convert_escape_sequence, convert_char, convert_chars, convert_preprocessing_string, simple_escape,
}
use lacc.Tokenize.Kind.{kind_string, kind_prep_string}
use lacc.Tokenize.Literal.{strtostr, string_length, parse_escape_sequence}
use lacc.Tokenize.Escape.Agree.{parse-convert_escape_sequence}
use lacc.Tokenize.Token.{text_token}

-- Reading back one printed byte.
convert_char-octal :
    (c : ℕ) (rest : Text)
    → c < 256
    → convert_char (backslash ∷ (b'0' + c / 64) ∷ (b'0' + c / 8 % 8) ∷ (b'0' + c % 8) ∷ rest)
      ≡ ok (c, 4)
unfolding convert_char convert_escape_sequence
convert_char-octal c rest h = ground arith

convert_char-plain :
    (c : ℕ) (rest : Text) → (c == backslash) ≡ false → convert_char (c ∷ rest) ≡ ok (c, 1)
unfolding convert_char
convert_char-plain c rest h = rw h

-- An escape by a letter.
convert_char-letter :
    (c d : ℕ) (rest : Text)
    → simple_escape d ≡ c
    → c < 256
    → convert_char (backslash ∷ d ∷ rest) ≡ ok (c, 2)
unfolding convert_char convert_escape_sequence
convert_char-letter c d rest e h = ground arith

convert_char-printchar :
    (c : ℕ) (rest : Text)
    → c < 256
    → convert_char (printchar c ++ rest) ≡ ok (c, length (printchar c))
unfolding printchar
convert_char-printchar c rest h =
    elim (Bool-cases (isprint c && not (c == b'"') && not (c == backslash))) [
      | inl p ↦ rw p (convert_char-plain c rest (ground arith))
      | inr p ↦ elim (Bool-cases (c == 8)) [
        | inl e ↦
            rw (p, e) (convert_char-letter c b'b' rest (unfold simple_escape in ground arith) h)
        | inr q1 ↦ elim (Bool-cases (c == 9)) [
          | inl e ↦
              rw (p, q1, e)
                (convert_char-letter c b't' rest (unfold simple_escape in ground arith) h)
          | inr q2 ↦ elim (Bool-cases (c == 10)) [
            | inl e ↦
                rw (p, q1, q2, e)
                  (convert_char-letter c b'n' rest (unfold simple_escape in ground arith) h)
            | inr q3 ↦ elim (Bool-cases (c == 12)) [
              | inl e ↦
                  rw (p, q1, q2, q3, e)
                    (convert_char-letter c b'f' rest (unfold simple_escape in ground arith) h)
              | inr q4 ↦ elim (Bool-cases (c == 13)) [
                | inl e ↦
                    rw (p, q1, q2, q3, q4, e)
                      (convert_char-letter c b'r' rest (unfold simple_escape in ground arith) h)
                | inr q5 ↦ elim (Bool-cases (c == backslash)) [
                  | inl e ↦
                      rw (p, q1, q2, q3, q4, q5, e)
                        (convert_char-letter c backslash rest (unfold simple_escape in ground arith)
                          h)
                  | inr q6 ↦ elim (Bool-cases (c == b'"')) [
                    | inl e ↦
                        rw (p, q1, q2, q3, q4, q5, q6, e)
                          (convert_char-letter c b'"' rest (unfold simple_escape in ground arith) h)
                    | inr q7 ↦ rw (p, q1, q2, q3, q4, q5, q6, q7) (convert_char-octal c rest h)
                  ]
                ]
              ]
            ]
          ]
        ]
      ]
    ]

printchar-pos : (c : ℕ) → 0 < length (printchar c)
unfolding printchar
printchar-pos c = ground arith

-- A printed byte is the byte, or a backslash with an escape that does not begin with an `x`.
abbrev IsPrinted : ℕ → Text → Type 0
IsPrinted c out =
    ((out ≡ c ∷ []) × ((c == b'"') ≡ false) × ((c == backslash) ≡ false))
    ⊎ ((d : ℕ) × (e : Text) × (out ≡ backslash ∷ d ∷ e) × ((d == b'x') ≡ false))

printchar-IsPrinted : (c : ℕ) → c < 256 → IsPrinted c (printchar c)
unfolding printchar
printchar-IsPrinted c h = elim (Bool-cases (isprint c && not (c == b'"') && not (c == backslash))) [
  | inl p ↦ inl (rw p, ground arith, ground arith)
  | inr p ↦ elim (Bool-cases (c == 8)) [
    | inl e ↦ inr (b'b', [], rw (p, e), refl)
    | inr q1 ↦ elim (Bool-cases (c == 9)) [
      | inl e ↦ inr (b't', [], rw (p, q1, e), refl)
      | inr q2 ↦ elim (Bool-cases (c == 10)) [
        | inl e ↦ inr (b'n', [], rw (p, q1, q2, e), refl)
        | inr q3 ↦ elim (Bool-cases (c == 12)) [
          | inl e ↦ inr (b'f', [], rw (p, q1, q2, q3, e), refl)
          | inr q4 ↦ elim (Bool-cases (c == 13)) [
            | inl e ↦ inr (b'r', [], rw (p, q1, q2, q3, q4, e), refl)
            | inr q5 ↦ elim (Bool-cases (c == backslash)) [
              | inl e ↦ inr (backslash, [], rw (p, q1, q2, q3, q4, q5, e), refl)
              | inr q6 ↦ elim (Bool-cases (c == b'"')) [
                | inl e ↦ inr (b'"', [], rw (p, q1, q2, q3, q4, q5, q6, e), refl)
                | inr q7 ↦ inr (
                  b'0' + c / 64,
                  (b'0' + c / 8 % 8) ∷ (b'0' + c % 8) ∷ [],
                  rw (p, q1, q2, q3, q4, q5, q6, q7),
                  ground arith,
                )
              ]
            ]
          ]
        ]
      ]
    ]
  ]
]

drop-append : (xs ys : Text) → drop (length xs) (xs ++ ys) ≡ ys
drop-append [] ys = refl
drop-append (x ∷ xs) ys = drop-append xs ys

take-append : (xs ys : Text) → take (length xs) (xs ++ ys) ≡ xs
take-append [] ys = refl
take-append (x ∷ xs) ys = ap (λ l. x ∷ l) (take-append xs ys)

convert_chars-step :
    (f : ℕ) (s r : Text) (b n : ℕ)
    → 0 < length s
    → convert_char s ≡ ok (b, n)
    → convert_chars f (drop n s) ≡ ok r
    → convert_chars (suc f) s ≡ ok (b ∷ r)
unfolding convert_chars
convert_chars-step f [] r b n pos h k = absurd (omega arith)
convert_chars-step f (c ∷ s) r b n pos h k = rw (h, k)

abbrev pub IsByte : ℕ → Type 0
IsByte c = c < 256

convert_chars-printchars :
    (s : Text) (f : ℕ) → All IsByte s → length s ≤ f → convert_chars f (printchars s) ≡ ok s
unfolding printchars
convert_chars-printchars [] f h le = unfold convert_chars in refl
convert_chars-printchars (c ∷ s) zero h le = absurd (omega arith)
convert_chars-printchars (c ∷ s) (suc f) h le =
    convert_chars-step f (printchar c ++ printchars s) s c (length (printchar c))
      (omega (arith, printchar-pos c, length-append {0} (printchar c) (printchars s)))
      (convert_char-printchar c (printchars s) h.0)
      (rw (drop-append (printchar c) (printchars s))
        (convert_chars-printchars s f h.1 (omega arith)))

length-printchars : (s : Text) → length s ≤ length (printchars s)
unfolding printchars
length-printchars [] = omega arith
length-printchars (c ∷ s) =
    omega
      (arith, printchar-pos c, length-append {0} (printchar c) (printchars s), length-printchars s)

-- The bytes that the inner scan takes for an escape are those that the conversion takes.
convert_char-escape :
    (s : Text) (b n : ℕ)
    → convert_char (backslash ∷ s) ≡ ok (b, suc n)
    → convert_escape_sequence s ≡ ok (b, n)
unfolding convert_char
convert_char-escape s b n h = ground arith

string_length-plain :
    (f c m : ℕ) (t : Text)
    → (c == b'"') ≡ false
    → (c == backslash) ≡ false
    → string_length f t ≡ ok m
    → string_length (suc f) (c ∷ t) ≡ ok (1 + m)
unfolding string_length
string_length-plain f c m t no_quote no_backslash h = ground arith

string_length-escape :
    (f n m : ℕ) (t : Text)
    → parse_escape_sequence t ≡ ok n
    → string_length f (drop n t) ≡ ok m
    → string_length (suc f) (backslash ∷ t) ≡ ok (suc n + m)
unfolding string_length
string_length-escape f n m t cut h = rw (cut, h) (ground arith)

string_length-printchar :
    (f c m : ℕ) (t : Text)
    → c < 256
    → string_length f t ≡ ok m
    → string_length (suc f) (printchar c ++ t) ≡ ok (length (printchar c) + m)
string_length-printchar f c m t small h = elim (printchar-IsPrinted c small) [
  | inl (plain, no_quote, no_backslash) ↦
      rw plain (string_length-plain f c m t no_quote no_backslash h)
  | inr (d, e, escaped, no_x) ↦
      let back : convert_char (backslash ∷ d ∷ e ++ t) ≡ ok (c, suc (suc (length e))) =
        rw escaped at (convert_char-printchar c t small) in
      let read = convert_char-escape (d ∷ e ++ t) c (suc (length e)) back in
      let cut = parse-convert_escape_sequence (d ∷ e ++ t) c (suc (length e)) (rw no_x refl) read in
      rw escaped
        (string_length-escape f (suc (length e)) m (d ∷ e ++ t) cut (rw (drop-append e t) h))
]

string_length-printchars :
    (s rest : Text) (f : ℕ)
    → All IsByte s
    → length s < f
    → string_length f (printchars s ++ b'"' ∷ rest) ≡ ok (length (printchars s))
unfolding printchars
string_length-printchars s rest zero h lt = absurd (omega arith)
string_length-printchars [] rest (suc f) h lt = unfold string_length in refl
string_length-printchars (c ∷ s) rest (suc f) h lt =
    let inner = string_length-printchars s rest f h.1 (omega arith) in
    let whole =
      string_length-printchar f c (length (printchars s)) (printchars s ++ b'"' ∷ rest) h.0 inner in
    rw
      (
        append_assoc (printchar c) (printchars s) (b'"' ∷ rest),
        length-append (printchar c) (printchars s),
      )
      whole

strtostr-cut :
    (p rest : Text)
    → string_length (suc (suc (length (p ++ b'"' ∷ rest)))) (p ++ b'"' ∷ rest) ≡ ok (length p)
    → length p < 65536
    → strtostr (b'"' ∷ (p ++ b'"' ∷ rest))
      ≡ ok (text_token kind_prep_string p, length (b'"' ∷ (p ++ b'"' ∷ [])))
unfolding strtostr str_register
strtostr-cut p rest cut short =
    rw (cut, take-append p (b'"' ∷ rest), lt→ltb (length p) 65536 short)
      (ground (arith, length-append p (b'"' ∷ [])))

-- For a string of bytes whose printed form is shorter than 65536 bytes, the tokenizer cuts exactly
-- the text that `fprintstr` prints off a line that begins with it, and the conversion of that token
-- gives the string back.
pub convert-strtostr-fprintstr :
    (s rest : Text)
    → All IsByte s
    → length (printchars s) < 65536
    → (strtostr (fprintstr s ++ rest)
        ≡ ok (text_token kind_prep_string (printchars s), length (fprintstr s)))
      × (convert_preprocessing_string (text_token kind_prep_string (printchars s))
          ≡ ok (text_token kind_string s))
unfolding convert_preprocessing_string str_register fprintstr
convert-strtostr-fprintstr s rest bytes short =
    let cut =
      string_length-printchars s rest (suc (suc (length (printchars s ++ b'"' ∷ rest)))) bytes
        (omega (arith, length-printchars s, length-append {0} (printchars s) (b'"' ∷ rest))) in
    (
      rw (append_assoc (printchars s) (b'"' ∷ []) rest)
          (strtostr-cut (printchars s) rest cut short),
      rw
          (
            convert_chars-printchars s (length (printchars s)) bytes (length-printchars s),
            lt→ltb (length s) 65536 (omega (arith, length-printchars s)),
          )
          refl,
    )
