-- ===== src/Tokenize/Operator/Longest.antt =====
-- The operators that `strtoop` cuts are the longest ones.
use lacc.Base.{
  ℕ, ltb, Bool, true, false, ◌&&◌, List, [], ◌∷◌, ◌==◌, if◌then◌else◌, Text, length, ◌≡◌, refl,
  arith, Bool-cases, inl, inr, ◌<◌, ok,
}
use lacc.Tokenize.Kind.{
  kind_mul_assign, kind_div_assign, kind_mod_assign, kind_increment, kind_plus_assign, kind_arrow,
  kind_decrement, kind_minus_assign, kind_leq, kind_lshift_assign, kind_lshift, kind_geq,
  kind_rshift_assign, kind_rshift, kind_and_assign, kind_logical_and, kind_xor_assign,
  kind_or_assign, kind_logical_or, kind_dots, kind_eq, kind_neq, kind_token_paste,
}
use lacc.Tokenize.Table.{basic_token, basic_tokens}
use lacc.Tokenize.Token.{at}
use lacc.Tokenize.Operator.{operator_kind, strtoop}

-- The operators of more than one character.
abbrev pub operators : List ℕ
operators =
    kind_mul_assign ∷ kind_div_assign ∷ kind_mod_assign ∷ kind_increment ∷ kind_plus_assign
    ∷ kind_arrow ∷ kind_decrement ∷ kind_minus_assign ∷ kind_leq ∷ kind_lshift_assign ∷ kind_lshift
    ∷ kind_geq ∷ kind_rshift_assign ∷ kind_rshift ∷ kind_and_assign ∷ kind_logical_and
    ∷ kind_xor_assign ∷ kind_or_assign ∷ kind_logical_or ∷ kind_dots ∷ kind_eq ∷ kind_neq
    ∷ kind_token_paste ∷ []

-- Whether a line begins with a text.
abbrev pub begins : Text → Text → Bool
begins [] s = true
begins (c ∷ t) [] = false
begins (c ∷ t) (d ∷ s) = d == c && begins t s

-- The longest of the operators at the start of a line, by its text in the table; 0 without one.
abbrev pub longest : List ℕ → Text → ℕ → ℕ
longest [] s best = best
longest (k ∷ ks) s best = longest ks s (
    if begins (basic_token k).text s
      && ltb (length (basic_token best).text) (length (basic_token k).text)
    then k
    else best)

-- For one first character.
abbrev Agrees : ℕ → Type 0
Agrees c = (d e : ℕ) (s : Text) → operator_kind c d e ≡ longest operators (c ∷ d ∷ e ∷ s) 0

star-Agrees : Agrees b'*'
unfolding operator_kind basic_token basic_tokens
star-Agrees d e s = ground arith

slash-Agrees : Agrees b'/'
unfolding operator_kind basic_token basic_tokens
slash-Agrees d e s = ground arith

percent-Agrees : Agrees b'%'
unfolding operator_kind basic_token basic_tokens
percent-Agrees d e s = ground arith

plus-Agrees : Agrees b'+'
unfolding operator_kind basic_token basic_tokens
plus-Agrees d e s = ground arith

minus-Agrees : Agrees b'-'
unfolding operator_kind basic_token basic_tokens
minus-Agrees d e s = ground arith

less-Agrees : Agrees b'<'
unfolding operator_kind basic_token basic_tokens
less-Agrees d e s = ground arith

greater-Agrees : Agrees b'>'
unfolding operator_kind basic_token basic_tokens
greater-Agrees d e s = ground arith

ampersand-Agrees : Agrees b'&'
unfolding operator_kind basic_token basic_tokens
ampersand-Agrees d e s = ground arith

caret-Agrees : Agrees b'^'
unfolding operator_kind basic_token basic_tokens
caret-Agrees d e s = ground arith

bar-Agrees : Agrees b'|'
unfolding operator_kind basic_token basic_tokens
bar-Agrees d e s = elim (Bool-cases (d == b'=')) [
  | inl assign ↦ rw assign (ground arith)
  | inr other ↦ rw other (ground arith)
]

dot-Agrees : Agrees b'.'
unfolding operator_kind basic_token basic_tokens
dot-Agrees d e s = ground arith

equals-Agrees : Agrees b'='
unfolding operator_kind basic_token basic_tokens
equals-Agrees d e s = ground arith

bang-Agrees : Agrees b'!'
unfolding operator_kind basic_token basic_tokens
bang-Agrees d e s = ground arith

hash-Agrees : Agrees b'#'
unfolding operator_kind basic_token basic_tokens
hash-Agrees d e s = ground arith

or_else : (x c : ℕ) → Agrees x → ((c == x) ≡ false → Agrees c) → Agrees c
or_else x c same differ = elim (Bool-cases (c == x)) [
  | inl at_x ↦ let e : x ≡ c = ground arith in rw (← e) same
  | inr other ↦ differ other
]

operators-Agrees : (c : ℕ) → Agrees c
unfolding operator_kind basic_token basic_tokens
operators-Agrees c = or_else b'*' c star-Agrees λ h0. or_else b'/' c slash-Agrees λ h1.
    or_else b'%' c percent-Agrees λ h2. or_else b'+' c plus-Agrees λ h3.
      or_else b'-' c minus-Agrees λ h4. or_else b'<' c less-Agrees λ h5.
        or_else b'>' c greater-Agrees λ h6. or_else b'&' c ampersand-Agrees λ h7.
          or_else b'^' c caret-Agrees λ h8. or_else b'|' c bar-Agrees λ h9.
            or_else b'.' c dot-Agrees λ h10. or_else b'=' c equals-Agrees λ h11.
              or_else b'!' c bang-Agrees λ h12.
                or_else b'#' c hash-Agrees λ h13.
                  λ d e s. rw (h0, h1, h2, h3, h4, h5, h6, h7, h8, h9, h10, h11, h12, h13) refl

nonzero : (k : ℕ) → 0 < k → (k == 0) ≡ false
nonzero k pos = ground arith

operator_kind-longest :
    (s : Text) → operator_kind (at s 0) (at s 1) (at s 2) ≡ longest operators s 0
unfolding basic_token basic_tokens operator_kind
operator_kind-longest [] = refl
operator_kind-longest (c ∷ []) = operators-Agrees c 0 0 []
operator_kind-longest (c ∷ d ∷ []) = operators-Agrees c d 0 []
operator_kind-longest (c ∷ d ∷ e ∷ s) = operators-Agrees c d e s

-- On a line that begins with operators of more than one character, `strtoop` cuts the longest of
-- them: it gives its token of the table, and reads as many bytes as its text has.
pub strtoop-longest :
    (s : Text)
    → 0 < longest operators s 0
    → strtoop s
      ≡ ok (basic_token (longest operators s 0), length (basic_token (longest operators s 0)).text)
unfolding strtoop
strtoop-longest s some_operator =
    let there = nonzero (longest operators s 0) some_operator in rw (operator_kind-longest s, there)
