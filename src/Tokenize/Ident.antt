-- ===== src/Tokenize/Ident.antt =====
-- `strtoident`: keywords and identifiers.
pub mod Keywords
pub mod Switch
pub mod Cases
pub mod Words
pub mod Names
use lacc.Base.{
  ℕ, suc, ◌+◌, ◌-◌, Bool, true, ◌&&◌, ◌||◌, not, List, [], ◌∷◌, ◌==◌, if◌then◌else◌, Text, take,
  drop, length, Run, ok, ◌>>=◌,
}
use lacc.Strings.{str_register}
use lacc.Strings.Char.{isalnum}
use lacc.Tokenize.Kind.{
  kind_alignof, kind_asm, kind_auto, kind_bool, kind_break, kind_case, kind_char, kind_const,
  kind_continue, kind_default, kind_do, kind_double, kind_else, kind_enum, kind_extern, kind_float,
  kind_for, kind_goto, kind_identifier, kind_if, kind_inline, kind_int, kind_long, kind_register,
  kind_restrict, kind_return, kind_short, kind_signed, kind_sizeof, kind_static, kind_static_assert,
  kind_struct, kind_switch, kind_typedef, kind_union, kind_unsigned, kind_void, kind_volatile,
  kind_while,
}
use lacc.Tokenize.Table.{basic_token}
use lacc.Tokenize.Token.{Token, at, codes, text_token}

abbrev pub isident : ℕ → Bool
isident c = isalnum c || c == b'_'

-- The macros `M` and `S`: the characters from position `i` on are those of the text; for `word`, no
-- identifier character comes behind.
unfoldable pub same_chars : Text → ℕ → Text → Bool
same_chars s i [] = true
same_chars s i (c ∷ cs) = at s i == c && same_chars s (suc i) cs

unfoldable pub word : Text → ℕ → Text → Bool
word s i [] = not (isident (at s i))
word s i (c ∷ cs) = at s i == c && word s (suc i) cs

-- What the `switch` finds: the kind of a keyword, or the position of `in` behind it.
pub data Found : Type 0 where
  keyword : ℕ → Found
  static_assertion : Found
  other : ℕ → Found

-- The first test that holds.
abbrev pub first : List (Bool × ℕ) → ℕ → Found
first [] i = other i
first ((b, k) ∷ rest) i = if b then keyword k else first rest i

pub case_underscore : Text → Found
case_underscore s =
    if word s 1 (codes "_asm__")
    then keyword kind_asm
    else if word s 1 (codes "Bool")
    then keyword kind_bool
    else if word s 1 (codes "Alignof")
    then keyword kind_alignof
    else if same_chars s 1 (codes "Static_assert")
    then static_assertion
    else other 1

pub case_c : Text → Found
case_c s =
    if word s 1 (codes "ase")
    then keyword kind_case
    else if word s 1 (codes "har")
    then keyword kind_char
    else if same_chars s 1 (codes "on")
    then first
        ((word s 3 (codes "st"), kind_const) ∷ (word s 3 (codes "tinue"), kind_continue) ∷ []) 3
    else other 1

pub case_d : Text → Found
case_d s =
    if word s 1 (codes "efault")
    then keyword kind_default
    else if at s 1 == b'o'
    then first ((word s 2 (codes "uble"), kind_double) ∷ (not (isident (at s 2)), kind_do) ∷ []) 2
    else other 2

pub case_i : Bool → Text → Found
case_i c99 s =
    if word s 1 (codes "f")
    then keyword kind_if
    else if at s 1 == b'n'
    then first
        ((word s 2 (codes "t"), kind_int) ∷ (c99 && word s 2 (codes "line"), kind_inline) ∷ []) 2
    else other 2

pub case_r : Bool → Text → Found
case_r c99 s =
    if at s 1 == b'e'
    then first
        ((word s 2 (codes "gister"), kind_register)
          ∷ (word s 2 (codes "turn"), kind_return)
          ∷ (c99 && word s 2 (codes "strict"), kind_restrict)
          ∷ [])
        2
    else other 2

pub case_s : Text → Found
case_s s =
    if word s 1 (codes "hort")
    then keyword kind_short
    else if word s 1 (codes "witch")
    then keyword kind_switch
    else if at s 1 == b'i'
    then first
        ((word s 2 (codes "gned"), kind_signed) ∷ (word s 2 (codes "zeof"), kind_sizeof) ∷ []) 2
    else if at s 1 == b't'
    then first
        ((word s 2 (codes "atic"), kind_static) ∷ (word s 2 (codes "ruct"), kind_struct) ∷ []) 2
    else other 2

pub case_u : Text → Found
case_u s =
    if at s 1 == b'n'
    then first
        ((word s 2 (codes "ion"), kind_union) ∷ (word s 2 (codes "signed"), kind_unsigned) ∷ []) 2
    else other 2

pub case_v : Text → Found
case_v s =
    if at s 1 == b'o'
    then first
        ((word s 2 (codes "id"), kind_void) ∷ (word s 2 (codes "latile"), kind_volatile) ∷ []) 2
    else other 2

pub case_a : Text → Found
case_a s = first ((word s 1 (codes "uto"), kind_auto) ∷ []) 1

pub case_b : Text → Found
case_b s = first ((word s 1 (codes "reak"), kind_break) ∷ []) 1

pub case_e : Text → Found
case_e s =
    first
      ((word s 1 (codes "lse"), kind_else)
        ∷ (word s 1 (codes "num"), kind_enum)
        ∷ (word s 1 (codes "xtern"), kind_extern)
        ∷ [])
      1

pub case_f : Text → Found
case_f s = first ((word s 1 (codes "loat"), kind_float) ∷ (word s 1 (codes "or"), kind_for) ∷ []) 1

pub case_g : Text → Found
case_g s = first ((word s 1 (codes "oto"), kind_goto) ∷ []) 1

pub case_l : Text → Found
case_l s = first ((word s 1 (codes "ong"), kind_long) ∷ []) 1

pub case_t : Text → Found
case_t s = first ((word s 1 (codes "ypedef"), kind_typedef) ∷ []) 1

pub case_w : Text → Found
case_w s = first ((word s 1 (codes "hile"), kind_while) ∷ []) 1

-- The `switch` on the first character.
unfoldable pub ident_switch : Bool → Text → Found
unfolding same_chars word case_a case_b case_c case_d case_e case_f case_g case_i case_l case_r
    case_s case_t case_u case_underscore case_v case_w
ident_switch c99 s =
    let c = at s 0 in
    if c == b'_'
    then case_underscore s
    else if c == b'a'
    then case_a s
    else if c == b'b'
    then case_b s
    else if c == b'c'
    then case_c s
    else if c == b'd'
    then case_d s
    else if c == b'e'
    then case_e s
    else if c == b'f'
    then case_f s
    else if c == b'g'
    then case_g s
    else if c == b'i'
    then case_i c99 s
    else if c == b'l'
    then case_l s
    else if c == b'r'
    then case_r c99 s
    else if c == b's'
    then case_s s
    else if c == b't'
    then case_t s
    else if c == b'u'
    then case_u s
    else if c == b'v'
    then case_v s
    else if c == b'w'
    then case_w s
    else other 1

-- The number of identifier characters at the start.
unfoldable pub ident_length : Text → ℕ
ident_length [] = 0
ident_length (c ∷ s) = let more = ident_length s in if isident c then suc more else 0

ident_result : Text → Found → Run (Token × ℕ)
unfolding ident_length basic_token
ident_result s (keyword k) = ok (basic_token k, length (basic_token k).text)
ident_result s static_assertion =
    let plain = basic_token kind_static_assert in
    ok (record plain { text = codes "_Static_assert" }, length (codes "_Static_assert"))
ident_result s (other i) = do
  let n = i - 1 + ident_length (drop (i - 1) s)
  text ← str_register (take n s)
  let plain = text_token kind_identifier text
  ok (record plain { is_expandable = true }, n)

unfoldable pub strtoident : Bool → Text → Run (Token × ℕ)
unfolding ident_switch ident_result
strtoident c99 s = ident_result s (ident_switch c99 s)
