-- ===== src/Tokenize/Ident/Names.antt =====
-- Identifiers that are no keywords.
use lacc.Base.{
  All, ◌≢◌, ◌++◌, ℕ, zero, suc, ◌+◌, ◌-◌, ◌≤◌, ◌<◌, Bool, true, false, [], ◌∷◌, length, take, drop,
  Text, ok, ◌==◌, ltb, ◌≡◌, refl, arith, lt→ltb, Bool-cases, inl, inr,
}
use lacc.Strings.{str_register}
use lacc.Tokenize.Kind.{kind_identifier}
use lacc.Tokenize.Token.{Token, at, text_token}
use lacc.Tokenize.Ident.Switch.{ident_switch_elim}
use lacc.Tokenize.Ident.Words.{
  IsName, spellings, StartsWith, static_assert_text, ident_switch-other,
}
use lacc.Tokenize.Ident.{
  isident, strtoident, ident_switch, ident_result, ident_length, Found, other, same_chars, case_a,
  case_c, case_d, case_i, case_r, case_s, case_u, case_v, case_underscore, case_b, case_e, case_f,
  case_g, case_l, case_t, case_w,
}

-- How many characters the switch has passed over.
abbrev passed : Found → ℕ
passed (other i) = i - 1
passed _ = 0

passed-case_c : (s : Text) → (at s 1 == b'o') ≡ false → passed (case_c s) ≤ 1
unfolding case_c same_chars
passed-case_c s h = ground arith

passed-case_c_on : (s : Text) → passed (case_c s) ≤ 2
unfolding case_c same_chars
passed-case_c_on s = ground arith

passed-case_underscore : (s : Text) → passed (case_underscore s) ≤ 1
unfolding case_underscore
passed-case_underscore s = ground arith

passed-case_a : (s : Text) → passed (case_a s) ≤ 1
unfolding case_a
passed-case_a s = ground arith

passed-case_b : (s : Text) → passed (case_b s) ≤ 1
unfolding case_b
passed-case_b s = ground arith

passed-case_d : (s : Text) → passed (case_d s) ≤ 1
unfolding case_d
passed-case_d s = ground arith

passed-case_e : (s : Text) → passed (case_e s) ≤ 1
unfolding case_e
passed-case_e s = ground arith

passed-case_f : (s : Text) → passed (case_f s) ≤ 1
unfolding case_f
passed-case_f s = ground arith

passed-case_g : (s : Text) → passed (case_g s) ≤ 1
unfolding case_g
passed-case_g s = ground arith

passed-case_i : (c99 : Bool) (s : Text) → passed (case_i c99 s) ≤ 1
unfolding case_i
passed-case_i c99 s = ground arith

passed-case_l : (s : Text) → passed (case_l s) ≤ 1
unfolding case_l
passed-case_l s = ground arith

passed-case_r : (c99 : Bool) (s : Text) → passed (case_r c99 s) ≤ 1
unfolding case_r
passed-case_r c99 s = ground arith

passed-case_s : (s : Text) → passed (case_s s) ≤ 1
unfolding case_s
passed-case_s s = ground arith

passed-case_t : (s : Text) → passed (case_t s) ≤ 1
unfolding case_t
passed-case_t s = ground arith

passed-case_u : (s : Text) → passed (case_u s) ≤ 1
unfolding case_u
passed-case_u s = ground arith

passed-case_v : (s : Text) → passed (case_v s) ≤ 1
unfolding case_v
passed-case_v s = ground arith

passed-case_w : (s : Text) → passed (case_w s) ≤ 1
unfolding case_w
passed-case_w s = ground arith

length-take-le : (n : ℕ) (s : Text) → length (take n s) ≤ n
length-take-le zero s = omega arith
length-take-le (suc n) [] = omega arith
length-take-le (suc n) (c ∷ s) = omega (arith, length-take-le n s)

passed-ident_switch :
    (c99 : Bool) (s : Text) (n : ℕ)
    → 1 ≤ n
    → passed (case_c s) ≤ n
    → passed (ident_switch c99 s) ≤ n
passed-ident_switch c99 s n pos on =
    ident_switch_elim (λ f. passed f ≤ n) c99 s (λ _. omega (arith, passed-case_underscore s))
      (λ _. omega (arith, passed-case_a s)) (λ _. omega (arith, passed-case_b s)) (λ _. on)
      (λ _. omega (arith, passed-case_d s)) (λ _. omega (arith, passed-case_e s))
      (λ _. omega (arith, passed-case_f s)) (λ _. omega (arith, passed-case_g s))
      (λ _. omega (arith, passed-case_i c99 s)) (λ _. omega (arith, passed-case_l s))
      (λ _. omega (arith, passed-case_r c99 s)) (λ _. omega (arith, passed-case_s s))
      (λ _. omega (arith, passed-case_t s)) (λ _. omega (arith, passed-case_u s))
      (λ _. omega (arith, passed-case_v s)) (λ _. omega (arith, passed-case_w s)) (omega arith)

skip : (j : ℕ) (s : Text) → j ≤ ident_length s → j + ident_length (drop j s) ≡ ident_length s
unfolding ident_length
skip zero s h = omega arith
skip (suc j) [] h = absurd (omega arith)
skip (suc j) (c ∷ s) h = ground (arith, skip j s)

passed-le-ident_length :
    (c99 : Bool) (c : ℕ) (s : Text)
    → isident c ≡ true
    → passed (ident_switch c99 (c ∷ s)) ≤ ident_length (c ∷ s)
unfolding ident_length
passed-le-ident_length c99 c [] start =
    let le = passed-ident_switch c99 (c ∷ []) 1 (omega arith) (passed-case_c (c ∷ []) refl) in
    rw start le
passed-le-ident_length c99 c (d ∷ s) start = elim (Bool-cases (d == b'o')) [
  | inr other_d ↦
      let le =
        passed-ident_switch c99 (c ∷ d ∷ s) 1 (omega arith) (passed-case_c (c ∷ d ∷ s) other_d) in
      rw start (omega (arith, le))
  | inl o ↦
      let le = passed-ident_switch c99 (c ∷ d ∷ s) 2 (omega arith) (passed-case_c_on (c ∷ d ∷ s)) in
      let more : isident d ≡ true = ground arith in rw (start, more) (omega (arith, le))
]

-- The token of an identifier.
abbrev pub name_token : Text → Token
name_token name =
    let plain = text_token kind_identifier name in record plain { is_expandable = true }

-- Where the switch finds nothing, all identifier characters at the start are cut.
strtoident-other :
    (c99 : Bool) (c : ℕ) (s : Text) (i : ℕ)
    → isident c ≡ true
    → ident_switch c99 (c ∷ s) ≡ other i
    → ident_length (c ∷ s) < 65536
    → strtoident c99 (c ∷ s)
      ≡ ok (name_token (take (ident_length (c ∷ s)) (c ∷ s)), ident_length (c ∷ s))
unfolding strtoident ident_result str_register
strtoident-other c99 c s i start none_found short =
    let le : i - 1 ≤ ident_length (c ∷ s) =
      rw none_found at (passed-le-ident_length c99 c s start) in
    let whole = skip (i - 1) (c ∷ s) le in
    let fits : ltb (length (take (ident_length (c ∷ s)) (c ∷ s))) 65536 ≡ true =
      lt→ltb _ _ (omega (arith, length-take-le (ident_length (c ∷ s)) (c ∷ s), short)) in
    rw (none_found, whole, fits)

ident_length-append :
    (name rest : Text)
    → IsName name
    → isident (at rest 0) ≡ false
    → ident_length (name ++ rest) ≡ length name
unfolding ident_length
ident_length-append [] [] all stop = refl
ident_length-append [] (c ∷ rest) all stop = rw stop refl
ident_length-append (c ∷ name) rest (start, all) stop =
    rw (start, ident_length-append name rest all stop) refl

take-length_append : (name rest : Text) → take (length name) (name ++ rest) ≡ name
take-length_append [] rest = refl
take-length_append (c ∷ name) rest = ground (arith, take-length_append name rest)

-- A name of identifier characters, at least one and fewer than 65536, is cut whole as an identifier
-- if no identifier character comes behind it, it is not in the list `spellings` of the keywords, which
-- has `inline` and `restrict` only where the newer standards are on, and the line does not begin with
-- `_Static_assert`.
pub strtoident-name :
    (c99 : Bool) (c : ℕ) (name rest : Text)
    → IsName (c ∷ name)
    → isident (at rest 0) ≡ false
    → All (λ w. c ∷ name ≢ w) (spellings c99)
    → ¬ StartsWith static_assert_text (c ∷ name ++ rest)
    → length (c ∷ name) < 65536
    → strtoident c99 (c ∷ name ++ rest) ≡ ok (name_token (c ∷ name), length (c ∷ name))
strtoident-name c99 c name rest all stop unlisted plain short =
    let (i, none_found) = ident_switch-other c99 (c ∷ name) rest all stop unlisted plain in
    let whole = ident_length-append (c ∷ name) rest all stop in
    let cut =
      strtoident-other c99 c (name ++ rest) i all.0 none_found (omega (arith, whole, short)) in
    rw (whole, take-length_append (c ∷ name) rest) at cut
