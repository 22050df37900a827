-- ===== src/Eval/Convert/Integers.antt =====
-- Conversions between integers, in src/parser/eval.c.
use mathlib.Core.Path.{subst}
use mathlib.Core.Option.{some-injective}
use lacc.Base.{
  ℕ, ◌-◌, ◌%◌, ◌^◌, ◌≤◌, ◌<◌, Bool, true, false, not, ◌&&◌, ◌||◌, Option, none, some, ltb, Run, ok,
  ◌≡◌, refl, sym, ◌∙◌, ap, arith, ◌⊎◌, inl, inr, Bool-cases,
}
use lacc.Types.Defs.{
  TypeKind, void, bool, float, double, ldouble, function, array, struct, union, placeholder, code,
  char, short, int, long, pointer, CType, type_of, is_integer, is_unsigned, is_pointer,
}
use lacc.Eval.Convert.{
  is_exact, Reals, low_word, put_word, narrow, sign_extend, is_signed, to_integer, convert_case,
  convert,
}

-- The 64 bits of an integer of a type of `w` bits.
abbrev pub IsInteger : ℕ → Bool → ℕ → Type 0
IsInteger w true u = u < 2 ^ w
IsInteger w false u = (u < 2 ^ (w - 1)) ⊎ ((2 ^ 64 - 2 ^ (w - 1) ≤ u) × (u < 2 ^ 64))

-- The width of the integers of a kind.
abbrev pub width : TypeKind → Option ℕ
width char = some 8
width short = some 16
width int = some 32
width long = some 64
width pointer = some 64
width k = none

-- The integer of a type that has the low bits of another one.
abbrev Reduces : ℕ → Bool → ℕ → ℕ → Type 0
Reduces w unsigned u v = IsInteger w unsigned v × (v % 2 ^ w ≡ u % 2 ^ w) × (v < 2 ^ 64)

reduce-8 : (unsigned : Bool) (u : ℕ) → u < 2 ^ 64 → Reduces 8 unsigned u (narrow 8 unsigned u)
unfolding sign_extend
reduce-8 true u h = (omega arith, omega arith, omega arith)
reduce-8 false u h = elim (Bool-cases (ltb (u % 2 ^ 8) (2 ^ 7))) [
  | inl low ↦ rw low (inl (ground arith), omega arith, omega arith)
  | inr high ↦ rw high (inr (ground arith, omega arith), omega arith, omega arith)
]

reduce-16 : (unsigned : Bool) (u : ℕ) → u < 2 ^ 64 → Reduces 16 unsigned u (narrow 16 unsigned u)
unfolding sign_extend
reduce-16 true u h = (omega arith, omega arith, omega arith)
reduce-16 false u h = elim (Bool-cases (ltb (u % 2 ^ 16) (2 ^ 15))) [
  | inl low ↦ rw low (inl (ground arith), omega arith, omega arith)
  | inr high ↦ rw high (inr (ground arith, omega arith), omega arith, omega arith)
]

reduce-32 : (unsigned : Bool) (u : ℕ) → u < 2 ^ 64 → Reduces 32 unsigned u (narrow 32 unsigned u)
unfolding sign_extend
reduce-32 true u h = (omega arith, omega arith, omega arith)
reduce-32 false u h = elim (Bool-cases (ltb (u % 2 ^ 32) (2 ^ 31))) [
  | inl low ↦ rw low (inl (ground arith), omega arith, omega arith)
  | inr high ↦ rw high (inr (ground arith, omega arith), omega arith, omega arith)
]

reduce-64 : (unsigned : Bool) (u : ℕ) → u < 2 ^ 64 → Reduces 64 unsigned u (narrow 64 unsigned u)
unfolding sign_extend
reduce-64 true u h = (omega arith, omega arith, omega arith)
reduce-64 false u h = elim (Bool-cases (ltb (u % 2 ^ 64) (2 ^ 63))) [
  | inl low ↦ rw low (inl (ground arith), omega arith, omega arith)
  | inr high ↦ rw high (inr (ground arith, omega arith), omega arith, omega arith)
]

low-put_word : (imm u : ℕ) → u < 2 ^ 64 → low_word (put_word imm u) ≡ u
low-put_word imm u h = omega (arith, h)

-- What the conversion to integers of a width gives.
abbrev Converts : Run ℕ → ℕ → Bool → ℕ → Type 0
Converts run w unsigned imm =
    (r : ℕ) × (run ≡ ok r)
    × IsInteger w unsigned (low_word r)
    × (low_word r % 2 ^ w ≡ low_word imm % 2 ^ w)

to_integer-Converts :
    (reals : Reals) (imm : ℕ) (ty : CType) (w : ℕ) (unsigned : Bool)
    → is_exact ty ≡ true
    → Reduces w unsigned (low_word imm) (narrow w unsigned (low_word imm))
    → Converts (ok (to_integer reals imm ty w unsigned)) w unsigned imm
to_integer-Converts reals imm ty w unsigned exact (integer, low, small) =
    let written : low_word (to_integer reals imm ty w unsigned) ≡ narrow w unsigned (low_word imm) =
      rw exact (low-put_word imm (narrow w unsigned (low_word imm)) small) in
    (
      to_integer reals imm ty w unsigned,
      refl,
      subst (IsInteger w unsigned) (sym written) integer,
      ap (λ v. v % 2 ^ w) written ∙ low,
    )

case-Converts :
    (k : TypeKind) (reals : Reals) (imm : ℕ) (ty : CType) (unsigned : Bool) (w : ℕ)
    → width k ≡ some w
    → is_exact ty ≡ true
    → (code k ≡ 9 → unsigned ≡ true)
    → Converts (convert_case k reals imm ty unsigned) w unsigned imm
case-Converts char reals imm ty unsigned w h exact p =
    subst (λ n. Converts (convert_case char reals imm ty unsigned) n unsigned imm)
      (some-injective _ _ h)
      (to_integer-Converts reals imm ty 8 unsigned exact
        (reduce-8 unsigned (low_word imm) (omega arith)))
case-Converts short reals imm ty unsigned w h exact p =
    subst (λ n. Converts (convert_case short reals imm ty unsigned) n unsigned imm)
      (some-injective _ _ h)
      (to_integer-Converts reals imm ty 16 unsigned exact
        (reduce-16 unsigned (low_word imm) (omega arith)))
case-Converts int reals imm ty unsigned w h exact p =
    subst (λ n. Converts (convert_case int reals imm ty unsigned) n unsigned imm)
      (some-injective _ _ h)
      (to_integer-Converts reals imm ty 32 unsigned exact
        (reduce-32 unsigned (low_word imm) (omega arith)))
case-Converts long reals imm ty unsigned w h exact p =
    subst (λ n. Converts (convert_case long reals imm ty unsigned) n unsigned imm)
      (some-injective _ _ h)
      (to_integer-Converts reals imm ty 64 unsigned exact
        (reduce-64 unsigned (low_word imm) (omega arith)))
case-Converts pointer reals imm ty unsigned w h exact p =
    subst (λ v. Converts (convert_case pointer reals imm ty v) w v imm) (sym (p refl))
      (subst (λ n. Converts (convert_case pointer reals imm ty true) n true imm)
        (some-injective _ _ h)
        (to_integer-Converts reals imm ty 64 true exact
          (reduce-64 true (low_word imm) (omega arith))))
case-Converts void reals imm ty unsigned w h exact p = cc
case-Converts bool reals imm ty unsigned w h exact p = cc
case-Converts float reals imm ty unsigned w h exact p = cc
case-Converts double reals imm ty unsigned w h exact p = cc
case-Converts ldouble reals imm ty unsigned w h exact p = cc
case-Converts function reals imm ty unsigned w h exact p = cc
case-Converts array reals imm ty unsigned w h exact p = cc
case-Converts struct reals imm ty unsigned w h exact p = cc
case-Converts union reals imm ty unsigned w h exact p = cc
case-Converts placeholder reals imm ty unsigned w h exact p = cc

-- A constant of an integer or pointer type, converted to a type of integers of 8, 16, 32 or 64 bits or
-- to a pointer type, gives the 64 bits of an integer of that width and signedness, and this is the one
-- that agrees with the constant modulo 2 to the power of the width.
pub convert-IsInteger :
    (reals : Reals) (imm : ℕ) (ty to : CType) (w : ℕ)
    → width (type_of to) ≡ some w
    → (is_integer ty || is_pointer ty) ≡ true
    → (r : ℕ) × (convert reals imm ty to ≡ ok r)
      × IsInteger w (not (is_signed to)) (low_word r)
      × (low_word r % 2 ^ w ≡ low_word imm % 2 ^ w)
unfolding convert
convert-IsInteger reals imm ty to w h exact =
    let exact' : is_exact ty ≡ true =
      exact-of (is_integer ty) (is_unsigned ty) (is_pointer ty) exact in
    case-Converts (type_of to) reals imm ty (not (is_signed to)) w h exact'
      (λ e. let no_integer : is_integer to ≡ false = ground arith in ground arith)
  where
    exact-of : (i u p : Bool) → (i || p) ≡ true → ((not u && i) || u || p) ≡ true
    exact-of true true p h = refl
    exact-of true false p h = refl
    exact-of false true p h = refl
    exact-of false false p h = h
