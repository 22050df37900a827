-- ===== src/Tokenize/Escape/Agree.antt =====
-- The two scanners of escape sequences, the one that cuts a literal from the line and the one that
-- converts it later, read the same bytes.
use lacc.Base.{
  ℕ, suc, ◌+◌, ◌*◌, ◌≤◌, true, false, ◌&&◌, [], ◌∷◌, ltb, ◌==◌, Text, drop, ok, ◌≡◌, refl, arith,
  ap, ◌∙◌, Bool-cases, inl, inr,
}
use lacc.Strings.Char.{isxdigit}
use lacc.Tokenize.Escape.{convert_escape_sequence, strtol_hex, simple_escape, char_of}
use lacc.Tokenize.Literal.{parse_escape_sequence, hex_length}
use lacc.Tokenize.Number.{scan_digits, digit_value, has_hex_prefix}
use lacc.Tokenize.Token.{at}

-- Digits below 16 are the hexadecimal digits.
digit_value-isxdigit : (c : ℕ) → ltb (digit_value c) 16 ≡ isxdigit c
unfolding digit_value
digit_value-isxdigit c = ground arith

scan_digits-hex_length : (s : Text) (acc : ℕ) → (scan_digits 16 s acc).1 ≡ hex_length s
unfolding scan_digits hex_length
scan_digits-hex_length [] acc = refl
scan_digits-hex_length (c ∷ s) acc = elim (Bool-cases (isxdigit c)) [
  | inl hex ↦
      let low : ltb (digit_value c) 16 ≡ true = digit_value-isxdigit c ∙ hex in
      rw (low, hex) (ap suc (scan_digits-hex_length s (acc * 16 + digit_value c)))
  | inr plain ↦
      let high : ltb (digit_value c) 16 ≡ false = digit_value-isxdigit c ∙ plain in
      rw (high, plain) refl
]

-- `parse_escape_sequence` reads as many bytes of a sequence as `convert_escape_sequence`, if the
-- latter converts it and it is no `x` with a second prefix `0x` behind.
pub parse-convert_escape_sequence :
    (s : Text) (b n : ℕ)
    → (at s 0 == b'x' && has_hex_prefix (drop 1 s)) ≡ false
    → convert_escape_sequence s ≡ ok (b, n)
    → parse_escape_sequence s ≡ ok n
unfolding convert_escape_sequence parse_escape_sequence strtol_hex simple_escape
parse-convert_escape_sequence [] b n plain h = cc
parse-convert_escape_sequence (c ∷ s) b n plain h = ground (arith, scan_digits-hex_length s 0)

-- Of a sequence `x0x` with a hexadecimal digit and any text behind it, `parse_escape_sequence`
-- reads two bytes, and `convert_escape_sequence` at least four.
pub second_prefix_differs :
    (d : ℕ) (s : Text)
    → isxdigit d ≡ true
    → (parse_escape_sequence (b'x' ∷ b'0' ∷ b'x' ∷ d ∷ s) ≡ ok 2)
      × ((b : ℕ) × (n : ℕ) × (convert_escape_sequence (b'x' ∷ b'0' ∷ b'x' ∷ d ∷ s) ≡ ok (b, n))
          × (4 ≤ n))
unfolding convert_escape_sequence parse_escape_sequence strtol_hex simple_escape
second_prefix_differs d s hex =
    let low : ltb (digit_value d) 16 ≡ true = digit_value-isxdigit d ∙ hex in
    let r = scan_digits 16 (d ∷ s) 0 in
    (refl, (char_of r.0, 1 + (2 + r.1), ground (arith, hex), ground (arith, low)))
