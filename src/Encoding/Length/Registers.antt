-- ===== src/Encoding/Length/Registers.antt =====
-- The bytes of the forms without a memory operand.
use Prim.Native.Nat.{bit_or}
use lacc.Base.{
  ℕ, ◌+◌, ◌*◌, ◌≤◌, ◌≡◌, refl, Bool, true, false, if◌then◌else◌, ◌==◌, not, arith, [], ◌∷◌, Run, ok,
  assertion, guard, guarded, returned, ◌>>◌, >>=-eq-ok,
}
use lacc.Encoding.Defs.{
  Immediate, imm_int, imm_addr, imm_string, opx_tttn, opx_reg, is_implicit, Encoding,
}
use lacc.Encoding.Code.{Code, write, or_back}
use lacc.Encoding.Address.{reg3}
use lacc.Encoding.Immediate.{encode_immediate, imm_encoding_width}
use lacc.Encoding.Form.{
  rex_base, rex_w, rex_r, rex_b, wide, has_extra, is_byte_index, or_width, or_reg_width,
  or_condition, register_bytes, encode_reg_reg, encode_imm_reg, encode_reg, encode_imm,
}
use lacc.Encoding.Length.Bounds.{opcode_len, head, len-head}
use lacc.Encoding.Length.{
  len, len-write, len-or_back, encode_immediate-imm_encoding_width, len-or_width, len-or_reg_width,
}

pub imm_encoding_width-le :
    (imm : Immediate) (sx dword : Bool) → imm_encoding_width imm sx dword ≤ 8
unfolding imm_encoding_width
imm_encoding_width-le (imm_int w qword) sx dword = ground arith
imm_encoding_width-le (imm_addr w addr) sx dword = omega arith
imm_encoding_width-le (imm_string w string) sx dword = omega arith

-- An immediate takes at most eight bytes.
len-encode_immediate :
    (c : Code) (imm : Immediate) (back : ℕ) (dword : Bool) {result : Code × ℕ}
    → encode_immediate c imm back dword ≡ ok result
    → len result.0 ≤ len c + 8
len-encode_immediate c imm back dword h = omega (
  arith,
  encode_immediate-imm_encoding_width c imm back dword h,
  imm_encoding_width-le imm (not (back == 0)) dword,
)

len-or_condition :
    (c : Code) (enc : Encoding) (cond : ℕ) {code : Code}
    → or_condition c enc cond ≡ ok code
    → len code ≡ len c
len-or_condition c enc cond {code} h =
    elim (has_extra enc opx_tttn)
        as (λ test.
          (if test
              then (do guard (enc.opextra == opx_tttn) assertion; ok (or_back c 1 cond))
              else ok c)
            ≡ ok code
          → len code ≡ len c) [
            | true ↦ λ h.
                returned (λ code. len code ≡ len c) (len-or_back c 1 cond)
                  (guarded (enc.opextra == opx_tttn) _ _ h)
            | false ↦ λ h. returned (λ code. len code ≡ len c) refl h
          ]
      h

pub len-encode_imm :
    (c : Code) (enc : Encoding) (w : ℕ) (imm : Immediate) (cond : ℕ) {last : Code}
    → encode_imm c enc w imm cond ≡ ok last
    → len last ≤ len c + 9 + opcode_len enc
unfolding encode_imm
len-encode_imm c enc w imm cond h =
    let rex = bit_or rex_base (wide enc w) in
    let first = head c false rex enc in
    let (code, e, k) = >>=-eq-ok (or_condition first enc cond) _ h in
    let ((last, n), f, l) =
      >>=-eq-ok (encode_immediate code imm 1 enc.is_displacement_or_dword) _ k in
    returned (λ last. len last ≤ len c + 9 + opcode_len enc)
      (omega (
        arith,
        len-head c false rex enc,
        len-or_condition first enc cond e,
        len-encode_immediate code imm 1 enc.is_displacement_or_dword f,
      ))
      l

-- The code after a last byte, or a change of the last byte.
len-last :
    (test checked : Bool) (c d : Code) (n : ℕ) {last : Code}
    → len c ≤ n
    → len d ≤ n
    → (if test then (do guard checked assertion; ok c) else ok d) ≡ ok last
    → len last ≤ n
len-last true checked c d n h k e = returned (λ last. len last ≤ n) h (guarded checked _ _ e)
len-last false checked c d n h k e = returned (λ last. len last ≤ n) k e

pub len-encode_reg :
    (c : Code) (enc : Encoding) (w r cond : ℕ) {last : Code}
    → encode_reg c enc w r cond ≡ ok last
    → len last ≤ len c + 2 + opcode_len enc
unfolding encode_reg
len-encode_reg c enc w r cond h =
    let rex = bit_or (bit_or rex_base (rex_b r)) (wide enc w) in
    let first = head c false rex enc in
    let sized = or_reg_width first enc w in
    let (code, e, k) = >>=-eq-ok (or_condition sized enc cond) _ h in
    let short : len code ≤ len c + 1 + opcode_len enc = omega (
      arith,
      len-head c false rex enc,
      len-or_reg_width first enc w,
      len-or_condition sized enc cond e,
    ) in
    let byte = bit_or (bit_or 0xC0 enc.modrm) (reg3 r) in
    len-last (has_extra enc opx_reg) (enc.modrm == 0) (or_back code 1 (reg3 r))
      (write code (byte ∷ [])) (len c + 2 + opcode_len enc)
      (omega (arith, short, len-or_back code 1 (reg3 r)))
      (omega (arith, short, len-write code (byte ∷ []))) k

pub len-encode_reg_reg :
    (c : Code) (enc : Encoding) (ws w a b : ℕ) {last : Code}
    → encode_reg_reg c enc ws w a b ≡ ok last
    → len last ≤ len c + 2 + opcode_len enc
unfolding encode_reg_reg
len-encode_reg_reg c enc ws w a b h =
    let explicit = not (is_implicit enc.implicit0) in
    let rex = bit_or (bit_or rex_base (rex_b b)) (wide enc w) in
    let full = if explicit then bit_or rex (rex_r a) else rex in
    let first = head c false full enc in
    let size = if is_implicit enc.implicit0 then w else ws in
    let sized = or_width first enc size in
    let byte = bit_or (bit_or 0xC0 enc.modrm) (reg3 b) in
    let last = write sized (byte ∷ []) in
    let short : len last ≤ len c + 2 + opcode_len enc = omega (
      arith,
      len-head c false full enc,
      len-or_width first enc size,
      len-write sized (byte ∷ []),
    ) in
    len-last explicit (enc.modrm == 0) (or_back last 1 (reg3 a * 8)) last
      (len c + 2 + opcode_len enc) (omega (arith, short, len-or_back last 1 (reg3 a * 8))) short
      (guarded (not (is_implicit enc.implicit1)) _ _ h)

-- A register in the opcode adds no byte, one after it adds one.
len-register_bytes :
    (c : Code) (enc : Encoding) (b : ℕ) {result : Code × ℕ}
    → register_bytes c enc b ≡ ok result
    → len result.0 ≤ len c + 1
len-register_bytes c enc b {result} h =
    let byte = bit_or (bit_or 0xC0 enc.modrm) (reg3 b) in
    let other : Run (Code × ℕ) =
      if not (is_implicit enc.implicit1) then ok (write c (byte ∷ []), 2) else ok (c, 0) in
    let Near : Code × ℕ → Type 0 = λ result. len result.0 ≤ len c + 1 in
    elim (has_extra enc opx_reg)
        as (λ inside.
          (if inside
              then (do
                guard (enc.modrm == 0) assertion
                guard (not (is_implicit enc.implicit1)) assertion
                ok (or_back c 1 (reg3 b), 1))
              else other)
            ≡ ok result
          → len result.0 ≤ len c + 1) [
            | true ↦ λ h.
                let free = guarded (enc.modrm == 0) _ _ h in
                returned Near (omega (arith, len-or_back c 1 (reg3 b)))
                  (guarded (not (is_implicit enc.implicit1)) _ _ free)
            | false ↦ λ h.
                elim (is_implicit enc.implicit1)
                    as (λ test.
                      (if not test then ok (write c (byte ∷ []), 2) else ok (c, 0)) ≡ ok result
                      → Near result) [
                        | true ↦ λ h. returned Near (omega arith) h
                        | false ↦ λ h. returned Near (omega (arith, len-write c (byte ∷ []))) h
                      ]
                  h
          ]
      h

pub len-encode_imm_reg :
    (c : Code) (enc : Encoding) (w : ℕ) (a : Immediate) (b : ℕ) {last : Code}
    → encode_imm_reg c enc w a b ≡ ok last
    → len last ≤ len c + 10 + opcode_len enc
unfolding encode_imm_reg
len-encode_imm_reg c enc w a b h =
    let rex = bit_or (bit_or rex_base (rex_w w)) (rex_b b) in
    let first = head c (is_byte_index b w) rex enc in
    let sized = or_reg_width first enc w in
    let ((code, d), e, k) = >>=-eq-ok (register_bytes sized enc b) _ h in
    let ((last, n), f, l) =
      >>=-eq-ok (encode_immediate code a _ enc.is_displacement_or_dword) _ k in
    returned (λ last. len last ≤ len c + 10 + opcode_len enc)
      (omega (
        arith,
        len-head c (is_byte_index b w) rex enc,
        len-or_reg_width first enc w,
        len-register_bytes sized enc b e,
        len-encode_immediate code a _ enc.is_displacement_or_dword f,
      ))
      l
