-- ===== src/Encoding/Length/Bounds.antt =====
-- The bytes of each form of instruction.
use Prim.Native.Nat.{bit_or}
use lacc.Base.{
  ℕ, ◌+◌, ◌*◌, ◌/◌, ◌%◌, ◌≤◌, ◌≡◌, refl, Bool, false, if◌then◌else◌, ◌==◌, not, arith, ok,
  assertion, guard, guarded, returned, >>=-eq-ok, guard-eq-ok, ==_iff,
}
use lacc.Encoding.Defs.{Address, Immediate, opx_s, opx_d, is_implicit, Encoding}
use lacc.Encoding.Code.{Code, or_back, flag}
use lacc.Encoding.Address.{reg3, encode_address}
use lacc.Encoding.Immediate.{encode_immediate, imm_encoding_width}
use lacc.Encoding.Form.{
  rex_base, rex_w, rex_r, rex_x, rex_b, wide, has_extra, is_byte_index, write_rex, encode_opcode,
  or_width, encode_mem_reg, encode_imm_mem, encode_none, encode_mem,
}
use lacc.Encoding.Length.{
  len, len-or_back, len-if, encode_address-Adds, encode_immediate-imm_encoding_width, len-write_rex,
  len-encode_opcode, len-or_width,
}

abbrev pub opcode_len : Encoding → ℕ
opcode_len enc = if enc.second == 0 then 1 else 2

-- The prefix and the opcode.
abbrev pub head : Code → Bool → ℕ → Encoding → Code
head c always rex enc = encode_opcode (write_rex c always rex) enc

pub len-head :
    (c : Code) (always : Bool) (rex : ℕ) (enc : Encoding)
    → len (head c always rex enc) ≤ len c + 1 + opcode_len enc
len-head c always rex enc =
    omega (arith, len-write_rex c always rex, len-encode_opcode (write_rex c always rex) enc)

pub len-encode_none :
    (c : Code) (enc : Encoding) (w : ℕ) → len (encode_none c enc w) ≤ len c + 1 + opcode_len enc
unfolding encode_none
len-encode_none c enc w =
    let rex = bit_or rex_base (wide enc w) in
    omega (arith, len-head c false rex enc, len-or_width (head c false rex enc) enc w)

pub len-encode_mem :
    (c : Code) (enc : Encoding) (w : ℕ) (addr : Address) {last : Code}
    → encode_mem c enc w addr ≡ ok last
    → len last ≤ len c + 7 + opcode_len enc
unfolding encode_mem
len-encode_mem c enc w addr h =
    let rex = bit_or (bit_or (bit_or rex_base (rex_x addr)) (rex_b addr.base)) (wide enc w) in
    let sized = or_width (head c false rex enc) enc w in
    let ((code, n), e, k) = >>=-eq-ok (encode_address sized (enc.modrm / 8 % 8) addr 0) _ h in
    returned (λ last. len last ≤ len c + 7 + opcode_len enc)
      (omega (
        arith,
        len-head c false rex enc,
        len-or_width (head c false rex enc) enc w,
        encode_address-Adds sized _ addr 0 e,
      ))
      k

pub len-encode_mem_reg :
    (c : Code) (enc : Encoding) (w : ℕ) (d : Bool) (mem_width : ℕ) (addr : Address) (b : ℕ)
    {last : Code}
    → encode_mem_reg c enc w d mem_width addr b ≡ ok last
    → len last ≤ len c + 7 + opcode_len enc
unfolding encode_mem_reg
len-encode_mem_reg c enc w d mem_width addr b h =
    let rex =
      bit_or (bit_or (bit_or (bit_or rex_base (rex_r b)) (rex_x addr)) (rex_b addr.base))
        (wide enc w) in
    let first = head c (is_byte_index b w) rex enc in
    let sized = or_width first enc mem_width in
    let directed = if has_extra enc opx_d then or_back sized 1 (flag d * 2) else sized in
    let explicit = guarded (not (is_implicit enc.implicit1)) _ _ h in
    let ((code, n), e, k) = >>=-eq-ok (encode_address directed (reg3 b) addr 0) _ explicit in
    returned (λ last. len last ≤ len c + 7 + opcode_len enc)
      (omega (
        arith,
        len-head c (is_byte_index b w) rex enc,
        len-or_width first enc mem_width,
        len-if (has_extra enc opx_d) (or_back sized 1 (flag d * 2)) sized (len-or_back sized 1 _)
            refl,
        encode_address-Adds directed _ addr 0 e,
      ))
      k

pub len-encode_imm_mem :
    (c : Code) (enc : Encoding) (w : ℕ) (a : Immediate) (b : Address) {last : Code}
    → encode_imm_mem c enc w a b ≡ ok last
    → len last
      ≤ len c
        + 7
        + opcode_len enc
        + imm_encoding_width a (has_extra enc opx_s) enc.is_displacement_or_dword
unfolding encode_imm_mem
len-encode_imm_mem c enc w a b h =
    let rex = bit_or (bit_or (bit_or rex_base (rex_w w)) (rex_x b)) (rex_b b.base) in
    let sized = or_width (head c false rex enc) enc w in
    let s = has_extra enc opx_s in
    let after = imm_encoding_width a s enc.is_displacement_or_dword in
    let ((code, d), e, k) = >>=-eq-ok (encode_address sized (enc.modrm / 8 % 8) b after) _ h in
    let ((last, n), f, l) =
      >>=-eq-ok (encode_immediate code a (if s then d + 1 else 0) enc.is_displacement_or_dword) _
        k in
    let announced =
      guard-eq-ok (n == after) assertion (>>=-eq-ok (guard (n == after) assertion) _ l).1 in
    returned (λ last. len last ≤ len c + 7 + opcode_len enc + after)
      (omega (
        arith,
        len-head c false rex enc,
        len-or_width (head c false rex enc) enc w,
        encode_address-Adds sized _ b after e,
        (==_iff n after).0 announced,
        encode_immediate-imm_encoding_width code a _ enc.is_displacement_or_dword f,
      ))
      (guarded (n == after) _ _ l)
