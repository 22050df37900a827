-- ===== src/Encoding/Form.antt =====
-- The functions that write an instruction, one for each form of its operands.
use Prim.Native.Nat.{bit_and, bit_or}
use lacc.Base.{
  ℕ, ◌+◌, ◌*◌, ◌/◌, ◌%◌, Bool, false, if◌then◌else◌, leb, ◌==◌, not, ◌&&◌, ◌||◌, [], ◌∷◌, Run, ok,
  assertion, guard, ◌>>=◌, ◌>>◌,
}
use lacc.Encoding.Defs.{
  reg_si, reg_di, Address, Immediate, opx_w, opx_s, opx_d, opx_tttn, opx_reg, is_implicit, Encoding,
}
use lacc.Encoding.Code.{Code, write, or_back, flag}
use lacc.Encoding.Table.{
  instr_call, instr_push, instr_pop, instr_jmp, instr_jcc, instr_xor, instr_cvtts2si, instr_cvtsi2s,
}
use lacc.Encoding.Address.{reg3, is_64_bit_reg, encode_address}
use lacc.Encoding.Immediate.{encode_immediate, imm_encoding_width}

-- `REX` and the bits of its prefix.
abbrev pub rex_base : ℕ
rex_base = 0x40

abbrev pub rex_w : ℕ → ℕ
rex_w w = flag (w == 8) * 8

abbrev pub rex_r : ℕ → ℕ
rex_r r = flag (is_64_bit_reg r) * 4

abbrev pub rex_x : Address → ℕ
rex_x addr = flag (is_64_bit_reg addr.index) * 2

abbrev pub rex_b : ℕ → ℕ
rex_b r = flag (is_64_bit_reg r)

abbrev pub enable_rex_w : ℕ → Bool
enable_rex_w op = leb op instr_xor || op == instr_cvtts2si || op == instr_cvtsi2s

abbrev pub default_operand_size : ℕ → ℕ
default_operand_size opc =
    if opc == instr_call
      || opc == instr_push
      || opc == instr_pop
      || opc == instr_jmp
      || opc == instr_jcc
    then 8
    else 4

-- `(enc.opextra & bits) == bits`
abbrev pub has_extra : Encoding → ℕ → Bool
has_extra enc bits = bit_and enc.opextra bits == bits

-- The width bit of the prefix, where the size is not the default.
abbrev pub wide : Encoding → ℕ → ℕ
wide enc w = if enable_rex_w enc.opc && not (w == default_operand_size enc.opc) then rex_w w else 0

abbrev pub write_rex : Code → Bool → ℕ → Code
write_rex c always rex = if not (rex == rex_base) || always then write c (rex ∷ []) else c

abbrev pub is_byte_index : ℕ → ℕ → Bool
is_byte_index r w = (r == reg_si || r == reg_di) && w == 1

abbrev pub encode_opcode : Code → Encoding → Code
encode_opcode c enc =
    let head = write c (enc.first ∷ []) in
    if not (enc.second == 0) then write head (enc.second ∷ []) else head

-- The width bit of the opcode.
abbrev pub or_width : Code → Encoding → ℕ → Code
or_width c enc w = if has_extra enc opx_w then or_back c 1 (flag (not (w == 1))) else c

unfoldable pub encode_reg_reg : Code → Encoding → ℕ → ℕ → ℕ → ℕ → Run Code
encode_reg_reg c enc ws w a b = do
  let rex = bit_or (bit_or rex_base (rex_b b)) (wide enc w)
  guard (not (is_implicit enc.implicit1)) assertion
  let full = if not (is_implicit enc.implicit0) then bit_or rex (rex_r a) else rex
  let head = encode_opcode (write_rex c false full) enc
  let sized = or_width head enc (if is_implicit enc.implicit0 then w else ws)
  let last = write sized (bit_or (bit_or 0xC0 enc.modrm) (reg3 b) ∷ [])
  if not (is_implicit enc.implicit0)
      then (do guard (enc.modrm == 0) assertion; ok (or_back last 1 (reg3 a * 8)))
      else ok last

-- `d` tells whether the register is the destination.
unfoldable pub encode_mem_reg : Code → Encoding → ℕ → Bool → ℕ → Address → ℕ → Run Code
encode_mem_reg c enc w d mem_width addr b = do
  let rex =
      bit_or (bit_or (bit_or (bit_or rex_base (rex_r b)) (rex_x addr)) (rex_b addr.base))
        (wide enc w)
  guard (not (is_implicit enc.implicit1)) assertion
  let head = encode_opcode (write_rex c (is_byte_index b w) rex) enc
  let sized = or_width head enc mem_width
  let directed = if has_extra enc opx_d then or_back sized 1 (flag d * 2) else sized
  (code, n) ← encode_address directed (reg3 b) addr 0
  ok code

-- The width bit where the opcode may hold a register.
abbrev pub or_reg_width : Code → Encoding → ℕ → Code
or_reg_width c enc w =
    if has_extra enc opx_w
    then or_back c 1
        (if has_extra enc opx_reg then flag (not (w == 1)) * 8 else flag (not (w == 1)))
    else c

-- `w` after its assignments in the branch of `OPX_W`.
abbrev imm_reg_w : Encoding → ℕ → ℕ
imm_reg_w enc w =
    if has_extra enc opx_w
    then (if has_extra enc opx_reg then flag (not (w == 1)) * 8 else flag (not (w == 1)))
    else w

-- The register, in the opcode or in a ModR/M byte, and the number of bytes back to the opcode.
abbrev pub register_bytes : Code → Encoding → ℕ → Run (Code × ℕ)
register_bytes sized enc b =
    if has_extra enc opx_reg
    then (do
      guard (enc.modrm == 0) assertion
      guard (not (is_implicit enc.implicit1)) assertion
      ok (or_back sized 1 (reg3 b), 1))
    else if not (is_implicit enc.implicit1)
    then ok (write sized (bit_or (bit_or 0xC0 enc.modrm) (reg3 b) ∷ []), 2)
    else ok (sized, 0)

unfoldable pub encode_imm_reg : Code → Encoding → ℕ → Immediate → ℕ → Run Code
encode_imm_reg c enc w a b = do
  let rex = bit_or (bit_or rex_base (rex_w w)) (rex_b b)
  let head = encode_opcode (write_rex c (is_byte_index b w) rex) enc
  let sized = or_reg_width head enc w
  (code, d) ← register_bytes sized enc b
  let offset = if not (has_extra enc opx_s) || imm_reg_w enc w == 0 then 0 else d
  (last, n) ← encode_immediate code a offset enc.is_displacement_or_dword
  ok last

unfoldable pub encode_imm_mem : Code → Encoding → ℕ → Immediate → Address → Run Code
encode_imm_mem c enc w a b = do
  let rex = bit_or (bit_or (bit_or rex_base (rex_w w)) (rex_x b)) (rex_b b.base)
  let sized = or_width (encode_opcode (write_rex c false rex) enc) enc w
  let s = has_extra enc opx_s
  let after = imm_encoding_width a s enc.is_displacement_or_dword
  (code, d) ← encode_address sized (enc.modrm / 8 % 8) b after
  (last, n) ← encode_immediate code a (if s then d + 1 else 0) enc.is_displacement_or_dword
  guard (n == after) assertion
  ok last

unfoldable pub encode_none : Code → Encoding → ℕ → Code
encode_none c enc w =
    or_width (encode_opcode (write_rex c false (bit_or rex_base (wide enc w))) enc) enc w

-- `OPX_tttn`: the condition in the opcode.
abbrev pub or_condition : Code → Encoding → ℕ → Run Code
or_condition c enc cond =
    if has_extra enc opx_tttn
    then (do guard (enc.opextra == opx_tttn) assertion; ok (or_back c 1 cond))
    else ok c

unfoldable pub encode_reg : Code → Encoding → ℕ → ℕ → ℕ → Run Code
encode_reg c enc w r cond = do
  let rex = bit_or (bit_or rex_base (rex_b r)) (wide enc w)
  let head = encode_opcode (write_rex c false rex) enc
  code ← or_condition (or_reg_width head enc w) enc cond
  if has_extra enc opx_reg
      then (do guard (enc.modrm == 0) assertion; ok (or_back code 1 (reg3 r)))
      else ok (write code (bit_or (bit_or 0xC0 enc.modrm) (reg3 r) ∷ []))

unfoldable pub encode_mem : Code → Encoding → ℕ → Address → Run Code
encode_mem c enc w addr = do
  let rex = bit_or (bit_or (bit_or rex_base (rex_x addr)) (rex_b addr.base)) (wide enc w)
  let sized = or_width (encode_opcode (write_rex c false rex) enc) enc w
  (code, n) ← encode_address sized (enc.modrm / 8 % 8) addr 0
  ok code

unfoldable pub encode_imm : Code → Encoding → ℕ → Immediate → ℕ → Run Code
encode_imm c enc w imm cond = do
  let head = encode_opcode (write_rex c false (bit_or rex_base (wide enc w))) enc
  code ← or_condition head enc cond
  (last, n) ← encode_immediate code imm 1 enc.is_displacement_or_dword
  ok last
