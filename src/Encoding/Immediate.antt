-- ===== src/Encoding/Immediate.antt =====
-- Immediate operands.
use lacc.Base.{
  ℕ, ◌+◌, ◌-◌, ◌%◌, ◌^◌, Bool, true, false, if◌then◌else◌, leb, ◌==◌, not, ◌&&◌, ◌||◌, [], ◌∷◌, Run,
  ok, err, assertion, demand, guard, ◌>>=◌, ◌>>◌,
}
use lacc.Encoding.Defs.{
  AddrType, addr_normal, addr_global_offset, addr_plt, Address, Immediate, imm_int, imm_addr,
  imm_string,
}
use lacc.Encoding.Code.{
  Code, write, or_back, little_endian, RelType, r_x86_64_pc32, r_x86_64_plt32, elf_add_relocation,
  elf_text_displacement,
}
use lacc.Base.{length}
use lacc.Encoding.Address.{in_byte_range, in_32bit_range}

abbrev is_normal : AddrType → Bool
is_normal addr_normal = true
is_normal _ = false

abbrev pub imm_rel_type : AddrType → Run RelType
imm_rel_type addr_normal = ok r_x86_64_pc32
imm_rel_type addr_plt = ok r_x86_64_plt32
imm_rel_type addr_global_offset = err assertion

-- `case IMM_INT`
abbrev pub encode_integer : Code → ℕ → ℕ → ℕ → Bool → Run (Code × ℕ)
encode_integer c w qword sx_byte_offset dword =
    if w == 1 || not (sx_byte_offset == 0) && in_byte_range 64 qword
    then (let marked = if not (sx_byte_offset == 0) then or_back c sx_byte_offset 0x02 else c in
        ok (write marked (little_endian 1 qword), 1))
    else if w == 2
    then ok (write c (little_endian 2 qword), 2)
    else if w == 4 || dword
    then (do
      guard (w == 4 || in_32bit_range qword) assertion
      ok (write c (little_endian 4 qword), 4))
    else (do guard (w == 8) assertion; ok (write c (little_endian 8 qword), 8))

-- `case IMM_ADDR`; the bytes that a relocation fills are 0.
abbrev pub encode_reference : Code → Address → Bool → Run (Code × ℕ)
encode_reference c addr dword = do
  sym ← demand addr.symbol assertion
  if dword
      then (do
        guard (is_normal addr.kind) assertion
        (elf, disp) ← elf_text_displacement c.elf sym (length c.val)
        let rest = (disp + addr.displacement + 2 ^ 32 - 4) % 2 ^ 32
        ok (write (record c { elf = elf }) (little_endian 4 rest), 4))
      else (do
        reloc ← imm_rel_type addr.kind
        let elf = elf_add_relocation c.elf sym reloc (length c.val) addr.displacement
        ok (write (record c { elf = elf }) (0 ∷ 0 ∷ 0 ∷ 0 ∷ []), 4))

unfoldable pub encode_immediate : Code → Immediate → ℕ → Bool → Run (Code × ℕ)
encode_immediate c (imm_int w qword) sx_byte_offset dword =
    encode_integer c w qword sx_byte_offset dword
encode_immediate c (imm_addr w addr) sx_byte_offset dword = encode_reference c addr dword
encode_immediate c (imm_string w string) sx_byte_offset dword = err assertion

unfoldable pub imm_encoding_width : Immediate → Bool → Bool → ℕ
imm_encoding_width (imm_int w qword) allow_sign_extend max_32bit =
    if w == 1 || allow_sign_extend && in_byte_range 64 qword
    then 1
    else if w == 2
    then 2
    else if w == 4 || max_32bit
    then 4
    else 8
imm_encoding_width (imm_addr w addr) allow_sign_extend max_32bit = 4
imm_encoding_width (imm_string w string) allow_sign_extend max_32bit = 0

unfoldable pub is_32_bit_imm : Immediate → Bool
is_32_bit_imm (imm_int w qword) = leb w 4 || in_32bit_range qword
is_32_bit_imm (imm_addr w addr) = true
is_32_bit_imm (imm_string w string) = leb w 4
