-- ===== src/Encoding/Address.antt =====
-- Memory operands: the ModR/M and SIB bytes and the displacement.
pub mod Decode
use Prim.Native.Nat.{bit_or}
use lacc.Base.{
  ℕ, ◌+◌, ◌-◌, ◌*◌, ◌%◌, ◌^◌, Bool, true, false, if◌then◌else◌, ltb, leb, ◌==◌, not, ◌&&◌, ◌||◌,
  Option, some, none, List, [], ◌∷◌, ◌++◌, length, Run, ok, err, assertion, guard, ◌>>=◌, ◌>>◌,
}
use lacc.Encoding.Defs.{
  reg_sp, reg_bp, AddrType, addr_normal, addr_global_offset, addr_plt, Address,
}
use lacc.Encoding.Code.{
  Code, write, little_endian, RelType, r_x86_64_pc32, r_x86_64_gotpcrel, elf_add_relocation,
}

-- `(arg - 1) & 0x7`
abbrev pub reg3 : ℕ → ℕ
reg3 arg = (arg + 7) % 8

abbrev pub is_64_bit_reg : ℕ → Bool
is_64_bit_reg arg = leb 9 arg && leb arg 16 || leb 25 arg && leb arg 32

-- `in_byte_range` of the integer that the `w` bits stand for.
abbrev pub in_byte_range : ℕ → ℕ → Bool
in_byte_range w arg = ltb arg 128 || leb (2 ^ w - 128) arg

-- `in_32bit_range` of a `long`.
abbrev pub in_32bit_range : ℕ → Bool
in_32bit_range arg = ltb arg (2 ^ 31) || leb (2 ^ 64 - 2 ^ 31) arg

abbrev pub is_none : Option ℕ → Bool
is_none none = true
is_none (some sym) = false

abbrev pub is_scale : ℕ → Bool
is_scale s = s == 0 || s == 1 || s == 2 || s == 4 || s == 8

abbrev pub has_sib : Address → Bool
has_sib addr =
    not (addr.index == 0) || addr.base == 0 || reg3 addr.base == reg3 reg_sp || ltb 1 addr.scale

abbrev pub has_displacement : Address → Bool
has_displacement addr =
    addr.base == 0 || not (addr.displacement == 0) || reg3 addr.base == reg3 reg_bp

abbrev pub modrm_byte : ℕ → Address → ℕ
modrm_byte reg addr =
    let byte = bit_or ((reg % 8) * 8) (if has_sib addr then 4 else reg3 addr.base) in
    if not (in_byte_range 32 addr.displacement)
    then bit_or byte 0x80
    else if has_displacement addr && not (addr.base == 0)
    then bit_or byte 0x40
    else byte

abbrev pub scale_bits : ℕ → ℕ
scale_bits s = if s == 2 then 1 else if s == 4 then 2 else if s == 8 then 3 else 0

abbrev pub sib_byte : Address → ℕ
sib_byte addr =
    let index = if not (addr.index == 0) then reg3 addr.index else reg3 reg_sp in
    bit_or (bit_or (index * 8) (scale_bits addr.scale * 64))
      (if not (addr.base == 0) then reg3 addr.base else 5)

abbrev pub displacement_bytes : Address → List ℕ
displacement_bytes addr =
    if not (in_byte_range 32 addr.displacement) || addr.base == 0
    then little_endian 4 addr.displacement
    else if has_displacement addr
    then little_endian 1 addr.displacement
    else []

-- The three parts, in the order in which they are written.
abbrev pub modrm_sib_disp : ℕ → Address → List ℕ
modrm_sib_disp reg addr =
    modrm_byte reg addr ∷ (if has_sib addr then sib_byte addr ∷ [] else [])
    ++ displacement_bytes addr

-- The number beside the code is that of the bytes.
unfoldable pub encode_modrm_sib_disp : Code → ℕ → Address → Run (Code × ℕ)
encode_modrm_sib_disp c reg addr = do
  guard (is_none addr.symbol) assertion
  guard (not (addr.base == 0) || addr.displacement == 0) assertion
  guard (is_scale addr.scale) assertion
  let bytes = modrm_sib_disp reg addr
  ok (write c bytes, length bytes)

abbrev pub rel_type : AddrType → Run RelType
rel_type addr_global_offset = ok r_x86_64_gotpcrel
rel_type addr_normal = ok r_x86_64_pc32
rel_type addr_plt = err assertion

-- A relative address of a symbol, of which a relocation fills the four bytes.
abbrev pub encode_symbol : Code → ℕ → ℕ → Address → ℕ → Run (Code × ℕ)
encode_symbol c sym reg addr addend = do
  reloc ← rel_type addr.kind
  let here = write c (bit_or ((reg % 8) * 8) 0x5 ∷ [])
  let rest = (addr.displacement + 2 ^ 32 - addend) % 2 ^ 32
  let elf = elf_add_relocation here.elf sym reloc (length here.val) rest
  ok (write (record here { elf = elf }) (0 ∷ 0 ∷ 0 ∷ 0 ∷ []), 5)

unfoldable pub encode_address : Code → ℕ → Address → ℕ → Run (Code × ℕ)
unfolding encode_modrm_sib_disp
encode_address c reg addr addend = elim addr.symbol [
  | some sym ↦ encode_symbol c sym reg addr addend
  | none ↦ encode_modrm_sib_disp c reg addr
]
