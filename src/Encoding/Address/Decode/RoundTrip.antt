-- ===== src/Encoding/Address/Decode/RoundTrip.antt =====
-- A memory operand written and read back.
use lacc.Base.{
  ℕ, ◌/◌, ◌%◌, ◌^◌, ◌<◌, ◌≤◌, ◌≡◌, ◌≢◌, refl, ap, sym, ◌∙◌, Bool, true, false, if◌then◌else◌, ◌==◌,
  not, ◌||◌, arith, some, none, List, [], ◌∷◌, ◌++◌, length, Bool-cases, inl, inr, ok,
}
use mathlib.Core.Path.{subst}
use lacc.Encoding.Defs.{Address}
use lacc.Encoding.Code.{Code, write}
use lacc.Encoding.Address.{
  reg3, is_64_bit_reg, is_scale, has_sib, modrm_byte, displacement_bytes, scale_bits, sib_byte,
  modrm_sib_disp, encode_modrm_sib_disp,
}
use lacc.Encoding.Address.Decode.{
  read_displacement, extended, location, sib_index, sib_scale, sib_based, read_sib, read_operand,
  normal,
}
use lacc.Encoding.Address.Decode.Fields.{
  mode, rm, rm-lt, scale_bits-lt, index_field-lt, base_field-lt, modrm_byte-fields, sib_byte-fields,
  extended-reg3, read_displacement-displacement_bytes,
}

-- The fields of a ModR/M byte.
split_modrm :
    (reg : ℕ) (addr : Address)
    → (modrm_byte reg addr / 64 ≡ mode addr)
      × (modrm_byte reg addr / 8 % 8 ≡ reg % 8)
      × (modrm_byte reg addr % 8 ≡ rm addr)
split_modrm reg addr =
    let low = rm-lt addr in
    let fields = modrm_byte-fields reg addr in (omega arith, omega arith, omega arith)

-- An operand that the processor has: an index is not the stack pointer, a displacement has a base.
abbrev pub IsOperand : Address → Type 0
IsOperand addr =
    (addr.base ≤ 16)
    × (addr.index ≤ 16)
    × (addr.index ≢ 5)
    × (is_scale addr.scale ≡ true)
    × (addr.displacement < 2 ^ 32)
    × (addr.base ≡ 0 → addr.displacement ≡ 0)

-- The fields of a SIB byte.
split_sib :
    (addr : Address)
    → (sib_byte addr / 64 ≡ scale_bits addr.scale)
      × (sib_byte addr / 8 % 8 ≡ (if not (addr.index == 0) then reg3 addr.index else 4))
      × (sib_byte addr % 8 ≡ (if not (addr.base == 0) then reg3 addr.base else 5))
split_sib addr =
    let fields = sib_byte-fields addr in
    let scale = scale_bits-lt addr.scale in
    let index = index_field-lt addr in
    let base = base_field-lt addr in (omega arith, omega arith, omega arith)

sib_index-sib_byte :
    (addr : Address)
    → IsOperand addr
    → sib_index (is_64_bit_reg addr.index) (sib_byte addr) ≡ addr.index
sib_index-sib_byte addr h = ground (arith, (split_sib addr).1)

sib_scale-sib_byte :
    (addr : Address)
    → IsOperand addr
    → sib_scale (is_64_bit_reg addr.index) (sib_byte addr)
      ≡ (if addr.index == 0 || addr.scale == 0 then 1 else addr.scale)
sib_scale-sib_byte addr h = ground (arith, (split_sib addr).0, (split_sib addr).1)

sib_based-sib_byte :
    (addr : Address) → IsOperand addr → sib_based (mode addr) (sib_byte addr) ≡ not (addr.base == 0)
sib_based-sib_byte addr h = ground (arith, (split_sib addr).2)

-- What a SIB byte says, from its parts.
read_sib-parts :
    (x b : Bool) (m s : ℕ) (bytes rest : List ℕ) {reg md base index scale d : ℕ} {based : Bool}
    → m / 64 ≡ md
    → m / 8 % 8 ≡ reg
    → sib_based md s ≡ based
    → (if based then extended (s % 8) b else 0) ≡ base
    → sib_index x s ≡ index
    → sib_scale x s ≡ scale
    → read_displacement md based bytes ≡ some (d, rest)
    → read_sib x b m (s ∷ bytes) ≡ some (reg, location base index scale d, rest)
read_sib-parts x b m s bytes rest h1 h2 h3 h4 h5 h6 h7 =
    rw h1 (rw h2 (rw h3 (rw h4 (rw h5 (rw h6 (rw h7 refl))))))

read_base :
    (addr : Address)
    → IsOperand addr
    → (if not (addr.base == 0) then extended (sib_byte addr % 8) (is_64_bit_reg addr.base) else 0)
      ≡ addr.base
read_base addr h = ground (arith, (split_sib addr).2)

read_operand-sib :
    (x b : Bool) (m : ℕ) (bytes : List ℕ)
    → m / 64 < 3
    → m % 8 ≡ 4
    → read_operand x b (m ∷ bytes) ≡ read_sib x b m bytes
unfolding read_operand
read_operand-sib x b m bytes h k = ground arith

read_operand-register :
    (x b : Bool) (m : ℕ) (bytes rest : List ℕ) {reg md base d : ℕ}
    → m / 64 ≡ md
    → m / 8 % 8 ≡ reg
    → md < 3
    → m % 8 ≢ 4
    → (md ≡ 0 → m % 8 ≢ 5)
    → extended (m % 8) b ≡ base
    → read_displacement md true bytes ≡ some (d, rest)
    → read_operand x b (m ∷ bytes) ≡ some (reg, location base 0 1 d, rest)
unfolding read_operand
read_operand-register x b m bytes rest h1 h2 h3 h4 h5 h6 h7 = ground arith

-- Without a SIB byte there is a base other than the stack pointer, and no index.
without_sib :
    (addr : Address)
    → has_sib addr ≡ false
    → (addr.index ≡ 0) × (1 ≤ addr.base) × (reg3 addr.base ≢ 4)
without_sib addr h = (ground arith, ground arith, ground arith)

-- Mode 0 is not used with the base pointer.
mode_zero : (addr : Address) → 1 ≤ addr.base → mode addr ≡ 0 → reg3 addr.base ≢ 5
mode_zero addr h k = ground arith

-- With a base, the displacement that is read is the one that was written.
based_displacement :
    (addr : Address) (rest : List ℕ)
    → IsOperand addr
    → 1 ≤ addr.base
    → read_displacement (mode addr) true (displacement_bytes addr ++ rest)
      ≡ some (addr.displacement, rest)
based_displacement addr rest h k =
    subst
      (λ based.
        read_displacement (mode addr) based (displacement_bytes addr ++ rest)
        ≡ some (addr.displacement, rest))
      (ground arith) (read_displacement-displacement_bytes addr rest h.4 h.5)

mode-lt : (addr : Address) → mode addr < 3
mode-lt addr = ground arith

read_with_sib :
    (reg : ℕ) (addr : Address) (rest : List ℕ)
    → IsOperand addr
    → has_sib addr ≡ true
    → read_operand
        (is_64_bit_reg addr.index)
        (is_64_bit_reg addr.base)
        (modrm_byte reg addr ∷ sib_byte addr ∷ displacement_bytes addr ++ rest)
      ≡ some (reg % 8, normal addr, rest)
unfolding read_operand
read_with_sib reg addr rest h sib =
    let (top, field, low) = split_modrm reg addr in
    let small = mode-lt addr in
    let last = ap (λ test. if test then 4 else reg3 addr.base) sib in
    let bytes = displacement_bytes addr ++ rest in
    read_operand-sib _ _ _ (sib_byte addr ∷ bytes) (omega arith) (low ∙ last)
    ∙ read_sib-parts _ _ (modrm_byte reg addr) (sib_byte addr) bytes rest top field
        (sib_based-sib_byte addr h) (read_base addr h) (sib_index-sib_byte addr h)
        (sib_scale-sib_byte addr h) (read_displacement-displacement_bytes addr rest h.4 h.5)

read_without_sib :
    (reg : ℕ) (addr : Address) (rest : List ℕ)
    → IsOperand addr
    → has_sib addr ≡ false
    → read_operand
        (is_64_bit_reg addr.index)
        (is_64_bit_reg addr.base)
        (modrm_byte reg addr ∷ displacement_bytes addr ++ rest)
      ≡ some (reg % 8, normal addr, rest)
unfolding read_operand
read_without_sib reg addr rest h sib =
    let (top, field, low) = split_modrm reg addr in
    let small = mode-lt addr in
    let last = low ∙ ap (λ test. if test then 4 else reg3 addr.base) sib in
    let (indexless, based, other) = without_sib addr sib in
    read_operand-register _ _ (modrm_byte reg addr) (displacement_bytes addr ++ rest) rest top field
      small (λ e. other (sym last ∙ e)) (λ z e. mode_zero addr based z (sym last ∙ e))
      (ap (λ r. extended r (is_64_bit_reg addr.base)) last ∙ extended-reg3 addr.base based h.0)
      (based_displacement addr rest h based)
    ∙ ap
        (λ i. some (
          reg % 8,
          location addr.base i (if i == 0 || addr.scale == 0 then 1 else addr.scale)
              addr.displacement,
          rest,
        ))
        (sym indexless)

based_or_none :
    (addr : Address) → IsOperand addr → (not (addr.base == 0) || addr.displacement == 0) ≡ true
based_or_none addr h = ground arith

read_operand-modrm_sib_disp :
    (reg : ℕ) (addr : Address) (rest : List ℕ)
    → IsOperand addr
    → read_operand
        (is_64_bit_reg addr.index)
        (is_64_bit_reg addr.base)
        (modrm_sib_disp reg addr ++ rest)
      ≡ some (reg % 8, normal addr, rest)
read_operand-modrm_sib_disp reg addr rest h =
    let Reads : Bool → Type 0 = λ test.
      (read_operand (is_64_bit_reg addr.index) (is_64_bit_reg addr.base) (
          (modrm_byte reg addr ∷ (if test then sib_byte addr ∷ [] else [])
            ++ displacement_bytes addr)
          ++ rest)
        ≡ some (reg % 8, normal addr, rest)) in
    elim (Bool-cases (has_sib addr)) [
      | inl e ↦ subst Reads (sym e) (read_with_sib reg addr rest h e)
      | inr e ↦ subst Reads (sym e) (read_without_sib reg addr rest h e)
    ]

-- Let a memory operand have no symbol, general registers or none, an index that is not the stack
-- pointer, one of the scales 0, 1, 2, 4 and 8, a displacement of 32 bits, and without a base the
-- displacement 0. Then `encode_modrm_sib_disp` returns, and what it adds to the code reads back, with
-- what follows it, as the register field and the operand, where a scale of 0 or without an index is 1;
-- the bits X and B of the prefix tell which registers are numbered from 8 on. The number beside the code
-- is that of the bytes.
pub encode_modrm_sib_disp-read_operand :
    (c : Code) (reg : ℕ) (addr : Address) (rest : List ℕ)
    → addr.symbol ≡ none
    → IsOperand addr
    → (bytes : List ℕ) × (encode_modrm_sib_disp c reg addr ≡ ok (write c bytes, length bytes))
      × (read_operand (is_64_bit_reg addr.index) (is_64_bit_reg addr.base) (bytes ++ rest)
          ≡ some (reg % 8, normal addr, rest))
unfolding encode_modrm_sib_disp
encode_modrm_sib_disp-read_operand c reg addr rest plain h = (
  modrm_sib_disp reg addr,
  rw plain (rw (based_or_none addr h) (rw h.3 refl)),
  read_operand-modrm_sib_disp reg addr rest h,
)
