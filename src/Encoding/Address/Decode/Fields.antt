-- ===== src/Encoding/Address/Decode/Fields.antt =====
-- The fields of the ModR/M and SIB bytes in plain arithmetic.
use Prim.Native.Nat.{bit_or}
use lacc.Base.{
  ℕ, zero, suc, ◌+◌, ◌*◌, ◌%◌, ◌^◌, ◌<◌, ◌≤◌, ◌≡◌, refl, Bool, true, false, if◌then◌else◌, ◌==◌,
  ==_iff, not, ◌&&◌, arith, some, List, ◌++◌,
}
use lacc.Encoding.Defs.{Address}
use lacc.Encoding.Code.{little_endian}
use lacc.Encoding.Address.{
  reg3, is_64_bit_reg, in_byte_range, has_sib, has_displacement, modrm_byte, displacement_bytes,
  scale_bits, sib_byte,
}
use lacc.Encoding.Address.Decode.{read_displacement, extended}

-- The test passes for every value of a field with `count` values, tried one by one.
unfoldable passes : (ℕ → Bool) → ℕ → Bool
passes test zero = true
passes test (suc last) = let fewer = passes test last in if test last then fewer else false

passes-lt :
    (test : ℕ → Bool) (count : ℕ) {field : ℕ}
    → field < count
    → passes test count ≡ true
    → test field ≡ true
unfolding passes
passes-lt test zero small all = absurd (omega arith)
passes-lt test (suc last) {field} small all = ground (arith, passes-lt test last {field = field})

low_sums : passes (λ a. passes (λ b. bit_or (a * 8) b == a * 8 + b) 8) 8 ≡ true
unfolding passes
low_sums = refl

high_sums : passes (λ a. passes (λ b. bit_or a (b * 64) == a + b * 64) 4) 64 ≡ true
unfolding passes
high_sums = refl

all_sums :
    passes
      (λ a.
        passes (λ b. passes (λ d. bit_or (bit_or (a * 8) (b * 64)) d == b * 64 + a * 8 + d) 8) 4)
      8
    ≡ true
unfolding passes
all_sums = refl

or_low : (a b : ℕ) → a < 8 → b < 8 → bit_or (a * 8) b ≡ a * 8 + b
or_low a b h k = (==_iff _ _).0 (passes-lt _ 8 {field = b} k (passes-lt _ 8 {field = a} h low_sums))

or_high : (a b : ℕ) → a < 64 → b < 4 → bit_or a (b * 64) ≡ a + b * 64
or_high a b h k =
    (==_iff _ _).0 (passes-lt _ 4 {field = b} k (passes-lt _ 64 {field = a} h high_sums))

or_middle :
    (a b d : ℕ) → a < 8 → b < 4 → d < 8 → bit_or (bit_or (a * 8) (b * 64)) d ≡ b * 64 + a * 8 + d
or_middle a b d h k l = (==_iff _ _).0 (
    passes-lt _ 8 {field = d} l
      (passes-lt _ 4 {field = b} k (passes-lt _ 8 {field = a} h all_sums)))

-- The mode of the ModR/M byte.
abbrev pub mode : Address → ℕ
mode addr =
    if not (in_byte_range 32 addr.displacement)
    then 2
    else if has_displacement addr && not (addr.base == 0)
    then 1
    else 0

abbrev pub rm : Address → ℕ
rm addr = if has_sib addr then 4 else reg3 addr.base

if-lt : (test : Bool) (a b n : ℕ) → a < n → b < n → (if test then a else b) < n
if-lt true a b n h k = h
if-lt false a b n h k = k

or_mode :
    (far near : Bool) (byte : ℕ)
    → byte < 64
    → (if far then bit_or byte 0x80 else if near then bit_or byte 0x40 else byte)
      ≡ (if far then 2 else if near then 1 else 0) * 64 + byte
or_mode true near byte h = omega (arith, or_high byte 2 h (omega arith))
or_mode false true byte h = omega (arith, or_high byte 1 h (omega arith))
or_mode false false byte h = omega arith

pub rm-lt : (addr : Address) → rm addr < 8
rm-lt addr = if-lt (has_sib addr) 4 (reg3 addr.base) 8 (omega arith) (omega arith)

pub modrm_byte-fields :
    (reg : ℕ) (addr : Address) → modrm_byte reg addr ≡ mode addr * 64 + reg % 8 * 8 + rm addr
modrm_byte-fields reg addr =
    let low = or_low (reg % 8) (rm addr) (omega arith) (rm-lt addr) in
    omega (
      arith,
      low,
      rm-lt addr,
      or_mode (not (in_byte_range 32 addr.displacement))
          (has_displacement addr && not (addr.base == 0)) (bit_or (reg % 8 * 8) (rm addr))
          (omega (arith, low, rm-lt addr)),
    )

pub scale_bits-lt : (s : ℕ) → scale_bits s < 4
scale_bits-lt s = ground arith

pub index_field-lt : (addr : Address) → (if not (addr.index == 0) then reg3 addr.index else 4) < 8
index_field-lt addr =
    if-lt (not (addr.index == 0)) (reg3 addr.index) 4 8 (omega arith) (omega arith)

pub base_field-lt : (addr : Address) → (if not (addr.base == 0) then reg3 addr.base else 5) < 8
base_field-lt addr = if-lt (not (addr.base == 0)) (reg3 addr.base) 5 8 (omega arith) (omega arith)

pub sib_byte-fields :
    (addr : Address)
    → sib_byte addr
      ≡ scale_bits addr.scale * 64
        + (if not (addr.index == 0) then reg3 addr.index else 4) * 8
        + (if not (addr.base == 0) then reg3 addr.base else 5)
sib_byte-fields addr =
    or_middle _ (scale_bits addr.scale) _ (index_field-lt addr) (scale_bits-lt addr.scale)
      (base_field-lt addr)

-- A register from its field and the bit of the prefix.
pub extended-reg3 : (r : ℕ) → 1 ≤ r → r ≤ 16 → extended (reg3 r) (is_64_bit_reg r) ≡ r
extended-reg3 r h k = ground arith

pub read_displacement-displacement_bytes :
    (addr : Address) (rest : List ℕ)
    → addr.displacement < 2 ^ 32
    → (addr.base ≡ 0 → addr.displacement ≡ 0)
    → read_displacement (mode addr) (not (addr.base == 0)) (displacement_bytes addr ++ rest)
      ≡ some (addr.displacement, rest)
unfolding read_displacement little_endian
read_displacement-displacement_bytes addr rest h k = ground arith
