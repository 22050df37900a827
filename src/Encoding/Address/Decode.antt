-- ===== src/Encoding/Address/Decode.antt =====
-- The ModR/M and SIB bytes and the displacement read back, as the processor reads them in 64 bit mode.
pub mod Fields
pub mod RoundTrip
use lacc.Base.{
  ℕ, ◌+◌, ◌-◌, ◌*◌, ◌/◌, ◌%◌, ◌^◌, Bool, true, not, if◌then◌else◌, ltb, ◌==◌, ◌&&◌, ◌||◌, Option,
  some, none, List, [], ◌∷◌,
}
use lacc.Encoding.Defs.{addr_normal, Address}
use lacc.Encoding.Code.{flag}

-- Four bytes, lowest first.
abbrev pub read_dword : List ℕ → Option (ℕ × List ℕ)
read_dword (a ∷ b ∷ c ∷ d ∷ rest) = some (a + 256 * (b + 256 * (c + 256 * d)), rest)
read_dword _ = none

-- A byte, extended to 32 bits by its sign.
abbrev pub read_byte : List ℕ → Option (ℕ × List ℕ)
read_byte (a ∷ rest) = some (if ltb a 128 then a else 2 ^ 32 - 256 + a, rest)
read_byte [] = none

-- The displacement for the mode of a ModR/M byte, and whether there is a base.
unfoldable pub read_displacement : ℕ → Bool → List ℕ → Option (ℕ × List ℕ)
read_displacement mode based bytes =
    if mode == 1
    then read_byte bytes
    else if mode == 2 || mode == 0 && not based
    then read_dword bytes
    else some (0, bytes)

-- What a memory operand denotes; 0 is no register.
abbrev pub location : ℕ → ℕ → ℕ → ℕ → Address
location base index scale displacement = record {
  kind = addr_normal;
  symbol = none;
  displacement = displacement;
  base = base;
  index = index;
  scale = scale;
}

-- A register field and the bit of the prefix that extends it.
abbrev pub extended : ℕ → Bool → ℕ
extended bits high = bits + 8 * flag high + 1

abbrev pub read_scale : ℕ → ℕ
read_scale s = if s == 0 then 1 else if s == 1 then 2 else if s == 2 then 4 else 8

abbrev pub sib_index : Bool → ℕ → ℕ
sib_index x s = if extended (s / 8 % 8) x == 5 then 0 else extended (s / 8 % 8) x

abbrev pub sib_scale : Bool → ℕ → ℕ
sib_scale x s = if extended (s / 8 % 8) x == 5 then 1 else read_scale (s / 64)

abbrev pub sib_based : ℕ → ℕ → Bool
sib_based mode s = not (mode == 0 && s % 8 == 5)

abbrev pub with_displacement : ℕ → ℕ → ℕ → ℕ → Option (ℕ × List ℕ) → Option (ℕ × Address × List ℕ)
with_displacement reg base index scale (some (d, rest)) =
    some (reg, location base index scale d, rest)
with_displacement reg base index scale none = none

abbrev pub read_sib : Bool → Bool → ℕ → List ℕ → Option (ℕ × Address × List ℕ)
read_sib x b m [] = none
read_sib x b m (s ∷ rest) =
    with_displacement (m / 8 % 8) (if sib_based (m / 64) s then extended (s % 8) b else 0)
      (sib_index x s) (sib_scale x s) (read_displacement (m / 64) (sib_based (m / 64) s) rest)

-- The register field, the memory operand and the bytes after it; `x` and `b` are the bits of the prefix.
-- A register operand and an address relative to the instruction are none.
unfoldable pub read_operand : Bool → Bool → List ℕ → Option (ℕ × Address × List ℕ)
unfolding read_displacement
read_operand x b [] = none
read_operand x b (m ∷ rest) =
    if m / 64 == 3 || m / 64 == 0 && m % 8 == 5
    then none
    else if m % 8 == 4
    then read_sib x b m rest
    else with_displacement (m / 8 % 8) (extended (m % 8) b) 0 1
        (read_displacement (m / 64) true rest)

-- The operand with the scale that it has: without an index there is none, and 0 is 1.
abbrev pub normal : Address → Address
normal addr =
    location addr.base addr.index (if addr.index == 0 || addr.scale == 0 then 1 else addr.scale)
      addr.displacement
