-- ===== src/Tests/Fields.antt =====
-- Bit-fields: two of them packed in one unit, and the rounding of sizes.
use lacc.Base.{ℕ, ◌↔◌, ◌*◌, ◌%◌, false, none, some, [], ◌∷◌, reverse, ◌≡◌, refl, arith}
use lacc.Types.Defs.{int, struct, basic, Member, Typetree, blank}
use lacc.Types.Build.Field.{pack_field_member, round_size}
use lacc.Types.Build.Field.Packing.{pack_field_member-IsPacked, IsPacked}
use lacc.Types.Build.Field.Rounding.{round_size_iff}

-- A field of 3 bits in a unit of 8 bits, and `int : 7` behind it.
abbrev field : ℕ → ℕ → ℕ → Member
field width offset backing = record {
  name = b'f' ∷ [];
  type = basic int false;
  offset = 0;
  field_width = width;
  field_offset = offset;
  field_backing = backing;
  sym = none;
}

abbrev flags : Typetree
flags = let t = blank struct in record t { members = field 3 0 8 ∷ [] }

flags-IsPacked : IsPacked (reverse flags.members)
flags-IsPacked = (omega arith, tt, tt)

packed : pack_field_member flags (field 7 0 32) ≡ some (field 3 0 32 ∷ [], field 7 3 32)
unfolding pack_field_member
packed = refl

pack_field_member-IsPacked_example : IsPacked (reverse (field 3 0 32 ∷ field 7 3 32 ∷ []))
pack_field_member-IsPacked_example =
    pack_field_member-IsPacked flags (field 3 0 32 ∷ []) (field 7 0 32) (field 7 3 32) (omega arith)
      flags-IsPacked packed

-- A size of 5 with units of 4 bytes.
round_size_iff_example : (round_size 5 4 % 4 ≡ 0) ↔ (2 * (5 % 4) ≡ 4)
round_size_iff_example = round_size_iff 5 4 (omega arith) (omega arith) (omega arith) (omega arith)
