-- ===== src/Types/Build/Field/Packing.antt =====
-- Packing keeps the bit-fields of a unit apart and inside their backing.
use mathlib.Core.List.{reverse-append, reverse-reverse}
use lacc.Base.{
  ℕ, ◌+◌, ◌≤◌, ◌<◌, true, not, ◌&&◌, Option, none, some, List, [], ◌∷◌, ◌++◌, reverse, leb, ◌==◌,
  ◌≡◌, refl, arith, Bool-cases, inl, inr,
}
use lacc.Types.Defs.{Member, Typetree}
use lacc.Types.Build.Field.{pack_field_member, pack_behind, widen_backing}

-- A member lies inside its backing. (For a member that is no field, all three numbers are 0.)
abbrev pub Fits : Member → Type 0
Fits m = m.field_offset + m.field_width ≤ m.field_backing

-- Of two fields in one unit the later begins behind the earlier, and they share the backing.
abbrev pub Abuts : Member → Member → Type 0
Abuts m before =
    0 < m.field_width
    → 0 < before.field_width
    → before.offset ≡ m.offset
    → (before.field_offset + before.field_width ≤ m.field_offset)
      × (before.field_backing ≡ m.field_backing)

abbrev pub Follows : Member → List Member → Type 0
Follows m [] = Unit
Follows m (before ∷ ms) = Abuts m before

-- Of a list of members from the last one backwards.
abbrev pub IsPacked : List Member → Type 0
IsPacked [] = Unit
IsPacked (m ∷ ms) = Fits m × Follows m ms × IsPacked ms

-- The first member ends in front of bit `limit`, if it is a field at the offset.
abbrev EndsBefore : ℕ → ℕ → List Member → Type 0
EndsBefore offset limit [] = Unit
EndsBefore offset limit (m ∷ ms) =
    0 < m.field_width → m.offset ≡ offset → m.field_offset + m.field_width ≤ limit

widen_head :
    (offset limit : ℕ) (m : Member) (ms : List Member)
    → 0 < m.field_width
    → m.offset ≡ offset
    → m.field_offset + m.field_width ≤ limit
    → Follows m ms
    → Follows (record m { field_backing = limit }) (widen_backing offset limit ms)
unfolding widen_backing
widen_head offset limit m [] pos same fits follows = tt
widen_head offset limit m (b ∷ ms) pos same fits follows = ground (arith, follows pos)

next-EndsBefore :
    (offset limit : ℕ) (m : Member) (ms : List Member)
    → 0 < m.field_width
    → m.offset ≡ offset
    → m.field_offset + m.field_width ≤ limit
    → Follows m ms
    → EndsBefore offset limit ms
next-EndsBefore offset limit m [] pos same fits follows = tt
next-EndsBefore offset limit m (b ∷ ms) pos same fits follows =
    λ bpos bsame. omega (arith, (follows pos bpos (omega arith)).0)

widen-IsPacked :
    (offset limit : ℕ) (ms : List Member)
    → IsPacked ms
    → EndsBefore offset limit ms
    → IsPacked (widen_backing offset limit ms)
unfolding widen_backing
widen-IsPacked offset limit [] packed ends = tt
widen-IsPacked offset limit (m ∷ ms) packed ends =
    elim (Bool-cases (not (m.field_width == 0) && m.offset == offset)) [
      | inr other ↦ rw other packed
      | inl inside ↦
          let pos : 0 < m.field_width = ground arith in
          let same : m.offset ≡ offset = ground arith in
          let fits : m.field_offset + m.field_width ≤ limit = ends pos same in
          rw inside (
            fits,
            widen_head offset limit m ms pos same fits packed.1,
            widen-IsPacked offset limit ms packed.2
                (next-EndsBefore offset limit m ms pos same fits packed.1),
          )
    ]

abbrev Packs : Option (List Member × Member) → Type 0
Packs none = Unit
Packs (some (ms, field)) = IsPacked (field ∷ reverse ms)

-- The two ways in which a field joins the unit of the last member.
pack_behind-Packs :
    (ms : List Member) (field : Member)
    → 0 < field.field_width
    → IsPacked ms
    → Packs (pack_behind ms field)
unfolding pack_behind
pack_behind-Packs [] field pos packed = tt
pack_behind-Packs (last ∷ ms) field pos packed =
    let start = last.field_offset + last.field_width in
    let bits = start + field.field_width in
    elim (Bool-cases (last.field_width == 0)) [
      | inl plain ↦ rw plain tt
      | inr unit ↦ elim (Bool-cases (leb bits last.field_backing)) [
        | inl room ↦
            rw (unit, room, reverse-reverse (last ∷ ms))
              (ground arith, (λ p q e. ground arith), packed)
        | inr full ↦ elim (Bool-cases (leb bits field.field_backing)) [
          | inr none_left ↦ rw (unit, full, none_left) tt
          | inl wider ↦
              let at_last : (last.offset == last.offset) ≡ true = ground arith in
              let limit = field.field_backing in
              let wide = record last { field_backing = limit } in
              rw
                (
                  unit,
                  full,
                  wider,
                  at_last,
                  reverse-reverse (wide ∷ widen_backing last.offset limit ms),
                )
                (
                  ground arith,
                  (λ p q e. ground arith),
                  (
                    ground arith,
                    widen_head last.offset limit last ms (ground arith) refl (ground arith)
                        packed.1,
                    widen-IsPacked last.offset limit ms packed.2 (
                        next-EndsBefore last.offset limit last ms (ground arith) refl (ground arith)
                          packed.1),
                  ),
                )
        ]
      ]
    ]

-- Where `pack_field_member` finds room, the new member list with the field behind it is packed
-- again: every field lies inside its backing, and neighbours in a unit do not overlap and share
-- the backing.
pub pack_field_member-IsPacked :
    (t : Typetree) (ms : List Member) (field field' : Member)
    → 0 < field.field_width
    → IsPacked (reverse t.members)
    → pack_field_member t field ≡ some (ms, field')
    → IsPacked (reverse (ms ++ field' ∷ []))
unfolding pack_field_member
pack_field_member-IsPacked t ms field field' pos packed h =
    rw (reverse-append ms (field' ∷ []))
      (rw h at (pack_behind-Packs (reverse t.members) field pos packed))
