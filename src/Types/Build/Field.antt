-- ===== src/Types/Build/Field.antt =====
-- Bit-fields: `backing_type_from_bits`, `pack_field_member`, `reset_field_alignment` and
-- `type_add_field`.
pub mod Packing
pub mod Rounding
use lacc.Base.{
  ℕ, zero, suc, ◌+◌, ◌-◌, ◌*◌, ◌%◌, ◌^◌, Bool, true, false, not, ◌&&◌, ◌||◌, Option, none, some,
  List, [], ◌∷◌, reverse, ltb, leb, ◌==◌, if◌then◌else◌, Run, err, ok, assertion, diagnostic,
  undefined, exhausted, ◌>>=◌, ◌>>◌, guard, u64, Text,
}
use lacc.Types.Defs.{
  CType, basic, char, short, int, long, is_struct, is_union, is_struct_or_union, is_integer,
  is_bool, Member, Typetree, Types, get_typetree_handle, put_typetree,
}
use lacc.Types.Query.{size_of}
use lacc.Types.Build.Member.{add_member, adjust_member_alignment, plain_member, has_name}

unfoldable pub backing_type_from_bits : ℕ → Run CType
backing_type_from_bits n =
    if n == 8
    then ok (basic char false)
    else if n == 16
    then ok (basic short false)
    else if n == 32
    then ok (basic int false)
    else if n == 64
    then ok (basic long false)
    else err assertion

-- The loop that gives the members of a unit, from the last one backwards, a larger backing.
widen_backing : ℕ → ℕ → List Member → List Member
widen_backing offset backing [] = []
widen_backing offset backing (m ∷ ms) =
    if not (m.field_width == 0) && m.offset == offset
    then record m { field_backing = backing } ∷ widen_backing offset backing ms
    else m ∷ ms

-- Packing behind the last member: the member list and the field, if it finds room.
pack_behind : List Member → Member → Option (List Member × Member)
unfolding widen_backing
pack_behind [] field = none
pack_behind (last ∷ ms) field =
    let start = last.field_offset + last.field_width in
    let bits = start + field.field_width in
    if last.field_width == 0
    then none
    else if leb bits last.field_backing
    then some (
      reverse (last ∷ ms),
      record field {
        offset = last.offset;
        field_offset = start;
        field_backing = last.field_backing;
      },
    )
    else if leb bits field.field_backing
    then some (
      reverse (widen_backing last.offset field.field_backing (last ∷ ms)),
      record field { offset = last.offset; field_offset = start },
    )
    else none

unfoldable pub pack_field_member : Typetree → Member → Option (List Member × Member)
unfolding pack_behind
pack_field_member t field = pack_behind (reverse t.members) field

-- The place of a field in a struct.
unfoldable pub place_field : CType → Member → Types → Run (Member × Types)
place_field parent m ts =
    if is_struct parent
    then (do
      t ← get_typetree_handle ts parent.ref
      elim (pack_field_member t m) [
        | some (ms, m') ↦ ok (m', put_typetree ts parent.ref (record t { members = ms }))
        | none ↦ do
          (offset, ts₁) ← adjust_member_alignment parent m.type ts
          ok (record m { field_offset = 0; offset = offset }, ts₁)
      ])
    else ok (m, ts)

-- `type_add_field`, with what it does for a field of width 0.
add_field_with : (CType → CType → Types → Run Types) → CType → Text → CType → ℕ → Types → Run Types
add_field_with reset parent name ty width ts = do
  guard (is_struct_or_union parent) assertion
  guard (is_integer ty) assertion
  n ← size_of ts ty
  guard (not (ltb (n * 8) width || is_bool ty && ltb 1 width)) diagnostic
  guard (not (has_name name && width == 0)) diagnostic
  if is_union parent && not (has_name name) then ok ts else (do
    let plain = plain_member name ty 0
    (m, ts₁) ← place_field parent (record plain { field_width = width; field_backing = n * 8 }) ts
    if width == 0 then reset parent ty ts₁ else (do (_, ts₂) ← add_member parent m ts₁; ok ts₂))

-- The padding that `reset_field_alignment` adds behind a field, as an unnamed field.
pad_unit : (CType → Text → CType → ℕ → Types → Run Types) → CType → Member → ℕ → Types → Run Types
pad_unit add ty m clear_bits ts = if m.field_width == 0 then ok ts else (do
  let bits = m.field_offset + m.field_width
  backing ← backing_type_from_bits m.field_backing
  if leb m.field_backing clear_bits
      then (do
        guard (leb bits m.field_backing) assertion
        if bits == m.field_backing then ok ts else add ty [] backing (m.field_backing - bits) ts)
      else if ltb clear_bits bits
      then if bits % clear_bits == 0 then ok ts else add ty [] backing (bits % clear_bits) ts
      else add ty [] backing (clear_bits - bits) ts)

-- `t->size += t->size % clear_size`, as the source has it.
abbrev pub round_size : ℕ → ℕ → ℕ
round_size size clear =
    if ltb size clear then clear else if size % clear == 0 then size else u64 (size + size % clear)

-- With no member yet there is nothing to do.
reset_with : (CType → Text → CType → ℕ → Types → Run Types) → CType → CType → Types → Run Types
unfolding pad_unit
reset_with add ty clear ts = do
  guard (is_struct ty) assertion
  t ← get_typetree_handle ts ty.ref
  elim (reverse t.members) [
    | [] ↦ ok ts
    | m ∷ ms ↦ do
      clear_size ← size_of ts clear
      ts₁ ← pad_unit add ty m (clear_size * 8) ts
      t₁ ← get_typetree_handle ts₁ ty.ref
      guard (not (clear_size == 0)) undefined
      ok (put_typetree ts₁ ty.ref (record t₁ { size = round_size t₁.size clear_size }))
  ]

-- The two functions call each other: the fuel bounds the calls of `reset_field_alignment`.
unfoldable pub reset_field_alignment : ℕ → CType → CType → Types → Run Types
unfolding add_field_with reset_with
reset_field_alignment zero ty clear ts = err exhausted
reset_field_alignment (suc f) ty clear ts =
    reset_with (add_field_with (reset_field_alignment f)) ty clear ts

-- A field of width 0 resets the alignment; that adds a field, at most one of them of width 0, whose
-- own reset adds none of width 0.
unfoldable pub type_add_field : CType → Text → CType → ℕ → Types → Run Types
unfolding add_field_with
type_add_field = add_field_with (reset_field_alignment 3)
