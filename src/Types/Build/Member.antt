-- ===== src/Types/Build/Member.antt =====
-- Members that are no bit-fields: `find_type_member`, `add_member`, `adjust_member_alignment`,
-- `type_add_member` and `type_add_anonymous_member`.
pub mod Layout
use lacc.Base.{
  ℕ, zero, suc, ◌+◌, ◌-◌, ◌*◌, ◌/◌, ◌%◌, ◌^◌, Bool, true, false, not, ◌&&◌, ◌||◌, Option, none,
  some, List, [], ◌∷◌, ◌++◌, reverse, ltb, leb, ◌==◌, if◌then◌else◌, Run, err, ok, assertion,
  diagnostic, undefined, ◌>>=◌, ◌>>◌, guard, length, u64, Text, text_eq,
}
use lacc.Types.Defs.{
  CType, is_function, is_array, is_struct, is_union, is_struct_or_union, Member, Typetree, Types,
  get_typetree_handle, put_typetree, is_type_placeholder,
}
use lacc.Types.Query.{size_of, type_alignment, is_flexible, find_name}
use lacc.Types.Build.Create.{long_max}

unfoldable pub find_type_member : Types → CType → Text → Run (Option (ℕ × Member))
unfolding find_name
find_type_member ts ty name = do
  guard (is_struct_or_union ty || is_function ty) assertion
  t ← get_typetree_handle ts ty.ref
  ok (find_name name t.members 0)

abbrev pub dots : Text
dots = b'.' ∷ b'.' ∷ b'.' ∷ []

abbrev pub has_name : Text → Bool
has_name name = ltb 0 (length name)

-- A member of size 0 is a flexible array, the only one of its kind.
unfoldable pub flexible_after_size : Types → Typetree → Member → Run Bool
flexible_after_size ts t m = do
  n ← size_of ts m.type
  if n == 0
      then (do guard (is_array m.type && not t.flexible) diagnostic; ok true)
      else ok t.flexible

-- What `add_member` does to a struct or union once the member is in the list.
unfoldable pub grow_aggregate : CType → Member → Types → Run Types
unfolding flexible_after_size
grow_aggregate parent m ts = do
  t ← get_typetree_handle ts parent.ref
  flexible₁ ← flexible_after_size ts t m
  inner ← is_flexible ts m.type
  guard (not (inner && is_struct parent)) diagnostic
  n ← size_of ts m.type
  guard (not (ltb (u64 (long_max + 2 ^ 64 - m.offset)) n)) diagnostic
  let end = u64 (m.offset + n)
  ok (
      put_typetree ts parent.ref
        (record t { flexible = flexible₁ || inner; size = if ltb t.size end then end else t.size }))

-- The result is the index of the new member, none for the dots of a variadic function.
unfoldable pub add_member : CType → Member → Types → Run (Option ℕ × Types)
add_member parent m ts = do
  guard (is_struct_or_union parent || is_function parent) assertion
  t ← get_typetree_handle ts parent.ref
  if text_eq m.name dots
      then (do
        guard (not t.vararg) assertion
        guard (is_function parent) assertion
        guard (not t.incomplete) assertion
        ok (none, put_typetree ts parent.ref (record t { vararg = true })))
      else (do
        same ← find_type_member ts parent m.name
        let taken : Bool = elim same [ none ↦ false | some s ↦ true ]
        guard (not (has_name m.name && taken)) diagnostic
        let index = length t.members
        let t₁ = record t { members = t.members ++ m ∷ [] }
        let ts₁ = put_typetree ts parent.ref t₁
        if is_struct_or_union parent
            then (do ts₂ ← grow_aggregate parent m ts₁; ok (some index, ts₂))
            else let t₂ = record t₁ { incomplete = is_type_placeholder m.type } in
              ok (some index, put_typetree ts parent.ref t₂))

-- The `while` loop, from the last member backwards: members at `offset` give `bits` of their
-- backing. (`-` stops at 0, which no field reaches: the bits given are above all fields.)
unfoldable pub shrink_backing : ℕ → ℕ → List Member → List Member
shrink_backing offset bits [] = []
shrink_backing offset bits (m ∷ ms) =
    if m.offset == offset
    then record m { field_backing = m.field_backing - bits } ∷ shrink_backing offset bits ms
    else m ∷ ms

-- The bytes of the backing of the last field that no field uses are given back. The difference of
-- the shorts is never negative where fields lie inside their backing; the model stops if it is.
unfoldable pub release_last : Typetree → List Member → Run Typetree
unfolding shrink_backing
release_last t [] = ok t
release_last t (m ∷ ms) = if m.field_backing == 0 then ok t else (do
  guard (leb (m.field_offset + m.field_width) m.field_backing) undefined
  let bytes = (m.field_backing - (m.field_offset + m.field_width)) / 8
  if bytes == 0
      then ok t
      else ok (record t {
        size = u64 (t.size + 2 ^ 64 - bytes);
        members = reverse (shrink_backing m.offset (bytes * 8) (m ∷ ms));
      }))

unfoldable pub align_up : ℕ → ℕ → ℕ
align_up size align = if size % align == 0 then size else u64 (size + (align - size % align))

-- The offset for the next member, after padding.
unfoldable pub adjust_member_alignment : CType → CType → Types → Run (ℕ × Types)
unfolding release_last
adjust_member_alignment parent ty ts = do
  guard (is_struct_or_union parent) assertion
  if is_struct parent
      then (do
        t ← get_typetree_handle ts parent.ref
        t₁ ← release_last t (reverse t.members)
        align ← type_alignment (put_typetree ts parent.ref t₁) ty
        guard (not (align == 0)) undefined
        let size = align_up t₁.size align
        ok (size, put_typetree ts parent.ref (record t₁ { size = size })))
      else ok (0, ts)

-- `struct member m = {0}`
abbrev pub plain_member : Text → CType → ℕ → Member
plain_member name ty offset = record {
  name = name;
  type = ty;
  offset = offset;
  field_width = 0;
  field_offset = 0;
  field_backing = 0;
  sym = none;
}

unfoldable pub type_add_member : CType → Text → CType → Types → Run (Option ℕ × Types)
type_add_member parent name ty ts = do
  guard (is_struct_or_union parent || is_function parent) assertion
  if is_function parent then add_member parent (plain_member name ty 0) ts else (do
    (offset, ts₁) ← adjust_member_alignment parent ty ts
    add_member parent (plain_member name ty offset) ts₁)

-- The three loops of `type_add_anonymous_member`.
add_shifted : CType → ℕ → List Member → Types → Run Types
add_shifted parent offset [] ts = ok ts
add_shifted parent offset (m ∷ ms) ts = do
  (_, ts₁) ← add_member parent (record m { offset = u64 (m.offset + offset) }) ts
  add_shifted parent offset ms ts₁

add_each : CType → List Member → Types → Run Types
add_each parent [] ts = ok ts
add_each parent (m ∷ ms) ts = do (_, ts₁) ← add_member parent m ts; add_each parent ms ts₁

add_anew : CType → List Member → Types → Run Types
add_anew parent [] ts = ok ts
add_anew parent (m ∷ ms) ts = do
  (_, ts₁) ← type_add_member parent m.name m.type ts
  add_anew parent ms ts₁

unfoldable pub type_add_anonymous_member : CType → CType → Types → Run Types
unfolding add_shifted add_each add_anew
type_add_anonymous_member parent ty ts = do
  guard (is_struct_or_union parent) assertion
  guard (is_struct_or_union ty) assertion
  t ← get_typetree_handle ts ty.ref
  if is_struct parent && is_union ty
      then (do
        (offset, ts₁) ← adjust_member_alignment parent ty ts
        add_shifted parent offset t.members ts₁)
      else if is_union parent && is_struct ty
      then add_each parent t.members ts
      else add_anew parent t.members ts
