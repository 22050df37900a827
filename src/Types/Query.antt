-- ===== src/Types/Query.antt =====
-- src/parser/typetree.c: the functions that read a type. A function that follows references
-- recursively takes fuel, and the fuel of its entry point is one more than the number of trees.
pub mod Size
pub mod Frame
use lacc.Base.{
  ℕ, zero, suc, ◌*◌, Bool, true, false, not, ◌||◌, Option, none, some, List, [], ◌∷◌, ltb, ◌==◌,
  if◌then◌else◌, get_elem?, Text, text_eq, Run, err, ok, assertion, exhausted, demand, ◌>>=◌, ◌>>◌,
  guard, length, u64,
}
use lacc.Types.Defs.{
  TypeKind, bool, char, short, int, long, float, double, ldouble, pointer, function, array, struct,
  union, CType, type_of, is_pointer, is_function, is_array, is_struct_or_union, Member, Types,
  get_typetree_handle, get_type_handle, remove_qualifiers,
}

abbrev size_case : TypeKind → Types → (CType → Run ℕ) → CType → Run ℕ
size_case bool ts rec ty = ok 1
size_case char ts rec ty = ok 1
size_case short ts rec ty = ok 2
size_case int ts rec ty = ok 4
size_case float ts rec ty = ok 4
size_case long ts rec ty = ok 8
size_case double ts rec ty = ok 8
size_case pointer ts rec ty = ok 8
size_case ldouble ts rec ty = ok 16
size_case struct ts rec ty = do t ← get_typetree_handle ts ty.ref; ok t.size
size_case union ts rec ty = do t ← get_typetree_handle ts ty.ref; ok t.size
size_case array ts rec ty = do
  t ← get_typetree_handle ts ty.ref
  n ← rec t.next
  ok (u64 (t.size * n))
size_case k ts rec ty = ok 0

size_fuel : ℕ → Types → CType → Run ℕ
size_fuel zero ts ty = err exhausted
size_fuel (suc f) ts ty = size_case (type_of ty) ts (size_fuel f ts) ty

unfoldable pub size_of : Types → CType → Run ℕ
unfolding size_fuel
size_of ts ty = size_fuel (suc (length ts)) ts ty

unfoldable pub nmembers : Types → CType → Run ℕ
nmembers ts ty = do t ← get_typetree_handle ts ty.ref; ok (length t.members)

unfoldable pub get_member : Types → CType → ℕ → Run Member
get_member ts ty n = do t ← get_typetree_handle ts ty.ref; demand (get_elem? t.members n) assertion

unfoldable pub type_deref : Types → CType → Run CType
type_deref ts ty =
    if is_pointer ty
    then if ty.is_pointer_to
      then (let bare = remove_qualifiers ty in ok (record bare { is_pointer_to = false }))
      else get_type_handle ts ty.ref
    else err assertion

unfoldable pub type_next : Types → CType → Run CType
unfolding type_deref
type_next ts ty =
    if is_pointer ty
    then type_deref ts ty
    else if is_function ty || is_array ty
    then (do t ← get_typetree_handle ts ty.ref; ok t.next)
    else err assertion

-- The loop over the members: the largest alignment so far.
max_alignment : (CType → Run ℕ) → List Member → ℕ → Run ℕ
max_alignment rec [] m = ok m
max_alignment rec (mb ∷ ms) m = do d ← rec mb.type; max_alignment rec ms (if ltb m d then d else m)

alignment_members : Types → (CType → Run ℕ) → CType → Run ℕ
unfolding max_alignment
alignment_members ts rec ty = do
  t ← get_typetree_handle ts ty.ref
  m ← max_alignment rec t.members 0
  guard (not (m == 0)) assertion
  ok m

abbrev alignment_case : TypeKind → Types → (CType → Run ℕ) → CType → Run ℕ
alignment_case array ts rec ty = do n ← type_next ts ty; rec n
alignment_case struct ts rec ty = alignment_members ts rec ty
alignment_case union ts rec ty = alignment_members ts rec ty
alignment_case function ts rec ty = err assertion
alignment_case k ts rec ty = size_of ts ty

alignment_fuel : ℕ → Types → CType → Run ℕ
unfolding alignment_members
alignment_fuel zero ts ty = err exhausted
alignment_fuel (suc f) ts ty = alignment_case (type_of ty) ts (alignment_fuel f ts) ty

unfoldable pub type_alignment : Types → CType → Run ℕ
unfolding alignment_fuel
type_alignment ts ty = alignment_fuel (suc (length ts)) ts ty

unfoldable pub is_vararg : Types → CType → Run Bool
is_vararg ts ty = do
  guard (is_function ty) assertion
  t ← get_typetree_handle ts ty.ref
  ok t.vararg

-- `t->is_vla || is_vla(t->next)`
vla_step : Types → (CType → Run Bool) → CType → Run Bool
vla_step ts rec ty =
    if is_array ty
    then (do t ← get_typetree_handle ts ty.ref; if t.vla then ok true else rec t.next)
    else ok false

vla_fuel : ℕ → Types → CType → Run Bool
unfolding vla_step
vla_fuel zero ts ty = err exhausted
vla_fuel (suc f) ts ty = vla_step ts (vla_fuel f ts) ty

unfoldable pub is_vla : Types → CType → Run Bool
unfolding vla_fuel
is_vla ts ty = vla_fuel (suc (length ts)) ts ty

unfoldable pub is_flexible : Types → CType → Run Bool
is_flexible ts ty =
    if is_struct_or_union ty
    then (do t ← get_typetree_handle ts ty.ref; ok t.flexible)
    else ok false

abbrev variably_case : TypeKind → Types → (CType → Run Bool) → CType → Run Bool
variably_case pointer ts rec ty = do n ← type_next ts ty; rec n
variably_case array ts rec ty = is_vla ts ty
variably_case k ts rec ty = ok false

variably_fuel : ℕ → Types → CType → Run Bool
variably_fuel zero ts ty = err exhausted
variably_fuel (suc f) ts ty = variably_case (type_of ty) ts (variably_fuel f ts) ty

-- A chain of pointers that the list holds, with the two that one value can hold.
unfoldable pub is_variably_modified : Types → CType → Run Bool
unfolding variably_fuel
is_variably_modified ts ty = variably_fuel (suc (suc (length ts))) ts ty

abbrev complete_case : TypeKind → Types → CType → Run Bool
complete_case array ts ty = do t ← get_typetree_handle ts ty.ref; ok (not t.incomplete)
complete_case function ts ty = do t ← get_typetree_handle ts ty.ref; ok (not t.incomplete)
complete_case k ts ty = ok true

unfoldable pub is_complete : Types → CType → Run Bool
is_complete ts ty = complete_case (type_of ty) ts ty

unfoldable pub type_array_len : Types → CType → Run ℕ
type_array_len ts ty = do
  guard (is_array ty) assertion
  t ← get_typetree_handle ts ty.ref
  ok t.size

unfoldable pub type_vla_length : Types → CType → Run (Option ℕ)
unfolding is_vla
type_vla_length ts ty = do
  v ← is_vla ts ty
  guard v assertion
  t ← get_typetree_handle ts ty.ref
  ok t.vlen

-- The first member of the name, with its index.
unfoldable pub find_name : Text → List Member → ℕ → Option (ℕ × Member)
find_name name [] i = none
find_name name (m ∷ ms) i = if text_eq name m.name then some (i, m) else find_name name ms (suc i)
