-- ===== src/Abi.antt =====
-- src/backend/x86_64/abi.c: the classes by which parameters are passed, and the alignment of
-- symbols.
pub mod Low
pub mod Memory
pub mod Flag
use lacc.Base.{
  ℕ, zero, suc, ◌+◌, ◌*◌, ◌/◌, ◌%◌, Bool, true, false, not, ◌&&◌, ◌||◌, List, [], ◌∷◌, ltb, leb,
  ◌==◌, if◌then◌else◌, get_or, set, Run, err, ok, assertion, undefined, exhausted, ◌>>=◌, ◌>>◌,
  guard, length, take, u64,
}
use lacc.Types.Defs.{
  TypeKind, void, bool, char, short, int, long, float, double, ldouble, pointer, function, array,
  struct, union, placeholder, CType, type_of, has_kind, is_function, is_integer, is_pointer,
  is_array, is_void, is_struct_or_union, Member, Types, get_typetree_handle,
}
use lacc.Types.Query.{size_of, type_alignment, type_next, is_flexible}

-- The constants `PC_*`.
pub data Class : Type 0 where
  no_class integer sse sseup x87 x87up complex_x87 memory : Class

abbrev pub class_eq : Class → Class → Bool
class_eq no_class no_class = true
class_eq integer integer = true
class_eq sse sse = true
class_eq sseup sseup = true
class_eq x87 x87 = true
class_eq x87up x87up = true
class_eq complex_x87 complex_x87 = true
class_eq memory memory = true
class_eq _ _ = false

-- `struct param_class`: four eightbytes.
abbrev pub ParamClass : Type 0
ParamClass = List Class

abbrev pub no_classes : ParamClass
no_classes = no_class ∷ no_class ∷ no_class ∷ no_class ∷ []

has_unaligned : Types → List Member → Run Bool
has_unaligned ts [] = ok false
has_unaligned ts (mem ∷ ms) = do
  n ← size_of ts mem.type
  guard (not (n == 0)) assertion
  if not (mem.offset % n == 0) then ok true else has_unaligned ts ms

unfoldable pub has_unaligned_fields : Types → CType → Run Bool
unfolding has_unaligned
has_unaligned_fields ts ty = do
  guard (is_struct_or_union ty) assertion
  t ← get_typetree_handle ts ty.ref
  has_unaligned ts t.members

unfoldable pub combine : Class → Class → Class
combine a b =
    if class_eq a b
    then a
    else if class_eq a no_class
    then b
    else if class_eq b no_class
    then a
    else if class_eq a memory || class_eq b memory
    then memory
    else if class_eq a integer || class_eq b integer
    then integer
    else if class_eq a x87 || class_eq b x87
    then memory
    else if class_eq a x87up || class_eq b x87up
    then memory
    else sse

-- `pc.eightbyte[i] = combine(pc.eightbyte[i], c)`
unfoldable pub combine_at : ParamClass → ℕ → Class → Run ParamClass
combine_at pc i c =
    if ltb i (length pc) then ok (set pc i (combine (get_or pc i no_class) c)) else err undefined

-- The loop over the members, and the loop over the elements of an array.
unfoldable pub flatten_members :
    (ParamClass → CType → ℕ → Run ParamClass) → ParamClass → List Member → ℕ → Run ParamClass
flatten_members rec pc [] offset = ok pc
flatten_members rec pc (mb ∷ ms) offset = do
  pc₁ ← rec pc mb.type (mb.offset + offset)
  flatten_members rec pc₁ ms offset

unfoldable pub flatten_elements :
    (ParamClass → CType → ℕ → Run ParamClass) → ParamClass → CType → ℕ → ℕ → ℕ → Run ParamClass
flatten_elements rec pc next size zero at = ok pc
flatten_elements rec pc next size (suc count) at = do
  pc₁ ← rec pc next at
  flatten_elements rec pc₁ next size count (at + size)

abbrev pub flatten_tree :
    Types → (ParamClass → CType → ℕ → Run ParamClass) → ParamClass → CType → ℕ → Run ParamClass
flatten_tree ts rec pc ty offset = do
  t ← get_typetree_handle ts ty.ref
  flatten_members rec pc t.members offset

abbrev pub flatten_array :
    Types → (ParamClass → CType → ℕ → Run ParamClass) → ParamClass → CType → ℕ → Run ParamClass
flatten_array ts rec pc ty offset = do
  next ← type_next ts ty
  total ← size_of ts ty
  size ← size_of ts next
  guard (not (size == 0)) undefined
  flatten_elements rec pc next size (total / size) offset

abbrev pub flatten_case :
    TypeKind
    → Types
    → (ParamClass → CType → ℕ → Run ParamClass)
    → ParamClass
    → CType
    → ℕ
    → Run ParamClass
flatten_case float ts rec pc ty offset = combine_at pc (offset / 8) sse
flatten_case double ts rec pc ty offset = combine_at pc (offset / 8) sse
flatten_case ldouble ts rec pc ty offset = do
  pc₁ ← combine_at pc (offset / 8) x87
  if ltb (offset / 8) 3 then combine_at pc₁ (suc (offset / 8)) x87up else ok pc₁
flatten_case char ts rec pc ty offset = combine_at pc (offset / 8) integer
flatten_case int ts rec pc ty offset = combine_at pc (offset / 8) integer
flatten_case short ts rec pc ty offset = combine_at pc (offset / 8) integer
flatten_case long ts rec pc ty offset = combine_at pc (offset / 8) integer
flatten_case pointer ts rec pc ty offset = combine_at pc (offset / 8) integer
flatten_case struct ts rec pc ty offset = flatten_tree ts rec pc ty offset
flatten_case union ts rec pc ty offset = flatten_tree ts rec pc ty offset
flatten_case array ts rec pc ty offset = flatten_array ts rec pc ty offset
flatten_case k ts rec pc ty offset = err assertion

unfoldable pub flatten : ℕ → Types → ParamClass → CType → ℕ → Run ParamClass
unfolding flatten_members flatten_elements combine_at
flatten zero ts pc ty offset = err exhausted
flatten (suc f) ts pc ty offset = flatten_case (type_of ty) ts (flatten f ts) pc ty offset

-- The loop of `merge`, from the class before the first one that is left.
unfoldable pub merge_loop : Bool → Class → ParamClass → Bool × Bool → Bool × Bool
merge_loop start before [] (up, mem) = (up, mem)
merge_loop start before (c ∷ cs) (up, mem) = merge_loop false c cs (
  up || class_eq c sseup,
  mem || class_eq c memory || class_eq c x87up && (start || not (class_eq before x87)),
)

unfoldable pub merge : ParamClass → ℕ → ParamClass
unfolding merge_loop
merge pc n =
    let flags = merge_loop true no_class (take n pc) (false, false) in
    let first = get_or pc 0 no_class in
    if flags.1 || ltb 2 n && (not (class_eq first sse) || not flags.0) then set pc 0 memory else pc

abbrev pub eightbytes : ℕ → ℕ
eightbytes size = u64 (size + 7) / 8

-- A struct or union: `classify` where the kind is none of the scalar ones.
unfoldable pub classify_aggregate : Types → CType → Run ParamClass
unfolding has_unaligned_fields flatten merge
classify_aggregate ts ty = do
  size ← size_of ts ty
  flexible ← is_flexible ts ty
  if leb (eightbytes size) 4 && is_struct_or_union ty && not flexible
      then (do
        unaligned ← has_unaligned_fields ts ty
        if unaligned then ok (set no_classes 0 memory) else (do
          pc ← flatten (suc (length ts)) ts no_classes ty 0
          ok (merge pc (eightbytes size))))
      else ok (if is_void ty then no_classes else set no_classes 0 memory)

unfoldable pub classify : Types → CType → Run ParamClass
unfolding classify_aggregate
classify ts ty = do
  guard (not (is_function ty)) assertion
  if is_integer ty || is_pointer ty
      then ok (set no_classes 0 integer)
      else if has_kind double ty || has_kind float ty
      then ok (set no_classes 0 sse)
      else if has_kind ldouble ty
      then ok (x87 ∷ x87up ∷ no_class ∷ no_class ∷ [])
      else classify_aggregate ts ty

-- The alignment of a symbol of type `ty`.
unfoldable pub sym_alignment : Types → CType → Run ℕ
sym_alignment ts ty = do
  align ← type_alignment ts ty
  ok (if is_array ty && ltb align 16 then 16 else align)
