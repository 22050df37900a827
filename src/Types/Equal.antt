-- ===== src/Types/Equal.antt =====
-- src/parser/typetree.c: `type_equal`, `is_compatible` and their helpers.
pub mod Identity
use lacc.Base.{
  ℕ, zero, suc, ◌+◌, Bool, true, false, not, ◌&&◌, ◌||◌, List, [], ◌∷◌, ◌==◌, if◌then◌else◌,
  text_eq, Run, err, ok, assertion, exhausted, ◌>>=◌, ◌>>◌, guard, length,
}
use lacc.Types.Defs.{
  TypeKind, bool, char, short, int, long, float, double, ldouble, pointer, function, array, CType,
  code, type_of, is_const, is_volatile, is_restrict, Member, Typetree, Types, get_typetree_handle,
  remove_qualifiers,
}
use lacc.Types.Query.{type_next, type_array_len, is_complete}

infix 50 ◌≐◌
abbrev pub ◌≐◌ : Bool → Bool → Bool
true ≐ b = b
false ≐ b = not b

abbrev pub kind_eq : TypeKind → TypeKind → Bool
kind_eq j k = code j == code k

-- `!memcmp(&a, &b, sizeof(a))`
abbrev pub same_bytes : CType → CType → Bool
same_bytes a b =
    kind_eq a.kind b.kind
    && a.unsigned ≐ b.unsigned
    && a.const ≐ b.const
    && a.volatile ≐ b.volatile
    && a.restrict ≐ b.restrict
    && a.is_pointer_to ≐ b.is_pointer_to
    && a.pointer_const ≐ b.pointer_const
    && a.pointer_volatile ≐ b.pointer_volatile
    && a.pointer_restrict ≐ b.pointer_restrict
    && a.ref == b.ref

-- The loop over the members of two trees of the kind `k`.
members_equal : (CType → CType → Run Bool) → TypeKind → List Member → List Member → Run Bool
members_equal rec k [] [] = ok true
members_equal rec k [] (m ∷ ms) = ok false
members_equal rec k (m ∷ ms) [] = ok false
members_equal rec k (ma ∷ as_) (mb ∷ bs) = do
  let rest = members_equal rec k as_ bs
  same ← rec ma.type mb.type
  if not same then ok false else if kind_eq k function then rest else (do
    guard (ma.offset == mb.offset) assertion
    if text_eq ma.name mb.name then rest else ok false)

typetree_equal : (CType → CType → Run Bool) → Typetree → Typetree → Run Bool
unfolding members_equal
typetree_equal rec a b =
    if kind_eq a.kind b.kind
      && a.size == b.size
      && a.unsigned ≐ b.unsigned
      && a.vararg ≐ b.vararg
      && a.flexible ≐ b.flexible
      && a.vla ≐ b.vla
      && a.incomplete ≐ b.incomplete
      && length a.members == length b.members
    then members_equal rec a.kind a.members b.members
    else ok false

-- Two different trees that refer to themselves make the recursion of the source run without end:
-- the fuel counts the calls.
unfoldable pub type_equal : ℕ → Types → CType → CType → Run Bool
unfolding typetree_equal
type_equal zero ts a b = err exhausted
type_equal (suc f) ts a b =
    let inner = type_equal f ts in
    if same_bytes a b
    then ok true
    else if not (kind_eq a.kind b.kind && a.unsigned ≐ b.unsigned)
    then ok false
    else if not ((a.ref == 0) ≐ (b.ref == 0))
    then ok false
    else if not (a.ref == 0) && not (b.ref == 0)
    then (do
      ta ← get_typetree_handle ts a.ref
      tb ← get_typetree_handle ts b.ref
      typetree_equal inner ta tb)
    else ok true

abbrev compatible_case :
    TypeKind → (CType → CType → Run Bool) → ℕ → Types → CType → CType → Run Bool
compatible_case bool rec f ts l r = ok true
compatible_case char rec f ts l r = ok true
compatible_case short rec f ts l r = ok true
compatible_case int rec f ts l r = ok true
compatible_case long rec f ts l r = ok true
compatible_case float rec f ts l r = ok true
compatible_case double rec f ts l r = ok true
compatible_case ldouble rec f ts l r = ok true
compatible_case pointer rec f ts l r = do a ← type_next ts l; b ← type_next ts r; rec a b
compatible_case array rec f ts l r = do
  m ← type_array_len ts l
  n ← type_array_len ts r
  if m == 0 || n == 0 || m == n
      then (do a ← type_next ts l; b ← type_next ts r; rec a b)
      else ok false
compatible_case function rec f ts l r = do
  a ← type_next ts l
  b ← type_next ts r
  same ← type_equal f ts a b
  if not same then ok false else (do
    cl ← is_complete ts l
    cr ← is_complete ts r
    if not cl || not cr then ok true else type_equal f ts l r)
compatible_case k rec f ts l r = type_equal f ts l r

unfoldable pub is_compatible : ℕ → Types → CType → CType → Run Bool
is_compatible zero ts l r = err exhausted
is_compatible (suc f) ts l r =
    let inner = is_compatible f ts in
    if not (
      kind_eq (type_of l) (type_of r)
      && is_const l ≐ is_const r
      && is_volatile l ≐ is_volatile r
      && is_restrict l ≐ is_restrict r)
    then ok false
    else compatible_case (type_of l) inner f ts l r

unfoldable pub is_compatible_unqualified : ℕ → Types → CType → CType → Run Bool
unfolding is_compatible
is_compatible_unqualified f ts l r = is_compatible f ts (remove_qualifiers l) (remove_qualifiers r)
