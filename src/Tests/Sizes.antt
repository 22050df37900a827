-- ===== src/Tests/Sizes.antt =====
-- Sizes and layouts of small types: an array of three ints, and structs of a char and an int.
use lacc.Base.{
  ℕ, zero, suc, ap, ◌+◌, ◌*◌, ◌%◌, ◌≤◌, ◌<◌, Bool, false, Option, none, some, [], ◌∷◌, ◌++◌, length,
  ok, Returns, u64, ◌≡◌, refl, arith,
}
use lacc.Types.Defs.{
  CType, type_of, basic, char, int, array, struct, Typetree, Types, blank, get_typetree_handle,
  put_typetree,
}
use lacc.Types.Query.{size_of, type_alignment, type_deref, is_flexible}
use lacc.Types.Query.Size.{size_of-total, IsOrdered, IsBelow, has_tree}
use lacc.Types.Build.Create.{type_create_pointer, type_create_array}
use lacc.Types.Build.Create.Pointer.{type_deref-type_create_pointer, IsClean}
use lacc.Types.Build.Create.Order.{size_of-type_create_array}
use lacc.Types.Build.Member.{plain_member, type_add_member}
use lacc.Types.Build.Member.Layout.{type_add_member-layout}
use lacc.Types.Build.Seal.{type_seal}
use lacc.Types.Build.Seal.Sealed.{type_seal-aligned, IsLargest}

abbrev char_type : CType
char_type = basic char false

abbrev int_type : CType
int_type = basic int false

abbrev ints_tree : Typetree
ints_tree = let t = blank array in record t { size = 3; next = int_type }

abbrev ints : Types
ints = ints_tree ∷ []

abbrev ints_type : CType
ints_type = let t = basic array false in record t { ref = 1 }

abbrev base_has_tree : Option Typetree → Bool
base_has_tree none = false
base_has_tree (some t) = has_tree (type_of t.next)

ints-IsOrdered : IsOrdered ints
ints-IsOrdered zero t e h = absurd (cc (ap base_has_tree e, h))
ints-IsOrdered (suc i) t e h = cc

ints-IsBelow : IsBelow 1 ints_type
ints-IsBelow h = (omega arith, omega arith)

size_of-total_example : (v : ℕ) × (size_of ints ints_type ≡ ok v)
size_of-total_example = size_of-total ints ints_type ints-IsOrdered ints-IsBelow

int-IsClean : IsClean int_type
int-IsClean h = (refl, refl, refl)

type_deref-type_create_pointer_example :
    Returns (type_create_pointer int_type ints) λ r. type_deref r.1 r.0 ≡ ok int_type
type_deref-type_create_pointer_example =
    type_deref-type_create_pointer int_type ints (omega arith) int-IsClean

-- Two rows of three ints.
size_ints : size_of ints ints_type ≡ ok 12
unfolding size_of get_typetree_handle
size_ints = refl

size_of-type_create_array_example :
    Returns
      (type_create_array ints_type 2 ints)
      λ r. IsOrdered r.1 × IsBelow (length r.1) r.0 × (size_of r.1 r.0 ≡ ok (u64 (2 * 12)))
size_of-type_create_array_example =
    size_of-type_create_array ints_type 2 ints 12 ints-IsOrdered ints-IsBelow (omega arith)
      size_ints (ground arith)

-- A struct with a char in it, to which an int is added.
abbrev letter : Typetree
letter =
    let t = blank struct in
    record t { size = 1; members = plain_member (b'c' ∷ []) char_type 0 ∷ [] }

abbrev both : Typetree
both = record letter {
  size = 8;
  members = plain_member (b'c' ∷ []) char_type 0 ∷ plain_member (b'n' ∷ []) int_type 4 ∷ [];
}

abbrev struct_type : CType
struct_type = let t = basic struct false in record t { ref = 1 }

found : get_typetree_handle (letter ∷ []) 1 ≡ ok letter
unfolding get_typetree_handle
found = refl

alignment_int : type_alignment (letter ∷ []) int_type ≡ ok 4
unfolding type_alignment size_of
alignment_int = refl

size_int :
    (s : ℕ) → size_of (put_typetree (letter ∷ []) 1 (record letter { size = s })) int_type ≡ ok 4
unfolding size_of
size_int s = refl

appended : type_add_member struct_type (b'n' ∷ []) int_type (letter ∷ []) ≡ ok (some 1, both ∷ [])
unfolding type_add_member lacc.Types.Build.Member.add_member
    lacc.Types.Build.Member.adjust_member_alignment lacc.Types.Build.Member.release_last
    lacc.Types.Build.Member.align_up lacc.Types.Build.Member.grow_aggregate
    lacc.Types.Build.Member.flexible_after_size get_typetree_handle put_typetree size_of
    type_alignment is_flexible lacc.Types.Build.Member.find_type_member
appended = refl

type_add_member-layout_example :
    (off : ℕ) × (t' : Typetree) × (get_typetree_handle (both ∷ []) 1 ≡ ok t')
    × (t'.members ≡ letter.members ++ plain_member (b'n' ∷ []) int_type off ∷ [])
    × (off % 4 ≡ 0)
    × (1 ≤ off)
    × (off < 1 + 4)
    × (t'.size ≡ off + 4)
type_add_member-layout_example =
    type_add_member-layout struct_type int_type (b'n' ∷ []) (letter ∷ []) (both ∷ []) letter
      (some 1) 4 4 refl found refl refl alignment_int (omega arith) (ground arith) size_int appended

-- The struct `{ int n; char c; }` is sealed.
abbrev unsealed : Typetree
unsealed =
    let t = blank struct in
    record t {
      size = 5;
      members = plain_member (b'n' ∷ []) int_type 0 ∷ plain_member (b'c' ∷ []) char_type 4 ∷ [];
    }

unsealed_tree : get_typetree_handle (unsealed ∷ []) 1 ≡ ok unsealed
unfolding get_typetree_handle
unsealed_tree = refl

unsealed-IsLargest : IsLargest (unsealed ∷ []) unsealed.members 4
unfolding type_alignment size_of
unsealed-IsLargest = record {
  within = ((4, refl, omega arith), ((1, refl, omega arith), tt));
  i = 0;
  widest = plain_member (b'n' ∷ []) int_type 0;
  there = refl;
  attained = refl;
}

type_seal-aligned_example : Returns (type_seal struct_type (unsealed ∷ [])) λ ts'.
    (t' : Typetree) × (get_typetree_handle ts' 1 ≡ ok t')
    × (t'.members ≡ unsealed.members)
    × (t'.size % 4 ≡ 0)
    × (5 ≤ t'.size)
    × (t'.size < 5 + 4)
type_seal-aligned_example =
    type_seal-aligned struct_type (unsealed ∷ []) unsealed 4 unsealed_tree refl refl
      unsealed-IsLargest (omega arith) (omega arith)
