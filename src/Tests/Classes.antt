-- ===== src/Tests/Classes.antt =====
-- Classes of small structs: three longs, and an int with a flag.
use lacc.Base.{false, [], ◌∷◌, get_or, ok, ◌≡◌, refl, arith}
use lacc.Types.Defs.{
  CType, basic, bool, int, long, struct, Typetree, Member, blank, get_typetree_handle,
}
use lacc.Types.Query.{size_of, is_flexible}
use lacc.Types.Build.Member.{plain_member}
use lacc.Abi.{
  no_class, integer, memory, no_classes, classify, classify_aggregate, flatten, flatten_members,
  combine_at, combine, merge, merge_loop, has_unaligned_fields,
}
use lacc.Abi.Memory.{classify-memory}
use lacc.Abi.Flag.{flatten-bool_member}

abbrev struct_value : CType
struct_value = let t = basic struct false in record t { ref = 1 }

abbrev long_value : CType
long_value = basic long false

abbrev triple : Typetree
triple =
    let t = blank struct in
    record t {
      size = 24;
      members =
          plain_member (b'a' ∷ []) long_value 0
          ∷ plain_member (b'b' ∷ []) long_value 8
          ∷ plain_member (b'c' ∷ []) long_value 16
          ∷ [];
    }

triple_size : size_of (triple ∷ []) struct_value ≡ ok 24
unfolding size_of get_typetree_handle
triple_size = refl

triple_classes :
    classify (triple ∷ []) struct_value ≡ ok (memory ∷ integer ∷ integer ∷ no_class ∷ [])
unfolding classify classify_aggregate flatten flatten_members combine_at combine merge merge_loop
    has_unaligned_fields size_of is_flexible get_typetree_handle
triple_classes = refl

classify-memory_example : get_or (memory ∷ integer ∷ integer ∷ no_class ∷ []) 0 no_class ≡ memory
classify-memory_example =
    classify-memory (triple ∷ []) struct_value 24 (memory ∷ integer ∷ integer ∷ no_class ∷ []) refl
      triple_size (omega arith) (omega arith) triple_classes

-- `struct { int n; _Bool b; }`
abbrev number : Member
number = plain_member (b'n' ∷ []) (basic int false) 0

abbrev flag : Member
flag = plain_member (b'b' ∷ []) (basic bool false) 4

abbrev flagged : Typetree
flagged = let t = blank struct in record t { size = 8; members = number ∷ flag ∷ [] }

flagged_tree : get_typetree_handle (flagged ∷ []) 1 ≡ ok flagged
unfolding get_typetree_handle
flagged_tree = refl

flatten-bool_member_example : ¬ (flatten 2 (flagged ∷ []) no_classes struct_value 0 ≡ ok no_classes)
flatten-bool_member_example =
    flatten-bool_member 2 (flagged ∷ []) no_classes no_classes struct_value 0 flagged (number ∷ [])
      [] flag refl flagged_tree refl refl
