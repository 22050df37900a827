-- ===== src/Types/Build/Seal/Sealed.antt =====
-- What `type_seal` leaves of a struct or union.
use mathlib.Core.List.{append_assoc, append-nil, reverse-append, reverse-reverse}
use lacc.Base.{
  ℕ, ◌+◌, ◌%◌, ◌^◌, ◌≤◌, ◌<◌, true, false, List, [], ◌∷◌, ◌++◌, reverse, ltb, ◌==◌, if◌then◌else◌,
  All, All-append, All-lookup, get_elem?, some, ok_injective, ok, Returns, ◌≡◌, refl, sym, ◌∙◌,
  arith, Bool-cases, inl, inr,
}
use lacc.Types.Arena.{handle-put_self}
use lacc.Types.Defs.{
  CType, function, code, is_struct_or_union, Member, Typetree, Types, get_typetree_handle,
  put_typetree,
}
use lacc.Types.Query.{type_alignment}
use lacc.Types.Build.Member.{has_name, align_up}
use lacc.Types.Build.Member.Layout.{align_up_lem}
use lacc.Types.Build.Seal.{remove_unnamed, remove_anonymous_fields, type_seal}

-- The members that have a name, in their order.
abbrev pub named : List Member → List Member
named [] = []
named (m ∷ ms) = if has_name m.name then m ∷ named ms else named ms

named-append : (xs ys : List Member) → named (xs ++ ys) ≡ named xs ++ named ys
named-append [] ys = refl
named-append (x ∷ xs) ys = elim (Bool-cases (has_name x.name)) [
  | inl yes_name ↦ rw (yes_name, named-append xs ys)
  | inr no_name ↦ rw (no_name, named-append xs ys)
]

named-reverse :
    (m : Member) (ms : List Member)
    → named (reverse (m ∷ ms)) ≡ named (reverse ms) ++ named (m ∷ [])
named-reverse m ms = rw (reverse-append (m ∷ []) ms) (named-append (reverse ms) (m ∷ []))

-- The type has an alignment, which is at most the bound.
abbrev pub AlignsWithin : Types → ℕ → Member → Type 0
AlignsWithin ts most m = (a : ℕ) × (type_alignment ts m.type ≡ ok a) × (a ≤ most)

All-named_reverse :
    (P : Member → Type 0) (ms : List Member) → All P (named ms) → All P (named (reverse ms))
All-named_reverse P [] h = tt
All-named_reverse P (m ∷ ms) h = elim (Bool-cases (has_name m.name)) [
  | inl yes_name ↦
      let (first_one, rest) = rw yes_name at h in
      rw (named-reverse m ms, yes_name)
        (All-append P (named (reverse ms)) (m ∷ []) (All-named_reverse P ms rest) (first_one, tt))
  | inr no_name ↦
      rw (named-reverse m ms, no_name, append-nil (named (reverse ms)))
        (All-named_reverse P ms (rw no_name at h))
]

-- What the loop hands over, for named members with alignments of at most `align`.
record IsMost (ts : Types) (ms kept : List Member) (most align : ℕ) : Type 0 where
  most' : ℕ
  result : remove_unnamed ts ms kept most ≡ ok (named (reverse ms) ++ kept, most')
  grows : most ≤ most'
  bounded : most' ≤ align
  bounds : All (AlignsWithin ts most') (named ms)

remove_unnamed-IsMost :
    (ts : Types) (ms kept : List Member) (most align : ℕ)
    → All (AlignsWithin ts align) (named ms)
    → most ≤ align
    → IsMost ts ms kept most align
unfolding remove_unnamed
remove_unnamed-IsMost ts [] kept most align all le = record {
  most' = most;
  result = refl;
  grows = omega arith;
  bounded = le;
  bounds = tt;
}
remove_unnamed-IsMost ts (m ∷ ms) kept most align all le = elim (Bool-cases (has_name m.name)) [
  | inr no_name ↦
      let r = remove_unnamed-IsMost ts ms kept most align (rw no_name at all) le in
      record {
        most' = r.most';
        result = rw (named-reverse m ms, no_name, append-nil (named (reverse ms))) r.result;
        grows = r.grows;
        bounded = r.bounded;
        bounds = rw no_name r.bounds;
      }
  | inl yes_name ↦
      let ((a, aligned, within), rest) = rw yes_name at all in
      let larger : ℕ = if ltb most a then a else most in
      let r = remove_unnamed-IsMost ts ms (m ∷ kept) larger align rest (ground arith) in
      let from_most : most ≤ larger = ground arith in
      let from_a : a ≤ larger = ground arith in
      record {
        most' = r.most';
        result =
            rw
              (
                named-reverse m ms,
                yes_name,
                aligned,
                append_assoc (named (reverse ms)) (m ∷ []) kept,
              )
              r.result;
        grows = omega (arith, r.grows, from_most);
        bounded = r.bounded;
        bounds = rw yes_name ((a, aligned, omega (arith, r.grows, from_a)), r.bounds);
      }
]

-- The alignment is the largest of the types of the members: none has a larger one, and one has it.
pub record IsLargest (ts : Types) (ms : List Member) (align : ℕ) : Type 0 where
  pub within : All (AlignsWithin ts align) ms
  pub i : ℕ
  pub widest : Member
  pub there : get_elem? ms i ≡ some widest
  pub attained : type_alignment ts widest.type ≡ ok align

remove_anonymous_fields-IsLargest :
    (ts : Types) (t : Typetree) (align : ℕ)
    → IsLargest ts (named t.members) align
    → remove_anonymous_fields ts t ≡ ok (named t.members, align)
unfolding remove_anonymous_fields
remove_anonymous_fields-IsLargest ts t align largest =
    let ms = t.members in
    let r =
      remove_unnamed-IsMost ts (reverse ms) [] 0 align
        (All-named_reverse (AlignsWithin ts align) ms largest.within) (omega arith) in
    let bounds : All (AlignsWithin ts r.most') (named ms) =
      rw (reverse-reverse ms) at
        (All-named_reverse (AlignsWithin ts r.most') (reverse ms) r.bounds) in
    let (a, aligned, le) =
      All-lookup (AlignsWithin ts r.most') (named ms) largest.i largest.widest bounds
        largest.there in
    let same_a : align ≡ a = ok_injective (sym largest.attained ∙ aligned) in
    let same : r.most' ≡ align = omega (arith, r.bounded, same_a, le) in
    rw (reverse-reverse ms, append-nil (named ms), same) at r.result

-- Let a struct or union be given, the largest alignment of whose named members is the positive
-- `align`, and whose size with `align` does not wrap around. Sealing succeeds: it leaves the named
-- members in their order and makes the size the least multiple of `align` that is not below the size
-- before. Members with no name are dropped, and their alignments do not count.
pub type_seal-aligned :
    (ty : CType) (ts : Types) (t : Typetree) (align : ℕ)
    → get_typetree_handle ts ty.ref ≡ ok t
    → is_struct_or_union ty ≡ true
    → (code t.kind == code function) ≡ false
    → IsLargest ts (named t.members) align
    → 0 < align
    → t.size + align < 2 ^ 64
    → Returns (type_seal ty ts) λ ts'.
      (t' : Typetree) × (get_typetree_handle ts' ty.ref ≡ ok t')
      × (t'.members ≡ named t.members)
      × (t'.size % align ≡ 0)
      × (t.size ≤ t'.size)
      × (t'.size < t.size + align)
unfolding type_seal
type_seal-aligned ty ts t align found is other largest pos room =
    let t' : Typetree = record t { members = named t.members; size = align_up t.size align } in
    let removed = remove_anonymous_fields-IsLargest ts t align largest in
    let (even, above, below) = align_up_lem t.size align pos room in
    (
      put_typetree ts ty.ref t',
      ground arith,
      (t', handle-put_self ts ty.ref t' found, refl, even, above, below),
    )
