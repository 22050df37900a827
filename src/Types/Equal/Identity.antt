-- ===== src/Types/Equal/Identity.antt =====
-- Which types `type_equal` identifies, and where it does not come to an answer.
use lacc.Base.{
  Option, ℕ, zero, suc, ◌<◌, Bool, true, false, List, [], ◌∷◌, ◌==◌, Text, text_eq_refl, err, ok,
  exhausted, ◌≡◌, ◌≢◌, refl, arith, Bool-cases, inl, inr,
}
use lacc.Types.Defs.{
  TypeKind, struct, CType, basic, blank, Member, Typetree, Types, get_typetree_handle,
}
use lacc.Types.Build.Member.{plain_member}
use lacc.Types.Equal.{type_equal, typetree_equal, members_equal, same_bytes, kind_eq, ◌≐◌}

kind_eq_refl : (k : TypeKind) → kind_eq k k ≡ true
kind_eq_refl k = ground arith

≐_refl : (b : Bool) → (b ≐ b) ≡ true
≐_refl true = refl
≐_refl false = refl

same_number : (n : ℕ) → (n == n) ≡ true
same_number n = ground arith

same_bytes_refl : (t : CType) → same_bytes t t ≡ true
same_bytes_refl t =
    rw
      (
        kind_eq_refl t.kind,
        ≐_refl t.unsigned,
        ≐_refl t.const,
        ≐_refl t.volatile,
        ≐_refl t.restrict,
        ≐_refl t.is_pointer_to,
        ≐_refl t.pointer_const,
        ≐_refl t.pointer_volatile,
        ≐_refl t.pointer_restrict,
        same_number t.ref,
      )
      refl

type_equal_refl : (f : ℕ) (ts : Types) (t : CType) → type_equal (suc f) ts t t ≡ ok true
unfolding type_equal
type_equal_refl f ts t = rw (same_bytes_refl t)

members_equal_refl :
    (f : ℕ) (ts : Types) (k : TypeKind) (ms : List Member)
    → members_equal (type_equal (suc f) ts) k ms ms ≡ ok true
unfolding members_equal
members_equal_refl f ts k [] = refl
members_equal_refl f ts k (m ∷ ms) =
    ground (arith, type_equal_refl f ts m.type, text_eq_refl m.name, members_equal_refl f ts k ms)

typetree_equal_refl :
    (f : ℕ) (ts : Types) (t : Typetree) → typetree_equal (type_equal (suc f) ts) t t ≡ ok true
unfolding typetree_equal
typetree_equal_refl f ts t =
    ground (arith, kind_eq_refl t.kind, members_equal_refl f ts t.kind t.members)

-- `type_equal` identifies two types that agree in kind, in signedness and in their reference,
-- which leads to a tree if it is not 0. They may differ in their qualifiers, and in that one of
-- them is a pointer and the other is not.
pub type_equal-same_tree :
    (f : ℕ) (ts : Types) (a b : CType) (t : Typetree)
    → a.kind ≡ b.kind
    → a.unsigned ≡ b.unsigned
    → a.ref ≡ b.ref
    → (0 < b.ref → get_typetree_handle ts b.ref ≡ ok t)
    → type_equal (suc (suc f)) ts a b ≡ ok true
unfolding type_equal
type_equal-same_tree f ts a b t kinds signs refs found =
    let k : kind_eq a.kind b.kind ≡ true = rw kinds (kind_eq_refl b.kind) in
    let u : (a.unsigned ≐ b.unsigned) ≡ true = rw signs (≐_refl b.unsigned) in
    let r : ((a.ref == 0) ≐ (b.ref == 0)) ≡ true = rw refs (≐_refl (b.ref == 0)) in
    elim (Bool-cases (same_bytes a b)) [
      | inl same ↦ rw same
      | inr differ ↦ elim (Bool-cases (b.ref == 0)) [
        | inl none_there ↦
            let z : (a.ref == 0) ≡ true = rw refs none_there in rw (differ, k, u, z, none_there)
        | inr there ↦
            let z : (a.ref == 0) ≡ false = rw refs there in
            let tree = found (ground arith) in
            let tree_a : get_typetree_handle ts a.ref ≡ ok t = rw refs tree in
            rw (differ, k, u, z, there, tree_a, tree) (typetree_equal_refl f ts t)
      ]
    ]

-- The struct with the tree number `r`, or a pointer to it.
abbrev pub self_value : Bool → ℕ → CType
self_value p r = let plain = basic struct false in record plain { is_pointer_to = p; ref = r }

-- The tree number `r` of a struct with a tag or none, whose one member, `name`, is a pointer to the
-- struct itself.
abbrev pub self_tree : Option ℕ → Text → ℕ → Typetree
self_tree tag name r =
    let fresh = blank struct in
    record fresh { size = 8; members = plain_member name (self_value true r) 0 ∷ []; tag = tag }

-- The comparison of two structs with different numbers, each with any tag and with one member that is
-- a pointer to the struct itself, never ends: no fuel is enough, whether the structs or the pointers
-- are compared.
pub type_equal-self_reference :
    (f : ℕ) (ts : Types) (p : Bool) (i j : ℕ) (tag_i tag_j : Option ℕ) (m n : Text)
    → i ≢ j
    → 0 < i
    → 0 < j
    → get_typetree_handle ts i ≡ ok (self_tree tag_i m i)
    → get_typetree_handle ts j ≡ ok (self_tree tag_j n j)
    → type_equal f ts (self_value p i) (self_value p j) ≡ err exhausted
unfolding type_equal typetree_equal members_equal
type_equal-self_reference zero ts p i j tag_i tag_j m n ne ip jp hi hj = refl
type_equal-self_reference (suc f) ts p i j tag_i tag_j m n ne ip jp hi hj =
    let apart : (i == j) ≡ false = ground arith in
    let iz : (i == 0) ≡ false = ground arith in
    let jz : (j == 0) ≡ false = ground arith in
    let inner = type_equal-self_reference f ts true i j tag_i tag_j m n ne ip jp hi hj in
    rw (≐_refl p, apart, iz, jz, hi, hj, inner) refl
