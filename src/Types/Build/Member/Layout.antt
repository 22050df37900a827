-- ===== src/Types/Build/Member/Layout.antt =====
-- Where `type_add_member` puts a member of a struct.
use native.Mathlib.Nat.{mod_self, mod-lt, mod-add-mod}
use lacc.Base.{
  ℕ, ◌+◌, ◌-◌, ◌%◌, ◌^◌, ◌≤◌, ◌<◌, Bool, true, false, ◌||◌, Option, List, [], ◌∷◌, ◌++◌, reverse,
  ◌==◌, Run, err, ok, u64, Text, text_eq, ◌≡◌, refl, sym, arith, Bool-cases, inl, inr,
}
use lacc.Types.Arena.{put-same, handle-put_self, length-put}
use lacc.Types.Defs.{CType, is_struct, Member, Typetree, Types, get_typetree_handle, put_typetree}
use lacc.Types.Query.{size_of, type_alignment, is_flexible}
use lacc.Types.Query.Frame.{put-KeepsSizes, size_of-frame}
use lacc.Types.Build.Create.{long_max}
use lacc.Types.Build.Member.{
  add_member, adjust_member_alignment, release_last, align_up, type_add_member, grow_aggregate,
  flexible_after_size, plain_member, dots,
}

fill_mod : (size align : ℕ) → 0 < align → (size + (align - size % align)) % align ≡ 0
fill_mod size align pos =
    let small = mod-lt size pos in
    let whole : size % align + (align - size % align) ≡ align = omega (arith, small) in
    rw (sym (mod-add-mod size align (align - size % align)), whole) (mod_self align)

-- The least multiple of the alignment that is not below the size.
pub align_up_lem :
    (size align : ℕ)
    → 0 < align
    → size + align < 2 ^ 64
    → (align_up size align % align ≡ 0)
      × (size ≤ align_up size align)
      × (align_up size align < size + align)
unfolding align_up
align_up_lem size align pos fits =
    let small = mod-lt size pos in
    elim (Bool-cases (size % align == 0)) [
      | inl whole ↦ rw whole (ground arith, omega arith, omega arith)
      | inr rest ↦
          let value : u64 (size + (align - size % align)) ≡ size + (align - size % align) =
            ground arith in
          rw (rest, value) (fill_mod size align pos, ground arith, ground arith)
    ]

abbrev value : Run Bool → Bool
value (ok b) = b
value (err e) = false

-- The tree once the size reaches over the new member.
abbrev enlarged : Types → Typetree → Member → ℕ → Typetree
enlarged ts t m n = record t {
  flexible = value (flexible_after_size ts t m) || value (is_flexible ts m.type);
  size = m.offset + n;
}

-- `grow_aggregate` leaves the members alone, and the size reaches over the new one.
grow_aggregate-eq-ok :
    (parent : CType) (m : Member) (ts ts' : Types) (t : Typetree) (n : ℕ)
    → get_typetree_handle ts parent.ref ≡ ok t
    → size_of ts m.type ≡ ok n
    → m.offset ≤ long_max
    → m.offset ≡ t.size
    → grow_aggregate parent m ts ≡ ok ts'
    → ts' ≡ put_typetree ts parent.ref (enlarged ts t m n)
unfolding grow_aggregate
grow_aggregate-eq-ok parent m ts ts' t n found sized small at h = ground arith

-- The last member, if there is one, is no bit-field: it has no backing.
abbrev pub HasNoUnit : List Member → Type 0
HasNoUnit [] = Unit
HasNoUnit (m ∷ ms) = m.field_backing ≡ 0

release_last-closed : (t : Typetree) (ms : List Member) → HasNoUnit ms → release_last t ms ≡ ok t
unfolding release_last
release_last-closed t [] h = refl
release_last-closed t (m ∷ ms) h = ground arith

-- The tree with another size.
abbrev pub sized : Typetree → ℕ → Typetree
sized t n = record t { size = n }

adjust-closed :
    (parent ty : CType) (ts : Types) (t : Typetree) (a : ℕ)
    → is_struct parent ≡ true
    → get_typetree_handle ts parent.ref ≡ ok t
    → HasNoUnit (reverse t.members)
    → type_alignment ts ty ≡ ok a
    → 0 < a
    → adjust_member_alignment parent ty ts
      ≡ ok (align_up t.size a, put_typetree ts parent.ref (sized t (align_up t.size a)))
unfolding adjust_member_alignment
adjust-closed parent ty ts t a is found closed aligned pos =
    ground (arith, release_last-closed t (reverse t.members) closed, put-same ts parent.ref found)

add_member-struct :
    (parent : CType) (m : Member) (ts ts' : Types) (t : Typetree) (i : Option ℕ)
    → is_struct parent ≡ true
    → get_typetree_handle ts parent.ref ≡ ok t
    → text_eq m.name dots ≡ false
    → add_member parent m ts ≡ ok (i, ts')
    → grow_aggregate parent m
        (put_typetree ts parent.ref (record t { members = t.members ++ m ∷ [] }))
      ≡ ok ts'
unfolding add_member
add_member-struct parent m ts ts' t i struct found plain h = ground arith

-- Once the offset is known, the member is appended there and the size reaches over it.
add_member-enlarges :
    (parent : CType) (m : Member) (ts ts' : Types) (t : Typetree) (i : Option ℕ) (n : ℕ)
    → is_struct parent ≡ true
    → get_typetree_handle ts parent.ref ≡ ok t
    → text_eq m.name dots ≡ false
    → size_of ts m.type ≡ ok n
    → m.offset ≤ long_max
    → m.offset ≡ t.size
    → add_member parent m ts ≡ ok (i, ts')
    → (t' : Typetree) × (get_typetree_handle ts' parent.ref ≡ ok t')
      × (t'.members ≡ t.members ++ m ∷ [])
      × (t'.size ≡ m.offset + n)
add_member-enlarges parent m ts ts' t i n is found plain measured small at h =
    let t₁ : Typetree = record t { members = t.members ++ m ∷ [] } in
    let ts₁ = put_typetree ts parent.ref t₁ in
    let found₁ = handle-put_self ts parent.ref t₁ found in
    let measured₁ =
      size_of-frame ts ts₁ m.type n (omega (arith, length-put ts parent.ref t₁))
        (put-KeepsSizes ts parent.ref t t₁ found refl refl) measured in
    let grown = add_member-struct parent m ts ts' t i is found plain h in
    let same = grow_aggregate-eq-ok parent m ts₁ ts' t₁ n found₁ measured₁ small at grown in
    (
      enlarged ts₁ t₁ m n,
      rw same (handle-put_self ts₁ parent.ref (enlarged ts₁ t₁ m n) found₁),
      refl,
      refl,
    )

type_add_member-struct :
    (parent ty : CType) (name : Text) (ts ts' ts₁ : Types) (i : Option ℕ) (off : ℕ)
    → is_struct parent ≡ true
    → adjust_member_alignment parent ty ts ≡ ok (off, ts₁)
    → type_add_member parent name ty ts ≡ ok (i, ts')
    → add_member parent (plain_member name ty off) ts₁ ≡ ok (i, ts')
unfolding type_add_member
type_add_member-struct parent ty name ts ts' ts₁ i off is adjusted h = ground arith

-- Let a struct be given that is empty or whose last member is no bit-field (its field_backing is 0),
-- and a member, not named by dots, whose type has a positive alignment `a` and, whatever the struct's
-- size is, the size `n`; the size of the struct and `a` add up to at most LONG_MAX. If
-- `type_add_member` succeeds, the member stands last in the struct, at the least multiple of `a` that
-- is not below the size before, and the new size is the end of the member.
pub type_add_member-layout :
    (parent ty : CType) (name : Text) (ts ts' : Types) (t : Typetree) (i : Option ℕ) (a n : ℕ)
    → is_struct parent ≡ true
    → get_typetree_handle ts parent.ref ≡ ok t
    → HasNoUnit (reverse t.members)
    → text_eq name dots ≡ false
    → type_alignment ts ty ≡ ok a
    → 0 < a
    → t.size + a ≤ long_max
    → ((s : ℕ) → size_of (put_typetree ts parent.ref (sized t s)) ty ≡ ok n)
    → type_add_member parent name ty ts ≡ ok (i, ts')
    → (off : ℕ) × (t' : Typetree) × (get_typetree_handle ts' parent.ref ≡ ok t')
      × (t'.members ≡ t.members ++ plain_member name ty off ∷ [])
      × (off % a ≡ 0)
      × (t.size ≤ off)
      × (off < t.size + a)
      × (t'.size ≡ off + n)
type_add_member-layout parent ty name ts ts' t i a n is found closed plain aligned pos room free h =
    let off = align_up t.size a in
    let (even, above, below) = align_up_lem t.size a pos (omega arith) in
    let adjusted = adjust-closed parent ty ts t a is found closed aligned pos in
    let ts₁ = put_typetree ts parent.ref (sized t off) in
    let added = type_add_member-struct parent ty name ts ts' ts₁ i off is adjusted h in
    let found₁ = handle-put_self ts parent.ref (sized t off) found in
    let (t', found', members, size) =
      add_member-enlarges parent (plain_member name ty off) ts₁ ts' (sized t off) i n is found₁
        plain (free off) (omega arith) refl added in
    (off, t', found', members, even, above, below, size)
