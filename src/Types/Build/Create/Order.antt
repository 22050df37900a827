-- ===== src/Types/Build/Create/Order.antt =====
-- The constructors of types keep the list ordered.
use lacc.Base.{
  ℕ, zero, suc, ◌*◌, ◌≤◌, ◌<◌, false, some, [], ◌∷◌, ◌++◌, length, get_elem?, set, length-append,
  length-set, ok, Returns, ◌≡◌, ◌≢◌, refl, ◌⊎◌, arith, inl, inr, u64, get_elem?-append_end,
  get_elem?-lt, ◌∙◌,
}
use lacc.Types.Defs.{
  CType, Typetree, Types, array, blank, basic, type_create, put_typetree, get_typetree_handle,
}
use lacc.Types.Query.{size_of}
use lacc.Types.Arena.{handle-put_self, handle-put_ne, handle-append, handle-eq-ok}
use lacc.Types.Query.Frame.{KeepsSizes, size_of-array}
use lacc.Types.Query.Size.{IsBelow, IsOrdered}
use lacc.Types.Build.Create.{type_create_array, long_max}

-- A list that grew by a tree.
abbrev grown : Types → Typetree → Typetree → Types
grown ts a b = set (ts ++ a ∷ []) (length ts) b

grown-lookup :
    (ts : Types) (a b t : Typetree) (i : ℕ)
    → get_elem? (grown ts a b) i ≡ some t
    → (get_elem? ts i ≡ some t) ⊎ ((i ≡ length ts) × (b ≡ t))
grown-lookup [] a b t zero h = inr (refl, ground arith)
grown-lookup [] a b t (suc i) h = cc
grown-lookup (x ∷ xs) a b t zero h = inl h
grown-lookup (x ∷ xs) a b t (suc i) h = elim (grown-lookup xs a b t i h) [
  | inl old ↦ inl old
  | inr (e, same) ↦ inr (omega arith, same)
]

grown-length : (ts : Types) (a b : Typetree) → length (grown ts a b) ≡ suc (length ts)
grown-length ts a b =
    omega (arith, length-set {0} (ts ++ a ∷ []) (length ts) b, length-append {0} ts (a ∷ []))

grown-IsOrdered :
    (ts : Types) (a b : Typetree)
    → IsOrdered ts
    → IsBelow (length ts) b.next
    → IsOrdered (grown ts a b)
grown-IsOrdered ts a b order below i t h = elim (grown-lookup ts a b t i h) [
  | inl old ↦ order i t old
  | inr (e, same) ↦ rw (e, ← same) below
]

abbrev array_tree : CType → ℕ → Typetree
array_tree next count = let fresh = blank array in record fresh { size = count; next = next }

abbrev array_value : Types → CType
array_value ts = let plain = basic array false in record plain { ref = suc (length ts) }

handle-zero : (ts : Types) {t : Typetree} → get_typetree_handle ts 0 ≢ ok t
unfolding get_typetree_handle
handle-zero ts h = cc

handle-append_end :
    (ts : Types) (a : Typetree) → get_typetree_handle (ts ++ a ∷ []) (suc (length ts)) ≡ ok a
unfolding get_typetree_handle
handle-append_end ts a = rw (get_elem?-append_end ts a)

grown-KeepsSizes : (ts : Types) (a b : Typetree) → KeepsSizes ts (grown ts a b)
unfolding put_typetree
grown-KeepsSizes ts a b zero t h = absurd (handle-zero ts h)
grown-KeepsSizes ts a b (suc i) t h =
    let inside = get_elem?-lt ts i (handle-eq-ok ts i h) in
    (
      t,
      handle-put_ne (ts ++ a ∷ []) (suc (length ts)) (suc i) b (omega arith)
          ∙ handle-append ts (a ∷ []) (suc i) h,
      refl,
      refl,
    )

grown-found :
    (ts : Types) (a b : Typetree) → get_typetree_handle (grown ts a b) (suc (length ts)) ≡ ok b
unfolding put_typetree
grown-found ts a b = handle-put_self (ts ++ a ∷ []) (suc (length ts)) b (handle-append_end ts a)

run_create_array :
    (next : CType) (count : ℕ) (ts : Types) (n : ℕ)
    → length ts < 32767
    → size_of ts next ≡ ok n
    → u64 (count * n) ≤ long_max
    → type_create_array next count ts
      ≡ ok (array_value ts, grown ts (blank array) (array_tree next count))
unfolding type_create_array type_create get_typetree_handle put_typetree
run_create_array next count ts n room sized fits =
    ground (arith, get_elem?-append_end ts (blank array))

-- For an element type of size `n` in an ordered list that has room, and a product `count * n`
-- modulo 2 ^ 64 not above LONG_MAX, the array type is created, the list stays ordered, and
-- `size_of` gives that product.
pub size_of-type_create_array :
    (next : CType) (count : ℕ) (ts : Types) (n : ℕ)
    → IsOrdered ts
    → IsBelow (length ts) next
    → length ts < 32767
    → size_of ts next ≡ ok n
    → u64 (count * n) ≤ long_max
    → Returns
        (type_create_array next count ts)
        λ r. IsOrdered r.1 × IsBelow (length r.1) r.0 × (size_of r.1 r.0 ≡ ok (u64 (count * n)))
size_of-type_create_array next count ts n order below room sized fits =
    let ts' = grown ts (blank array) (array_tree next count) in
    let longer = grown-length ts (blank array) (array_tree next count) in
    (
      (array_value ts, ts'),
      run_create_array next count ts n room sized fits,
      (
        grown-IsOrdered ts (blank array) (array_tree next count) order below,
        (λ needs. (omega arith, omega (arith, longer))),
        size_of-array ts ts' (array_value ts) (array_tree next count) n refl (omega (arith, longer))
            (grown-KeepsSizes ts (blank array) (array_tree next count))
            (grown-found ts (blank array) (array_tree next count)) sized,
      ),
    )
