-- ===== src/Types/Query/Size.antt =====
-- `size_of` ends, with a value, on every type of a list in which an array refers to earlier trees.
use lacc.Base.{
  ℕ, zero, suc, ◌*◌, ◌≤◌, ◌<◌, Bool, true, false, some, List, [], ◌∷◌, length, get_elem?, Run, ok,
  ◌≡◌, refl, arith, u64,
}
use lacc.Types.Defs.{
  TypeKind, bool, char, short, int, long, float, double, ldouble, pointer, array, struct, union,
  CType, type_of, Typetree, Types, get_typetree_handle,
}
use lacc.Types.Query.{size_of, size_fuel, size_case}

-- The kinds whose values refer to a tree that holds their size.
abbrev pub has_tree : TypeKind → Bool
has_tree array = true
has_tree struct = true
has_tree union = true
has_tree _ = false

-- A reference that is needed is one of the first `n` trees.
abbrev pub IsBelow : ℕ → CType → Type 0
IsBelow n ty = has_tree (type_of ty) ≡ true → (0 < ty.ref) × (ty.ref ≤ n)

-- The base of every tree is older than the tree.
abbrev pub IsOrdered : Types → Type 0
IsOrdered ts = (i : ℕ) (t : Typetree) → get_elem? ts i ≡ some t → IsBelow i t.next

pub get_elem?-total {ℓ} :
    {A : Type ℓ} (xs : List A) (i : ℕ) → i < length xs → (a : A) × (get_elem? xs i ≡ some a)
get_elem?-total [] i h = elim h [ ]
get_elem?-total (x ∷ xs) zero h = (x, refl)
get_elem?-total (x ∷ xs) (suc i) h = get_elem?-total xs i (omega arith)

-- The tree that a needed reference leads to.
pub tree_below :
    (ts : Types) (n r : ℕ)
    → n ≤ length ts
    → 0 < r
    → r ≤ n
    → (i : ℕ) × (t : Typetree) × (i < n)
      × (get_elem? ts i ≡ some t)
      × (get_typetree_handle ts r ≡ ok t)
unfolding get_typetree_handle
tree_below ts n zero le pos h = absurd (omega arith)
tree_below ts n (suc i) le pos h =
    let (t, e) = get_elem?-total ts i (omega arith) in (i, t, omega arith, e, ground arith)

-- One level of the recursion, where the inner one succeeds at the base of the tree.
size_case-total :
    (k : TypeKind) (ts : Types) (rec : CType → Run ℕ) (ty : CType)
    → (has_tree k ≡ true
        → (t : Typetree) × (get_typetree_handle ts ty.ref ≡ ok t) × (v : ℕ) × (rec t.next ≡ ok v))
    → (v : ℕ) × (size_case k ts rec ty ≡ ok v)
size_case-total array ts rec ty h = let (t, e, v, r) = h refl in (u64 (t.size * v), ground arith)
size_case-total struct ts rec ty h = let (t, e, v, r) = h refl in (t.size, ground arith)
size_case-total union ts rec ty h = let (t, e, v, r) = h refl in (t.size, ground arith)
size_case-total bool ts rec ty h = (1, refl)
size_case-total char ts rec ty h = (1, refl)
size_case-total short ts rec ty h = (2, refl)
size_case-total int ts rec ty h = (4, refl)
size_case-total float ts rec ty h = (4, refl)
size_case-total long ts rec ty h = (8, refl)
size_case-total double ts rec ty h = (8, refl)
size_case-total pointer ts rec ty h = (8, refl)
size_case-total ldouble ts rec ty h = (16, refl)
size_case-total _ ts rec ty h = (0, refl)

size_fuel-total :
    (f : ℕ) (ts : Types) (n : ℕ) (ty : CType)
    → IsOrdered ts
    → n ≤ length ts
    → n < f
    → IsBelow n ty
    → (v : ℕ) × (size_fuel f ts ty ≡ ok v)
unfolding size_fuel
size_fuel-total zero ts n ty order le lt below = absurd (omega arith)
size_fuel-total (suc f) ts n ty order le lt below =
    size_case-total (type_of ty) ts (size_fuel f ts) ty λ needs.
      let (i, t, lower, e, found) = tree_below ts n ty.ref le (below needs).0 (below needs).1 in
      let (v, r) = size_fuel-total f ts i t.next order (omega arith) (omega arith) (order i t e) in
      (t, found, v, r)

-- In a list in which the base of every tree refers to an earlier tree, `size_of` returns a size
-- for every type whose reference, if its kind needs one, is in the list.
pub size_of-total :
    (ts : Types) (ty : CType)
    → IsOrdered ts
    → IsBelow (length ts) ty
    → (v : ℕ) × (size_of ts ty ≡ ok v)
unfolding size_of
size_of-total ts ty order below =
    size_fuel-total (suc (length ts)) ts (length ts) ty order (omega arith) (omega arith) below
