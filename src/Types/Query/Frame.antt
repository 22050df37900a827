-- ===== src/Types/Query/Frame.antt =====
-- What `size_of` reads: it does not depend on the members of a tree, nor on what is added to the
-- list.
use lacc.Base.{ℕ, zero, suc, ◌*◌, ◌≤◌, ◌<◌, ◌++◌, length, Run, ok, ◌≡◌, refl, arith, u64, >>=-eq-ok}
use lacc.Types.Defs.{
  TypeKind, array, struct, union, CType, type_of, Typetree, Types, get_typetree_handle,
  put_typetree,
}
use native.Mathlib.Decide.{ℕ_discrete}
use lacc.Types.Arena.{handle-put_self, handle-put_ne, handle-append}
use lacc.Types.Query.{size_of, size_fuel, size_case}

-- Every tree of the one list stands in the other, with the same size and the same base.
abbrev pub KeepsSizes : Types → Types → Type 0
KeepsSizes ts ts' =
    (r : ℕ) (t : Typetree)
    → get_typetree_handle ts r ≡ ok t
    → (t' : Typetree) × (get_typetree_handle ts' r ≡ ok t')
      × (t'.size ≡ t.size)
      × (t'.next ≡ t.next)

size_case-frame :
    (k : TypeKind) (ts ts' : Types) (rec rec' : CType → Run ℕ) (ty : CType) (v : ℕ)
    → KeepsSizes ts ts'
    → ((x : CType) (w : ℕ) → rec x ≡ ok w → rec' x ≡ ok w)
    → size_case k ts rec ty ≡ ok v
    → size_case k ts' rec' ty ≡ ok v
size_case-frame array ts ts' rec rec' ty v keep inner h =
    let (t, e, g) = >>=-eq-ok (get_typetree_handle ts ty.ref) _ h in
    let (n, en, gn) = >>=-eq-ok (rec t.next) _ g in
    let (t', e', s, b) = keep ty.ref t e in rw (e', b, inner t.next n en, s) gn
size_case-frame struct ts ts' rec rec' ty v keep inner h =
    let (t, e, g) = >>=-eq-ok (get_typetree_handle ts ty.ref) _ h in
    let (t', e', s, b) = keep ty.ref t e in rw (e', s) g
size_case-frame union ts ts' rec rec' ty v keep inner h =
    let (t, e, g) = >>=-eq-ok (get_typetree_handle ts ty.ref) _ h in
    let (t', e', s, b) = keep ty.ref t e in rw (e', s) g
size_case-frame _ ts ts' rec rec' ty v keep inner h = h

size_fuel-frame :
    (f g : ℕ) (ts ts' : Types) (ty : CType) (v : ℕ)
    → f ≤ g
    → KeepsSizes ts ts'
    → size_fuel f ts ty ≡ ok v
    → size_fuel g ts' ty ≡ ok v
unfolding size_fuel
size_fuel-frame zero g ts ts' ty v le keep h = cc
size_fuel-frame (suc f) zero ts ts' ty v le keep h = absurd (omega arith)
size_fuel-frame (suc f) (suc g) ts ts' ty v le keep h =
    size_case-frame (type_of ty) ts ts' (size_fuel f ts) (size_fuel g ts') ty v keep
      (λ x w. size_fuel-frame f g ts ts' x w (omega arith) keep) h

-- A list that keeps the sizes, and is no shorter, gives every type its size.
pub size_of-frame :
    (ts ts' : Types) (ty : CType) (v : ℕ)
    → length ts ≤ length ts'
    → KeepsSizes ts ts'
    → size_of ts ty ≡ ok v
    → size_of ts' ty ≡ ok v
unfolding size_of
size_of-frame ts ts' ty v le keep =
    size_fuel-frame (suc (length ts)) (suc (length ts')) ts ts' ty v (omega arith) keep

-- A tree that is put back with its size and its base.
pub put-KeepsSizes :
    (ts : Types) (r : ℕ) (t t' : Typetree)
    → get_typetree_handle ts r ≡ ok t
    → t'.size ≡ t.size
    → t'.next ≡ t.next
    → KeepsSizes ts (put_typetree ts r t')
put-KeepsSizes ts r t t' e s b q u h = elim (ℕ_discrete r q) [
  | yes same ↦
      let at : get_typetree_handle ts r ≡ ok u = rw same h in
      (t', rw (← same) (handle-put_self ts r t' e), cc (s, e, at), cc (b, e, at))
  | no other ↦ (u, rw (handle-put_ne ts r q t' other) h, refl, refl)
]

pub append-KeepsSizes : (ts us : Types) → KeepsSizes ts (ts ++ us)
append-KeepsSizes ts us r t h = (t, handle-append ts us r h, refl, refl)

-- The size of an array over a type of a shorter list.
pub size_of-array :
    (ts ts' : Types) (ty : CType) (t : Typetree) (n : ℕ)
    → type_of ty ≡ array
    → length ts < length ts'
    → KeepsSizes ts ts'
    → get_typetree_handle ts' ty.ref ≡ ok t
    → size_of ts t.next ≡ ok n
    → size_of ts' ty ≡ ok (u64 (t.size * n))
unfolding size_of size_fuel
size_of-array ts ts' ty t n kind lt keep found inner =
    let deep =
      size_fuel-frame (suc (length ts)) (length ts') ts ts' t.next n (omega arith) keep inner in
    rw (kind, found, deep)
