-- ===== src/Abi/Low.antt =====
-- `flatten` leaves four classes, and never the upper half of a vector.
use lacc.Base.{
  ℕ, zero, suc, ◌+◌, ◌/◌, false, not, List, [], ◌∷◌, ltb, ◌==◌, if◌then◌else◌, get_or, set, length,
  length-set, All, Run, ok, undefined, >>=-eq-ok, guard, ◌≡◌, refl, ◌∙◌, arith, Bool-cases, inl,
  inr,
}
use lacc.Types.Defs.{
  TypeKind, char, short, int, long, float, double, ldouble, pointer, array, struct, union, CType,
  type_of, Member, Types, get_typetree_handle,
}
use lacc.Types.Query.{size_of, type_next}
use lacc.Abi.{
  Class, no_class, integer, sse, sseup, x87, x87up, class_eq, ParamClass, combine, combine_at,
  flatten, flatten_members, flatten_elements, flatten_case, flatten_tree, flatten_array,
}

-- No class is the upper half of a vector.
abbrev pub IsLow : Class → Type 0
IsLow c = class_eq c sseup ≡ false

abbrev pub IsFourLow : ParamClass → Type 0
IsFourLow pc = (length pc ≡ 4) × All IsLow pc

combine-IsLow : (a b : Class) → IsLow a → IsLow b → IsLow (combine a b)
unfolding combine
combine-IsLow a b la lb = ground arith

get_or-IsLow : (pc : ParamClass) (i : ℕ) → All IsLow pc → IsLow (get_or pc i no_class)
get_or-IsLow [] i low = refl
get_or-IsLow (c ∷ pc) zero low = low.0
get_or-IsLow (c ∷ pc) (suc i) low = get_or-IsLow pc i low.1

set-IsLow : (pc : ParamClass) (i : ℕ) (c : Class) → IsLow c → All IsLow pc → All IsLow (set pc i c)
set-IsLow [] i c lc low = tt
set-IsLow (d ∷ pc) zero c lc low = (lc, low.1)
set-IsLow (d ∷ pc) (suc i) c lc low = (low.0, set-IsLow pc i c lc low.1)

combine_at-IsFourLow :
    (pc pc' : ParamClass) (i : ℕ) (c : Class)
    → IsLow c
    → IsFourLow pc
    → combine_at pc i c ≡ ok pc'
    → IsFourLow pc'
unfolding combine_at
combine_at-IsFourLow pc pc' i c lc (size, low) h =
    let v = combine (get_or pc i no_class) c in
    elim (Bool-cases (ltb i (length pc))) [
      | inl inside ↦
          let e : set pc i v ≡ pc' = ground arith in
          rw (← e) (
            length-set pc i v ∙ size,
            set-IsLow pc i v (combine-IsLow (get_or pc i no_class) c (get_or-IsLow pc i low) lc)
                low,
          )
      | inr outside ↦ absurd (ground arith)
    ]

-- What a step of `flatten` must do.
abbrev pub Keeps : (ParamClass → CType → ℕ → Run ParamClass) → Type 0
Keeps rec =
    (pc pc' : ParamClass) (ty : CType) (offset : ℕ)
    → IsFourLow pc
    → rec pc ty offset ≡ ok pc'
    → IsFourLow pc'

flatten_members-IsFourLow :
    (rec : ParamClass → CType → ℕ → Run ParamClass) (pc pc' : ParamClass) (ms : List Member)
    (offset : ℕ)
    → Keeps rec
    → IsFourLow pc
    → flatten_members rec pc ms offset ≡ ok pc'
    → IsFourLow pc'
unfolding flatten_members
flatten_members-IsFourLow rec pc pc' [] offset keeps low h =
    let e : pc ≡ pc' = ground arith in rw (← e) low
flatten_members-IsFourLow rec pc pc' (mb ∷ ms) offset keeps low h =
    let (pc₁, first, rest) =
      >>=-eq-ok (rec pc mb.type (mb.offset + offset)) (λ p. flatten_members rec p ms offset) h in
    flatten_members-IsFourLow rec pc₁ pc' ms offset keeps
      (keeps pc pc₁ mb.type (mb.offset + offset) low first) rest

flatten_elements-IsFourLow :
    (rec : ParamClass → CType → ℕ → Run ParamClass) (pc pc' : ParamClass) (next : CType)
    (size count at : ℕ)
    → Keeps rec
    → IsFourLow pc
    → flatten_elements rec pc next size count at ≡ ok pc'
    → IsFourLow pc'
unfolding flatten_elements
flatten_elements-IsFourLow rec pc pc' next size zero at keeps low h =
    let e : pc ≡ pc' = ground arith in rw (← e) low
flatten_elements-IsFourLow rec pc pc' next size (suc count) at keeps low h =
    let (pc₁, first, rest) =
      >>=-eq-ok (rec pc next at) (λ p. flatten_elements rec p next size count (at + size)) h in
    flatten_elements-IsFourLow rec pc₁ pc' next size count (at + size) keeps
      (keeps pc pc₁ next at low first) rest

module _ (ts : Types) {rec : ParamClass → CType → ℕ → Run ParamClass} (keeps : Keeps rec)
    (pc pc' : ParamClass) (ty : CType) (offset : ℕ) (low : IsFourLow pc) where
  flatten_tree-IsFourLow : flatten_tree ts rec pc ty offset ≡ ok pc' → IsFourLow pc'
  flatten_tree-IsFourLow h =
      let (t, found, rest) =
        >>=-eq-ok (get_typetree_handle ts ty.ref) (λ t. flatten_members rec pc t.members offset)
          h in
      flatten_members-IsFourLow rec pc pc' t.members offset keeps low rest

  flatten_array-IsFourLow : flatten_array ts rec pc ty offset ≡ ok pc' → IsFourLow pc'
  flatten_array-IsFourLow h =
      let (next, _, h₁) = >>=-eq-ok (type_next ts ty) _ h in
      let (total, _, h₂) = >>=-eq-ok (size_of ts ty) _ h₁ in
      let (size, _, h₃) = >>=-eq-ok (size_of ts next) _ h₂ in
      let (_, _, h₄) = >>=-eq-ok (guard (not (size == 0)) undefined) _ h₃ in
      flatten_elements-IsFourLow rec pc pc' next size (total / size) offset keeps low h₄

  flatten_ldouble-IsFourLow : flatten_case ldouble ts rec pc ty offset ≡ ok pc' → IsFourLow pc'
  flatten_ldouble-IsFourLow h =
      let i = offset / 8 in
      let (pc₁, first, rest) =
        >>=-eq-ok (combine_at pc i x87) (λ p. if ltb i 3 then combine_at p (suc i) x87up else ok p)
          h in
      let low₁ = combine_at-IsFourLow pc pc₁ i x87 refl low first in
      elim (Bool-cases (ltb i 3)) [
        | inl both ↦ combine_at-IsFourLow pc₁ pc' (suc i) x87up refl low₁ (rw both at rest)
        | inr one ↦ let e : pc₁ ≡ pc' = ground arith in rw (← e) low₁
      ]

flatten_case-IsFourLow :
    (k : TypeKind) (ts : Types) (rec : ParamClass → CType → ℕ → Run ParamClass)
    (pc pc' : ParamClass) (ty : CType) (offset : ℕ)
    → Keeps rec
    → IsFourLow pc
    → flatten_case k ts rec pc ty offset ≡ ok pc'
    → IsFourLow pc'
flatten_case-IsFourLow float ts rec pc pc' ty offset keeps low h =
    combine_at-IsFourLow pc pc' (offset / 8) sse refl low h
flatten_case-IsFourLow double ts rec pc pc' ty offset keeps low h =
    combine_at-IsFourLow pc pc' (offset / 8) sse refl low h
flatten_case-IsFourLow ldouble ts rec pc pc' ty offset keeps low h =
    flatten_ldouble-IsFourLow ts keeps pc pc' ty offset low h
flatten_case-IsFourLow char ts rec pc pc' ty offset keeps low h =
    combine_at-IsFourLow pc pc' (offset / 8) integer refl low h
flatten_case-IsFourLow int ts rec pc pc' ty offset keeps low h =
    combine_at-IsFourLow pc pc' (offset / 8) integer refl low h
flatten_case-IsFourLow short ts rec pc pc' ty offset keeps low h =
    combine_at-IsFourLow pc pc' (offset / 8) integer refl low h
flatten_case-IsFourLow long ts rec pc pc' ty offset keeps low h =
    combine_at-IsFourLow pc pc' (offset / 8) integer refl low h
flatten_case-IsFourLow pointer ts rec pc pc' ty offset keeps low h =
    combine_at-IsFourLow pc pc' (offset / 8) integer refl low h
flatten_case-IsFourLow struct ts rec pc pc' ty offset keeps low h =
    flatten_tree-IsFourLow ts keeps pc pc' ty offset low h
flatten_case-IsFourLow union ts rec pc pc' ty offset keeps low h =
    flatten_tree-IsFourLow ts keeps pc pc' ty offset low h
flatten_case-IsFourLow array ts rec pc pc' ty offset keeps low h =
    flatten_array-IsFourLow ts keeps pc pc' ty offset low h
flatten_case-IsFourLow _ ts rec pc pc' ty offset keeps low h = cc

pub flatten-IsFourLow : (f : ℕ) (ts : Types) → Keeps (flatten f ts)
unfolding flatten
flatten-IsFourLow zero ts pc pc' ty offset low h = cc
flatten-IsFourLow (suc f) ts pc pc' ty offset low h =
    flatten_case-IsFourLow (type_of ty) ts (flatten f ts) pc pc' ty offset (flatten-IsFourLow f ts)
      low h
