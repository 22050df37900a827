-- ===== src/Abi/Memory.antt =====
-- Large structs and unions are passed in memory.
use lacc.Base.{
  ℕ, zero, suc, ◌^◌, ◌+◌, ◌<◌, Bool, true, false, not, ◌&&◌, ◌||◌, [], ◌∷◌, ltb, leb, if◌then◌else◌,
  get_or, set, take, length, All, ok, ◌>>=◌, >>=-eq-ok, ◌≡◌, refl, sym, ◌∙◌, arith, Bool-cases, inl,
  inr,
}
use lacc.Types.Defs.{CType, is_struct_or_union, is_void, Types}
use lacc.Types.Query.{size_of, is_flexible}
use lacc.Abi.Low.{IsLow, IsFourLow, flatten-IsFourLow}
use lacc.Abi.{
  Class, no_class, sse, sseup, x87, x87up, memory, class_eq, ParamClass, no_classes, flatten, merge,
  merge_loop, eightbytes, classify, classify_aggregate, has_unaligned_fields,
}

merge_loop-up :
    (start : Bool) (before : Class) (cs : ParamClass) (up mem : Bool)
    → All IsLow cs
    → (merge_loop start before cs (up, mem)).0 ≡ up
unfolding merge_loop
merge_loop-up start before [] up mem low = refl
merge_loop-up start before (c ∷ cs) up mem low =
    merge_loop-up false c cs (up || class_eq c sseup)
      (mem || class_eq c memory || class_eq c x87up && (start || not (class_eq before x87))) low.1
    ∙ ground (arith, low.0)

take-IsLow : (n : ℕ) (pc : ParamClass) → All IsLow pc → All IsLow (take n pc)
take-IsLow zero pc low = tt
take-IsLow (suc n) [] low = tt
take-IsLow (suc n) (c ∷ pc) low = (low.0, take-IsLow n pc low.1)

merge-large :
    (pc : ParamClass) (n : ℕ) → IsFourLow pc → 2 < n → get_or (merge pc n) 0 no_class ≡ memory
unfolding merge
merge-large [] n (size, low) large = absurd (omega (arith, size))
merge-large (c ∷ pc) n (size, low) large =
    let up =
      merge_loop-up true no_class (take n (c ∷ pc)) false false (take-IsLow n (c ∷ pc) low) in
    let more : ltb 2 n ≡ true = ground arith in
    rw (up, more)
      (forced (merge_loop true no_class (take n (c ∷ pc)) (false, false)).1 (class_eq c sse))
  where
    forced :
        (mem is_sse : Bool)
        → get_or
            (if mem || true && (not is_sse || not false) then memory ∷ pc else c ∷ pc)
            0
            no_class
          ≡ memory
    forced false false = refl
    forced false true = refl
    forced true _ = refl

flatten-large :
    (ts : Types) (ty : CType) (pc : ParamClass) (n : ℕ)
    → 2 < n
    → (do p ← flatten (suc (length ts)) ts no_classes ty 0; ok (merge p n)) ≡ ok pc
    → get_or pc 0 no_class ≡ memory
flatten-large ts ty pc n large h =
    let (p, flat, rest) = >>=-eq-ok (flatten (suc (length ts)) ts no_classes ty 0) _ h in
    let e : merge p n ≡ pc = ground arith in
    let low : IsFourLow p =
      flatten-IsFourLow (suc (length ts)) ts no_classes p ty 0
        (refl, (refl, (refl, (refl, (refl, tt))))) flat in
    rw (← e) (merge-large p n low large)

classify-aggregate :
    (ts : Types) (ty : CType)
    → is_struct_or_union ty ≡ true
    → classify ts ty ≡ classify_aggregate ts ty
unfolding classify
classify-aggregate ts ty is = ground arith

module _ (ts : Types) (ty : CType) (size : ℕ) (pc : ParamClass) (is : is_struct_or_union ty ≡ true)
    (large : 16 < size) (room : size + 7 < 2 ^ 64) where
  many : 2 < eightbytes size
  many = omega arith

  aggregate-in_registers :
      (do
        unaligned ← has_unaligned_fields ts ty
        if unaligned then ok (set no_classes 0 memory) else (do
          p ← flatten (suc (length ts)) ts no_classes ty 0
          ok (merge p (eightbytes size))))
        ≡ ok pc
      → get_or pc 0 no_class ≡ memory
  aggregate-in_registers h =
      let (unaligned, _, rest) = >>=-eq-ok (has_unaligned_fields ts ty) _ h in
      elim (Bool-cases unaligned) [
        | inl yes_it_is ↦
            let e : set no_classes 0 memory ≡ pc = ground (arith, rest) in rw (← e) refl
        | inr no_not ↦ flatten-large ts ty pc (eightbytes size) many (rw no_not at rest)
      ]

  aggregate-memory :
      size_of ts ty ≡ ok size → classify_aggregate ts ty ≡ ok pc → get_or pc 0 no_class ≡ memory
  unfolding classify_aggregate
  aggregate-memory sized h =
      let (size', known, h₁) = >>=-eq-ok (size_of ts ty) _ h in
      let same : size' ≡ size = ground arith in
      let (flexible, _, h₂) = >>=-eq-ok (is_flexible ts ty) _ (rw same at h₁) in
      let few = leb (eightbytes size) 4 && is_struct_or_union ty && not flexible in
      let void_no : is_void ty ≡ false = ground arith in
      elim (Bool-cases few) [
        | inl small ↦ aggregate-in_registers (rw small at h₂)
        | inr big ↦ let e : set no_classes 0 memory ≡ pc = ground arith in rw (← e) refl
      ]

-- Where `classify` returns for a struct or union of more than 16 bytes, whose size does not wrap
-- around by the rounding to eightbytes, the first eightbyte has the class of memory.
pub classify-memory :
    (ts : Types) (ty : CType) (size : ℕ) (pc : ParamClass)
    → is_struct_or_union ty ≡ true
    → size_of ts ty ≡ ok size
    → 16 < size
    → size + 7 < 2 ^ 64
    → classify ts ty ≡ ok pc
    → get_or pc 0 no_class ≡ memory
classify-memory ts ty size pc is sized large room h =
    aggregate-memory ts ty size pc is large room sized (sym (classify-aggregate ts ty is) ∙ h)
