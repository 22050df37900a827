-- ===== src/Optimizer/Liveness/Reads/Pointers.antt =====
-- `is_or_has_pointer` of src/optimizer/liveness.c finds every pointer.
use lacc.Base.{
  ℕ, zero, suc, Bool, true, List, [], ◌∷◌, ◌++◌, length, Run, ok, >>=-eq-ok, ok_injective, ◌≡◌, sym,
  Bool-cases, inl, inr,
}
use lacc.Types.Defs.{CType, is_pointer, Member, Types}
use lacc.Optimizer.Liveness.{any_pointer, pointer_fuel, is_or_has_pointer}
use lacc.Optimizer.Liveness.Reads.{HasPointer, itself, inside}

any_pointer-append :
    (rec : CType → Run Bool) (before after : List Member) (m : Member) (b : Bool)
    → ((c : Bool) → rec m.type ≡ ok c → c ≡ true)
    → any_pointer rec (before ++ m ∷ after) ≡ ok b
    → b ≡ true
unfolding any_pointer
any_pointer-append rec [] after m b found h =
    let (c, answer, h₁) = >>=-eq-ok (rec m.type) _ h in
    ok_injective (sym (rw (found c answer) at h₁))
any_pointer-append rec (n ∷ before) after m b found h =
    let (c, answer, h₁) = >>=-eq-ok (rec n.type) _ h in
    elim (Bool-cases c) [
      | inl yes_pointer ↦ ok_injective (sym (rw yes_pointer at h₁))
      | inr no_pointer ↦ any_pointer-append rec before after m b found (rw no_pointer at h₁)
    ]

HasPointer-pointer_fuel :
    (f : ℕ) (ts : Types) (ty : CType) (b : Bool)
    → HasPointer ts ty
    → pointer_fuel f ts ty ≡ ok b
    → b ≡ true
unfolding pointer_fuel
HasPointer-pointer_fuel zero ts ty b has h = cc
HasPointer-pointer_fuel (suc f) ts ty b (itself is) h = ok_injective (sym (rw is at h))
HasPointer-pointer_fuel (suc f) ts ty b (inside before after m is found members has) h =
    elim (Bool-cases (is_pointer ty)) [
      | inl yes_pointer ↦ ok_injective (sym (rw yes_pointer at h))
      | inr no_pointer ↦
          any_pointer-append (pointer_fuel f ts) before after m b
            (λ c e. HasPointer-pointer_fuel f ts m.type c has e)
            (rw (no_pointer, is, found, members) at h)
    ]

pub is_or_has_pointer-HasPointer :
    (ts : Types) (ty : CType) (b : Bool)
    → HasPointer ts ty
    → is_or_has_pointer ts ty ≡ ok b
    → b ≡ true
unfolding is_or_has_pointer
is_or_has_pointer-HasPointer ts ty b has h = HasPointer-pointer_fuel (suc (length ts)) ts ty b has h
