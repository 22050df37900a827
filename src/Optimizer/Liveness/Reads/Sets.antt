-- ===== src/Optimizer/Liveness/Reads/Sets.antt =====
-- The sets of src/optimizer/liveness.c hold what a statement reads, and only what it overwrites.
use lacc.Base.{
  ℕ, suc, ◌-◌, ◌<◌, Bool, true, false, not, ◌&&◌, some, ◌==◌, ok, assertion, guard, >>=-eq-ok,
  ok_injective, ◌≡◌, refl, sym, arith, Bool-cases, Option-cases, inl, inr,
}
use lacc.Types.Defs.{Types}
use lacc.Ir.{
  Symbol, Symbols, get_symbol, VarKind, direct, address, deref, immediate, Var, OpType, is_unary,
  Expression, StType, st_expr, st_param, st_va_start, st_vla_alloc, st_asm, st_assign, Statement,
}
use lacc.Ir.Bits.{
  test-replicate, test-no_bits, test-bit, bit-only, or-left, or-right, Word, no_bits, all_bits, bit,
  test,
}
use lacc.Optimizer.Liveness.{
  is_scalar, symbol_of, def_case, index_bit, is_value, use_object, uses_case, set_def_bit,
  set_use_bit, use_of, is_or_has_pointer, uses, defines,
}
use lacc.Optimizer.Liveness.Reads.Pointers.{is_or_has_pointer-HasPointer}
use lacc.Optimizer.Liveness.Reads.{
  TakesTwo, add, sub, mul, div, mod_, and_, or_, xor, shl, shr, eq, ne, ge, gt, ReadsOperand, named,
  taken, pointee, stored, ReadsExpression, left, right, Reads, expression, pointer, argument,
  Overwrites, assigned,
}

TakesTwo-is_unary : {op : OpType} → TakesTwo op → is_unary op ≡ false
TakesTwo-is_unary add = refl
TakesTwo-is_unary sub = refl
TakesTwo-is_unary mul = refl
TakesTwo-is_unary div = refl
TakesTwo-is_unary mod_ = refl
TakesTwo-is_unary and_ = refl
TakesTwo-is_unary or_ = refl
TakesTwo-is_unary xor = refl
TakesTwo-is_unary shl = refl
TakesTwo-is_unary shr = refl
TakesTwo-is_unary eq = refl
TakesTwo-is_unary ne = refl
TakesTwo-is_unary ge = refl
TakesTwo-is_unary gt = refl

both : (a b : Bool) → (a && b) ≡ true → (a ≡ true) × (b ≡ true)
both a b h = ground arith

symbol_of-ok :
    (syms : Symbols) (v : Var) (n : Symbol)
    → symbol_of syms v ≡ ok n
    → (k : ℕ) × (v.symbol ≡ some k) × (get_symbol syms k ≡ ok n)
symbol_of-ok syms v n h = elim (Option-cases v.symbol) [
  | inl nothing ↦ absurd (cc (rw nothing at h))
  | inr (k, e) ↦ (k, e, rw e at h)
]

module _ {syms : Symbols} {x : ℕ} where
  ReadsOperand-room : {v : Var} → ReadsOperand syms x v → x < 64
  ReadsOperand-room (named kind sym_eq n object) = n.room
  ReadsOperand-room (taken kind sym_eq n object) = n.room
  ReadsOperand-room (pointee kind room) = room
  ReadsOperand-room (stored kind sym_eq n) = n.room

  ReadsExpression-room : {e : Expression} → ReadsExpression syms x e → x < 64
  ReadsExpression-room (left reads) = ReadsOperand-room reads
  ReadsExpression-room (right two reads) = ReadsOperand-room reads

module _ (syms : Symbols) (x : ℕ) where
  index_bit-number :
      (n : Symbol) (u : Word) → n.index ≡ suc x → x < 64 → index_bit n ≡ ok u → test u x ≡ true
  index_bit-number n u number room h =
      let used : (n.index == 0) ≡ false = ground arith in
      let place : n.index - 1 ≡ x = omega arith in
      let e : bit x ≡ u = ok_injective (rw (used, place) at h) in rw (← e) (test-bit x room)

  ReadsOperand-set_use_bit :
      (v : Var) (u : Word) → ReadsOperand syms x v → set_use_bit syms v ≡ ok u → test u x ≡ true
  unfolding set_use_bit
  ReadsOperand-set_use_bit v u (named kind sym_eq n object) h =
      index_bit-number n.symbol u n.number n.room (rw (kind, sym_eq, n.there, object) at h)
  ReadsOperand-set_use_bit v u (taken kind sym_eq n object) h =
      index_bit-number n.symbol u n.number n.room (rw (kind, sym_eq, n.there, object) at h)
  ReadsOperand-set_use_bit v u (pointee kind room) h =
      let e : all_bits ≡ u = ok_injective (rw kind at h) in rw (← e) (test-replicate 64 x room)
  ReadsOperand-set_use_bit v u (stored kind sym_eq n) h =
      let (_, _, h₁) =
        >>=-eq-ok (guard (is_value n.symbol.symtype) assertion) _
          (rw (kind, sym_eq, n.there) at h) in
      index_bit-number n.symbol u n.number n.room h₁

  -- The set of `use` has what an expression reads.
  pub ReadsExpression-use_of :
      (e : Expression) (u : Word)
      → ReadsExpression syms x e
      → use_of syms e ≡ ok u
      → test u x ≡ true
  unfolding use_of
  ReadsExpression-use_of e u (left reads) h = elim (Bool-cases (is_unary e.op)) [
    | inl one ↦ ReadsOperand-set_use_bit e.l u reads (rw one at h)
    | inr two ↦
        let (r, _, h₁) = >>=-eq-ok (set_use_bit syms e.r) _ (rw two at h) in
        let (l, of_left, h₂) = >>=-eq-ok (set_use_bit syms e.l) _ h₁ in
        rw (ok_injective (sym h₂)) (or-right r l x (ReadsOperand-set_use_bit e.l l reads of_left))
  ]
  ReadsExpression-use_of e u (right two reads) h =
      let (r, of_right, h₁) =
        >>=-eq-ok (set_use_bit syms e.r) _ (rw (TakesTwo-is_unary two) at h) in
      let (l, _, h₂) = >>=-eq-ok (set_use_bit syms e.l) _ h₁ in
      rw (ok_injective (sym h₂)) (or-left r l x (ReadsOperand-set_use_bit e.r r reads of_right))

module _ (ts : Types) (syms : Symbols) (x : ℕ) where
  uses_case-keeps :
      (s : Statement) (st : StType) (r u : Word)
      → x < 64
      → test r x ≡ true
      → uses_case st ts syms s r ≡ ok u
      → test u x ≡ true
  uses_case-keeps s st_assign r u room t h = assign_case s.t.kind refl
    where
      assign_case : (k : VarKind) → s.t.kind ≡ k → test u x ≡ true
      assign_case direct e = rw (ok_injective (sym (rw e at h))) t
      assign_case address e = rw (ok_injective (sym (rw e at h))) t
      assign_case immediate e = rw (ok_injective (sym (rw e at h))) t
      assign_case deref e = elim (Option-cases s.t.symbol) [
        | inl nothing ↦ rw (ok_injective (sym (rw (e, nothing) at h))) t
        | inr (i, there) ↦
            let (more, _, h₁) = >>=-eq-ok (use_object syms s.t) _ (rw (e, there) at h) in
            rw (ok_injective (sym h₁)) (or-left r more x t)
      ]
  uses_case-keeps s st_param r u room t h =
      let (b, _, h₁) = >>=-eq-ok (is_or_has_pointer ts s.expr.type) _ h in
      elim (Bool-cases b) [
        | inl has ↦
            let e : all_bits ≡ u = ok_injective (rw has at h₁) in
            rw (← e) (test-replicate 64 x room)
        | inr none_there ↦ rw (ok_injective (sym (rw none_there at h₁))) t
      ]
  uses_case-keeps s st_asm r u room t h = cc
  uses_case-keeps s st_expr r u room t h = rw (ok_injective (sym h)) t
  uses_case-keeps s st_va_start r u room t h = rw (ok_injective (sym h)) t
  uses_case-keeps s st_vla_alloc r u room t h = rw (ok_injective (sym h)) t

  -- The set of `uses` has what a statement reads.
  pub Reads-uses :
      (s : Statement) (u : Word) → Reads ts syms x s → uses ts syms s ≡ ok u → test u x ≡ true
  unfolding uses
  Reads-uses s u (expression reads) h =
      let (r, of_expr, h₁) = >>=-eq-ok (use_of syms s.expr) _ h in
      uses_case-keeps s s.st r u (ReadsExpression-room reads)
        (ReadsExpression-use_of syms x s.expr r reads of_expr) h₁
  Reads-uses s u (pointer st kind sym_eq n object) h =
      let (r, _, h₁) = >>=-eq-ok (use_of syms s.expr) _ h in
      let (more, of_more, h₂) = >>=-eq-ok (use_object syms s.t) _ (rw (st, kind, sym_eq) at h₁) in
      rw (ok_injective (sym h₂)) (
        or-right r more x (
          index_bit-number syms x n.symbol more n.number n.room
            (rw (sym_eq, n.there, object) at of_more)))
  Reads-uses s u (argument st has room) h =
      let (r, _, h₁) = >>=-eq-ok (use_of syms s.expr) _ h in
      let (b, answer, h₂) = >>=-eq-ok (is_or_has_pointer ts s.expr.type) _ (rw st at h₁) in
      let e : b ≡ true = is_or_has_pointer-HasPointer ts s.expr.type b has answer in
      rw (ok_injective (sym (rw e at h₂))) (test-replicate 64 x room)

module _ (syms : Symbols) (x : ℕ) where
  assigned-Overwrites :
      (s : Statement) (d : Word)
      → s.st ≡ st_assign
      → s.t.kind ≡ direct
      → def_case direct syms s.t ≡ ok d
      → test d x ≡ true
      → Overwrites syms x s
  assigned-Overwrites s d st kind h t =
      let (n, found, h₁) = >>=-eq-ok (symbol_of syms s.t) _ h in
      let (k, sym_eq, there) = symbol_of-ok syms s.t n found in
      elim (Bool-cases (is_scalar n.type && not (n.index == 0))) [
        | inr kept ↦
            let e : no_bits ≡ d = ok_injective (rw kept at h₁) in absurd (cc (t, test-no_bits 64 x))
        | inl is ↦
            let e : bit (n.index - 1) ≡ d = ok_injective (rw is at h₁) in
            let (place, room) = bit-only (n.index - 1) x (rw (← e) at t) in
            let (scalar, used) = both (is_scalar n.type) (not (n.index == 0)) is in
            assigned st kind sym_eq
              (record {
                symbol = n;
                there = there;
                number = ground (arith, place, used);
                room = room;
              })
              scalar
      ]

  -- What the set of `def` has is overwritten.
  pub defines-Overwrites :
      (s : Statement) (d : Word) → defines syms s ≡ ok d → test d x ≡ true → Overwrites syms x s
  unfolding defines set_def_bit
  defines-Overwrites s d h t = st_case s.st refl
    where
      no_bits_case : no_bits ≡ d → Overwrites syms x s
      no_bits_case e = absurd (cc (t, test-no_bits 64 x))

      kind_case : (k : VarKind) → s.st ≡ st_assign → s.t.kind ≡ k → Overwrites syms x s
      kind_case direct st e = assigned-Overwrites s d st e (rw (st, e) at h) t
      kind_case address st e = no_bits_case (ok_injective (rw (st, e) at h))
      kind_case deref st e = no_bits_case (ok_injective (rw (st, e) at h))
      kind_case immediate st e = no_bits_case (ok_injective (rw (st, e) at h))

      st_case : (st : StType) → s.st ≡ st → Overwrites syms x s
      st_case st_assign e = kind_case s.t.kind e refl
      st_case st_asm e = absurd (cc (rw e at h))
      st_case st_expr e = no_bits_case (ok_injective (rw e at h))
      st_case st_param e = no_bits_case (ok_injective (rw e at h))
      st_case st_va_start e = no_bits_case (ok_injective (rw e at h))
      st_case st_vla_alloc e = no_bits_case (ok_injective (rw e at h))
