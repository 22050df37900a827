-- ===== src/Optimizer/Liveness/Reads.antt =====
-- What a statement of the intermediate representation reads and overwrites, said without the sets of
-- src/optimizer/liveness.c. What a called function reads is not counted, but that an argument with a
-- pointer counts as a read of every symbol.
pub mod Pointers
pub mod Sets
use lacc.Base.{ℕ, suc, ◌+◌, ◌<◌, true, some, List, ◌∷◌, ◌++◌, ok, ◌≡◌}
use lacc.Types.Defs.{
  CType, is_object, is_pointer, is_struct_or_union, Member, Typetree, Types, get_typetree_handle,
}
use lacc.Ir.{
  Symbol, Symbols, get_symbol, direct, address, deref, immediate, Var, OpType, op_add, op_sub,
  op_mul, op_div, op_mod, op_and, op_or, op_xor, op_shl, op_shr, op_eq, op_ne, op_ge, op_gt,
  Expression, st_param, st_assign, Statement,
}
use lacc.Optimizer.Liveness.{is_scalar}

-- The operations of two operands.
pub data TakesTwo : OpType → Type 0 where
  add : TakesTwo op_add
  sub : TakesTwo op_sub
  mul : TakesTwo op_mul
  div : TakesTwo op_div
  mod_ : TakesTwo op_mod
  and_ : TakesTwo op_and
  or_ : TakesTwo op_or
  xor : TakesTwo op_xor
  shl : TakesTwo op_shl
  shr : TakesTwo op_shr
  eq : TakesTwo op_eq
  ne : TakesTwo op_ne
  ge : TakesTwo op_ge
  gt : TakesTwo op_gt

-- A pointer, or a struct or union with such a member, at any depth.
pub data HasPointer (ts : Types) : CType → Type 0 where
  itself : {ty : CType} → is_pointer ty ≡ true → HasPointer ts ty
  inside :
      {ty : CType} {t : Typetree} (before after : List Member) (m : Member)
      → is_struct_or_union ty ≡ true
      → get_typetree_handle ts ty.ref ≡ ok t
      → t.members ≡ before ++ m ∷ after
      → HasPointer ts m.type
      → HasPointer ts ty

-- The symbol `k` has the number `x` in the sets, whose 64 places are counted from 0 on.
pub record HasNumber (syms : Symbols) (k x : ℕ) : Type 0 where
  pub symbol : Symbol
  pub there : get_symbol syms k ≡ ok symbol
  pub number : symbol.index ≡ suc x
  pub room : x < 64

module _ (syms : Symbols) (x : ℕ) where
  -- An operand reads an object that it names, or the address of which it takes, and a constant; what
  -- it reads through a pointer may be any symbol.
  pub data ReadsOperand (v : Var) : Type 0 where
    named :
        {k : ℕ}
        → v.kind ≡ direct
        → v.symbol ≡ some k
        → (n : HasNumber syms k x) → is_object n.symbol.type ≡ true
        → ReadsOperand v
    taken :
        {k : ℕ}
        → v.kind ≡ address
        → v.symbol ≡ some k
        → (n : HasNumber syms k x) → is_object n.symbol.type ≡ true
        → ReadsOperand v
    pointee : v.kind ≡ deref → x < 64 → ReadsOperand v
    stored : {k : ℕ} → v.kind ≡ immediate → v.symbol ≡ some k → HasNumber syms k x → ReadsOperand v

  pub data ReadsExpression (e : Expression) : Type 0 where
    left : ReadsOperand e.l → ReadsExpression e
    right : TakesTwo e.op → ReadsOperand e.r → ReadsExpression e

module _ (ts : Types) (syms : Symbols) (x : ℕ) where
  -- A statement reads what its expression reads; a store through a pointer reads the pointer; behind
  -- an argument that holds a pointer, the call may read any symbol.
  pub data Reads (s : Statement) : Type 0 where
    expression : ReadsExpression syms x s.expr → Reads s
    pointer :
        {k : ℕ}
        → s.st ≡ st_assign
        → s.t.kind ≡ deref
        → s.t.symbol ≡ some k
        → (n : HasNumber syms k x) → is_object n.symbol.type ≡ true
        → Reads s
    argument : s.st ≡ st_param → HasPointer ts s.expr.type → x < 64 → Reads s

module _ (syms : Symbols) (x : ℕ) where
  -- An assignment to a symbol of scalar type, or to a part of it.
  pub data Overwrites (s : Statement) : Type 0 where
    assigned :
        {k : ℕ}
        → s.st ≡ st_assign
        → s.t.kind ≡ direct
        → s.t.symbol ≡ some k
        → (n : HasNumber syms k x) → is_scalar n.symbol.type ≡ true
        → Overwrites s
