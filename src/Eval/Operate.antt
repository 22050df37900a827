-- ===== src/Eval/Operate.antt =====
-- The operators on two operands that are not pointers, and the complement.
pub mod Folded
use Prim.Native.Nat.{bit_xor}
use lacc.Base.{
  ℕ, ◌-◌, ◌*◌, ◌%◌, ◌^◌, Bool, false, ◌&&◌, ◌||◌, ltb, ◌==◌, if◌then◌else◌, Run, ok, assertion,
  diagnostic, guard, ◌>>=◌, ◌>>◌,
}
use lacc.Types.Defs.{int, CType, basic, type_of, is_integer, is_pointer, is_unsigned, Types}
use lacc.Types.Query.{size_of}
use lacc.Types.Convert.{promote_integer, usual_arithmetic_conversion}
use lacc.Ir.{
  kind_code, Var, OpType, op_not, op_mul, op_div, op_mod, op_and, op_or, op_xor, op_shl, op_shr,
  Expression,
}
use lacc.Eval.Convert.{low_word, is_signed, var_numeric, as_expr, cast}
use lacc.Eval.Emit.{Context, Emitter, create_expr, eval_cast}
use lacc.Eval.Word.{signed_op, unsigned_op, signed_compare, unsigned_compare}

abbrev pub imm_signed : CType → ℕ → Run Var
imm_signed ty n = do guard (is_signed ty) assertion; ok (var_numeric ty n)

abbrev pub imm_unsigned : Types → CType → ℕ → Run Var
imm_unsigned ts ty n = do
  guard (is_unsigned ty) assertion
  size ← size_of ts ty
  if ltb size 8
      then (do
        guard (size == 4 || size == 2 || size == 1) assertion
        ok (var_numeric ty (n % 2 ^ (8 * size))))
      else ok (var_numeric ty n)

unfoldable pub eval_integer_immediate : Context → CType → OpType → Var → Var → Run Var
eval_integer_immediate cx ty op l r =
    if is_signed ty
    then (do n ← signed_op op (low_word l.imm) (low_word r.imm); imm_signed ty n)
    else (do n ← unsigned_op op (low_word l.imm) (low_word r.imm); imm_unsigned cx.types ty n)

unfoldable pub eval_arithmetic_immediate : Context → CType → OpType → Var → Var → Run Var
unfolding eval_integer_immediate
eval_arithmetic_immediate cx ty op l r =
    if is_signed ty || is_unsigned ty || is_pointer ty
    then eval_integer_immediate cx ty op l r
    else ok (var_numeric (basic (type_of ty) false) (cx.real_op op (type_of ty) l.imm r.imm))

unfoldable pub eval_immediate_compare : Context → CType → OpType → Var → Var → Run Var
eval_immediate_compare cx ty op l r = do
  truth ←
      (if is_signed ty
        then signed_compare op (low_word l.imm) (low_word r.imm)
        else if is_unsigned ty || is_pointer ty
        then unsigned_compare op (low_word l.imm) (low_word r.imm)
        else ok (cx.real_compare op (type_of ty) l.imm r.imm))
  ok (var_numeric (basic int false) (if truth then 1 else 0))

abbrev pub is_constant : Var → Bool
is_constant v = kind_code v.kind == 3

-- The common end of the operators: both operands are converted, and folded if they are constants.
abbrev pub converted :
    Context
    → Emitter
    → CType
    → OpType
    → (Var → Var → Run Expression)
    → Var
    → Var
    → Run (Expression × Emitter)
converted cx em ty op fold l r = do
  (l', em₁) ← eval_cast cx em l ty
  (r', em₂) ← eval_cast cx em₁ r ty
  e ← (if is_constant l' && is_constant r' then fold l' r' else create_expr op l' r')
  ok (e, em₂)

abbrev pub fold_arithmetic : Context → CType → OpType → Var → Var → Run Expression
fold_arithmetic cx ty op l r = do
  v ← eval_arithmetic_immediate cx ty op l r
  cast cx.reals cx.fuel cx.types v ty

abbrev pub fold_integer : Context → CType → OpType → Var → Var → Run Expression
fold_integer cx ty op l r = do
  v ← eval_integer_immediate cx ty op l r
  cast cx.reals cx.fuel cx.types v ty

unfoldable pub mul : Context → Emitter → Var → Var → Run (Expression × Emitter)
mul cx em l r = do
  ty ← usual_arithmetic_conversion cx.types l.type r.type
  converted cx em ty op_mul (fold_arithmetic cx ty op_mul) l r

unfoldable pub ediv : Context → Emitter → Var → Var → Run (Expression × Emitter)
ediv cx em l r = do
  ty ← usual_arithmetic_conversion cx.types l.type r.type
  converted cx em ty op_div (fold_arithmetic cx ty op_div) l r

unfoldable pub modulo : Context → Emitter → Var → Var → Run (Expression × Emitter)
modulo cx em l r = do
  ty ← usual_arithmetic_conversion cx.types l.type r.type
  guard (is_integer ty) diagnostic
  converted cx em ty op_mod (fold_integer cx ty op_mod) l r

unfoldable pub or : Context → Emitter → Var → Var → Run (Expression × Emitter)
or cx em l r = do
  guard (is_integer l.type && is_integer r.type) diagnostic
  ty ← usual_arithmetic_conversion cx.types l.type r.type
  converted cx em ty op_or (fold_integer cx ty op_or) l r

unfoldable pub xor : Context → Emitter → Var → Var → Run (Expression × Emitter)
xor cx em l r = do
  guard (is_integer l.type && is_integer r.type) diagnostic
  ty ← usual_arithmetic_conversion cx.types l.type r.type
  converted cx em ty op_xor (fold_integer cx ty op_xor) l r

-- The result is not converted again.
abbrev pub fold_and : Context → CType → Var → Var → Run Expression
fold_and cx ty l r = do v ← eval_integer_immediate cx ty op_and l r; as_expr cx.fuel cx.types v

unfoldable pub and : Context → Emitter → Var → Var → Run (Expression × Emitter)
and cx em l r = do
  guard (is_integer l.type && is_integer r.type) diagnostic
  ty ← usual_arithmetic_conversion cx.types l.type r.type
  converted cx em ty op_and (fold_and cx ty) l r

abbrev shift : Context → Emitter → OpType → Var → Var → Run (Expression × Emitter)
shift cx em op l r = do
  guard (is_integer l.type && is_integer r.type) diagnostic
  ty ← promote_integer cx.types l.type
  (l', em') ← eval_cast cx em l ty
  e ← (if is_constant l' && is_constant r then fold_integer cx ty op l' r else create_expr op l' r)
  ok (e, em')

unfoldable pub shiftl : Context → Emitter → Var → Var → Run (Expression × Emitter)
shiftl cx em l r = shift cx em op_shl l r

unfoldable pub shiftr : Context → Emitter → Var → Var → Run (Expression × Emitter)
shiftr cx em l r = shift cx em op_shr l r

unfoldable pub complement : Context → Emitter → Var → Run (Expression × Emitter)
complement cx em v = do
  guard (is_integer v.type) diagnostic
  ty ← promote_integer cx.types v.type
  (v', em') ← eval_cast cx em v ty
  let flipped = bit_xor (low_word v'.imm) (2 ^ 64 - 1)
  e ←
      (if is_constant v'
        then (do
          n ← (if is_signed ty then imm_signed ty flipped else imm_unsigned cx.types ty flipped)
          as_expr cx.fuel cx.types n)
        else create_expr op_not v' v')
  ok (e, em')

-- The operators of the usual arithmetic conversion, and the cases for them in the `switch` of `eval_expr`.
pub data Operator : Type 0 where
  times divided remainder bits_and bits_or bits_xor : Operator

unfoldable pub operate : Operator → Context → Emitter → Var → Var → Run (Expression × Emitter)
unfolding mul ediv modulo and or xor
operate times cx em l r = mul cx em l r
operate divided cx em l r = ediv cx em l r
operate remainder cx em l r = modulo cx em l r
operate bits_and cx em l r = and cx em l r
operate bits_or cx em l r = or cx em l r
operate bits_xor cx em l r = xor cx em l r
