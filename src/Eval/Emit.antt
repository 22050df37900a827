-- ===== src/Eval/Emit.antt =====
-- Values that need a statement: temporaries, and the statements that assign them.
use lacc.Base.{
  ℕ, Bool, true, false, not, ◌&&◌, Option, none, some, ltb, if◌then◌else◌, List, [], ◌∷◌, ◌++◌, Run,
  ok, err, assertion, guard, ◌>>=◌, ◌>>◌,
}
use lacc.Types.Defs.{
  TypeKind, int, CType, basic, is_void, is_integer, is_unsigned, is_struct_or_union, Types,
}
use lacc.Ir.{
  direct, Var, is_field, is_identity, OpType, op_not, op_neg, op_add, op_sub, op_mul, op_div,
  op_mod, op_and, op_or, op_xor, op_shl, op_shr, op_eq, op_ne, op_ge, op_gt, Expression,
  has_side_effects, Statement, StType, st_expr, st_assign,
}
use lacc.Ir.Bits.{no_bits}
use lacc.Symtab.Add.{Symtab}
use lacc.Symtab.Create.{sym_create_temporary}
use lacc.Eval.Convert.{Reals, var_void, var_numeric, as_expr, cast}

-- What the operations change: the symbols and the counter of temporaries, `def->locals`, and the code of the
-- block, `none` for the block NULL.
pub record Emitter : Type 0 where
  pub symtab : Symtab
  pub temporaries : ℕ
  pub locals : List ℕ
  pub code : Option (List Statement)

-- What they only read: the arithmetic of real numbers, of which `real_op` and `real_compare` are the operators
-- on two numbers of a kind, the fuel of the comparison of types, and the types.
pub record Context : Type 0 where
  pub reals : Reals
  pub real_op : OpType → TypeKind → ℕ → ℕ → ℕ
  pub real_compare : OpType → TypeKind → ℕ → ℕ → Bool
  pub fuel : ℕ
  pub types : Types

abbrev pub create_var : Emitter → CType → Run (Var × Emitter)
unfolding sym_create_temporary
create_var em ty = do
  guard (not (is_void ty)) assertion
  let made = sym_create_temporary ty em.temporaries em.symtab
  let plain = var_numeric ty 0
  let place = some made.0.0
  ok (
    record plain { kind = direct; symbol = place; lvalue = true },
    record em { symtab = made.0.1; temporaries = made.1; locals = em.locals ++ made.0.0 ∷ [] },
  )

-- A statement with the variable and the expression; the other members are 0.
abbrev pub emit_ir : Emitter → StType → Var → Expression → Emitter
emit_ir em st t e =
    let stmt : Statement = record { st = st; asm_index = 0; out = no_bits; t = t; expr = e } in
    record em { code = elim em.code [ none ↦ none | some code ↦ some (code ++ stmt ∷ []) ] }

-- `create_expr` for two operands.
abbrev pub result_type : OpType → CType → Run CType
result_type op_add ty = ok ty
result_type op_sub ty = ok ty
result_type op_mul ty = ok ty
result_type op_div ty = ok ty
result_type op_mod ty = ok ty
result_type op_and ty = do guard (is_integer ty) assertion; ok ty
result_type op_or ty = do guard (is_integer ty) assertion; ok ty
result_type op_xor ty = do guard (is_integer ty) assertion; ok ty
result_type op_shl ty = do guard (is_integer ty) assertion; ok ty
result_type op_shr ty = do guard (is_integer ty) assertion; ok ty
result_type op_not ty = do guard (is_integer ty) assertion; ok ty
result_type op_neg ty = ok ty
result_type op_eq ty = ok (basic int false)
result_type op_ne ty = ok (basic int false)
result_type op_ge ty = ok (basic int false)
result_type op_gt ty = ok (basic int false)
result_type _ ty = err assertion

-- An expression with one operand has itself in the place of the second, which nothing reads.
abbrev pub create_expr : OpType → Var → Var → Run Expression
create_expr op l r = do ty ← result_type op l.type; ok (record { op = op; type = ty; l = l; r = r })

unfoldable pub eval : Context → Emitter → Expression → Run (Var × Emitter)
unfolding create_var
eval cx em e = do
  same ← is_identity cx.fuel cx.types e
  if same
      then ok (e.l, em)
      else if is_void e.type
      then ok (var_void, emit_ir em st_expr var_void e)
      else (do
        (res, em') ← create_var em e.type
        ok (record res { lvalue = false }, emit_ir em' st_assign res e))

unfoldable pub eval_expression_statement :
    Context → Emitter → Expression → Run (Expression × Emitter)
unfolding as_expr create_var
eval_expression_statement cx em e = do
  em' ←
      (if not (has_side_effects e)
        then ok em
        else if not (is_struct_or_union e.type)
        then ok (emit_ir em st_expr var_void e)
        else (do (res, after) ← create_var em e.type; ok (emit_ir after st_assign res e)))
  done ← as_expr cx.fuel cx.types var_void
  ok (done, em')

-- `rvalue` on a variable of scalar type: it changes bit-fields only.
unfoldable pub rvalue : Context → Emitter → Var → Run (Var × Emitter)
unfolding eval cast
rvalue cx em v =
    if is_field v && is_unsigned v.type && ltb v.field_width 32
    then (do e ← cast cx.reals cx.fuel cx.types v (basic int false); eval cx em e)
    else ok (v, em)

-- On a variable of scalar type.
unfoldable pub eval_cast : Context → Emitter → Var → CType → Run (Var × Emitter)
unfolding rvalue eval cast
eval_cast cx em v ty = do
  (l, em') ← rvalue cx em v
  e ← cast cx.reals cx.fuel cx.types l ty
  eval cx em' e
