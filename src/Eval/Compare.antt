-- ===== src/Eval/Compare.antt =====
-- Comparisons, with the order of the operands and the types that they are compared in.
use lacc.Base.{Bool, true, false, not, ◌&&◌, if◌then◌else◌, Run, ok, err, diagnostic, ◌>>=◌}
use lacc.Types.Defs.{long, CType, basic, is_void, is_pointer, is_arithmetic}
use lacc.Types.Query.{type_next}
use lacc.Types.Equal.{is_compatible_unqualified}
use lacc.Types.Convert.{usual_arithmetic_conversion}
use lacc.Ir.{Var, OpType, op_eq, op_ne, op_ge, op_gt, Expression}
use lacc.Eval.Convert.{as_expr}
use lacc.Eval.Emit.{Context, Emitter, create_expr, eval_cast}
use lacc.Eval.Operate.{is_constant, eval_immediate_compare}

abbrev unsigned_long : CType
unsigned_long = basic long true

-- `is_void(type_next(l->type)) && !is_void(type_next(r->type))` for pointers.
abbrev less_specific : Context → CType → CType → Run Bool
less_specific cx l r = do
  next_l ← type_next cx.types l
  next_r ← type_next cx.types r
  ok (is_void next_l && not (is_void next_r))

-- Whether the operands are exchanged.
abbrev exchanges : Context → CType → CType → Run Bool
exchanges cx l r =
    if not (is_pointer r)
    then ok false
    else if not (is_pointer l)
    then ok true
    else less_specific cx l r

-- The type in which the operands are compared, after the exchange; the warnings are left out.
abbrev comparison_type : Context → CType → CType → Run CType
comparison_type cx l r =
    if is_arithmetic l && is_arithmetic r
    then usual_arithmetic_conversion cx.types l r
    else if is_pointer l
    then ok unsigned_long
    else err diagnostic

-- The recursion exchanges the two pointers once; each variable keeps its place, but the second one is
-- converted first.
unfoldable pub prepare_comparison_operands :
    Context → Emitter → Var → Var → Run ((Var × Var) × Emitter)
prepare_comparison_operands cx em l r = do
  exchanged ← exchanges cx l.type r.type
  if exchanged
      then (do
        ty ← comparison_type cx r.type l.type
        (r', em₁) ← eval_cast cx em r ty
        (l', em₂) ← eval_cast cx em₁ l ty
        ok ((l', r'), em₂))
      else (do
        ty ← comparison_type cx l.type r.type
        (l', em₁) ← eval_cast cx em l ty
        (r', em₂) ← eval_cast cx em₁ r ty
        ok ((l', r'), em₂))

abbrev compared : Context → CType → OpType → Var → Var → Run Expression
compared cx ty op l r =
    if is_constant l && is_constant r
    then (do v ← eval_immediate_compare cx ty op l r; as_expr cx.fuel cx.types v)
    else create_expr op l r

unfoldable pub cmp_eq : Context → Emitter → Var → Var → Run (Expression × Emitter)
unfolding prepare_comparison_operands
cmp_eq cx em l r = do
  ((l', r'), em') ← prepare_comparison_operands cx em l r
  e ← compared cx l'.type op_eq l' r'
  ok (e, em')

unfoldable pub cmp_ne : Context → Emitter → Var → Var → Run (Expression × Emitter)
unfolding prepare_comparison_operands
cmp_ne cx em l r = do
  ((l', r'), em') ← prepare_comparison_operands cx em l r
  e ← compared cx l'.type op_ne l' r'
  ok (e, em')

unfoldable pub common_compare_type : Context → CType → CType → Run CType
common_compare_type cx l r =
    if is_arithmetic l && is_arithmetic r
    then usual_arithmetic_conversion cx.types l r
    else if is_pointer l && is_pointer r
    then (do
      next_l ← type_next cx.types l
      next_r ← type_next cx.types r
      same ← is_compatible_unqualified cx.fuel cx.types next_l next_r
      if same then ok unsigned_long else err diagnostic)
    else err diagnostic

abbrev ordered : Context → Emitter → OpType → Var → Var → Run (Expression × Emitter)
ordered cx em op l r = do
  ty ← common_compare_type cx l.type r.type
  (l', em₁) ← eval_cast cx em l ty
  (r', em₂) ← eval_cast cx em₁ r ty
  e ← compared cx ty op l' r'
  ok (e, em₂)

unfoldable pub cmp_ge : Context → Emitter → Var → Var → Run (Expression × Emitter)
unfolding common_compare_type
cmp_ge cx em l r = ordered cx em op_ge l r

unfoldable pub cmp_gt : Context → Emitter → Var → Var → Run (Expression × Emitter)
unfolding common_compare_type
cmp_gt cx em l r = ordered cx em op_gt l r
