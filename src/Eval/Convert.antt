-- ===== src/Eval/Convert.antt =====
-- Conversion of constants. The value of a constant is the bits of `union value`, of which the lowest 64
-- are an integer. The arithmetic of real numbers is that of the C implementation, in a parameter.
pub mod Integers
use lacc.Base.{
  ℕ, ◌+◌, ◌-◌, ◌*◌, ◌/◌, ◌%◌, ◌^◌, Bool, true, false, not, ◌&&◌, ◌||◌, none, ltb, leb, ◌==◌,
  if◌then◌else◌, Run, ok, err, assertion, diagnostic, guard, ◌>>=◌, ◌>>◌,
}
use lacc.Types.Defs.{
  TypeKind, void, bool, char, short, int, long, float, double, ldouble, pointer, code, CType, basic,
  type_of, is_void, is_pointer, is_integer, is_unsigned, has_kind, Types,
}
use lacc.Types.Query.{size_of}
use lacc.Types.Equal.{type_equal}
use lacc.Ir.{direct, immediate, kind_code, Var, op_cast, Expression, is_identity}
use lacc.Optimizer.Liveness.{is_scalar}

-- What C does with a real number of a kind: whether it is not zero, whether it is below or above the
-- integers of a width and signedness, the integer that it is cut to, and conversions to a kind.
pub record Reals : Type 0 where
  pub nonzero : TypeKind → ℕ → Bool
  pub below : TypeKind → ℕ → ℕ → Bool → Bool
  pub above : TypeKind → ℕ → ℕ → Bool → Bool
  pub truncate : TypeKind → ℕ → ℕ → Bool → ℕ
  pub of_integer : TypeKind → Bool → ℕ → ℕ
  pub of_real : TypeKind → TypeKind → ℕ → ℕ

-- `value.u`, and a write of it.
abbrev pub low_word : ℕ → ℕ
low_word imm = imm % 2 ^ 64

abbrev pub put_word : ℕ → ℕ → ℕ
put_word imm u = imm / 2 ^ 64 * 2 ^ 64 + u

abbrev pub is_real : CType → Bool
is_real ty = leb (code float) (code (type_of ty)) && leb (code (type_of ty)) (code ldouble)

abbrev pub is_signed : CType → Bool
is_signed ty = not (is_unsigned ty) && is_integer ty

unfoldable pub immediate_bool_value : Reals → ℕ → CType → Run Bool
immediate_bool_value reals imm ty = do
  guard (is_scalar ty) assertion
  ok (if is_real ty then reals.nonzero (type_of ty) imm else not (low_word imm == 0))

-- `(T) u` for an integer type of `w` bits; a signed result is extended to 64 bits.
unfoldable pub sign_extend : ℕ → ℕ → ℕ
sign_extend w u = if ltb (u % 2 ^ w) (2 ^ (w - 1)) then u % 2 ^ w else 2 ^ 64 - 2 ^ w + u % 2 ^ w

abbrev pub narrow : ℕ → Bool → ℕ → ℕ
narrow w true u = u % 2 ^ w
narrow w false u = sign_extend w u

abbrev pub least : ℕ → Bool → ℕ
least w true = 0
least w false = 2 ^ 64 - 2 ^ (w - 1)

abbrev pub greatest : ℕ → Bool → ℕ
greatest w true = 2 ^ w - 1
greatest w false = 2 ^ (w - 1) - 1

abbrev pub is_exact : CType → Bool
is_exact ty = is_signed ty || is_unsigned ty || is_pointer ty

abbrev cast_real : Reals → ℕ → TypeKind → ℕ → Bool → ℕ
cast_real reals imm k w unsigned =
    if reals.below k imm w unsigned
    then least w unsigned
    else if reals.above k imm w unsigned
    then greatest w unsigned
    else reals.truncate k imm w unsigned

abbrev pub to_integer : Reals → ℕ → CType → ℕ → Bool → ℕ
to_integer reals imm ty w unsigned = put_word imm (
    if is_exact ty
    then narrow w unsigned (low_word imm)
    else cast_real reals imm (type_of ty) w unsigned)

abbrev to_real : Reals → ℕ → CType → TypeKind → ℕ
to_real reals imm ty k =
    if is_real ty && not (has_kind k ty)
    then reals.of_real k (type_of ty) imm
    else if is_integer ty
    then reals.of_integer k (is_unsigned ty) imm
    else imm

abbrev pub convert_case : TypeKind → Reals → ℕ → CType → Bool → Run ℕ
convert_case float reals imm ty unsigned = ok (to_real reals imm ty float)
convert_case double reals imm ty unsigned = ok (to_real reals imm ty double)
convert_case ldouble reals imm ty unsigned = ok (to_real reals imm ty ldouble)
convert_case bool reals imm ty unsigned = do
  truth ← immediate_bool_value reals imm ty
  ok (put_word imm (if truth then 1 else 0))
convert_case char reals imm ty unsigned = ok (to_integer reals imm ty 8 unsigned)
convert_case short reals imm ty unsigned = ok (to_integer reals imm ty 16 unsigned)
convert_case int reals imm ty unsigned = ok (to_integer reals imm ty 32 unsigned)
convert_case long reals imm ty unsigned = ok (to_integer reals imm ty 64 unsigned)
convert_case pointer reals imm ty unsigned = ok (to_integer reals imm ty 64 true)
convert_case k reals imm ty unsigned = err assertion

unfoldable pub convert : Reals → ℕ → CType → CType → Run ℕ
unfolding immediate_bool_value sign_extend
convert reals imm ty to = convert_case (type_of to) reals imm ty (not (is_signed to))

abbrev pub var_numeric : CType → ℕ → Var
var_numeric ty imm = record {
  kind = immediate;
  type = ty;
  symbol = none;
  offset = 0;
  field_width = 0;
  field_offset = 0;
  lvalue = false;
  imm = imm;
}

abbrev pub var_void : Var
var_void = var_numeric (basic void false) 0

-- The second operand of an expression that has one operand, which nothing reads.
abbrev no_operand : Var
no_operand = record var_void { kind = direct }

unfoldable pub as_expr : ℕ → Types → Var → Run Expression
as_expr f ts v = do
  let e : Expression = record { op = op_cast; type = v.type; l = v; r = no_operand }
  same ← is_identity f ts e
  guard same assertion
  ok e

-- `create_expr` for a cast.
abbrev create_cast : Var → CType → Expression
create_cast v ty = record { op = op_cast; type = ty; l = v; r = no_operand }

abbrev pub cast_value : Reals → ℕ → Types → Var → CType → Run Expression
cast_value reals f ts v ty =
    if kind_code v.kind == 3
    then (do
      guard (v.offset == 0) assertion
      imm ← convert reals v.imm v.type ty
      as_expr f ts (var_numeric ty imm))
    else (do
      n ← size_of ts v.type
      m ← size_of ts ty
      if n == m && (is_pointer v.type || is_pointer ty)
          then as_expr f ts (record v { type = ty })
          else (do
            same ← type_equal f ts v.type ty
            if same then as_expr f ts v else ok (create_cast v ty)))

unfoldable pub cast : Reals → ℕ → Types → Var → CType → Run Expression
unfolding convert as_expr
cast reals f ts v ty = if is_void ty then as_expr f ts var_void else (do
  guard (is_scalar v.type && is_scalar ty) diagnostic
  guard (not (is_pointer v.type && (has_kind float ty || has_kind double ty))) diagnostic
  e ← cast_value reals f ts v ty
  same ← type_equal f ts e.type ty
  guard same assertion
  ok e)
