-- ===== src/Tests/Constants.antt =====
-- The constant 200, of type int, as a char, and operators on constants.
use lacc.Base.{ℕ, ◌-◌, ◌%◌, ◌^◌, true, false, none, [], Run, ok, ◌>>=◌, ◌≡◌, refl}
use lacc.Types.Defs.{char, int, basic, remove_qualifiers}
use lacc.Types.Query.{size_of}
use lacc.Types.Equal.{type_equal}
use lacc.Types.Convert.{promote_integer, usual_arithmetic_conversion}
use lacc.Ir.{Var, direct, op_cast, Expression, is_identity}
use lacc.Symtab.Scopes.{Namespace}
use lacc.Eval.Convert.{Reals, convert, low_word, sign_extend, var_numeric, var_void, as_expr, cast}
use lacc.Eval.Emit.{Context, Emitter, eval, rvalue, eval_cast}
use lacc.Eval.Operate.{
  eval_integer_immediate, eval_arithmetic_immediate, mul, ediv, modulo, times, divided, remainder,
  operate,
}
use lacc.Eval.Operate.Folded.{IsConstant, operate-IsConstant}
use lacc.Eval.Convert.Integers.{IsInteger, convert-IsInteger}

-- No real number takes part.
abbrev no_reals : Reals
no_reals = record {
  nonzero = λ k imm. true;
  below = λ k imm w unsigned. false;
  above = λ k imm w unsigned. false;
  truncate = λ k imm w unsigned. 0;
  of_integer = λ k unsigned imm. imm;
  of_real = λ k l imm. imm;
}

convert-IsInteger_example :
    (r : ℕ) × (convert no_reals 200 (basic int false) (basic char false) ≡ ok r)
    × IsInteger 8 false (low_word r)
    × (low_word r % 2 ^ 8 ≡ 200)
convert-IsInteger_example =
    convert-IsInteger no_reals 200 (basic int false) (basic char false) 8 refl refl

abbrev context : Context
context = record {
  reals = no_reals;
  real_op = λ op k l r. 0;
  real_compare = λ op k l r. true;
  fuel = 1;
  types = [];
}

abbrev no_names : Namespace
no_names = record { symbol = []; scope = []; len = 0; cursor = 0 }

abbrev no_block : Emitter
no_block = record {
  symtab = record {
    syms = [];
    temporaries = [];
    ident = no_names;
    labels = no_names;
    tags = no_names;
    functions = none;
    decl_memcpy = none;
    n = 0;
    types = [];
  };
  temporaries = 0;
  locals = [];
  code = none;
}

-- `-7` and `3` of type int.
abbrev minus_seven : Var
minus_seven = var_numeric (basic int false) (2 ^ 64 - 7)

abbrev three : Var
three = var_numeric (basic int false) 3

abbrev constant : ℕ → Run (Expression × Emitter)
constant u = as_expr 1 [] (var_numeric (basic int false) u) >>= λ e. ok (e, no_block)

-- Division cuts towards 0, and the remainder has the sign of the dividend.
quotient : operate divided context no_block minus_seven three ≡ constant (2 ^ 64 - 2)
unfolding operate ediv usual_arithmetic_conversion promote_integer size_of eval_cast rvalue eval
    cast eval_arithmetic_immediate eval_integer_immediate convert as_expr type_equal is_identity
    sign_extend remove_qualifiers
quotient = refl

modulus : operate remainder context no_block minus_seven three ≡ constant (2 ^ 64 - 1)
unfolding operate modulo usual_arithmetic_conversion promote_integer size_of eval_cast rvalue eval
    cast eval_arithmetic_immediate eval_integer_immediate convert as_expr type_equal is_identity
    sign_extend remove_qualifiers
modulus = refl

-- `0x7fffffff * 2` wraps around.
wraps :
    operate times context no_block
      (var_numeric (basic int false) (2 ^ 31 - 1))
      (var_numeric (basic int false) 2)
    ≡ constant (2 ^ 64 - 2)
unfolding operate mul usual_arithmetic_conversion promote_integer size_of eval_cast rvalue eval cast
    eval_arithmetic_immediate eval_integer_immediate convert as_expr type_equal is_identity
    sign_extend remove_qualifiers
wraps = refl

abbrev product : Expression
product = record {
  op = op_cast;
  type = basic int false;
  l = var_numeric (basic int false) (2 ^ 64 - 21);
  r = record var_void { kind = direct };
}

times_three : operate times context no_block minus_seven three ≡ ok (product, no_block)
unfolding operate mul usual_arithmetic_conversion promote_integer size_of eval_cast rvalue eval cast
    eval_arithmetic_immediate eval_integer_immediate convert as_expr type_equal is_identity
    sign_extend remove_qualifiers
times_three = refl

int_conversion :
    usual_arithmetic_conversion [] (basic int false) (basic int false) ≡ ok (basic int false)
unfolding usual_arithmetic_conversion promote_integer size_of remove_qualifiers
int_conversion = refl

operate-IsConstant_example :
    IsConstant context product × (product.type ≡ basic int false) × (no_block ≡ no_block)
operate-IsConstant_example =
    operate-IsConstant times context no_block no_block minus_seven three product (basic int false)
      int_conversion refl refl refl refl refl times_three
