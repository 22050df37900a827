-- ===== src/Eval/Operate/Folded.antt =====
-- Operators on constants.
use lacc.Base.{
  ℕ, ◌*◌, ◌%◌, ◌^◌, ltb, Bool, true, false, not, ◌&&◌, ◌||◌, ◌==◌, if◌then◌else◌, ◌≡◌, refl, ap,
  sym, ◌∙◌, Run, ok, assertion, guard, guarded, guard-eq-ok, returned, ◌>>=◌, ◌>>◌, >>=-eq-ok,
}
use mathlib.Core.Path.{subst}
use lacc.Types.Defs.{
  CType, basic, type_of, is_integer, is_unsigned, Types, is_void, is_pointer, has_kind, float,
  double,
}
use lacc.Types.Equal.{type_equal}
use lacc.Optimizer.Liveness.{is_scalar}
use lacc.Types.Convert.{usual_arithmetic_conversion}
use lacc.Types.Query.{size_of}
use lacc.Eval.Word.{signed_op, unsigned_op}
use lacc.Ir.{
  op_and, op_mul, op_div, op_mod, op_or, op_xor, Var, Expression, is_field, is_identity, OpType,
}
use lacc.Eval.Convert.{low_word, is_signed, var_numeric, convert, as_expr, cast, cast_value}
use lacc.Eval.Emit.{Context, Emitter, eval, rvalue, create_expr, eval_cast}
use lacc.Eval.Operate.{
  imm_signed, imm_unsigned, eval_integer_immediate, eval_arithmetic_immediate, is_constant,
  converted, fold_arithmetic, fold_integer, fold_and, mul, ediv, modulo, or, xor, and, Operator,
  times, divided, remainder, bits_and, bits_or, bits_xor, operate,
}

-- The expression is a constant.
abbrev pub IsConstant : Context → Expression → Type 0
IsConstant cx e = (is_identity cx.fuel cx.types e ≡ ok true) × (is_constant e.l ≡ true)

taken {ℓ} :
    {A : Type ℓ} (test : Bool) (run other : Run A) {v : A}
    → test ≡ true
    → (if test then run else other) ≡ ok v
    → run ≡ ok v
taken true run other h k = k
taken false run other h k = cc

passed {ℓ} :
    {A : Type ℓ} (test : Bool) (other run : Run A) {v : A}
    → test ≡ false
    → (if test then other else run) ≡ ok v
    → run ≡ ok v
passed true other run h k = cc
passed false other run h k = k

both_true : (a b : Bool) → a ≡ true → b ≡ true → (a && b) ≡ true
both_true true b h k = k
both_true false b h k = cc

as_expr-IsConstant :
    (cx : Context) (v : Var) {e : Expression}
    → as_expr cx.fuel cx.types v ≡ ok e
    → is_constant v ≡ true
    → IsConstant cx e × (e.type ≡ v.type)
unfolding as_expr
as_expr-IsConstant cx v h c =
    let (same, i, k) = >>=-eq-ok (is_identity cx.fuel cx.types _) _ h in
    let truth = guard-eq-ok same assertion (>>=-eq-ok (guard same assertion) _ k).1 in
    returned (λ e. IsConstant cx e × (e.type ≡ v.type)) ((i ∙ ap ok truth, c), refl)
      (guarded same _ _ k)

cast-IsConstant :
    (cx : Context) (v : Var) (ty : CType) {e : Expression}
    → cast cx.reals cx.fuel cx.types v ty ≡ ok e
    → is_constant v ≡ true
    → is_void ty ≡ false
    → IsConstant cx e × (e.type ≡ ty)
unfolding cast
cast-IsConstant cx v ty h c solid =
    let k = passed (is_void ty) _ _ solid h in
    let l = guarded (is_scalar v.type && is_scalar ty) _ _ k in
    let m = guarded (not (is_pointer v.type && (has_kind float ty || has_kind double ty))) _ _ l in
    let (e, made, n) = >>=-eq-ok (cast_value cx.reals cx.fuel cx.types v ty) _ m in
    let (same, _, o) = >>=-eq-ok (type_equal cx.fuel cx.types e.type ty) _ n in
    let p = guarded (v.offset == 0) _ _ (taken (is_constant v) _ _ c made) in
    let (imm, _, q) = >>=-eq-ok (convert cx.reals v.imm v.type ty) _ p in
    returned (λ e. IsConstant cx e × (e.type ≡ ty))
      (as_expr-IsConstant cx (var_numeric ty imm) q refl) (guarded same _ _ o)

eval-IsConstant :
    (cx : Context) (em : Emitter) (e : Expression) → IsConstant cx e → eval cx em e ≡ ok (e.l, em)
unfolding eval
eval-IsConstant cx em e h = rw h.0 refl

rvalue-plain :
    (cx : Context) (em : Emitter) (v : Var) → is_field v ≡ false → rvalue cx em v ≡ ok (v, em)
unfolding rvalue
rvalue-plain cx em v plain = rw plain refl

eval_cast-IsConstant :
    (cx : Context) (em : Emitter) (v : Var) (ty : CType) {result : Var × Emitter}
    → is_constant v ≡ true
    → is_field v ≡ false
    → is_void ty ≡ false
    → eval_cast cx em v ty ≡ ok result
    → (is_constant result.0 ≡ true) × (result.1 ≡ em)
unfolding eval_cast rvalue
eval_cast-IsConstant cx em v ty {result} c plain solid h =
    let kept =
      subst
        (λ run. (run >>= λ x. cast cx.reals cx.fuel cx.types x.0 ty >>= eval cx x.1) ≡ ok result)
        (rvalue-plain cx em v plain) h in
    let (e, made, last) = >>=-eq-ok (cast cx.reals cx.fuel cx.types v ty) (eval cx em) kept in
    let (known, _) = cast-IsConstant cx v ty made c solid in
    returned (λ r. (is_constant r.0 ≡ true) × (r.1 ≡ em)) (known.1, refl)
      (sym (eval-IsConstant cx em e known) ∙ last)

-- Both operands are constants, so they are folded.
converted-IsConstant :
    (cx : Context) (em : Emitter) (ty : CType) (op : OpType) (fold : Var → Var → Run Expression)
    (l r : Var) {result : Expression × Emitter}
    → ((a b : Var) (e : Expression) → fold a b ≡ ok e → IsConstant cx e × (e.type ≡ ty))
    → is_constant l ≡ true
    → is_field l ≡ false
    → is_constant r ≡ true
    → is_field r ≡ false
    → is_void ty ≡ false
    → converted cx em ty op fold l r ≡ ok result
    → IsConstant cx result.0 × (result.0.type ≡ ty) × (result.1 ≡ em)
converted-IsConstant cx em ty op fold l r {result} folds cl pl cr pr solid h =
    let ((l', em₁), first, k) = >>=-eq-ok (eval_cast cx em l ty) _ h in
    let ((r', em₂), second, m) = >>=-eq-ok (eval_cast cx em₁ r ty) _ k in
    let (al, el) = eval_cast-IsConstant cx em l ty cl pl solid first in
    let (ar, er) = eval_cast-IsConstant cx em₁ r ty cr pr solid second in
    let (e, made, n) =
      >>=-eq-ok (if is_constant l' && is_constant r' then fold l' r' else create_expr op l' r') _
        m in
    let both = both_true _ _ al ar in
    let (known, typed) = folds l' r' e (taken (is_constant l' && is_constant r') _ _ both made) in
    returned (λ result. IsConstant cx result.0 × (result.0.type ≡ ty) × (result.1 ≡ em))
      (known, typed, er ∙ el) n

-- A constant of the type.
abbrev IsImmediate : CType → Var → Type 0
IsImmediate ty v = (is_constant v ≡ true) × (v.type ≡ ty)

imm_signed-IsImmediate : (ty : CType) (n : ℕ) {v : Var} → imm_signed ty n ≡ ok v → IsImmediate ty v
imm_signed-IsImmediate ty n h =
    returned (IsImmediate ty) (refl, refl) (guarded (is_signed ty) _ _ h)

imm_unsigned-IsImmediate :
    (ts : Types) (ty : CType) (n : ℕ) {v : Var} → imm_unsigned ts ty n ≡ ok v → IsImmediate ty v
imm_unsigned-IsImmediate ts ty n {v} h =
    let (size, _, k) = >>=-eq-ok (size_of ts ty) _ (guarded (is_unsigned ty) _ _ h) in
    either (ltb size 8) (size == 4 || size == 2 || size == 1) (n % 2 ^ (8 * size)) k
  where
    either :
        (narrow fits : Bool) (m : ℕ)
        → (if narrow
            then (do guard fits assertion; ok (var_numeric ty m))
            else ok (var_numeric ty n))
          ≡ ok v
        → IsImmediate ty v
    either true fits m h = returned (IsImmediate ty) (refl, refl) (guarded fits _ _ h)
    either false fits m h = returned (IsImmediate ty) (refl, refl) h

integer-IsImmediate :
    (cx : Context) (ty : CType) (op : OpType) (l r : Var) {v : Var}
    → eval_integer_immediate cx ty op l r ≡ ok v
    → IsImmediate ty v
unfolding eval_integer_immediate
integer-IsImmediate cx ty op l r {v} h = either (is_signed ty) h
  where
    either :
        (signed : Bool)
        → (if signed
            then (do n ← signed_op op (low_word l.imm) (low_word r.imm); imm_signed ty n)
            else (do
              n ← unsigned_op op (low_word l.imm) (low_word r.imm)
              imm_unsigned cx.types ty n))
          ≡ ok v
        → IsImmediate ty v
    either true h =
        let (n, _, k) = >>=-eq-ok (signed_op op (low_word l.imm) (low_word r.imm)) _ h in
        imm_signed-IsImmediate ty n k
    either false h =
        let (n, _, k) = >>=-eq-ok (unsigned_op op (low_word l.imm) (low_word r.imm)) _ h in
        imm_unsigned-IsImmediate cx.types ty n k

arithmetic_constant :
    (cx : Context) (ty : CType) (op : OpType) (l r : Var) {v : Var}
    → eval_arithmetic_immediate cx ty op l r ≡ ok v
    → is_constant v ≡ true
unfolding eval_arithmetic_immediate
arithmetic_constant cx ty op l r {v} h = either (is_signed ty || is_unsigned ty || is_pointer ty) h
  where
    either :
        (whole : Bool)
        → (if whole
            then eval_integer_immediate cx ty op l r
            else ok
                (var_numeric (basic (type_of ty) false) (cx.real_op op (type_of ty) l.imm r.imm)))
          ≡ ok v
        → is_constant v ≡ true
    either true h = (integer-IsImmediate cx ty op l r h).0
    either false h = returned (λ v. is_constant v ≡ true) refl h

fold_arithmetic-IsConstant :
    (cx : Context) (ty : CType) (op : OpType)
    → is_void ty ≡ false
    → (l r : Var) (e : Expression) → fold_arithmetic cx ty op l r ≡ ok e
    → IsConstant cx e × (e.type ≡ ty)
fold_arithmetic-IsConstant cx ty op solid l r e h =
    let (v, made, k) = >>=-eq-ok (eval_arithmetic_immediate cx ty op l r) _ h in
    cast-IsConstant cx v ty k (arithmetic_constant cx ty op l r made) solid

fold_integer-IsConstant :
    (cx : Context) (ty : CType) (op : OpType)
    → is_void ty ≡ false
    → (l r : Var) (e : Expression) → fold_integer cx ty op l r ≡ ok e
    → IsConstant cx e × (e.type ≡ ty)
fold_integer-IsConstant cx ty op solid l r e h =
    let (v, made, k) = >>=-eq-ok (eval_integer_immediate cx ty op l r) _ h in
    cast-IsConstant cx v ty k (integer-IsImmediate cx ty op l r made).0 solid

fold_and-IsConstant :
    (cx : Context) (ty : CType) (l r : Var) (e : Expression)
    → fold_and cx ty l r ≡ ok e
    → IsConstant cx e × (e.type ≡ ty)
fold_and-IsConstant cx ty l r e h =
    let (v, made, k) = >>=-eq-ok (eval_integer_immediate cx ty op_and l r) _ h in
    let (c, typed) = integer-IsImmediate cx ty op_and l r made in
    let (known, same) = as_expr-IsConstant cx v k c in (known, same ∙ typed)

with_known {ℓ} :
    {A B : Type ℓ} (run : Run A) (next : A → Run B) {a : A} {b : B}
    → run ≡ ok a
    → (run >>= next) ≡ ok b
    → next a ≡ ok b
with_known run next {b} e h = subst (λ run. (run >>= next) ≡ ok b) e h

-- On two constants that are no bit-fields, an operator that returns gives a constant of the type to
-- which both are converted, if that is not void, and emits no statement and makes no temporary.
pub operate-IsConstant :
    (o : Operator) (cx : Context) (em em' : Emitter) (l r : Var) (e : Expression) (ty : CType)
    → usual_arithmetic_conversion cx.types l.type r.type ≡ ok ty
    → is_void ty ≡ false
    → is_constant l ≡ true
    → is_field l ≡ false
    → is_constant r ≡ true
    → is_field r ≡ false
    → operate o cx em l r ≡ ok (e, em')
    → IsConstant cx e × (e.type ≡ ty) × (em' ≡ em)
unfolding operate mul ediv modulo and or xor
operate-IsConstant times cx em em' l r e ty conv solid cl pl cr pr h =
    converted-IsConstant cx em ty op_mul (fold_arithmetic cx ty op_mul) l r
      (fold_arithmetic-IsConstant cx ty op_mul solid) cl pl cr pr solid
      (with_known (usual_arithmetic_conversion cx.types l.type r.type) _ conv h)
operate-IsConstant divided cx em em' l r e ty conv solid cl pl cr pr h =
    converted-IsConstant cx em ty op_div (fold_arithmetic cx ty op_div) l r
      (fold_arithmetic-IsConstant cx ty op_div solid) cl pl cr pr solid
      (with_known (usual_arithmetic_conversion cx.types l.type r.type) _ conv h)
operate-IsConstant remainder cx em em' l r e ty conv solid cl pl cr pr h =
    converted-IsConstant cx em ty op_mod (fold_integer cx ty op_mod) l r
      (fold_integer-IsConstant cx ty op_mod solid) cl pl cr pr solid
      (guarded (is_integer ty) _ _
        (with_known (usual_arithmetic_conversion cx.types l.type r.type) _ conv h))
operate-IsConstant bits_and cx em em' l r e ty conv solid cl pl cr pr h =
    converted-IsConstant cx em ty op_and (fold_and cx ty) l r (fold_and-IsConstant cx ty) cl pl cr
      pr solid
      (with_known (usual_arithmetic_conversion cx.types l.type r.type) _ conv
        (guarded (is_integer l.type && is_integer r.type) _ _ h))
operate-IsConstant bits_or cx em em' l r e ty conv solid cl pl cr pr h =
    converted-IsConstant cx em ty op_or (fold_integer cx ty op_or) l r
      (fold_integer-IsConstant cx ty op_or solid) cl pl cr pr solid
      (with_known (usual_arithmetic_conversion cx.types l.type r.type) _ conv
        (guarded (is_integer l.type && is_integer r.type) _ _ h))
operate-IsConstant bits_xor cx em em' l r e ty conv solid cl pl cr pr h =
    converted-IsConstant cx em ty op_xor (fold_integer cx ty op_xor) l r
      (fold_integer-IsConstant cx ty op_xor solid) cl pl cr pr solid
      (with_known (usual_arithmetic_conversion cx.types l.type r.type) _ conv
        (guarded (is_integer l.type && is_integer r.type) _ _ h))
