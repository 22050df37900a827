-- ===== src/Eval/Word.antt =====
-- The arithmetic of 64 bit integers in constants. A signed result that a long does not hold is undefined.
use Prim.Native.Nat.{bit_and, bit_or, bit_xor}
use lacc.Base.{
  ℕ, ◌+◌, ◌-◌, ◌*◌, ◌/◌, ◌%◌, ◌^◌, Bool, true, false, not, ltb, leb, ◌==◌, if◌then◌else◌, Run, ok,
  err, undefined, assertion, guard, ◌>>=◌, ◌>>◌,
}
use lacc.Types.Equal.{◌≐◌}
use lacc.Ir.{
  OpType, op_add, op_sub, op_mul, op_div, op_mod, op_and, op_or, op_xor, op_shl, op_shr, op_eq,
  op_ne, op_ge, op_gt,
}

-- The sign and the magnitude of a long.
abbrev pub negative : ℕ → Bool
negative u = leb (2 ^ 63) u

abbrev pub magnitude : ℕ → ℕ
magnitude u = if negative u then 2 ^ 64 - u else u

-- The long with a sign and a magnitude.
abbrev pub signed_value : Bool → ℕ → Run ℕ
signed_value true m = do guard (leb m (2 ^ 63)) undefined; ok ((2 ^ 64 - m) % 2 ^ 64)
signed_value false m = do guard (ltb m (2 ^ 63)) undefined; ok m

abbrev signed_sum : Bool → ℕ → Bool → ℕ → Run ℕ
signed_sum s m t n =
    if s ≐ t
    then signed_value s (m + n)
    else if leb n m
    then signed_value s (m - n)
    else signed_value t (n - m)

abbrev differ : ℕ → ℕ → Bool
differ l r = not (negative l ≐ negative r)

-- The quotient must be a long for the remainder as well.
abbrev pub signed_op : OpType → ℕ → ℕ → Run ℕ
signed_op op_add l r = signed_sum (negative l) (magnitude l) (negative r) (magnitude r)
signed_op op_sub l r = signed_sum (negative l) (magnitude l) (not (negative r)) (magnitude r)
signed_op op_mul l r = signed_value (differ l r) (magnitude l * magnitude r)
signed_op op_div l r = do
  guard (not (r == 0)) undefined
  signed_value (differ l r) (magnitude l / magnitude r)
signed_op op_mod l r = do
  guard (not (r == 0)) undefined
  quotient ← signed_value (differ l r) (magnitude l / magnitude r)
  signed_value (negative l) (magnitude l % magnitude r)
signed_op op_and l r = ok (bit_and l r)
signed_op op_or l r = ok (bit_or l r)
signed_op op_xor l r = ok (bit_xor l r)
signed_op op_shl l r = do
  guard (not (negative l)) undefined
  guard (ltb r 64) undefined
  signed_value false (l * 2 ^ r)
signed_op op_shr l r = do
  guard (ltb r 64) undefined
  ok (if negative l then 2 ^ 64 - (2 ^ 64 - l + 2 ^ r - 1) / 2 ^ r else l / 2 ^ r)
signed_op _ l r = err assertion

abbrev pub unsigned_op : OpType → ℕ → ℕ → Run ℕ
unsigned_op op_add l r = ok ((l + r) % 2 ^ 64)
unsigned_op op_sub l r = ok ((l + 2 ^ 64 - r) % 2 ^ 64)
unsigned_op op_mul l r = ok (l * r % 2 ^ 64)
unsigned_op op_div l r = do guard (not (r == 0)) undefined; ok (l / r)
unsigned_op op_mod l r = do guard (not (r == 0)) undefined; ok (l % r)
unsigned_op op_and l r = ok (bit_and l r)
unsigned_op op_or l r = ok (bit_or l r)
unsigned_op op_xor l r = ok (bit_xor l r)
unsigned_op op_shl l r = do guard (ltb r 64) undefined; ok (l * 2 ^ r % 2 ^ 64)
unsigned_op op_shr l r = do guard (ltb r 64) undefined; ok (l / 2 ^ r)
unsigned_op _ l r = err assertion

-- A long, moved so that its order is that of the numbers.
abbrev biased : ℕ → ℕ
biased u = (u + 2 ^ 63) % 2 ^ 64

abbrev compare_op : OpType → ℕ → ℕ → Run Bool
compare_op op_eq l r = ok (l == r)
compare_op op_ne l r = ok (not (l == r))
compare_op op_ge l r = ok (leb r l)
compare_op op_gt l r = ok (ltb r l)
compare_op _ l r = err assertion

abbrev pub signed_compare : OpType → ℕ → ℕ → Run Bool
signed_compare op l r = compare_op op (biased l) (biased r)

abbrev pub unsigned_compare : OpType → ℕ → ℕ → Run Bool
unsigned_compare op l r = compare_op op l r
