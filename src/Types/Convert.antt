-- ===== src/Types/Convert.antt =====
-- src/parser/typetree.c: `promote_integer` and `usual_arithmetic_conversion`.
pub mod Table
use lacc.Base.{
  ℕ, Bool, true, false, ◌||◌, ltb, if◌then◌else◌, Run, err, ok, assertion, ◌>>=◌, ◌>>◌, guard,
}
use lacc.Types.Defs.{
  CType, basic, has_kind, int, float, double, ldouble, is_integer, is_arithmetic, is_unsigned,
  Types, remove_qualifiers,
}
use lacc.Types.Query.{size_of}

unfoldable pub promote_integer : Types → CType → Run CType
promote_integer ts ty = do
  guard (is_integer ty) assertion
  n ← size_of ts ty
  ok (if ltb n 4 then basic int false else ty)

convert_integers : Types → CType → CType → Run CType
unfolding promote_integer
convert_integers ts t₁ t₂ = do
  p₁ ← promote_integer ts t₁
  p₂ ← promote_integer ts t₂
  n₁ ← size_of ts p₁
  n₂ ← size_of ts p₂
  ok (if ltb n₂ n₁ then p₁ else if ltb n₁ n₂ then p₂ else if is_unsigned p₁ then p₁ else p₂)

unfoldable pub usual_arithmetic_conversion : Types → CType → CType → Run CType
unfolding convert_integers
usual_arithmetic_conversion ts t₁ t₂ = do
  guard (is_arithmetic t₁) assertion
  guard (is_arithmetic t₂) assertion
  res ←
      if has_kind ldouble t₁ || has_kind ldouble t₂
      then ok (basic ldouble false)
      else if has_kind double t₁ || has_kind double t₂
      then ok (basic double false)
      else if has_kind float t₁ || has_kind float t₂
      then ok (basic float false)
      else convert_integers ts t₁ t₂
  ok (remove_qualifiers res)
