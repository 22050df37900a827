-- ===== src/Tokenize/Number/Constant.antt =====
-- The type of an integer constant against the table of the C standard (6.4.4.1), in which `long`
-- and `long long` are one type here.
use lacc.Base.{
  ℕ, ◌-◌, ◌^◌, ◌<◌, ◌≤◌, Bool, true, false, List, [], ◌∷◌, leb, if◌then◌else◌, ◌≡◌, arith,
}
use lacc.Types.Defs.{CType, basic, int, long}
use lacc.Tokenize.Number.{Suffix, constant_integer_type}

-- The largest value of an integer type of the table.
abbrev pub largest : CType → ℕ
largest t =
    let bits : ℕ = elim t.kind [ int ↦ 32 | _ ↦ 64 ] in
    if t.unsigned then 2 ^ bits - 1 else 2 ^ (bits - 1) - 1

-- The types that a constant may have, in the order in which they are tried.
abbrev pub candidates : Suffix → Bool → List CType
candidates suffix is_decimal =
    let i = basic int false in
    let u = basic int true in
    let l = basic long false in
    let ul = basic long true in
    if suffix.u
    then if suffix.l then ul ∷ [] else u ∷ ul ∷ []
    else if suffix.l
    then if is_decimal then l ∷ [] else l ∷ ul ∷ []
    else if is_decimal
    then i ∷ l ∷ []
    else i ∷ u ∷ l ∷ ul ∷ []

-- The first type that can represent the value; `unsigned long` where the table has none, as the
-- code does with a warning.
abbrev pub first_fit : ℕ → List CType → CType
first_fit v [] = basic long true
first_fit v (t ∷ ts) = if leb v (largest t) then t else first_fit v ts

-- For every value of 64 bits, every suffix and either base, the type of the constant is the first
-- one of the standard's list that can represent the value, and it represents the value.
pub constant_integer_type-first_fit :
    (v : ℕ) (suffix : Suffix) (is_decimal : Bool)
    → v < 2 ^ 64
    → (constant_integer_type v suffix is_decimal ≡ first_fit v (candidates suffix is_decimal))
      × (v ≤ largest (constant_integer_type v suffix is_decimal))
unfolding constant_integer_type
constant_integer_type-first_fit v suffix is_decimal h = (ground arith, ground arith)
