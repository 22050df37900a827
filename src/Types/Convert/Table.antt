-- ===== src/Types/Convert/Table.antt =====
-- `usual_arithmetic_conversion` against the rules of the C standard (6.3.1.8), which are written
-- out over kinds, ranks and widths.
use lacc.Base.{ℕ, Bool, true, false, ◌&&◌, ◌||◌, leb, ltb, if◌then◌else◌, ok, ◌≡◌, arith}
use lacc.Types.Defs.{
  TypeKind, void, bool, char, short, int, long, float, double, ldouble, pointer, function, array,
  struct, union, placeholder, CType, basic, code, Types,
}
use lacc.Types.Query.{size_of}
use lacc.Types.Equal.{◌≐◌, kind_eq}
use lacc.Types.Convert.{usual_arithmetic_conversion}

-- A basic type with qualifiers.
abbrev pub qualified : TypeKind → Bool → Bool → Bool → Bool → CType
qualified k u c v r =
    let plain = basic k u in record plain { const = c; volatile = v; restrict = r }

-- The conversion rank of an integer kind, and the width in bits of one that promotion leaves.
abbrev pub rank : TypeKind → ℕ
rank bool = 0
rank char = 1
rank short = 2
rank int = 3
rank long = 4
rank _ = 5

abbrev pub width : TypeKind → ℕ
width long = 64
width _ = 32

-- The integer promotions: every kind below `int` fits `int`.
abbrev promoted_kind : TypeKind → TypeKind
promoted_kind k = if ltb (rank k) (rank int) then int else k

abbrev promoted_sign : TypeKind → Bool → Bool
promoted_sign k u = if ltb (rank k) (rank int) then false else u

-- The rules for two promoted integer types, in the order in which the standard lists them.
abbrev common_integer : TypeKind → Bool → TypeKind → Bool → CType
common_integer k u j v =
    if kind_eq k j && u ≐ v
    then basic k u
    else if u ≐ v
    then (if ltb (rank j) (rank k) then basic k u else basic j v)
    else let unsigned_kind = if u then k else j in
      let signed_kind = if u then j else k in
      if leb (rank signed_kind) (rank unsigned_kind)
      then basic unsigned_kind true
      else if ltb (width unsigned_kind) (width signed_kind)
      then basic signed_kind false
      else basic signed_kind true

abbrev pub common_real : TypeKind → Bool → TypeKind → Bool → CType
common_real k u j v =
    let has = λ (x : TypeKind). kind_eq k x || kind_eq j x in
    if has ldouble
    then basic ldouble false
    else if has double
    then basic double false
    else if has float
    then basic float false
    else common_integer (promoted_kind k) (promoted_sign k u) (promoted_kind j) (promoted_sign j v)

abbrev pub IsArithmetic : TypeKind → Type 0
IsArithmetic k = (leb (code bool) (code k) && leb (code k) (code ldouble)) ≡ true

-- For any two basic arithmetic types, whatever their qualifiers, the conversion succeeds and gives
-- the unqualified type that the rules of the C standard give.
pub usual_arithmetic_conversion-table :
    (ts : Types) (k j : TypeKind) (u v c₁ c₂ v₁ v₂ r₁ r₂ : Bool)
    → IsArithmetic k
    → IsArithmetic j
    → usual_arithmetic_conversion ts (qualified k u c₁ v₁ r₁) (qualified j v c₂ v₂ r₂)
      ≡ ok (common_real k u j v)
unfolding usual_arithmetic_conversion size_of lacc.Types.Convert.promote_integer
    lacc.Types.Defs.remove_qualifiers
usual_arithmetic_conversion-table ts bool j u v c₁ c₂ v₁ v₂ r₁ r₂ h g = ground arith
usual_arithmetic_conversion-table ts _ j u v c₁ c₂ v₁ v₂ r₁ r₂ h g = ground arith
