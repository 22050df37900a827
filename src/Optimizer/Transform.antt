-- ===== src/Optimizer/Transform.antt =====
-- src/optimizer/transform.c, and `is_live_after` of src/optimizer/optimize.c.
pub mod Stores
pub mod Rounds
use lacc.Base.{
  ℕ, suc, ◌-◌, Bool, true, false, not, ◌&&◌, Option, none, some, List, [], ◌∷◌, ◌==◌, if◌then◌else◌,
  Run, ok, err, assertion, undefined, demand, guard, ◌>>=◌, ◌>>◌, ◌≡◌, refl,
}
use lacc.Types.Defs.{is_object, Types}
use lacc.Types.Equal.{type_equal}
use lacc.Ir.{
  is_link_none, Symbols, get_symbol, kind_code, Var, is_field, is_identity, has_side_effects,
  st_expr, is_assign, Statement,
}
use lacc.Ir.Bits.{test}

-- Whether the symbol is live behind the statement, where optimization is on or off.
unfoldable pub is_live_after : Bool → Symbols → ℕ → Statement → Run Bool
is_live_after level syms i st = do
  sym ← get_symbol syms i
  if level && is_object sym.type
      then (do guard (not (sym.index == 0)) assertion; ok (test st.out (sym.index - 1)))
      else ok true

-- `a && b` where `b` is computed only after a true `a`.
infixr 35 ◌and_then◌
abbrev pub ◌and_then◌ : Run Bool → Run Bool → Run Bool
a and_then b = do first ← a; elim first [ true ↦ b | false ↦ ok false ]

pub and_then-eq-ok : (a b : Run Bool) → (a and_then b) ≡ ok true → (a ≡ ok true) × (b ≡ ok true)
and_then-eq-ok (ok true) b h = (refl, h)
and_then-eq-ok (ok false) b h = cc
and_then-eq-ok (err e) b h = cc

abbrev pub same_symbol : Option ℕ → Option ℕ → Bool
same_symbol none none = true
same_symbol (some i) (some j) = i == j
same_symbol _ _ = false

unfoldable pub var_equal : ℕ → Types → Var → Var → Run Bool
var_equal f ts a b =
    type_equal f ts a.type b.type
    and_then ok (
        same_symbol a.symbol b.symbol
        && kind_code a.kind == kind_code b.kind
        && a.field_width == b.field_width
        && a.field_offset == b.field_offset
        && a.offset == b.offset)

-- The symbol of the target of a store.
abbrev pub target : Statement → Run ℕ
target s = demand s.t.symbol undefined

abbrev pub is_direct : Var → Bool
is_direct v = kind_code v.kind == 0

unfoldable pub can_merge : Bool → ℕ → Types → Symbols → Statement → Statement → Run Bool
unfolding var_equal is_live_after
can_merge level f ts syms s₁ s₂ =
    ok (is_assign s₁.st && is_assign s₂.st)
    and_then is_identity f ts s₂.expr
    and_then var_equal f ts s₁.t s₂.expr.l
    and_then type_equal f ts s₁.t.type s₂.t.type
    and_then ok (is_direct s₁.t)
    and_then (do i ← target s₁; sym ← get_symbol syms i; ok (is_link_none sym.linkage))
    and_then ok (not (is_field s₁.t))
    and_then (do i ← target s₁; live ← is_live_after level syms i s₂; ok (not live))

-- The loop: `s₁` is the statement in front of the rest.
unfoldable pub merge_from :
    Bool → ℕ → Types → Symbols → Statement → List Statement → Run (List Statement)
unfolding can_merge
merge_from level f ts syms s₁ [] = ok (s₁ ∷ [])
merge_from level f ts syms s₁ (s₂ ∷ rest) = do
  merge ← can_merge level f ts syms s₁ s₂
  elim merge [
    | true ↦ merge_from level f ts syms (record s₁ { t = s₂.t }) rest
    | false ↦ do rest' ← merge_from level f ts syms s₂ rest; ok (s₁ ∷ rest')
  ]

unfoldable pub merge_chained_assignment :
    Bool → ℕ → Types → Symbols → List Statement → Run (List Statement)
unfolding merge_from
merge_chained_assignment level f ts syms [] = ok []
merge_chained_assignment level f ts syms (s ∷ rest) = merge_from level f ts syms s rest

-- The test of the loop of `dead_store_elimination`.
unfoldable pub is_dead_store : Bool → Symbols → Statement → Run Bool
unfolding is_live_after
is_dead_store level syms s =
    ok (is_assign s.st && is_direct s.t)
    and_then (do i ← target s; live ← is_live_after level syms i s; ok (not live))
    and_then (do i ← target s; sym ← get_symbol syms i; ok (is_link_none sym.linkage))

abbrev pub without_store : Statement → List Statement → List Statement
without_store s rest = if has_side_effects s.expr then record s { st = st_expr } ∷ rest else rest

-- The code that is left, and the number of stores that went.
unfoldable pub dead_store_elimination : Bool → Symbols → List Statement → Run (List Statement × ℕ)
unfolding is_dead_store
dead_store_elimination level syms [] = ok ([], 0)
dead_store_elimination level syms (s ∷ rest) = do
  dead ← is_dead_store level syms s
  (rest', c) ← dead_store_elimination level syms rest
  ok (if dead then (without_store s rest', suc c) else (s ∷ rest', c))
