-- ===== src/Optimizer/Liveness.antt =====
-- src/optimizer/liveness.c.
pub mod Reads
pub mod Inversion
pub mod Paths
use lacc.Base.{
  ℕ, zero, suc, ◌-◌, Bool, true, false, not, ◌&&◌, ◌||◌, Option, none, some, List, [], ◌∷◌, ◌==◌,
  leb, if◌then◌else◌, length, set, Run, ok, err, assertion, undefined, exhausted, guard, ◌>>=◌,
  ◌>>◌,
}
use lacc.Types.Defs.{
  bool, pointer, code, CType, type_of, is_object, is_pointer, is_struct_or_union, Member, Types,
  get_typetree_handle,
}
use lacc.Ir.{
  SymType, literal, constant, Symbol, Symbols, get_symbol, VarKind, direct, address, deref,
  immediate, Var, Expression, is_unary, StType, st_expr, st_param, st_va_start, st_assign,
  st_vla_alloc, st_asm, Statement, Block, Blocks, get_block,
}
use lacc.Ir.Bits.{Word, no_bits, all_bits, bit, or, and_not, same}

-- `is_scalar(type)`
abbrev pub is_scalar : CType → Bool
is_scalar ty = leb (code bool) (code (type_of ty)) && leb (code (type_of ty)) (code pointer)

-- The symbol of a variable that is read through.
abbrev pub symbol_of : Symbols → Var → Run Symbol
symbol_of syms v = elim v.symbol [ none ↦ err undefined | some i ↦ get_symbol syms i ]

-- `1ul << (symbol->index - 1)`
abbrev pub index_bit : Symbol → Run Word
index_bit sym = do guard (not (sym.index == 0)) assertion; ok (bit (sym.index - 1))

abbrev def_case : VarKind → Symbols → Var → Run Word
def_case direct syms v = do
  sym ← symbol_of syms v
  ok (if is_scalar sym.type && not (sym.index == 0) then bit (sym.index - 1) else no_bits)
def_case _ syms v = ok no_bits

unfoldable pub set_def_bit : Symbols → Var → Run Word
set_def_bit syms v = def_case v.kind syms v

abbrev pub use_object : Symbols → Var → Run Word
use_object syms v = do
  sym ← symbol_of syms v
  if is_object sym.type then index_bit sym else ok no_bits

abbrev is_value : SymType → Bool
is_value literal = true
is_value constant = true
is_value _ = false

abbrev use_constant : Option ℕ → Symbols → Run Word
use_constant none syms = ok no_bits
use_constant (some i) syms = do
  sym ← get_symbol syms i
  guard (is_value sym.symtype) assertion
  index_bit sym

abbrev use_case : VarKind → Symbols → Var → Run Word
use_case deref syms v = ok all_bits
use_case direct syms v = use_object syms v
use_case address syms v = use_object syms v
use_case immediate syms v = use_constant v.symbol syms

unfoldable pub set_use_bit : Symbols → Var → Run Word
set_use_bit syms v = use_case v.kind syms v

-- `use`
unfoldable pub use_of : Symbols → Expression → Run Word
unfolding set_use_bit
use_of syms e =
    if is_unary e.op
    then set_use_bit syms e.l
    else (do right ← set_use_bit syms e.r; left ← set_use_bit syms e.l; ok (or right left))

-- The loop over the members of a type.
any_pointer : (CType → Run Bool) → List Member → Run Bool
any_pointer rec [] = ok false
any_pointer rec (m ∷ ms) = do found ← rec m.type; if found then ok true else any_pointer rec ms

pointer_fuel : ℕ → Types → CType → Run Bool
unfolding any_pointer
pointer_fuel zero ts ty = err exhausted
pointer_fuel (suc f) ts ty =
    if is_pointer ty
    then ok true
    else if is_struct_or_union ty
    then (do t ← get_typetree_handle ts ty.ref; any_pointer (pointer_fuel f ts) t.members)
    else ok false

-- A struct is nested in another only once it is sealed, so the fuel is the number of trees.
unfoldable pub is_or_has_pointer : Types → CType → Run Bool
unfolding pointer_fuel
is_or_has_pointer ts ty = pointer_fuel (suc (length ts)) ts ty

-- The switch of `uses` on the kind of statement.
abbrev pub uses_case : StType → Types → Symbols → Statement → Word → Run Word
uses_case st_assign ts syms s r = elim s.t.kind [
  | deref ↦ elim s.t.symbol [ none ↦ ok r | some i ↦ do more ← use_object syms s.t; ok (or r more) ]
  | _ ↦ ok r
]
uses_case st_param ts syms s r = do
  has_pointer ← is_or_has_pointer ts s.expr.type
  ok (if has_pointer then all_bits else r)
uses_case st_asm ts syms s r = err assertion
uses_case _ ts syms s r = ok r

unfoldable pub uses : Types → Symbols → Statement → Run Word
unfolding use_of is_or_has_pointer
uses ts syms s = do r ← use_of syms s.expr; uses_case s.st ts syms s r

abbrev pub defines_case : StType → Symbols → Statement → Run Word
defines_case st_assign syms s = set_def_bit syms s.t
defines_case st_asm syms s = err assertion
defines_case _ syms s = ok no_bits

-- `def`
unfoldable pub defines : Symbols → Statement → Run Word
unfolding set_def_bit
defines syms s = defines_case s.st syms s

-- The loop over the statements, from the last one backwards: each gets what is live after it. The
-- result has what is live before the first one.
unfoldable pub analyse : Types → Symbols → List Statement → Word → Run (List Statement × Word)
unfolding defines uses or and_not
analyse ts syms [] out = ok ([], out)
analyse ts syms (s ∷ rest) out = do
  (rest', after) ← analyse ts syms rest out
  d ← defines syms s
  u ← uses ts syms s
  let s' = record s { out = after }
  ok (s' ∷ rest', or (and_not after d) u)

-- What the blocks behind a block need.
unfoldable pub from_children : Blocks → Block → Run Word
from_children blocks b = elim b.jump0 [
  | none ↦ ok no_bits
  | some i ↦ do
    first ← get_block blocks i
    elim b.jump1 [
      | none ↦ ok first.live_in
      | some j ↦ do second ← get_block blocks j; ok (or first.live_in second.live_in)
    ]
]

abbrev is_some : Option ℕ → Bool
is_some none = false
is_some (some i) = true

-- Whether the expression of the block is read at its end.
abbrev pub reads_expr : Block → Bool
reads_expr b = is_some b.jump1 || b.has_return_value

-- What is live behind the last statement.
unfoldable pub at_end : Symbols → Block → Word → Run Word
unfolding use_of
at_end syms b out = if reads_expr b then (do u ← use_of syms b.expr; ok (or out u)) else ok out

-- The new block, and whether the set at its start changed.
unfoldable pub live_variable_analysis : Types → Symbols → Blocks → Block → Run (Block × Bool)
unfolding from_children at_end analyse same
live_variable_analysis ts syms blocks b = do
  out ← from_children blocks b
  last ← at_end syms b out
  (code, live) ← analyse ts syms b.code last
  ok (record b { code = code; live_in = live; live_out = out }, not (same b.live_in live))
