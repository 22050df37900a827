-- ===== src/Optimizer/Flow.antt =====
-- src/optimizer/optimize.c. The static arrays `blocklist` and `symbols` are fields of the state, as
-- are the blocks and symbols that the pointers lead to.
pub mod Skip
pub mod Stable
pub mod Solution
pub mod Sound
pub mod Order
pub mod Depth
pub mod Serialize
use lacc.Base.{
  ℕ, zero, suc, ◌+◌, Bool, true, false, not, ◌&&◌, ◌||◌, Option, none, some, List, [], ◌∷◌, ◌++◌,
  ◌==◌, ltb, if◌then◌else◌, set, length, map, Run, ok, err, assertion, undefined, exhausted, demand,
  guard, ◌>>=◌, ◌>>◌,
}
use lacc.Types.Defs.{is_object, is_function, Types}
use lacc.Ir.{
  Symbols, get_symbol, Expression, is_unary, StType, is_assign, st_asm, Statement, Block, Blocks,
  get_block,
}
use lacc.Ir.Bits.{no_bits}
use lacc.Optimizer.Liveness.{reads_expr, live_variable_analysis}
use lacc.Optimizer.Transform.{dead_store_elimination, merge_chained_assignment}

pub record Flow : Type 0 where
  pub blocks : Blocks
  pub syms : Symbols
  pub blocklist : List ℕ
  pub symbols : List ℕ

abbrev pub put_block : Flow → ℕ → Block → Flow
put_block w i b = record w { blocks = set w.blocks i b }

-- The fuel bounds the depth of the recursion: each level colors a block.
unfoldable pub serialize_basic_blocks : ℕ → Flow → ℕ → Run Flow
serialize_basic_blocks zero w i = err exhausted
serialize_basic_blocks (suc f) w i = do
  b ← get_block w.blocks i
  if b.black then ok w else (do
    let seen = put_block w i (record b { black = true })
    let listed = record seen { blocklist = seen.blocklist ++ i ∷ [] }
    elim b.jump0 [
      | none ↦ ok listed
      | some j ↦ do
        w₁ ← serialize_basic_blocks f listed j
        elim b.jump1 [ none ↦ ok w₁ | some k ↦ serialize_basic_blocks f w₁ k ]
    ])

abbrev quiet : Statement → Statement
quiet s = record s { out = no_bits }

-- One round of `initialize_dataflow`.
unfoldable pub initialize_block : Flow → ℕ → Run Flow
initialize_block w i = do
  b ← get_block w.blocks i
  ok (put_block w i (record b { live_in = no_bits; live_out = no_bits; code = map quiet b.code }))

-- A new number is given, if there is one left.
unfoldable pub count_symbol : Flow → Option ℕ → Run (Flow × ℕ)
count_symbol w none = ok (w, 0)
count_symbol w (some i) = do
  sym ← get_symbol w.syms i
  if is_object sym.type
      then ok (
          if sym.index == 0 && ltb (length w.symbols) 64
          then (
            record w {
              syms = set w.syms i (record sym { index = suc (length w.symbols) });
              symbols = w.symbols ++ i ∷ [];
            },
            1,
          )
          else (w, 0))
      else (do guard (sym.index == 0) assertion; ok (w, 0))

-- The switch on the operation.
unfoldable pub count_operands : Flow → Expression → Run (Flow × ℕ)
unfolding count_symbol
count_operands w e = if is_unary e.op then count_symbol w e.l.symbol else (do
  (w₁, n) ← count_symbol w e.r.symbol
  (w₂, m) ← count_symbol w₁ e.l.symbol
  ok (w₂, n + m))

abbrev is_asm : StType → Bool
is_asm st_asm = true
is_asm _ = false

unfoldable pub count_statements : Flow → List Statement → Run (Flow × ℕ)
unfolding count_operands
count_statements w [] = ok (w, 0)
count_statements w (s ∷ rest) = do
  guard (not (is_asm s.st)) assertion
  (w₁, n) ← count_operands w s.expr
  (w₂, m) ← if is_assign s.st then count_symbol w₁ s.t.symbol else ok (w₁, 0)
  (w₃, k) ← count_statements w₂ rest
  ok (w₃, n + m + k)

unfoldable pub enumerate_used_symbols : Flow → ℕ → Run (Flow × ℕ)
unfolding count_statements
enumerate_used_symbols w i = do
  b ← get_block w.blocks i
  (w₁, n) ← count_statements w b.code
  (w₂, m) ← if reads_expr b then count_operands w₁ b.expr else ok (w₁, 0)
  ok (w₂, n + m)

abbrev pub is_none : Option ℕ → Bool
is_none none = true
is_none (some i) = false

abbrev is_empty : List Statement → Bool
is_empty [] = true
is_empty (s ∷ rest) = false

-- A block with no instructions that only jumps on.
abbrev pub forwards : Block → Bool
forwards b = is_empty b.code && not (is_none b.jump0) && is_none b.jump1

abbrev pub jump_of : Bool → Block → Option ℕ
jump_of false b = b.jump0
jump_of true b = b.jump1

abbrev pub with_jump : Bool → Block → Option ℕ → Block
with_jump false b target = record b { jump0 = target }
with_jump true b target = record b { jump1 = target }

-- The inner loop of `skip_empty_blocks`, for one of the two jumps.
unfoldable pub skip_jump : ℕ → Bool → Blocks → ℕ → Run Blocks
skip_jump zero side blocks i = err exhausted
skip_jump (suc f) side blocks i = do
  b ← get_block blocks i
  target ← demand (jump_of side b) undefined
  next ← get_block blocks target
  elim (forwards next) [
    | true ↦ skip_jump f side (set blocks i (with_jump side b next.jump0)) i
    | false ↦ ok blocks
  ]

unfoldable pub skip_empty_blocks : ℕ → Blocks → ℕ → Run Blocks
unfolding skip_jump
skip_empty_blocks f blocks i = do
  b ← get_block blocks i
  elim b.jump0 [
    | none ↦ ok blocks
    | some j ↦ do
      blocks₁ ← skip_jump f false blocks i
      b₁ ← get_block blocks₁ i
      elim b₁.jump1 [ none ↦ ok blocks₁ | some k ↦ skip_jump f true blocks₁ i ]
  ]

-- `traverse`, with the sum of the results.
unfoldable pub traverse : (Flow → ℕ → Run (Flow × ℕ)) → Flow → List ℕ → Run (Flow × ℕ)
traverse visit w [] = ok (w, 0)
traverse visit w (i ∷ is) = do (w₁, n) ← visit w i; (w₂, m) ← traverse visit w₁ is; ok (w₂, n + m)

-- The visits.
unfoldable pub visit_liveness : Types → Flow → ℕ → Run (Flow × ℕ)
visit_liveness ts w i = do
  b ← get_block w.blocks i
  (b', changed) ← live_variable_analysis ts w.syms w.blocks b
  ok (put_block w i b', if changed then 1 else 0)

unfoldable pub visit_stores : Flow → ℕ → Run (Flow × ℕ)
visit_stores w i = do
  b ← get_block w.blocks i
  (code, c) ← dead_store_elimination true w.syms b.code
  ok (put_block w i (record b { code = code }), c)

unfoldable pub visit_merge : ℕ → Types → Flow → ℕ → Run (Flow × ℕ)
visit_merge f ts w i = do
  b ← get_block w.blocks i
  code ← merge_chained_assignment true f ts w.syms b.code
  ok (put_block w i (record b { code = code }), 0)

abbrev visit_initialize : Flow → ℕ → Run (Flow × ℕ)
visit_initialize w i = do w₁ ← initialize_block w i; ok (w₁, 0)

abbrev visit_skip : ℕ → Flow → ℕ → Run (Flow × ℕ)
visit_skip f w i = do blocks ← skip_empty_blocks f w.blocks i; ok (record w { blocks = blocks }, 0)

abbrev visit_white : Flow → ℕ → Run (Flow × ℕ)
visit_white w i = do b ← get_block w.blocks i; ok (put_block w i (record b { black = false }), 0)

unfoldable pub execute_iterative_dataflow : ℕ → Types → Flow → Run Flow
unfolding traverse visit_liveness
execute_iterative_dataflow zero ts w = err exhausted
execute_iterative_dataflow (suc f) ts w = do
  (w₁, changes) ← traverse (visit_liveness ts) w w.blocklist
  elim (changes == 0) [ true ↦ ok w₁ | false ↦ execute_iterative_dataflow f ts w₁ ]

-- The loop of `optimize`, with the fuel of the rounds, of the dataflow and of `type_equal`.
unfoldable pub rounds : ℕ → ℕ → ℕ → Types → Flow → Run Flow
unfolding execute_iterative_dataflow visit_stores visit_merge
rounds zero g e ts w = err exhausted
rounds (suc f) g e ts w = do
  w₁ ← execute_iterative_dataflow g ts w
  (w₂, n) ← traverse visit_stores w₁ w₁.blocklist
  (w₃, m) ← traverse (visit_merge e ts) w₂ w₂.blocklist
  elim (n + m == 0) [ true ↦ ok w₃ | false ↦ rounds f g e ts w₃ ]

unfoldable pub reset_symbol_indexes : Flow → List ℕ → Run Flow
reset_symbol_indexes w [] = ok w
reset_symbol_indexes w (i ∷ is) = do
  sym ← get_symbol w.syms i
  guard (not (sym.index == 0)) assertion
  reset_symbol_indexes (record w { syms = set w.syms i (record sym { index = 0 }) }) is

-- What `optimize` reads of the definition.
pub record Definition : Type 0 where
  pub symbol : ℕ
  pub body : ℕ
  pub asm_statements : ℕ

-- The fuel of each loop.
pub record Fuel : Type 0 where
  pub depth : ℕ
  pub skips : ℕ
  pub rounds : ℕ
  pub passes : ℕ
  pub equal : ℕ

unfoldable pub optimize : Fuel → Bool → Types → Flow → Definition → Run Flow
unfolding serialize_basic_blocks skip_empty_blocks enumerate_used_symbols initialize_block rounds
    reset_symbol_indexes
optimize fuel level ts w def = do
  sym ← get_symbol w.syms def.symbol
  if not level || not (is_function sym.type) || not (def.asm_statements == 0) then ok w else (do
    w₁ ← serialize_basic_blocks fuel.depth (record w { blocklist = []; symbols = [] }) def.body
    (w₂, _) ← traverse (visit_skip fuel.skips) w₁ w₁.blocklist
    (w₃, count) ← traverse enumerate_used_symbols w₂ w₂.blocklist
    w₄ ←
        if ltb count 64
        then (do
          (ready, _) ← traverse visit_initialize w₃ w₃.blocklist
          rounds fuel.rounds fuel.passes fuel.equal ts ready)
        else ok w₃
    w₅ ← reset_symbol_indexes w₄ w₄.symbols
    (w₆, _) ← traverse visit_white w₅ w₅.blocklist
    ok w₆)
