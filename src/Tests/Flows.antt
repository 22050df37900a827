-- ===== src/Tests/Flows.antt =====
-- A function of two blocks: `y = 1; y = 2; return x + y;`.
use lacc.Base.{
  ℕ, zero, suc, ◌+◌, ◌<◌, Bool, true, false, Option, none, some, List, [], ◌∷◌, ok, err, exhausted,
  ok_injective, ◌≡◌, refl, sym, ◌∙◌, ap, arith,
}
use lacc.Types.Defs.{int, basic}
use lacc.Ir.{
  definition, link_none, Symbol, Symbols, VarKind, direct, immediate, Var, op_cast, op_add,
  Expression, st_assign, Statement, Block, Blocks, get_block,
}
use lacc.Ir.Bits.{Word, no_bits, bit, or, test}
use lacc.Optimizer.Liveness.Reads.{HasNumber, named, left, Overwrites, assigned}
use lacc.Optimizer.Liveness.Paths.{LiveAt, later, jump, return_}
use lacc.Optimizer.Transform.{dead_store_elimination}
use lacc.Optimizer.Transform.Stores.{Cleaned}
use lacc.Optimizer.Transform.Rounds.{dead_store_elimination-assigns}
use lacc.Optimizer.Flow.{Flow, serialize_basic_blocks, execute_iterative_dataflow, skip_jump}
use lacc.Optimizer.Flow.Solution.{In, first, behind}
use lacc.Optimizer.Flow.Skip.{
  Chain, stop, hop, Skipped, skip_jump-Skipped, IsEmptyCycle, skip_jump-IsEmptyCycle,
}
use lacc.Optimizer.Flow.Sound.{
  IsClosed, execute_iterative_dataflow-LiveAt, dead_store_elimination-LiveAt,
}
use lacc.Optimizer.Flow.Serialize.{serialize_basic_blocks-IsClosed}
use lacc.Optimizer.Flow.Depth.{IsGraph, serialize_basic_blocks-total}

abbrev variable : ℕ → Symbol
variable n = record {
  name = b'x' ∷ [];
  type = basic int false;
  symtype = definition;
  linkage = link_none;
  referenced = true;
  n = 0;
  depth = 2;
  index = n;
}

abbrev operand : VarKind → Option ℕ → ℕ → Var
operand k symbol value = record {
  kind = k;
  type = basic int false;
  symbol = symbol;
  offset = 0;
  field_width = 0;
  field_offset = 0;
  lvalue = false;
  imm = value;
}

abbrev constant_of : ℕ → Expression
constant_of v = record {
  op = op_cast;
  type = basic int false;
  l = operand immediate none v;
  r = operand immediate none 0;
}

abbrev sum : Expression
sum = record {
  op = op_add;
  type = basic int false;
  l = operand direct (some 0) 0;
  r = operand direct (some 1) 0;
}

abbrev store : Word → ℕ → Statement
store out v = record {
  st = st_assign;
  asm_index = 0;
  out = out;
  t = operand direct (some 1) 0;
  expr = constant_of v;
}

abbrev enter : Word → Word → Bool → Block
enter x xy black = record {
  code = store x 1 ∷ store xy 2 ∷ [];
  expr = constant_of 0;
  jump0 = some 1;
  jump1 = none;
  has_return_value = false;
  black = black;
  live_in = x;
  live_out = xy;
}

abbrev leave : Word → Bool → Block
leave xy black = record {
  code = [];
  expr = sum;
  jump0 = none;
  jump1 = none;
  has_return_value = true;
  black = black;
  live_in = xy;
  live_out = no_bits;
}

-- The function before and behind the analysis.
abbrev variables : Symbols
variables = variable 1 ∷ variable 2 ∷ []

abbrev plain : Bool → List ℕ → Flow
plain black listed = record {
  blocks = enter no_bits no_bits black ∷ leave no_bits black ∷ [];
  syms = variables;
  blocklist = listed;
  symbols = 0 ∷ 1 ∷ [];
}

abbrev solved : Flow
solved = record {
  blocks = enter (bit 0) (or (bit 1) (bit 0)) true ∷ leave (or (bit 1) (bit 0)) true ∷ [];
  syms = variables;
  blocklist = 0 ∷ 1 ∷ [];
  symbols = 0 ∷ 1 ∷ [];
}

plain-solved : execute_iterative_dataflow 4 [] (plain true (0 ∷ 1 ∷ [])) ≡ ok solved
unfolding execute_iterative_dataflow lacc.Optimizer.Flow.traverse lacc.Optimizer.Flow.visit_liveness
    lacc.Optimizer.Liveness.live_variable_analysis bit or
plain-solved = refl

solved-IsClosed : IsClosed solved.blocks (0 ∷ 1 ∷ [])
solved-IsClosed = record { first = one; second = two }
  where
    one :
        (i j : ℕ) (b : Block)
        → In i (0 ∷ 1 ∷ [])
        → get_block solved.blocks i ≡ ok b
        → b.jump0 ≡ some j
        → In j (0 ∷ 1 ∷ [])
    one zero j b at there e =
        let known : some 1 ≡ some j = ap (λ (c : Block). c.jump0) (ok_injective there) ∙ e in
        behind (first (cc known))
    one (suc zero) j b at there e =
        let known : none ≡ some j = ap (λ (c : Block). c.jump0) (ok_injective there) ∙ e in
        absurd (cc known)
    one (suc (suc i)) j b at there e = cc

    two :
        (i k j : ℕ) (b : Block)
        → In i (0 ∷ 1 ∷ [])
        → get_block solved.blocks i ≡ ok b
        → b.jump0 ≡ some k
        → b.jump1 ≡ some j
        → In j (0 ∷ 1 ∷ [])
    two zero k j b at there d e =
        let known : none ≡ some j = ap (λ (c : Block). c.jump1) (ok_injective there) ∙ e in
        absurd (cc known)
    two (suc zero) k j b at there d e =
        let known : none ≡ some j = ap (λ (c : Block). c.jump1) (ok_injective there) ∙ e in
        absurd (cc known)
    two (suc (suc i)) k j b at there d e = cc

abbrev entry : Block
entry = enter (bit 0) (or (bit 1) (bit 0)) true

x-kept : (out : Word) (v : ℕ) → ¬ Overwrites variables 0 (store out v)
x-kept out v (assigned {k = k} st kind sym_eq n scalar) =
    let known : 1 ≡ k = cc sym_eq in
    let symbol : variable 2 ≡ n.symbol = ok_injective (rw (← known) at n.there) in
    let number : 2 ≡ 1 = ap (λ (s : Symbol). s.index) symbol ∙ n.number in
    absurd (omega (arith, number))

abbrev x_number : HasNumber variables 0 0
x_number = record { symbol = variable 1; there = refl; number = refl; room = omega arith }

x-LiveAt : LiveAt [] variables solved.blocks 0 entry entry.code
x-LiveAt = later (x-kept (bit 0) 1) (
    later (x-kept (or (bit 1) (bit 0)) 2)
      (jump refl refl (return_ refl (left (named refl refl x_number refl)))))

execute_iterative_dataflow-LiveAt_example : test (bit 0) 0 ≡ true
execute_iterative_dataflow-LiveAt_example =
    execute_iterative_dataflow-LiveAt 4 [] (plain true (0 ∷ 1 ∷ [])) solved plain-solved
      solved-IsClosed 0 0 entry (first refl) refl x-LiveAt

entry-clean :
    dead_store_elimination true variables entry.code ≡ ok (store (or (bit 1) (bit 0)) 2 ∷ [], 1)
unfolding dead_store_elimination bit or
entry-clean = refl

dead_store_elimination-LiveAt_example :
    Cleaned [] variables solved.blocks entry entry.code (store (or (bit 1) (bit 0)) 2 ∷ [])
dead_store_elimination-LiveAt_example =
    dead_store_elimination-LiveAt 4 [] (plain true (0 ∷ 1 ∷ [])) solved plain-solved solved-IsClosed
      0 1 entry (store (or (bit 1) (bit 0)) 2 ∷ []) (first refl) refl entry-clean

dead_store_elimination-assigns_example : 1 + 1 ≡ 2
dead_store_elimination-assigns_example =
    dead_store_elimination-assigns true variables entry.code (store (or (bit 1) (bit 0)) 2 ∷ []) 1
      entry-clean

plain-white : (k : ℕ) (b : Block) → get_block (plain false []).blocks k ≡ ok b → b.black ≡ false
plain-white zero b there = ap (λ (c : Block). c.black) (sym (ok_injective there))
plain-white (suc zero) b there = ap (λ (c : Block). c.black) (sym (ok_injective there))
plain-white (suc (suc k)) b there = cc

plain-listed : serialize_basic_blocks 3 (plain false []) 0 ≡ ok (plain true (0 ∷ 1 ∷ []))
unfolding serialize_basic_blocks
plain-listed = refl

serialize_basic_blocks-IsClosed_example :
    In 0 (0 ∷ 1 ∷ []) × IsClosed (plain true []).blocks (0 ∷ 1 ∷ [])
serialize_basic_blocks-IsClosed_example =
    serialize_basic_blocks-IsClosed 3 (plain false []) 0 (plain true (0 ∷ 1 ∷ [])) refl plain-white
      plain-listed

plain-IsGraph : IsGraph (plain false []).blocks
plain-IsGraph = record { first = one; second = two }
  where
    one :
        (k j : ℕ) (b : Block)
        → get_block (plain false []).blocks k ≡ ok b
        → b.jump0 ≡ some j
        → j < 2
    one zero j b there e =
        let known : some 1 ≡ some j = ap (λ (c : Block). c.jump0) (ok_injective there) ∙ e in
        ground (arith, known)
    one (suc zero) j b there e =
        let known : none ≡ some j = ap (λ (c : Block). c.jump0) (ok_injective there) ∙ e in
        absurd (cc known)
    one (suc (suc i)) j b there e = cc

    two :
        (k j : ℕ) (b : Block)
        → get_block (plain false []).blocks k ≡ ok b
        → b.jump1 ≡ some j
        → j < 2
    two zero j b there e =
        let known : none ≡ some j = ap (λ (c : Block). c.jump1) (ok_injective there) ∙ e in
        absurd (cc known)
    two (suc zero) j b there e =
        let known : none ≡ some j = ap (λ (c : Block). c.jump1) (ok_injective there) ∙ e in
        absurd (cc known)
    two (suc (suc i)) j b there e = cc

serialize_basic_blocks-total_example :
    (w' : Flow) × (serialize_basic_blocks 3 (plain false []) 0 ≡ ok w')
serialize_basic_blocks-total_example =
    serialize_basic_blocks-total (plain false []) 0 plain-IsGraph (omega arith)

-- A jump into `for (;;);`.
abbrev idle : Block
idle = record {
  code = [];
  expr = constant_of 0;
  jump0 = some 1;
  jump1 = none;
  has_return_value = false;
  black = false;
  live_in = no_bits;
  live_out = no_bits;
}

abbrev endless : Blocks
endless = enter no_bits no_bits false ∷ idle ∷ []

endless-IsEmptyCycle : IsEmptyCycle endless (λ t. t ≡ 1)
endless-IsEmptyCycle t e = (idle, 1, rw e refl, refl, refl, refl)

skip_jump-IsEmptyCycle_example : skip_jump 1000 false endless 0 ≡ err exhausted
skip_jump-IsEmptyCycle_example =
    skip_jump-IsEmptyCycle 1000 false endless (λ t. t ≡ 1) 0 1 (enter no_bits no_bits false)
      endless-IsEmptyCycle (λ e. omega (arith, e)) refl refl refl

-- A jump past an empty block.
abbrev onward : Blocks
onward = enter no_bits no_bits false ∷ record idle { jump0 = some 2 } ∷ leave no_bits false ∷ []

onward-Chain : Chain onward 0 1 1
onward-Chain = hop (λ e. omega (arith, e)) refl refl refl (stop (λ e. omega (arith, e)) refl refl)

skip_jump-Skipped_example :
    (blocks' : Blocks) × (skip_jump 2 false onward 0 ≡ ok blocks') × Skipped false blocks' 0
skip_jump-Skipped_example =
    skip_jump-Skipped false onward 0 1 1 (enter no_bits no_bits false) refl refl onward-Chain
