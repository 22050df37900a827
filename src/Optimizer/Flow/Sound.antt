-- ===== src/Optimizer/Flow/Sound.antt =====
-- The iteration of the analysis, and the passes behind it, against paths through the flow graph.
use lacc.Base.{ℕ, true, some, List, ok, ◌≡◌}
use lacc.Types.Defs.{Types}
use lacc.Ir.{Statement, Block, Blocks, get_block}
use lacc.Ir.Bits.{test}
use lacc.Optimizer.Liveness.Paths.{LiveAt, IsSolution, live_from_sound, solved-live_from}
use lacc.Optimizer.Transform.{dead_store_elimination}
use lacc.Optimizer.Transform.Stores.{Cleaned, dead_store_elimination-Cleaned}
use lacc.Optimizer.Flow.{Flow, execute_iterative_dataflow}
use lacc.Optimizer.Flow.Solution.{In, execute_iterative_dataflow-SolvedAt}

-- The jumps of the listed blocks lead to listed blocks.
pub record IsClosed (blocks : Blocks) (list : List ℕ) : Type 0 where
  pub first :
      (i j : ℕ) (b : Block) → In i list → get_block blocks i ≡ ok b → b.jump0 ≡ some j → In j list
  pub second :
      (i k j : ℕ) (b : Block)
      → In i list
      → get_block blocks i ≡ ok b
      → b.jump0 ≡ some k
      → b.jump1 ≡ some j
      → In j list

module _ (f : ℕ) (ts : Types) (w w' : Flow) (run : execute_iterative_dataflow f ts w ≡ ok w')
    (closed : IsClosed w'.blocks w.blocklist) where
  solution : IsSolution ts w'.syms w'.blocks (λ k. In k w.blocklist)
  solution = record {
    solved = λ i b at there. execute_iterative_dataflow-SolvedAt f ts w w' run i at b there;
    first = closed.first;
    second = closed.second;
  }

  -- When the iteration of the analysis ends, for a list of blocks that the jumps do not leave, the set
  -- at the start of a listed block has every number below 64 for which some path from the start of the
  -- block reads the symbol with this number before a statement overwrites it. What counts as read, in
  -- a statement or in the expression of a block that branches or returns a value: objects that an
  -- operand names or takes the address of, numbered constants, any symbol where an operand is read
  -- through a pointer or an argument is or has a pointer (not counting one in an array), and the
  -- pointer of a store through it; what a called function reads else is not counted. An assignment to
  -- any part of a symbol of scalar type overwrites it.
  pub execute_iterative_dataflow-LiveAt :
      (n x : ℕ) (b : Block)
      → In n w.blocklist
      → get_block w'.blocks n ≡ ok b
      → LiveAt ts w'.syms w'.blocks x b b.code
      → test b.live_in x ≡ true
  execute_iterative_dataflow-LiveAt n x b at there path =
      live_from_sound solution x n b b.code b.code b.live_in at there path
        (solved-live_from ts w'.syms w'.blocks b (solution.solved n b at there))

  -- Behind the iteration, for a list of blocks that the jumps do not leave, `dead_store_elimination`
  -- drops a statement of a listed block, or takes the store from it, only if it assigns to a symbol
  -- with no linkage that no path behind it reads before a statement overwrites it; a statement goes as
  -- a whole only if its expression has no side effects, and all else is kept, in its order. Symbols are
  -- told apart by their numbers, which count up to 64. What counts as read, in a statement or in the
  -- expression of a block that branches or returns a value: objects that an operand names or takes the address of, numbered constants, any symbol where an operand is read
  -- through a pointer or an argument is or has a pointer (not counting one in an array), and the
  -- pointer of a store through it; what a called function reads else is not counted. An assignment to
  -- any part of a symbol of scalar type overwrites it.
  pub dead_store_elimination-LiveAt :
      (n c : ℕ) (b : Block) (code : List Statement)
      → In n w.blocklist
      → get_block w'.blocks n ≡ ok b
      → dead_store_elimination true w'.syms b.code ≡ ok (code, c)
      → Cleaned ts w'.syms w'.blocks b b.code code
  dead_store_elimination-LiveAt n c b code at there clean =
      dead_store_elimination-Cleaned solution n b at there code c clean
