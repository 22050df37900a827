-- ===== src/Optimizer/Liveness/Paths.antt =====
-- Live variables by paths through the flow graph, and the sets that solve the equations of the
-- analysis.
use lacc.Base.{
  ℕ, true, false, some, List, [], ◌∷◌, Run, ok, ◌>>=◌, >>=-eq-ok, ◌≡◌, refl, arith, sym, ◌∙◌, ap,
  ap₂, ok_injective, Bool-cases, Option-cases, inl, inr,
}
use lacc.Types.Defs.{Types}
use lacc.Ir.{Symbols, Statement, Block, Blocks, get_block}
use lacc.Ir.Bits.{or-left, or-right, Word, or, and_not, test, test-and_not}
use lacc.Optimizer.Liveness.Inversion.{AnalysesTo, analyse-cons}
use lacc.Optimizer.Liveness.Reads.{ReadsExpression, Reads, Overwrites}
use lacc.Optimizer.Liveness.Reads.Sets.{ReadsExpression-use_of, Reads-uses, defines-Overwrites}
use lacc.Optimizer.Liveness.{
  use_of, analyse, from_children, at_end, reads_expr, live_variable_analysis,
}

module _ (ts : Types) (syms : Symbols) (blocks : Blocks) (x : ℕ) where
  -- From the point in front of the statements, which are the last ones of the block, a path leads
  -- to a read of the symbol with number `x`, and no statement on it overwrites the symbol. At the
  -- end of a block that branches or returns a value, the expression of the block is read.
  pub data LiveAt : Block → List Statement → Type 0 where
    used :
        {b : Block} {s : Statement} {rest : List Statement}
        → Reads ts syms x s
        → LiveAt b (s ∷ rest)
    later :
        {b : Block} {s : Statement} {rest : List Statement}
        → ¬ Overwrites syms x s
        → LiveAt b rest
        → LiveAt b (s ∷ rest)
    branch : {b : Block} {j : ℕ} → b.jump1 ≡ some j → ReadsExpression syms x b.expr → LiveAt b []
    return_ : {b : Block} → b.has_return_value ≡ true → ReadsExpression syms x b.expr → LiveAt b []
    jump :
        {b c : Block} {i : ℕ}
        → b.jump0 ≡ some i
        → get_block blocks i ≡ ok c
        → LiveAt c c.code
        → LiveAt b []
    fork :
        {b c : Block} {i j : ℕ}
        → b.jump0 ≡ some i
        → b.jump1 ≡ some j
        → get_block blocks j ≡ ok c
        → LiveAt c c.code
        → LiveAt b []

module _ (ts : Types) (syms : Symbols) (blocks : Blocks) where
  -- Another run of the analysis over the block changes nothing.
  abbrev pub IsSolved : Block → Type 0
  IsSolved b = live_variable_analysis ts syms blocks b ≡ ok (b, false)

  -- What the analysis computes for the statements behind a point of a block.
  abbrev pub live_from : Block → List Statement → Run (List Statement × Word)
  live_from b code = do
    out ← from_children blocks b
    last ← at_end syms b out
    analyse ts syms code last

  -- The blocks of a set, which the jumps do not leave, are solved.
  pub record IsSolution (P : ℕ → Type 0) : Type 0 where
    pub solved : (i : ℕ) (b : Block) → P i → get_block blocks i ≡ ok b → IsSolved b
    pub first : (i j : ℕ) (b : Block) → P i → get_block blocks i ≡ ok b → b.jump0 ≡ some j → P j
    pub second :
        (i k j : ℕ) (b : Block)
        → P i
        → get_block blocks i ≡ ok b
        → b.jump0 ≡ some k
        → b.jump1 ≡ some j
        → P j

module _ (ts : Types) (syms : Symbols) (blocks : Blocks) where
  pub solved-live_from :
      (b : Block)
      → IsSolved ts syms blocks b
      → live_from ts syms blocks b b.code ≡ ok (b.code, b.live_in)
  unfolding live_variable_analysis
  solved-live_from b h =
      let (out, from, h₁) = >>=-eq-ok (from_children blocks b) _ h in
      let (last, end, h₂) = >>=-eq-ok (at_end syms b out) _ h₁ in
      let (r, run, h₃) = >>=-eq-ok (analyse ts syms b.code last) _ h₂ in
      let same_block = ap (λ p. p.0) (ok_injective h₃) in
      let code_eq : r.0 ≡ b.code = ap (λ (c : Block). c.code) same_block in
      let in_eq : r.1 ≡ b.live_in = ap (λ (c : Block). c.live_in) same_block in
      rw (from, end, run) (ap ok (ap₂ (λ (c : List Statement) (l : Word). (c, l)) code_eq in_eq))

  pub from-cons :
      (b : Block) (s : Statement) (rest code : List Statement) (live : Word)
      → live_from ts syms blocks b (s ∷ rest) ≡ ok (code, live)
      → (last : Word) × AnalysesTo ts syms last s rest code live
        × ((r : List Statement × Word)
            → analyse ts syms rest last ≡ ok r
            → live_from ts syms blocks b rest ≡ ok r)
  from-cons b s rest code live h =
      let (out, from, h₁) = >>=-eq-ok (from_children blocks b) _ h in
      let (last, end, h₂) = >>=-eq-ok (at_end syms b out) _ h₁ in
      (last, analyse-cons ts syms last s rest code live h₂, λ r e. rw (from, end) e)

survives :
    (after d u : Word) (x : ℕ)
    → test d x ≡ false
    → test after x ≡ true
    → test (or (and_not after d) u) x ≡ true
survives after d u x clear t = or-left (and_not after d) u x (rw (test-and_not after d x, clear, t))

module _ (syms : Symbols) (blocks : Blocks) (b : Block) (x : ℕ) where
  at_end-keeps :
      (out live : Word) → at_end syms b out ≡ ok live → test out x ≡ true → test live x ≡ true
  unfolding at_end
  at_end-keeps out live h t = elim (Bool-cases (reads_expr b)) [
    | inl reads ↦
        let (u, _, h₁) = >>=-eq-ok (use_of syms b.expr) (λ u. ok (or out u)) (rw reads at h) in
        rw (ok_injective (sym h₁)) (or-left out u x t)
    | inr silent ↦ rw (ok_injective (sym (rw silent at h))) t
  ]

  at_end-reads :
      (out live : Word)
      → at_end syms b out ≡ ok live
      → reads_expr b ≡ true
      → ReadsExpression syms x b.expr
      → test live x ≡ true
  unfolding at_end
  at_end-reads out live h at_the_end reads =
      let (u, of_use, h₁) =
        >>=-eq-ok (use_of syms b.expr) (λ u. ok (or out u)) (rw at_the_end at h) in
      rw (ok_injective (sym h₁))
        (or-right out u x (ReadsExpression-use_of syms x b.expr u reads of_use))

  from_children-first :
      (i : ℕ) (c : Block) (out : Word)
      → b.jump0 ≡ some i
      → get_block blocks i ≡ ok c
      → from_children blocks b ≡ ok out
      → test c.live_in x ≡ true
      → test out x ≡ true
  unfolding from_children
  from_children-first i c out target there h t = elim (Option-cases b.jump1) [
    | inl single ↦ rw (ok_injective (sym (rw (target, there, single) at h))) t
    | inr (j, two) ↦
        let (d, _, h₁) =
          >>=-eq-ok (get_block blocks j) (λ d. ok (or c.live_in d.live_in))
            (rw (target, there, two) at h) in
        rw (ok_injective (sym h₁)) (or-left c.live_in d.live_in x t)
  ]

  from_children-second :
      (i j : ℕ) (c : Block) (out : Word)
      → b.jump0 ≡ some i
      → b.jump1 ≡ some j
      → get_block blocks j ≡ ok c
      → from_children blocks b ≡ ok out
      → test c.live_in x ≡ true
      → test out x ≡ true
  unfolding from_children
  from_children-second i j c out target two there h t =
      let (a, _, h₁) =
        >>=-eq-ok (get_block blocks i) (λ a. ok (or a.live_in c.live_in))
          (rw (target, two, there) at h) in
      rw (ok_injective (sym h₁)) (or-right a.live_in c.live_in x t)

module _ (ts : Types) (syms : Symbols) (blocks : Blocks) (b : Block) where
  at_end-live_from :
      (code : List Statement) (live : Word)
      → live_from ts syms blocks b [] ≡ ok (code, live)
      → (out : Word) × (from_children blocks b ≡ ok out) × (at_end syms b out ≡ ok live)
  unfolding analyse
  at_end-live_from code live h =
      let (out, from, h₁) = >>=-eq-ok (from_children blocks b) _ h in
      let (last, end, h₂) = >>=-eq-ok (at_end syms b out) _ h₁ in
      let same_last : last ≡ live = ap (λ p. p.1) (ok_injective h₂) in
      (out, from, end ∙ ap ok same_last)

module _ {ts : Types} {syms : Symbols} {blocks : Blocks} {P : ℕ → Type 0}
    (solution : IsSolution ts syms blocks P) (x : ℕ) where
  -- Where the sets of a closed set of blocks solve the equations of the analysis, a symbol that is
  -- read on some path from a point of one of them, with no definition of it in front, is in the set
  -- that is computed for the point.
  pub live_from_sound :
      (n : ℕ) (b : Block) (rest code : List Statement) (live : Word)
      → P n
      → get_block blocks n ≡ ok b
      → LiveAt ts syms blocks x b rest
      → live_from ts syms blocks b rest ≡ ok (code, live)
      → test live x ≡ true
  live_from_sound n b (s ∷ rest) code live inside here (used reads) h =
      let (last, run, _) = from-cons ts syms blocks b s rest code live h in
      let t = Reads-uses ts syms x s run.u reads run.of_use in
      rw run.live_eq (or-right (and_not run.after run.d) run.u x t)
  live_from_sound n b (s ∷ rest) code live inside here (later stays path) h =
      let (last, run, behind) = from-cons ts syms blocks b s rest code live h in
      let clear : test run.d x ≡ false = elim (Bool-cases (test run.d x)) [
        | inl is ↦ absurd (stays (defines-Overwrites syms x s run.d run.of_def is))
        | inr clear ↦ clear
      ] in
      let t =
        live_from_sound n b rest run.rest' run.after inside here path
          (behind (run.rest', run.after) run.of_rest) in
      rw run.live_eq (survives run.after run.d run.u x clear t)
  live_from_sound n b [] code live inside here (branch two reads) h =
      let (out, from, end) = at_end-live_from ts syms blocks b code live h in
      at_end-reads syms blocks b x out live end (rw two refl) reads
  live_from_sound n b [] code live inside here (return_ value reads) h =
      let (out, from, end) = at_end-live_from ts syms blocks b code live h in
      let at_the_end : reads_expr b ≡ true = ground arith in
      at_end-reads syms blocks b x out live end at_the_end reads
  live_from_sound n b [] code live inside here (jump {c = c} {i} target there path) h =
      let (out, from, end) = at_end-live_from ts syms blocks b code live h in
      let next = solution.first n i b inside here target in
      let t =
        live_from_sound i c c.code c.code c.live_in next there path
          (solved-live_from ts syms blocks c (solution.solved i c next there)) in
      at_end-keeps syms blocks b x out live end
        (from_children-first syms blocks b x i c out target there from t)
  live_from_sound n b [] code live inside here (fork {c = c} {i} {j} target two there path) h =
      let (out, from, end) = at_end-live_from ts syms blocks b code live h in
      let next = solution.second n i j b inside here target two in
      let t =
        live_from_sound j c c.code c.code c.live_in next there path
          (solved-live_from ts syms blocks c (solution.solved j c next there)) in
      at_end-keeps syms blocks b x out live end
        (from_children-second syms blocks b x i j c out target two there from t)
