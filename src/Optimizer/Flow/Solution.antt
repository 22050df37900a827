-- ===== src/Optimizer/Flow/Solution.antt =====
-- What holds when the iteration of the analysis ends.
use native.Mathlib.Decide.{ℕ_discrete}
use mathlib.Core.Path.{subst}
use lacc.Base.{
  ℕ, zero, suc, ◌+◌, Bool, true, false, List, [], ◌∷◌, ◌==◌, if◌then◌else◌, set, ok, >>=-eq-ok,
  ok_injective, ◌≡◌, ◌≢◌, refl, sym, ◌∙◌, ap, arith, Bool-cases, inl, inr,
}
use lacc.Types.Defs.{Types}
use lacc.Ir.{Block, get_block}
use lacc.Optimizer.Liveness.{live_variable_analysis}
use lacc.Optimizer.Liveness.Paths.{IsSolved}
use lacc.Optimizer.Flow.{Flow, put_block, traverse, visit_liveness, execute_iterative_dataflow}
use lacc.Optimizer.Flow.Skip.{get_block-set_self, get_block-set_ne}
use lacc.Optimizer.Flow.Stable.{
  Analysed, Analysed-of, unchanged-live_in, Analysed-IsSolved, from_children-set, IsSolved-set,
}

-- The block of a number is solved.
abbrev pub SolvedAt : Types → Flow → ℕ → Type 0
SolvedAt ts w k = (b : Block) → get_block w.blocks k ≡ ok b → IsSolved ts w.syms w.blocks b

-- A number of the list.
pub data In (k : ℕ) : List ℕ → Type 0 where
  first : {i : ℕ} {is : List ℕ} → i ≡ k → In k (i ∷ is)
  behind : {i : ℕ} {is : List ℕ} → In k is → In k (i ∷ is)

-- A visit that reports no change.
record Quiet (ts : Types) (w : Flow) (i : ℕ) (w' : Flow) : Type 0 where
  b : Block
  b' : Block
  here : get_block w.blocks i ≡ ok b
  run : Analysed ts w.syms w.blocks b b' false
  after : w' ≡ put_block w i b'

as_number : Bool → ℕ
as_number v = if v then 1 else 0

no_change : (v : Bool) → as_number v ≡ 0 → v ≡ false
unfolding as_number
no_change true h = absurd (omega arith)
no_change false h = refl

visit-Quiet :
    (ts : Types) (w w' : Flow) (i n : ℕ)
    → visit_liveness ts w i ≡ ok (w', n)
    → n ≡ 0
    → Quiet ts w i w'
unfolding visit_liveness as_number
visit-Quiet ts w w' i n h none =
    let (b, here, h₁) = >>=-eq-ok (get_block w.blocks i) _ h in
    let (r, analysed, h₂) = >>=-eq-ok (live_variable_analysis ts w.syms w.blocks b) _ h₁ in
    let counted : as_number r.1 ≡ n = ap (λ p. p.1) (ok_injective h₂) in
    let silent : r.1 ≡ false = no_change r.1 (counted ∙ none) in
    record {
      b = b;
      b' = r.0;
      here = here;
      run =
          Analysed-of ts w.syms w.blocks b r.0 false
            (analysed ∙ ap (λ (v : Bool). ok (r.0, v)) silent);
      after = ap (λ p. p.0) (sym (ok_injective h₂));
    }

module _ {ts : Types} {w w' : Flow} {i : ℕ} (q : Quiet ts w i w') where
  Quiet-self : SolvedAt ts w' i
  Quiet-self =
      let e = unchanged-live_in q.run in
      let kept = from_children-set w.blocks i q.b q.b' q.b q.here e in
      let solved = Analysed-IsSolved (set w.blocks i q.b') q.run kept in
      rw q.after (λ c there.
        let same_block =
          ok_injective (sym (get_block-set_self w.blocks i q.b q.b' q.here) ∙ there) in
        rw (← same_block) solved)

  Quiet-other : (k : ℕ) → i ≢ k → SolvedAt ts w k → SolvedAt ts w' k
  Quiet-other k ne solved =
      let e = unchanged-live_in q.run in
      rw q.after (λ c there.
        let there' = sym (get_block-set_ne w.blocks i k q.b' ne) ∙ there in
        IsSolved-set ts w.syms w.blocks i q.b q.b' c q.here e (solved c there'))

  Quiet-keeps : (k : ℕ) → SolvedAt ts w k → SolvedAt ts w' k
  Quiet-keeps k solved = elim (ℕ_discrete i k) [
    | yes e ↦ subst (SolvedAt ts w') e Quiet-self
    | no ne ↦ Quiet-other k ne solved
  ]

-- What a pass of the analysis that reports no change leaves.
record QuietPass (ts : Types) (w : Flow) (is : List ℕ) (w' : Flow) : Type 0 where
  kept : (k : ℕ) → SolvedAt ts w k → SolvedAt ts w' k
  made : (k : ℕ) → In k is → SolvedAt ts w' k

pass-QuietPass :
    (ts : Types) (is : List ℕ) (w w' : Flow) (n : ℕ)
    → traverse (visit_liveness ts) w is ≡ ok (w', n)
    → n ≡ 0
    → QuietPass ts w is w'
unfolding traverse
pass-QuietPass ts [] w w' n h none =
    let e : w ≡ w' = ap (λ p. p.0) (ok_injective h) in
    rw (← e) (record { kept = λ k solved. solved; made = λ k at. absurd (elim at [ ]) })
pass-QuietPass ts (i ∷ is) w w' n h none =
    let (r, visit, h₁) = >>=-eq-ok (visit_liveness ts w i) _ h in
    let (p, rest, h₂) = >>=-eq-ok (traverse (visit_liveness ts) r.0 is) _ h₁ in
    let end : p.0 ≡ w' = ap (λ q. q.0) (ok_injective h₂) in
    let sum : r.1 + p.1 ≡ n = ap (λ q. q.1) (ok_injective h₂) in
    let quiet = visit-Quiet ts w r.0 i r.1 visit (omega arith) in
    let pass = pass-QuietPass ts is r.0 p.0 p.1 rest (omega arith) in
    rw (← end) (record {
      kept = λ k solved. pass.kept k (Quiet-keeps quiet k solved);
      made = λ k at. member at quiet pass;
    })
  where
    member :
        {ts : Types} {w v u : Flow} {i k : ℕ} {is : List ℕ}
        → In k (i ∷ is)
        → Quiet ts w i v
        → QuietPass ts v is u
        → SolvedAt ts u k
    member {ts} {w} {v} {u} {i} {k} (first e) q p =
        p.kept k (subst (SolvedAt ts v) e (Quiet-self q))
    member {ts} {w} {v} {u} {i} {k} (behind at) q p = p.made k at

pass-blocklist :
    (ts : Types) (is : List ℕ) (w w' : Flow) (n : ℕ)
    → traverse (visit_liveness ts) w is ≡ ok (w', n)
    → w'.blocklist ≡ w.blocklist
unfolding traverse visit_liveness
pass-blocklist ts [] w w' n h = ap (λ q. q.0.blocklist) (sym (ok_injective h))
pass-blocklist ts (i ∷ is) w w' n h =
    let (r, visit, h₁) = >>=-eq-ok (visit_liveness ts w i) _ h in
    let (p, rest, h₂) = >>=-eq-ok (traverse (visit_liveness ts) r.0 is) _ h₁ in
    let (b, _, v₁) = >>=-eq-ok (get_block w.blocks i) _ visit in
    let (c, _, v₂) = >>=-eq-ok (live_variable_analysis ts w.syms w.blocks b) _ v₁ in
    let end : w'.blocklist ≡ p.0.blocklist = ap (λ q. q.0.blocklist) (sym (ok_injective h₂)) in
    let step : r.0.blocklist ≡ w.blocklist = ap (λ q. q.0.blocklist) (sym (ok_injective v₂)) in
    end ∙ pass-blocklist ts is r.0 p.0 p.1 rest ∙ step

-- When the iteration of the analysis ends, it has solved every block of the list.
pub execute_iterative_dataflow-SolvedAt :
    (f : ℕ) (ts : Types) (w w' : Flow)
    → execute_iterative_dataflow f ts w ≡ ok w'
    → (k : ℕ) → In k w.blocklist
    → SolvedAt ts w' k
unfolding execute_iterative_dataflow
execute_iterative_dataflow-SolvedAt zero ts w w' h k at = cc
execute_iterative_dataflow-SolvedAt (suc f) ts w w' h k at =
    let (r, pass, h₁) = >>=-eq-ok (traverse (visit_liveness ts) w w.blocklist) _ h in
    elim (Bool-cases (r.1 == 0)) [
      | inl quiet ↦
          let e : r.0 ≡ w' = ok_injective (rw quiet at h₁) in
          rw (← e) ((pass-QuietPass ts w.blocklist w r.0 r.1 pass (ground arith)).made k at)
      | inr changed ↦
          execute_iterative_dataflow-SolvedAt f ts r.0 w' (rw changed at h₁) k
            (subst (In k) (sym (pass-blocklist ts w.blocklist w r.0 r.1 pass)) at)
    ]
