-- ===== src/Optimizer/Liveness/Inversion.antt =====
-- What a run of `analyse` over the statements of a block (src/optimizer/liveness.c) consists of.
use lacc.Base.{List, ◌∷◌, ok, >>=-eq-ok, ◌≡◌, sym, ap, ok_injective}
use lacc.Types.Defs.{Types}
use lacc.Ir.{Symbols, Statement}
use lacc.Ir.Bits.{Word, or, and_not}
use lacc.Optimizer.Liveness.{uses, defines, analyse}

-- Inversion of the analysis of one statement.
pub record AnalysesTo (ts : Types) (syms : Symbols) (out : Word) (s : Statement)
    (rest code : List Statement) (live : Word) : Type 0 where
  pub rest' : List Statement
  pub after : Word
  pub d : Word
  pub u : Word
  pub of_rest : analyse ts syms rest out ≡ ok (rest', after)
  pub of_def : defines syms s ≡ ok d
  pub of_use : uses ts syms s ≡ ok u
  pub code_eq : code ≡ record s { out = after } ∷ rest'
  pub live_eq : live ≡ or (and_not after d) u

pub analyse-cons :
    (ts : Types) (syms : Symbols) (out : Word) (s : Statement) (rest code : List Statement)
    (live : Word)
    → analyse ts syms (s ∷ rest) out ≡ ok (code, live)
    → AnalysesTo ts syms out s rest code live
unfolding analyse
analyse-cons ts syms out s rest code live h =
    let (r, of_rest, h₁) = >>=-eq-ok (analyse ts syms rest out) _ h in
    let (d, of_def, h₂) = >>=-eq-ok (defines syms s) _ h₁ in
    let (u, of_use, h₃) = >>=-eq-ok (uses ts syms s) _ h₂ in
    record {
      rest' = r.0;
      after = r.1;
      d = d;
      u = u;
      of_rest = of_rest;
      of_def = of_def;
      of_use = of_use;
      code_eq = ap (λ p. p.0) (sym (ok_injective h₃));
      live_eq = ap (λ p. p.1) (sym (ok_injective h₃));
    }
