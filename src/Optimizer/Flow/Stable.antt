-- ===== src/Optimizer/Flow/Stable.antt =====
-- A run of the analysis over a block again, and after another block was analysed.
use lacc.Base.{
  ℕ, zero, suc, Bool, true, false, not, List, [], ◌∷◌, set, Run, ok, err, ◌>>=◌, >>=-eq-ok,
  ok_injective, ◌≡◌, refl, sym, ◌∙◌, ap, Option-cases, inl, inr,
}
use lacc.Types.Defs.{Types}
use lacc.Ir.{StType, st_assign, Symbols, Statement, Block, Blocks, get_block}
use lacc.Ir.Bits.{Word, or, same, same_refl, same_sound}
use lacc.Optimizer.Liveness.{
  uses_case, uses, use_of, defines_case, defines, analyse, from_children, at_end,
  live_variable_analysis,
}
use lacc.Optimizer.Liveness.Inversion.{analyse-cons}
use lacc.Optimizer.Liveness.Paths.{IsSolved}

bind-ext {ℓ κ} :
    {A : Type ℓ} {B : Type κ} (m : Run A) (f g : A → Run B)
    → ((a : A) → f a ≡ g a)
    → (m >>= f) ≡ (m >>= g)
bind-ext (err e) f g h = refl
bind-ext (ok a) f g h = h a

-- The set behind a statement is not read.
uses_case-out :
    (k : StType) (ts : Types) (syms : Symbols) (s : Statement) (o r : Word)
    → uses_case k ts syms (record s { out = o }) r ≡ uses_case k ts syms s r
uses_case-out st_assign ts syms s o r = refl
uses_case-out _ ts syms s o r = refl

uses-out :
    (ts : Types) (syms : Symbols) (s : Statement) (o : Word)
    → uses ts syms (record s { out = o }) ≡ uses ts syms s
unfolding uses
uses-out ts syms s o = bind-ext (use_of syms s.expr) _ _ (λ r. uses_case-out s.st ts syms s o r)

defines_case-out :
    (k : StType) (syms : Symbols) (s : Statement) (o : Word)
    → defines_case k syms (record s { out = o }) ≡ defines_case k syms s
defines_case-out st_assign syms s o = refl
defines_case-out _ syms s o = refl

defines-out :
    (syms : Symbols) (s : Statement) (o : Word)
    → defines syms (record s { out = o }) ≡ defines syms s
unfolding defines
defines-out syms s o = defines_case-out s.st syms s o

analyse-analyse :
    (ts : Types) (syms : Symbols) (out : Word) (code code' : List Statement) (live : Word)
    → analyse ts syms code out ≡ ok (code', live)
    → analyse ts syms code' out ≡ ok (code', live)
unfolding analyse
analyse-analyse ts syms out [] code' live h =
    let e : [] ≡ code' = ap (λ p. p.0) (ok_injective h) in
    let l : out ≡ live = ap (λ p. p.1) (ok_injective h) in rw (← e, ← l)
analyse-analyse ts syms out (s ∷ rest) code' live h =
    let run = analyse-cons ts syms out s rest code' live h in
    let again = analyse-analyse ts syms out rest run.rest' run.after run.of_rest in
    rw (
      run.code_eq,
      run.live_eq,
      again,
      uses-out ts syms s run.after,
      run.of_use,
      defines-out syms s run.after,
      run.of_def,
    )

-- The parts of a run of the analysis over a block.
pub record Analysed (ts : Types) (syms : Symbols) (blocks : Blocks) (b b' : Block) (changed : Bool)
    : Type 0 where
  pub out : Word
  pub last : Word
  pub code : List Statement
  pub live : Word
  pub from : from_children blocks b ≡ ok out
  pub end : at_end syms b out ≡ ok last
  pub run : analyse ts syms b.code last ≡ ok (code, live)
  pub block_eq : b' ≡ record b { code = code; live_in = live; live_out = out }
  pub changed_eq : changed ≡ not (same b.live_in live)

pub Analysed-of :
    (ts : Types) (syms : Symbols) (blocks : Blocks) (b b' : Block) (changed : Bool)
    → live_variable_analysis ts syms blocks b ≡ ok (b', changed)
    → Analysed ts syms blocks b b' changed
unfolding live_variable_analysis
Analysed-of ts syms blocks b b' changed h =
    let (out, from, h₁) = >>=-eq-ok (from_children blocks b) _ h in
    let (last, end, h₂) = >>=-eq-ok (at_end syms b out) _ h₁ in
    let (r, run, h₃) = >>=-eq-ok (analyse ts syms b.code last) _ h₂ in
    record {
      out = out;
      last = last;
      code = r.0;
      live = r.1;
      from = from;
      end = end;
      run = run;
      block_eq = ap (λ p. p.0) (sym (ok_injective h₃));
      changed_eq = ap (λ p. p.1) (sym (ok_injective h₃));
    }

module _ {ts : Types} {syms : Symbols} {blocks : Blocks} {b b' : Block} where
  -- A run that changes nothing at the start of the block leaves the set there.
  pub unchanged-live_in : Analysed ts syms blocks b b' false → b'.live_in ≡ b.live_in
  unchanged-live_in a =
      let alike : same b.live_in a.live ≡ true = not_false (same b.live_in a.live) a.changed_eq in
      rw (a.block_eq) (sym (same_sound b.live_in a.live alike))
    where
      not_false : (v : Bool) → false ≡ not v → v ≡ true
      not_false true e = refl
      not_false false e = cc

  -- The block that a run leaves is solved, as long as the sets of the blocks behind it stay.
  pub Analysed-IsSolved :
      {changed : Bool} (blocks' : Blocks)
      → Analysed ts syms blocks b b' changed
      → from_children blocks' b ≡ from_children blocks b
      → IsSolved ts syms blocks' b'
  unfolding live_variable_analysis from_children at_end
  Analysed-IsSolved blocks' a kept =
      let from = kept ∙ a.from in
      let again = analyse-analyse ts syms a.last b.code a.code a.live a.run in
      rw a.block_eq (rw (from, a.end, again, same_refl a.live))

-- The set of a block that is read behind a write that keeps the set.
get_block-set_in {ℓ} :
    {A : Type ℓ} (blocks : Blocks) (i j : ℕ) (b b' : Block) (k : Word → Run A)
    → get_block blocks i ≡ ok b
    → b'.live_in ≡ b.live_in
    → (get_block (set blocks i b') j >>= λ d. k d.live_in)
      ≡ (get_block blocks j >>= λ d. k d.live_in)
get_block-set_in [] i j b b' k here e = cc
get_block-set_in (d ∷ blocks) zero zero b b' k here e =
    ap k (e ∙ ap (λ (c : Block). c.live_in) (sym (ok_injective here)))
get_block-set_in (d ∷ blocks) zero (suc j) b b' k here e = refl
get_block-set_in (d ∷ blocks) (suc i) zero b b' k here e = refl
get_block-set_in (d ∷ blocks) (suc i) (suc j) b b' k here e =
    get_block-set_in blocks i j b b' k here e

pub from_children-set :
    (blocks : Blocks) (i : ℕ) (b b' c : Block)
    → get_block blocks i ≡ ok b
    → b'.live_in ≡ b.live_in
    → from_children (set blocks i b') c ≡ from_children blocks c
unfolding from_children or
from_children-set blocks i b b' c here e = elim (Option-cases c.jump0) [
  | inl leaf ↦ rw leaf
  | inr (j, first) ↦ elim (Option-cases c.jump1) [
    | inl single ↦ rw (first, single) (get_block-set_in blocks i j b b' ok here e)
    | inr (k, second) ↦
        rw (first, second)
          (bind-ext (get_block (set blocks i b') j) _ _
              (λ d. get_block-set_in blocks i k b b' (λ w. ok (or d.live_in w)) here e)
            ∙ get_block-set_in blocks i j b b'
                (λ v. get_block blocks k >>= λ d. ok (or v d.live_in)) here e)
  ]
]

pub IsSolved-set :
    (ts : Types) (syms : Symbols) (blocks : Blocks) (i : ℕ) (b b' c : Block)
    → get_block blocks i ≡ ok b
    → b'.live_in ≡ b.live_in
    → IsSolved ts syms blocks c
    → IsSolved ts syms (set blocks i b') c
unfolding live_variable_analysis
IsSolved-set ts syms blocks i b b' c here e solved =
    rw (from_children-set blocks i b b' c here e) solved
