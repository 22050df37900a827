-- ===== src/Optimizer/Flow/Depth.antt =====
-- The recursion of `serialize_basic_blocks` is no deeper than the number of blocks.
use lacc.Base.{
  ℕ, zero, suc, ◌≤◌, ◌<◌, true, false, Option, none, some, [], ◌∷◌, set, length, length-set, Run,
  ok, if◌then◌else◌, ◌>>=◌, ◌≡◌, refl, sym, ◌∙◌, ap, ap₂, arith, Bool-cases, Option-cases, inl, inr,
}
use native.Mathlib.Decide.{ℕ_discrete}
use mathlib.Core.Path.{subst}
use lacc.Base.{ok_injective}
use lacc.Ir.{Block, Blocks, get_block}
use lacc.Optimizer.Flow.{Flow, serialize_basic_blocks}
use lacc.Optimizer.Flow.Skip.{get_block-set_self, get_block-set_ne}
use lacc.Optimizer.Flow.Order.{entered}

-- The number of blocks that are not colored.
abbrev pub whites : Blocks → ℕ
whites [] = 0
whites (b ∷ blocks) = if b.black then whites blocks else suc (whites blocks)

whites-set :
    (blocks : Blocks) (i : ℕ) (b c : Block)
    → get_block blocks i ≡ ok b
    → b.black ≡ false
    → c.black ≡ true
    → suc (whites (set blocks i c)) ≡ whites blocks
whites-set [] i b c here white black = cc
whites-set (d ∷ blocks) zero b c here white black =
    let was_white : d.black ≡ false = ap (λ (x : Block). x.black) (ok_injective here) ∙ white in
    rw (was_white, black)
whites-set (d ∷ blocks) (suc i) b c here white black =
    let ih = whites-set blocks i b c here white black in ground arith

pub whites-le-length : (blocks : Blocks) → whites blocks ≤ length blocks
whites-le-length [] = omega arith
whites-le-length (b ∷ blocks) = ground (arith, whites-le-length blocks)

pub get_block-total :
    (blocks : Blocks) (i : ℕ) → i < length blocks → (b : Block) × (get_block blocks i ≡ ok b)
get_block-total [] i h = absurd (omega arith)
get_block-total (b ∷ blocks) zero h = (b, refl)
get_block-total (b ∷ blocks) (suc i) h = get_block-total blocks i (omega arith)

-- The jumps lead to blocks.
pub record IsGraph (blocks : Blocks) : Type 0 where
  pub first :
      (k j : ℕ) (b : Block) → get_block blocks k ≡ ok b → b.jump0 ≡ some j → j < length blocks
  pub second :
      (k j : ℕ) (b : Block) → get_block blocks k ≡ ok b → b.jump1 ≡ some j → j < length blocks

entered-IsGraph :
    (w : Flow) (i : ℕ) (b : Block)
    → get_block w.blocks i ≡ ok b
    → IsGraph w.blocks
    → IsGraph (entered w i b).blocks
entered-IsGraph w i b here graph =
    let black = record b { black = true } in
    let size = length-set w.blocks i black in
    record {
      first = λ k j c there e.
          let (a, at, e₀, e₁) = was w i b here k c there in
          rw size (graph.first k j a at (sym e₀ ∙ e));
      second = λ k j c there e.
          let (a, at, e₀, e₁) = was w i b here k c there in
          rw size (graph.second k j a at (sym e₁ ∙ e));
    }
  where
    was :
        (w : Flow) (i : ℕ) (b : Block)
        → get_block w.blocks i ≡ ok b
        → (k : ℕ) (c : Block) → get_block (set w.blocks i (record b { black = true })) k ≡ ok c
        → (a : Block) × (get_block w.blocks k ≡ ok a) × (c.jump0 ≡ a.jump0) × (c.jump1 ≡ a.jump1)
    was w i b here k c there = elim (ℕ_discrete i k) [
      | yes e ↦
          let black = record b { black = true } in
          let at_i : get_block (set w.blocks i black) i ≡ ok c =
            subst (λ n. get_block (set w.blocks i black) n ≡ ok c) (sym e) there in
          let same = ok_injective (sym at_i ∙ get_block-set_self w.blocks i b black here) in
          (
            b,
            subst (λ n. get_block w.blocks n ≡ ok b) e here,
            ap (λ (d : Block). d.jump0) same,
            ap (λ (d : Block). d.jump1) same,
          )
      | no ne ↦ (
        c,
        sym (get_block-set_ne w.blocks i k (record b { black = true }) ne) ∙ there,
        refl,
        refl,
      )
    ]

-- The visits of the children of a block.
abbrev children : ℕ → Flow → Option ℕ → Option ℕ → Run Flow
children f v none second = ok v
children f v (some j) second = do
  w₁ ← serialize_basic_blocks f v j
  elim second [ none ↦ ok w₁ | some k ↦ serialize_basic_blocks f w₁ k ]

module _ (f : ℕ) (w : Flow) (i : ℕ) (b : Block) (here : get_block w.blocks i ≡ ok b)
    (white : b.black ≡ false) where
  serialize-children :
      {o p : Option ℕ}
      → b.jump0 ≡ o
      → b.jump1 ≡ p
      → serialize_basic_blocks (suc f) w i ≡ children f (entered w i b) o p
  unfolding serialize_basic_blocks
  serialize-children {o} {p} to to' =
      enter ∙ ap₂ (λ (x y : Option ℕ). children f (entered w i b) x y) to to'
    where
      enter : serialize_basic_blocks (suc f) w i ≡ children f (entered w i b) b.jump0 b.jump1
      enter = rw (here, white) (by_case b.jump0)
        where
          by_case :
              (o : Option ℕ)
              → elim o [
                | none ↦ ok (entered w i b)
                | some j ↦ serialize_basic_blocks f (entered w i b) j >>= λ w₁. elim b.jump1 [
                  | none ↦ ok w₁
                  | some k ↦ serialize_basic_blocks f w₁ k
                ]
              ]
                ≡ children f (entered w i b) o b.jump1
          by_case none = refl
          by_case (some j) = refl

-- A call that returns, and what it leaves.
pub record Returned (f : ℕ) (w : Flow) (i : ℕ) : Type 0 where
  pub w' : Flow
  pub call : serialize_basic_blocks f w i ≡ ok w'
  pub fewer : whites w'.blocks ≤ whites w.blocks
  pub graph : IsGraph w'.blocks
  pub size : length w'.blocks ≡ length w.blocks

-- With more fuel than there are blocks that are not colored, in a graph, a call returns.
serialize-Returned :
    (f : ℕ) (w : Flow) (i : ℕ)
    → IsGraph w.blocks
    → i < length w.blocks
    → whites w.blocks < f
    → Returned f w i
unfolding serialize_basic_blocks
serialize-Returned zero w i graph inside enough = absurd (omega arith)
serialize-Returned (suc f) w i graph inside enough =
    let (b, here) = get_block-total w.blocks i inside in
    let v = entered w i b in
    let graph' = entered-IsGraph w i b here graph in
    let size = length-set w.blocks i (record b { black = true }) in
    elim (Bool-cases b.black) [
      | inl black ↦ record {
        w' = w;
        call = rw (here, black);
        fewer = omega arith;
        graph = graph;
        size = refl;
      }
      | inr white ↦
          let less = whites-set w.blocks i b (record b { black = true }) here white refl in
          elim (Option-cases b.jump0) [
            | inl leaf ↦ record {
              w' = v;
              call = serialize-children f w i b here white leaf refl;
              fewer = omega (arith, less);
              graph = graph';
              size = size;
            }
            | inr (j, to) ↦
                let r =
                  serialize-Returned f v j graph' (rw size (graph.first i j b here to))
                    (omega (arith, less)) in
                elim (Option-cases b.jump1) [
                  | inl single ↦ record {
                    w' = r.w';
                    call = serialize-children f w i b here white to single ∙ rw r.call;
                    fewer = omega (arith, less, r.fewer);
                    graph = r.graph;
                    size = r.size ∙ size;
                  }
                  | inr (k, to') ↦
                      let q =
                        serialize-Returned f r.w' k r.graph
                          (rw (r.size, size) (graph.second i k b here to'))
                          (omega (arith, less, r.fewer)) in
                      record {
                        w' = q.w';
                        call = serialize-children f w i b here white to to' ∙ rw (r.call, q.call);
                        fewer = omega (arith, less, r.fewer, q.fewer);
                        graph = q.graph;
                        size = q.size ∙ r.size ∙ size;
                      }
                ]
          ]
    ]

-- Where all jumps lead to blocks, a call from one of the blocks returns, with the number of blocks and
-- one as its fuel.
pub serialize_basic_blocks-total :
    (w : Flow) (i : ℕ)
    → IsGraph w.blocks
    → i < length w.blocks
    → (w' : Flow) × (serialize_basic_blocks (suc (length w.blocks)) w i ≡ ok w')
serialize_basic_blocks-total w i graph inside =
    let r =
      serialize-Returned (suc (length w.blocks)) w i graph inside
        (omega (arith, whites-le-length w.blocks)) in
    (r.w', r.call)
