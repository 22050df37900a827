-- ===== src/Optimizer/Flow/Order.antt =====
-- The list of blocks that `serialize_basic_blocks` makes.
use native.Mathlib.Decide.{ℕ_discrete}
use mathlib.Core.Path.{subst}
use lacc.Base.{
  ℕ, true, some, List, [], ◌∷◌, ◌++◌, ok, ok_injective, ◌≡◌, ◌⊎◌, refl, sym, ◌∙◌, ap, inl, inr,
}
use lacc.Ir.{Block, get_block}
use lacc.Optimizer.Flow.{Flow, put_block}
use lacc.Optimizer.Flow.Skip.{get_block-set_self, get_block-set_ne}
use lacc.Optimizer.Flow.Solution.{In, first, behind}

In-append_left : (k : ℕ) (xs ys : List ℕ) → In k xs → In k (xs ++ ys)
In-append_left k [] ys at = elim at [ ]
In-append_left k (x ∷ xs) ys (first e) = first e
In-append_left k (x ∷ xs) ys (behind at) = behind (In-append_left k xs ys at)

In-append_end : (k : ℕ) (xs : List ℕ) → In k (xs ++ k ∷ [])
In-append_end k [] = first refl
In-append_end k (x ∷ xs) = behind (In-append_end k xs)

In-append_cases : (k i : ℕ) (xs : List ℕ) → In k (xs ++ i ∷ []) → In k xs ⊎ (i ≡ k)
In-append_cases k i [] (first e) = inr e
In-append_cases k i [] (behind at) = absurd (elim at [ ])
In-append_cases k i (x ∷ xs) (first e) = inl (first e)
In-append_cases k i (x ∷ xs) (behind at) = elim (In-append_cases k i xs at) [
  | inl old ↦ inl (behind old)
  | inr e ↦ inr e
]

-- The blocks that are colored are listed, and a listed block keeps its jumps.
abbrev pub Listed : Flow → Type 0
Listed w = (k : ℕ) (b : Block) → get_block w.blocks k ≡ ok b → b.black ≡ true → In k w.blocklist

-- The jumps of a block lead to listed blocks.
pub record Leads (w : Flow) (k : ℕ) : Type 0 where
  pub one : (j : ℕ) (b : Block) → get_block w.blocks k ≡ ok b → b.jump0 ≡ some j → In j w.blocklist
  pub two :
      (i j : ℕ) (b : Block)
      → get_block w.blocks k ≡ ok b
      → b.jump0 ≡ some i
      → b.jump1 ≡ some j
      → In j w.blocklist

-- The jumps of every block are what they were.
abbrev SameJumps : Flow → Flow → Type 0
SameJumps w w' =
    (k : ℕ) (b : Block)
    → get_block w'.blocks k ≡ ok b
    → (a : Block) × (get_block w.blocks k ≡ ok a) × (b.jump0 ≡ a.jump0) × (b.jump1 ≡ a.jump1)

-- What a call adds to the list.
pub record Extends (w w' : Flow) : Type 0 where
  pub grows : (k : ℕ) → In k w.blocklist → In k w'.blocklist
  pub leads : (k : ℕ) → In k w'.blocklist → In k w.blocklist ⊎ Leads w' k
  pub listed : Listed w'
  pub jumps : SameJumps w w'

pub Extends-refl : (w : Flow) → Listed w → Extends w w
Extends-refl w listed = record {
  grows = λ k at. at;
  leads = λ k at. inl at;
  listed = listed;
  jumps = λ k b at. (b, at, refl, refl);
}

Leads-Extends : (w w' : Flow) (k : ℕ) → Extends w w' → Leads w k → Leads w' k
Leads-Extends w w' k ext l = record {
  one = λ j b there e.
      let (a, at, e₀, e₁) = ext.jumps k b there in ext.grows j (l.one j a at (sym e₀ ∙ e));
  two = λ i j b there e d.
      let (a, at, e₀, e₁) = ext.jumps k b there in
      ext.grows j (l.two i j a at (sym e₀ ∙ e) (sym e₁ ∙ d));
}

pub Extends-trans : (u v w : Flow) → Extends u v → Extends v w → Extends u w
Extends-trans u v w p q = record {
  grows = λ k at. q.grows k (p.grows k at);
  leads = λ k at. elim (q.leads k at) [
    | inr l ↦ inr l
    | inl at_v ↦ elim (p.leads k at_v) [
      | inl at_u ↦ inl at_u
      | inr l ↦ inr (Leads-Extends v w k q l)
    ]
  ];
  listed = q.listed;
  jumps = λ k b there.
      let (c, at, e₀, e₁) = q.jumps k b there in
      let (d, at', d₀, d₁) = p.jumps k c at in (d, at', e₀ ∙ d₀, e₁ ∙ d₁);
}

-- The state in which the children of a white block are visited.
abbrev pub entered : Flow → ℕ → Block → Flow
entered w i b =
    let seen = put_block w i (record b { black = true }) in
    record seen { blocklist = seen.blocklist ++ i ∷ [] }

module _ (w : Flow) (i : ℕ) (b : Block) (here : get_block w.blocks i ≡ ok b)
    (listed : Listed w) where
  entered-jumps : SameJumps w (entered w i b)
  entered-jumps k c there = elim (ℕ_discrete i k) [
    | yes e ↦
        let at_i : get_block (entered w i b).blocks i ≡ ok c =
          subst (λ n. get_block (entered w i b).blocks n ≡ ok c) (sym e) there in
        let same =
          ok_injective
            (sym at_i ∙ get_block-set_self w.blocks i b (record b { black = true }) here) in
        (
          b,
          subst (λ n. get_block w.blocks n ≡ ok b) e here,
          ap (λ (d : Block). d.jump0) same,
          ap (λ (d : Block). d.jump1) same,
        )
    | no ne ↦
        (c, sym (get_block-set_ne w.blocks i k (record b { black = true }) ne) ∙ there, refl, refl)
  ]

  pub entered-Listed : Listed (entered w i b)
  entered-Listed k c there black = elim (ℕ_discrete i k) [
    | yes e ↦ subst (λ n. In n (w.blocklist ++ i ∷ [])) e (In-append_end i w.blocklist)
    | no ne ↦ In-append_left k w.blocklist (i ∷ []) (
        listed k c (sym (get_block-set_ne w.blocks i k (record b { black = true }) ne) ∙ there)
          black)
  ]

  -- Once the targets of the block are listed, the whole call only adds blocks that lead to listed ones.
  pub entered-Extends : (w' : Flow) → Extends (entered w i b) w' → Leads w' i → Extends w w'
  entered-Extends w' ext l = record {
    grows = λ k at. ext.grows k (In-append_left k w.blocklist (i ∷ []) at);
    leads = λ k at. elim (ext.leads k at) [
      | inr m ↦ inr m
      | inl old ↦ elim (In-append_cases k i w.blocklist old) [
        | inl older ↦ inl older
        | inr e ↦ inr (subst (Leads w') e l)
      ]
    ];
    listed = ext.listed;
    jumps = λ k c there.
        let (d, at, e₀, e₁) = ext.jumps k c there in
        let (a, at', d₀, d₁) = entered-jumps k d at in (a, at', e₀ ∙ d₀, e₁ ∙ d₁);
  }

  pub entered-start : (w' : Flow) → Extends (entered w i b) w' → In i w'.blocklist
  entered-start w' ext = ext.grows i (In-append_end i w.blocklist)

  -- The jumps of the block in a later state.
  pub later-jumps :
      (w' : Flow)
      → Extends (entered w i b) w'
      → (c : Block) → get_block w'.blocks i ≡ ok c
      → (c.jump0 ≡ b.jump0) × (c.jump1 ≡ b.jump1)
  later-jumps w' ext c there =
      let (d, at, e₀, e₁) = ext.jumps i c there in
      let (a, at', d₀, d₁) = entered-jumps i d at in
      let same = ok_injective (sym at' ∙ here) in
      (e₀ ∙ d₀ ∙ ap (λ (x : Block). x.jump0) same, e₁ ∙ d₁ ∙ ap (λ (x : Block). x.jump1) same)
