-- ===== src/Optimizer/Transform/Stores.antt =====
-- The stores that `dead_store_elimination` takes away.
use lacc.Base.{
  ℕ, ◌-◌, true, false, not, List, [], ◌∷◌, ◌==◌, ok, assertion, guard, >>=-eq-ok, ok_injective, ◌≡◌,
  refl, sym, ◌∙◌, ap, arith, Bool-cases, inl, inr,
}
use lacc.Types.Defs.{Types, is_object}
use lacc.Ir.{
  Symbol, Symbols, get_symbol, get_block, is_link_none, has_side_effects, is_assign, st_expr,
  Statement, Block, Blocks,
}
use lacc.Ir.Bits.{Word, test}
use lacc.Optimizer.Liveness.Paths.{
  LiveAt, IsSolution, live_from, live_from_sound, from-cons, solved-live_from,
}
use lacc.Optimizer.Transform.{
  and_then-eq-ok, target, is_direct, is_live_after, is_dead_store, without_store,
  dead_store_elimination,
}

-- A statement that assigns to a symbol with no linkage that no path behind it reads.
pub record IsDead (ts : Types) (syms : Symbols) (blocks : Blocks) (b : Block) (s : Statement)
    (rest : List Statement) : Type 0 where
  pub i : ℕ
  pub symbol : Symbol
  pub assigns : is_assign s.st ≡ true
  pub whole : is_direct s.t ≡ true
  pub target_eq : target s ≡ ok i
  pub there : get_symbol syms i ≡ ok symbol
  pub local : is_link_none symbol.linkage ≡ true
  pub unread : ¬ LiveAt ts syms blocks (symbol.index - 1) b rest

-- What may become of the code: dead stores go, or stay for the effects of what they store.
pub data Cleaned (ts : Types) (syms : Symbols) (blocks : Blocks) (b : Block)
    : List Statement → List Statement → Type 0 where
  done : Cleaned ts syms blocks b [] []
  keep :
      {s : Statement} {rest rest' : List Statement}
      → Cleaned ts syms blocks b rest rest'
      → Cleaned ts syms blocks b (s ∷ rest) (s ∷ rest')
  drop :
      {s : Statement} {rest rest' : List Statement}
      → IsDead ts syms blocks b s rest
      → has_side_effects s.expr ≡ false
      → Cleaned ts syms blocks b rest rest'
      → Cleaned ts syms blocks b (s ∷ rest) rest'
  demote :
      {s s' : Statement} {rest rest' : List Statement}
      → IsDead ts syms blocks b s rest
      → s' ≡ record s { st = st_expr }
      → Cleaned ts syms blocks b rest rest'
      → Cleaned ts syms blocks b (s ∷ rest) (s' ∷ rest')

-- What a true answer of the test of the loop rests on.
record IsUnread (syms : Symbols) (s : Statement) : Type 0 where
  i : ℕ
  symbol : Symbol
  assigns : is_assign s.st ≡ true
  whole : is_direct s.t ≡ true
  target_eq : target s ≡ ok i
  there : get_symbol syms i ≡ ok symbol
  local : is_link_none symbol.linkage ≡ true
  clear : test s.out (symbol.index - 1) ≡ false

pub is_live_after-false :
    (syms : Symbols) (i : ℕ) (s : Statement)
    → is_live_after true syms i s ≡ ok false
    → (symbol : Symbol) × (get_symbol syms i ≡ ok symbol) × (test s.out (symbol.index - 1) ≡ false)
unfolding is_live_after
is_live_after-false syms i s h =
    let (symbol, there, h₁) = >>=-eq-ok (get_symbol syms i) _ h in
    elim (Bool-cases (is_object symbol.type)) [
      | inl object ↦
          let (_, _, h₂) =
            >>=-eq-ok (guard (not (symbol.index == 0)) assertion) _ (rw object at h₁) in
          (symbol, there, ok_injective h₂)
      | inr code ↦ absurd (cc (ok_injective (rw code at h₁)))
    ]

is_dead_store-IsUnread :
    (syms : Symbols) (s : Statement) → is_dead_store true syms s ≡ ok true → IsUnread syms s
unfolding is_dead_store
is_dead_store-IsUnread syms s h =
    let (kind, h₁) = and_then-eq-ok _ _ h in
    let (dead, local) = and_then-eq-ok _ _ h₁ in
    let (i, target_eq, h₂) = >>=-eq-ok (target s) _ dead in
    let (live, after, h₃) = >>=-eq-ok (is_live_after true syms i s) _ h₂ in
    let (symbol, there, clear) = is_live_after-false syms i s (ground arith) in
    let (i', target_eq', h₄) = >>=-eq-ok (target s) _ local in
    let (symbol', there', h₅) = >>=-eq-ok (get_symbol syms i') _ h₄ in
    let same_i : i' ≡ i = ok_injective (sym target_eq' ∙ target_eq) in
    let same_symbol : symbol' ≡ symbol =
      ok_injective (sym there' ∙ ap (get_symbol syms) same_i ∙ there) in
    let linked : is_link_none symbol'.linkage ≡ true = ok_injective h₅ in
    record {
      i = i;
      symbol = symbol;
      assigns = ground (arith, ok_injective kind);
      whole = ground (arith, ok_injective kind);
      target_eq = target_eq;
      there = there;
      local = rw same_symbol at linked;
      clear = clear;
    }

out_of : List Statement → Word
out_of [] = []
out_of (s ∷ rest) = s.out

tail_of : List Statement → List Statement
tail_of [] = []
tail_of (s ∷ rest) = rest

module _ {ts : Types} {syms : Symbols} {blocks : Blocks} {P : ℕ → Type 0}
    (solution : IsSolution ts syms blocks P) (n : ℕ) (b : Block) (inside : P n)
    (here : get_block blocks n ≡ ok b) where
  unread-IsDead :
      (s : Statement) (rest : List Statement) (after : Word)
      → IsUnread syms s
      → s.out ≡ after
      → live_from ts syms blocks b rest ≡ ok (rest, after)
      → IsDead ts syms blocks b s rest
  unread-IsDead s rest after u same_out behind = record {
    i = u.i;
    symbol = u.symbol;
    assigns = u.assigns;
    whole = u.whole;
    target_eq = u.target_eq;
    there = u.there;
    local = u.local;
    unread = λ path.
        let x = u.symbol.index - 1 in
        let t = live_from_sound solution x n b rest rest after inside here path behind in
        let f : test after x ≡ false = rw (← same_out) u.clear in cc (t, f);
  }

  Cleaned-code :
      (code code' : List Statement) (live : Word) (c : ℕ)
      → live_from ts syms blocks b code ≡ ok (code, live)
      → dead_store_elimination true syms code ≡ ok (code', c)
      → Cleaned ts syms blocks b code code'
  unfolding dead_store_elimination out_of tail_of
  Cleaned-code [] code' live c h run =
      let e : [] ≡ code' = ap (λ p. p.0) (ok_injective run) in rw (← e) done
  Cleaned-code (s ∷ rest) code' live c h run =
      let (last, parts, behind) = from-cons ts syms blocks b s rest (s ∷ rest) live h in
      let same_out : s.out ≡ parts.after = ap out_of parts.code_eq in
      let same_rest : parts.rest' ≡ rest = sym (ap tail_of parts.code_eq) in
      let of_rest = rw same_rest at (behind (parts.rest', parts.after) parts.of_rest) in
      let (dead, decided, run₁) = >>=-eq-ok (is_dead_store true syms s) _ run in
      let (r, of_dse, run₂) = >>=-eq-ok (dead_store_elimination true syms rest) _ run₁ in
      let cleaned = Cleaned-code rest r.0 parts.after r.1 of_rest of_dse in
      let unread = λ (e : dead ≡ true).
        unread-IsDead s rest parts.after (is_dead_store-IsUnread syms s (rw e at decided)) same_out
          of_rest in
      elim (Bool-cases dead) [
        | inr live_store ↦
            let e : s ∷ r.0 ≡ code' = ap (λ p. p.0) (ok_injective (rw live_store at run₂)) in
            rw (← e) (keep cleaned)
        | inl dead_store ↦
            let e : without_store s r.0 ≡ code' =
              ap (λ p. p.0) (ok_injective (rw dead_store at run₂)) in
            elim (Bool-cases (has_side_effects s.expr)) [
              | inl effects ↦ rw (← (rw effects at e)) (demote (unread dead_store) refl cleaned)
              | inr pure ↦ rw (← (rw pure at e)) (drop (unread dead_store) pure cleaned)
            ]
      ]

  -- In a block of a solution, every change is one that `Cleaned` allows.
  pub dead_store_elimination-Cleaned :
      (code : List Statement) (c : ℕ)
      → dead_store_elimination true syms b.code ≡ ok (code, c)
      → Cleaned ts syms blocks b b.code code
  dead_store_elimination-Cleaned code c run =
      Cleaned-code b.code code b.live_in c
        (solved-live_from ts syms blocks b (solution.solved n b inside here)) run
