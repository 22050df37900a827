-- ===== src/Optimizer/Transform/Rounds.antt =====
-- How much work each round takes away.
use lacc.Base.{
  ℕ, suc, ◌+◌, ◌≤◌, Bool, true, ◌&&◌, List, [], ◌∷◌, if◌then◌else◌, ok, >>=-eq-ok, ok_injective,
  ◌≡◌, ap, arith, Bool-cases, inl, inr,
}
use lacc.Types.Defs.{Types}
use lacc.Ir.{Symbols, Statement, is_assign, has_side_effects}
use lacc.Optimizer.Transform.{
  and_then-eq-ok, is_direct, is_dead_store, without_store, dead_store_elimination, can_merge,
  merge_from, merge_chained_assignment,
}

abbrev pub assigns : List Statement → ℕ
assigns [] = 0
assigns (s ∷ rest) = if is_assign s.st then suc (assigns rest) else assigns rest

dead-is_assign :
    (level : Bool) (syms : Symbols) (s : Statement)
    → is_dead_store level syms s ≡ ok true
    → is_assign s.st ≡ true
unfolding is_dead_store
dead-is_assign level syms s h =
    let kind : (is_assign s.st && is_direct s.t) ≡ true =
      ok_injective (and_then-eq-ok (ok (is_assign s.st && is_direct s.t)) _ h).0 in
    ground arith

assigns-without_store :
    (s : Statement) (rest : List Statement) → assigns (without_store s rest) ≡ assigns rest
assigns-without_store s rest = elim (Bool-cases (has_side_effects s.expr)) [
  | inl effects ↦ rw effects
  | inr pure ↦ rw pure
]

-- A pass of `dead_store_elimination` leaves as many assignments fewer as it counts.
pub dead_store_elimination-assigns :
    (level : Bool) (syms : Symbols) (code code' : List Statement) (c : ℕ)
    → dead_store_elimination level syms code ≡ ok (code', c)
    → assigns code' + c ≡ assigns code
unfolding dead_store_elimination
dead_store_elimination-assigns level syms [] code' c h = ground (arith, ok_injective h)
dead_store_elimination-assigns level syms (s ∷ rest) code' c h =
    let (dead, decided, h₁) = >>=-eq-ok (is_dead_store level syms s) _ h in
    let (r, of_rest, h₂) = >>=-eq-ok (dead_store_elimination level syms rest) _ h₁ in
    let ih = dead_store_elimination-assigns level syms rest r.0 r.1 of_rest in
    elim (Bool-cases dead) [
      | inl gone ↦
          let pair = ok_injective (rw gone at h₂) in
          let code_eq : without_store s r.0 ≡ code' = ap (λ p. p.0) pair in
          let c_eq : suc r.1 ≡ c = ap (λ p. p.1) pair in
          let assigned : is_assign s.st ≡ true = dead-is_assign level syms s (rw gone at decided) in
          rw (← code_eq, ← c_eq, assigns-without_store s r.0, assigned) (omega (arith, ih))
      | inr kept ↦
          let pair = ok_injective (rw kept at h₂) in
          let code_eq : s ∷ r.0 ≡ code' = ap (λ p. p.0) pair in
          let c_eq : r.1 ≡ c = ap (λ p. p.1) pair in rw (← code_eq, ← c_eq) (ground (arith, ih))
    ]

merge_from-assigns :
    (level : Bool) (f : ℕ) (ts : Types) (syms : Symbols) (s : Statement)
    (rest code : List Statement)
    → merge_from level f ts syms s rest ≡ ok code
    → assigns code ≤ assigns (s ∷ rest)
unfolding merge_from
merge_from-assigns level f ts syms s [] code h =
    let e : s ∷ [] ≡ code = ok_injective h in rw (← e) (ground arith)
merge_from-assigns level f ts syms s (t ∷ rest) code h =
    let (merge, decided, h₁) = >>=-eq-ok (can_merge level f ts syms s t) _ h in
    elim (Bool-cases merge) [
      | inl merged ↦
          let ih =
            merge_from-assigns level f ts syms (record s { t = t.t }) rest code (rw merged at h₁) in
          ground (arith, ih)
      | inr apart ↦
          let (r, of_rest, h₂) = >>=-eq-ok (merge_from level f ts syms t rest) _ (rw apart at h₁) in
          let ih = merge_from-assigns level f ts syms t rest r of_rest in
          let e : s ∷ r ≡ code = ok_injective h₂ in rw (← e) (ground (arith, ih))
    ]

-- Merging assignments adds none.
pub merge_chained_assignment-assigns :
    (level : Bool) (f : ℕ) (ts : Types) (syms : Symbols) (code code' : List Statement)
    → merge_chained_assignment level f ts syms code ≡ ok code'
    → assigns code' ≤ assigns code
unfolding merge_chained_assignment
merge_chained_assignment-assigns level f ts syms [] code' h =
    let e : [] ≡ code' = ok_injective h in rw (← e) (ground arith)
merge_chained_assignment-assigns level f ts syms (s ∷ rest) code' h =
    merge_from-assigns level f ts syms s rest code' h
