-- ===== src/Optimizer/Flow/Skip.antt =====
-- Jumps through blocks with no instructions.
use lacc.Base.{
  ℕ, zero, suc, Bool, true, false, Option, some, [], ◌∷◌, set, ok, err, exhausted, ◌≡◌, ◌≢◌, refl,
  sym, ◌∙◌, ap,
}
use mathlib.Core.Path.{subst}
use lacc.Ir.{Block, Blocks, get_block}
use lacc.Optimizer.Flow.{forwards, jump_of, with_jump, skip_jump}

-- Every block of the set has no instructions and jumps to a block of the set.
abbrev pub IsEmptyCycle : Blocks → (ℕ → Type 0) → Type 0
IsEmptyCycle blocks P =
    (t : ℕ)
    → P t
    → (b : Block) × (u : ℕ) × (get_block blocks t ≡ ok b)
      × (forwards b ≡ true)
      × (b.jump0 ≡ some u)
      × P u

jump_of-with_jump : (side : Bool) (b : Block) (o : Option ℕ) → jump_of side (with_jump side b o) ≡ o
jump_of-with_jump false b o = refl
jump_of-with_jump true b o = refl

pub get_block-set_self :
    (blocks : Blocks) (i : ℕ) (b c : Block)
    → get_block blocks i ≡ ok b
    → get_block (set blocks i c) i ≡ ok c
get_block-set_self [] i b c h = cc
get_block-set_self (d ∷ blocks) zero b c h = refl
get_block-set_self (d ∷ blocks) (suc i) b c h = get_block-set_self blocks i b c h

pub get_block-set_ne :
    (blocks : Blocks) (i j : ℕ) (c : Block)
    → i ≢ j
    → get_block (set blocks i c) j ≡ get_block blocks j
get_block-set_ne [] i j c ne = refl
get_block-set_ne (d ∷ blocks) zero zero c ne = absurd (ne refl)
get_block-set_ne (d ∷ blocks) zero (suc j) c ne = refl
get_block-set_ne (d ∷ blocks) (suc i) zero c ne = refl
get_block-set_ne (d ∷ blocks) (suc i) (suc j) c ne =
    get_block-set_ne blocks i j c (λ e. ne (ap suc e))

skip_jump-step :
    (f : ℕ) (side : Bool) (blocks : Blocks) (i t : ℕ) (b next : Block)
    → get_block blocks i ≡ ok b
    → jump_of side b ≡ some t
    → get_block blocks t ≡ ok next
    → forwards next ≡ true
    → skip_jump (suc f) side blocks i
      ≡ skip_jump f side (set blocks i (with_jump side b next.jump0)) i
unfolding skip_jump
skip_jump-step f side blocks i t b next here target there empty =
    rw (here, target, there) (branch (forwards next) empty)
  where
    branch :
        (v : Bool)
        → v ≡ true
        → elim v [
          | true ↦ skip_jump f side (set blocks i (with_jump side b next.jump0)) i
          | false ↦ ok blocks
        ]
          ≡ skip_jump f side (set blocks i (with_jump side b next.jump0)) i
    branch true e = refl
    branch false e = cc

-- Where each block of a set has no instructions and only jumps on, to a block of the set, and a block
-- outside of the set jumps into it, the loop of `skip_empty_blocks` for this jump follows the jumps for
-- ever: no fuel is enough.
pub skip_jump-IsEmptyCycle :
    (f : ℕ) (side : Bool) (blocks : Blocks) (P : ℕ → Type 0) (i t : ℕ) (b : Block)
    → IsEmptyCycle blocks P
    → ¬ P i
    → get_block blocks i ≡ ok b
    → jump_of side b ≡ some t
    → P t
    → skip_jump f side blocks i ≡ err exhausted
unfolding skip_jump
skip_jump-IsEmptyCycle zero side blocks P i t b cycle outside here target inside = refl
skip_jump-IsEmptyCycle (suc f) side blocks P i t b cycle outside here target inside =
    let (next, u, there, empty, onward, inside') = cycle t inside in
    let blocks' = set blocks i (with_jump side b next.jump0) in
    let cycle' : IsEmptyCycle blocks' P = λ v at_v.
      let (c, w, at_c, is_empty, leads, further) = cycle v at_v in
      (
        c,
        w,
        get_block-set_ne blocks i v (with_jump side b next.jump0)
              (λ e. outside (subst P (sym e) at_v))
            ∙ at_c,
        is_empty,
        leads,
        further,
      ) in
    skip_jump-step f side blocks i t b next here target there empty
    ∙ skip_jump-IsEmptyCycle f side blocks' P i u (with_jump side b next.jump0) cycle' outside
        (get_block-set_self blocks i b (with_jump side b next.jump0) here)
        (jump_of-with_jump side b next.jump0 ∙ onward) inside'

-- From the block of a number, so many blocks with no instructions lead on to one that does not only
-- jump on, and none of them is block `i`.
pub data Chain (blocks : Blocks) (i : ℕ) : ℕ → ℕ → Type 0 where
  stop :
      {t : ℕ} {c : Block}
      → i ≢ t
      → get_block blocks t ≡ ok c
      → forwards c ≡ false
      → Chain blocks i t 0
  hop :
      {t u n : ℕ} {c : Block}
      → i ≢ t
      → get_block blocks t ≡ ok c
      → forwards c ≡ true
      → c.jump0 ≡ some u
      → Chain blocks i u n
      → Chain blocks i t (suc n)

Chain-set :
    (blocks : Blocks) (i : ℕ) (d : Block) (t n : ℕ)
    → Chain blocks i t n
    → Chain (set blocks i d) i t n
Chain-set blocks i d t zero (stop ne there full) =
    stop ne (get_block-set_ne blocks i t d ne ∙ there) full
Chain-set blocks i d t (suc n) (hop {u = u} ne there empty onward rest) =
    hop ne (get_block-set_ne blocks i t d ne ∙ there) empty onward (Chain-set blocks i d u n rest)

-- The jump of block `i` leads to a block that does not only jump on.
pub record Skipped (side : Bool) (blocks : Blocks) (i : ℕ) : Type 0 where
  pub b : Block
  pub t : ℕ
  pub c : Block
  pub here : get_block blocks i ≡ ok b
  pub leads : jump_of side b ≡ some t
  pub there : get_block blocks t ≡ ok c
  pub full : forwards c ≡ false

skip_jump-stop :
    (f : ℕ) (side : Bool) (blocks : Blocks) (i t : ℕ) (b next : Block)
    → get_block blocks i ≡ ok b
    → jump_of side b ≡ some t
    → get_block blocks t ≡ ok next
    → forwards next ≡ false
    → skip_jump (suc f) side blocks i ≡ ok blocks
unfolding skip_jump
skip_jump-stop f side blocks i t b next here target there full =
    rw (here, target, there) (branch (forwards next) full)
  where
    branch :
        (v : Bool)
        → v ≡ false
        → elim v [
          | true ↦ skip_jump f side (set blocks i (with_jump side b next.jump0)) i
          | false ↦ ok blocks
        ]
          ≡ ok blocks
    branch true e = cc
    branch false e = refl

-- Where a jump of block `i` leads into a chain of `n` blocks that only jump on, none of them block `i`,
-- and then to another block, which does not only jump on, the loop of `skip_empty_blocks` for this jump
-- returns with the fuel `n + 1`, and then the jump leads to a block that does not only jump on.
pub skip_jump-Skipped :
    (side : Bool) (blocks : Blocks) (i t n : ℕ) (b : Block)
    → get_block blocks i ≡ ok b
    → jump_of side b ≡ some t
    → Chain blocks i t n
    → (blocks' : Blocks) × (skip_jump (suc n) side blocks i ≡ ok blocks') × Skipped side blocks' i
skip_jump-Skipped side blocks i t zero b here target (stop {c = c} ne there full) = (
  blocks,
  skip_jump-stop 0 side blocks i t b c here target there full,
  record { b = b; t = t; c = c; here = here; leads = target; there = there; full = full },
)
skip_jump-Skipped side blocks i t (suc n) b here target
      (hop {u = u} {c = c} ne there empty onward rest) =
    let d = with_jump side b c.jump0 in
    let (blocks', run, done) =
      skip_jump-Skipped side (set blocks i d) i u n d (get_block-set_self blocks i b d here)
        (jump_of-with_jump side b c.jump0 ∙ onward) (Chain-set blocks i d u n rest) in
    (blocks', skip_jump-step (suc n) side blocks i t b c here target there empty ∙ run, done)
