-- ===== src/Encoding/Flush.antt =====
-- src/backend/x86_64/elf.c: the places that jumps to later labels left open.
use lacc.Base.{
  ℕ, zero, suc, ◌+◌, ◌-◌, ◌*◌, ◌/◌, ◌%◌, ◌^◌, ◌<◌, ◌≤◌, ◌≡◌, ◌≢◌, refl, ap, ◌∙◌, arith, Bool, true,
  ◌==◌, not, List, [], ◌∷◌, length, get_or, set, length-set, All, ◌++◌, ◌⊎◌, inl, inr, guarded,
  guard-eq-ok, sym, ok_injective, >>=-eq-ok, Run, ok, assertion, guard, ◌>>=◌, ◌>>◌, if◌then◌else◌,
}
use mathlib.Core.Path.{subst}
use lacc.Encoding.Code.{Displacement, Elf, elf_text_displacement}

-- The `int` at an offset of a section, lowest byte first, and a write of it.
abbrev pub read_int : List ℕ → ℕ → ℕ
read_int text i =
    get_or text i 0
    + 256 * (get_or text (i + 1) 0 + 256 * (get_or text (i + 2) 0 + 256 * get_or text (i + 3) 0))

abbrev pub write_int : List ℕ → ℕ → ℕ → List ℕ
write_int text i v =
    set (set (set (set text i (v % 256)) (i + 1) (v / 256 % 256)) (i + 2) (v / 256 / 256 % 256))
      (i + 3) (v / 256 / 256 / 256 % 256)

-- The value that an iteration writes.
abbrev pub flushed : Elf → Displacement → List ℕ → ℕ
flushed elf entry text =
    let at = entry.text_offset in
    (read_int text at + elf.stack_offset entry.label + 2 ^ 32 - at % 2 ^ 32) % 2 ^ 32

-- The loop over the pending places; `text` is the content of the section.
unfoldable pub flush_from : Elf → List Displacement → List ℕ → Run (List ℕ)
flush_from elf [] text = ok text
flush_from elf (entry ∷ rest) text = do
  guard (not (elf.stack_offset entry.label == 0)) assertion
  flush_from elf rest (write_int text entry.text_offset (flushed elf entry text))

unfoldable pub elf_flush_text_displacements : Elf → List ℕ → Run (List ℕ × Elf)
unfolding flush_from
elf_flush_text_displacements elf text = do
  done ← flush_from elf elf.displacements text
  ok (done, record elf { displacements = [] })

-- A read of the bytes of a list.
get_or-set_self : (xs : List ℕ) (i v : ℕ) → i < length xs → get_or (set xs i v) i 0 ≡ v
get_or-set_self [] i v h = absurd (omega arith)
get_or-set_self (x ∷ xs) zero v h = refl
get_or-set_self (x ∷ xs) (suc i) v h = get_or-set_self xs i v (omega arith)

get_or-set_ne : (xs : List ℕ) (i j v : ℕ) → i ≢ j → get_or (set xs i v) j 0 ≡ get_or xs j 0
get_or-set_ne [] i j v h = refl
get_or-set_ne (x ∷ xs) zero zero v h = absurd (h refl)
get_or-set_ne (x ∷ xs) zero (suc j) v h = refl
get_or-set_ne (x ∷ xs) (suc i) zero v h = refl
get_or-set_ne (x ∷ xs) (suc i) (suc j) v h = get_or-set_ne xs i j v (λ e. h (ap suc e))

read_int-write_int :
    (text : List ℕ) (i v : ℕ)
    → i + 4 ≤ length text
    → v < 2 ^ 32
    → read_int (write_int text i v) i ≡ v
read_int-write_int text i v h k =
    let a = v % 256 in
    let b = v / 256 % 256 in
    let c = v / 256 / 256 % 256 in
    let d = v / 256 / 256 / 256 % 256 in
    let s₁ = set text i a in
    let s₂ = set s₁ (i + 1) b in
    let s₃ = set s₂ (i + 2) c in
    let n₁ = length-set text i a in
    let n₂ = length-set s₁ (i + 1) b in
    let n₃ = length-set s₂ (i + 2) c in
    let e₀ =
      get_or-set_ne s₃ (i + 3) i d (λ e. omega arith)
      ∙ get_or-set_ne s₂ (i + 2) i c (λ e. omega arith)
      ∙ get_or-set_ne s₁ (i + 1) i b (λ e. omega arith)
      ∙ get_or-set_self text i a (omega arith) in
    let e₁ =
      get_or-set_ne s₃ (i + 3) (i + 1) d (λ e. omega arith)
      ∙ get_or-set_ne s₂ (i + 2) (i + 1) c (λ e. omega arith)
      ∙ get_or-set_self s₁ (i + 1) b (omega arith) in
    let e₂ =
      get_or-set_ne s₃ (i + 3) (i + 2) d (λ e. omega arith)
      ∙ get_or-set_self s₂ (i + 2) c (omega arith) in
    let e₃ = get_or-set_self s₃ (i + 3) d (omega arith) in omega (arith, e₀, e₁, e₂, e₃)

-- A byte outside the four of the `int` stays.
get_or-write_int :
    (text : List ℕ) (i j v : ℕ)
    → (j < i) ⊎ (i + 4 ≤ j)
    → get_or (write_int text i v) j 0 ≡ get_or text j 0
get_or-write_int text i j v apart =
    get_or-set_ne _ (i + 3) j _ (λ e. omega arith)
    ∙ get_or-set_ne _ (i + 2) j _ (λ e. omega arith)
    ∙ get_or-set_ne _ (i + 1) j _ (λ e. omega arith)
    ∙ get_or-set_ne text i j _ (λ e. omega arith)

-- Two places of four bytes do not overlap.
abbrev pub Apart : ℕ → Displacement → Type 0
Apart at entry = (entry.text_offset + 4 ≤ at) ⊎ (at + 4 ≤ entry.text_offset)

read_int-write_int_apart :
    (text : List ℕ) (i at v : ℕ)
    → (i + 4 ≤ at) ⊎ (at + 4 ≤ i)
    → read_int (write_int text i v) at ≡ read_int text at
read_int-write_int_apart text i at v apart = omega (
  arith,
  get_or-write_int text i at v (outside apart (omega arith) (omega arith)),
  get_or-write_int text i (at + 1) v (outside apart (omega arith) (omega arith)),
  get_or-write_int text i (at + 2) v (outside apart (omega arith) (omega arith)),
  get_or-write_int text i (at + 3) v (outside apart (omega arith) (omega arith)),
)
  where
    outside : {j : ℕ} → (i + 4 ≤ at) ⊎ (at + 4 ≤ i) → at ≤ j → j < at + 4 → (j < i) ⊎ (i + 4 ≤ j)
    outside (inl h) k l = inr (omega arith)
    outside (inr h) k l = inl (omega arith)

length-write_int : (text : List ℕ) (i v : ℕ) → length (write_int text i v) ≡ length text
length-write_int text i v =
    length-set _ (i + 3) _ ∙ length-set _ (i + 2) _ ∙ length-set _ (i + 1) _ ∙ length-set text i _

-- The places after one leave it alone.
flush_from-Apart :
    (elf : Elf) (entries : List Displacement) (at : ℕ) (text done : List ℕ)
    → All (Apart at) entries
    → flush_from elf entries text ≡ ok done
    → read_int done at ≡ read_int text at
unfolding flush_from
flush_from-Apart elf [] at text done h e = ap (λ text. read_int text at) (sym (ok_injective e))
flush_from-Apart elf (entry ∷ rest) at text done h e =
    let next = guarded (not (elf.stack_offset entry.label == 0)) _ _ e in
    let value = flushed elf entry text in
    flush_from-Apart elf rest at (write_int text entry.text_offset value) done h.1 next
    ∙ read_int-write_int_apart text entry.text_offset at value h.0

flush_from_resolves :
    (elf : Elf) (before after : List Displacement) (entry : Displacement) (text done : List ℕ)
    → All (Apart entry.text_offset) before
    → All (Apart entry.text_offset) after
    → entry.text_offset + 4 ≤ length text
    → flush_from elf (before ++ entry ∷ after) text ≡ ok done
    → (read_int done entry.text_offset ≡ flushed elf entry text)
      × (not (elf.stack_offset entry.label == 0) ≡ true)
unfolding flush_from
flush_from_resolves elf [] after entry text done h k inside e =
    let known = not (elf.stack_offset entry.label == 0) in
    let at = entry.text_offset in
    let value = flushed elf entry text in
    (
      flush_from-Apart elf after at (write_int text at value) done k (guarded known _ _ e)
          ∙ read_int-write_int text at value inside (omega arith),
      guard-eq-ok known assertion (>>=-eq-ok (guard known assertion) _ e).1,
    )
flush_from_resolves elf (first ∷ before) after entry text done h k inside e =
    let at = entry.text_offset in
    let value = flushed elf first text in
    let long = length-write_int text first.text_offset value in
    let (read, known) =
      flush_from_resolves elf before after entry (write_int text first.text_offset value) done h.1 k
        (omega arith) (guarded (not (elf.stack_offset first.label == 0)) _ _ e) in
    (
      read
          ∙ ap (λ n. (n + elf.stack_offset entry.label + 2 ^ 32 - at % 2 ^ 32) % 2 ^ 32)
              (read_int-write_int_apart text first.text_offset at value h.0),
      known,
    )

-- Let a place in the text wait for its label, with the other waiting places not overlapping it, and let the
-- flush return. Then the place holds, modulo 2 ^ 32, what it held before and the displacement that
-- `elf_text_displacement` returns for the label, now known, at the place.
pub elf_flush_text_displacements-elf_text_displacement :
    (elf known elf' : Elf) (before after : List Displacement) (label size offset displacement : ℕ)
    (text done : List ℕ)
    → elf.displacements ≡ before ++ record { label = label; text_offset = size + offset } ∷ after
    → All (Apart (size + offset)) before
    → All (Apart (size + offset)) after
    → size + offset + 4 ≤ length text
    → elf_flush_text_displacements elf text ≡ ok (done, elf')
    → elf_text_displacement (record elf { text_size = size }) label offset
      ≡ ok (known, displacement)
    → read_int done (size + offset) ≡ (displacement + read_int text (size + offset)) % 2 ^ 32
unfolding elf_flush_text_displacements elf_text_displacement
elf_flush_text_displacements-elf_text_displacement elf known elf' before after label size offset
      displacement text done pending h k inside e f =
    let entry : Displacement = record { label = label; text_offset = size + offset } in
    let (out, run, last) = >>=-eq-ok (flush_from elf elf.displacements text) _ e in
    let run' = subst (λ entries. flush_from elf entries text ≡ ok out) pending run in
    let (read, found) = flush_from_resolves elf before after entry text out h k inside run' in
    let g = guarded (elf.is_label label) _ _ f in
    let at = size + offset in
    let near = (elf.stack_offset label + 2 ^ 32 - at % 2 ^ 32) % 2 ^ 32 in
    let early : Elf = record elf { text_size = size } in
    let late : Elf = record elf {
      text_size = size;
      displacements = elf.displacements ++ entry ∷ [];
    } in
    let result : Elf × ℕ = (known, displacement) in
    let choice : Bool → Elf × ℕ = λ test. if test then (early, near) else (late, 0) in
    let direct = subst (λ test. ok (choice test) ≡ ok result) found g in
    let computed = ap (λ r. r.1) (ok_injective direct) in
    let written = ap (λ r. read_int r.0 at) (ok_injective last) in
    omega (arith, read, computed, written)
