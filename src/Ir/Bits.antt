-- ===== src/Ir/Bits.antt =====
-- An `unsigned long` that is used as a set: its 64 bits, the lowest first.
use lacc.Base.{
  ℕ, zero, suc, ◌+◌, ◌<◌, Bool, true, false, not, ◌&&◌, ◌||◌, List, [], ◌∷◌, ◌==◌, get_or,
  replicate, ◌≡◌, refl, arith,
}

abbrev pub Word : Type 0
Word = List Bool

abbrev pub no_bits : Word
no_bits = replicate 64 false

-- `0xFFFFFFFFFFFFFFFFul`
abbrev pub all_bits : Word
all_bits = replicate 64 true

unfoldable pub places : ℕ → ℕ → ℕ → Word
places zero at i = []
places (suc n) at i = (at == i) ∷ places n (suc at) i

-- `1ul << i`
unfoldable pub bit : ℕ → Word
unfolding places
bit i = places 64 0 i

-- `a | b`
unfoldable pub or : Word → Word → Word
or [] b = b
or (x ∷ a) [] = x ∷ a
or (x ∷ a) (y ∷ b) = (x || y) ∷ or a b

-- `a & ~b`
unfoldable pub and_not : Word → Word → Word
and_not [] b = []
and_not (x ∷ a) [] = x ∷ a
and_not (x ∷ a) (y ∷ b) = (x && not y) ∷ and_not a b

-- `(a & (1ul << i)) != 0`
abbrev pub test : Word → ℕ → Bool
test a i = get_or a i false

abbrev same_bit : Bool → Bool → Bool
same_bit true y = y
same_bit false y = not y

-- `a == b`
unfoldable pub same : Word → Word → Bool
same [] [] = true
same [] (y ∷ b) = false
same (x ∷ a) [] = false
same (x ∷ a) (y ∷ b) = same_bit x y && same a b

pub test-or : (a b : Word) (i : ℕ) → test (or a b) i ≡ (test a i || test b i)
unfolding or
test-or [] b i = refl
test-or (x ∷ a) [] i = ground arith
test-or (x ∷ a) (y ∷ b) zero = refl
test-or (x ∷ a) (y ∷ b) (suc i) = test-or a b i

pub test-and_not : (a b : Word) (i : ℕ) → test (and_not a b) i ≡ (test a i && not (test b i))
unfolding and_not
test-and_not [] b i = refl
test-and_not (x ∷ a) [] i = ground arith
test-and_not (x ∷ a) (y ∷ b) zero = refl
test-and_not (x ∷ a) (y ∷ b) (suc i) = test-and_not a b i

pub same_sound : (a b : Word) → same a b ≡ true → a ≡ b
unfolding same
same_sound [] [] h = refl
same_sound [] (y ∷ b) h = cc
same_sound (x ∷ a) [] h = cc
same_sound (x ∷ a) (y ∷ b) h = ground (arith, same_sound a b)

pub same_refl : (a : Word) → same a a ≡ true
unfolding same
same_refl [] = refl
same_refl (true ∷ a) = same_refl a
same_refl (false ∷ a) = same_refl a

pub test-replicate : (n j : ℕ) → j < n → test (replicate n true) j ≡ true
test-replicate zero j h = absurd (omega arith)
test-replicate (suc n) zero h = refl
test-replicate (suc n) (suc j) h = test-replicate n j (omega arith)

test-places : (n at i j : ℕ) → j < n → i ≡ at + j → test (places n at i) j ≡ true
unfolding places
test-places zero at i j h e = absurd (omega arith)
test-places (suc n) at i zero h e = ground arith
test-places (suc n) at i (suc j) h e = test-places n (suc at) i j (omega arith) (omega arith)

places-only : (n at i j : ℕ) → test (places n at i) j ≡ true → (i ≡ at + j) × (j < n)
unfolding places
places-only zero at i j h = absurd (cc h)
places-only (suc n) at i zero h = (ground arith, omega arith)
places-only (suc n) at i (suc j) h =
    let (e, lt) = places-only n (suc at) i j h in (omega arith, omega arith)

pub test-bit : (x : ℕ) → x < 64 → test (bit x) x ≡ true
unfolding bit
test-bit x h = test-places 64 0 x x h (omega arith)

pub test-no_bits : (n j : ℕ) → test (replicate n false) j ≡ false
test-no_bits zero j = refl
test-no_bits (suc n) zero = refl
test-no_bits (suc n) (suc j) = test-no_bits n j

pub bit-only : (i x : ℕ) → test (bit i) x ≡ true → (i ≡ x) × (x < 64)
unfolding bit
bit-only i x h = let (e, lt) = places-only 64 0 i x h in (omega arith, lt)

pub or-left : (a b : Word) (x : ℕ) → test a x ≡ true → test (or a b) x ≡ true
or-left a b x t = rw (test-or a b x, t)

pub or-right : (a b : Word) (x : ℕ) → test b x ≡ true → test (or a b) x ≡ true
or-right a b x t = rw (test-or a b x, t) (either (test a x))
  where
    either : (b : Bool) → (b || true) ≡ true
    either true = refl
    either false = refl
