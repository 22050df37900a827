-- ===== src/Hash/Slots.antt =====
-- The array of chains: reading a chain after another was written, and the invariant of the table.
use lacc.Base.{
  ℕ, zero, suc, ◌%◌, ◌<◌, List, [], ◌∷◌, get_or, set, replicate, length, length-set, Text, ◌≡◌, ◌≢◌,
  refl, arith, ap, ◌∙◌,
}
use native.Mathlib.Decide.{ℕ_discrete}
use lacc.Hash.Table.{Entry, HashTable, chain_of, with_chain}
use lacc.Hash.Chain.{IsUnique}

module _ {ℓ} {A : Type ℓ} where
  pub get_or-set_self :
      (xs : List A) (i : ℕ) (v d : A) → i < length xs → get_or (set xs i v) i d ≡ v
  get_or-set_self [] i v d h = absurd (omega arith)
  get_or-set_self (x ∷ xs) zero v d h = refl
  get_or-set_self (x ∷ xs) (suc i) v d h = get_or-set_self xs i v d (omega arith)

  pub get_or-set_ne :
      (xs : List A) (i j : ℕ) (v d : A) → i ≢ j → get_or (set xs i v) j d ≡ get_or xs j d
  get_or-set_ne [] i j v d h = refl
  get_or-set_ne (x ∷ xs) zero zero v d h = absurd (h refl)
  get_or-set_ne (x ∷ xs) zero (suc j) v d h = refl
  get_or-set_ne (x ∷ xs) (suc i) zero v d h = refl
  get_or-set_ne (x ∷ xs) (suc i) (suc j) v d h = get_or-set_ne xs i j v d (λ e. h (ap suc e))

  pub get_or-replicate : (n i : ℕ) (a : A) → get_or (replicate n a) i a ≡ a
  get_or-replicate zero i a = refl
  get_or-replicate (suc n) zero a = refl
  get_or-replicate (suc n) (suc i) a = get_or-replicate n i a

  pub length-replicate : (n : ℕ) (a : A) → length (replicate n a) ≡ n
  length-replicate zero a = refl
  length-replicate (suc n) a = ap suc (length-replicate n a)

module _ {D : Type 0} (key : D → Text) where
  -- There is a slot for each number below the capacity, and in each chain no entry hides another.
  pub record IsValid (tab : HashTable D) : Type 0 where
    pub pos : 0 < tab.capacity
    pub sized : length tab.slots ≡ tab.capacity
    pub unique : (i : ℕ) → IsUnique key (get_or tab.slots i [])

module _ {D : Type 0} {key : D → Text} {tab : HashTable D} (valid : IsValid key tab) where
  pub chain_of-with_chain_self :
      (h spare : ℕ) (c : List (Entry D)) → chain_of (with_chain tab h c spare) h ≡ c
  chain_of-with_chain_self h spare c =
      let size = valid.sized in
      let pos = valid.pos in get_or-set_self tab.slots (h % tab.capacity) c [] (omega arith)

  pub chain_of-with_chain_ne :
      (h g spare : ℕ) (c : List (Entry D))
      → h % tab.capacity ≢ g % tab.capacity
      → chain_of (with_chain tab h c spare) g ≡ chain_of tab g
  chain_of-with_chain_ne h g spare c ne =
      get_or-set_ne tab.slots (h % tab.capacity) (g % tab.capacity) c [] ne

  pub with_chain-IsValid :
      (h spare : ℕ) (c : List (Entry D)) → IsUnique key c → IsValid key (with_chain tab h c spare)
  with_chain-IsValid h spare c unique = record {
    pos = valid.pos;
    sized = length-set tab.slots (h % tab.capacity) c ∙ valid.sized;
    unique = λ i. elim (ℕ_discrete (h % tab.capacity) i) [
      | yes same ↦
          let size = valid.sized in
          let pos = valid.pos in
          rw (← same, get_or-set_self tab.slots (h % tab.capacity) c [] (omega arith)) unique
      | no other ↦ rw (get_or-set_ne tab.slots (h % tab.capacity) i c [] other) (valid.unique i)
    ];
  }
