-- ===== src/Hash/Chain.antt =====
-- The laws of one chain.
use lacc.Base.{
  ℕ, true, none, some, List, [], ◌∷◌, ◌++◌, if◌then◌else◌, Text, text_eq_sound, text_eq_symm, ◌≡◌,
  ◌≢◌, refl, sym, ◌∙◌, arith, Bool-cases, inl, inr,
}
use lacc.Hash.Table.{Entry, matches, find, erase}

module _ {D : Type 0} (key : D → Text) where
  -- No later entry answers to the hash and key of an earlier one.
  abbrev pub IsUnique : List (Entry D) → Type 0
  IsUnique [] = Unit
  IsUnique (e ∷ c) = (find key e.hash (key e.datum) c ≡ none) × IsUnique c

  pub find-append :
      (h : ℕ) (k : Text) (e : Entry D) (c : List (Entry D))
      → find key h k c ≡ none
      → find key h k (c ++ e ∷ []) ≡ (if matches key h k e then some e.datum else none)
  unfolding find
  find-append h k e [] absent = refl
  find-append h k e (f ∷ c) absent = ground (arith, find-append h k e c)

  pub find-append_ne :
      (h : ℕ) (q : Text) (e : Entry D) (c : List (Entry D))
      → key e.datum ≢ q
      → find key h q (c ++ e ∷ []) ≡ find key h q c
  unfolding find
  find-append_ne h q e [] ne = ground (arith, text_eq_sound (key e.datum) q)
  find-append_ne h q e (f ∷ c) ne = ground (arith, find-append_ne h q e c ne)

  -- An entry that answers to two keys makes them one.
  matches_join :
      (e : Entry D) (g h : ℕ) (k q : Text)
      → matches key g k e ≡ true
      → matches key h q e ≡ true
      → k ≡ q
  matches_join e g h k q p r =
      sym (text_eq_sound (key e.datum) k (ground arith))
      ∙ text_eq_sound (key e.datum) q (ground arith)

  pub find-erase_ne :
      (g h : ℕ) (k q : Text) (c : List (Entry D))
      → k ≢ q
      → find key h q (erase key g k c) ≡ find key h q c
  unfolding find erase
  find-erase_ne g h k q [] ne = refl
  find-erase_ne g h k q (e ∷ c) ne =
      ground (arith, find-erase_ne g h k q c ne, matches_join e g h k q)

  find-erase-none :
      (g h : ℕ) (k q : Text) (c : List (Entry D))
      → find key h q c ≡ none
      → find key h q (erase key g k c) ≡ none
  unfolding find erase
  find-erase-none g h k q [] absent = refl
  find-erase-none g h k q (e ∷ c) absent = ground (arith, find-erase-none g h k q c)

  pub find-erase_self :
      (h : ℕ) (k : Text) (c : List (Entry D)) → IsUnique c → find key h k (erase key h k c) ≡ none
  unfolding find erase
  find-erase_self h k [] unique = refl
  find-erase_self h k (e ∷ c) unique = elim (Bool-cases (matches key h k e)) [
    | inr other ↦ rw (other, other) (find-erase_self h k c unique.1)
    | inl same ↦
        let key_same = text_eq_sound (key e.datum) k (ground arith) in
        let hash_same : e.hash ≡ h = ground arith in rw same (rw (hash_same, key_same) at unique.0)
  ]

  pub erase-IsUnique :
      (h : ℕ) (k : Text) (c : List (Entry D)) → IsUnique c → IsUnique (erase key h k c)
  unfolding erase
  erase-IsUnique h k [] unique = tt
  erase-IsUnique h k (e ∷ c) unique = elim (Bool-cases (matches key h k e)) [
    | inl same ↦ rw same unique.1
    | inr other ↦
        rw other
          (find-erase-none h e.hash k (key e.datum) c unique.0, erase-IsUnique h k c unique.1)
  ]

  pub append-IsUnique :
      (e : Entry D) (c : List (Entry D))
      → find key e.hash (key e.datum) c ≡ none
      → IsUnique c
      → IsUnique (c ++ e ∷ [])
  unfolding find
  append-IsUnique e [] absent unique = (refl, tt)
  append-IsUnique e (f ∷ c) absent unique = (
    find-append f.hash (key f.datum) e c unique.0
        ∙ ground (arith, text_eq_symm (key e.datum) (key f.datum)),
    append-IsUnique e c (ground arith) unique.1,
  )
