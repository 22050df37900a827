-- ===== src/Hash/Methods.antt =====
-- The operations against a partial map from keys to data.
use native.Mathlib.Decide.{ℕ_discrete}
use lacc.Base.{
  ℕ, ◌%◌, true, Option, none, some, List, [], ◌∷◌, ◌++◌, ◌==◌, if◌then◌else◌, Text, text_eq,
  text_eq_refl, ◌≡◌, ◌≢◌, refl, sym, ◌∙◌, arith, Option-cases, inl, inr,
}
use lacc.Hash.Table.{
  Entry, HashTable, chain_of, with_chain, find, erase, matches, alloc_entry, free_entry, djb2_hash,
  hash_lookup, hash_insert, hash_remove,
}
use lacc.Hash.Chain.{
  IsUnique, find-append, find-append_ne, find-erase_ne, find-erase_self, erase-IsUnique,
  append-IsUnique,
}
use lacc.Hash.Slots.{IsValid, chain_of-with_chain_self, chain_of-with_chain_ne, with_chain-IsValid}

module _ {D : Type 0} {key : D → Text} {tab : HashTable D} (valid : IsValid key tab)
    (k : Text) where
  abbrev chain : List (Entry D)
  chain = chain_of tab (djb2_hash k)

  -- What another key reads once the chain of `k` was rewritten.
  lookup-with_chain_ne :
      (c : List (Entry D)) (spare : ℕ) (q : Text)
      → find key (djb2_hash q) q c ≡ find key (djb2_hash q) q chain
      → hash_lookup key (with_chain tab (djb2_hash k) c spare) q ≡ hash_lookup key tab q
  unfolding hash_lookup
  lookup-with_chain_ne c spare q same =
      elim (ℕ_discrete (djb2_hash k % tab.capacity) (djb2_hash q % tab.capacity)) [
        | no other ↦ rw (chain_of-with_chain_ne valid (djb2_hash k) (djb2_hash q) spare c other)
        | yes at ↦ rw (← at, chain_of-with_chain_self valid (djb2_hash k) spare c) same
      ]

  lookup-with_chain_self :
      (c : List (Entry D)) (spare : ℕ)
      → hash_lookup key (with_chain tab (djb2_hash k) c spare) k ≡ find key (djb2_hash k) k c
  unfolding hash_lookup
  lookup-with_chain_self c spare = rw (chain_of-with_chain_self valid (djb2_hash k) spare c)

  unique : IsUnique key chain
  unique = valid.unique (djb2_hash k % tab.capacity)

  hash_lookup-eq : {o : Option D} → hash_lookup key tab k ≡ o → find key (djb2_hash k) k chain ≡ o
  unfolding hash_lookup
  hash_lookup-eq h = h

  -- The effect of a removal that returned `r`.
  pub record Removes (r : Option D × HashTable D) : Type 0 where
    pub returns : r.0 ≡ hash_lookup key tab k
    pub gone : hash_lookup key r.1 k ≡ none
    pub others : (q : Text) → k ≢ q → hash_lookup key r.1 q ≡ hash_lookup key tab q
    pub valid_after : IsValid key r.1

  hash_remove-value :
      (d : D)
      → hash_lookup key tab k ≡ some d
      → hash_remove key tab k ≡ (
        some d,
        with_chain tab (djb2_hash k) (erase key (djb2_hash k) k chain) (free_entry chain tab.spare),
      )
  unfolding hash_remove
  hash_remove-value d there = rw (hash_lookup-eq there, hash_remove)

  hash_remove-absent : hash_lookup key tab k ≡ none → hash_remove key tab k ≡ (none, tab)
  unfolding hash_remove
  hash_remove-absent absent = rw (hash_lookup-eq absent, hash_remove)

  pub hash_remove-Removes : Removes (hash_remove key tab k)
  hash_remove-Removes = elim (Option-cases (hash_lookup key tab k)) [
    | inl absent ↦
        rw (hash_remove-absent absent) (record {
          returns = sym absent;
          gone = absent;
          others = λ q ne. refl;
          valid_after = valid;
        })
    | inr (d, there) ↦
        let c = erase key (djb2_hash k) k chain in
        let spare = free_entry chain tab.spare in
        rw (hash_remove-value d there) (record {
          returns = sym there;
          gone = lookup-with_chain_self c spare ∙ find-erase_self key (djb2_hash k) k chain unique;
          others = λ q ne.
              lookup-with_chain_ne c spare q
                (find-erase_ne key (djb2_hash k) (djb2_hash q) k q chain ne);
          valid_after =
              with_chain-IsValid valid (djb2_hash k) spare c
                (erase-IsUnique key (djb2_hash k) k chain unique);
        })
  ]

module _ {D : Type 0} {key : D → Text} {tab : HashTable D} (valid : IsValid key tab) (add : D → D)
    (val : D) where
  -- What an insertion gives back: the datum under the same key, if there is one.
  abbrev pub kept : Option D → D
  kept none = add val
  kept (some d) = d

  -- The effect of an insertion that returned `r`.
  pub record Inserts (r : D × HashTable D) : Type 0 where
    pub returns : r.0 ≡ kept (hash_lookup key tab (key val))
    pub there : hash_lookup key r.1 (key val) ≡ some r.0
    pub others : (q : Text) → key val ≢ q → hash_lookup key r.1 q ≡ hash_lookup key tab q
    pub valid_after : IsValid key r.1

  abbrev fresh : Entry D
  fresh = record { datum = add val; hash = djb2_hash (key val) }

  abbrev bucket : List (Entry D)
  bucket = chain_of tab (djb2_hash (key val))

  hash_insert-present :
      (d : D) → hash_lookup key tab (key val) ≡ some d → hash_insert key add tab val ≡ (d, tab)
  unfolding hash_insert
  hash_insert-present d there = rw (hash_lookup-eq valid (key val) there, hash_insert)

  hash_insert-absent :
      hash_lookup key tab (key val) ≡ none
      → hash_insert key add tab val ≡ (
        add val,
        with_chain tab (djb2_hash (key val)) (bucket ++ fresh ∷ []) (alloc_entry bucket tab.spare),
      )
  unfolding hash_insert
  hash_insert-absent absent = rw (hash_lookup-eq valid (key val) absent, hash_insert)

  own_match :
      key (add val) ≡ key val
      → (if matches key (djb2_hash (key val)) (key val) fresh then some (add val) else none)
        ≡ some (add val)
  own_match keeps =
      let number : (djb2_hash (key val) == djb2_hash (key val)) ≡ true = ground arith in
      let text : text_eq (key (add val)) (key val) ≡ true = rw keeps (text_eq_refl (key val)) in
      rw (number, text)

  pub hash_insert-Inserts : key (add val) ≡ key val → Inserts (hash_insert key add tab val)
  hash_insert-Inserts keeps = elim (Option-cases (hash_lookup key tab (key val))) [
    | inr (d, present) ↦ rw (hash_insert-present d present) (record {
      returns = rw present;
      there = present;
      others = λ q ne. refl;
      valid_after = valid;
    })
    | inl absent ↦
        let h = djb2_hash (key val) in
        let c = bucket ++ fresh ∷ [] in
        let spare = alloc_entry bucket tab.spare in
        let missing = hash_lookup-eq valid (key val) absent in
        rw (hash_insert-absent absent) (record {
          returns = rw absent;
          there =
              lookup-with_chain_self valid (key val) c spare
              ∙ find-append key h (key val) fresh bucket missing
              ∙ own_match keeps;
          others = λ q ne.
              lookup-with_chain_ne valid (key val) c spare q
                (find-append_ne key (djb2_hash q) q fresh bucket (λ e. ne (sym keeps ∙ e)));
          valid_after =
              with_chain-IsValid valid h spare c
                (append-IsUnique key fresh bucket (rw keeps missing) (unique valid (key val)));
        })
  ]
