-- ===== src/Hash/Map.antt =====
-- The operations of util/hash.c as operations of a partial map from keys to data.
use lacc.Base.{
  ◌%◌, List, [], true, false, Option, none, some, if◌then◌else◌, Text, text_eq, text_eq_refl,
  text_eq_sound, arith, Bool-cases, ◌≡◌, ◌≢◌, refl, sym, ◌∙◌, ap, inl, inr,
}
use lacc.Hash.Table.{
  Entry, HashTable, find, hash_lookup, hash_insert, hash_remove, hash_clear, djb2_hash,
}
use lacc.Hash.Slots.{IsValid, get_or-replicate, length-replicate}
use lacc.Hash.Methods.{kept, hash_remove-Removes, hash_insert-Inserts}

apart : (s t : Text) → text_eq s t ≡ false → s ≢ t
apart s t h e = let same : text_eq s t ≡ true = rw (← e) (text_eq_refl s) in ground arith

module _ {D : Type 0} {key : D → Text} {tab : HashTable D} (valid : IsValid key tab) where
  -- On a valid table, removal returns what the table holds under the key; after it a lookup of the
  -- key finds nothing, a lookup of any other key finds what it found before, and the table is valid.
  pub hash_remove-lookup :
      (k q : Text)
      → ((hash_remove key tab k).0 ≡ hash_lookup key tab k)
        × ((hash_lookup key (hash_remove key tab k).1 q
              ≡ (if text_eq k q then none else hash_lookup key tab q))
            × IsValid key (hash_remove key tab k).1)
  hash_remove-lookup k q =
      let done = hash_remove-Removes valid k in
      let after = hash_lookup key (hash_remove key tab k).1 in
      (
        done.returns,
        (
          elim (Bool-cases (text_eq k q)) [
            | inl same ↦ rw same (ap after (sym (text_eq_sound k q same)) ∙ done.gone)
            | inr other ↦ rw other (done.others q (apart k q other))
          ],
          done.valid_after,
        ),
      )

  -- On a valid table and with an initializer that keeps the key, insertion returns the datum held
  -- under the key of `val`, or the initialized `val` where there is none; after it a lookup of that
  -- key finds the returned datum, a lookup of any other key finds what it found before, and the
  -- table is valid.
  pub hash_insert-lookup :
      (add : D → D) (val : D)
      → key (add val) ≡ key val
      → (q : Text)
      → ((hash_insert key add tab val).0
          ≡ elim (hash_lookup key tab (key val)) [ none ↦ add val | some d ↦ d ])
        × ((hash_lookup key (hash_insert key add tab val).1 q ≡ (
              if text_eq (key val) q
              then some (hash_insert key add tab val).0
              else hash_lookup key tab q))
            × IsValid key (hash_insert key add tab val).1)
  hash_insert-lookup add val keeps q =
      let done = hash_insert-Inserts valid add val keeps in
      let after = hash_lookup key (hash_insert key add tab val).1 in
      (
        done.returns ∙ kept-eq (hash_lookup key tab (key val)),
        (
          elim (Bool-cases (text_eq (key val) q)) [
            | inl same ↦ rw same (ap after (sym (text_eq_sound (key val) q same)) ∙ done.there)
            | inr other ↦ rw other (done.others q (apart (key val) q other))
          ],
          done.valid_after,
        ),
      )
    where
      kept-eq : (o : Option D) → kept valid add val o ≡ elim o [ none ↦ add val | some d ↦ d ]
      kept-eq none = refl
      kept-eq (some d) = refl

  -- Clearing a valid table leaves a valid table, of the same capacity, in which every lookup fails.
  pub hash_clear-lookup :
      (k : Text)
      → (hash_lookup key (hash_clear tab).1 k ≡ none)
        × (((hash_clear tab).1.capacity ≡ tab.capacity) × IsValid key (hash_clear tab).1)
  unfolding hash_clear hash_lookup find
  hash_clear-lookup k =
      let i = djb2_hash k % tab.capacity in
      let empty = get_or-replicate {A = List (Entry D)} tab.capacity in
      (
        rw (empty i []),
        (
          refl,
          record {
            pos = valid.pos;
            sized = length-replicate tab.capacity [];
            unique = λ j. rw (empty j []) tt;
          },
        ),
      )
