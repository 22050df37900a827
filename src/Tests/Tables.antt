-- ===== src/Tests/Tables.antt =====
-- A hash table of strings, with one slot: every operation works on one chain.
use lacc.Base.{
  ◌+◌, ℕ, zero, suc, none, some, [], ◌∷◌, if◌then◌else◌, Text, text_eq, get_or, ◌≡◌, refl, arith,
}
use lacc.Hash.Table.{
  HashTable, hash_destroy, hash_lookup, hash_insert, hash_remove, hash_clear, djb2_hash,
}
use lacc.Hash.Slots.{IsValid}
use lacc.Hash.Chain.{IsUnique}
use mathlib.Core.List.{Perm}
use lacc.Hash.Clear.{hash_clear-hash_destroy, chained}
use lacc.Hash.Map.{hash_remove-lookup, hash_insert-lookup}

abbrev own : Text → Text
own s = s

abbrev small : HashTable Text
small = record {
  capacity = 1;
  slots = (record { datum = b'a' ∷ []; hash = djb2_hash (b'a' ∷ []) } ∷ []) ∷ [];
  spare = 0;
}

small-IsUnique : (i : ℕ) → IsUnique own (get_or small.slots i [])
unfolding lacc.Hash.Table.find
small-IsUnique zero = (refl, tt)
small-IsUnique (suc i) = tt

small-IsValid : IsValid own small
small-IsValid = record { pos = omega arith; sized = refl; unique = small-IsUnique }

hash_remove-lookup_example :
    ((hash_remove own small (b'a' ∷ [])).0 ≡ hash_lookup own small (b'a' ∷ []))
    × ((hash_lookup own (hash_remove own small (b'a' ∷ [])).1 (b'b' ∷ [])
          ≡ (if text_eq (b'a' ∷ []) (b'b' ∷ []) then none else hash_lookup own small (b'b' ∷ [])))
        × IsValid own (hash_remove own small (b'a' ∷ [])).1)
hash_remove-lookup_example = hash_remove-lookup small-IsValid (b'a' ∷ []) (b'b' ∷ [])

hash_insert-lookup_example :
    ((hash_insert own own small (b'b' ∷ [])).0
      ≡ elim (hash_lookup own small (b'b' ∷ [])) [ none ↦ b'b' ∷ [] | some d ↦ d ])
    × ((hash_lookup own (hash_insert own own small (b'b' ∷ [])).1 (b'a' ∷ []) ≡ (
          if text_eq (b'b' ∷ []) (b'a' ∷ [])
          then some (hash_insert own own small (b'b' ∷ [])).0
          else hash_lookup own small (b'a' ∷ [])))
        × IsValid own (hash_insert own own small (b'b' ∷ [])).1)
hash_insert-lookup_example = hash_insert-lookup small-IsValid own (b'b' ∷ []) refl (b'a' ∷ [])

hash_clear-hash_destroy_example :
    Perm (hash_clear small).0 ((b'a' ∷ []) ∷ [])
    × Perm (hash_destroy small) ((b'a' ∷ []) ∷ [])
    × ((hash_clear small).1.spare ≡ 0 + chained small.slots)
hash_clear-hash_destroy_example = hash_clear-hash_destroy small
