-- ===== src/Hash/Clear.antt =====
-- What `hash_clear` and `hash_destroy` hand to the callback `del`.
use mathlib.Core.List.{Perm, reverse_perm}
use mathlib.Core.List.Perm
use lacc.Base.{ℕ, ◌+◌, ◌-◌, List, [], ◌∷◌, ◌++◌, length, ◌≡◌, refl, ap}
use lacc.Hash.Table.{
  Entry, HashTable, data_of, clear_order, clear_slots, hash_clear, destroy_slots, hash_destroy,
}

module _ {D : Type 0} where
  -- The data of all slots.
  abbrev pub all_data : List (List (Entry D)) → List D
  all_data [] = []
  all_data (c ∷ cs) = data_of c ++ all_data cs

  -- The entries behind the first ones of all slots, which are not in the array.
  abbrev pub chained : List (List (Entry D)) → ℕ
  chained [] = 0
  chained (c ∷ cs) = (length c - 1) + chained cs

  clear_order-data_of : (c : List (Entry D)) → Perm (clear_order c) (data_of c)
  clear_order-data_of [] = Perm.refl []
  clear_order-data_of (e ∷ c) = Perm.cons e.datum (reverse_perm (data_of c))

  clear_slots-all_data : (cs : List (List (Entry D))) → Perm (clear_slots cs).0 (all_data cs)
  unfolding clear_slots
  clear_slots-all_data [] = Perm.refl []
  clear_slots-all_data (c ∷ cs) = Perm.append (clear_order-data_of c) (clear_slots-all_data cs)

  clear_slots-chained : (cs : List (List (Entry D))) → (clear_slots cs).1 ≡ chained cs
  unfolding clear_slots
  clear_slots-chained [] = refl
  clear_slots-chained (c ∷ cs) = ap (λ n. (length c - 1) + n) (clear_slots-chained cs)

  destroy_slots-all_data : (cs : List (List (Entry D))) → Perm (destroy_slots cs) (all_data cs)
  unfolding destroy_slots
  destroy_slots-all_data [] = Perm.refl []
  destroy_slots-all_data (c ∷ cs) =
      Perm.append (reverse_perm (data_of c)) (destroy_slots-all_data cs)

  -- Clearing and destroying a table hand the same data to `del`: every datum of the table, each
  -- once. Clearing puts every entry that is not in the array aside for reuse, and no other.
  pub hash_clear-hash_destroy :
      (tab : HashTable D)
      → Perm (hash_clear tab).0 (all_data tab.slots)
        × Perm (hash_destroy tab) (all_data tab.slots)
        × ((hash_clear tab).1.spare ≡ tab.spare + chained tab.slots)
  unfolding hash_clear hash_destroy
  hash_clear-hash_destroy tab = (
    clear_slots-all_data tab.slots,
    destroy_slots-all_data tab.slots,
    ap (λ n. tab.spare + n) (clear_slots-chained tab.slots),
  )
