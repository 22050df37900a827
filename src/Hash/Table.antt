-- ===== src/Hash/Table.antt =====
-- The table and its operations. A slot is the list of the entries of its chain, its first entry in
-- the array itself; an array entry with no data is the empty list. The overflow slot
-- `table[capacity]`, which chains entries for reuse, is the number of these entries.
use lacc.Base.{
  ℕ, ◌+◌, ◌-◌, ◌*◌, ◌%◌, ◌^◌, Bool, ◌&&◌, Option, none, some, List, [], ◌∷◌, ◌++◌, reverse, ltb,
  ◌==◌, if◌then◌else◌, get_or, set, replicate, length, Text, text_eq, u64, Run, ok, assertion, ◌>>◌,
  guard,
}

-- The conversion of a `char` to `unsigned long`, by way of `int`.
abbrev widen_char : ℕ → ℕ
widen_char c = if ltb c 128 then c else 2 ^ 64 - 256 + c

djb2_loop : ℕ → Text → ℕ
djb2_loop hash [] = hash
djb2_loop hash (c ∷ s) = djb2_loop (u64 (u64 (hash * 32) + hash + widen_char c)) s

unfoldable pub djb2_hash : Text → ℕ
unfolding djb2_loop
djb2_hash s = djb2_loop 5381 s

pub record Entry (D : Type 0) : Type 0 where
  pub datum : D
  pub hash : ℕ

-- The callbacks are arguments of the operations: `key`, and `add` for new data. `del` acts on the
-- client's memory: an operation returns the data that it is called with, in order.
pub record HashTable (D : Type 0) : Type 0 where
  pub capacity : ℕ
  pub slots : List (List (Entry D))
  pub spare : ℕ

unfoldable pub hash_init : (D : Type 0) → ℕ → Run (HashTable D)
hash_init D cap = do
  guard (ltb 0 cap) assertion
  ok (record { capacity = cap; slots = replicate cap []; spare = 0 })

module _ {D : Type 0} where
  -- The chain of a hash, and the table with another chain there.
  abbrev pub chain_of : HashTable D → ℕ → List (Entry D)
  chain_of tab h = get_or tab.slots (h % tab.capacity) []

  abbrev pub with_chain : HashTable D → ℕ → List (Entry D) → ℕ → HashTable D
  with_chain tab h c spare = record tab {
    slots = set tab.slots (h % tab.capacity) c;
    spare = spare;
  }

  -- `hash_alloc_entry` takes an entry from the overflow slot, if there is one; the first entry of
  -- a slot is in the array.
  abbrev pub alloc_entry : List (Entry D) → ℕ → ℕ
  alloc_entry [] spare = spare
  alloc_entry (e ∷ c) spare = spare - 1

  -- `hash_free_entry`, unless the last entry of the slot goes.
  abbrev pub free_entry : List (Entry D) → ℕ → ℕ
  free_entry [] spare = spare
  free_entry (e ∷ []) spare = spare
  free_entry (e ∷ f ∷ c) spare = spare + 1

  module _ (key : D → Text) where
    -- The test of the loop of `hash_walk`.
    abbrev pub matches : ℕ → Text → Entry D → Bool
    matches h k e = e.hash == h && text_eq (key e.datum) k

    -- Where the walk of a chain ends with data.
    unfoldable pub find : ℕ → Text → List (Entry D) → Option D
    find h k [] = none
    find h k (e ∷ c) = if matches h k e then some e.datum else find h k c

    -- The chain without the entry at which the walk ends.
    unfoldable pub erase : ℕ → Text → List (Entry D) → List (Entry D)
    erase h k [] = []
    erase h k (e ∷ c) = if matches h k e then c else e ∷ erase h k c

    unfoldable pub hash_lookup : HashTable D → Text → Option D
    unfolding find
    hash_lookup tab k = find (djb2_hash k) k (chain_of tab (djb2_hash k))

    unfoldable pub hash_remove : HashTable D → Text → Option D × HashTable D
    unfolding find erase
    hash_remove tab k =
        let h = djb2_hash k in
        let c = chain_of tab h in
        elim (find h k c) [
          | none ↦ (none, tab)
          | some d ↦ (some d, with_chain tab h (erase h k c) (free_entry c tab.spare))
        ]

    unfoldable pub hash_insert : (D → D) → HashTable D → D → D × HashTable D
    unfolding find
    hash_insert add tab val =
        let h = djb2_hash (key val) in
        let c = chain_of tab h in
        elim (find h (key val) c) [
          | some d ↦ (d, tab)
          | none ↦
              let e : Entry D = record { datum = add val; hash = h } in
              (add val, with_chain tab h (c ++ e ∷ []) (alloc_entry c tab.spare))
        ]

  -- The order of the calls of `del` for one slot: `hash_clear` takes the first entry, and then the
  -- others from the last one backwards; `hash_destroy` goes backwards throughout.
  abbrev pub data_of : List (Entry D) → List D
  data_of [] = []
  data_of (e ∷ c) = e.datum ∷ data_of c

  abbrev pub clear_order : List (Entry D) → List D
  clear_order [] = []
  clear_order (e ∷ c) = e.datum ∷ reverse (data_of c)

  unfoldable pub clear_slots : List (List (Entry D)) → List D × ℕ
  clear_slots [] = ([], 0)
  clear_slots (c ∷ cs) =
      let rest = clear_slots cs in (clear_order c ++ rest.0, (length c - 1) + rest.1)

  unfoldable pub hash_clear : HashTable D → List D × HashTable D
  unfolding clear_slots
  hash_clear tab =
      let cleared = clear_slots tab.slots in
      (cleared.0, record tab { slots = replicate tab.capacity []; spare = tab.spare + cleared.1 })

  unfoldable pub destroy_slots : List (List (Entry D)) → List D
  destroy_slots [] = []
  destroy_slots (c ∷ cs) = reverse (data_of c) ++ destroy_slots cs

  unfoldable pub hash_destroy : HashTable D → List D
  unfolding destroy_slots
  hash_destroy tab = destroy_slots tab.slots
