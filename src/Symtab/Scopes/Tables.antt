-- ===== src/Symtab/Scopes/Tables.antt =====
-- The table of a scope, before and after a symbol is inserted.
use lacc.Base.{
  ℕ, zero, suc, ◌%◌, ◌<◌, true, false, Option, none, some, List, [], ltb, Text, Run, ok, ◌≡◌, refl,
  ◌∙◌, ap, arith, replicate,
}
use lacc.Hash.Table.{Entry, djb2_hash, HashTable, hash_init, hash_lookup, hash_insert, hash_clear}
use lacc.Hash.Slots.{IsValid, get_or-replicate, length-replicate}
use lacc.Hash.Map.{hash_insert-lookup, hash_clear-lookup}
use lacc.Symtab.Scopes.{
  SymRef, sym_hash_key, ScopeState, scope_created, scope_dirty, scope_initialized, ready, same_ref,
  in_state, current_scope_hash_cap,
}
use lacc.Symtab.Scopes.Stack.{Env, or_else, bind, StateSound}

pub record Readied (table : Run (HashTable SymRef)) (shown : Env) : Type 0 where
  pub result : HashTable SymRef
  pub run : table ≡ ok result
  pub valid : IsValid sym_hash_key result
  pub agrees : (name : Text) → hash_lookup sym_hash_key result name ≡ shown name

pub cap-pos : (len : ℕ) → 0 < len → (cap : ℕ) × (current_scope_hash_cap len ≡ ok cap) × (0 < cap)
unfolding current_scope_hash_cap
cap-pos zero h = absurd (omega (arith, h))
cap-pos (suc zero) h = (256, refl, omega arith)
cap-pos (suc (suc zero)) h = (16, refl, omega arith)
cap-pos (suc (suc (suc zero))) h = (128, refl, omega arith)
cap-pos (suc (suc (suc (suc zero)))) h = (64, refl, omega arith)
cap-pos (suc (suc (suc (suc (suc zero))))) h = (32, refl, omega arith)
cap-pos (suc (suc (suc (suc (suc (suc len)))))) h =
    let some_scope : ltb 0 (suc (suc (suc (suc (suc (suc len)))))) ≡ true = ground arith in
    let many : ltb (suc (suc (suc (suc (suc (suc len)))))) 6 ≡ false = ground arith in
    (8, rw (some_scope, many) refl, omega arith)

pub fresh : ℕ → HashTable SymRef
fresh cap = record { capacity = cap; slots = replicate cap []; spare = 0 }

pub hash_init-fresh : (cap : ℕ) → 0 < cap → hash_init SymRef cap ≡ ok (fresh cap)
unfolding fresh hash_init
hash_init-fresh cap pos = let test : ltb 0 cap ≡ true = ground arith in rw test refl

pub fresh-IsValid : (cap : ℕ) → 0 < cap → IsValid sym_hash_key (fresh cap)
unfolding fresh
fresh-IsValid cap pos = record {
  pos = pos;
  sized = length-replicate cap [];
  unique = λ j. rw (get_or-replicate {A = List (Entry SymRef)} cap j []) tt;
}

pub fresh-lookup : (cap : ℕ) (name : Text) → hash_lookup sym_hash_key (fresh cap) name ≡ none
unfolding fresh hash_lookup
fresh-lookup cap name =
    rw (get_or-replicate {A = List (Entry SymRef)} cap (djb2_hash name % cap) []) refl

pub ready-Readied :
    (state : ScopeState) (len : ℕ) (table : HashTable SymRef)
    → 0 < len
    → StateSound state table
    → Readied (ready state len table) (λ name. in_state state (hash_lookup sym_hash_key table name))
ready-Readied scope_created len table pos sound =
    let (cap, run, pos') = cap-pos len pos in
    record {
      result = fresh cap;
      run = rw run (hash_init-fresh cap pos');
      valid = fresh-IsValid cap pos';
      agrees = fresh-lookup cap;
    }
ready-Readied scope_dirty len table pos valid = record {
  result = (hash_clear table).1;
  run = refl;
  valid = (hash_clear-lookup valid []).1.1;
  agrees = λ name. (hash_clear-lookup valid name).0;
}
ready-Readied scope_initialized len table pos valid = record {
  result = table;
  run = refl;
  valid = valid;
  agrees = λ name. refl;
}

pub insert-bind :
    (old : Option SymRef) (e : Env) (r : SymRef) (q : Text) {v : SymRef}
    → old ≡ e r.name
    → v ≡ elim old [ none ↦ r | some d ↦ d ]
    → v ≡ or_else (e r.name) r
insert-bind none e r q h k = k ∙ ap (λ o. or_else o r) h
insert-bind (some d) e r q h k = k ∙ ap (λ o. or_else o r) h

-- The table with one more symbol shows the map with one more symbol.
pub inserted-bind :
    (table : HashTable SymRef) (e : Env) (r : SymRef)
    → IsValid sym_hash_key table
    → ((name : Text) → hash_lookup sym_hash_key table name ≡ e name)
    → (name : Text)
    → hash_lookup sym_hash_key (hash_insert sym_hash_key same_ref table r).1 name ≡ bind r e name
inserted-bind table e r valid agrees name =
    let (returned, (found, _)) = hash_insert-lookup valid same_ref r refl name in
    let kept =
      insert-bind (hash_lookup sym_hash_key table r.name) e r name (agrees r.name) returned in
    found ∙ rw (kept, agrees name) refl
