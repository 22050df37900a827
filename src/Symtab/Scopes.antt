-- ===== src/Symtab/Scopes.antt =====
-- The scopes of a namespace. A pointer to a symbol is its position in the list of all symbols, with
-- the name of the symbol, which does not change while the symbol is in a scope.
pub mod Stack
pub mod Tables
pub mod Refine
use lacc.Base.{
  ℕ, zero, suc, ◌-◌, Bool, true, false, Option, none, some, List, [], ◌∷◌, ◌++◌, ltb, ◌==◌,
  if◌then◌else◌, get_elem?, get_or, set, Text, Run, ok, assertion, undefined, demand, guard, ◌>>=◌,
  ◌>>◌,
}
use lacc.Hash.Table.{HashTable, hash_init, hash_lookup, hash_insert, hash_clear}

pub record SymRef : Type 0 where
  pub name : Text
  pub at : ℕ

abbrev pub sym_hash_key : SymRef → Text
sym_hash_key r = r.name

pub data ScopeState : Type 0 where
  scope_created scope_dirty scope_initialized : ScopeState

-- The table of a scope that is only created is not set; the list holds an empty one for it.
pub record Scope : Type 0 where
  pub table : HashTable SymRef
  pub state : ScopeState

-- `scope` has all the scopes that were ever pushed, `max_scope_depth` of them, and `len` is the
-- length of the array, behind which scopes wait for their next use.
pub record Namespace : Type 0 where
  pub symbol : List ℕ
  pub scope : List Scope
  pub len : ℕ
  pub cursor : ℕ

abbrev pub empty_scope : Scope
empty_scope = record {
  table = record { capacity = 0; slots = []; spare = 0 };
  state = scope_created;
}

abbrev pub soil : ScopeState → ScopeState
soil scope_initialized = scope_dirty
soil state = state

unfoldable pub current_scope_hash_cap : ℕ → Run ℕ
current_scope_hash_cap len = do
  guard (ltb 0 len) assertion
  ok (if ltb len 6 then get_or (256 ∷ 16 ∷ 128 ∷ 64 ∷ 32 ∷ 16 ∷ []) (len - 1) 8 else 8)

-- The scope behind the last one is taken again, if there is one.
unfoldable pub push_scope : Namespace → Namespace
push_scope ns = elim (get_elem? ns.scope ns.len) [
  | some s ↦ record ns {
    len = suc ns.len;
    scope = set ns.scope ns.len (record s { state = soil s.state });
  }
  | none ↦ record ns { len = suc ns.len; scope = ns.scope ++ empty_scope ∷ [] }
]

-- `pop_scope`, for what it does to the namespace: the last scope takes all the others along.
unfoldable pub pop_scope : Namespace → Run Namespace
pop_scope ns = do
  guard (ltb 0 ns.len) assertion
  ok (
      if ns.len == 1
      then record ns { symbol = []; scope = []; len = 0 }
      else record ns { len = ns.len - 1 })

unfoldable pub current_scope_depth : Namespace → Run ℕ
current_scope_depth ns = do guard (ltb 0 ns.len) assertion; ok (ns.len - 1)

-- What a scope shows under a name.
abbrev pub in_state : ScopeState → Option SymRef → Option SymRef
in_state scope_initialized found = found
in_state _ found = none

abbrev pub visible : Scope → Text → Option SymRef
visible s name = in_state s.state (hash_lookup sym_hash_key s.table name)

-- The loop over the scopes, down from the one below `i`.
unfoldable pub lookup_from : List Scope → ℕ → Text → Run (Option SymRef)
lookup_from scopes zero name = ok none
lookup_from scopes (suc i) name = do
  s ← demand (get_elem? scopes i) undefined
  let outer = lookup_from scopes i name
  elim (visible s name) [ some r ↦ ok (some r) | none ↦ outer ]

unfoldable pub sym_lookup : Namespace → Text → Run (Option SymRef)
unfolding lookup_from
sym_lookup ns name = lookup_from ns.scope ns.len name

-- The table that the scope inserts into.
abbrev pub ready : ScopeState → ℕ → HashTable SymRef → Run (HashTable SymRef)
ready scope_created len table = do cap ← current_scope_hash_cap len; hash_init SymRef cap
ready scope_dirty len table = ok (hash_clear table).1
ready scope_initialized len table = ok table

abbrev pub same_ref : SymRef → SymRef
same_ref r = r

unfoldable pub sym_make_visible : Namespace → SymRef → Run Namespace
unfolding current_scope_hash_cap
sym_make_visible ns r = do
  guard (ltb 0 ns.len) undefined
  s ← demand (get_elem? ns.scope (ns.len - 1)) undefined
  table ← ready s.state ns.len s.table
  let filled : Scope = record {
    table = (hash_insert sym_hash_key same_ref table r).1;
    state = scope_initialized;
  }
  ok (record ns { scope = set ns.scope (ns.len - 1) filled })
