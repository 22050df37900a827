-- ===== src/Symtab/Add.antt =====
-- The state of the symbol table, and the functions that change it: `sym_add`, with the allocation of
-- symbols, the iterator over symbols, and the end of a scope.
pub mod Names
use lacc.Base.{
  ℕ, zero, suc, ◌+◌, ◌-◌, ◌%◌, ◌^◌, Bool, true, false, not, ◌&&◌, ◌||◌, Option, none, some, List,
  [], ◌∷◌, ◌++◌, drop, ltb, ◌==◌, if◌then◌else◌, set, length, Text, text_eq, Run, ok, assertion,
  undefined, demand, guard, ◌>>=◌, ◌>>◌,
}
use lacc.Types.Defs.{CType, is_function, Types}
use lacc.Types.Build.Create.{type_set_tag}
use lacc.Hash.Table.{HashTable, hash_init, hash_lookup, hash_insert, hash_clear}
use lacc.Ir.{SymType, Linkage, Symbol, Symbols, get_symbol}
use lacc.Symtab.Scopes.{
  SymRef, sym_hash_key, same_ref, Namespace, current_scope_depth, pop_scope, sym_lookup,
  sym_make_visible,
}
use lacc.Symtab.Declare.{symtype_code, linkage_code, sym_apply_type, sym_redeclare}

pub data NamespaceId : Type 0 where
  ns_ident ns_label ns_tag : NamespaceId

-- The static data of the file. `functions` is not there before its first use, and `n` is the counter
-- of static variables in `sym_add`. The cache of string types is left out.
pub record Symtab : Type 0 where
  pub syms : Symbols
  pub temporaries : List ℕ
  pub ident : Namespace
  pub labels : Namespace
  pub tags : Namespace
  pub functions : Option (HashTable SymRef)
  pub decl_memcpy : Option ℕ
  pub n : ℕ
  pub types : Types

abbrev pub namespace : NamespaceId → Symtab → Namespace
namespace ns_ident st = st.ident
namespace ns_label st = st.labels
namespace ns_tag st = st.tags

abbrev pub with_namespace : NamespaceId → Symtab → Namespace → Symtab
with_namespace ns_ident st ns = record st { ident = ns }
with_namespace ns_label st ns = record st { labels = ns }
with_namespace ns_tag st ns = record st { tags = ns }

-- The last element, and the list without it.
abbrev pub pop_back : List ℕ → Option (ℕ × List ℕ)
pop_back [] = none
pop_back (i ∷ is) =
    let rest = pop_back is in elim rest [ none ↦ some (i, []) | some p ↦ some (p.0, i ∷ p.1) ]

abbrev pub alloc_from : Option (ℕ × List ℕ) → Symtab → Symbol → ℕ × Symtab
alloc_from (some (i, rest)) st s = (i, record st { temporaries = rest; syms = set st.syms i s })
alloc_from none st s = (length st.syms, record st { syms = st.syms ++ s ∷ [] })

-- `alloc_sym`, and the write of the symbol's fields that follows it in each caller.
unfoldable pub alloc_sym : Symtab → Symbol → ℕ × Symtab
alloc_sym st s = alloc_from (pop_back st.temporaries) st s

unfoldable pub sym_discard : Symtab → ℕ → Symtab
sym_discard st i = record st { temporaries = st.temporaries ++ i ∷ [] }

unfoldable pub sym_lookup_function : Symtab → Text → Run (Option SymRef × Symtab)
sym_lookup_function st name = do
  table ← elim st.functions [ some t ↦ ok t | none ↦ hash_init SymRef 1024 ]
  ok (hash_lookup sym_hash_key table name, record st { functions = some table })

-- A function that an inner scope declared is visible here too.
abbrev pub reuse_function : ℕ → NamespaceId → CType → ℕ → SymRef → Symtab → Run (ℕ × Symtab)
reuse_function f id ty depth r st = do
  s ← get_symbol st.syms r.at
  (ty', ts) ← sym_apply_type f st.types s.type ty
  ns ← sym_make_visible (namespace id st) r
  let s' = record s { type = ty'; depth = if ltb depth s.depth then depth else s.depth }
  ok (r.at, with_namespace id (record st { syms = set st.syms r.at s'; types = ts }) ns)

abbrev pub redeclare_at : ℕ → SymRef → ℕ → CType → SymType → Linkage → Symtab → Run (ℕ × Symtab)
redeclare_at f r depth ty symtype linkage st = do
  s ← get_symbol st.syms r.at
  (s', ts) ← sym_redeclare f st.types s depth ty symtype linkage
  ok (r.at, record st { syms = set st.syms r.at s'; types = ts })

abbrev memcpy_text : Text
memcpy_text = b'm' ∷ b'e' ∷ b'm' ∷ b'c' ∷ b'p' ∷ b'y' ∷ []

abbrev pub note_memcpy : Option ℕ → Text → ℕ → Option ℕ
note_memcpy none name i = if text_eq memcpy_text name then some i else none
note_memcpy (some j) name i = some j

abbrev pub is_tag_type : SymType → Bool
is_tag_type symtype = symtype_code symtype == 7

abbrev pub is_typedef_type : SymType → Bool
is_typedef_type symtype = symtype_code symtype == 3

abbrev pub set_tag : SymType → CType → ℕ → Types → Run Types
set_tag symtype ty i ts =
    if is_tag_type symtype || is_typedef_type symtype
    then type_set_tag ty i (is_tag_type symtype) (is_typedef_type symtype) ts
    else ok ts

abbrev pub note_function :
    Bool → SymRef → Option (HashTable SymRef) → Run (Option (HashTable SymRef))
note_function false r functions = ok functions
note_function true r functions = do
  table ← demand functions undefined
  ok (some (hash_insert sym_hash_key same_ref table r).1)

abbrev pub numbered : Bool → Symtab → Symtab
numbered static st = if static then record st { n = suc st.n } else st

-- The part of `sym_add` behind the early returns.
unfoldable pub add_new :
    NamespaceId → Text → CType → SymType → Linkage → ℕ → Symtab → Run (ℕ × Symtab)
unfolding alloc_sym
add_new id name ty symtype linkage depth st = do
  let static = linkage_code linkage == 1 && not (depth == 0)
  let counted = numbered static st
  let s : Symbol = record {
    name = name;
    type = ty;
    symtype = symtype;
    linkage = linkage;
    referenced = false;
    n = if static then counted.n % 2 ^ 16 else 0;
    depth = depth;
    index = 0;
  }
  let made = alloc_sym counted s
  let i = made.0
  let st₁ = made.1
  let r : SymRef = record { name = name; at = i }
  ts ← set_tag symtype ty i st₁.types
  let held = namespace id st₁
  ns ← sym_make_visible (record held { symbol = held.symbol ++ i ∷ [] }) r
  functions ← note_function (not (is_typedef_type symtype) && is_function ty) r st₁.functions
  ok (
    i,
    with_namespace id
        (record st₁ {
          types = ts;
          functions = functions;
          decl_memcpy = note_memcpy st₁.decl_memcpy name i;
        })
        ns,
  )

abbrev pub is_ident : NamespaceId → Bool
is_ident ns_ident = true
is_ident _ = false

abbrev pub is_tags : NamespaceId → Bool
is_tags ns_tag = true
is_tags _ = false

-- What is done where no symbol of the name is visible, and where one is.
abbrev pub add_missing :
    ℕ → NamespaceId → Text → CType → SymType → Linkage → ℕ → Symtab → Run (ℕ × Symtab)
add_missing f id name ty symtype linkage depth st =
    if not (is_typedef_type symtype) && is_function ty
    then (do
      guard (is_ident id) assertion
      (found, st') ← sym_lookup_function st name
      elim found [
        | some r ↦ reuse_function f id ty depth r st'
        | none ↦ add_new id name ty symtype linkage depth st'
      ])
    else add_new id name ty symtype linkage depth st

abbrev pub add_visible :
    ℕ → NamespaceId → Text → CType → SymType → Linkage → ℕ → SymRef → Symtab → Run (ℕ × Symtab)
add_visible f id name ty symtype linkage depth r st = do
  s ← get_symbol st.syms r.at
  if (depth == 0 || linkage_code linkage == 2) && s.depth == 0
      then redeclare_at f r depth ty symtype linkage st
      else add_new id name ty symtype linkage depth st

unfoldable pub sym_add :
    ℕ → NamespaceId → Text → CType → SymType → Linkage → Symtab → Run (ℕ × Symtab)
unfolding sym_redeclare sym_lookup_function add_new
sym_add f id name ty symtype linkage st = do
  guard (not (symtype_code symtype == 6)) assertion
  guard (not (is_tag_type symtype) || is_tags id) assertion
  found ← sym_lookup (namespace id st) name
  depth ← current_scope_depth (namespace id st)
  elim found [
    | none ↦ add_missing f id name ty symtype linkage depth st
    | some r ↦ add_visible f id name ty symtype linkage depth r st
  ]

-- The loop of `yield_declaration`, over the symbols behind the cursor; the result has the cursor.
abbrev yields : Symbol → Bool
yields s =
    if symtype_code s.symtype == 1
    then true
    else (symtype_code s.symtype == 4 || symtype_code s.symtype == 5 || symtype_code s.symtype == 2)
      && s.referenced

unfoldable pub yield_from : Symbols → List ℕ → ℕ → Run (Option ℕ × ℕ)
yield_from syms [] cursor = ok (none, cursor)
yield_from syms (i ∷ is) cursor = do
  s ← get_symbol syms i
  elim (yields s) [ true ↦ ok (some i, suc cursor) | false ↦ yield_from syms is (suc cursor) ]

unfoldable pub yield_declaration : NamespaceId → Symtab → Run (Option ℕ × Symtab)
unfolding yield_from
yield_declaration id st = do
  let ns = namespace id st
  (found, cursor) ← yield_from st.syms (drop ns.cursor ns.symbol) ns.cursor
  ok (found, with_namespace id st (record ns { cursor = cursor }))

-- `pop_scope` of the last scope frees the symbols; with the identifiers go the buffers.
-- The number is that of the labels that are reported as undefined.
undefined_labels : Symbols → List ℕ → Run ℕ
undefined_labels syms [] = ok 0
undefined_labels syms (i ∷ is) = do
  s ← get_symbol syms i
  n ← undefined_labels syms is
  ok (if symtype_code s.symtype == 1 then suc n else n)

abbrev rewound : Namespace → Namespace
rewound ns = record ns { cursor = 0 }

abbrev cleared : Option (HashTable SymRef) → Option (HashTable SymRef)
cleared none = none
cleared (some table) = some (hash_clear table).1

abbrev symtab_reset_buffers : Symtab → Symtab
symtab_reset_buffers st = record st {
  ident = rewound st.ident;
  labels = rewound st.labels;
  tags = rewound st.tags;
  decl_memcpy = none;
  functions = cleared st.functions;
}

abbrev is_label : NamespaceId → Bool
is_label ns_label = true
is_label _ = false

unfoldable pub close_scope : NamespaceId → Symtab → Run (Symtab × ℕ)
unfolding undefined_labels pop_scope
close_scope id st = do
  let ns = namespace id st
  ns' ← pop_scope ns
  let popped = with_namespace id st ns'
  let last = ns.len == 1
  n ← if last && is_label id then undefined_labels st.syms ns.symbol else ok 0
  ok (if last && is_ident id then symtab_reset_buffers popped else popped, n)
