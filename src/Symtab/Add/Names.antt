-- ===== src/Symtab/Add/Names.antt =====
-- What a name means after `sym_add` of src/parser/symtab.c.
use lacc.Base.{
  ℕ, zero, suc, ◌%◌, ◌^◌, Bool, true, false, not, ◌&&◌, Option, none, some, List, [], ◌∷◌, ◌++◌,
  ◌==◌, ltb, ◌-◌, if◌then◌else◌, Text, text_eq, set, length, Run, ok, ◌≡◌, refl, ◌∙◌, ap, arith,
  inl, inr, Option-cases,
}
use lacc.Types.Defs.{CType, is_function}
use lacc.Ir.{SymType, Linkage, Symbol, Symbols, get_symbol}
use lacc.Symtab.Scopes.{SymRef, Scope, Namespace, current_scope_depth, sym_lookup}
use lacc.Symtab.Scopes.Stack.{Env, or_else, bind, resolve, Shows, Models, sym_lookup-resolve}
use lacc.Symtab.Scopes.Refine.{sym_make_visible-Models}
use lacc.Symtab.Declare.{symtype_code, linkage_code}
use lacc.Symtab.Add.{
  NamespaceId, ns_ident, ns_label, ns_tag, Symtab, namespace, with_namespace, pop_back, alloc_from,
  alloc_sym, numbered, note_memcpy, is_tag_type, is_typedef_type, add_new, sym_add, add_visible,
  add_missing,
}

-- A kind of symbol that is neither a label, nor a tag, nor the name of a type.
abbrev pub is_ordinary : SymType → Bool
is_ordinary symtype =
    not (symtype_code symtype == 6) && not (is_tag_type symtype) && not (is_typedef_type symtype)

-- What `add_new` changes before the symbol is made visible.
abbrev changed : Symtab → List ℕ → Symbols → ℕ → Symtab
changed st temporaries syms n = record st { temporaries = temporaries; syms = syms; n = n }

record Allocated (st : Symtab) (static : Bool) (s : Symbol) : Type 0 where
  i : ℕ
  temporaries : List ℕ
  syms : Symbols
  n : ℕ
  run : alloc_sym (numbered static st) s ≡ (i, changed st temporaries syms n)

-- Both sources of a symbol.
alloc_from-result :
    (o : Option (ℕ × List ℕ)) (st : Symtab) (s : Symbol)
    → (i : ℕ) × (t : List ℕ) × (y : Symbols) × (alloc_from o st s
        ≡ (i, record st { temporaries = t; syms = y }))
alloc_from-result none st s = (length st.syms, st.temporaries, st.syms ++ s ∷ [], refl)
alloc_from-result (some (i, rest)) st s = (i, rest, set st.syms i s, refl)

alloc-Allocated : (st : Symtab) (static : Bool) (s : Symbol) → Allocated st static s
unfolding alloc_sym
alloc-Allocated st true s =
    let (i, t, y, e) = alloc_from-result (pop_back st.temporaries) (numbered true st) s in
    record { i = i; temporaries = t; syms = y; n = suc st.n; run = e }
alloc-Allocated st false s =
    let (i, t, y, e) = alloc_from-result (pop_back st.temporaries) (numbered false st) s in
    record { i = i; temporaries = t; syms = y; n = st.n; run = e }

namespace-changed :
    (id : NamespaceId) (st : Symtab) (t : List ℕ) (y : Symbols) (n : ℕ)
    → namespace id (changed st t y n) ≡ namespace id st
namespace-changed ns_ident st t y n = refl
namespace-changed ns_label st t y n = refl
namespace-changed ns_tag st t y n = refl

namespace-with_namespace :
    (id : NamespaceId) (st : Symtab) (ns : Namespace) → namespace id (with_namespace id st ns) ≡ ns
namespace-with_namespace ns_ident st ns = refl
namespace-with_namespace ns_label st ns = refl
namespace-with_namespace ns_tag st ns = refl

-- A new symbol is in the last scope of its namespace.
pub record Added (run : Run (ℕ × Symtab)) (id : NamespaceId) (name : Text) (e : Env)
    (envs : List Env) : Type 0 where
  pub i : ℕ
  pub after : Symtab
  pub added : run ≡ ok (i, after)
  pub models : Models (namespace id after) (bind (record { name = name; at = i }) e ∷ envs)

add_new-Added :
    (id : NamespaceId) (name : Text) (ty : CType) (symtype : SymType) (linkage : Linkage)
    (depth : ℕ) (st : Symtab) (e : Env) (envs : List Env)
    → is_ordinary symtype ≡ true
    → is_function ty ≡ false
    → Models (namespace id st) (e ∷ envs)
    → Added (add_new id name ty symtype linkage depth st) id name e envs
unfolding add_new
add_new-Added id name ty symtype linkage depth st e envs ordinary object m =
    let static = linkage_code linkage == 1 && not (depth == 0) in
    let counted = numbered static st in
    let s : Symbol = record {
      name = name;
      type = ty;
      symtype = symtype;
      linkage = linkage;
      referenced = false;
      n = if static then counted.n % 2 ^ 16 else 0;
      depth = depth;
      index = 0;
    } in
    let a = alloc-Allocated st static s in
    let r : SymRef = record { name = name; at = a.i } in
    let held = namespace id st in
    let listed : Namespace = record held { symbol = held.symbol ++ a.i ∷ [] } in
    let m₁ : Models listed (e ∷ envs) = record {
      sound = m.sound;
      bounded = m.bounded;
      shows = m.shows;
    } in
    let (ns, run, m₂) = sym_make_visible-Models listed e envs r m₁ in
    let no_tag : is_tag_type symtype ≡ false = ground arith in
    let no_typedef : is_typedef_type symtype ≡ false = ground arith in
    let filled : Symtab = record (changed st a.temporaries a.syms a.n) {
      decl_memcpy = note_memcpy st.decl_memcpy name a.i;
    } in
    record {
      i = a.i;
      after = with_namespace id filled ns;
      added =
          rw
            (
              a.run,
              no_tag,
              no_typedef,
              object,
              namespace-changed id st a.temporaries a.syms a.n,
              run,
            )
            refl;
      models = rw (namespace-with_namespace id filled ns) m₂;
    }

bind-resolve :
    (r : SymRef) (e : Env) (envs : List Env) (q : Text)
    → resolve (bind r e ∷ envs) q
      ≡ (if text_eq r.name q then some (or_else (e r.name) r) else resolve (e ∷ envs) q)
bind-resolve r e envs q = branch (text_eq r.name q) (or_else (e r.name) r) (e q) (resolve envs q)
  where
    branch :
        (v : Bool) (a : SymRef) (o outer : Option SymRef)
        → elim (if v then some a else o) [ some x ↦ some x | none ↦ outer ]
          ≡ (if v then some a else elim o [ some x ↦ some x | none ↦ outer ])
    branch true a o outer = refl
    branch false a o outer = refl

inner-depth :
    (ns : Namespace) (e d : Env) (envs : List Env)
    → Models ns (e ∷ d ∷ envs)
    → (depth : ℕ) × ((depth == 0) ≡ false) × (current_scope_depth ns ≡ ok depth)
unfolding current_scope_depth
inner-depth ns e d envs m =
    let (i, two) = depth-Shows ns.scope ns.len e d envs m.shows in
    let some_scope : ltb 0 ns.len ≡ true = rw two (ground arith) in
    let inner : (ns.len - 1 == 0) ≡ false = rw two (ground arith) in
    (ns.len - 1, inner, rw some_scope refl)
  where
    depth-Shows :
        (scopes : List Scope) (len : ℕ) (e d : Env) (envs : List Env)
        → Shows scopes len (e ∷ d ∷ envs)
        → (i : ℕ) × (len ≡ suc (suc i))
    depth-Shows scopes zero e d envs h = elim h [ ]
    depth-Shows scopes (suc zero) e d envs h = elim h.1 [ ]
    depth-Shows scopes (suc (suc i)) e d envs h = (i, refl)

-- The two ways into `add_new`.
module _ (f : ℕ) (id : NamespaceId) (name : Text) (ty : CType) (symtype : SymType)
    (linkage : Linkage) (depth : ℕ) (st : Symtab) where
  add_missing-add_new :
      is_typedef_type symtype ≡ false
      → is_function ty ≡ false
      → add_missing f id name ty symtype linkage depth st
        ≡ add_new id name ty symtype linkage depth st
  add_missing-add_new no_typedef object = rw (no_typedef, object) refl

  add_visible-add_new :
      (r : SymRef) (s : Symbol)
      → get_symbol st.syms r.at ≡ ok s
      → (depth == 0) ≡ false
      → (linkage_code linkage == 2) ≡ false
      → add_visible f id name ty symtype linkage depth r st
        ≡ add_new id name ty symtype linkage depth st
  add_visible-add_new r s there inner local = rw (there, inner, local) refl

sym_add-cases :
    (f : ℕ) (id : NamespaceId) (name : Text) (ty : CType) (symtype : SymType) (linkage : Linkage)
    (st : Symtab) (depth : ℕ) (found : Option SymRef)
    → is_ordinary symtype ≡ true
    → sym_lookup (namespace id st) name ≡ ok found
    → current_scope_depth (namespace id st) ≡ ok depth
    → sym_add f id name ty symtype linkage st ≡ elim found [
      | none ↦ add_missing f id name ty symtype linkage depth st
      | some r ↦ add_visible f id name ty symtype linkage depth r st
    ]
unfolding sym_add
sym_add-cases f id name ty symtype linkage st depth found ordinary seen current =
    let no_label : (symtype_code symtype == 6) ≡ false = ground arith in
    let no_tag : is_tag_type symtype ≡ false = ground arith in
    rw (no_label, no_tag, seen, current) refl

-- In the namespace of a call of `sym_add`, in a scope that is not the outermost one, with an ordinary
-- kind of symbol, a type that is no function type, a linkage that is not external, and a name for which
-- the visible symbol, if there is one, exists: the call succeeds, all other names mean what they meant,
-- and the name means the new symbol if the current scope did not have it. If it did, the name still
-- means the earlier symbol, and nothing is reported.
pub sym_add-resolve :
    (f : ℕ) (id : NamespaceId) (name : Text) (ty : CType) (symtype : SymType) (linkage : Linkage)
    (st : Symtab) (e d : Env) (envs : List Env)
    → is_ordinary symtype ≡ true
    → is_function ty ≡ false
    → (linkage_code linkage == 2) ≡ false
    → Models (namespace id st) (e ∷ d ∷ envs)
    → ((r : SymRef)
        → resolve (e ∷ d ∷ envs) name ≡ some r
        → (s : Symbol) × (get_symbol st.syms r.at ≡ ok s))
    → (i : ℕ) × (st' : Symtab) × (sym_add f id name ty symtype linkage st ≡ ok (i, st'))
      × ((q : Text)
          → sym_lookup (namespace id st') q
            ≡ ok (
                if text_eq name q
                then some (or_else (e name) (record { name = name; at = i }))
                else resolve (e ∷ d ∷ envs) q))
sym_add-resolve f id name ty symtype linkage st e d envs ordinary object local m known =
    let ns = namespace id st in
    let (depth, inner, current) = inner-depth ns e d envs m in
    let seen = sym_lookup-resolve ns (e ∷ d ∷ envs) name m in
    let no_typedef : is_typedef_type symtype ≡ false = ground arith in
    let reached : sym_add f id name ty symtype linkage st
        ≡ add_new id name ty symtype linkage depth st =
      elim (Option-cases (resolve (e ∷ d ∷ envs) name)) [
        | inl missing ↦
            sym_add-cases f id name ty symtype linkage st depth none ordinary (seen ∙ ap ok missing)
              current
            ∙ add_missing-add_new f id name ty symtype linkage depth st no_typedef object
        | inr (r, there) ↦
            let (s, at) = known r there in
            sym_add-cases f id name ty symtype linkage st depth (some r) ordinary
              (seen ∙ ap ok there) current
            ∙ add_visible-add_new f id name ty symtype linkage depth st r s at inner local
      ] in
    let a = add_new-Added id name ty symtype linkage depth st e (d ∷ envs) ordinary object m in
    (
      a.i,
      a.after,
      reached ∙ a.added,
      λ q.
          sym_lookup-resolve (namespace id a.after) _ q a.models
          ∙ ap ok (bind-resolve (record { name = name; at = a.i }) e (d ∷ envs) q),
    )
