-- ===== src/Tests/Names.antt =====
-- A scope that holds `a`, inside one that holds nothing.
use lacc.Base.{
  ℕ, zero, suc, true, false, none, some, List, [], ◌∷◌, if◌then◌else◌, get_elem?, get_or, Text,
  text_eq, ok, ◌≡◌, refl, arith, ◌==◌,
}
use mathlib.Core.Path.{subst}
use mathlib.Core.Option.{some-injective}
use lacc.Types.Defs.{int, basic}
use lacc.Ir.{
  definition, tentative, declaration, link_none, link_intern, link_extern, Symbol, get_symbol,
}
use lacc.Hash.Table.{djb2_hash}
use lacc.Hash.Chain.{IsUnique}
use lacc.Symtab.Scopes.{
  SymRef, sym_hash_key, scope_initialized, Scope, empty_scope, Namespace, visible, sym_lookup,
}
use lacc.Symtab.Scopes.Stack.{or_else, bind, resolve, nothing, IsSound, Models}
use lacc.Symtab.Scopes.Refine.{push, pop, show, Call, run_calls, no_scopes, run_calls-resolve}
use lacc.Symtab.Declare.{sym_redeclare, linkage_code}
use lacc.Symtab.Add.{ns_ident, Symtab, namespace, sym_add}
use lacc.Symtab.Add.Names.{sym_add-resolve}
use lacc.Symtab.Declare.Redeclare.{lower, may_follow, sym_redeclare-lower}

abbrev ref_a : ℕ → SymRef
ref_a i = record { name = b'a' ∷ []; at = i }

-- `a` outside, another `a` inside a scope that ends, and a scope that takes its place.
abbrev nested : List Call
nested = push ∷ show (ref_a 0) ∷ push ∷ show (ref_a 1) ∷ pop ∷ push ∷ []

run_calls-resolve_example :
    (ns : Namespace) × (run_calls nested no_scopes ≡ ok ns)
    × ((name : Text)
        → sym_lookup ns name ≡ ok (resolve (nothing ∷ bind (ref_a 0) nothing ∷ []) name))
run_calls-resolve_example = run_calls-resolve nested (nothing ∷ bind (ref_a 0) nothing ∷ []) refl

abbrev holds_a : Scope
holds_a = record {
  table = record {
    capacity = 1;
    slots = (record { datum = ref_a 0; hash = djb2_hash (b'a' ∷ []) } ∷ []) ∷ [];
    spare = 0;
  };
  state = scope_initialized;
}

abbrev two_scopes : Namespace
two_scopes = record { symbol = 0 ∷ []; scope = empty_scope ∷ holds_a ∷ []; len = 2; cursor = 0 }

abbrev empty_namespace : Namespace
empty_namespace = record { symbol = []; scope = []; len = 0; cursor = 0 }

abbrev local_a : Symbol
local_a = record {
  name = b'a' ∷ [];
  type = basic int false;
  symtype = definition;
  linkage = link_none;
  referenced = false;
  n = 0;
  depth = 1;
  index = 0;
}

abbrev small_symtab : Symtab
small_symtab = record {
  syms = local_a ∷ [];
  temporaries = [];
  ident = two_scopes;
  labels = empty_namespace;
  tags = empty_namespace;
  functions = none;
  decl_memcpy = none;
  n = 0;
  types = [];
}

holds_a-IsUnique : (i : ℕ) → IsUnique sym_hash_key (get_or holds_a.table.slots i [])
unfolding lacc.Hash.Table.find
holds_a-IsUnique zero = (refl, tt)
holds_a-IsUnique (suc i) = tt

two_scopes-IsSound : (j : ℕ) (s : Scope) → get_elem? two_scopes.scope j ≡ some s → IsSound s
two_scopes-IsSound zero s h = subst IsSound (some-injective _ _ h) tt
two_scopes-IsSound (suc zero) s h =
    let valid : IsSound holds_a = record {
      pos = omega arith;
      sized = refl;
      unique = holds_a-IsUnique;
    } in
    subst IsSound (some-injective _ _ h) valid
two_scopes-IsSound (suc (suc j)) s h = cc

two_scopes-Models : Models two_scopes (visible holds_a ∷ nothing ∷ [])
two_scopes-Models = record {
  sound = two_scopes-IsSound;
  bounded = omega arith;
  shows = ((holds_a, refl, λ name. refl), ((empty_scope, refl, λ name. refl), tt));
}

a-there :
    (r : SymRef)
    → resolve (visible holds_a ∷ nothing ∷ []) (b'a' ∷ []) ≡ some r
    → (s : Symbol) × (get_symbol small_symtab.syms r.at ≡ ok s)
unfolding lacc.Hash.Table.find lacc.Hash.Table.djb2_hash lacc.Hash.Table.hash_lookup
a-there r h = let e : ref_a 0 ≡ r = some-injective _ _ h in (local_a, rw (← e) refl)

sym_add-resolve_example :
    (i : ℕ) × (st' : Symtab) × (sym_add 5 ns_ident
        (b'a' ∷ [])
        (basic int true)
        definition
        link_none
        small_symtab
      ≡ ok (i, st'))
    × ((q : Text)
        → sym_lookup (namespace ns_ident st') q
          ≡ ok (
              if text_eq (b'a' ∷ []) q
              then some (or_else (visible holds_a (b'a' ∷ [])) (ref_a i))
              else resolve (visible holds_a ∷ nothing ∷ []) q))
sym_add-resolve_example =
    sym_add-resolve 5 ns_ident (b'a' ∷ []) (basic int true) definition link_none small_symtab
      (visible holds_a) nothing [] refl refl refl two_scopes-Models a-there

-- `extern int a;` after `static int a;`.
abbrev static_a : Symbol
static_a = record local_a { symtype = tentative; linkage = link_intern; depth = 0 }

static_a-redeclared :
    sym_redeclare 5 [] static_a 0 (basic int false) declaration link_extern ≡ ok (static_a, [])
unfolding sym_redeclare lacc.Types.Equal.type_equal
static_a-redeclared = refl

sym_redeclare-lower_example :
    (1 ≡ lower 1 2)
    × (may_follow link_intern link_extern declaration ≡ true)
    × (link_intern ≡ (if linkage_code link_extern == 1 then link_intern else link_intern))
    × (static_a.name ≡ static_a.name)
    × (static_a.depth ≡ static_a.depth)
sym_redeclare-lower_example =
    sym_redeclare-lower 5 [] static_a 0 (basic int false) declaration link_extern static_a []
      (omega arith) (omega arith) static_a-redeclared
