-- ===== src/Symtab/Scopes/Stack.antt =====
-- A stack of maps from names to symbols, and the scopes of src/parser/symtab.c that show it.
use mathlib.Core.Path.{subst}
use mathlib.Core.Option.{some-injective}
use lacc.Base.{
  ℕ, zero, suc, ◌≤◌, Option, none, some, List, [], ◌∷◌, ◌++◌, if◌then◌else◌, get_elem?, set, length,
  get_elem?-set_ne, Text, text_eq, Run, ok, ◌≡◌, refl, ◌∙◌, ap, arith,
}
use lacc.Hash.Table.{HashTable}
use lacc.Hash.Slots.{IsValid}
use lacc.Symtab.Scopes.{
  SymRef, sym_hash_key, ScopeState, scope_created, Scope, Namespace, visible, lookup_from,
  sym_lookup,
}

-- A map, and the map with one more symbol, which does not replace an earlier one of its name.
abbrev pub Env : Type 0
Env = Text → Option SymRef

abbrev pub nothing : Env
nothing name = none

abbrev pub or_else : Option SymRef → SymRef → SymRef
or_else none r = r
or_else (some old) r = old

abbrev pub bind : SymRef → Env → Env
bind r e name = if text_eq r.name name then some (or_else (e r.name) r) else e name

-- The innermost map that has the name.
abbrev pub resolve : List Env → Text → Option SymRef
resolve [] name = none
resolve (e ∷ es) name =
    let outer = resolve es name in elim (e name) [ some r ↦ some r | none ↦ outer ]

-- A table that was set is valid.
abbrev pub StateSound : ScopeState → HashTable SymRef → Type 0
StateSound scope_created table = Unit
StateSound _ table = IsValid sym_hash_key table

abbrev pub IsSound : Scope → Type 0
IsSound s = StateSound s.state s.table

abbrev pub ShowsAt : List Scope → ℕ → Env → Type 0
ShowsAt scopes i e =
    (s : Scope) × (get_elem? scopes i ≡ some s) × ((name : Text) → visible s name ≡ e name)

-- The scopes below a number show the maps of a stack.
abbrev pub Shows : List Scope → ℕ → List Env → Type 0
Shows scopes zero [] = Unit
Shows scopes zero (e ∷ es) = ⊥
Shows scopes (suc i) [] = ⊥
Shows scopes (suc i) (e ∷ es) = ShowsAt scopes i e × Shows scopes i es

pub record Models (ns : Namespace) (envs : List Env) : Type 0 where
  pub sound : (j : ℕ) (s : Scope) → get_elem? ns.scope j ≡ some s → IsSound s
  pub bounded : ns.len ≤ length ns.scope
  pub shows : Shows ns.scope ns.len envs

pub lookup_from-step :
    (scopes : List Scope) (i : ℕ) (s : Scope) (name : Text)
    → get_elem? scopes i ≡ some s
    → lookup_from scopes (suc i) name
      ≡ elim (visible s name) [ some r ↦ ok (some r) | none ↦ lookup_from scopes i name ]
unfolding lookup_from
lookup_from-step scopes i s name there = rw there refl

pub lookup_from-resolve :
    (scopes : List Scope) (i : ℕ) (envs : List Env) (name : Text)
    → Shows scopes i envs
    → lookup_from scopes i name ≡ ok (resolve envs name)
unfolding lookup_from
lookup_from-resolve scopes zero [] name shows = refl
lookup_from-resolve scopes zero (e ∷ es) name shows = elim shows [ ]
lookup_from-resolve scopes (suc i) [] name shows = elim shows [ ]
lookup_from-resolve scopes (suc i) (e ∷ es) name ((s, there, agrees), below) =
    lookup_from-step scopes i s name there
    ∙ rw (agrees name) (branch (e name) (lookup_from-resolve scopes i es name below))
  where
    branch :
        (o : Option SymRef) {inner : Run (Option SymRef)} {outer : Option SymRef}
        → inner ≡ ok outer
        → elim o [ some r ↦ ok (some r) | none ↦ inner ]
          ≡ ok (elim o [ some r ↦ some r | none ↦ outer ])
    branch (some r) h = refl
    branch none h = h

-- Writing above the scopes of a stack.
pub Shows-set :
    (scopes : List Scope) (i k : ℕ) (s : Scope) (envs : List Env)
    → k ≤ i
    → Shows scopes k envs
    → Shows (set scopes i s) k envs
Shows-set scopes i zero s [] le shows = tt
Shows-set scopes i zero s (e ∷ es) le shows = elim shows [ ]
Shows-set scopes i (suc k) s [] le shows = elim shows [ ]
Shows-set scopes i (suc k) s (e ∷ es) le ((c, there, agrees), below) = (
  (c, get_elem?-set_ne scopes s (λ same. omega (arith, same, le)) ∙ there, agrees),
  Shows-set scopes i k s es (omega arith) below,
)

pub get_elem?-append :
    (scopes : List Scope) (k : ℕ) (s : Scope) {c : Scope}
    → get_elem? scopes k ≡ some c
    → get_elem? (scopes ++ s ∷ []) k ≡ some c
get_elem?-append [] k s h = cc
get_elem?-append (d ∷ scopes) zero s h = h
get_elem?-append (d ∷ scopes) (suc k) s h = get_elem?-append scopes k s h

pub Shows-append :
    (scopes : List Scope) (k : ℕ) (s : Scope) (envs : List Env)
    → Shows scopes k envs
    → Shows (scopes ++ s ∷ []) k envs
Shows-append scopes zero s [] shows = tt
Shows-append scopes zero s (e ∷ es) shows = elim shows [ ]
Shows-append scopes (suc k) s [] shows = elim shows [ ]
Shows-append scopes (suc k) s (e ∷ es) ((c, there, agrees), below) =
    ((c, get_elem?-append scopes k s there, agrees), Shows-append scopes k s es below)

pub sym_lookup-resolve :
    (ns : Namespace) (envs : List Env) (name : Text)
    → Models ns envs
    → sym_lookup ns name ≡ ok (resolve envs name)
unfolding sym_lookup
sym_lookup-resolve ns envs name m = lookup_from-resolve ns.scope ns.len envs name m.shows

-- Every scope that is read is an old one or the new one.
pub IsSound-set :
    (scopes : List Scope) (i : ℕ) (s : Scope)
    → IsSound s
    → ((j : ℕ) (c : Scope) → get_elem? scopes j ≡ some c → IsSound c)
    → (j : ℕ) (c : Scope) → get_elem? (set scopes i s) j ≡ some c
    → IsSound c
IsSound-set [] i s new old j c h = old j c h
IsSound-set (d ∷ scopes) zero s new old zero c h = subst IsSound (some-injective _ _ h) new
IsSound-set (d ∷ scopes) zero s new old (suc j) c h = old (suc j) c h
IsSound-set (d ∷ scopes) (suc i) s new old zero c h = old zero c h
IsSound-set (d ∷ scopes) (suc i) s new old (suc j) c h =
    IsSound-set scopes i s new (λ k. old (suc k)) j c h

pub IsSound-append :
    (scopes : List Scope) (s : Scope)
    → IsSound s
    → ((j : ℕ) (c : Scope) → get_elem? scopes j ≡ some c → IsSound c)
    → (j : ℕ) (c : Scope) → get_elem? (scopes ++ s ∷ []) j ≡ some c
    → IsSound c
IsSound-append [] s new old zero c h = subst IsSound (some-injective _ _ h) new
IsSound-append [] s new old (suc j) c h = cc
IsSound-append (d ∷ scopes) s new old zero c h = old zero c h
IsSound-append (d ∷ scopes) s new old (suc j) c h =
    IsSound-append scopes s new (λ k. old (suc k)) j c h

pub length-append_one :
    (scopes : List Scope) (s : Scope) → length (scopes ++ s ∷ []) ≡ suc (length scopes)
length-append_one [] s = refl
length-append_one (d ∷ scopes) s = ap suc (length-append_one scopes s)
