-- ===== src/Symtab/Scopes/Refine.antt =====
-- The operations on scopes of src/parser/symtab.c, against a stack of maps.
use mathlib.Core.Path.{subst}
use mathlib.Core.Option.{some-injective}
use lacc.Base.{
  ℕ, zero, suc, ◌-◌, ◌≤◌, true, false, Option, none, some, List, [], ◌∷◌, ltb, ◌==◌, get_elem?, set,
  length, length-set, get_elem?-set_self, get_elem?-append_end, get_elem?-lt, Text, Run, ok, ◌>>=◌,
  ◌≡◌, refl, sym, ◌∙◌, arith, inl, inr, ◌⊎◌,
}
use lacc.Hash.Table.{HashTable, hash_lookup, hash_insert}
use lacc.Hash.Slots.{IsValid}
use lacc.Hash.Map.{hash_insert-lookup}
use lacc.Symtab.Scopes.{
  SymRef, sym_hash_key, ScopeState, scope_created, scope_dirty, scope_initialized, Scope, Namespace,
  push_scope, pop_scope, ready, same_ref, soil, in_state, empty_scope, visible, sym_lookup,
  sym_make_visible,
}
use lacc.Symtab.Scopes.Stack.{
  Env, nothing, bind, resolve, StateSound, Shows, Models, Shows-set, Shows-append,
  sym_lookup-resolve, IsSound-set, IsSound-append, length-append_one,
}
use lacc.Symtab.Scopes.Tables.{fresh, ready-Readied, inserted-bind}

-- A scope that is pushed is sound and shows nothing.
soiled_sound :
    (state : ScopeState) (table : HashTable SymRef)
    → StateSound state table
    → StateSound (soil state) table
soiled_sound scope_created table h = h
soiled_sound scope_dirty table h = h
soiled_sound scope_initialized table h = h

soiled-nothing : (state : ScopeState) (o : Option SymRef) → in_state (soil state) o ≡ none
soiled-nothing scope_created o = refl
soiled-nothing scope_dirty o = refl
soiled-nothing scope_initialized o = refl

get_elem?-none : (scopes : List Scope) (i : ℕ) → get_elem? scopes i ≡ none → length scopes ≤ i
get_elem?-none [] i h = omega arith
get_elem?-none (d ∷ scopes) zero h = cc
get_elem?-none (d ∷ scopes) (suc i) h = omega (arith, get_elem?-none scopes i h)

push_scope-Models :
    (ns : Namespace) (envs : List Env) → Models ns envs → Models (push_scope ns) (nothing ∷ envs)
unfolding push_scope
push_scope-Models ns envs m = elim (reused (get_elem? ns.scope ns.len)) [
  | inl fresh ↦
      let full : length ns.scope ≤ ns.len = get_elem?-none ns.scope ns.len fresh in
      let at_end : ns.len ≡ length ns.scope = omega (arith, full, m.bounded) in
      rw (push_scope, fresh)
        (record {
          sound = IsSound-append ns.scope empty_scope tt m.sound;
          bounded = rw (length-append_one ns.scope empty_scope) (omega (arith, at_end));
          shows = (
            (empty_scope, rw at_end (get_elem?-append_end ns.scope empty_scope), λ name. refl),
            Shows-append ns.scope ns.len empty_scope envs m.shows,
          );
        })
  | inr (s, there) ↦
      let s' = record s { state = soil s.state } in
      let inside = get_elem?-lt ns.scope ns.len there in
      rw (push_scope, there)
        (record {
          sound =
              IsSound-set ns.scope ns.len s' (soiled_sound s.state s.table (m.sound ns.len s there))
                m.sound;
          bounded = rw (length-set ns.scope ns.len s') (omega (arith, inside));
          shows = (
            (
              s',
              get_elem?-set_self ns.scope ns.len s' inside,
              λ name. soiled-nothing s.state (hash_lookup sym_hash_key s.table name),
            ),
            Shows-set ns.scope ns.len ns.len s' envs (omega arith) m.shows,
          );
        })
]
  where
    reused : (o : Option Scope) → (o ≡ none) ⊎ ((s : Scope) × (o ≡ some s))
    reused none = inl refl
    reused (some s) = inr (s, refl)

-- The last scope shows the first map.
record Top (scopes : List Scope) (len : ℕ) (e : Env) (es : List Env) : Type 0 where
  i : ℕ
  len_eq : len ≡ suc i
  s : Scope
  there : get_elem? scopes i ≡ some s
  agrees : (name : Text) → visible s name ≡ e name
  below : Shows scopes i es

Shows-Top :
    (scopes : List Scope) (len : ℕ) (e : Env) (es : List Env)
    → Shows scopes len (e ∷ es)
    → Top scopes len e es
Shows-Top scopes zero e es shows = elim shows [ ]
Shows-Top scopes (suc i) e es ((s, there, agrees), below) = record {
  i = i;
  len_eq = refl;
  s = s;
  there = there;
  agrees = agrees;
  below = below;
}

-- The scope with one more symbol in its table, where `table` is what it inserts into.
make_visible-filled :
    (ns : Namespace) (e : Env) (envs : List Env) (r : SymRef) (i : ℕ) (s : Scope)
    (table : HashTable SymRef)
    → Models ns (e ∷ envs)
    → ns.len ≡ suc i
    → get_elem? ns.scope i ≡ some s
    → Shows ns.scope i envs
    → ready s.state ns.len s.table ≡ ok table
    → IsValid sym_hash_key table
    → ((name : Text) → hash_lookup sym_hash_key table name ≡ e name)
    → (ns' : Namespace) × (sym_make_visible ns r ≡ ok ns') × Models ns' (bind r e ∷ envs)
unfolding sym_make_visible
make_visible-filled ns e envs r i s table m len_eq there below run valid agrees =
    let some_scope : ltb 0 ns.len ≡ true = rw len_eq (ground arith) in
    let last : ns.len - 1 ≡ i = omega (arith, len_eq) in
    let filled : Scope = record {
      table = (hash_insert sym_hash_key same_ref table r).1;
      state = scope_initialized;
    } in
    let valid' = (hash_insert-lookup valid same_ref r refl []).1.1 in
    let inside = get_elem?-lt ns.scope i there in
    let shows : Shows (set ns.scope i filled) (suc i) (bind r e ∷ envs) = (
      (filled, get_elem?-set_self ns.scope i filled inside, inserted-bind table e r valid agrees),
      Shows-set ns.scope i i filled envs (omega arith) below,
    ) in
    (
      record ns { scope = set ns.scope i filled },
      rw (some_scope, last, there, run) refl,
      record {
        sound = IsSound-set ns.scope i filled valid' m.sound;
        bounded = rw (length-set ns.scope i filled) m.bounded;
        shows = subst (λ n. Shows (set ns.scope i filled) n (bind r e ∷ envs)) (sym len_eq) shows;
      },
    )

pub sym_make_visible-Models :
    (ns : Namespace) (e : Env) (envs : List Env) (r : SymRef)
    → Models ns (e ∷ envs)
    → (ns' : Namespace) × (sym_make_visible ns r ≡ ok ns') × Models ns' (bind r e ∷ envs)
sym_make_visible-Models ns e envs r m =
    let top = Shows-Top ns.scope ns.len e envs m.shows in
    let table =
      ready-Readied top.s.state ns.len top.s.table (omega (arith, top.len_eq))
        (m.sound top.i top.s top.there) in
    make_visible-filled ns e envs r top.i top.s table.result m top.len_eq top.there top.below
      table.run table.valid (λ name. table.agrees name ∙ top.agrees name)

-- The maps of a stack after its first one goes; the last one leaves none.
pop_scope-Models :
    (ns : Namespace) (e : Env) (envs : List Env)
    → Models ns (e ∷ envs)
    → (ns' : Namespace) × (pop_scope ns ≡ ok ns') × Models ns' envs
unfolding pop_scope
pop_scope-Models ns e [] m =
    let top = Shows-Top ns.scope ns.len e [] m.shows in
    let single = below-none ns.scope top.i top.below in
    let some_scope : ltb 0 ns.len ≡ true = rw top.len_eq (ground arith) in
    let last : (ns.len == 1) ≡ true = rw (top.len_eq, single) refl in
    (
      record ns { symbol = []; scope = []; len = 0 },
      rw (some_scope, last) refl,
      record { sound = λ j s h. absurd (cc h); bounded = omega arith; shows = tt },
    )
  where
    below-none : (scopes : List Scope) (i : ℕ) → Shows scopes i [] → i ≡ 0
    below-none scopes zero h = refl
    below-none scopes (suc i) h = elim h [ ]
pop_scope-Models ns e (d ∷ envs) m =
    let top = Shows-Top ns.scope ns.len e (d ∷ envs) m.shows in
    let next = Shows-Top ns.scope top.i d envs top.below in
    let some_scope : ltb 0 ns.len ≡ true = rw top.len_eq (ground arith) in
    let more : (ns.len == 1) ≡ false = rw (top.len_eq, next.len_eq) (ground arith) in
    let last : ns.len - 1 ≡ top.i = omega (arith, top.len_eq) in
    (
      record ns { len = ns.len - 1 },
      rw (some_scope, more) refl,
      record { sound = m.sound; bounded = omega (arith, m.bounded); shows = rw last top.below },
    )

-- The calls that act on the scopes of a namespace, in the code and on a stack of maps.
pub data Call : Type 0 where
  push pop : Call
  show : SymRef → Call

abbrev pub run_call : Call → Namespace → Run Namespace
run_call push ns = ok (push_scope ns)
run_call pop ns = pop_scope ns
run_call (show r) ns = sym_make_visible ns r

abbrev pub run_calls : List Call → Namespace → Run Namespace
run_calls [] ns = ok ns
run_calls (c ∷ cs) ns = do ns' ← run_call c ns; run_calls cs ns'

abbrev pub spec_call : Call → List Env → Option (List Env)
spec_call push envs = some (nothing ∷ envs)
spec_call pop [] = none
spec_call pop (e ∷ envs) = some envs
spec_call (show r) [] = none
spec_call (show r) (e ∷ envs) = some (bind r e ∷ envs)

abbrev pub spec_calls : List Call → List Env → Option (List Env)
spec_calls [] envs = some envs
spec_calls (c ∷ cs) envs = elim (spec_call c envs) [
  | none ↦ none
  | some envs' ↦ spec_calls cs envs'
]

run_call-Models :
    (c : Call) (ns : Namespace) (envs envs' : List Env)
    → Models ns envs
    → spec_call c envs ≡ some envs'
    → (ns' : Namespace) × (run_call c ns ≡ ok ns') × Models ns' envs'
run_call-Models push ns envs envs' m h = (
  push_scope ns,
  refl,
  subst (Models (push_scope ns)) (some-injective _ _ h) (push_scope-Models ns envs m),
)
run_call-Models pop ns [] envs' m h = cc
run_call-Models pop ns (e ∷ envs) envs' m h =
    let (ns', run, m') = pop_scope-Models ns e envs m in
    (ns', run, subst (Models ns') (some-injective _ _ h) m')
run_call-Models (show r) ns [] envs' m h = cc
run_call-Models (show r) ns (e ∷ envs) envs' m h =
    let (ns', run, m') = sym_make_visible-Models ns e envs r m in
    (ns', run, subst (Models ns') (some-injective _ _ h) m')

run_calls-Models :
    (cs : List Call) (ns : Namespace) (envs envs' : List Env)
    → Models ns envs
    → spec_calls cs envs ≡ some envs'
    → (ns' : Namespace) × (run_calls cs ns ≡ ok ns') × Models ns' envs'
run_calls-Models [] ns envs envs' m h = (ns, refl, subst (Models ns) (some-injective _ _ h) m)
run_calls-Models (c ∷ cs) ns envs envs' m h = elim (decided (spec_call c envs)) [
  | inl stuck ↦ absurd (cc (rw (spec_calls, stuck) at h))
  | inr (mid, step) ↦
      let (ns₁, run, m₁) = run_call-Models c ns envs mid m step in
      let (ns', runs, m') = run_calls-Models cs ns₁ mid envs' m₁ (rw (spec_calls, step) at h) in
      (ns', rw run runs, m')
]
  where
    decided : (o : Option (List Env)) → (o ≡ none) ⊎ ((mid : List Env) × (o ≡ some mid))
    decided none = inl refl
    decided (some mid) = inr (mid, refl)

abbrev pub no_scopes : Namespace
no_scopes = record { symbol = []; scope = []; len = 0; cursor = 0 }

-- From a namespace with no scopes, each sequence of calls of `push_scope`, `pop_scope` and
-- `sym_make_visible` in which only a scope that was pushed is popped or filled succeeds, and then
-- `sym_lookup` finds what a stack of maps gives for the sequence, where `push_scope` adds a map with no
-- names, `pop_scope` drops the last map, `sym_make_visible` adds a name to it that it does not hold yet,
-- and the map pushed last that has the name answers: nothing of a popped scope comes back when its
-- table is used again.
pub run_calls-resolve :
    (cs : List Call) (envs : List Env)
    → spec_calls cs [] ≡ some envs
    → (ns : Namespace) × (run_calls cs no_scopes ≡ ok ns)
      × ((name : Text) → sym_lookup ns name ≡ ok (resolve envs name))
run_calls-resolve cs envs h =
    let start : Models no_scopes [] = record {
      sound = λ j s there. absurd (cc there);
      bounded = omega arith;
      shows = tt;
    } in
    let (ns, run, m) = run_calls-Models cs no_scopes [] envs start h in
    (ns, run, λ name. sym_lookup-resolve ns envs name m)
