-- ===== src/Types/Build/Create/Pointer.antt =====
-- A pointer type leads back to the type that it points to.
use lacc.Base.{
  suc, ◌<◌, true, false, some, [], ◌∷◌, ◌++◌, length, get_elem?, set, length-append,
  get_elem?-set_self, get_elem?-append_end, ok, Returns, ◌≡◌, arith, Bool-cases, inl, inr,
}
use lacc.Types.Defs.{
  CType, Typetree, Types, pointer, blank, basic, type_create, put_typetree, get_typetree_handle,
  get_type_handle, remove_qualifiers,
}
use lacc.Types.Query.{type_deref}
use lacc.Types.Build.Create.{type_create_pointer}

-- A value that is no pointer has no qualifiers of a pointer.
abbrev pub IsClean : CType → Type 0
IsClean t =
    t.is_pointer_to ≡ false
    → (t.pointer_const ≡ false) × (t.pointer_volatile ≡ false) × (t.pointer_restrict ≡ false)

get_elem?-grow :
    (ts : Types) (a b : Typetree)
    → get_elem? (set (ts ++ a ∷ []) (length ts) b) (length ts) ≡ some b
get_elem?-grow ts a b =
    get_elem?-set_self (ts ++ a ∷ []) (length ts) b (omega (arith, length-append {0} ts (a ∷ [])))

-- The tree of a pointer to the pointer `t`, and the value that refers to it.
abbrev pointer_tree : CType → Typetree
pointer_tree t =
    let fresh = blank pointer in
    record fresh {
      const = t.pointer_const;
      volatile = t.pointer_volatile;
      next = record t {
        is_pointer_to = false;
        pointer_const = false;
        pointer_volatile = false;
        pointer_restrict = false;
      };
    }

abbrev pointer_value : Types → CType
pointer_value ts = let plain = basic pointer false in record plain { ref = suc (length ts) }

-- Where the list has room, a pointer to `t` is created, and its target is `t` again, but for a
-- `restrict` of `t` as a pointer, which is lost. The type `t` must have none of the qualifiers of
-- a pointer unless it is one.
pub type_deref-type_create_pointer :
    (t : CType) (ts : Types)
    → length ts < 32767
    → IsClean t
    → Returns
        (type_create_pointer t ts)
        λ r. type_deref r.1 r.0 ≡ ok (record t { pointer_restrict = false })
unfolding type_create_pointer type_create get_typetree_handle put_typetree type_deref
    get_type_handle remove_qualifiers
type_deref-type_create_pointer t ts room clean = elim (Bool-cases t.is_pointer_to) [
  | inl nested ↦ (
    (pointer_value ts, set (ts ++ blank pointer ∷ []) (length ts) (pointer_tree t)),
    ground (arith, get_elem?-append_end ts (blank pointer)),
    ground (arith, get_elem?-grow ts (blank pointer) (pointer_tree t)),
  )
  | inr plain ↦ ((record t { is_pointer_to = true }, ts), ground arith, ground arith)
]
