-- ===== src/Types/Build/Create.antt =====
-- Constructors of types, their qualifiers, and the completion of a declarator.
pub mod Pointer
pub mod Order
use lacc.Base.{
  ℕ, zero, suc, ◌+◌, ◌-◌, ◌*◌, ◌^◌, Bool, true, false, not, ◌&&◌, ◌||◌, Option, none, some, ltb,
  leb, ◌==◌, if◌then◌else◌, Run, err, ok, assertion, diagnostic, exhausted, ◌>>=◌, ◌>>◌, guard,
  length, u64,
}
use lacc.Types.Defs.{
  TypeKind, void, pointer, function, array, struct, union, CType, type_of, is_pointer, is_function,
  is_array, is_void, is_const, is_volatile, is_restrict, Member, Typetree, Types,
  get_typetree_handle, put_typetree, type_create, remove_qualifiers,
}
use lacc.Types.Query.{size_of, type_next, nmembers, get_member}

unfoldable pub type_create_pointer : CType → Types → Run (CType × Types)
type_create_pointer next ts =
    if next.is_pointer_to
    then (do
      (ty, ts') ← type_create pointer ts
      t ← get_typetree_handle ts' ty.ref
      let bare = remove_qualifiers next
      let tree = record t {
        const = is_const next;
        volatile = is_volatile next;
        next = record bare { is_pointer_to = false };
      }
      ok (ty, put_typetree ts' ty.ref tree))
    else ok (record next { is_pointer_to = true }, ts)

unfoldable pub type_create_function : CType → Types → Run (CType × Types)
type_create_function next ts = do
  (ty, ts') ← type_create function ts
  t ← get_typetree_handle ts' ty.ref
  ok (ty, put_typetree ts' ty.ref (record t { next = next; incomplete = true }))

abbrev pub long_max : ℕ
long_max = 2 ^ 63 - 1

-- The product of the two `size_t` wraps.
unfoldable pub type_create_array : CType → ℕ → Types → Run (CType × Types)
type_create_array next count ts = do
  n ← size_of ts next
  guard (not (ltb long_max (u64 (count * n)))) diagnostic
  (ty, ts') ← type_create array ts
  t ← get_typetree_handle ts' ty.ref
  ok (ty, put_typetree ts' ty.ref (record t { size = count; next = next }))

unfoldable pub type_create_incomplete : CType → Types → Run (CType × Types)
type_create_incomplete next ts = do
  (ty, ts') ← type_create array ts
  t ← get_typetree_handle ts' ty.ref
  ok (ty, put_typetree ts' ty.ref (record t { next = next; incomplete = true }))

unfoldable pub type_create_vla : CType → ℕ → Types → Run (CType × Types)
unfolding type_create_array
type_create_vla next count ts = do
  (ty, ts') ← type_create_array next 0 ts
  t ← get_typetree_handle ts' ty.ref
  ok (ty, put_typetree ts' ty.ref (record t { vlen = some count; vla = true }))

unfoldable pub type_set_const : CType → CType
type_set_const ty =
    if ty.is_pointer_to then record ty { pointer_const = true } else record ty { const = true }

unfoldable pub type_set_volatile : CType → CType
type_set_volatile ty =
    if ty.is_pointer_to
    then record ty { pointer_volatile = true }
    else record ty { volatile = true }

unfoldable pub type_set_restrict : CType → Run CType
type_set_restrict ty = do
  guard (is_pointer ty) diagnostic
  ok (
      if ty.is_pointer_to
      then record ty { pointer_restrict = true }
      else record ty { restrict = true })

unfoldable pub type_apply_qualifiers : CType → CType → Run CType
unfolding type_set_const type_set_volatile type_set_restrict
type_apply_qualifiers ty other =
    let c = if is_const other then type_set_const ty else ty in
    let v = if is_volatile other then type_set_volatile c else c in
    if is_restrict other then type_set_restrict v else ok v

-- One level of `type_patch_declarator`; the inner level is `rec`. The source keeps the address of
-- the tree across the inner call; the model writes to the list as it is after the call.
patch_step :
    (CType → CType → Types → Run (CType × Types)) → CType → CType → Types → Run (CType × Types)
patch_step rec head target ts =
    if is_void head
    then ok (target, ts)
    else if is_pointer head
    then (do
      inner ← type_next ts head
      (inner', ts₁) ← rec inner target ts
      (ty, ts₂) ← type_create_pointer inner' ts₁
      qualified ← type_apply_qualifiers ty head
      ok (qualified, ts₂))
    else (do
      guard (is_function head || is_array head) assertion
      t ← get_typetree_handle ts head.ref
      (inner, ts₁) ← rec t.next target ts
      t₁ ← get_typetree_handle ts₁ head.ref
      ok (head, put_typetree ts₁ head.ref (record t₁ { next = inner })))

unfoldable pub type_patch_declarator : ℕ → CType → CType → Types → Run (CType × Types)
unfolding patch_step
type_patch_declarator zero head target ts = err exhausted
type_patch_declarator (suc f) head target ts = patch_step (type_patch_declarator f) head target ts

-- The loop over the parameters or members from index `i`, `n` of them left.
clean_members : (CType → Types → Run Types) → CType → ℕ → ℕ → Types → Run Types
clean_members rec ty i zero ts = ok ts
clean_members rec ty i (suc n) ts = do
  t ← get_typetree_handle ts ty.ref
  m ← get_member ts ty i
  let cleared = lacc.Base.set t.members i (record m { sym = none })
  ts₁ ← rec m.type (put_typetree ts ty.ref (record t { members = cleared }))
  clean_members rec ty (suc i) n ts₁

clean_all : (CType → Types → Run Types) → CType → Types → Run Types
unfolding clean_members
clean_all rec ty ts = do n ← nmembers ts ty; clean_members rec ty 0 n ts

clean_untagged : (CType → Types → Run Types) → CType → Types → Run Types
unfolding clean_all
clean_untagged rec ty ts = do
  t ← get_typetree_handle ts ty.ref
  elim t.tag [ some s ↦ ok ts | none ↦ clean_all rec ty ts ]

abbrev clean_case : TypeKind → (CType → Types → Run Types) → CType → Types → Run Types
clean_case pointer rec ty ts = do n ← type_next ts ty; rec n ts
clean_case array rec ty ts = do
  t ← get_typetree_handle ts ty.ref
  rec t.next (if t.vla then put_typetree ts ty.ref (record t { vlen = none }) else ts)
clean_case struct rec ty ts = clean_untagged rec ty ts
clean_case union rec ty ts = clean_untagged rec ty ts
clean_case function rec ty ts = clean_all rec ty ts
clean_case k rec ty ts = ok ts

unfoldable pub type_clean_prototype : ℕ → CType → Types → Run Types
unfolding clean_untagged clean_all
type_clean_prototype zero ty ts = err exhausted
type_clean_prototype (suc f) ty ts = clean_case (type_of ty) (type_clean_prototype f) ty ts

-- `is_tag` and `is_typedef` say what kind of symbol `tag` is.
unfoldable pub type_set_tag : CType → ℕ → Bool → Bool → Types → Run Types
type_set_tag ty tag is_tag is_typedef ts = do
  guard (is_tag || is_typedef) assertion
  if ty.ref == 0 then ok ts else (do
    t ← get_typetree_handle ts ty.ref
    let untagged : Bool = elim t.tag [ none ↦ true | some s ↦ false ]
    if untagged || not is_typedef
        then ok (put_typetree ts ty.ref (record t { tag = some tag }))
        else ok ts)

unfoldable pub set_array_length : CType → ℕ → Types → Run Types
set_array_length ty n ts = do
  guard (is_array ty) assertion
  t ← get_typetree_handle ts ty.ref
  guard (t.size == 0) assertion
  guard t.incomplete assertion
  ok (put_typetree ts ty.ref (record t { size = n; incomplete = false }))
