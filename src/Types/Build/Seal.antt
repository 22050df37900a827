-- ===== src/Types/Build/Seal.antt =====
-- The end of a struct, union or function type: `remove_anonymous_fields` and `type_seal`.
pub mod Sealed
use lacc.Base.{
  ℕ, ◌+◌, ◌-◌, ◌%◌, ◌^◌, Bool, true, false, not, List, [], ◌∷◌, ◌++◌, reverse, ltb, ◌==◌,
  if◌then◌else◌, Run, err, ok, assertion, diagnostic, ◌>>=◌, ◌>>◌, guard, u64, length,
}
use lacc.Types.Defs.{
  CType, function, code, is_struct_or_union, Member, Typetree, Types, get_typetree_handle,
  put_typetree,
}
use lacc.Types.Query.{type_alignment}
use lacc.Types.Build.Member.{has_name, align_up}

-- The loop from the last member backwards: the named members in their order, and the largest
-- alignment.
remove_unnamed : Types → List Member → List Member → ℕ → Run (List Member × ℕ)
remove_unnamed ts [] kept most = ok (kept, most)
remove_unnamed ts (m ∷ ms) kept most =
    if has_name m.name
    then (do
      align ← type_alignment ts m.type
      remove_unnamed ts ms (m ∷ kept) (if ltb most align then align else most))
    else remove_unnamed ts ms kept most

unfoldable pub remove_anonymous_fields : Types → Typetree → Run (List Member × ℕ)
unfolding remove_unnamed
remove_anonymous_fields ts t = remove_unnamed ts (reverse t.members) [] 0

unfoldable pub type_seal : CType → Types → Run Types
type_seal ty ts = do
  t ← get_typetree_handle ts ty.ref
  if code t.kind == code function
      then ok (put_typetree ts ty.ref (record t { incomplete = false }))
      else (do
        guard (is_struct_or_union ty) assertion
        (kept, align) ← remove_anonymous_fields ts t
        guard (not (align == 0)) diagnostic
        ok (put_typetree ts ty.ref (record t { members = kept; size = align_up t.size align })))
