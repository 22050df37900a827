-- ===== src/Abi/Flag.antt =====
-- A member of type `_Bool`.
use lacc.Base.{
  ℕ, zero, suc, ◌+◌, true, List, [], ◌∷◌, ◌++◌, ◌==◌, Run, ok, >>=-eq-ok, ◌≡◌, arith, ◌||◌,
}
use lacc.Types.Defs.{
  TypeKind, bool, struct, union, code, CType, type_of, is_bool, is_struct_or_union, Member,
  Typetree, Types, get_typetree_handle,
}
use lacc.Abi.{ParamClass, flatten, flatten_members, flatten_case}

flatten_case-flag :
    (k : TypeKind) (ts : Types) (rec : ParamClass → CType → ℕ → Run ParamClass)
    (pc pc' : ParamClass) (ty : CType) (offset : ℕ)
    → (code k == code bool) ≡ true
    → ¬ (flatten_case k ts rec pc ty offset ≡ ok pc')
flatten_case-flag bool ts rec pc pc' ty offset flag h = cc
flatten_case-flag _ ts rec pc pc' ty offset flag h = ground arith

flatten-flag :
    (f : ℕ) (ts : Types) (pc pc' : ParamClass) (ty : CType) (offset : ℕ)
    → is_bool ty ≡ true
    → ¬ (flatten f ts pc ty offset ≡ ok pc')
unfolding flatten
flatten-flag zero ts pc pc' ty offset flag h = cc
flatten-flag (suc f) ts pc pc' ty offset flag h =
    flatten_case-flag (type_of ty) ts (flatten f ts) pc pc' ty offset flag h

flatten_members-flag :
    (f : ℕ) (ts : Types) (pc pc' : ParamClass) (before after : List Member) (m : Member)
    (offset : ℕ)
    → is_bool m.type ≡ true
    → ¬ (flatten_members (flatten f ts) pc (before ++ m ∷ after) offset ≡ ok pc')
unfolding flatten_members
flatten_members-flag f ts pc pc' [] after m offset flag h =
    let (pc₁, first, _) = >>=-eq-ok (flatten f ts pc m.type (m.offset + offset)) _ h in
    flatten-flag f ts pc pc₁ m.type (m.offset + offset) flag first
flatten_members-flag f ts pc pc' (b ∷ before) after m offset flag h =
    let (pc₁, _, rest) = >>=-eq-ok (flatten f ts pc b.type (b.offset + offset)) _ h in
    flatten_members-flag f ts pc₁ pc' before after m offset flag rest

flatten_aggregate-flag :
    (k : TypeKind) (f : ℕ) (ts : Types) (pc pc' : ParamClass) (ty : CType) (offset : ℕ)
    (t : Typetree) (before after : List Member) (m : Member)
    → (code k == code struct || code k == code union) ≡ true
    → get_typetree_handle ts ty.ref ≡ ok t
    → t.members ≡ before ++ m ∷ after
    → is_bool m.type ≡ true
    → ¬ (flatten_case k ts (flatten f ts) pc ty offset ≡ ok pc')
flatten_aggregate-flag struct f ts pc pc' ty offset t before after m is found members flag h =
    flatten_members-flag f ts pc pc' before after m offset flag (rw (found, members) at h)
flatten_aggregate-flag union f ts pc pc' ty offset t before after m is found members flag h =
    flatten_members-flag f ts pc pc' before after m offset flag (rw (found, members) at h)
flatten_aggregate-flag _ f ts pc pc' ty offset t before after m is found members flag h =
    ground arith

-- A struct or union with a member of type `_Bool` is never flattened into classes: whatever the
-- other members and the fuel are, `flatten` does not return.
pub flatten-bool_member :
    (f : ℕ) (ts : Types) (pc pc' : ParamClass) (ty : CType) (offset : ℕ) (t : Typetree)
    (before after : List Member) (m : Member)
    → is_struct_or_union ty ≡ true
    → get_typetree_handle ts ty.ref ≡ ok t
    → t.members ≡ before ++ m ∷ after
    → is_bool m.type ≡ true
    → ¬ (flatten f ts pc ty offset ≡ ok pc')
unfolding flatten
flatten-bool_member zero ts pc pc' ty offset t before after m is found members flag h = cc
flatten-bool_member (suc f) ts pc pc' ty offset t before after m is found members flag h =
    flatten_aggregate-flag (type_of ty) f ts pc pc' ty offset t before after m is found members flag
      h
