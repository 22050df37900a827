-- ===== src/Symtab/Declare.antt =====
-- The redeclaration of a symbol: `sym_apply_type` and `sym_redeclare`.
pub mod Redeclare
use lacc.Base.{
  ℕ, zero, suc, ◌+◌, ◌-◌, ◌%◌, ◌^◌, Bool, true, false, not, ◌&&◌, ◌||◌, List, [], ◌∷◌, ◌++◌, ltb,
  ◌==◌, if◌then◌else◌, Run, ok, err, assertion, diagnostic, guard, ◌>>=◌, ◌>>◌,
}
use lacc.Types.Defs.{CType, is_function, is_array, Types}
use lacc.Types.Query.{is_complete, type_next, type_array_len}
use lacc.Types.Equal.{type_equal, is_compatible}
use lacc.Types.Build.Create.{set_array_length}
use lacc.Ir.{
  SymType, definition, tentative, declaration, type_definition, literal, constant, label, tag,
  Linkage, link_none, link_intern, link_extern, Symbol,
}

-- The test at the end of `sym_apply_type`.
abbrev pub must_equal : ℕ → Types → CType → CType → Run (CType × Types)
must_equal f ts old ty = do same ← type_equal f ts old ty; guard same diagnostic; ok (old, ts)

abbrev pub apply_function : ℕ → Types → CType → CType → Run (CType × Types)
apply_function f ts old ty = do
  old_complete ← is_complete ts old
  if not old_complete then must_equal f ts ty ty else (do
    complete ← is_complete ts ty
    if not complete then ok (old, ts) else (do
      compatible ← is_compatible f ts old ty
      must_equal f ts (if compatible then ty else old) ty))

abbrev pub apply_array : ℕ → Types → CType → CType → Run (CType × Types)
apply_array f ts old ty = do
  old_complete ← is_complete ts old
  complete ← is_complete ts ty
  if not old_complete && complete
      then (do
        len ← type_array_len ts ty
        ts' ← set_array_length old len ts
        must_equal f ts' old ty)
      else if not complete
      then ok (old, ts)
      else must_equal f ts old ty

-- The type that the symbol has then, where `f` is the fuel of the comparisons.
unfoldable pub sym_apply_type : ℕ → Types → CType → CType → Run (CType × Types)
sym_apply_type f ts old ty =
    if is_function old && is_function ty
    then (do
      a ← type_next ts old
      b ← type_next ts ty
      same ← type_equal f ts a b
      if same then apply_function f ts old ty else must_equal f ts old ty)
    else if is_array old && is_array ty
    then (do
      a ← type_next ts old
      b ← type_next ts ty
      same ← type_equal f ts a b
      if same then apply_array f ts old ty else must_equal f ts old ty)
    else must_equal f ts old ty

abbrev pub symtype_code : SymType → ℕ
symtype_code definition = 0
symtype_code tentative = 1
symtype_code declaration = 2
symtype_code type_definition = 3
symtype_code literal = 4
symtype_code constant = 5
symtype_code label = 6
symtype_code tag = 7

abbrev pub linkage_code : Linkage → ℕ
linkage_code link_none = 0
linkage_code link_intern = 1
linkage_code link_extern = 2

-- The first switch of `sym_redeclare`; `depth` is the depth of the current scope.
abbrev pub relink : Linkage → Symbol → ℕ → SymType → Run Linkage
relink link_intern s depth symtype = do
  guard (not (linkage_code s.linkage == 2)) diagnostic
  ok link_intern
relink link_extern s depth symtype = do
  guard (not (linkage_code s.linkage == 1 && ltb (symtype_code symtype) 2)) diagnostic
  ok s.linkage
relink link_none s depth symtype = do
  guard (not (s.depth == depth && not (s.depth == 0))) diagnostic
  ok s.linkage

abbrev pub redeclared : ℕ → Types → Symbol → SymType → CType → Run (Symbol × Types)
redeclared f ts s symtype ty =
    if symtype_code symtype == 0
    then (do
      same ← type_equal f ts s.type ty
      guard same diagnostic
      ok (record s { symtype = symtype }, ts))
    else (do
      (ty', ts') ← sym_apply_type f ts s.type ty
      ok (record s { symtype = symtype; type = ty' }, ts'))

abbrev pub matching : ℕ → Types → Symbol → SymType → CType → Run (Symbol × Types)
matching f ts s symtype ty = do
  guard (symtype_code s.symtype == symtype_code symtype) diagnostic
  same ← type_equal f ts s.type ty
  guard same diagnostic
  ok (s, ts)

-- The second switch.
abbrev pub retype : SymType → ℕ → Types → Symbol → CType → Run (Symbol × Types)
retype tentative f ts s ty =
    redeclared f ts s (if symtype_code s.symtype == 2 then tentative else s.symtype) ty
retype declaration f ts s ty = redeclared f ts s s.symtype ty
retype definition f ts s ty = do
  (ty', ts') ← sym_apply_type f ts s.type ty
  ok (record s { symtype = definition; type = ty' }, ts')
retype tag f ts s ty = matching f ts s tag ty
retype type_definition f ts s ty = matching f ts s type_definition ty
retype constant f ts s ty = matching f ts s constant ty
retype label f ts s ty = err assertion
retype literal f ts s ty = err assertion

unfoldable pub sym_redeclare :
    ℕ → Types → Symbol → ℕ → CType → SymType → Linkage → Run (Symbol × Types)
unfolding sym_apply_type
sym_redeclare f ts s depth ty symtype linkage = do
  linkage' ← relink linkage s depth symtype
  retype symtype f ts (record s { linkage = linkage' }) ty
