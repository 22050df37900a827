-- ===== src/Symtab/Declare/Redeclare.antt =====
-- How declarations of one symbol add up, in `sym_redeclare` of src/parser/symtab.c.
use lacc.Base.{
  ℕ, ◌≤◌, Bool, true, false, not, ◌&&◌, ltb, ◌==◌, if◌then◌else◌, ok, diagnostic, guard,
  guard-eq-ok, >>=-eq-ok, ok_injective, ◌≡◌, refl, sym, ◌∙◌, ap, arith, inl, inr, Bool-cases,
}
use lacc.Types.Defs.{CType, Types}
use lacc.Types.Equal.{type_equal}
use lacc.Ir.{
  SymType, definition, tentative, declaration, type_definition, literal, constant, label, tag,
  Linkage, link_none, link_intern, link_extern, Symbol,
}
use lacc.Symtab.Declare.{
  symtype_code, linkage_code, relink, redeclared, retype, sym_apply_type, sym_redeclare,
}

-- The rank of a definition is 0, of a tentative definition 1, of a declaration 2.
abbrev pub lower : ℕ → ℕ → ℕ
lower a b = if ltb a b then a else b

-- A write of the type and kind.
record Retyped (s s' : Symbol) (code : ℕ) : Type 0 where
  kind : symtype_code s'.symtype ≡ code
  linkage : s'.linkage ≡ s.linkage
  name : s'.name ≡ s.name
  depth : s'.depth ≡ s.depth

redeclared-Retyped :
    (f : ℕ) (ts : Types) (s : Symbol) (symtype : SymType) (ty : CType) (s' : Symbol) (ts' : Types)
    → redeclared f ts s symtype ty ≡ ok (s', ts')
    → Retyped s s' (symtype_code symtype)
redeclared-Retyped f ts s symtype ty s' ts' h = elim (Bool-cases (symtype_code symtype == 0)) [
  | inl defined ↦
      let (same, _, h₁) = >>=-eq-ok (type_equal f ts s.type ty) _ (rw defined at h) in
      let (_, _, h₂) = >>=-eq-ok (guard same diagnostic) _ h₁ in
      let e : record s { symtype = symtype } ≡ s' = ap (λ p. p.0) (ok_injective h₂) in
      rw (← e) (record { kind = refl; linkage = refl; name = refl; depth = refl })
  | inr not_yet ↦
      let ((ty', _), _, h₁) = >>=-eq-ok (sym_apply_type f ts s.type ty) _ (rw not_yet at h) in
      let e : record s { symtype = symtype; type = ty' } ≡ s' = ap (λ p. p.0) (ok_injective h₁) in
      rw (← e) (record { kind = refl; linkage = refl; name = refl; depth = refl })
]

-- A declaration, a tentative definition or a definition, on a symbol of such a kind.
retype-Retyped :
    (symtype : SymType) (f : ℕ) (ts : Types) (s : Symbol) (ty : CType) (s' : Symbol) (ts' : Types)
    → symtype_code symtype ≤ 2
    → symtype_code s.symtype ≤ 2
    → retype symtype f ts s ty ≡ ok (s', ts')
    → Retyped s s' (lower (symtype_code s.symtype) (symtype_code symtype))
retype-Retyped definition f ts s ty s' ts' kind old h =
    let ((ty', _), _, h₁) = >>=-eq-ok (sym_apply_type f ts s.type ty) _ h in
    let e : record s { symtype = definition; type = ty' } ≡ s' = ap (λ p. p.0) (ok_injective h₁) in
    let none_below : ltb (symtype_code s.symtype) 0 ≡ false = ground arith in
    rw (← e, none_below) (record { kind = refl; linkage = refl; name = refl; depth = refl })
retype-Retyped tentative f ts s ty s' ts' kind old h =
    let r =
      redeclared-Retyped f ts s (if symtype_code s.symtype == 2 then tentative else s.symtype) ty s'
        ts' h in
    let code : symtype_code (if symtype_code s.symtype == 2 then tentative else s.symtype)
        ≡ lower (symtype_code s.symtype) 1 =
      tentative-lower s.symtype old in
    record { kind = r.kind ∙ code; linkage = r.linkage; name = r.name; depth = r.depth }
  where
    tentative-lower :
        (k : SymType)
        → symtype_code k ≤ 2
        → symtype_code (if symtype_code k == 2 then tentative else k) ≡ lower (symtype_code k) 1
    tentative-lower definition h = refl
    tentative-lower tentative h = refl
    tentative-lower declaration h = refl
    tentative-lower type_definition h = absurd (omega (arith, h))
    tentative-lower literal h = absurd (omega (arith, h))
    tentative-lower constant h = absurd (omega (arith, h))
    tentative-lower label h = absurd (omega (arith, h))
    tentative-lower tag h = absurd (omega (arith, h))
retype-Retyped declaration f ts s ty s' ts' kind old h =
    let r = redeclared-Retyped f ts s s.symtype ty s' ts' h in
    let code : symtype_code s.symtype ≡ lower (symtype_code s.symtype) 2 = ground (arith, old) in
    record { kind = r.kind ∙ code; linkage = r.linkage; name = r.name; depth = r.depth }
retype-Retyped type_definition f ts s ty s' ts' kind old h = absurd (omega (arith, kind))
retype-Retyped literal f ts s ty s' ts' kind old h = absurd (omega (arith, kind))
retype-Retyped constant f ts s ty s' ts' kind old h = absurd (omega (arith, kind))
retype-Retyped label f ts s ty s' ts' kind old h = absurd (omega (arith, kind))
retype-Retyped tag f ts s ty s' ts' kind old h = absurd (omega (arith, kind))

-- Whether a declaration with the second linkage may follow one with the first: not an internal one an
-- external one, and not an external one that defines an internal one.
abbrev pub may_follow : Linkage → Linkage → SymType → Bool
may_follow old linkage symtype =
    not (linkage_code old == 2 && linkage_code linkage == 1)
    && not (linkage_code old == 1 && linkage_code linkage == 2 && ltb (symtype_code symtype) 2)

relink-agrees :
    (linkage : Linkage) (s : Symbol) (depth : ℕ) (symtype : SymType) (linkage' : Linkage)
    → relink linkage s depth symtype ≡ ok linkage'
    → (may_follow s.linkage linkage symtype ≡ true)
      × (linkage' ≡ (if linkage_code linkage == 1 then link_intern else s.linkage))
relink-agrees link_intern s depth symtype linkage' h =
    let (_, held, h₁) = >>=-eq-ok (guard (not (linkage_code s.linkage == 2)) diagnostic) _ h in
    let test : not (linkage_code s.linkage == 2) ≡ true = guard-eq-ok _ diagnostic held in
    (ground arith, sym (ok_injective h₁))
relink-agrees link_extern s depth symtype linkage' h =
    let (_, held, h₁) =
      >>=-eq-ok
        (guard (not (linkage_code s.linkage == 1 && ltb (symtype_code symtype) 2)) diagnostic) _
        h in
    let test : not (linkage_code s.linkage == 1 && ltb (symtype_code symtype) 2) ≡ true =
      guard-eq-ok _ diagnostic held in
    (ground arith, sym (ok_injective h₁))
relink-agrees link_none s depth symtype linkage' h =
    let (_, held, h₁) =
      >>=-eq-ok (guard (not (s.depth == depth && not (s.depth == 0))) diagnostic) _ h in
    (ground arith, sym (ok_injective h₁))

-- A declaration, a tentative definition or a definition that `sym_redeclare` accepts for a symbol of
-- such a kind leaves the lower of the two ranks, where a definition is 0, a tentative definition 1 and a
-- declaration 2; the linkages do not conflict, the symbol has internal linkage if the new declaration
-- says so and else the linkage that it had, and its name and depth stay.
pub sym_redeclare-lower :
    (f : ℕ) (ts : Types) (s : Symbol) (depth : ℕ) (ty : CType) (symtype : SymType)
    (linkage : Linkage) (s' : Symbol) (ts' : Types)
    → symtype_code symtype ≤ 2
    → symtype_code s.symtype ≤ 2
    → sym_redeclare f ts s depth ty symtype linkage ≡ ok (s', ts')
    → (symtype_code s'.symtype ≡ lower (symtype_code s.symtype) (symtype_code symtype))
      × (may_follow s.linkage linkage symtype ≡ true)
      × (s'.linkage ≡ (if linkage_code linkage == 1 then link_intern else s.linkage))
      × (s'.name ≡ s.name)
      × (s'.depth ≡ s.depth)
unfolding sym_redeclare
sym_redeclare-lower f ts s depth ty symtype linkage s' ts' kind old h =
    let (linkage', linked, h₁) = >>=-eq-ok (relink linkage s depth symtype) _ h in
    let (agreed, linkage_eq) = relink-agrees linkage s depth symtype linkage' linked in
    let r = retype-Retyped symtype f ts (record s { linkage = linkage' }) ty s' ts' kind old h₁ in
    (r.kind, agreed, r.linkage ∙ linkage_eq, r.name, r.depth)
