-- ===== src/Symtab/Create.antt =====
-- Symbols that the compiler makes up. Each function has a static counter, which the model passes and
-- returns behind the symbol; the 16 bits of `n` are the low ones of the counter.
use lacc.Base.{
  ℕ, suc, ◌%◌, ◌^◌, Bool, false, [], ◌∷◌, ◌++◌, ◌==◌, if◌then◌else◌, Text, text_eq, Run, ok, ◌>>=◌,
}
use lacc.Types.Defs.{void, CType, basic}
use lacc.Ir.{SymType, definition, constant, label, Linkage, link_none, link_intern, Symbol}
use lacc.Symtab.Scopes.{current_scope_depth}
use lacc.Symtab.Add.{Symtab, alloc_sym}

abbrev prefix_temporary : Text
prefix_temporary = b'.' ∷ b't' ∷ []

abbrev prefix_unnamed : Text
prefix_unnamed = b'.' ∷ b'u' ∷ []

abbrev prefix_constant : Text
prefix_constant = b'.' ∷ b'C' ∷ []

abbrev prefix_label : Text
prefix_label = b'.' ∷ b'L' ∷ []

abbrev made_up : Text → SymType → Linkage → CType → ℕ → Symbol
made_up name symtype linkage ty n = record {
  name = name;
  type = ty;
  symtype = symtype;
  linkage = linkage;
  referenced = false;
  n = n % 2 ^ 16;
  depth = 0;
  index = 0;
}

unfoldable pub sym_create_temporary : CType → ℕ → Symtab → (ℕ × Symtab) × ℕ
unfolding alloc_sym
sym_create_temporary ty n st =
    (alloc_sym st (made_up prefix_temporary definition link_none ty (suc n)), suc n)

unfoldable pub sym_create_unnamed : CType → ℕ → Symtab → Run ((ℕ × Symtab) × ℕ)
unfolding alloc_sym
sym_create_unnamed ty n st = do
  depth ← current_scope_depth st.ident
  let linkage = if depth == 0 then link_intern else link_none
  ok (alloc_sym st (made_up prefix_unnamed definition linkage ty (suc n)), suc n)

unfoldable pub sym_create_label : ℕ → Symtab → (ℕ × Symtab) × ℕ
unfolding alloc_sym
sym_create_label n st =
    (alloc_sym st (made_up prefix_label label link_intern (basic void false) (suc n)), suc n)

-- The value is left out.
unfoldable pub sym_create_constant : CType → ℕ → Symtab → (ℕ × Symtab) × ℕ
unfolding alloc_sym
sym_create_constant ty n st =
    let made = alloc_sym st (made_up prefix_constant constant link_intern ty (suc n)) in
    let st' = made.1 in
    let listed = record st' {
      ident = record st'.ident { symbol = st'.ident.symbol ++ made.0 ∷ [] };
    } in
    ((made.0, listed), suc n)

unfoldable pub is_temporary : Symbol → Bool
is_temporary s = text_eq prefix_temporary s.name
