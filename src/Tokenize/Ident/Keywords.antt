-- ===== src/Tokenize/Ident/Keywords.antt =====
-- The keywords of the table.
use lacc.Base.{
  All-lookup, ℕ, true, false, some, List, [], ◌∷◌, ◌++◌, All, get_elem?, length, Text, ok, ◌==◌,
  ◌≡◌, refl, arith,
}
use lacc.Tokenize.Kind.{
  kind_alignof, kind_asm, kind_auto, kind_bool, kind_break, kind_case, kind_char, kind_const,
  kind_continue, kind_default, kind_do, kind_double, kind_else, kind_enum, kind_extern, kind_float,
  kind_for, kind_goto, kind_if, kind_inline, kind_int, kind_long, kind_register, kind_restrict,
  kind_return, kind_short, kind_signed, kind_sizeof, kind_static, kind_struct, kind_switch,
  kind_typedef, kind_union, kind_unsigned, kind_void, kind_volatile, kind_while,
}
use lacc.Tokenize.Table.{basic_token, basic_tokens}
use lacc.Tokenize.Token.{at}
use lacc.Tokenize.Ident.{isident, strtoident, ident_switch, same_chars, word}

-- The keywords but `_Static_assert`.
abbrev pub keywords : List ℕ
keywords =
    kind_auto ∷ kind_break ∷ kind_case ∷ kind_char ∷ kind_const ∷ kind_continue ∷ kind_default
    ∷ kind_do ∷ kind_double ∷ kind_else ∷ kind_enum ∷ kind_extern ∷ kind_float ∷ kind_for
    ∷ kind_goto ∷ kind_if ∷ kind_inline ∷ kind_int ∷ kind_long ∷ kind_register ∷ kind_restrict
    ∷ kind_return ∷ kind_short ∷ kind_signed ∷ kind_sizeof ∷ kind_static ∷ kind_struct ∷ kind_switch
    ∷ kind_typedef ∷ kind_union ∷ kind_unsigned ∷ kind_void ∷ kind_volatile ∷ kind_while
    ∷ kind_alignof ∷ kind_bool ∷ kind_asm ∷ []

-- A line that begins with the keyword, with `rest` behind it.
abbrev Lexes : Text → ℕ → Type 0
Lexes rest k =
    strtoident true ((basic_token k).text ++ rest) ≡ ok (basic_token k, length (basic_token k).text)

-- `do` alone has a longer keyword behind it.
not_u : (c : ℕ) → isident c ≡ false → (c == b'u') ≡ false
not_u c stop = ground arith

keywords-Lexes : (rest : Text) → isident (at rest 0) ≡ false → All (Lexes rest) keywords
unfolding strtoident ident_switch same_chars word basic_token basic_tokens
keywords-Lexes rest stop =
    rw (stop, not_u (at rest 0) stop)
      (
        refl,
        (
          refl,
          (
            refl,
            (
              refl,
              (
                refl,
                (
                  refl,
                  (
                    refl,
                    (
                      refl,
                      (
                        refl,
                        (
                          refl,
                          (
                            refl,
                            (
                              refl,
                              (
                                refl,
                                (
                                  refl,
                                  (
                                    refl,
                                    (
                                      refl,
                                      (
                                        refl,
                                        (
                                          refl,
                                          (
                                            refl,
                                            (
                                              refl,
                                              (
                                                refl,
                                                (
                                                  refl,
                                                  (
                                                    refl,
                                                    (
                                                      refl,
                                                      (
                                                        refl,
                                                        (
                                                          refl,
                                                          (
                                                            refl,
                                                            (
                                                            refl,
                                                            (
                                                            refl,
                                                            (
                                                            refl,
                                                            (
                                                            refl,
                                                            (
                                                            refl,
                                                            (
                                                            refl,
                                                            (refl, (refl, (refl, (refl, tt)))),
                                                            ),
                                                            ),
                                                            ),
                                                            ),
                                                            ),
                                                            ),
                                                          ),
                                                        ),
                                                      ),
                                                    ),
                                                  ),
                                                ),
                                              ),
                                            ),
                                          ),
                                        ),
                                      ),
                                    ),
                                  ),
                                ),
                              ),
                            ),
                          ),
                        ),
                      ),
                    ),
                  ),
                ),
              ),
            ),
          ),
        ),
      )

-- Where the keywords of the newer standards are on, each keyword of the list, at the start of a line
-- and with no identifier character behind, is cut as its token of the table, by its full length.
pub strtoident-keywords :
    (i k : ℕ) (rest : Text)
    → get_elem? keywords i ≡ some k
    → isident (at rest 0) ≡ false
    → strtoident true ((basic_token k).text ++ rest)
      ≡ ok (basic_token k, length (basic_token k).text)
strtoident-keywords i k rest h stop =
    All-lookup (Lexes rest) keywords i k (keywords-Lexes rest stop) h
