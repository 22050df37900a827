-- ===== src/Tokenize/Ident/Words.antt =====
-- The keywords of src/tokenize.c as a list of texts, and what the `switch` of `strtoident` finds for a
-- name that is not in it.
use lacc.Base.{
  ℕ, suc, Bool, true, false, ◌&&◌, List, [], ◌∷◌, ◌++◌, All, All-lookup, get_elem?, some, Text,
  ◌==◌, ◌≡◌, ◌≢◌, refl, arith, Bool-cases, inl, inr,
}
use lacc.Tokenize.Token.{at, codes}
use lacc.Tokenize.Ident.Cases.{
  is_other, is_other-ok, other-case_underscore, other-case_a, other-case_b, other-case_c,
  other-case_d, other-case_e, other-case_f, other-case_g, other-case_i, other-case_l, other-case_r,
  other-case_s, other-case_t, other-case_u, other-case_v, other-case_w,
}
use lacc.Tokenize.Ident.Switch.{ident_switch_elim}
use lacc.Tokenize.Ident.{isident, same_chars, word, other, ident_switch}

-- The keywords that only the newer standards have.
abbrev newer : Bool → List Text
newer true = codes "inline" ∷ codes "restrict" ∷ []
newer false = []

-- The keywords but `_Static_assert`.
abbrev pub spellings : Bool → List Text
spellings c99 =
    codes "auto"
    ∷ codes "break"
    ∷ codes "case"
    ∷ codes "char"
    ∷ codes "const"
    ∷ codes "continue"
    ∷ codes "default"
    ∷ codes "do"
    ∷ codes "double"
    ∷ codes "else"
    ∷ codes "enum"
    ∷ codes "extern"
    ∷ codes "float"
    ∷ codes "for"
    ∷ codes "goto"
    ∷ codes "if"
    ∷ codes "int"
    ∷ codes "long"
    ∷ codes "register"
    ∷ codes "return"
    ∷ codes "short"
    ∷ codes "signed"
    ∷ codes "sizeof"
    ∷ codes "static"
    ∷ codes "struct"
    ∷ codes "switch"
    ∷ codes "typedef"
    ∷ codes "union"
    ∷ codes "unsigned"
    ∷ codes "void"
    ∷ codes "volatile"
    ∷ codes "while"
    ∷ codes "_Alignof"
    ∷ codes "_Bool"
    ∷ codes "__asm__"
    ∷ newer c99

-- Letters, digits and underscores only.
abbrev pub IsName : Text → Type 0
IsName name = All (λ c. isident c ≡ true) name

abbrev pub StartsWith : Text → Text → Type 0
StartsWith w s = (rest : Text) × (s ≡ w ++ rest)

abbrev pub static_assert_text : Text
static_assert_text = codes "_Static_assert"

both : (a b : Bool) → (a && b) ≡ true → (a ≡ true) × (b ≡ true)
both a b h = ground arith

word-suc : (w : Text) (c : ℕ) (s : Text) (i : ℕ) → word (c ∷ s) (suc i) w ≡ word s i w
unfolding word
word-suc [] c s i = refl
word-suc (d ∷ w) c s i = rw (word-suc w c s (suc i)) refl

abbrev all_ident : Text → Bool
all_ident [] = true
all_ident (c ∷ w) = isident c && all_ident w

all_names : (w : Text) → all_ident w ≡ true → IsName w
all_names [] h = tt
all_names (c ∷ w) h = let (start, rest) = both (isident c) _ h in (start, all_names w rest)

abbrev all_texts : List Text → Bool
all_texts [] = true
all_texts (w ∷ ws) = all_ident w && all_texts ws

all_texts-IsName : (ws : List Text) → all_texts ws ≡ true → All IsName ws
all_texts-IsName [] h = tt
all_texts-IsName (w ∷ ws) h =
    let (one, rest) = both (all_ident w) _ h in (all_names w one, all_texts-IsName ws rest)

word-name :
    (w name rest : Text)
    → IsName name
    → IsName w
    → isident (at rest 0) ≡ false
    → word (name ++ rest) 0 w ≡ true
    → name ≡ w
unfolding word
word-name [] [] rest all all_w stop h = refl
word-name (d ∷ w) [] rest all (start, all_w) stop h =
    let (head, _) = both (at rest 0 == d) _ h in
    let e : at rest 0 ≡ d = ground arith in absurd (cc (rw e at stop, start))
word-name [] (c ∷ name) rest (start, all) all_w stop h = absurd (cc (rw start at h))
word-name (d ∷ w) (c ∷ name) rest (start, all) (start_w, all_w) stop h =
    let (head, tail) = both (c == d) _ h in
    let e : c ≡ d = ground arith in
    rw (e, word-name w name rest all all_w stop (rw (word-suc w c (name ++ rest) 0) at tail)) refl

same_chars-suc :
    (w : Text) (c : ℕ) (s : Text) (i : ℕ) → same_chars (c ∷ s) (suc i) w ≡ same_chars s i w
unfolding same_chars
same_chars-suc [] c s i = refl
same_chars-suc (d ∷ w) c s i = rw (same_chars-suc w c s (suc i)) refl

same_chars-StartsWith : (w s : Text) → IsName w → same_chars s 0 w ≡ true → StartsWith w s
unfolding same_chars
same_chars-StartsWith [] s all h = (s, refl)
same_chars-StartsWith (d ∷ w) [] (start, all) h =
    let (head, _) = both (0 == d) _ h in
    let e : 0 ≡ d = ground arith in absurd (cc (rw (← e) at start))
same_chars-StartsWith (d ∷ w) (c ∷ s) (start, all) h =
    let (head, tail) = both (c == d) _ h in
    let e : c ≡ d = ground arith in
    let (rest, same) = same_chars-StartsWith w s all (rw (same_chars-suc w c s 0) at tail) in
    (rest, rw (e, same) refl)

word-step :
    (s : Text) (i c : ℕ) (w : Text)
    → (at s i == c) ≡ true
    → word s i (c ∷ w) ≡ false
    → word s (suc i) w ≡ false
unfolding word
word-step s i c w here h = rw here at h

-- Every keyword of the list differs from the line.
unlisted-word :
    (c99 : Bool) (name rest : Text)
    → IsName name
    → isident (at rest 0) ≡ false
    → (ws : List Text) → All IsName ws
    → All (λ w. name ≢ w) ws
    → All (λ w. word (name ++ rest) 0 w ≡ false) ws
unlisted-word c99 name rest all stop [] names unlisted = tt
unlisted-word c99 name rest all stop (w ∷ ws) (is, names) (apart, unlisted) =
    let differs : word (name ++ rest) 0 w ≡ false = elim (Bool-cases (word (name ++ rest) 0 w)) [
      | inl same ↦ absurd (apart (word-name w name rest all is stop same))
      | inr differs ↦ differs
    ] in
    (differs, unlisted-word c99 name rest all stop ws names unlisted)

spellings-IsName : (c99 : Bool) → All IsName (spellings c99)
spellings-IsName true = all_texts-IsName (spellings true) refl
spellings-IsName false = all_texts-IsName (spellings false) refl

with_newer :
    (c99 : Bool) (P : Text → Type 0) → All P (spellings c99) → c99 ≡ true → All P (spellings true)
with_newer true P all h = all
with_newer false P all h = cc

no_static_assert :
    (s : Text)
    → ¬ StartsWith static_assert_text s
    → (at s 0 == b'_') ≡ true
    → same_chars s 1 (codes "Static_assert") ≡ false
unfolding same_chars
no_static_assert s plain here = elim (Bool-cases (same_chars s 1 (codes "Static_assert"))) [
  | inl starts ↦
      let whole : same_chars s 0 static_assert_text ≡ true = rw (here, starts) refl in
      absurd (
        plain
          (same_chars-StartsWith static_assert_text s (all_names static_assert_text refl) whole))
  | inr differs ↦ differs
]

-- The `switch` finds nothing for a name that is not in the list.
pub ident_switch-other :
    (c99 : Bool) (name rest : Text)
    → IsName name
    → isident (at rest 0) ≡ false
    → All (λ w. name ≢ w) (spellings c99)
    → ¬ StartsWith static_assert_text (name ++ rest)
    → (i : ℕ) × (ident_switch c99 (name ++ rest) ≡ other i)
ident_switch-other c99 name rest all stop unlisted plain =
    let s = name ++ rest in
    let differs =
      unlisted-word c99 name rest all stop (spellings c99) (spellings-IsName c99) unlisted in
    let no =
      λ (i c : ℕ) (w : Text) (e : get_elem? (spellings c99) i ≡ some (c ∷ w))
          (here : (at s 0 == c) ≡ true).
        word-step s 0 c w here
          (All-lookup (λ w. word s 0 w ≡ false) (spellings c99) i (c ∷ w) differs e) in
    let no_newer =
      λ (i c : ℕ) (w : Text) (e : get_elem? (spellings true) i ≡ some (c ∷ w))
          (here : (at s 0 == c) ≡ true) (on : c99 ≡ true).
        word-step s 0 c w here (
          All-lookup (λ w. word s 0 w ≡ false) (spellings true) i (c ∷ w)
            (with_newer c99 (λ w. word s 0 w ≡ false) differs on) e) in
    is_other-ok (ident_switch c99 s) (
      ident_switch_elim (λ f. is_other f ≡ true) c99 s
        (λ h.
          other-case_underscore s (no 32 b'_' (codes "Alignof") refl h)
            (no 33 b'_' (codes "Bool") refl h) (no 34 b'_' (codes "_asm__") refl h)
            (no_static_assert s plain h))
        (λ h. other-case_a s (no 0 b'a' (codes "uto") refl h))
        (λ h. other-case_b s (no 1 b'b' (codes "reak") refl h))
        (λ h.
          other-case_c s (no 2 b'c' (codes "ase") refl h) (no 3 b'c' (codes "har") refl h)
            (no 4 b'c' (codes "onst") refl h) (no 5 b'c' (codes "ontinue") refl h))
        (λ h.
          other-case_d s (no 6 b'd' (codes "efault") refl h) (no 7 b'd' (codes "o") refl h)
            (no 8 b'd' (codes "ouble") refl h))
        (λ h.
          other-case_e s (no 9 b'e' (codes "lse") refl h) (no 10 b'e' (codes "num") refl h)
            (no 11 b'e' (codes "xtern") refl h))
        (λ h. other-case_f s (no 12 b'f' (codes "loat") refl h) (no 13 b'f' (codes "or") refl h))
        (λ h. other-case_g s (no 14 b'g' (codes "oto") refl h))
        (λ h.
          other-case_i c99 s (no 15 b'i' (codes "f") refl h) (no 16 b'i' (codes "nt") refl h)
            (no_newer 35 b'i' (codes "nline") refl h))
        (λ h. other-case_l s (no 17 b'l' (codes "ong") refl h))
        (λ h.
          other-case_r c99 s (no 18 b'r' (codes "egister") refl h)
            (no 19 b'r' (codes "eturn") refl h) (no_newer 36 b'r' (codes "estrict") refl h))
        (λ h.
          other-case_s s (no 20 b's' (codes "hort") refl h) (no 21 b's' (codes "igned") refl h)
            (no 22 b's' (codes "izeof") refl h) (no 23 b's' (codes "tatic") refl h)
            (no 24 b's' (codes "truct") refl h) (no 25 b's' (codes "witch") refl h))
        (λ h. other-case_t s (no 26 b't' (codes "ypedef") refl h))
        (λ h.
          other-case_u s (no 27 b'u' (codes "nion") refl h) (no 28 b'u' (codes "nsigned") refl h))
        (λ h.
          other-case_v s (no 29 b'v' (codes "oid") refl h) (no 30 b'v' (codes "olatile") refl h))
        (λ h. other-case_w s (no 31 b'w' (codes "hile") refl h)) refl)
