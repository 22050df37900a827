-- ===== src/Tokenize/Ident/Cases.antt =====
-- What the cases of the `switch` of `strtoident` find where no keyword is.
use lacc.Base.{ℕ, Bool, true, false, Text, ◌≡◌, refl, arith}
use lacc.Tokenize.Token.{codes}
use lacc.Tokenize.Ident.{
  same_chars, word, Found, keyword, static_assertion, other, case_a, case_b, case_c, case_d, case_e,
  case_f, case_g, case_i, case_l, case_r, case_s, case_t, case_u, case_v, case_w, case_underscore,
}

-- Whether the switch has found nothing.
abbrev pub is_other : Found → Bool
is_other (other i) = true
is_other _ = false

pub is_other-ok : (f : Found) → is_other f ≡ true → (i : ℕ) × (f ≡ other i)
is_other-ok (other i) h = (i, refl)
is_other-ok (keyword k) h = cc
is_other-ok static_assertion h = cc

pub other-case_underscore :
    (s : Text)
    → word s 1 (codes "Alignof") ≡ false
    → word s 1 (codes "Bool") ≡ false
    → word s 1 (codes "_asm__") ≡ false
    → same_chars s 1 (codes "Static_assert") ≡ false
    → is_other (case_underscore s) ≡ true
unfolding case_underscore word same_chars
other-case_underscore s h0 h1 h2 h3 = ground arith

pub other-case_a : (s : Text) → word s 1 (codes "uto") ≡ false → is_other (case_a s) ≡ true
unfolding case_a word
other-case_a s h0 = ground arith

pub other-case_b : (s : Text) → word s 1 (codes "reak") ≡ false → is_other (case_b s) ≡ true
unfolding case_b word
other-case_b s h0 = ground arith

pub other-case_c :
    (s : Text)
    → word s 1 (codes "ase") ≡ false
    → word s 1 (codes "har") ≡ false
    → word s 1 (codes "onst") ≡ false
    → word s 1 (codes "ontinue") ≡ false
    → is_other (case_c s) ≡ true
unfolding case_c word same_chars
other-case_c s h0 h1 h2 h3 = ground arith

pub other-case_d :
    (s : Text)
    → word s 1 (codes "efault") ≡ false
    → word s 1 (codes "o") ≡ false
    → word s 1 (codes "ouble") ≡ false
    → is_other (case_d s) ≡ true
unfolding case_d word
other-case_d s h0 h1 h2 = ground arith

pub other-case_e :
    (s : Text)
    → word s 1 (codes "lse") ≡ false
    → word s 1 (codes "num") ≡ false
    → word s 1 (codes "xtern") ≡ false
    → is_other (case_e s) ≡ true
unfolding case_e word
other-case_e s h0 h1 h2 = ground arith

pub other-case_f :
    (s : Text)
    → word s 1 (codes "loat") ≡ false
    → word s 1 (codes "or") ≡ false
    → is_other (case_f s) ≡ true
unfolding case_f word
other-case_f s h0 h1 = ground arith

pub other-case_g : (s : Text) → word s 1 (codes "oto") ≡ false → is_other (case_g s) ≡ true
unfolding case_g word
other-case_g s h0 = ground arith

pub other-case_i :
    (c99 : Bool) (s : Text)
    → word s 1 (codes "f") ≡ false
    → word s 1 (codes "nt") ≡ false
    → (c99 ≡ true → word s 1 (codes "nline") ≡ false)
    → is_other (case_i c99 s) ≡ true
unfolding case_i word
other-case_i true s h0 h1 h2 = let h = h2 refl in ground arith
other-case_i false s h0 h1 h2 = ground arith

pub other-case_l : (s : Text) → word s 1 (codes "ong") ≡ false → is_other (case_l s) ≡ true
unfolding case_l word
other-case_l s h0 = ground arith

pub other-case_r :
    (c99 : Bool) (s : Text)
    → word s 1 (codes "egister") ≡ false
    → word s 1 (codes "eturn") ≡ false
    → (c99 ≡ true → word s 1 (codes "estrict") ≡ false)
    → is_other (case_r c99 s) ≡ true
unfolding case_r word
other-case_r true s h0 h1 h2 = let h = h2 refl in ground arith
other-case_r false s h0 h1 h2 = ground arith

pub other-case_s :
    (s : Text)
    → word s 1 (codes "hort") ≡ false
    → word s 1 (codes "igned") ≡ false
    → word s 1 (codes "izeof") ≡ false
    → word s 1 (codes "tatic") ≡ false
    → word s 1 (codes "truct") ≡ false
    → word s 1 (codes "witch") ≡ false
    → is_other (case_s s) ≡ true
unfolding case_s word
other-case_s s h0 h1 h2 h3 h4 h5 = ground arith

pub other-case_t : (s : Text) → word s 1 (codes "ypedef") ≡ false → is_other (case_t s) ≡ true
unfolding case_t word
other-case_t s h0 = ground arith

pub other-case_u :
    (s : Text)
    → word s 1 (codes "nion") ≡ false
    → word s 1 (codes "nsigned") ≡ false
    → is_other (case_u s) ≡ true
unfolding case_u word
other-case_u s h0 h1 = ground arith

pub other-case_v :
    (s : Text)
    → word s 1 (codes "oid") ≡ false
    → word s 1 (codes "olatile") ≡ false
    → is_other (case_v s) ≡ true
unfolding case_v word
other-case_v s h0 h1 = ground arith

pub other-case_w : (s : Text) → word s 1 (codes "hile") ≡ false → is_other (case_w s) ≡ true
unfolding case_w word
other-case_w s h0 = ground arith
