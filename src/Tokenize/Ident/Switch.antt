-- ===== src/Tokenize/Ident/Switch.antt =====
-- The `switch` of `strtoident`, by the first character.
use lacc.Base.{Bool, true, false, Text, ◌==◌, ◌≡◌, refl}
use lacc.Tokenize.Token.{at}
use lacc.Tokenize.Ident.{
  ident_switch, Found, other, case_underscore, case_a, case_b, case_c, case_d, case_e, case_f,
  case_g, case_i, case_l, case_r, case_s, case_t, case_u, case_v, case_w,
}

split : (b : Bool) (P : Type 0) → (b ≡ true → P) → (b ≡ false → P) → P
split true P yes_it no_it = yes_it refl
split false P yes_it no_it = no_it refl

-- What holds of every case holds of the `switch`.
pub ident_switch_elim :
    (P : Found → Type 0) (c99 : Bool) (s : Text)
    → ((at s 0 == b'_') ≡ true → P (case_underscore s))
    → ((at s 0 == b'a') ≡ true → P (case_a s))
    → ((at s 0 == b'b') ≡ true → P (case_b s))
    → ((at s 0 == b'c') ≡ true → P (case_c s))
    → ((at s 0 == b'd') ≡ true → P (case_d s))
    → ((at s 0 == b'e') ≡ true → P (case_e s))
    → ((at s 0 == b'f') ≡ true → P (case_f s))
    → ((at s 0 == b'g') ≡ true → P (case_g s))
    → ((at s 0 == b'i') ≡ true → P (case_i c99 s))
    → ((at s 0 == b'l') ≡ true → P (case_l s))
    → ((at s 0 == b'r') ≡ true → P (case_r c99 s))
    → ((at s 0 == b's') ≡ true → P (case_s s))
    → ((at s 0 == b't') ≡ true → P (case_t s))
    → ((at s 0 == b'u') ≡ true → P (case_u s))
    → ((at s 0 == b'v') ≡ true → P (case_v s))
    → ((at s 0 == b'w') ≡ true → P (case_w s))
    → P (other 1)
    → P (ident_switch c99 s)
unfolding ident_switch
ident_switch_elim P c99 s p_underscore p_a p_b p_c p_d p_e p_f p_g p_i p_l p_r p_s p_t p_u p_v p_w
      p_other =
    let G = P (ident_switch c99 s) in
    split (at s 0 == b'_') G (λ h. rw (h) (p_underscore h))
      λ h0.
        split (at s 0 == b'a') G (λ h. rw (h0, h) (p_a h))
          λ h1.
            split (at s 0 == b'b') G (λ h. rw (h0, h1, h) (p_b h))
              λ h2.
                split (at s 0 == b'c') G (λ h. rw (h0, h1, h2, h) (p_c h))
                  λ h3.
                    split (at s 0 == b'd') G (λ h. rw (h0, h1, h2, h3, h) (p_d h))
                      λ h4.
                        split (at s 0 == b'e') G (λ h. rw (h0, h1, h2, h3, h4, h) (p_e h))
                          λ h5.
                            split (at s 0 == b'f') G (λ h. rw (h0, h1, h2, h3, h4, h5, h) (p_f h))
                              λ h6.
                                split (at s 0 == b'g') G
                                  (λ h. rw (h0, h1, h2, h3, h4, h5, h6, h) (p_g h))
                                  λ h7.
                                    split (at s 0 == b'i') G
                                      (λ h. rw (h0, h1, h2, h3, h4, h5, h6, h7, h) (p_i h))
                                      λ h8.
                                        split (at s 0 == b'l') G
                                          (λ h. rw (h0, h1, h2, h3, h4, h5, h6, h7, h8, h) (p_l h))
                                          λ h9.
                                            split (at s 0 == b'r') G
                                              (λ h.
                                                rw (h0, h1, h2, h3, h4, h5, h6, h7, h8, h9, h)
                                                  (p_r h))
                                              λ h10.
                                                split (at s 0 == b's') G
                                                  (λ h.
                                                    rw
                                                      (
                                                        h0, h1, h2, h3, h4, h5, h6, h7, h8, h9, h10,
                                                        h,
                                                      )
                                                      (p_s h))
                                                  λ h11.
                                                    split (at s 0 == b't') G
                                                      (λ h.
                                                        rw
                                                          (
                                                            h0, h1, h2, h3, h4, h5, h6, h7, h8, h9,
                                                            h10, h11, h,
                                                          )
                                                          (p_t h))
                                                      λ h12.
                                                        split (at s 0 == b'u') G
                                                          (λ h.
                                                            rw
                                                            (
                                                            h0, h1, h2, h3, h4, h5, h6, h7, h8, h9,
                                                            h10, h11, h12, h,
                                                            )
                                                            (p_u h))
                                                          λ h13.
                                                            split (at s 0 == b'v') G
                                                            (λ h.
                                                            rw
                                                            (
                                                            h0, h1, h2, h3, h4, h5, h6, h7, h8, h9,
                                                            h10, h11, h12, h13, h,
                                                            )
                                                            (p_v h))
                                                            λ h14.
                                                            split (at s 0 == b'w') G
                                                            (λ h.
                                                            rw
                                                            (
                                                            h0, h1, h2, h3, h4, h5, h6, h7, h8, h9,
                                                            h10, h11, h12, h13, h14, h,
                                                            )
                                                            (p_w h))
                                                            λ h15.
                                                            rw
                                                            (
                                                            h0, h1, h2, h3, h4, h5, h6, h7, h8, h9,
                                                            h10, h11, h12, h13, h14, h15,
                                                            )
                                                            p_other
