-- ===== src/Types/Arena.antt =====
-- The list of trees: reading after writing.
use lacc.Base.{
  ℕ, zero, suc, Option, none, some, [], ◌∷◌, ◌++◌, length, get_elem?, set, get_elem?-set_self,
  get_elem?-set_ne, get_elem?-lt, length-set, ok, ◌≡◌, ◌≢◌, refl, ap, arith, demand, Fault,
}
use lacc.Types.Defs.{Typetree, Types, get_typetree_handle, put_typetree}

demand-eq-ok {ℓ} : {A : Type ℓ} (o : Option A) (e : Fault) {a : A} → demand o e ≡ ok a → o ≡ some a
demand-eq-ok none e h = cc
demand-eq-ok (some x) e h = cc

pub handle-eq-ok :
    (ts : Types) (i : ℕ) {t : Typetree}
    → get_typetree_handle ts (suc i) ≡ ok t
    → get_elem? ts i ≡ some t
unfolding get_typetree_handle
handle-eq-ok ts i h = demand-eq-ok (get_elem? ts i) _ h

pub handle-put_self :
    (ts : Types) (r : ℕ) {t : Typetree} (t' : Typetree)
    → get_typetree_handle ts r ≡ ok t
    → get_typetree_handle (put_typetree ts r t') r ≡ ok t'
unfolding get_typetree_handle put_typetree
handle-put_self ts zero t' h = cc
handle-put_self ts (suc i) t' h =
    rw (get_elem?-set_self ts i t' (get_elem?-lt ts i (handle-eq-ok ts i h)))

pub handle-put_ne :
    (ts : Types) (r q : ℕ) (t' : Typetree)
    → r ≢ q
    → get_typetree_handle (put_typetree ts r t') q ≡ get_typetree_handle ts q
unfolding get_typetree_handle put_typetree
handle-put_ne ts zero q t' h = refl
handle-put_ne ts (suc i) zero t' h = refl
handle-put_ne ts (suc i) (suc j) t' h =
    rw (get_elem?-set_ne ts {i = i} {j = j} t' (λ e. h (ap suc e)))

get_elem?-append :
    (ts us : Types) (i : ℕ) {t : Typetree}
    → get_elem? ts i ≡ some t
    → get_elem? (ts ++ us) i ≡ some t
get_elem?-append [] us i h = cc
get_elem?-append (x ∷ xs) us zero h = h
get_elem?-append (x ∷ xs) us (suc i) h = get_elem?-append xs us i h

pub handle-append :
    (ts us : Types) (r : ℕ) {t : Typetree}
    → get_typetree_handle ts r ≡ ok t
    → get_typetree_handle (ts ++ us) r ≡ ok t
unfolding get_typetree_handle
handle-append ts us zero h = cc
handle-append ts us (suc i) h = rw (get_elem?-append ts us i (handle-eq-ok ts i h))

-- Writing back what is there changes nothing.
set-same : (ts : Types) (i : ℕ) {t : Typetree} → get_elem? ts i ≡ some t → set ts i t ≡ ts
set-same [] i h = cc
set-same (x ∷ xs) zero h = ground arith
set-same (x ∷ xs) (suc i) h = ap (λ l. x ∷ l) (set-same xs i h)

pub put-same :
    (ts : Types) (r : ℕ) {t : Typetree} → get_typetree_handle ts r ≡ ok t → put_typetree ts r t ≡ ts
unfolding get_typetree_handle put_typetree
put-same ts zero h = cc
put-same ts (suc i) h = set-same ts i (handle-eq-ok ts i h)

pub length-put : (ts : Types) (r : ℕ) (t : Typetree) → length (put_typetree ts r t) ≡ length ts
unfolding put_typetree
length-put ts zero t = refl
length-put ts (suc i) t = length-set ts i t
