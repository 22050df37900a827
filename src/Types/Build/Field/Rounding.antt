-- ===== src/Types/Build/Field/Rounding.antt =====
-- The rounding that ends `reset_field_alignment`.
use native.Mathlib.Nat.{mod-lt, mod-eq_of_lt, mod-eq-sub-mod, mod-add-mod}
use lacc.Base.{ℕ, ◌+◌, ◌*◌, ◌%◌, ◌^◌, ◌≤◌, ◌<◌, ◌≡◌, sym, ◌↔◌, arith}
use lacc.Types.Build.Field.{round_size}

double_mod_iff : (r c : ℕ) → 0 < r → r < c → ((r + r) % c ≡ 0) ↔ (2 * r ≡ c)
double_mod_iff r c pos lt = grind (arith, mod-eq_of_lt, mod-eq-sub-mod)

round_size_value :
    (size clear : ℕ)
    → clear ≤ size
    → size + size % clear < 2 ^ 64
    → 0 < size % clear
    → round_size size clear ≡ size + size % clear
round_size_value size clear le fits off = ground arith

-- A size that is not below a positive width and no multiple of it, and whose sum with the width
-- does not wrap around, is rounded to a multiple of the width exactly when its remainder is half
-- of the width.
pub round_size_iff :
    (size clear : ℕ)
    → 0 < clear
    → clear ≤ size
    → size + clear < 2 ^ 64
    → 0 < size % clear
    → (round_size size clear % clear ≡ 0) ↔ (2 * (size % clear) ≡ clear)
round_size_iff size clear pos le fits off =
    let small = mod-lt size pos in
    let value = round_size_value size clear le (omega (arith, small)) off in
    let doubled = sym (mod-add-mod size clear (size % clear)) in
    rw (value, doubled) (double_mod_iff (size % clear) clear off small)
