-- ===== src/Encoding/Length.antt =====
-- How many bytes the parts of an instruction take.
pub mod Bounds
pub mod Registers
pub mod Whole
use Prim.Native.Nat.{bit_or}
use lacc.Base.{
  ℕ, zero, suc, ◌+◌, ◌*◌, ◌/◌, ◌%◌, ◌≤◌, ◌≡◌, refl, sym, Bool, true, false, if◌then◌else◌, ◌==◌,
  not, ◌&&◌, ◌||◌, arith, some, none, List, [], ◌∷◌, ◌++◌, length, length-append, length-set, ok,
  assertion, guard, guarded, returned, ◌>>=◌, ◌>>◌, >>=-eq-ok, demand, ◌-◌,
}
use lacc.Encoding.Defs.{Address, Immediate, imm_int, imm_addr, imm_string, Encoding}
use lacc.Encoding.Code.{Code, write, or_back, little_endian, elf_text_displacement}
use lacc.Encoding.Address.{
  is_none, is_scale, in_32bit_range, rel_type, has_sib, modrm_byte, sib_byte, in_byte_range,
  displacement_bytes, modrm_sib_disp, encode_modrm_sib_disp, encode_symbol, encode_address,
}
use lacc.Encoding.Immediate.{imm_rel_type, encode_reference, encode_immediate, imm_encoding_width}
use lacc.Encoding.Form.{write_rex, encode_opcode, or_width, or_reg_width}

-- The bytes of a code.
abbrev pub len : Code → ℕ
len c = length c.val

pub len-write : (c : Code) (bytes : List ℕ) → len (write c bytes) ≡ len c + length bytes
len-write c bytes = length-append c.val bytes

pub len-or_back : (c : Code) (back bits : ℕ) → len (or_back c back bits) ≡ len c
len-or_back c back bits = length-set c.val _ _

pub length-little_endian : (n v : ℕ) → length (little_endian n v) ≡ n
unfolding little_endian
length-little_endian zero v = refl
length-little_endian (suc n) v = omega (arith, length-little_endian n (v / 256))

pub len-if :
    (test : Bool) (c d : Code) {n : ℕ} → len c ≡ n → len d ≡ n → len (if test then c else d) ≡ n
len-if true c d h k = h
len-if false c d h k = k

-- A displacement takes four bytes, one or none.
length-displacement_bytes : (addr : Address) → length (displacement_bytes addr) ≤ 4
length-displacement_bytes addr =
    ground
      (arith, length-little_endian 4 addr.displacement, length-little_endian 1 addr.displacement)

length-modrm_sib_disp : (reg : ℕ) (addr : Address) → length (modrm_sib_disp reg addr) ≤ 6
length-modrm_sib_disp reg addr =
    let disp = length-displacement_bytes addr in
    elim (has_sib addr)
      as (λ test.
        length (
          modrm_byte reg addr ∷ (if test then sib_byte addr ∷ [] else [])
          ++ displacement_bytes addr)
        ≤ 6) [ true ↦ omega arith | false ↦ omega arith ]

-- The second component of the result is the number of bytes that are added, at most `most`.
abbrev pub Adds : ℕ → Code → Code × ℕ → Type 0
Adds most c result = (len result.0 ≡ len c + result.1) × (result.1 ≤ most)

encode_modrm_sib_disp-Adds :
    (c : Code) (reg : ℕ) (addr : Address) {result : Code × ℕ}
    → encode_modrm_sib_disp c reg addr ≡ ok result
    → Adds 6 c result
unfolding encode_modrm_sib_disp
encode_modrm_sib_disp-Adds c reg addr {result} h =
    let plain = guarded (is_none addr.symbol) _ _ h in
    let based = guarded (not (addr.base == 0) || addr.displacement == 0) _ _ plain in
    let scaled = guarded (is_scale addr.scale) _ _ based in
    returned (Adds 6 c) (len-write c (modrm_sib_disp reg addr), length-modrm_sib_disp reg addr)
      scaled

encode_symbol-Adds :
    (c : Code) (sym reg : ℕ) (addr : Address) (addend : ℕ) {result : Code × ℕ}
    → encode_symbol c sym reg addr addend ≡ ok result
    → Adds 5 c result
encode_symbol-Adds c sym reg addr addend {result} h =
    let (reloc, _, rest) = >>=-eq-ok (rel_type addr.kind) _ h in
    let first = len-write c (bit_or ((reg % 8) * 8) 0x5 ∷ []) in
    returned (Adds 5 c)
      (
        omega (
          arith,
          first,
          length-append (c.val ++ bit_or ((reg % 8) * 8) 0x5 ∷ []) (0 ∷ 0 ∷ 0 ∷ 0 ∷ []),
        ),
        omega arith,
      )
      rest

pub encode_address-Adds :
    (c : Code) (reg : ℕ) (addr : Address) (addend : ℕ) {result : Code × ℕ}
    → encode_address c reg addr addend ≡ ok result
    → Adds 6 c result
unfolding encode_address
encode_address-Adds c reg addr addend {result} h =
    elim addr.symbol
        as (λ o.
          elim o [
            | some sym ↦ encode_symbol c sym reg addr addend
            | none ↦ encode_modrm_sib_disp c reg addr
          ]
            ≡ ok result
          → Adds 6 c result) [
            | some sym ↦ λ h.
                let (sum, most) = encode_symbol-Adds c sym reg addr addend h in (sum, omega arith)
            | none ↦ λ h. encode_modrm_sib_disp-Adds c reg addr h
          ]
      h

abbrev Announced : ℕ → Code → Code × ℕ → Type 0
Announced n c result = (len result.0 ≡ len c + result.1) × (result.1 ≡ n)

-- The four branches of an integer.
integer-Announced :
    (byte word dword dword_fits qword_fits : Bool) (c b w d q : Code) {result : Code × ℕ}
    → len b ≡ len c + 1
    → len w ≡ len c + 2
    → len d ≡ len c + 4
    → len q ≡ len c + 8
    → (if byte
        then ok (b, 1)
        else if word
        then ok (w, 2)
        else if dword
        then (do guard dword_fits assertion; ok (d, 4))
        else (do guard qword_fits assertion; ok (q, 8)))
      ≡ ok result
    → Announced (if byte then 1 else if word then 2 else if dword then 4 else 8) c result
integer-Announced true _ _ _ _ c b w d q hb hw hd hq h = returned (Announced 1 c) (hb, refl) h
integer-Announced false true _ _ _ c b w d q hb hw hd hq h = returned (Announced 2 c) (hw, refl) h
integer-Announced false false true fits _ c b w d q hb hw hd hq h =
    returned (Announced 4 c) (hd, refl) (guarded fits _ _ h)
integer-Announced false false false _ fits c b w d q hb hw hd hq h =
    returned (Announced 8 c) (hq, refl) (guarded fits _ _ h)

written : (c : Code) (n v : ℕ) → len (write c (little_endian n v)) ≡ len c + n
written c n v = omega (arith, len-write c (little_endian n v), length-little_endian n v)

reference-Announced :
    (c : Code) (addr : Address) (dword : Bool) {result : Code × ℕ}
    → encode_reference c addr dword ≡ ok result
    → Announced 4 c result
reference-Announced c addr true h =
    let (sym, _, h1) = >>=-eq-ok (demand addr.symbol assertion) _ h in
    let h2 = guarded _ _ _ h1 in
    let ((elf, disp), _, h3) = >>=-eq-ok (elf_text_displacement c.elf sym (length c.val)) _ h2 in
    let here : Code = record c { elf = elf } in returned (Announced 4 c) (written here 4 _, refl) h3
reference-Announced c addr false h =
    let (sym, _, h1) = >>=-eq-ok (demand addr.symbol assertion) _ h in
    let (reloc, _, h2) = >>=-eq-ok (imm_rel_type addr.kind) _ h1 in
    returned (Announced 4 c) (length-append c.val (0 ∷ 0 ∷ 0 ∷ 0 ∷ []), refl) h2

-- The bytes of an immediate operand are those that were announced.
pub encode_immediate-imm_encoding_width :
    (c : Code) (imm : Immediate) (sx_byte_offset : ℕ) (dword : Bool) {result : Code × ℕ}
    → encode_immediate c imm sx_byte_offset dword ≡ ok result
    → (len result.0 ≡ len c + result.1)
      × (result.1 ≡ imm_encoding_width imm (not (sx_byte_offset == 0)) dword)
unfolding encode_immediate imm_encoding_width
encode_immediate-imm_encoding_width c (imm_int w qword) back dword h =
    let marked = if not (back == 0) then or_back c back 0x02 else c in
    integer-Announced (w == 1 || not (back == 0) && in_byte_range 64 qword) (w == 2)
      (w == 4 || dword) (w == 4 || in_32bit_range qword) (w == 8) c _ _ _ _
      (omega (
        arith,
        written marked 1 qword,
        len-if (not (back == 0)) (or_back c back 0x02) c (len-or_back c back 0x02) refl,
      ))
      (written c 2 qword) (written c 4 qword) (written c 8 qword) h
encode_immediate-imm_encoding_width c (imm_addr w addr) back dword h =
    reference-Announced c addr dword h
encode_immediate-imm_encoding_width c (imm_string w string) back dword h = cc

pub len-write_rex : (c : Code) (always : Bool) (rex : ℕ) → len (write_rex c always rex) ≤ len c + 1
len-write_rex c always rex = ground (arith, len-write c (rex ∷ []))

pub len-encode_opcode :
    (c : Code) (enc : Encoding)
    → len (encode_opcode c enc) ≡ len c + (if enc.second == 0 then 1 else 2)
len-encode_opcode c enc =
    let first = len-write c (enc.first ∷ []) in
    let second = len-write (write c (enc.first ∷ [])) (enc.second ∷ []) in
    ground (arith, first, second)

pub len-or_width : (c : Code) (enc : Encoding) (w : ℕ) → len (or_width c enc w) ≡ len c
len-or_width c enc w = len-if _ (or_back c 1 _) c (len-or_back c 1 _) refl

pub len-or_reg_width : (c : Code) (enc : Encoding) (w : ℕ) → len (or_reg_width c enc w) ≡ len c
len-or_reg_width c enc w = len-if _ (or_back c 1 _) c (len-or_back c 1 _) refl
