-- ===== src/Encoding/Relocation.antt =====
-- Where a relocation of an instruction points.
use Prim.Native.Nat.{bit_or}
use lacc.Base.{
  ℕ, ◌+◌, ◌-◌, ◌*◌, ◌/◌, ◌%◌, ◌^◌, ◌<◌, ◌≤◌, ◌≡◌, refl, ap, Bool, true, false, if◌then◌else◌, ◌==◌,
  ==_iff, not, ◌&&◌, ◌||◌, sym, ◌∙◌, arith, some, none, [], ◌∷◌, ◌++◌, length, length-append, ok,
  assertion, guard, guarded, guard-eq-ok, returned, ◌>>◌, >>=-eq-ok,
}
use lacc.Encoding.Defs.{Address, imm_int, opx_s, opx_w, Encoding}
use lacc.Encoding.Code.{Relocation, Code, or_back, write, RelType, elf_add_relocation}
use mathlib.Core.Path.{subst}
use lacc.Encoding.Address.{
  in_byte_range, in_32bit_range, encode_modrm_sib_disp, rel_type, encode_symbol, encode_address,
}
use lacc.Encoding.Immediate.{encode_immediate, imm_encoding_width}
use lacc.Encoding.Form.{
  rex_base, rex_w, rex_x, rex_b, has_extra, write_rex, encode_opcode, or_width, encode_imm_mem,
}
use lacc.Encoding.Length.Registers.{imm_encoding_width-le}
use lacc.Encoding.Length.{len, encode_immediate-imm_encoding_width}

elf_if : (test : Bool) (c d : Code) → c.elf ≡ d.elf → (if test then c else d).elf ≡ d.elf
elf_if true c d h = h
elf_if false c d h = refl

-- The bytes before the memory operand leave the records alone.
elf-head :
    (c : Code) (always : Bool) (rex : ℕ) (enc : Encoding) (w : ℕ)
    → (or_width (encode_opcode (write_rex c always rex) enc) enc w).elf ≡ c.elf
elf-head c always rex enc w =
    let start = write_rex c always rex in
    let whole = encode_opcode start enc in
    let one = write start (enc.first ∷ []) in
    elf_if (has_extra enc opx_w) (or_back whole 1 _) whole refl
    ∙ elf_if (not (enc.second == 0)) (write one (enc.second ∷ [])) one refl
    ∙ elf_if (not (rex == rex_base) || always) (write c (rex ∷ [])) c refl

-- An integer operand leaves the records alone.
elf_four :
    (b w d bf df : Bool) (x1 x2 x3 x4 c : Code) {result : Code × ℕ}
    → x1.elf ≡ c.elf
    → x2.elf ≡ c.elf
    → x3.elf ≡ c.elf
    → x4.elf ≡ c.elf
    → (if b
        then ok (x1, 1)
        else if w
        then ok (x2, 2)
        else if d
        then (do guard bf assertion; ok (x3, 4))
        else (do guard df assertion; ok (x4, 8)))
      ≡ ok result
    → result.0.elf ≡ c.elf
elf_four true _ _ _ _ x1 x2 x3 x4 c h1 h2 h3 h4 h = returned (λ r. r.0.elf ≡ c.elf) h1 h
elf_four false true _ _ _ x1 x2 x3 x4 c h1 h2 h3 h4 h = returned (λ r. r.0.elf ≡ c.elf) h2 h
elf_four false false true bf _ x1 x2 x3 x4 c h1 h2 h3 h4 h =
    returned (λ r. r.0.elf ≡ c.elf) h3 (guarded bf _ _ h)
elf_four false false false _ df x1 x2 x3 x4 c h1 h2 h3 h4 h =
    returned (λ r. r.0.elf ≡ c.elf) h4 (guarded df _ _ h)

elf-encode_immediate :
    (c : Code) (w qword back : ℕ) (dword : Bool) {result : Code × ℕ}
    → encode_immediate c (imm_int w qword) back dword ≡ ok result
    → result.0.elf ≡ c.elf
unfolding encode_immediate
elf-encode_immediate c w qword back dword h =
    elf_four (w == 1 || not (back == 0) && in_byte_range 64 qword) (w == 2) (w == 4 || dword)
      (w == 4 || in_32bit_range qword) (w == 8) _ _ _ _ c
      (elf_if (not (back == 0)) (or_back c back 0x02) c refl) refl refl refl h

-- What is known of the code after an address that is relative to a symbol.
abbrev Referred : Code → ℕ → ℕ → Code × ℕ → Type 0
Referred c sym rest result =
    (type : RelType) × (result.0.elf ≡ elf_add_relocation c.elf sym type (len c + 1) rest)
    × (len result.0 ≡ len c + 5)

encode_address-Referred :
    (c : Code) (reg : ℕ) (addr : Address) (addend sym : ℕ) {result : Code × ℕ}
    → addr.symbol ≡ some sym
    → encode_address c reg addr addend ≡ ok result
    → Referred c sym ((addr.displacement + 2 ^ 32 - addend) % 2 ^ 32) result
unfolding encode_address
encode_address-Referred c reg addr addend sym {result} named h =
    let k : encode_symbol c sym reg addr addend ≡ ok result =
      subst
        (λ o.
          elim o [
            | some sym ↦ encode_symbol c sym reg addr addend
            | none ↦ encode_modrm_sib_disp c reg addr
          ]
          ≡ ok result)
        named h in
    let (type, _, l) = >>=-eq-ok (rel_type addr.kind) _ k in
    let first = bit_or ((reg % 8) * 8) 0x5 in
    let one : length (c.val ++ first ∷ []) ≡ len c + 1 = length-append c.val (first ∷ []) in
    let rest = (addr.displacement + 2 ^ 32 - addend) % 2 ^ 32 in
    returned (Referred c sym rest)
      (
        type,
        ap (λ n. elf_add_relocation c.elf sym type n rest) one,
        omega (arith, one, length-append (c.val ++ first ∷ []) (0 ∷ 0 ∷ 0 ∷ 0 ∷ [])),
      )
      l

-- One relocation is added, and counts from the end of the code.
abbrev Points : Code → ℕ → ℕ → Code → Type 0
Points c sym displacement last =
    (reloc : Relocation) × (last.elf.relocations ≡ c.elf.relocations ++ reloc ∷ [])
    × (reloc.symbol ≡ sym)
    × (reloc.offset + 4 ≤ c.elf.text_size + length last.val)
    × ((reloc.addend + (c.elf.text_size + length last.val - (reloc.offset + 4))) % 2 ^ 32
        ≡ displacement)

points :
    (c sized code last : Code) (sym displacement after : ℕ) (type : RelType)
    → sized.elf ≡ c.elf
    → code.elf
      ≡ elf_add_relocation sized.elf sym type
          (len sized + 1)
          ((displacement + 2 ^ 32 - after) % 2 ^ 32)
    → last.elf ≡ code.elf
    → len last ≡ len sized + 5 + after
    → after ≤ 8
    → displacement < 2 ^ 32
    → Points c sym displacement last
unfolding elf_add_relocation
points c sized code last sym displacement after type h1 h2 h3 h4 h5 h6 =
    let addend = (displacement + 2 ^ 32 - after) % 2 ^ 32 in
    let added = h3 ∙ h2 ∙ ap (λ elf. elf_add_relocation elf sym type (len sized + 1) addend) h1 in
    let reloc : Relocation = record {
      symbol = sym;
      type = type;
      offset = c.elf.text_size + (len sized + 1);
      addend = addend;
    } in
    (reloc, ap (λ elf. elf.relocations) added, refl, omega arith, omega arith)

-- If `encode_imm_mem` returns for an integer and an operand relative to a symbol, with a displacement of 32
-- bits, it adds one relocation, for the symbol. Where the four bytes of the relocation end, the distance
-- to the end of the instruction is what the addend lacks to the displacement of the operand, modulo
-- 2 ^ 32.
pub encode_imm_mem-Relocation :
    (c : Code) (enc : Encoding) (w iw qword : ℕ) (b : Address) (sym : ℕ) (last : Code)
    → b.symbol ≡ some sym
    → b.displacement < 2 ^ 32
    → encode_imm_mem c enc w (imm_int iw qword) b ≡ ok last
    → (reloc : Relocation) × (last.elf.relocations ≡ c.elf.relocations ++ reloc ∷ [])
      × (reloc.symbol ≡ sym)
      × (reloc.offset + 4 ≤ c.elf.text_size + length last.val)
      × ((reloc.addend + (c.elf.text_size + length last.val - (reloc.offset + 4))) % 2 ^ 32
          ≡ b.displacement)
unfolding encode_imm_mem elf_add_relocation
encode_imm_mem-Relocation c enc w iw qword b sym last named small h =
    let rex = bit_or (bit_or (bit_or rex_base (rex_w w)) (rex_x b)) (rex_b b.base) in
    let sized = or_width (encode_opcode (write_rex c false rex) enc) enc w in
    let s = has_extra enc opx_s in
    let dword = enc.is_displacement_or_dword in
    let imm = imm_int iw qword in
    let after = imm_encoding_width imm s dword in
    let ((code, d), e, k) = >>=-eq-ok (encode_address sized (enc.modrm / 8 % 8) b after) _ h in
    let ((done, n), f, l) =
      >>=-eq-ok (encode_immediate code imm (if s then d + 1 else 0) dword) _ k in
    let (type, record_of, five) = encode_address-Referred sized _ b after sym named e in
    let announced =
      guard-eq-ok (n == after) assertion (>>=-eq-ok (guard (n == after) assertion) _ l).1 in
    let lengths = encode_immediate-imm_encoding_width code imm _ dword f in
    returned (Points c sym b.displacement)
      (points c sized code done sym b.displacement after type (elf-head c false rex enc w) record_of
        (elf-encode_immediate code iw qword _ dword f)
        (omega (arith, five, lengths, (==_iff n after).0 announced))
        (imm_encoding_width-le imm s dword) small)
      (guarded (n == after) _ _ l)
