-- ===== src/Encoding/Length/Whole.antt =====
-- An instruction takes at most 15 bytes.
use lacc.Base.{
  ℕ, ◌+◌, ◌≤◌, ◌≡◌, refl, Bool, true, false, if◌then◌else◌, leb, ◌==◌, not, ◌&&◌, ◌||◌, ◌⊎◌,
  returned, arith, [], ◌∷◌, length, ok, >>=-eq-ok, inl, inr,
}
use mathlib.Core.Path.{subst}
use lacc.Encoding.Defs.{
  imm_width, Immediate, imm_int, imm_addr, imm_string, Operand, registr, memory, blank, immediate,
  width, InstrOptype, none_ops, imm_op, reg_op, mem_op, reg_reg, reg_mem, mem_reg, imm_reg, imm_mem,
  opx_s, Instruction, Encoding,
}
use lacc.Encoding.Code.{Elf, Code, write}
use lacc.Encoding.Table.{instr_cmp, encodings}
use lacc.Encoding.Immediate.{imm_encoding_width}
use lacc.Encoding.Form.{has_extra, encode_reg_reg}
use lacc.Encoding.Match.{register, immediate_of, has_optype, find_encoding}
use lacc.Encoding.Match.Found.{
  all_rows, match_instruction_encoding-has_optype, find_encoding-match_instruction_encoding,
}
use lacc.Encoding.Encode.{address_of, operand_size, prefixed, encode_form, encode}
use lacc.Encoding.Length.{len, len-write}
use lacc.Encoding.Length.Bounds.{
  opcode_len, len-encode_none, len-encode_mem, len-encode_mem_reg, len-encode_imm_mem,
}
use lacc.Encoding.Length.Registers.{
  len-encode_imm, len-encode_reg, len-encode_reg_reg, len-encode_imm_reg,
}

opcode_len-le : (enc : Encoding) → opcode_len enc ≤ 2
opcode_len-le enc = ground arith

len-either :
    (test : Bool) (c : Code) (enc : Encoding) (ws w from to : ℕ) {last : Code}
    → (if test then encode_reg_reg c enc ws w to from else encode_reg_reg c enc ws w from to)
      ≡ ok last
    → len last ≤ len c + 2 + opcode_len enc
len-either true c enc ws w from to h = len-encode_reg_reg c enc ws w to from h
len-either false c enc ws w from to h = len-encode_reg_reg c enc ws w from to h

-- The bytes after the prefixes in every form but the one with an immediate and a memory operand.
len-encode_form :
    (t : InstrOptype) (c : Code) (instr : Instruction) (enc : Encoding) {last : Code}
    → encode_form t c instr enc ≡ ok last
    → (t ≡ imm_mem) ⊎ (len last ≤ len c + 12)
unfolding encode_form
len-encode_form none_ops c instr enc h =
    let n = operand_size instr in
    inr (
      returned (λ last. len last ≤ len c + 12)
        (omega (arith, opcode_len-le enc, len-encode_none c enc n)) h)
len-encode_form imm_op c instr enc h =
    let (imm, _, k) = >>=-eq-ok (immediate_of instr.source) _ h in
    inr (omega (arith, opcode_len-le enc, len-encode_imm c enc _ imm _ k))
len-encode_form reg_op c instr enc h =
    let (r, _, k) = >>=-eq-ok (register instr.source) _ h in
    inr (omega (arith, opcode_len-le enc, len-encode_reg c enc _ r _ k))
len-encode_form mem_op c instr enc h =
    let (addr, _, k) = >>=-eq-ok (address_of instr.source) _ h in
    inr (omega (arith, opcode_len-le enc, len-encode_mem c enc _ addr k))
len-encode_form reg_reg c instr enc {last} h =
    let (from, _, k) = >>=-eq-ok (register instr.source) _ h in
    let (to, _, l) = >>=-eq-ok (register instr.dest) _ k in
    inr (omega (arith, opcode_len-le enc, len-either enc.reverse c enc _ _ from to l))
len-encode_form reg_mem c instr enc h =
    let (addr, _, k) = >>=-eq-ok (address_of instr.dest) _ h in
    let (r, _, l) = >>=-eq-ok (register instr.source) _ k in
    inr (omega (arith, opcode_len-le enc, len-encode_mem_reg c enc _ false _ addr r l))
len-encode_form mem_reg c instr enc h =
    let (addr, _, k) = >>=-eq-ok (address_of instr.source) _ h in
    let (r, _, l) = >>=-eq-ok (register instr.dest) _ k in
    inr (omega (arith, opcode_len-le enc, len-encode_mem_reg c enc _ true _ addr r l))
len-encode_form imm_reg c instr enc h =
    let (imm, _, k) = >>=-eq-ok (immediate_of instr.source) _ h in
    let (r, _, l) = >>=-eq-ok (register instr.dest) _ k in
    inr (omega (arith, opcode_len-le enc, len-encode_imm_reg c enc _ imm r l))
len-encode_form imm_mem c instr enc h = inl refl

len-encode_form_imm_mem :
    (c : Code) (instr : Instruction) (enc : Encoding) {last : Code}
    → encode_form imm_mem c instr enc ≡ ok last
    → (imm : Immediate) × (immediate_of instr.source ≡ ok imm)
      × (len last
          ≤ len c
            + 7
            + opcode_len enc
            + imm_encoding_width imm (has_extra enc opx_s) enc.is_displacement_or_dword)
unfolding encode_form
len-encode_form_imm_mem c instr enc h =
    let (imm, e, k) = >>=-eq-ok (immediate_of instr.source) _ h in
    let (addr, _, l) = >>=-eq-ok (address_of instr.dest) _ k in
    (imm, e, len-encode_imm_mem c enc _ imm addr l)

len-optional :
    (test : Bool) (c : Code) (byte : ℕ) → len (if test then write c (byte ∷ []) else c) ≤ len c + 1
len-optional true c byte = omega (arith, len-write c (byte ∷ []))
len-optional false c byte = omega arith

len-prefixed :
    (elf : Elf) (instr : Instruction) (enc : Encoding)
    → len (prefixed elf instr enc) ≤ length enc.prefix + 2
len-prefixed elf instr enc =
    let c : Code = record { val = enc.prefix; elf = elf } in
    let test = not (instr.prefix == 0) in
    let more = if test then write c (instr.prefix ∷ []) else c in
    omega
      (arith, len-optional test c instr.prefix, len-optional (operand_size instr == 2) more 0x66)

-- Whether a row has at most one prefix, and one for an immediate and a memory operand none, a single byte of opcode,
-- and immediates of at most four bytes unless it is that of a comparison.
abbrev is_compact : Encoding → Bool
is_compact enc =
    leb (length enc.prefix) 1
    && (not (has_optype imm_mem enc)
        || length enc.prefix == 0
          && enc.second == 0
          && (enc.is_displacement_or_dword || enc.opc == instr_cmp))

compact_table : all_rows is_compact encodings ≡ true
unfolding encodings
compact_table = refl

-- The widths of an immediate that takes at most four bytes.
abbrev pub is_short : ℕ → Bool
is_short w = w == 1 || w == 2 || w == 4

imm_encoding_width-short :
    (imm : Immediate) (sx dword : Bool)
    → (dword || is_short (imm_width imm)) ≡ true
    → imm_encoding_width imm sx dword ≤ 4
unfolding imm_encoding_width
imm_encoding_width-short (imm_int w qword) sx dword h = ground arith
imm_encoding_width-short (imm_addr w addr) sx dword h = omega arith
imm_encoding_width-short (imm_string w string) sx dword h = omega arith

immediate_of-width :
    (op : Operand) {imm : Immediate} → immediate_of op ≡ ok imm → width op ≡ imm_width imm
immediate_of-width (immediate imm) h = returned (λ i. imm_width imm ≡ imm_width i) refl h
immediate_of-width (registr w r) h = cc
immediate_of-width (memory w addr) h = cc
immediate_of-width (blank w) h = cc

-- An immediate and a memory operand: no prefix of the row, one byte of opcode, a short immediate.
compact_imm_mem :
    (instr : Instruction) (enc : Encoding)
    → is_compact enc ≡ true
    → has_optype imm_mem enc ≡ true
    → (instr.opcode == enc.opc || enc.opc == 0) ≡ true
    → (instr.opcode ≡ instr_cmp → is_short (width instr.source) ≡ true)
    → (length enc.prefix ≡ 0)
      × (opcode_len enc ≡ 1)
      × ((enc.is_displacement_or_dword || is_short (width instr.source)) ≡ true)
compact_imm_mem instr enc h1 h2 h3 h4 = (ground arith, ground arith, ground arith)

one_prefix : (enc : Encoding) → is_compact enc ≡ true → length enc.prefix ≤ 1
one_prefix enc h = ground arith

length-imm_mem :
    (start : Code) (instr : Instruction) (enc : Encoding) {last : Code}
    → encode_form imm_mem start instr enc ≡ ok last
    → len start ≤ 2
    → opcode_len enc ≡ 1
    → (enc.is_displacement_or_dword || is_short (width instr.source)) ≡ true
    → len last ≤ 15
length-imm_mem start instr enc h few one short =
    let (imm, e, most) = len-encode_form_imm_mem start instr enc h in
    let fits =
      subst (λ w. (enc.is_displacement_or_dword || is_short w) ≡ true)
        (immediate_of-width instr.source e) short in
    omega (
      arith,
      most,
      imm_encoding_width-short imm (has_extra enc opx_s) enc.is_displacement_or_dword fits,
    )

-- If `encode` returns, the instruction takes at most 15 bytes, the size of `val`, unless it compares memory
-- with an immediate operand whose width is not 1, 2 or 4.
pub length-encode :
    (elf : Elf) (instr : Instruction) (c : Code)
    → encode elf instr ≡ ok c
    → (instr.opcode ≡ instr_cmp → instr.optype ≡ imm_mem → is_short (width instr.source) ≡ true)
    → length c.val ≤ 15
unfolding encode
length-encode elf instr c h short =
    let (enc, e, k) = >>=-eq-ok (find_encoding instr) _ h in
    let (compact, matches) =
      find_encoding-match_instruction_encoding is_compact instr compact_table e in
    let (same, has) = match_instruction_encoding-has_optype instr enc matches in
    let start = len-prefixed elf instr enc in
    elim (len-encode_form instr.optype (prefixed elf instr enc) instr enc k) [
      | inr few ↦ omega (arith, start, few, one_prefix enc compact)
      | inl t ↦
          let (none, one, fits) =
            compact_imm_mem instr enc compact (subst (λ t. has_optype t enc ≡ true) t has) same
              (λ o. short o t) in
          let form = subst (λ t. encode_form t (prefixed elf instr enc) instr enc ≡ ok c) t k in
          length-imm_mem (prefixed elf instr enc) instr enc form (omega arith) one fits
    ]
