-- ===== src/Encoding/Mnemonic/Accepted.antt =====
-- Instructions that a mnemonic stands for.
use lacc.Base.{
  ℕ, suc, ◌+◌, ◌≡◌, refl, ap₂, sym, ◌∙◌, arith, Bool, true, false, ◌==◌, ◌&&◌, ◌||◌, not, Option,
  some, none, List, [], ◌∷◌, get_elem?, length, Text, Run, ok, guarded, >>=-eq-ok, ok_injective,
  if◌then◌else◌,
}
use mathlib.Core.Path.{subst}
use mathlib.Core.Option.{some-injective, none-ne-some}
use lacc.Encoding.Defs.{
  with_width, Operand, blank, registr, memory, immediate, imm_int, imm_addr, imm_string,
  InstrOptype, none_ops, imm_op, reg_op, mem_op, reg_reg, reg_mem, mem_reg, imm_reg, imm_mem,
  Instruction, Encoding,
}
use lacc.Encoding.Table.{encodings}
use lacc.Encoding.Match.{match_instruction_encoding, find_encoding}
use lacc.Encoding.Match.Reach.{is_register, is_immediate, has_shape}
use lacc.Encoding.Match.Start.{opcode_of, find_encoding_reaches}
use lacc.Encoding.Mnemonic.{
  with_widths, row_widths, try_widths, match_row, first_of, has_mnemonic, match_rows,
  mnemonic_match_operands,
}

-- The row with number `i` gives the changed instruction.
abbrev Gives : Instruction → ℕ → Encoding → Instruction → Type 0
Gives instr i enc changed =
    (ws : ℕ) × (wd : ℕ) × (match_instruction_encoding (with_widths instr enc.opc ws wd) enc
      ≡ ok true)
    × (changed ≡ with_widths instr (opcode_of i enc) ws wd)

try_widths-Gives :
    (instr : Instruction) (i : ℕ) (enc : Encoding) (widths : Option (ℕ × ℕ)) {changed : Instruction}
    → try_widths instr i enc widths ≡ ok (some changed)
    → Gives instr i enc changed
try_widths-Gives instr i enc none h = absurd (none-ne-some _ (ok_injective h))
try_widths-Gives instr i enc (some (ws, wd)) {changed} h =
    let candidate = with_widths instr enc.opc ws wd in
    let (matches, e, k) = >>=-eq-ok (match_instruction_encoding candidate enc) _ h in
    elim matches
        as (λ b.
          match_instruction_encoding candidate enc ≡ ok b
          → ok (if b then some (with_widths instr (opcode_of i enc) ws wd) else none)
            ≡ ok (some changed)
          → Gives instr i enc changed) [
            | true ↦ λ e k. (ws, wd, e, sym (some-injective _ _ (ok_injective k)))
            | false ↦ λ e k. absurd (none-ne-some _ (ok_injective k))
          ]
      e k

match_row-Gives :
    (text : Text) (instr : Instruction) (i : ℕ) (enc : Encoding) {changed : Instruction}
    → match_row text instr i enc ≡ ok (some changed)
    → Gives instr i enc changed
match_row-Gives text instr i enc {changed} h =
    let (found, e, k) = >>=-eq-ok (row_widths text instr enc) _ h in
    try_widths-Gives instr i enc found k

plus_zero : (i : ℕ) → i ≡ i + 0
plus_zero i = omega arith

zero_plus : (i : ℕ) → 0 + i ≡ i
zero_plus i = omega arith

plus_one : (i n : ℕ) → i + 1 + n ≡ i + suc n
plus_one i n = omega arith

continues :
    (test : Bool) (run : Run (Option Instruction)) {changed : Instruction}
    → (if test then run else ok none) ≡ ok (some changed)
    → run ≡ ok (some changed)
continues true run h = h
continues false run h = absurd (none-ne-some _ (ok_injective h))

match_rows-Gives :
    (text : Text) (instr : Instruction) (i : ℕ) (rows : List Encoding) {changed : Instruction}
    → match_rows text instr i rows ≡ ok (some changed)
    → (k : ℕ) × (enc : Encoding) × (get_elem? rows k ≡ some enc) × Gives instr (i + k) enc changed
unfolding match_rows
match_rows-Gives text instr i [] h = cc
match_rows-Gives text instr i (row ∷ rest) {changed} h =
    let (found, e, k) =
      >>=-eq-ok (match_row text instr i row) _ (continues (has_mnemonic row) _ h) in
    elim found
        as (λ o.
          match_row text instr i row ≡ ok o
          → first_of o (match_rows text instr (i + 1) rest) ≡ ok (some changed)
          → (k : ℕ) × (enc : Encoding) × (get_elem? (row ∷ rest) k ≡ some enc)
            × Gives instr (i + k) enc changed) [
              | some first ↦ λ e k.
                  let given = match_row-Gives text instr i row (e ∙ k) in
                  (0, row, refl, subst (λ n. Gives instr n row changed) (plus_zero i) given)
              | none ↦ λ e k.
                  let (n, enc, at, given) = match_rows-Gives text instr (i + 1) rest k in
                  (suc n, enc, at, subst (λ n. Gives instr n enc changed) (plus_one i n) given)
            ]
      e k

is_register-with_width : (w : ℕ) (op : Operand) → is_register (with_width w op) ≡ is_register op
is_register-with_width w (blank _) = refl
is_register-with_width w (registr _ r) = refl
is_register-with_width w (memory _ addr) = refl
is_register-with_width w (immediate (imm_int _ q)) = refl
is_register-with_width w (immediate (imm_addr _ q)) = refl
is_register-with_width w (immediate (imm_string _ q)) = refl

is_immediate-with_width : (w : ℕ) (op : Operand) → is_immediate (with_width w op) ≡ is_immediate op
is_immediate-with_width w (blank _) = refl
is_immediate-with_width w (registr _ r) = refl
is_immediate-with_width w (memory _ addr) = refl
is_immediate-with_width w (immediate (imm_int _ q)) = refl
is_immediate-with_width w (immediate (imm_addr _ q)) = refl
is_immediate-with_width w (immediate (imm_string _ q)) = refl

-- The shape does not depend on the widths.
has_shape-with_width :
    (t : InstrOptype) (source dest : Operand) (ws wd : ℕ)
    → has_shape t (with_width ws source) (with_width wd dest) ≡ has_shape t source dest
has_shape-with_width none_ops source dest ws wd = refl
has_shape-with_width imm_op source dest ws wd = is_immediate-with_width ws source
has_shape-with_width reg_op source dest ws wd = refl
has_shape-with_width mem_op source dest ws wd = refl
has_shape-with_width reg_reg source dest ws wd =
    ap₂ (λ a b. a && b) (is_register-with_width ws source) (is_register-with_width wd dest)
has_shape-with_width reg_mem source dest ws wd = refl
has_shape-with_width mem_reg source dest ws wd = refl
has_shape-with_width imm_reg source dest ws wd =
    ap₂ (λ a b. a && b) (is_immediate-with_width ws source) (is_register-with_width wd dest)
has_shape-with_width imm_mem source dest ws wd = is_immediate-with_width ws source

opcode_allowed : (i : ℕ) (enc : Encoding) → (opcode_of i enc == enc.opc || enc.opc == 0) ≡ true
opcode_allowed i enc = ground arith

-- The opcode serves only in the assertion.
match_opcode :
    (instr : Instruction) (i : ℕ) (enc : Encoding) (ws wd : ℕ)
    → match_instruction_encoding (with_widths instr enc.opc ws wd) enc ≡ ok true
    → match_instruction_encoding (with_widths instr (opcode_of i enc) ws wd) enc ≡ ok true
unfolding match_instruction_encoding
match_opcode instr i enc ws wd h =
    rw (opcode_allowed i enc) (guarded (enc.opc == enc.opc || enc.opc == 0) _ _ h)

-- If `mnemonic_match_operands` accepts an instruction that has operands, of the kinds that its form says,
-- `find_encoding` returns a row of the table for the instruction that it is changed to.
pub mnemonic_match_operands-find_encoding :
    (text : Text) (instr changed : Instruction)
    → has_shape instr.optype instr.source instr.dest ≡ true
    → mnemonic_match_operands text instr ≡ ok (some changed)
    → (enc : Encoding) × (find_encoding changed ≡ ok enc)
unfolding mnemonic_match_operands
mnemonic_match_operands-find_encoding text instr changed shape h =
    let found = guarded (not (length text == 0)) _ _ h in
    let (k, enc, at, given) = match_rows-Gives text instr 0 encodings found in
    let (ws, wd, matches, same) = subst (λ n. Gives instr n enc changed) (zero_plus k) given in
    let target = with_widths instr (opcode_of k enc) ws wd in
    let (row, e) =
      find_encoding_reaches target k enc at refl
        (has_shape-with_width instr.optype instr.source instr.dest ws wd ∙ shape)
        (match_opcode instr k enc ws wd matches) in
    (row, subst (λ instr. find_encoding instr ≡ ok row) (sym same) e)
