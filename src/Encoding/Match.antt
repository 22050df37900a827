-- ===== src/Encoding/Match.antt =====
-- The row of the table for an instruction.
pub mod Found
pub mod Reach
pub mod Start
use Prim.Native.Nat.{bit_and}
use lacc.Base.{
  ℕ, ◌-◌, Bool, true, false, if◌then◌else◌, ◌==◌, not, ◌&&◌, ◌||◌, none, some, List, [], ◌∷◌,
  get_elem?, drop, Run, ok, err, assertion, undefined, diagnostic, demand, guard, ◌>>=◌, ◌>>◌,
}
use lacc.Encoding.Defs.{
  reg_ax, reg_cx, Immediate, Operand, registr, immediate, width, InstrOptype, imm_op, imm_reg,
  imm_mem, optype_bits, Instruction, Implicit, impl_none, impl_cx, impl_ax, Encoding,
}
use lacc.Encoding.Table.{encodings}
use lacc.Encoding.Immediate.{is_32_bit_imm}

-- `op.reg.r`, of an operand that is no register undefined.
abbrev pub register : Operand → Run ℕ
register (registr w r) = ok r
register _ = err undefined

abbrev pub has_immediate : InstrOptype → Bool
has_immediate imm_op = true
has_immediate imm_reg = true
has_immediate imm_mem = true
has_immediate _ = false

-- `source.imm`
abbrev pub immediate_of : Operand → Run Immediate
immediate_of (immediate imm) = ok imm
immediate_of _ = err undefined

abbrev pub fits_dword : Instruction → Encoding → Run Bool
fits_dword instr enc =
    if has_immediate instr.optype && enc.is_displacement_or_dword
    then (do imm ← immediate_of instr.source; ok (is_32_bit_imm imm))
    else ok true

-- An iteration of the loop over the operands.
abbrev pub fits_implicit : Implicit → Operand → Run Bool
fits_implicit impl_none op = ok true
fits_implicit impl_ax op = do r ← register op; ok (r == reg_ax)
fits_implicit impl_cx op = do r ← register op; ok (r == reg_cx)

abbrev pub fits_widths : Instruction → Encoding → Bool
fits_widths instr enc =
    (enc.widths0 == 0 || not (bit_and enc.widths0 (width instr.source) == 0))
    && (width instr.dest == 0
        || enc.widths1 == 0
        || not (bit_and enc.widths1 (width instr.dest) == 0))

abbrev pub has_optype : InstrOptype → Encoding → Bool
has_optype t enc = optype_bits t == bit_and enc.optype (optype_bits t)

-- The tests are made in turn: one that fails ends the function.
infixr 4 ◌and_then◌
abbrev pub ◌and_then◌ : Run Bool → Run Bool → Run Bool
test and_then more = do holds ← test; if holds then more else ok false

unfoldable pub match_instruction_encoding : Instruction → Encoding → Run Bool
match_instruction_encoding instr enc = do
  guard (instr.opcode == enc.opc || enc.opc == 0) assertion
  ok (has_optype instr.optype enc)
      and_then fits_dword instr enc
      and_then fits_implicit enc.implicit0 instr.source
      and_then fits_implicit enc.implicit1 instr.dest
      and_then ok (fits_widths instr enc)

-- The test of the loop, on the rows after the current one.
abbrev pub next_row : Instruction → List Encoding → Run Encoding → Run Encoding
next_row instr [] next = err undefined
next_row instr (following ∷ rest) next =
    if following.opc == instr.opcode then next else err diagnostic

-- The loop from the row that the list begins with.
unfoldable pub find_from : Instruction → List Encoding → Run Encoding
unfolding match_instruction_encoding
find_from instr [] = err undefined
find_from instr (enc ∷ rest) = do
  let next = find_from instr rest
  matches ← match_instruction_encoding instr enc
  if matches then ok enc else next_row instr rest next

unfoldable pub find_encoding : Instruction → Run Encoding
unfolding find_from
find_encoding instr = do
  let i = instr.opcode
  enc ← demand (get_elem? encodings i) undefined
  guard (enc.opc == 0 || enc.opc == i) assertion
  guard
      (i == 0
        || elim (get_elem? encodings (i - 1)) [ some before ↦ not (before.opc == i) | none ↦ true ])
      assertion
  find_from instr (drop i encodings)
