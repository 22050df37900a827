-- ===== src/Encoding/Mnemonic.antt =====
-- Mnemonics of assembly: the instruction that one stands for, and the one that an instruction has.
pub mod Accepted
use Prim.Native.Nat.{bit_and}
use lacc.Base.{
  ℕ, ◌+◌, ◌-◌, Bool, if◌then◌else◌, leb, ◌==◌, not, ◌&&◌, ◌||◌, Option, none, some, List, [], ◌∷◌,
  ◌++◌, length, get_or, get_elem?, take, Text, text_eq, Run, ok, err, assertion, diagnostic, demand,
  guard, ◌>>=◌, ◌>>◌,
}
use lacc.Tokenize.Token.{codes}
use lacc.Encoding.Defs.{
  width, with_width, InstrOptype, none_ops, imm_op, reg_op, mem_op, opx_tttn, Instruction, Encoding,
}
use lacc.Encoding.Table.{instr_lea, encodings}
use lacc.Encoding.Form.{has_extra}
use lacc.Encoding.Match.{has_optype, match_instruction_encoding, find_encoding}

abbrev pub is_single_width : ℕ → Bool
is_single_width w = w == 1 || w == 2 || w == 4 || w == 8 || w == 16

-- The width of a suffix, 0 for another character.
abbrev pub suffix_width : ℕ → ℕ
suffix_width c =
    if c == b'b'
    then 1
    else if c == b'w'
    then 2
    else if c == b'l'
    then 4
    else if c == b'q'
    then 8
    else 0

-- `sfx`, where the text is the mnemonic of the row, perhaps with a suffix.
abbrev pub read_suffix : Text → Encoding → Option ℕ
read_suffix text enc =
    let before = length text - 1 in
    let sfx = suffix_width (get_or text before 0) in
    if text_eq text enc.mnemonic
    then some 0
    else if enc.suffix && not (sfx == 0) && text_eq (take before text) enc.mnemonic
    then some sfx
    else none

-- The `switch` over the form: a width that is not known is that of the other operand, or of the suffix.
abbrev pub complete_widths : InstrOptype → ℕ → ℕ → ℕ → Run (ℕ × ℕ)
complete_widths none_ops ws wd sfx = ok (ws, wd)
complete_widths imm_op ws wd sfx = ok (ws, wd)
complete_widths reg_op ws wd sfx = ok (ws, wd)
complete_widths mem_op ws wd sfx = ok (ws, wd)
complete_widths _ ws wd sfx =
    if not (ws == 0)
    then ok (ws, if wd == 0 then ws else wd)
    else if not (wd == 0)
    then ok (wd, wd)
    else if not (sfx == 0)
    then ok (sfx, sfx)
    else err diagnostic

abbrev excludes : ℕ → ℕ → Bool
excludes w allowed = not (w == 0) && not (allowed == 0) && bit_and w allowed == 0

abbrev pub with_widths : Instruction → ℕ → ℕ → ℕ → Instruction
with_widths instr opcode ws wd =
    let source = with_width ws instr.source in
    let dest = with_width wd instr.dest in
    record instr { opcode = opcode; source = source; dest = dest }

-- The widths of the operands for a row, `none` where the row does not fit the mnemonic or the widths.
abbrev pub row_widths : Text → Instruction → Encoding → Run (Option (ℕ × ℕ))
row_widths text instr enc =
    let given = if enc.opc == instr_lea then enc.widths0 else width instr.source in
    let ws = if is_single_width enc.widths0 then enc.widths0 else given in
    let wd = if is_single_width enc.widths1 then enc.widths1 else width instr.dest in
    if not (has_optype instr.optype enc)
      || excludes given enc.widths0
      || excludes (width instr.dest) enc.widths1
    then ok none
    else elim (read_suffix text enc) [
      | none ↦ ok none
      | some sfx ↦ do widths ← complete_widths instr.optype ws wd sfx; ok (some widths)
    ]

-- The end of an iteration, with the widths that the row leaves.
abbrev pub try_widths : Instruction → ℕ → Encoding → Option (ℕ × ℕ) → Run (Option Instruction)
try_widths instr i enc none = ok none
try_widths instr i enc (some (ws, wd)) = do
  matches ← match_instruction_encoding (with_widths instr enc.opc ws wd) enc
  let opcode = if enc.opc == 0 then i else enc.opc
  ok (if matches then some (with_widths instr opcode ws wd) else none)

-- An iteration of the loop, on the row `i`.
abbrev pub match_row : Text → Instruction → ℕ → Encoding → Run (Option Instruction)
match_row text instr i enc = do widths ← row_widths text instr enc; try_widths instr i enc widths

abbrev pub first_of : Option Instruction → Run (Option Instruction) → Run (Option Instruction)
first_of (some changed) others = ok (some changed)
first_of none others = others

abbrev pub has_mnemonic : Encoding → Bool
has_mnemonic enc = not (length enc.mnemonic == 0)

-- The loop, from row `i` of the table.
unfoldable pub match_rows : Text → Instruction → ℕ → List Encoding → Run (Option Instruction)
unfolding match_instruction_encoding
match_rows text instr i [] = ok none
match_rows text instr i (enc ∷ rest) =
    let others = match_rows text instr (i + 1) rest in
    if has_mnemonic enc
    then (do found ← match_row text instr i enc; first_of found others)
    else ok none

-- `some` the changed instruction for the result 1, `none` for 0; the text is the first `length` characters.
unfoldable pub mnemonic_match_operands : Text → Instruction → Run (Option Instruction)
unfolding match_rows encodings
mnemonic_match_operands text instr = do
  guard (not (length text == 0)) assertion
  match_rows text instr 0 encodings

abbrev tttn_mnemonics : List Text
tttn_mnemonics =
    codes "o"
    ∷ codes "no"
    ∷ codes "nae"
    ∷ codes "ae"
    ∷ codes "e"
    ∷ codes "ne"
    ∷ codes "na"
    ∷ codes "a"
    ∷ codes "s"
    ∷ codes "ns"
    ∷ codes "p"
    ∷ codes "np"
    ∷ codes "nge"
    ∷ codes "ge"
    ∷ codes "ng"
    ∷ codes "g"
    ∷ []

-- `suffix[w]`
abbrev suffix_of : ℕ → Text
suffix_of w = get_or (0 ∷ b'b' ∷ b'w' ∷ 0 ∷ b'l' ∷ 0 ∷ 0 ∷ 0 ∷ b'q' ∷ []) w 0 ∷ []

abbrev one_suffix : Instruction → Encoding → Text
one_suffix instr enc =
    if not (is_single_width enc.widths0) && leb (width instr.source) 8
    then suffix_of (width instr.source)
    else []

abbrev two_suffixes : Instruction → Encoding → Text
two_suffixes instr enc =
    let ws = width instr.source in
    let wd = width instr.dest in
    let open_dest = not (is_single_width enc.widths1) && leb wd 8 in
    if not (is_single_width enc.widths0) && leb ws 8
    then suffix_of ws ++ (if not (ws == wd) && open_dest then suffix_of wd else [])
    else if open_dest
    then suffix_of wd
    else []

abbrev suffixes : InstrOptype → Instruction → Encoding → Text
suffixes reg_op instr enc = []
suffixes none_ops instr enc = if width instr.source == 0 then [] else one_suffix instr enc
suffixes imm_op instr enc = one_suffix instr enc
suffixes mem_op instr enc = one_suffix instr enc
suffixes _ instr enc = two_suffixes instr enc

-- The bytes that are written to the buffer.
unfoldable pub get_mnemonic : Instruction → Run Text
unfolding find_encoding
get_mnemonic instr = do
  enc ← find_encoding instr
  cond ←
      (if has_extra enc opx_tttn
        then demand (get_elem? tttn_mnemonics instr.cc) assertion
        else ok [])
  ok (enc.mnemonic ++ cond ++ suffixes instr.optype instr enc)
