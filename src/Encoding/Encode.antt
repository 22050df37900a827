-- ===== src/Encoding/Encode.antt =====
-- `encode`: an instruction as machine code.
use lacc.Base.{ℕ, true, false, if◌then◌else◌, ◌==◌, not, [], ◌∷◌, Run, ok, err, undefined, ◌>>=◌}
use lacc.Encoding.Defs.{
  Address, Operand, memory, width, InstrOptype, none_ops, imm_op, reg_op, mem_op, reg_reg, reg_mem,
  mem_reg, imm_reg, imm_mem, Instruction, Encoding,
}
use lacc.Encoding.Code.{Elf, Code, write}
use lacc.Encoding.Table.{instr_cvtsi2s}
use lacc.Encoding.Form.{
  encode_reg_reg, encode_mem_reg, encode_imm_reg, encode_imm_mem, encode_none, encode_reg,
  encode_mem, encode_imm,
}
use lacc.Encoding.Match.{register, immediate_of, find_encoding}

-- `mem.addr`
abbrev pub address_of : Operand → Run Address
address_of (memory w addr) = ok addr
address_of _ = err undefined

abbrev pub operand_size : Instruction → ℕ
operand_size instr = elim instr.optype [
  | none_ops ↦ width instr.source
  | imm_op ↦ width instr.source
  | reg_op ↦ width instr.source
  | mem_op ↦ width instr.source
  | _ ↦ if instr.opcode == instr_cvtsi2s then width instr.source else width instr.dest
]

-- The prefixes, before the bytes of the form.
abbrev pub prefixed : Elf → Instruction → Encoding → Code
prefixed elf instr enc =
    let c : Code = record { val = enc.prefix; elf = elf } in
    let more = if not (instr.prefix == 0) then write c (instr.prefix ∷ []) else c in
    if operand_size instr == 2 then write more (0x66 ∷ []) else more

-- The cases of the `switch` over `optype`.
unfoldable pub encode_form : InstrOptype → Code → Instruction → Encoding → Run Code
encode_form none_ops c instr enc = ok (encode_none c enc (operand_size instr))
encode_form reg_op c instr enc = do
  r ← register instr.source
  encode_reg c enc (operand_size instr) r instr.cc
encode_form mem_op c instr enc = do
  addr ← address_of instr.source
  encode_mem c enc (operand_size instr) addr
encode_form imm_op c instr enc = do
  imm ← immediate_of instr.source
  encode_imm c enc (operand_size instr) imm instr.cc
encode_form reg_reg c instr enc = do
  from ← register instr.source
  to ← register instr.dest
  if enc.reverse
      then encode_reg_reg c enc (width instr.source) (operand_size instr) to from
      else encode_reg_reg c enc (width instr.source) (operand_size instr) from to
encode_form mem_reg c instr enc = do
  addr ← address_of instr.source
  r ← register instr.dest
  encode_mem_reg c enc (operand_size instr) true (width instr.source) addr r
encode_form reg_mem c instr enc = do
  addr ← address_of instr.dest
  r ← register instr.source
  encode_mem_reg c enc (operand_size instr) false (width instr.dest) addr r
encode_form imm_reg c instr enc = do
  imm ← immediate_of instr.source
  r ← register instr.dest
  encode_imm_reg c enc (operand_size instr) imm r
encode_form imm_mem c instr enc = do
  imm ← immediate_of instr.source
  addr ← address_of instr.dest
  encode_imm_mem c enc (operand_size instr) imm addr

unfoldable pub encode : Elf → Instruction → Run Code
unfolding find_encoding encode_form
encode elf instr = do
  enc ← find_encoding instr
  encode_form instr.optype (prefixed elf instr enc) instr enc
