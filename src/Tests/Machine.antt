-- ===== src/Tests/Machine.antt =====
-- Instructions and their bytes.
use lacc.Base.{
  ℕ, true, none, some, List, [], ◌∷◌, Run, ok, err, ◌≡◌, refl, ◌==◌, ◌++◌, ◌+◌, ◌-◌, ◌%◌, ◌^◌, ◌≤◌,
  length, get_or, arith,
}
use lacc.Encoding.Defs.{
  Address, addr_normal, imm_int, Operand, registr, memory, immediate, InstrOptype, reg_reg, mem_reg,
  reg_mem, imm_reg, imm_mem, Instruction, Encoding,
}
use lacc.Encoding.Code.{
  Elf, Code, Relocation, write, r_x86_64_pc32, little_endian, elf_add_relocation,
  elf_text_displacement,
}
use lacc.Encoding.Table.{
  instr_add, instr_mov, instr_cmp, instr_sub, instr_movsx, end_of_table, encodings,
}
use lacc.Tokenize.Token.{codes}
use lacc.Encoding.Address.{encode_modrm_sib_disp, encode_address}
use lacc.Encoding.Address.Decode.{read_operand}
use lacc.Encoding.Address.Decode.RoundTrip.{IsOperand, encode_modrm_sib_disp-read_operand}
use lacc.Encoding.Length.Whole.{length-encode}
use lacc.Encoding.Match.{match_instruction_encoding, find_encoding}
use lacc.Encoding.Mnemonic.{match_rows, mnemonic_match_operands}
use lacc.Encoding.Mnemonic.Accepted.{mnemonic_match_operands-find_encoding}
use lacc.Encoding.Relocation.{encode_imm_mem-Relocation}
use lacc.Encoding.Immediate.{encode_immediate, imm_encoding_width, is_32_bit_imm}
use lacc.Encoding.Form.{encode_imm_reg, encode_reg_reg, encode_mem_reg, encode_imm_mem}
use lacc.Encoding.Flush.{
  read_int, flush_from, elf_flush_text_displacements,
  elf_flush_text_displacements-elf_text_displacement,
}
use lacc.Encoding.Encode.{encode}

abbrev no_elf : Elf
no_elf = record {
  text_size = 100;
  is_label = λ s. s == 9;
  stack_offset = λ s. 0;
  relocations = [];
  displacements = [];
}

abbrev bytes : Run Code → List ℕ
bytes (ok c) = c.val
bytes (err f) = []

abbrev instruction : ℕ → InstrOptype → Operand → Operand → Instruction
instruction opcode optype source dest = record {
  opcode = opcode;
  cc = 0;
  prefix = 0;
  optype = optype;
  source = source;
  dest = dest;
}

abbrev at_register : ℕ → ℕ → ℕ → ℕ → Address
at_register base index scale displacement = record {
  kind = addr_normal;
  symbol = none;
  displacement = displacement;
  base = base;
  index = index;
  scale = scale;
}

-- `add $8, %rsp`
add_stack :
    bytes (encode no_elf (instruction instr_add imm_reg (immediate (imm_int 8 8)) (registr 8 5)))
    ≡ (0x48 ∷ 0x83 ∷ 0xC4 ∷ 8 ∷ [])
unfolding encode encodings encode_imm_reg encode_reg_reg encode_mem_reg encode_imm_mem
    encode_address encode_modrm_sib_disp encode_immediate imm_encoding_width is_32_bit_imm
    little_endian
add_stack = refl

-- `mov -8(%rbp), %eax`
load_local :
    bytes (
      encode no_elf
        (instruction instr_mov mem_reg (memory 4 (at_register 6 0 0 (0xFFFFFFF8))) (registr 4 1)))
    ≡ (0x8B ∷ 0x45 ∷ 0xF8 ∷ [])
unfolding encode encodings encode_imm_reg encode_reg_reg encode_mem_reg encode_imm_mem
    encode_address encode_modrm_sib_disp encode_immediate imm_encoding_width is_32_bit_imm
    little_endian
load_local = refl

-- `cmpq $0x1122334455, 0x12345678(%r8, %r9, 8)` takes 16 bytes.
wide_compare :
    bytes (
      encode no_elf (
        instruction instr_cmp imm_mem
          (immediate (imm_int 8 0x1122334455))
          (memory 8 (at_register 9 10 8 0x12345678))))
    ≡ (0x4B ∷ 0x81 ∷ 0xBC ∷ 0xC8 ∷ 0x78 ∷ 0x56 ∷ 0x34 ∷ 0x12 ∷ 0x55 ∷ 0x44 ∷ 0x33 ∷ 0x22 ∷ 0x11 ∷ 0
        ∷ 0 ∷ 0 ∷ [])
unfolding encode encodings encode_imm_reg encode_reg_reg encode_mem_reg encode_imm_mem
    encode_address encode_modrm_sib_disp encode_immediate imm_encoding_width is_32_bit_imm
    little_endian
wide_compare = refl

-- `movslq %ecx, %r10`
widen :
    bytes (encode no_elf (instruction instr_movsx reg_reg (registr 4 2) (registr 8 11)))
    ≡ (0x4C ∷ 0x63 ∷ 0xD1 ∷ [])
unfolding encode encodings encode_imm_reg encode_reg_reg encode_mem_reg encode_imm_mem
    encode_address encode_modrm_sib_disp encode_immediate imm_encoding_width is_32_bit_imm
    little_endian
widen = refl

-- `sub (%rax), %ecx` and `sub %ecx, (%rax)` are the same bytes.
subtract :
    bytes
      (encode no_elf (instruction instr_sub mem_reg (memory 4 (at_register 1 0 0 0)) (registr 4 2)))
    ≡ bytes (
        encode no_elf
          (instruction instr_sub reg_mem (registr 4 2) (memory 4 (at_register 1 0 0 0))))
unfolding encode encodings encode_mem_reg encode_address encode_modrm_sib_disp little_endian
subtract = refl

-- `mov %sil, %al` is encoded as `mov %dh, %al`, without a prefix.
move_low_byte :
    bytes (encode no_elf (instruction instr_mov reg_reg (registr 1 7) (registr 1 1)))
    ≡ (0x88 ∷ 0xF0 ∷ [])
unfolding encode encodings encode_reg_reg
move_low_byte = refl

abbrev at_symbol : Address
at_symbol = let plain = at_register 0 0 0 12 in record plain { symbol = some 7 }

abbrev no_code : Code
no_code = record { val = []; elf = no_elf }

abbrev far_operand : Address
far_operand = at_register 9 10 8 0x12345678

far_operand-IsOperand : IsOperand far_operand
far_operand-IsOperand =
    (omega arith, omega arith, λ e. omega arith, refl, omega arith, λ e. absurd (omega arith))

encode_modrm_sib_disp-read_operand_example :
    (bytes : List ℕ) × (encode_modrm_sib_disp no_code 3 far_operand
      ≡ ok (write no_code bytes, length bytes))
    × (read_operand true true (bytes ++ 0x90 ∷ []) ≡ some (3, far_operand, 0x90 ∷ []))
encode_modrm_sib_disp-read_operand_example =
    encode_modrm_sib_disp-read_operand no_code 3 far_operand (0x90 ∷ []) refl far_operand-IsOperand

-- `cmpl $0x11223344, 0x12345678(%r8, %r9, 8)`
abbrev compare_far : Instruction
compare_far =
    instruction instr_cmp imm_mem (immediate (imm_int 4 0x11223344)) (memory 4 far_operand)

abbrev compare_far_code : Code
compare_far_code = record {
  val = 0x43 ∷ 0x81 ∷ 0xBC ∷ 0xC8 ∷ 0x78 ∷ 0x56 ∷ 0x34 ∷ 0x12 ∷ 0x44 ∷ 0x33 ∷ 0x22 ∷ 0x11 ∷ [];
  elf = no_elf;
}

compare_far-encode : encode no_elf compare_far ≡ ok compare_far_code
unfolding encode encodings encode_imm_mem encode_address encode_modrm_sib_disp encode_immediate
    imm_encoding_width little_endian
compare_far-encode = refl

length-encode_example : length compare_far_code.val ≤ 15
length-encode_example =
    length-encode no_elf compare_far compare_far_code compare_far-encode (λ o t. refl)

-- The row of `mov` for an immediate and a memory operand, and `movl $5, foo+12(%rip)`.
abbrev mov_row : Encoding
mov_row = get_or encodings 22 end_of_table

abbrev move_symbol_code : Code
move_symbol_code = record {
  val = 0xC7 ∷ 0x05 ∷ 0 ∷ 0 ∷ 0 ∷ 0 ∷ 5 ∷ 0 ∷ 0 ∷ 0 ∷ [];
  elf = elf_add_relocation no_elf 7 r_x86_64_pc32 2 8;
}

move_symbol-encode : encode_imm_mem no_code mov_row 4 (imm_int 4 5) at_symbol ≡ ok move_symbol_code
unfolding encodings encode_imm_mem encode_address encode_immediate imm_encoding_width little_endian
    elf_add_relocation
move_symbol-encode = refl

encode_imm_mem-Relocation_example :
    (reloc : Relocation) × (move_symbol_code.elf.relocations ≡ reloc ∷ [])
    × (reloc.symbol ≡ 7)
    × (reloc.offset + 4 ≤ 110)
    × ((reloc.addend + (110 - (reloc.offset + 4))) % 2 ^ 32 ≡ 12)
encode_imm_mem-Relocation_example =
    encode_imm_mem-Relocation no_code mov_row 4 4 5 at_symbol 7 move_symbol_code refl (omega arith)
      move_symbol-encode

-- `addl $4, (%rax)`: the suffix gives the widths.
abbrev add_memory : ℕ → Instruction
add_memory w = instruction 0 imm_mem (immediate (imm_int w 4)) (memory w (at_register 1 0 0 0))

abbrev added : Instruction
added = let plain = add_memory 4 in record plain { opcode = 1 }

add_memory-accepted : mnemonic_match_operands (codes "addl") (add_memory 0) ≡ ok (some added)
unfolding mnemonic_match_operands match_rows match_instruction_encoding encodings is_32_bit_imm
add_memory-accepted = refl

mnemonic_match_operands-find_encoding_example : (enc : Encoding) × (find_encoding added ≡ ok enc)
mnemonic_match_operands-find_encoding_example =
    mnemonic_match_operands-find_encoding (codes "addl") (add_memory 0) added refl
      add_memory-accepted

-- A jump at 3 whose label turns out to stand at 20.
abbrev waiting : Elf
waiting = record no_elf {
  stack_offset = λ s. 20;
  displacements = record { label = 9; text_offset = 3 } ∷ [];
}

abbrev open_text : List ℕ
open_text = 0 ∷ 0 ∷ 0xE9 ∷ 0xFC ∷ 0xFF ∷ 0xFF ∷ 0xFF ∷ 0x90 ∷ []

abbrev closed_text : List ℕ
closed_text = 0 ∷ 0 ∷ 0xE9 ∷ 13 ∷ 0 ∷ 0 ∷ 0 ∷ 0x90 ∷ []

waiting_flushed :
    elf_flush_text_displacements waiting open_text
    ≡ ok (closed_text, record waiting { displacements = [] })
unfolding elf_flush_text_displacements flush_from
waiting_flushed = refl

waiting_known :
    elf_text_displacement (record waiting { text_size = 2 }) 9 1
    ≡ ok (record waiting { text_size = 2 }, 17)
unfolding elf_text_displacement
waiting_known = refl

elf_flush_text_displacements-elf_text_displacement_example :
    read_int closed_text 3 ≡ (17 + read_int open_text 3) % 2 ^ 32
elf_flush_text_displacements-elf_text_displacement_example =
    elf_flush_text_displacements-elf_text_displacement waiting (record waiting { text_size = 2 })
      (record waiting { displacements = [] }) [] [] 9 2 1 17 open_text closed_text refl tt tt
      (omega arith) waiting_flushed waiting_known
