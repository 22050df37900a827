-- ===== src/Encoding/Defs.antt =====
-- src/backend/x86_64/encoding.h and the types of encoding.c.
use lacc.Base.{ℕ, Bool, true, false, Option, List, Text}

-- A register is its number in `enum reg`, 0 without one.
abbrev pub reg_ax : ℕ
reg_ax = 1

abbrev pub reg_cx : ℕ
reg_cx = 2

abbrev pub reg_sp : ℕ
reg_sp = 5

abbrev pub reg_bp : ℕ
reg_bp = 6

abbrev pub reg_si : ℕ
reg_si = 7

abbrev pub reg_di : ℕ
reg_di = 8

pub data AddrType : Type 0 where
  addr_normal addr_global_offset addr_plt : AddrType

-- `displacement` is the 32 bits of an `int`; a symbol is its number.
pub record Address : Type 0 where
  pub kind : AddrType
  pub symbol : Option ℕ
  pub displacement : ℕ
  pub base : ℕ
  pub index : ℕ
  pub scale : ℕ

-- The members `byte` to `qword` of the union are the low bits of its 64.
pub data Immediate : Type 0 where
  imm_int : (width qword : ℕ) → Immediate
  imm_addr : (width : ℕ) (addr : Address) → Immediate
  imm_string : (width : ℕ) (string : Text) → Immediate

abbrev pub imm_width : Immediate → ℕ
imm_width (imm_int width qword) = width
imm_width (imm_addr width addr) = width
imm_width (imm_string width string) = width

-- `union operand`, with the member that is in use; `blank` is one of which only the width is set.
pub data Operand : Type 0 where
  blank : (width : ℕ) → Operand
  registr : (width r : ℕ) → Operand
  memory : (width : ℕ) (addr : Address) → Operand
  immediate : Immediate → Operand

abbrev pub width : Operand → ℕ
width (blank w) = w
width (registr w r) = w
width (memory w addr) = w
width (immediate imm) = imm_width imm

-- `op.width = w`
abbrev pub with_width : ℕ → Operand → Operand
with_width w (blank _) = blank w
with_width w (registr _ r) = registr w r
with_width w (memory _ addr) = memory w addr
with_width w (immediate (imm_int _ qword)) = immediate (imm_int w qword)
with_width w (immediate (imm_addr _ addr)) = immediate (imm_addr w addr)
with_width w (immediate (imm_string _ string)) = immediate (imm_string w string)

pub data InstrOptype : Type 0 where
  none_ops imm_op reg_op mem_op reg_reg reg_mem mem_reg imm_reg imm_mem : InstrOptype

abbrev pub opt_none : ℕ
opt_none = 0

abbrev pub opt_imm : ℕ
opt_imm = 1

abbrev pub opt_reg : ℕ
opt_reg = 2

abbrev pub opt_mem : ℕ
opt_mem = 4

abbrev pub opt_reg_reg : ℕ
opt_reg_reg = 8

abbrev pub opt_reg_mem : ℕ
opt_reg_mem = 16

abbrev pub opt_mem_reg : ℕ
opt_mem_reg = 32

abbrev pub opt_imm_reg : ℕ
opt_imm_reg = 64

abbrev pub opt_imm_mem : ℕ
opt_imm_mem = 128

-- The value of the enumerator.
abbrev pub optype_bits : InstrOptype → ℕ
optype_bits none_ops = opt_none
optype_bits imm_op = opt_imm
optype_bits reg_op = opt_reg
optype_bits mem_op = opt_mem
optype_bits reg_reg = opt_reg_reg
optype_bits reg_mem = opt_reg_mem
optype_bits mem_reg = opt_mem_reg
optype_bits imm_reg = opt_imm_reg
optype_bits imm_mem = opt_imm_mem

-- `opcode` and `cc` are the numbers of the enumerators.
pub record Instruction : Type 0 where
  pub opcode : ℕ
  pub cc : ℕ
  pub prefix : ℕ
  pub optype : InstrOptype
  pub source : Operand
  pub dest : Operand

abbrev pub opx_none : ℕ
opx_none = 0

abbrev pub opx_w : ℕ
opx_w = 1

abbrev pub opx_s : ℕ
opx_s = 2

abbrev pub opx_sw : ℕ
opx_sw = 3

abbrev pub opx_d : ℕ
opx_d = 4

abbrev pub opx_dw : ℕ
opx_dw = 5

abbrev pub opx_tttn : ℕ
opx_tttn = 8

abbrev pub opx_reg : ℕ
opx_reg = 16

abbrev pub opx_wreg : ℕ
opx_wreg = 17

pub data Implicit : Type 0 where
  impl_none impl_cx impl_ax : Implicit

abbrev pub is_implicit : Implicit → Bool
is_implicit impl_none = false
is_implicit impl_cx = true
is_implicit impl_ax = true

-- A row of the table. `prefix` holds the prefixes before the first 0; `second` is `opcode[1]`; the members
-- of `openc` are numbered.
pub record Encoding : Type 0 where
  pub opc : ℕ
  pub mnemonic : Text
  pub suffix : Bool
  pub prefix : List ℕ
  pub first : ℕ
  pub second : ℕ
  pub opextra : ℕ
  pub modrm : ℕ
  pub optype : ℕ
  pub widths0 : ℕ
  pub implicit0 : Implicit
  pub widths1 : ℕ
  pub implicit1 : Implicit
  pub reverse : Bool
  pub is_displacement_or_dword : Bool
