-- ===== src/Encoding/Table.antt =====
-- The opcodes and the table `encodings`.
use Prim.Native.String.{String}
use lacc.Base.{ℕ, ◌+◌, Bool, true, false, List, [], ◌∷◌}
use lacc.Tokenize.Token.{codes}
use lacc.Encoding.Defs.{
  opt_none, opt_imm, opt_reg, opt_mem, opt_reg_reg, opt_reg_mem, opt_mem_reg, opt_imm_reg,
  opt_imm_mem, opx_none, opx_w, opx_s, opx_sw, opx_dw, opx_tttn, opx_reg, opx_wreg, Implicit,
  impl_none, impl_cx, impl_ax, Encoding,
}

abbrev pub instr_add : ℕ
instr_add = 0

abbrev pub instr_and : ℕ
instr_and = 2

abbrev pub instr_call : ℕ
instr_call = 5

abbrev pub instr_cmp : ℕ
instr_cmp = 7

abbrev pub instr_cxy : ℕ
instr_cxy = 10

abbrev pub instr_div : ℕ
instr_div = 12

abbrev pub instr_idiv : ℕ
instr_idiv = 13

abbrev pub instr_jcc : ℕ
instr_jcc = 14

abbrev pub instr_jmp : ℕ
instr_jmp = 15

abbrev pub instr_lea : ℕ
instr_lea = 16

abbrev pub instr_leave : ℕ
instr_leave = 17

abbrev pub instr_mov : ℕ
instr_mov = 18

abbrev pub instr_mov_str : ℕ
instr_mov_str = 23

abbrev pub instr_movsx : ℕ
instr_movsx = 24

abbrev pub instr_movzx : ℕ
instr_movzx = 26

abbrev pub instr_mul : ℕ
instr_mul = 28

abbrev pub instr_not : ℕ
instr_not = 29

abbrev pub instr_or : ℕ
instr_or = 30

abbrev pub instr_pop : ℕ
instr_pop = 32

abbrev pub instr_push : ℕ
instr_push = 33

abbrev pub instr_ret : ℕ
instr_ret = 36

abbrev pub instr_sar : ℕ
instr_sar = 37

abbrev pub instr_setcc : ℕ
instr_setcc = 39

abbrev pub instr_shl : ℕ
instr_shl = 40

abbrev pub instr_shr : ℕ
instr_shr = 42

abbrev pub instr_sub : ℕ
instr_sub = 44

abbrev pub instr_test : ℕ
instr_test = 46

abbrev pub instr_xor : ℕ
instr_xor = 48

abbrev pub instr_adds : ℕ
instr_adds = 50

abbrev pub instr_cvtsi2s : ℕ
instr_cvtsi2s = 56

abbrev pub instr_cvts2s : ℕ
instr_cvts2s = 58

abbrev pub instr_cvtts2si : ℕ
instr_cvtts2si = 60

abbrev pub instr_divs : ℕ
instr_divs = 62

abbrev pub instr_muls : ℕ
instr_muls = 64

abbrev pub instr_subs : ℕ
instr_subs = 67

abbrev pub instr_movap : ℕ
instr_movap = 69

abbrev pub instr_movs : ℕ
instr_movs = 71

abbrev pub instr_ucomis : ℕ
instr_ucomis = 77

abbrev pub instr_pxor : ℕ
instr_pxor = 79

abbrev pub instr_faddp : ℕ
instr_faddp = 80

abbrev pub instr_fdivrp : ℕ
instr_fdivrp = 81

abbrev pub instr_fild : ℕ
instr_fild = 82

abbrev pub instr_fistp : ℕ
instr_fistp = 85

abbrev pub instr_fld : ℕ
instr_fld = 88

abbrev pub instr_fldcw : ℕ
instr_fldcw = 92

abbrev pub instr_fmulp : ℕ
instr_fmulp = 93

abbrev pub instr_fnstcw : ℕ
instr_fnstcw = 94

abbrev pub instr_fstp : ℕ
instr_fstp = 95

abbrev pub instr_fsubrp : ℕ
instr_fsubrp = 99

abbrev pub instr_fucomip : ℕ
instr_fucomip = 100

abbrev pub instr_fxch : ℕ
instr_fxch = 101

abbrev row :
    ℕ
    → String
    → Bool
    → List ℕ
    → ℕ
    → ℕ
    → ℕ
    → ℕ
    → ℕ
    → ℕ
    → Implicit
    → ℕ
    → Implicit
    → Bool
    → Bool
    → Encoding
row opc mnemonic suffix prefix first second opextra modrm optype w0 i0 w1 i1 reverse dword =
    record {
      opc = opc;
      mnemonic = codes mnemonic;
      suffix = suffix;
      prefix = prefix;
      first = first;
      second = second;
      opextra = opextra;
      modrm = modrm;
      optype = optype;
      widths0 = w0;
      implicit0 = i0;
      widths1 = w1;
      implicit1 = i1;
      reverse = reverse;
      is_displacement_or_dword = dword;
    }

-- The last row, of which the mnemonic is no string.
abbrev pub end_of_table : Encoding
end_of_table = row 0 "" false [] 0 0 0 0 0 0 impl_none 0 impl_none false false

unfoldable pub encodings : List Encoding
encodings =
    row instr_add "add" true [] 0x00 0 opx_dw 0x00 (opt_reg_reg + opt_mem_reg + opt_reg_mem) 0
      impl_none 0 impl_none false false
    ∷ row instr_add "add" true [] 0x80 0 opx_sw 0x00 (opt_imm_reg + opt_imm_mem) 0 impl_none 0
        impl_none false true
    ∷ row instr_and "and" false [] 0x20 0 opx_dw 0x00 (opt_reg_reg + opt_mem_reg + opt_reg_mem) 0
        impl_none 0 impl_none false false
    ∷ row instr_and "and" false [] 0x24 0 opx_w 0x00 opt_imm_reg 0 impl_none 0 impl_ax false true
    ∷ row instr_and "and" false [] 0x80 0 opx_sw 0x20 (opt_imm_reg + opt_imm_mem) 0 impl_none 0
        impl_none false true
    ∷ row instr_call "call" false [] 0xE8 0 opx_none 0x00 opt_imm 8 impl_none 0 impl_none false
        false
    ∷ row instr_call "call" true [] 0xFF 0 opx_none 0x10 (opt_reg + opt_mem) 8 impl_none 0 impl_none
        false false
    ∷ row instr_cmp "cmp" false [] 0x38 0 opx_dw 0x00 (opt_reg_reg + opt_reg_mem + opt_mem_reg) 0
        impl_none 0 impl_none false false
    ∷ row instr_cmp "cmp" false [] 0x3C 0 opx_w 0x00 opt_imm_reg 7 impl_none 7 impl_ax false false
    ∷ row instr_cmp "cmp" false [] 0x80 0 opx_sw 0x38 (opt_imm_reg + opt_imm_mem) 0 impl_none 0
        impl_none false false
    ∷ row instr_cxy "cdq" false [] 0x99 0 opx_none 0x00 opt_none 4 impl_none 0 impl_none false false
    ∷ row instr_cxy "cqo" false [] 0x99 0 opx_none 0x00 opt_none 8 impl_none 0 impl_none false false
    ∷ row instr_div "div" false [] 0xF6 0 opx_w 0x30 (opt_reg + opt_mem) 0 impl_none 0 impl_none
        false false
    ∷ row instr_idiv "idiv" false [] 0xF6 0 opx_w 0x38 (opt_reg + opt_mem) 0 impl_none 0 impl_none
        false false
    ∷ row instr_jcc "j" false [] 0x0F 0x80 opx_tttn 0x00 opt_imm 8 impl_none 0 impl_none false true
    ∷ row instr_jmp "jmp" false [] 0xE9 0 opx_s 0x00 opt_imm 8 impl_none 0 impl_none false true
    ∷ row instr_lea "lea" true [] 0x8D 0 opx_none 0x00 opt_mem_reg 8 impl_none 8 impl_none false
        false
    ∷ row instr_leave "leave" false [] 0xC9 0 opx_none 0x00 opt_none 0 impl_none 0 impl_none false
        false
    ∷ row instr_mov "mov" true [] 0x88 0 opx_dw 0x00 (opt_reg_reg + opt_mem_reg + opt_reg_mem) 0
        impl_none 0 impl_none false false
    ∷ row instr_mov "mov" true [] 0xB8 0 opx_wreg 0x00 opt_imm_reg 7 impl_none 7 impl_none false
        false
    ∷ row instr_mov "mov" true [] 0xC6 0 opx_w 0x00 opt_imm_reg 0 impl_none 0 impl_none false true
    ∷ row instr_mov "movq" false [] 0xB8 0 opx_wreg 0x00 opt_imm_reg 8 impl_none 8 impl_none false
        false
    ∷ row instr_mov "mov" true [] 0xC6 0 opx_w 0x00 opt_imm_mem 0 impl_none 0 impl_none false true
    ∷ row instr_mov_str "movs" false [] 0xA4 0 opx_w 0x00 opt_none 0 impl_none 0 impl_none false
        false
    ∷ row instr_movsx "movslq" false [] 0x63 0 opx_none 0x00 (opt_reg_reg + opt_mem_reg) 4 impl_none
        8 impl_none true false
    ∷ row instr_movsx "movs" false [] 0x0F 0xBE opx_w 0x00 (opt_reg_reg + opt_mem_reg) 3 impl_none
        12 impl_none true false
    ∷ row instr_movzx "movzlq" false [] 0x0F 0xB7 opx_none 0x00 (opt_reg_reg + opt_mem_reg) 4
        impl_none 8 impl_none true false
    ∷ row instr_movzx "movz" false [] 0x0F 0xB6 opx_w 0x00 (opt_reg_reg + opt_mem_reg) 3 impl_none
        12 impl_none true false
    ∷ row instr_mul "mul" false [] 0xF6 0 opx_w 0x20 (opt_reg + opt_mem) 0 impl_none 0 impl_none
        false false
    ∷ row instr_not "not" false [] 0xF6 0 opx_w 0x10 (opt_reg + opt_mem) 0 impl_none 0 impl_none
        false false
    ∷ row instr_or "or" false [] 0x08 0 opx_dw 0x00 (opt_reg_reg + opt_mem_reg + opt_reg_mem) 0
        impl_none 0 impl_none false false
    ∷ row instr_or "or" false [] 0x80 0 opx_sw 0x08 (opt_imm_reg + opt_imm_mem) 0 impl_none 0
        impl_none false true
    ∷ row instr_pop "pop" false [] 0x58 0 opx_reg 0x00 opt_reg 8 impl_none 0 impl_none false false
    ∷ row instr_push "push" false [] 0x50 0 opx_reg 0x00 opt_reg 8 impl_none 0 impl_none false false
    ∷ row instr_push "push" false [] 0x68 0 opx_none 0x00 opt_imm 8 impl_none 0 impl_none false true
    ∷ row instr_push "push" false [] 0xFF 0 opx_none 0x30 opt_mem 8 impl_none 0 impl_none false
        false
    ∷ row instr_ret "ret" false [] 0xC3 0 opx_none 0x00 opt_none 0 impl_none 0 impl_none false false
    ∷ row instr_sar "sar" false [] 0xC0 0 opx_w 0xF8 opt_imm_reg 1 impl_none 0 impl_none false false
    ∷ row instr_sar "sar" false [] 0xD2 0 opx_w 0xF8 opt_reg_reg 1 impl_cx 0 impl_none false false
    ∷ row instr_setcc "set" false [] 0x0F 0x90 opx_tttn 0xC0 opt_reg 1 impl_none 0 impl_none false
        false
    ∷ row instr_shl "shl" false [] 0xC0 0 opx_w 0xE0 opt_imm_reg 1 impl_none 0 impl_none false false
    ∷ row instr_shl "shl" false [] 0xD2 0 opx_w 0xE0 opt_reg_reg 1 impl_cx 0 impl_none false false
    ∷ row instr_shr "shr" false [] 0xC0 0 opx_w 0xE8 opt_imm_reg 1 impl_none 0 impl_none false false
    ∷ row instr_shr "shr" false [] 0xD2 0 opx_w 0xE8 opt_reg_reg 1 impl_cx 0 impl_none false false
    ∷ row instr_sub "sub" false [] 0x28 0 opx_sw 0x00 (opt_reg_reg + opt_mem_reg + opt_reg_mem) 0
        impl_none 0 impl_none false false
    ∷ row instr_sub "sub" false [] 0x80 0 opx_sw 0x28 (opt_imm_reg + opt_imm_mem) 0 impl_none 0
        impl_none false true
    ∷ row instr_test "test" false [] 0x84 0 opx_w 0x00 (opt_reg_reg + opt_mem_reg + opt_reg_mem) 0
        impl_none 0 impl_none false false
    ∷ row instr_test "test" false [] 0xF6 0 opx_w 0xC0 opt_imm_reg 0 impl_none 0 impl_none false
        false
    ∷ row instr_xor "xor" false [] 0x30 0 opx_dw 0x00 (opt_reg_reg + opt_mem_reg + opt_reg_mem) 0
        impl_none 0 impl_none false false
    ∷ row instr_xor "xor" false [] 0x80 0 opx_sw 0xF0 (opt_imm_reg + opt_imm_mem) 0 impl_none 0
        impl_none false true
    ∷ row instr_adds "addss" false (0xF3 ∷ []) 0x0F 0x58 opx_none 0x00 (opt_reg_reg + opt_mem_reg) 4
        impl_none 4 impl_none true false
    ∷ row instr_adds "addsd" false (0xF2 ∷ []) 0x0F 0x58 opx_none 0x00 (opt_reg_reg + opt_mem_reg) 8
        impl_none 8 impl_none true false
    ∷ row 0 "andnps" false [] 0x0F 0x55 opx_none 0x00 (opt_reg_reg + opt_mem_reg) 4 impl_none 4
        impl_none true false
    ∷ row 0 "andps" false [] 0x0F 0x54 opx_none 0x00 (opt_reg_reg + opt_mem_reg) 4 impl_none 4
        impl_none true false
    ∷ row 0 "cvtps2dq" false (0x66 ∷ []) 0x0F 0x5B opx_none 0x00 (opt_reg_reg + opt_mem_reg) 4
        impl_none 4 impl_none true false
    ∷ row 0 "cvtdq2ps" false [] 0x0F 0x5B opx_none 0x00 (opt_reg_reg + opt_mem_reg) 4 impl_none 4
        impl_none true false
    ∷ row instr_cvtsi2s "cvtsi2ss" false (0xF3 ∷ []) 0x0F 0x2A opx_none 0x00
        (opt_reg_reg + opt_mem_reg) 12 impl_none 4 impl_none true false
    ∷ row instr_cvtsi2s "cvtsi2sd" false (0xF2 ∷ []) 0x0F 0x2A opx_none 0x00
        (opt_reg_reg + opt_mem_reg) 12 impl_none 8 impl_none true false
    ∷ row instr_cvts2s "cvtss2sd" false (0xF3 ∷ []) 0x0F 0x5A opx_none 0x00
        (opt_reg_reg + opt_mem_reg) 4 impl_none 8 impl_none true false
    ∷ row instr_cvts2s "cvtsd2ss" false (0xF2 ∷ []) 0x0F 0x5A opx_none 0x00
        (opt_reg_reg + opt_mem_reg) 8 impl_none 4 impl_none true false
    ∷ row instr_cvtts2si "cvttss2si" false (0xF3 ∷ []) 0x0F 0x2C opx_none 0x00
        (opt_reg_reg + opt_mem_reg) 4 impl_none 12 impl_none true false
    ∷ row instr_cvtts2si "cvttsd2si" false (0xF2 ∷ []) 0x0F 0x2C opx_none 0x00
        (opt_reg_reg + opt_mem_reg) 8 impl_none 12 impl_none true false
    ∷ row instr_divs "divss" false (0xF3 ∷ []) 0x0F 0x5E opx_none 0x00 (opt_reg_reg + opt_mem_reg) 4
        impl_none 4 impl_none true false
    ∷ row instr_divs "divsd" false (0xF2 ∷ []) 0x0F 0x5E opx_none 0x00 (opt_reg_reg + opt_mem_reg) 8
        impl_none 8 impl_none true false
    ∷ row instr_muls "mulss" false (0xF3 ∷ []) 0x0F 0x59 opx_none 0x00 (opt_reg_reg + opt_mem_reg) 4
        impl_none 4 impl_none true false
    ∷ row instr_muls "mulsd" false (0xF2 ∷ []) 0x0F 0x59 opx_none 0x00 (opt_reg_reg + opt_mem_reg) 8
        impl_none 8 impl_none true false
    ∷ row 0 "orps" false [] 0x0F 0x56 opx_none 0x00 (opt_reg_reg + opt_mem_reg) 4 impl_none 4
        impl_none true false
    ∷ row instr_subs "subss" false (0xF3 ∷ []) 0x0F 0x5C opx_none 0x00 (opt_reg_reg + opt_mem_reg) 4
        impl_none 4 impl_none true false
    ∷ row instr_subs "subsd" false (0xF2 ∷ []) 0x0F 0x5C opx_none 0x00 (opt_reg_reg + opt_mem_reg) 8
        impl_none 8 impl_none true false
    ∷ row instr_movap "movaps" false [] 0x0F 0x28 opx_none 0x00 (opt_reg_reg + opt_mem_reg) 4
        impl_none 4 impl_none true false
    ∷ row instr_movap "movaps" false [] 0x0F 0x29 opx_none 0x00 opt_reg_mem 4 impl_none 4 impl_none
        false false
    ∷ row instr_movs "movss" false (0xF3 ∷ []) 0x0F 0x10 opx_none 0x00 (opt_reg_reg + opt_mem_reg) 4
        impl_none 4 impl_none true false
    ∷ row instr_movs "movss" false (0xF3 ∷ []) 0x0F 0x11 opx_none 0x00 opt_reg_mem 4 impl_none 4
        impl_none false false
    ∷ row instr_movs "movsd" false (0xF2 ∷ []) 0x0F 0x10 opx_none 0x00 (opt_reg_reg + opt_mem_reg) 8
        impl_none 8 impl_none true false
    ∷ row instr_movs "movsd" false (0xF2 ∷ []) 0x0F 0x11 opx_none 0x00 opt_reg_mem 8 impl_none 8
        impl_none false false
    ∷ row 0 "movups" false [] 0x0F 0x10 opx_none 0x00 (opt_reg_reg + opt_mem_reg) 4 impl_none 4
        impl_none true false
    ∷ row 0 "movups" false [] 0x0F 0x11 opx_none 0x00 opt_reg_mem 4 impl_none 4 impl_none false
        false
    ∷ row instr_ucomis "ucomiss" false [] 0x0F 0x2E opx_none 0x00 (opt_reg_reg + opt_mem_reg) 4
        impl_none 4 impl_none true false
    ∷ row instr_ucomis "ucomisd" false (0x66 ∷ []) 0x0F 0x2E opx_none 0x00
        (opt_reg_reg + opt_mem_reg) 8 impl_none 8 impl_none true false
    ∷ row instr_pxor "pxor" false (0x66 ∷ []) 0x0F 0xEF opx_none 0x00 (opt_reg_reg + opt_mem_reg) 8
        impl_none 8 impl_none true false
    ∷ row instr_faddp "faddp" false [] 0xDE 0 opx_none 0x00 opt_reg 0 impl_none 0 impl_none false
        false
    ∷ row instr_fdivrp "fdivrp" false [] 0xDE 0 opx_none 0x38 opt_reg 0 impl_none 0 impl_none false
        false
    ∷ row instr_fild "filds" false [] 0xDF 0 opx_none 0x00 opt_mem 2 impl_none 2 impl_none false
        false
    ∷ row instr_fild "fildl" false [] 0xDB 0 opx_none 0x00 opt_mem 4 impl_none 4 impl_none false
        false
    ∷ row instr_fild "fildq" false [] 0xDF 0 opx_none 0x28 opt_mem 8 impl_none 8 impl_none false
        false
    ∷ row instr_fistp "fistps" false [] 0xDF 0 opx_none 0x18 opt_mem 2 impl_none 2 impl_none false
        false
    ∷ row instr_fistp "fistpl" false [] 0xDB 0 opx_none 0x18 opt_mem 4 impl_none 4 impl_none false
        false
    ∷ row instr_fistp "fistpq" false [] 0xDF 0 opx_none 0x38 opt_mem 8 impl_none 8 impl_none false
        false
    ∷ row instr_fld "flds" false [] 0xD9 0 opx_none 0x00 opt_mem 4 impl_none 4 impl_none false false
    ∷ row instr_fld "fldl" false [] 0xDD 0 opx_none 0x00 opt_mem 8 impl_none 8 impl_none false false
    ∷ row instr_fld "fldt" false [] 0xDB 0 opx_none 0x28 opt_mem 0 impl_none 0 impl_none false false
    ∷ row instr_fld "fld" false [] 0xD9 0 opx_none 0x00 opt_reg 0 impl_none 0 impl_none false false
    ∷ row instr_fldcw "fldcw" false [] 0xD9 0 opx_none 0x28 opt_mem 0 impl_none 0 impl_none false
        false
    ∷ row instr_fmulp "fmulp" false [] 0xDE 0 opx_none 0x08 opt_reg 0 impl_none 0 impl_none false
        false
    ∷ row instr_fnstcw "fnstcw" false [] 0xD9 0 opx_none 0x38 opt_mem 0 impl_none 0 impl_none false
        false
    ∷ row instr_fstp "fstps" false [] 0xD9 0 opx_none 0x18 opt_mem 4 impl_none 8 impl_none false
        false
    ∷ row instr_fstp "fstpl" false [] 0xDD 0 opx_none 0x18 opt_mem 8 impl_none 8 impl_none false
        false
    ∷ row instr_fstp "fstpt" false [] 0xDB 0 opx_none 0x38 opt_mem 0 impl_none 0 impl_none false
        false
    ∷ row instr_fstp "fstp" false [] 0xDD 0 opx_none 0x18 opt_reg 0 impl_none 0 impl_none false
        false
    ∷ row instr_fsubrp "fsubrp" false [] 0xDE 0 opx_none 0x28 opt_reg 0 impl_none 0 impl_none false
        false
    ∷ row instr_fucomip "fucomip" false [] 0xDF 0 opx_none 0x28 opt_reg 0 impl_none 0 impl_none
        false false
    ∷ row instr_fxch "fxch" false [] 0xD9 0 opx_none 0x08 opt_reg 0 impl_none 0 impl_none false
        false
    ∷ end_of_table
    ∷ []
