-- ===== src/Encoding/Match/Reach.antt =====
-- When the search for a row ends with one.
use lacc.Base.{
  ℕ, ◌≡◌, refl, Bool, true, false, ◌==◌, ==_iff, ◌&&◌, ◌||◌, not, Run, ok, err, ◌>>=◌,
  if◌then◌else◌,
}
use mathlib.Core.Path.{subst}
use Prim.Native.Nat.{bit_and}
use lacc.Encoding.Defs.{
  Operand, registr, memory, blank, immediate, InstrOptype, none_ops, imm_op, reg_op, mem_op,
  reg_reg, reg_mem, mem_reg, imm_reg, imm_mem, opt_reg_reg, opt_imm_reg, Implicit, impl_none,
  impl_cx, impl_ax, is_implicit, optype_bits, Instruction, Encoding,
}
use lacc.Encoding.Table.{encodings}
use lacc.Encoding.Immediate.{is_32_bit_imm}
use lacc.Encoding.Match.{
  immediate_of, has_immediate, fits_dword, fits_implicit, fits_widths, has_optype, ◌and_then◌,
  match_instruction_encoding,
}
use lacc.Encoding.Match.Found.{all_rows, and_first, and_second}

abbrev pub is_register : Operand → Bool
is_register (registr w r) = true
is_register _ = false

abbrev pub is_immediate : Operand → Bool
is_immediate (immediate imm) = true
is_immediate _ = false

-- The operands are of the form that the instruction says, and there is one.
abbrev pub has_shape : InstrOptype → Operand → Operand → Bool
has_shape none_ops source dest = false
has_shape imm_op source dest = is_immediate source
has_shape reg_reg source dest = is_register source && is_register dest
has_shape imm_reg source dest = is_immediate source && is_register dest
has_shape imm_mem source dest = is_immediate source
has_shape _ source dest = true

-- An implicit operand is a register by the form of the row.
abbrev pub is_sound : Encoding → Bool
is_sound enc =
    (not (is_implicit enc.implicit0) || enc.optype == opt_reg_reg)
    && (not (is_implicit enc.implicit1) || enc.optype == opt_imm_reg)

pub sound_table : all_rows is_sound encodings ≡ true
unfolding encodings
sound_table = refl

-- The run ends with a value.
abbrev Ends : Run Bool → Type 0
Ends run = (b : Bool) × (run ≡ ok b)

and_then-Ends :
    (test : Bool) (more : Run Bool) → (test ≡ true → Ends more) → Ends (ok test and_then more)
and_then-Ends true more h = h refl
and_then-Ends false more h = (false, refl)

and_then-Ends_run : (first more : Run Bool) → Ends first → Ends more → Ends (first and_then more)
and_then-Ends_run (ok test) more h k = and_then-Ends test more (λ e. k)
and_then-Ends_run (err f) more h k = cc

dword_immediate :
    (source : Operand) (dword : Bool)
    → is_immediate source ≡ true
    → Ends (if dword then (do imm ← immediate_of source; ok (is_32_bit_imm imm)) else ok true)
dword_immediate (immediate imm) true h = (_, refl)
dword_immediate source false h = (true, refl)
dword_immediate (registr w r) true h = cc
dword_immediate (memory w addr) true h = cc
dword_immediate (blank w) true h = cc

dword_value :
    (t : InstrOptype) (source dest : Operand) (dword : Bool)
    → has_shape t source dest ≡ true
    → Ends (
        if has_immediate t && dword
        then (do imm ← immediate_of source; ok (is_32_bit_imm imm))
        else ok true)
dword_value none_ops source dest dword h = cc
dword_value reg_op source dest dword h = (true, refl)
dword_value mem_op source dest dword h = (true, refl)
dword_value reg_reg source dest dword h = (true, refl)
dword_value reg_mem source dest dword h = (true, refl)
dword_value mem_reg source dest dword h = (true, refl)
dword_value imm_op source dest dword h = dword_immediate source dword h
dword_value imm_mem source dest dword h = dword_immediate source dword h
dword_value imm_reg source dest dword h =
    dword_immediate source dword (and_first (is_immediate source) _ h)

fits_dword-Ends :
    (instr : Instruction) (enc : Encoding)
    → has_shape instr.optype instr.source instr.dest ≡ true
    → Ends (fits_dword instr enc)
fits_dword-Ends instr enc h =
    dword_value instr.optype instr.source instr.dest enc.is_displacement_or_dword h

fits_implicit-Ends :
    (i : Implicit) (op : Operand)
    → (not (is_implicit i) || is_register op) ≡ true
    → Ends (fits_implicit i op)
fits_implicit-Ends impl_none op h = (true, refl)
fits_implicit-Ends impl_ax (registr w r) h = (_, refl)
fits_implicit-Ends impl_ax (memory w r) h = cc
fits_implicit-Ends impl_ax (blank w) h = cc
fits_implicit-Ends impl_ax (immediate imm) h = cc
fits_implicit-Ends impl_cx (registr w r) h = (_, refl)
fits_implicit-Ends impl_cx (memory w r) h = cc
fits_implicit-Ends impl_cx (blank w) h = cc
fits_implicit-Ends impl_cx (immediate imm) h = cc

source_register :
    (t : InstrOptype) (source dest : Operand)
    → has_shape t source dest ≡ true
    → (optype_bits t == bit_and opt_reg_reg (optype_bits t)) ≡ true
    → is_register source ≡ true
source_register none_ops source dest h k = cc
source_register imm_op source dest h k = cc
source_register reg_op source dest h k = cc
source_register mem_op source dest h k = cc
source_register reg_reg source dest h k = and_first (is_register source) _ h
source_register reg_mem source dest h k = cc
source_register mem_reg source dest h k = cc
source_register imm_reg source dest h k = cc
source_register imm_mem source dest h k = cc

dest_register :
    (t : InstrOptype) (source dest : Operand)
    → has_shape t source dest ≡ true
    → (optype_bits t == bit_and opt_imm_reg (optype_bits t)) ≡ true
    → is_register dest ≡ true
dest_register none_ops source dest h k = cc
dest_register imm_op source dest h k = cc
dest_register reg_op source dest h k = cc
dest_register mem_op source dest h k = cc
dest_register reg_reg source dest h k = cc
dest_register reg_mem source dest h k = cc
dest_register mem_reg source dest h k = cc
dest_register imm_reg source dest h k = and_second (is_immediate source) _ h
dest_register imm_mem source dest h k = cc

implied :
    (given only register : Bool)
    → (not given || only) ≡ true
    → (only ≡ true → register ≡ true)
    → (not given || register) ≡ true
implied true only register h k = k h
implied false only register h k = refl

only_form :
    (t : InstrOptype) (optype form : ℕ)
    → (optype == form) ≡ true
    → (optype_bits t == bit_and optype (optype_bits t)) ≡ true
    → (optype_bits t == bit_and form (optype_bits t)) ≡ true
only_form t optype form e h =
    subst (λ o. (optype_bits t == bit_and o (optype_bits t)) ≡ true) ((==_iff optype form).0 e) h

-- A row with an implicit operand is matched with a register in its place.
explicit_or_register :
    (t : InstrOptype) (source dest : Operand) (enc : Encoding)
    → is_sound enc ≡ true
    → has_shape t source dest ≡ true
    → has_optype t enc ≡ true
    → ((not (is_implicit enc.implicit0) || is_register source) ≡ true)
      × ((not (is_implicit enc.implicit1) || is_register dest) ≡ true)
explicit_or_register t source dest enc h k m = (
  implied (is_implicit enc.implicit0) (enc.optype == opt_reg_reg) (is_register source)
      (and_first _ _ h)
      (λ e. source_register t source dest k (only_form t enc.optype opt_reg_reg e m)),
  implied (is_implicit enc.implicit1) (enc.optype == opt_imm_reg) (is_register dest)
      (and_second (not (is_implicit enc.implicit0) || enc.optype == opt_reg_reg) _ h)
      (λ e. dest_register t source dest k (only_form t enc.optype opt_imm_reg e m)),
)

pub match_instruction_encoding-Ends :
    (instr : Instruction) (enc : Encoding)
    → is_sound enc ≡ true
    → has_shape instr.optype instr.source instr.dest ≡ true
    → (instr.opcode == enc.opc || enc.opc == 0) ≡ true
    → Ends (match_instruction_encoding instr enc)
unfolding match_instruction_encoding
match_instruction_encoding-Ends instr enc h k m =
    let (b, e) = and_then-Ends (has_optype instr.optype enc) _ (λ same.
      let (first, second) =
        explicit_or_register instr.optype instr.source instr.dest enc h k same in
      and_then-Ends_run _ _ (fits_dword-Ends instr enc k) (
        and_then-Ends_run _ _ (fits_implicit-Ends enc.implicit0 instr.source first) (
          and_then-Ends_run _ (ok (fits_widths instr enc))
            (fits_implicit-Ends enc.implicit1 instr.dest second) (_, refl)))) in
    (b, rw m e)
