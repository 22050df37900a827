-- ===== src/Encoding/Code.antt =====
-- The machine code of an instruction as it is written, and the records that src/backend/x86_64/elf.c keeps
-- for the places that a symbol fills.
use lacc.Base.{
  ℕ, zero, suc, ◌+◌, ◌-◌, ◌/◌, ◌%◌, ◌^◌, Bool, true, false, if◌then◌else◌, ◌==◌, not, List, [], ◌∷◌,
  ◌++◌, length, get_or, set, Run, ok, assertion, guard, ◌>>◌,
}
use Prim.Native.Nat.{bit_or}

pub data RelType : Type 0 where
  r_x86_64_pc32 r_x86_64_plt32 r_x86_64_gotpcrel : RelType

-- `struct pending_relocation`; `addend` is the 32 bits of an `int`.
pub record Relocation : Type 0 where
  pub symbol : ℕ
  pub type : RelType
  pub offset : ℕ
  pub addend : ℕ

-- `struct pending_displacement`
pub record Displacement : Type 0 where
  pub label : ℕ
  pub text_offset : ℕ

-- `text_size` is the size of the section of text, `is_label` and `stack_offset` are members of the symbols,
-- `relocations` are those of `section.rela_text`.
pub record Elf : Type 0 where
  pub text_size : ℕ
  pub is_label : ℕ → Bool
  pub stack_offset : ℕ → ℕ
  pub relocations : List Relocation
  pub displacements : List Displacement

-- The bytes written so far: `len` is their number, and no bound is put on it.
pub record Code : Type 0 where
  pub val : List ℕ
  pub elf : Elf

-- `c->val[c->len++] = byte` for each byte.
abbrev pub write : Code → List ℕ → Code
write c bytes = record c { val = c.val ++ bytes }

-- `c->val[c->len - back] |= bits`
abbrev pub or_back : Code → ℕ → ℕ → Code
or_back c back bits =
    let i = length c.val - back in record c { val = set c.val i (bit_or (get_or c.val i 0) bits) }

-- The `n` bytes of a number in memory, lowest first.
unfoldable pub little_endian : ℕ → ℕ → List ℕ
little_endian zero v = []
little_endian (suc n) v = v % 256 ∷ little_endian n (v / 256)

abbrev pub flag : Bool → ℕ
flag true = 1
flag false = 0

unfoldable pub elf_add_relocation : Elf → ℕ → RelType → ℕ → ℕ → Elf
elf_add_relocation elf symbol type offset addend =
    let entry : Relocation = record {
      symbol = symbol;
      type = type;
      offset = elf.text_size + offset;
      addend = addend;
    } in
    record elf { relocations = elf.relocations ++ entry ∷ [] }

-- The result is the 32 bits of an `int`.
unfoldable pub elf_text_displacement : Elf → ℕ → ℕ → Run (Elf × ℕ)
elf_text_displacement elf label instr_offset = do
  guard (elf.is_label label) assertion
  let target = elf.stack_offset label
  let here = elf.text_size + instr_offset
  let entry : Displacement = record { label = label; text_offset = here }
  ok (
      if not (target == 0)
      then (elf, (target + 2 ^ 32 - here % 2 ^ 32) % 2 ^ 32)
      else (record elf { displacements = elf.displacements ++ entry ∷ [] }, 0))
