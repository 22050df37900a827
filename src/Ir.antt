-- ===== src/Ir.antt =====
-- include/lacc/ir.h and include/lacc/symbol.h: the intermediate representation, a graph of basic
-- blocks of three-address code. A pointer to a symbol or block is its position in the list of all of
-- them.
pub mod Bits
use lacc.Base.{
  ℕ, Bool, true, false, Option, List, [], ◌∷◌, ◌==◌, ◌||◌, ◌&&◌, not, if◌then◌else◌, get_elem?,
  Text, Run, undefined, demand, ok, ◌>>=◌,
}
use lacc.Types.Defs.{CType, Types}
use lacc.Types.Equal.{type_equal}
use Bits.{Word}

pub data SymType : Type 0 where
  definition tentative declaration type_definition literal constant label tag : SymType

pub data Linkage : Type 0 where
  link_none link_intern link_extern : Linkage

abbrev pub is_link_none : Linkage → Bool
is_link_none link_none = true
is_link_none _ = false

-- `index` is the number of the symbol in the optimizer, 0 without one; `n` is the 16 bits of a short.
-- The slot and offset of the backend and the union `value` are left out.
pub record Symbol : Type 0 where
  pub name : Text
  pub type : CType
  pub symtype : SymType
  pub linkage : Linkage
  pub referenced : Bool
  pub n : ℕ
  pub depth : ℕ
  pub index : ℕ

abbrev pub Symbols : Type 0
Symbols = List Symbol

abbrev pub get_symbol : Symbols → ℕ → Run Symbol
get_symbol syms i = demand (get_elem? syms i) undefined

pub data VarKind : Type 0 where
  direct address deref immediate : VarKind

-- The number of a kind.
abbrev pub kind_code : VarKind → ℕ
kind_code direct = 0
kind_code address = 1
kind_code deref = 2
kind_code immediate = 3

-- `imm` is the 64 bits of the value.
pub record Var : Type 0 where
  pub kind : VarKind
  pub type : CType
  pub symbol : Option ℕ
  pub offset : ℕ
  pub field_width : ℕ
  pub field_offset : ℕ
  pub lvalue : Bool
  pub imm : ℕ

abbrev pub is_field : Var → Bool
is_field v = not (v.field_width == 0)

pub data OpType : Type 0 where
  op_cast op_call op_va_arg op_not op_neg : OpType
  op_add op_sub op_mul op_div op_mod op_and op_or op_xor op_shl op_shr : OpType
  op_eq op_ne op_ge op_gt : OpType

pub record Expression : Type 0 where
  pub op : OpType
  pub type : CType
  pub l : Var
  pub r : Var

-- Whether the operation has one operand, `l`.
abbrev pub is_unary : OpType → Bool
is_unary op_cast = true
is_unary op_not = true
is_unary op_neg = true
is_unary op_call = true
is_unary op_va_arg = true
is_unary _ = false

abbrev pub op_side_effects : OpType → Bool
op_side_effects op_call = true
op_side_effects op_va_arg = true
op_side_effects _ = false

abbrev pub has_side_effects : Expression → Bool
has_side_effects e = op_side_effects e.op

abbrev pub is_cast : OpType → Bool
is_cast op_cast = true
is_cast _ = false

-- The comparison of the types takes the fuel.
unfoldable pub is_identity : ℕ → Types → Expression → Run Bool
is_identity f ts e = if is_cast e.op then type_equal f ts e.type e.l.type else ok false

unfoldable pub is_immediate : ℕ → Types → Expression → Run Bool
unfolding is_identity
is_immediate f ts e = do same ← is_identity f ts e; ok (same && kind_code e.l.kind == 3)

pub data StType : Type 0 where
  st_expr st_param st_va_start st_assign st_vla_alloc st_asm : StType

abbrev pub is_assign : StType → Bool
is_assign st_assign = true
is_assign _ = false

pub record Statement : Type 0 where
  pub st : StType
  pub asm_index : ℕ
  pub out : Word
  pub t : Var
  pub expr : Expression

-- The fields that the optimizer uses; `black` is the color.
pub record Block : Type 0 where
  pub code : List Statement
  pub expr : Expression
  pub jump0 : Option ℕ
  pub jump1 : Option ℕ
  pub has_return_value : Bool
  pub black : Bool
  pub live_in : Word
  pub live_out : Word

abbrev pub Blocks : Type 0
Blocks = List Block

abbrev pub get_block : Blocks → ℕ → Run Block
get_block blocks i = demand (get_elem? blocks i) undefined
