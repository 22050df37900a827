-- ===== src/Tokenize/Kind.antt =====
-- The numbers of `enum token_type` in include/lacc/token.h, as far as the code names them.
use lacc.Base.{ℕ}

abbrev pub kind_end : ℕ
kind_end = 0

abbrev pub kind_auto : ℕ
kind_auto = 1

abbrev pub kind_break : ℕ
kind_break = 2

abbrev pub kind_case : ℕ
kind_case = 3

abbrev pub kind_char : ℕ
kind_char = 4

abbrev pub kind_const : ℕ
kind_const = 5

abbrev pub kind_continue : ℕ
kind_continue = 6

abbrev pub kind_default : ℕ
kind_default = 7

abbrev pub kind_do : ℕ
kind_do = 8

abbrev pub kind_double : ℕ
kind_double = 9

abbrev pub kind_else : ℕ
kind_else = 11

abbrev pub kind_enum : ℕ
kind_enum = 12

abbrev pub kind_extern : ℕ
kind_extern = 13

abbrev pub kind_float : ℕ
kind_float = 14

abbrev pub kind_for : ℕ
kind_for = 15

abbrev pub kind_goto : ℕ
kind_goto = 16

abbrev pub kind_if : ℕ
kind_if = 17

abbrev pub kind_int : ℕ
kind_int = 18

abbrev pub kind_long : ℕ
kind_long = 19

abbrev pub kind_register : ℕ
kind_register = 20

abbrev pub kind_return : ℕ
kind_return = 21

abbrev pub kind_short : ℕ
kind_short = 22

abbrev pub kind_signed : ℕ
kind_signed = 23

abbrev pub kind_sizeof : ℕ
kind_sizeof = 24

abbrev pub kind_static : ℕ
kind_static = 25

abbrev pub kind_struct : ℕ
kind_struct = 26

abbrev pub kind_switch : ℕ
kind_switch = 27

abbrev pub kind_typedef : ℕ
kind_typedef = 28

abbrev pub kind_union : ℕ
kind_union = 29

abbrev pub kind_unsigned : ℕ
kind_unsigned = 30

abbrev pub kind_void : ℕ
kind_void = 31

abbrev pub kind_inline : ℕ
kind_inline = 32

abbrev pub kind_volatile : ℕ
kind_volatile = 34

abbrev pub kind_while : ℕ
kind_while = 39

abbrev pub kind_restrict : ℕ
kind_restrict = 48

abbrev pub kind_alignof : ℕ
kind_alignof = 49

abbrev pub kind_bool : ℕ
kind_bool = 50

abbrev pub kind_static_assert : ℕ
kind_static_assert = 56

abbrev pub kind_asm : ℕ
kind_asm = 104

abbrev pub kind_logical_or : ℕ
kind_logical_or = 65

abbrev pub kind_logical_and : ℕ
kind_logical_and = 66

abbrev pub kind_leq : ℕ
kind_leq = 67

abbrev pub kind_geq : ℕ
kind_geq = 68

abbrev pub kind_eq : ℕ
kind_eq = 69

abbrev pub kind_neq : ℕ
kind_neq = 70

abbrev pub kind_arrow : ℕ
kind_arrow = 71

abbrev pub kind_increment : ℕ
kind_increment = 72

abbrev pub kind_decrement : ℕ
kind_decrement = 73

abbrev pub kind_lshift : ℕ
kind_lshift = 74

abbrev pub kind_rshift : ℕ
kind_rshift = 75

abbrev pub kind_mul_assign : ℕ
kind_mul_assign = 76

abbrev pub kind_div_assign : ℕ
kind_div_assign = 77

abbrev pub kind_mod_assign : ℕ
kind_mod_assign = 78

abbrev pub kind_plus_assign : ℕ
kind_plus_assign = 79

abbrev pub kind_minus_assign : ℕ
kind_minus_assign = 80

abbrev pub kind_lshift_assign : ℕ
kind_lshift_assign = 81

abbrev pub kind_rshift_assign : ℕ
kind_rshift_assign = 82

abbrev pub kind_and_assign : ℕ
kind_and_assign = 83

abbrev pub kind_xor_assign : ℕ
kind_xor_assign = 84

abbrev pub kind_or_assign : ℕ
kind_or_assign = 85

abbrev pub kind_token_paste : ℕ
kind_token_paste = 86

abbrev pub kind_dots : ℕ
kind_dots = 87

abbrev pub kind_number : ℕ
kind_number = 116

abbrev pub kind_identifier : ℕ
kind_identifier = 117

abbrev pub kind_string : ℕ
kind_string = 118

abbrev pub kind_prep_number : ℕ
kind_prep_number = 120

abbrev pub kind_prep_char : ℕ
kind_prep_char = 121

abbrev pub kind_prep_string : ℕ
kind_prep_string = 122
