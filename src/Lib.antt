-- ===== src/Lib.antt =====
-- lacc, a compiler for C: the preprocessor (src/preprocessor) cuts lines into tokens, the parser
-- (src/parser) builds types, symbols and basic blocks, the optimizer (src/optimizer) rewrites the
-- blocks, and the backend (src/backend) writes assembly or an object file. This library models
-- the parts on which the others stand.
--
-- - Types (src/parser/typetree.c, include/lacc/type.h): the value `Type` is the record `CType`,
--   the global array `types` is the list `Types`, and a reference is a position in it, from 1.
--   Code that writes through a handle takes the list and returns the new one. Types/Defs has the
--   data and the access to the list; Types/Query what reads a type; Types/Build what creates and
--   changes one, with Create for pointers, functions, arrays and declarators, Member for members
--   and their offsets, Field for bit-fields, and Seal for the end of a struct or union;
--   Types/Equal the comparisons; Types/Convert the arithmetic conversions. Types/Arena has lemmas
--   on the list.
-- - Abi (src/backend/x86_64/abi.c): the classes by which a value is passed, computed from the
--   members that Types gives.
-- - Strings (src/util/string.c, src/preprocessor/strtab.c): a string is the list of its bytes.
--   Strings/Char has the character classes of the C locale.
-- - Tokenize (src/preprocessor/tokenize.c): Token and Kind for include/lacc/token.h, Table for
--   `basic_token`, Number for numbers, Escape for the conversion of characters and strings,
--   Literal, Ident and Operator for the four ways to cut a token, Line for `tokenize`. A function
--   that returns a pointer behind what it read returns the number of bytes read. A constant gets
--   its type from Types.
-- - Ir (include/lacc/ir.h, include/lacc/symbol.h): the blocks of three-address code, with
--   pointers to blocks and symbols as positions in lists. Ir/Bits has the sets that are bits of a
--   word.
-- - Optimizer (src/optimizer): Liveness for liveness.c, Transform for transform.c, Flow for
--   optimize.c. Liveness/Reads says what a statement reads and overwrites, and Liveness/Paths
--   what a live variable is by paths through the graph; Flow/Sound joins the parts.
-- - Symtab (src/parser/symtab.c): Scopes for the scopes of a namespace, each with a table of
--   Hash, Declare for redeclarations, which change types by Types and symbols of Ir, Add for the
--   state and `sym_add`, and Create for symbols that the compiler makes up. Scopes/Stack has the
--   stack of maps that the scopes stand for.
-- - Encoding (src/backend/x86_64/encoding.c): from an instruction, with its operands, to machine
--   code. Defs and Table have the types and the table of encodings, Code the bytes written so far
--   and what src/backend/x86_64/elf.c keeps for the places that a symbol fills. Address writes
--   memory operands, Immediate immediate ones, Form has the functions for the forms of
--   instructions, Match the search for a row, Encode the whole, Mnemonic the names in assembly.
--   Address/Decode reads a memory operand as the processor does; Length counts bytes. Flush has
--   the function of elf.c that fills in the displacements of jumps to later labels.
-- - Eval (src/parser/eval.c): Convert for the conversion of constants and the cast of variables of
--   Ir, Emit for temporaries and statements, Word for the arithmetic of constants, Operate and
--   Compare for the operators.
-- - Hash (src/util/hash.c): the chained table over strings, over any type of data. The callbacks
--   are arguments. Slots and Chain have the invariant and the laws, Methods and Map and Clear the
--   operations.
-- - Base: shared names, Boolean tests, lists over the native numbers, and the result `Run`.
--   Tests: the theorems at concrete inputs.
--
-- Numbers are natural numbers, and where the code computes in a machine word the model takes the
-- result modulo its size (`u64` for size_t and unsigned long). A short that the code keeps in the
-- range of a bit-field's unit is a number with no bound. A failed assertion, an error that ends
-- the program, and a step that C leaves undefined are the errors of `Run`.
--
-- Fuel: a function that follows references recursively takes fuel. `size_of`, `type_alignment`,
-- `is_vla`, `is_variably_modified` and `classify` give one more than the number of trees (two
-- more where a value holds a pointer of its own), which is enough where every tree refers to
-- earlier ones, as it is for types that the parser builds from their parts; for `size_of`
-- this is proved. The comparisons take any fuel, since the code itself does not always
-- end. The scanners of strings take the length of the text, of which each step reads a byte.
-- The loops of the optimizer take the fuel of the record `Fuel`. For `serialize_basic_blocks` one
-- more than the number of blocks is proved to be enough, and for `skip_empty_blocks` one more than
-- the number of blocks that are skipped, but that loop does not always end in the code.
--
-- The bytes of an instruction have no bound in the model, where the code has an array of 15; the
-- reads of a member of an operand that is not in use are undefined.
--
-- Parameters: `strtod` and the conversions of its result to float and long double are the record
-- `FloatLibrary`; what C does with a real constant in a conversion is the record `Reals`, and the
-- operators on real constants are fields of `Context`. The C
-- library's `strtoul`, `strtol` and ctype.h, of which the code needs the documented behaviour on
-- decimal, octal and hexadecimal digits, are written out.
--
-- Not modelled: printing of types, symbols and live variables; sharing of registered strings by
-- pointer; symbols of string literals; the macro and directive layers; the parser proper;
-- addition, subtraction, assignment and addresses in eval.c; code generation, object files and
-- debug information;
-- input, the driver and diagnostics.
pub mod Base
pub mod Types
pub mod Abi
pub mod Ir
pub mod Optimizer
pub mod Symtab
pub mod Encoding
pub mod Eval
pub mod Strings
pub mod Tokenize
pub mod Hash
pub mod Tests
