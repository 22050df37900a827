-- ===== src/Eval.antt =====
-- src/parser/eval.c: the evaluation of constants.
pub mod Convert
pub mod Emit
pub mod Word
pub mod Operate
pub mod Compare
