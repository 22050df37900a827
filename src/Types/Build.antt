-- ===== src/Types/Build.antt =====
-- src/parser/typetree.c: the functions that create and change types. A function that changes the
-- global list returns the new one.
pub mod Create
pub mod Member
pub mod Field
pub mod Seal
