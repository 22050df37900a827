-- ===== src/Symtab.antt =====
-- src/parser/symtab.c: names, the scopes they are visible in, and the symbols they stand for.
pub mod Scopes
pub mod Declare
pub mod Add
pub mod Create
