-- ===== src/Types.antt =====
-- include/lacc/type.h and src/parser/typetree.c: the representation of C types, the arena of type
-- trees, and the layout of structs and unions.
pub mod Defs
pub mod Arena
pub mod Query
pub mod Build
pub mod Equal
pub mod Convert
