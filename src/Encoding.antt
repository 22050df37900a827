-- ===== src/Encoding.antt =====
-- src/backend/x86_64/encoding.c: from instructions to machine code.
pub mod Defs
pub mod Code
pub mod Flush
pub mod Table
pub mod Address
pub mod Immediate
pub mod Form
pub mod Match
pub mod Encode
pub mod Mnemonic
pub mod Relocation
pub mod Length
