-- ===== src/Hash.antt =====
-- src/util/hash.c and include/lacc/hash.h: the chained hash table over strings.
pub mod Table
pub mod Chain
pub mod Slots
pub mod Methods
pub mod Map
pub mod Clear
