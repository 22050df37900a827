-- ===== src/Tests.antt =====
-- The theorems at concrete inputs.
pub mod Sizes
pub mod Fields
pub mod Kinds
pub mod Tokens
pub mod Tables
pub mod Classes
pub mod Flows
pub mod Machine
pub mod Names
pub mod Constants
