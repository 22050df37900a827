-- ===== src/Optimizer.antt =====
-- src/optimizer: live variables, dead stores, and the order of work on the flow graph.
pub mod Liveness
pub mod Transform
pub mod Flow
