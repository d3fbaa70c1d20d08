-- ===== src/Rpc.antt =====
-- fleetbench/rpc: the hand-written part of the rpc benchmark.
pub mod Client
pub mod Distribution
