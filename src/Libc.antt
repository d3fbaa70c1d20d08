-- ===== src/Libc.antt =====
-- fleetbench/libc: the calls of memory functions that the benchmarks time, prepared in mem_benchmark.cc.
pub mod Buffers
pub mod Offsets
pub mod Sizes
pub mod Parameters
