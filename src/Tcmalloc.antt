-- ===== src/Tcmalloc.antt =====
-- fleetbench/tcmalloc: the sampler and the simulator of empirical.h and empirical.cc.
pub mod Sampler
pub mod Simulator
pub mod Replay
pub mod Profile
pub mod Driver
pub mod Registration
