-- ===== src/Tests.antt =====
-- Runs of the modelled code on concrete inputs, and instances of the theorems.
mod Headers
mod Compressor
mod Footers
mod Sampling
mod Setup
mod Calls
mod Memory
mod Replays
mod Sets
mod Coding
mod Images
mod Drives
