-- ===== src/Zlib.antt =====
-- fleetbench/compression/zlibwrapper.h and zlibwrapper.cc: the class ZLib over the zlib library.
pub mod Library
pub mod State
pub mod Call
pub mod CompressInit
pub mod Compress
pub mod Inflates
pub mod UncompressInit
pub mod UncompressHeader
pub mod Inflate
pub mod Uncompress
pub mod Footer
