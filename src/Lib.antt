-- ===== src/Lib.antt =====
-- Verification library of fleetbench, a suite of microbenchmarks that mimic fleet workloads.
--
-- The modelled parts, and the files that model them:
--
-- Gzip: fleetbench/compression/gzipheader.h and gzipheader.cc, the incremental parser of gzip
-- headers. `GZipHeader` is the record `Header`, `ReadMore` is `read_more`, with its bulk skips
-- over the extra field and the texts. Gzip/Scan has a byte-by-byte reference, Gzip/Chunks the
-- resumption on a second buffer, Gzip/Layout the layout of RFC 1952 that the parser is compared
-- with. Offsets stand for pointers.
-- Zlib: fleetbench/compression/zlibwrapper.h and zlibwrapper.cc, the class `ZLib`. Its fields are
-- the record `ZLib` of Zlib/State; Zlib/CompressInit and Zlib/Compress are compress mode;
-- Zlib/Inflate, Zlib/UncompressHeader, Zlib/UncompressInit, Zlib/Uncompress and Zlib/Footer are
-- uncompress mode. A method takes the object and returns the new one in a `Call`, with its code,
-- what `*destLen` and `*sourceLen` then hold, and what it stored in the caller's buffer. zlib
-- itself is the parameter `Zlib` of Zlib/Library. What zlib.h documents of it are the hypotheses
-- `Deflates` (Zlib/Library), `Finishes` (Zlib/Compress/New), `Inflates` and `Inverts`
-- (Zlib/Inflates). `contents` puts the stored bytes together to the image.
-- `ZLib` calls the parser of Gzip for the headers it reads.
-- Tcmalloc: fleetbench/tcmalloc/empirical.h and empirical.cc. Tcmalloc/Sampler is
-- `AdjustableSampler`, over any arithmetic on weights; Tcmalloc/Simulator is the state of
-- `EmpiricalData` and the recording of a trace, Tcmalloc/Replay its construction, the replay and
-- the destruction, with the updates between replays, Tcmalloc/Profile the reading of its profile.
-- Tcmalloc/Driver is `SimThread` and the driver of empirical_driver.cc, which records a trace once
-- and replays it, and Tcmalloc/Registration what sets the driver up and registers it; the
-- benchmark library answers how many batches are run, and each thread works on the heap as it
-- sees it. What the driver asks of the allocator is the parameter `Extension`.
-- The allocator and the random engine are the parameter `World`. The simulator keeps the death
-- rates of its size classes in a sampler.
-- Registrar: fleetbench/dynamic_registrar.h and dynamic_registrar.cc, the callbacks and filters
-- that the benchmarks register before main.
-- Main: fleetbench/benchmark_main.cc, the filter that `main` takes from the flag or the registrar
-- before it runs the callbacks, the processors it keeps to and the memory limit it warns of.
-- Compression: fleetbench/compression/compression_parameter.cc, the levels of each algorithm.
-- Common: fleetbench/common/common.h and common.cc, the random engine's seed, the distribution
-- files, the cache sizes and the command line.
-- Libc: fleetbench/libc/mem_benchmark.cc, utils.h and utils.cc. Libc/Sizes is `SampleSizeBytes`,
-- over any arithmetic on doubles, Libc/Offsets is `GetNextOffset` and the search for operands
-- that overlap or lie apart, Libc/Parameters is `BM_Memory` up to the call that is timed, and
-- Libc/Buffers the loop of `CmpFunction`. The random engine is the parameter `Engine`. A read of
-- an uninitialized variable gives any number, an argument of the model; a write outside a vector
-- changes nothing.
-- Rpc: fleetbench/rpc. Rpc/Client has the connections that the constructor of `GRPCClient` makes,
-- and the streams of calls as histories of events: one by one, what the constructor and the
-- callbacks do in their threads. Rpc/Distribution has generator_process.h and
-- generator_process.cc, whose delays the client and the server sleep. gRPC and the random draws
-- are not modelled: an event can happen whenever a thread is free to take it, and the draws are
-- the parameter `Entropy`.
-- Swissmap: fleetbench/swissmap/swissmap_benchmark.h. Swissmap has `Transpose` and
-- `GetNumSetsOfSize`, less the cache that keeps its results.
--
-- Numbers are natural numbers, with the wrap-around of `int`, `unsigned` and `uLong` written out
-- (Prelude/Int). Loops that are not structural run on fuel: eighteen turns for each byte and as
-- many more in the header parser, whose states go up between two bytes; 64 doublings in
-- `NextPowerOfTwo`; as many turns as there are leaves in a walk down the tree; as many as there
-- are objects in the repair of a size class; as many as the trace has operations in a replay; and
-- as many as there are bytes to allocate in the construction of the simulator, which is enough
-- where no size is 0. The search for operands that lie apart takes its fuel as an argument: as
-- many turns as there are blocks are enough below a quarter of the buffer. Fuel that runs out
-- would be the result `stuck`. A failed CHECK is `fatal`, and so is the
-- assert of `CompressChunkDone`, a division by 0, an index of a death out of range, a store through
-- a null pointer or an exception that nothing catches.
--
-- The search for operands that lie apart is shown to end where four times the size and 192 bytes fit
-- in the buffer. For larger sizes, up to a third of it, whether it ends hangs on the draws of the
-- shuffle, and nothing is shown of them.
--
-- Not modelled: the benchmarks' timed loops, generated messages and tables, file and process
-- access, and the Python scripts.
pub mod Prelude
pub mod Gzip
pub mod Zlib
pub mod Tcmalloc
pub mod Libc
pub mod Registrar
pub mod Main
pub mod Compression
pub mod Common
pub mod Rpc
pub mod Swissmap
pub mod Tests
