-- ===== src/Zlib/Inflates.antt =====
-- What zlib.h documents of the calls on an uncompressing stream, as far as zlibwrapper.cc relies on
-- it.
use fleetbench.Prelude.{ℕ, ◌+◌, ◌^◌, ◌≤◌, ◌<◌, ◌≡◌, ◌++◌, ℤ, negsuc, Bytes, length, take}
use fleetbench.Zlib.Library.{Zlib, Stream, Flush, z_finish, z_ok, z_stream_end, Moves}

module _ {I : Type 0} where
  -- The buffers that the caller has set stay as they are.
  pub record KeepsBuffers (s t : Stream I) : Type 0 where
    pub same_next_in : t.next_in ≡ s.next_in
    pub same_avail_in : t.avail_in ≡ s.avail_in
    pub same_avail_out : t.avail_out ≡ s.avail_out

-- `Live` holds of a stream from a successful initialisation to its end. Initialising and resetting
-- start the counts again.
pub record Inflates (z : Zlib) : Type 1 where
  pub Live : z.Internal → Type 0
  pub init2_live :
      (window_bits : ℤ) (s : Stream z.Internal)
      → (z.inflate_init2 window_bits s).code ≡ z_ok
      → Live (z.inflate_init2 window_bits s).stream.internal
  pub init2_keeps :
      (window_bits : ℤ) (s : Stream z.Internal)
      → KeepsBuffers s (z.inflate_init2 window_bits s).stream
  pub init2_in :
      (window_bits : ℤ) (s : Stream z.Internal)
      → (z.inflate_init2 window_bits s).code ≡ z_ok
      → (z.inflate_init2 window_bits s).stream.total_in ≡ 0
  pub init2_out :
      (window_bits : ℤ) (s : Stream z.Internal)
      → (z.inflate_init2 window_bits s).code ≡ z_ok
      → (z.inflate_init2 window_bits s).stream.total_out ≡ 0
  pub reset2_live :
      (window_bits : ℤ) (s : Stream z.Internal)
      → Live s.internal
      → Live (z.inflate_reset2 window_bits s).stream.internal
  pub reset2_keeps :
      (window_bits : ℤ) (s : Stream z.Internal)
      → KeepsBuffers s (z.inflate_reset2 window_bits s).stream
  pub reset2_in :
      (window_bits : ℤ) (s : Stream z.Internal)
      → (z.inflate_reset2 window_bits s).code ≡ z_ok
      → (z.inflate_reset2 window_bits s).stream.total_in ≡ 0
  pub reset2_out :
      (window_bits : ℤ) (s : Stream z.Internal)
      → (z.inflate_reset2 window_bits s).code ≡ z_ok
      → (z.inflate_reset2 window_bits s).stream.total_out ≡ 0
  pub dictionary_live :
      (d n : ℕ) (s : Stream z.Internal)
      → Live s.internal
      → Live (z.inflate_set_dictionary d n s).stream.internal
  pub dictionary_keeps :
      (d n : ℕ) (s : Stream z.Internal) → KeepsBuffers s (z.inflate_set_dictionary d n s).stream
  pub dictionary_in :
      (d n : ℕ) (s : Stream z.Internal)
      → (z.inflate_set_dictionary d n s).stream.total_in ≡ s.total_in
  pub dictionary_out :
      (d n : ℕ) (s : Stream z.Internal)
      → (z.inflate_set_dictionary d n s).stream.total_out ≡ s.total_out
  pub end_keeps : (s : Stream z.Internal) → KeepsBuffers s (z.inflate_end s)
  pub inflate_live :
      (f : Flush) (s : Stream z.Internal) → Live s.internal → Live (z.inflate f s).stream.internal
  pub inflate_moves :
      (f : Flush) (s : Stream z.Internal) → Live s.internal → Moves s (z.inflate f s)

-- `inflate` undoes `deflate`: whatever a new stream without a header, of at most the window that
-- inflating uses, is given in one call with Z_FINISH, a new stream without a header gives back in one
-- call, and it leaves the bytes behind. There is memory for the stream. A checksum has 32 bits.
pub record Inverts (z : Zlib) : Type 1 where
  pub opens : (s : Stream z.Internal) → (z.inflate_init2 (negsuc 14) s).code ≡ z_ok
  pub inverts :
      (level mem_level : ℤ) (w : ℕ) (a s b t : Stream z.Internal) (rest : Bytes)
      → w < 15
      → (z.deflate_init2 level (negsuc w) mem_level a).code ≡ z_ok
      → s.internal ≡ (z.deflate_init2 level (negsuc w) mem_level a).stream.internal
      → (z.deflate z_finish s).code ≡ z_stream_end
      → (z.deflate z_finish s).stream.avail_in ≡ 0
      → t.internal ≡ (z.inflate_init2 (negsuc 14) b).stream.internal
      → t.next_in ≡ (z.deflate z_finish s).wrote ++ rest
      → t.avail_in ≡ length (z.deflate z_finish s).wrote + length rest
      → s.avail_in ≤ t.avail_out
      → ((z.inflate z_finish t).code ≡ z_stream_end)
        × ((z.inflate z_finish t).wrote ≡ take s.avail_in s.next_in)
        × ((z.inflate z_finish t).stream.avail_in ≡ length rest)
  pub crc32_small : (crc : ℕ) (bytes : Bytes) → z.crc32 crc bytes < 2 ^ 32
