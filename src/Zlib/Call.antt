-- ===== src/Zlib/Call.antt =====
-- What a call of fleetbench/compression/zlibwrapper.cc leaves behind, and the gzip header and footer
-- that it stores.
use fleetbench.Prelude.{ℕ, ◌+◌, ◌-◌, ◌/◌, ◌%◌, ◌^◌, List, [], ◌∷◌, ◌++◌, ltb, if◌then◌else◌, Bytes}
use fleetbench.Zlib.Library.{Code, z_ok, z_buf_error}
use fleetbench.Zlib.State.{ZLib}

-- Bytes stored at an offset of the caller's buffer.
pub record Write : Type 0 where
  pub at : ℕ
  pub bytes : Bytes

-- How a call leaves the object, its code, what `*destLen` and `*sourceLen` hold, and what it has
-- stored in the buffer, in order.
pub record Call (I : Type 0) : Type 0 where
  pub zlib : ZLib I
  pub code : Code
  pub dest_len : ℕ
  pub source_len : ℕ
  pub writes : List Write

-- `GZIP_HEADER` without the NUL of the literal, which `sizeof(GZIP_HEADER)` counts.
abbrev pub gzip_header_bytes : Bytes
gzip_header_bytes = 0x1f ∷ 0x8b ∷ 8 ∷ 0 ∷ 0 ∷ 0 ∷ 0 ∷ 0 ∷ 2 ∷ 0xff ∷ []

-- `value >> shift & 255`.
abbrev byte_of : ℕ → ℕ → ℕ
byte_of value shift = value / 2 ^ shift % 256

abbrev pub little_endian : ℕ → Bytes
little_endian v = byte_of v 0 ∷ byte_of v 8 ∷ byte_of v 16 ∷ byte_of v 24 ∷ []

module _ {I : Type 0} where
  -- `WriteGzipHeader`; the writes come with the new state.
  unfoldable pub write_gzip_header : ZLib I → ZLib I × Code × List Write
  write_gzip_header zl =
      let s = zl.comp_stream in
      if ltb s.avail_out 11 then (zl, z_buf_error, []) else (
        record zl {
          comp_stream = record s { next_out = s.next_out + 10; avail_out = s.avail_out - 10 };
        },
        z_ok,
        record { at = s.next_out; bytes = gzip_header_bytes } ∷ [],
      )

  -- The eight bytes of the footer: the checksum and the length.
  unfoldable pub footer_bytes : ZLib I → Bytes
  footer_bytes zl = little_endian zl.crc ++ little_endian zl.uncompressed_size

  -- `WriteGzipFooter` at the offset `dest`, with `dest_len` bytes of room.
  unfoldable pub write_gzip_footer : ZLib I → (dest dest_len : ℕ) → Code × List Write
  unfolding footer_bytes
  write_gzip_footer zl dest dest_len =
      if ltb dest_len 8
      then (z_buf_error, [])
      else (z_ok, record { at = dest; bytes = footer_bytes zl } ∷ [])
