-- ===== src/Zlib/Footer.antt =====
-- fleetbench/compression/zlibwrapper.cc: the gzip footer, and uncompressing whole buffers.
pub mod Written
pub mod Restarts
pub mod Confirmed
pub mod Image
pub mod Accepted
pub mod RoundTrip
pub mod Cut
pub mod Pieces
use fleetbench.Prelude.{
  ℕ, ◌+◌, ◌-◌, ◌*◌, ◌^◌, Bool, true, false, not, ◌&&◌, ◌||◌, [], ◌∷◌, Option, none, some, ltb, leb,
  ◌==◌, if◌then◌else◌, Bytes, get_or, low32, Run, done, ◌>>=◌,
}
use fleetbench.Gzip
use fleetbench.Gzip.{Status, complete_header, read_more}
use fleetbench.Zlib.Library.{
  Zlib, z_finish, Code, z_ok, z_data_error, z_mem_error, z_version_error, is_ok,
}
use fleetbench.Zlib.State.{ZLib, reset}
use fleetbench.Zlib.Call.{Call}
use fleetbench.Zlib.Uncompress.{uncompress_chunk_or_all}

-- Four bytes, the lowest first.
abbrev pub from_little_endian : (b0 b1 b2 b3 : ℕ) → ℕ
from_little_endian b0 b1 b2 b3 = b3 * 2 ^ 24 + b2 * 2 ^ 16 + b1 * 2 ^ 8 + b0

module _ {I : Type 0} where
  -- `IsGzipFooterComplete`.
  unfoldable pub is_gzip_footer_complete : ZLib I → Bool
  is_gzip_footer_complete zl = elim zl.gzip_footer_bytes [ none ↦ false | some n ↦ leb 8 n ]

  -- `IsGzipFooterValid`.
  unfoldable pub is_gzip_footer_valid : ZLib I → Bool
  unfolding is_gzip_footer_complete
  is_gzip_footer_valid zl =
      let at = λ (i : ℕ). get_or zl.gzip_footer i 0 in
      let uncompressed_size = from_little_endian (at 4) (at 5) (at 6) (at 7) in
      let checksum = from_little_endian (at 0) (at 1) (at 2) (at 3) in
      if not (is_gzip_footer_complete zl)
      then false
      else if not (uncompressed_size == low32 zl.uncompressed_size)
      then false
      else if not (zl.crc == checksum)
      then false
      else true

-- Whether some, but not all, of a footer was read.
abbrev pub partial_footer : Option ℕ → Bool
partial_footer none = false
partial_footer (some n) = not (n == 0) && not (n == 8)

-- `GzipUncompressedLength`.
unfoldable pub gzip_uncompressed_length : Bytes → (len : ℕ) → ℕ
gzip_uncompressed_length source len =
    let back = λ (i : ℕ). get_or source (len - i) 0 in
    if leb len 4 then 0 else from_little_endian (back 4) (back 3) (back 2) (back 1)

-- `HasGzipHeader`; the length is an `int`.
unfoldable pub has_gzip_header : Bytes → (source_len : ℕ) → Run Bool
has_gzip_header source source_len = do
  status ← read_more Gzip.initial source source_len
  done (elim status [ complete_header h n ↦ true | _ ↦ false ])

-- What `UncompressGzipAndAllocate` leaves: the call, and whether `*dest` is null.
pub record Allocated (I : Type 0) : Type 0 where
  pub call : Call I
  pub is_null : Bool

module _ {I : Type 0} where
  -- The verdict on the footer, when the data has ended.
  unfoldable pub footer_accepted : Bool → ZLib I → Bool
  unfolding is_gzip_footer_valid
  footer_accepted flexible zl =
      if flexible
      then true
      else if partial_footer zl.gzip_footer_bytes
      then false
      else if not zl.settings.gzip_header_mode
      then true
      else is_gzip_footer_valid zl

  -- `UncompressGzipAndAllocate` where it allocates nothing.
  abbrev pub null_dest : ZLib I → Code → (dest_len source_len : ℕ) → Allocated I
  null_dest zl code dest_len source_len = record {
    call = record {
      zlib = zl;
      code = code;
      dest_len = dest_len;
      source_len = source_len;
      writes = [];
    };
    is_null = true;
  }

module _ (z : Zlib) where
  open z use {Internal}

  -- The end of `UncompressChunkDone`, from the answer of its last `UncompressChunkOrAll` on.
  unfoldable pub close_chunks : Bool → Call Internal → ZLib Internal × Bool
  unfolding reset footer_accepted
  close_chunks flexible c =
      if not (is_ok c.code)
      then (c.zlib, false)
      else (reset c.zlib, footer_accepted flexible (reset c.zlib))

  -- `UncompressChunkDone`.
  unfoldable pub uncompress_chunk_done : Bool → ZLib Internal → Run (ZLib Internal × Bool)
  unfolding uncompress_chunk_or_all close_chunks
  uncompress_chunk_done flexible zl =
      if zl.first_chunk || not zl.uncomp_init
      then done (zl, false)
      else (uncompress_chunk_or_all z flexible zl 0 (0 ∷ []) 0 z_finish >>= λ c.
          done (close_chunks flexible c))

  -- `Uncompress`.
  unfoldable pub finish_uncompress : Bool → Call Internal → Run (Call Internal)
  unfolding uncompress_chunk_done reset
  finish_uncompress flexible c =
      if not (is_ok c.code)
      then done (record c { zlib = reset c.zlib })
      else (uncompress_chunk_done flexible c.zlib >>= λ r.
          done (record c { zlib = r.0; code = if not r.1 then z_data_error else z_ok }))

  unfoldable pub uncompress :
      Bool → ZLib Internal → (dest_len : ℕ) → Bytes → (source_len : ℕ) → Run (Call Internal)
  unfolding uncompress_chunk_or_all finish_uncompress
  uncompress flexible zl dest_len source source_len = do
    c ← uncompress_chunk_or_all z flexible zl dest_len source source_len z_finish
    finish_uncompress flexible c

  -- `UncompressGzipAndAllocate`. `malloc` says for which sizes there is memory. The caller's
  -- `sourceLen` is narrowed to the `int` of `HasGzipHeader`.
  unfoldable pub uncompress_gzip_and_allocate :
      (malloc : ℕ → Bool)
      → Bool
      → ZLib Internal
      → (dest_len : ℕ) → Bytes
      → (source_len : ℕ) → Run (Allocated Internal)
  unfolding gzip_uncompressed_length has_gzip_header uncompress
  uncompress_gzip_and_allocate malloc flexible zl dest_len source source_len =
      let said = gzip_uncompressed_length source source_len in
      if not zl.settings.gzip_header_mode
      then done (null_dest zl z_version_error dest_len source_len)
      else if ltb dest_len said
      then (has_gzip_header source (low32 source_len) >>= λ has.
          done (null_dest zl (if not has then z_data_error else z_mem_error) dest_len source_len))
      else if not (malloc said)
      then done (null_dest zl z_mem_error said source_len)
      else (uncompress flexible zl said source source_len >>= λ c.
          done (record { call = c; is_null = not (is_ok c.code) }))
