-- ===== src/Zlib/Uncompress.antt =====
-- fleetbench/compression/zlibwrapper.cc, uncompress mode, one chunk at a time.
use fleetbench.Prelude.{
  ℕ, Bool, false, not, ◌&&◌, ◌||◌, ◌==◌, if◌then◌else◌, Bytes, Run, done, ◌>>=◌,
}
use fleetbench.Zlib.Library.{Zlib, Flush, z_sync_flush, z_ok, is_ok, is_buf_error}
use fleetbench.Zlib.State.{ZLib}
use fleetbench.Zlib.Call.{Call}
use fleetbench.Zlib.UncompressInit.{uncompress_error_init, uncompress_init}
use fleetbench.Zlib.UncompressHeader.{Phase, returns, goes_on, answer, header_phase}
use fleetbench.Zlib.Inflate.{set_inflate_dictionary, uncompress_body}

module _ (z : Zlib) where
  open z use {Internal}

  -- "Some setup happens only for the first chunk we compress in a run"; only then there may be no
  -- data at all.
  unfoldable pub first_phase :
      ZLib Internal → (dest_len : ℕ) → Bytes → (source_len : ℕ) → Phase Internal
  unfolding set_inflate_dictionary uncompress_error_init
  first_phase zl dest_len source source_len =
      let s = zl.settings in
      let (zl1, err) =
        if (s.gzip_header_mode || s.no_header_mode) && not (s.dictionary == 0)
        then set_inflate_dictionary z zl
        else (zl, z_ok) in
      let zl2 = record zl1 { first_chunk = false } in
      if not zl.first_chunk
      then goes_on zl source source_len
      else if not (is_ok err)
      then returns (answer zl1 err dest_len source_len)
      else if source_len == 0
      then returns (answer zl2 z_ok 0 source_len)
      else goes_on zl2 source source_len

  unfoldable pub after_first : Bool → (dest_len : ℕ) → Flush → Phase Internal → Run (Call Internal)
  unfolding uncompress_body
  after_first flexible dest_len flush (returns call) = done call
  after_first flexible dest_len flush (goes_on zl source source_len) =
      uncompress_body z flexible zl dest_len source source_len flush

  -- From `UncompressInit` on.
  unfoldable pub with_stream : Bool → (dest_len : ℕ) → Flush → Phase Internal → Run (Call Internal)
  unfolding uncompress_init first_phase after_first
  with_stream flexible dest_len flush (returns call) = done call
  with_stream flexible dest_len flush (goes_on zl source source_len) =
      let (zl', err) = uncompress_init z zl dest_len source source_len in
      if not (is_ok err)
      then done (answer zl' err dest_len source_len)
      else after_first flexible dest_len flush (first_phase zl' dest_len source source_len)

  -- `UncompressAtMostOrAll`.
  unfoldable pub uncompress_at_most_or_all :
      Bool → ZLib Internal → (dest_len : ℕ) → Bytes → (source_len : ℕ) → Flush → Run (Call Internal)
  unfolding header_phase with_stream
  uncompress_at_most_or_all flexible zl dest_len source source_len flush = do
    phase ← header_phase z flexible zl dest_len source source_len
    with_stream flexible dest_len flush phase

  -- `UncompressChunkOrAll`.
  unfoldable pub uncompress_chunk_or_all :
      Bool → ZLib Internal → (dest_len : ℕ) → Bytes → (source_len : ℕ) → Flush → Run (Call Internal)
  unfolding uncompress_at_most_or_all uncompress_error_init
  uncompress_chunk_or_all flexible zl dest_len source source_len flush = do
    c ← uncompress_at_most_or_all flexible zl dest_len source source_len flush
    done (if is_buf_error c.code then record c { zlib = uncompress_error_init z c.zlib } else c)

  -- `UncompressAtMost` and `UncompressChunk`.
  unfoldable pub uncompress_at_most :
      Bool → ZLib Internal → (dest_len : ℕ) → Bytes → (source_len : ℕ) → Run (Call Internal)
  unfolding uncompress_at_most_or_all
  uncompress_at_most flexible zl dest_len source source_len =
      uncompress_at_most_or_all flexible zl dest_len source source_len z_sync_flush

  unfoldable pub uncompress_chunk :
      Bool → ZLib Internal → (dest_len : ℕ) → Bytes → (source_len : ℕ) → Run (Call Internal)
  unfolding uncompress_chunk_or_all
  uncompress_chunk flexible zl dest_len source source_len =
      uncompress_chunk_or_all flexible zl dest_len source source_len z_sync_flush
