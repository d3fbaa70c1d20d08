-- ===== src/Zlib/Footer/Cut.antt =====
-- zlibwrapper.cc: `Uncompress` on a buffer that ends within the gzip header.
use fleetbench.Prelude.{
  ℕ, ◌^◌, ◌<◌, ◌≡◌, refl, Bool, true, not, ◌||◌, [], none, if◌then◌else◌, if_cases, Bytes, length,
  low32, arith, Run, done, ◌>>=◌, ap, ◌∙◌,
}
use fleetbench.Gzip.{Header, incomplete_header, read_more}
use fleetbench.Zlib.Library.{Zlib, z_finish, z_ok, z_data_error, is_buf_error}
use fleetbench.Zlib.State.{ZLib}
use fleetbench.Zlib.Call.{Call}
use fleetbench.Zlib.UncompressHeader.{
  Phase, returns, header_phase, parse_header, after_header, answer,
}
use fleetbench.Zlib.UncompressInit.{uncompress_error_init}
use fleetbench.Zlib.Uncompress.{with_stream, uncompress_at_most_or_all, uncompress_chunk_or_all}
use fleetbench.Zlib.Footer.{uncompress_chunk_done, finish_uncompress, uncompress}

module _ (z : Zlib) (flexible : Bool) (zl : ZLib z.Internal) (dest_len : ℕ) (source : Bytes)
    (h : Header) (first : zl.first_chunk ≡ true) (gzip : zl.settings.gzip_header_mode ≡ true)
    (short : length source < 2 ^ 31)
    (cut : read_more zl.gzip_header source (length source) ≡ done (incomplete_header h)) where
  abbrev midway : ZLib z.Internal
  midway = record zl { gzip_footer_bytes = none; gzip_header = h }

  header_phase-cut_header :
      header_phase z flexible zl dest_len source (length source)
      ≡ done (returns (answer midway z_ok 0 0))
  unfolding header_phase parse_header after_header
  header_phase-cut_header =
      let Q : Run (Phase z.Internal) → Type 0 = λ m. m ≡ done (returns (answer midway z_ok 0 0)) in
      let low : low32 (length source) ≡ length source = omega arith in
      if_cases Q zl.first_chunk _ _
        (λ _.
          if_cases Q zl.settings.gzip_header_mode _ _ (λ _. rw (low, cut) refl)
            (λ no. absurd (ground (arith, no, gzip))))
        (λ no. absurd (ground (arith, no, first)))

  chunk_or_all-cut_header :
      uncompress_chunk_or_all z flexible zl dest_len source (length source) z_finish
      ≡ done (answer midway z_ok 0 0)
  unfolding uncompress_chunk_or_all uncompress_at_most_or_all with_stream
  chunk_or_all-cut_header =
      ap
        (λ (m : Run (Phase z.Internal)). (m >>= with_stream z flexible dest_len z_finish) >>= λ c.
          done
            (if is_buf_error c.code then record c { zlib = uncompress_error_init z c.zlib } else c))
        header_phase-cut_header

  finish-cut_header :
      finish_uncompress z flexible (answer midway z_ok 0 0) ≡ done (answer midway z_data_error 0 0)
  unfolding finish_uncompress uncompress_chunk_done
  finish-cut_header =
      if_cases
        (λ (m : Run (ZLib z.Internal × Bool)).
          (m >>= λ r. done (record (answer midway z_ok 0 0) {
            zlib = r.0;
            code = if not r.1 then z_data_error else z_ok;
          }))
          ≡ done (answer midway z_data_error 0 0))
        (zl.first_chunk || not zl.uncomp_init) _ _ (λ _. refl)
        (λ busy. absurd (ground (arith, busy, first)))

  -- A buffer below 2^31 bytes that ends within the gzip header makes `Uncompress`, in gzip mode and at
  -- the first chunk of an image, answer Z_DATA_ERROR with nothing written, and leaves the header parser
  -- in the middle of the header: the next call does not begin with a new one.
  pub uncompress-cut_header :
      uncompress z flexible zl dest_len source (length source)
      ≡ done (record {
        zlib = record zl { gzip_footer_bytes = none; gzip_header = h };
        code = z_data_error;
        dest_len = 0;
        source_len = 0;
        writes = [];
      })
  unfolding uncompress
  uncompress-cut_header =
      ap (λ (m : Run (Call z.Internal)). m >>= finish_uncompress z flexible) chunk_or_all-cut_header
      ∙ finish-cut_header
