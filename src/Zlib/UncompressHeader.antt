-- ===== src/Zlib/UncompressHeader.antt =====
-- fleetbench/compression/zlibwrapper.cc: the gzip header before the data, and the footer behind it.
-- `flexible` is the flag `flexible_with_gzip_footer`.
use fleetbench.Prelude.{
  ℕ, ◌+◌, Bool, not, ◌&&◌, [], ◌++◌, none, some, ltb, if◌then◌else◌, Bytes, length, take, drop,
  low32, add64, sub64, Run, done, ◌>>=◌,
}
use fleetbench.Gzip.{Status, incomplete_header, invalid_header, complete_header, read_more}
use fleetbench.Zlib.Library.{Zlib, Code, z_ok, z_data_error}
use fleetbench.Zlib.State.{ZLib, reset}
use fleetbench.Zlib.Call.{Call}

-- `memcpy(gzip_footer_ + at, bytes, n)`.
unfoldable pub store : ℕ → Bytes → Bytes → Bytes
store at bytes footer = take at footer ++ (bytes ++ drop (at + length bytes) footer)

-- A phase of the call returns, or goes on from a state with the rest of the source.
pub data Phase (I : Type 0) : Type 0 where
  returns : Call I → Phase I
  goes_on : ZLib I → (source : Bytes) → (source_len : ℕ) → Phase I

abbrev pub answer : {I : Type 0} → ZLib I → Code → (dest_len source_len : ℕ) → Call I
answer zl code dest_len source_len = record {
  zlib = zl;
  code = code;
  dest_len = dest_len;
  source_len = source_len;
  writes = [];
}

module _ {I : Type 0} where
  -- "We're now just reading the gzip footer. We already read all the data."
  unfoldable pub read_footer :
      Bool → ZLib I → (have dest_len : ℕ) → Bytes → (source_len : ℕ) → Call I
  unfolding reset store
  read_footer flexible zl have dest_len source source_len =
      let room = sub64 8 have in
      let len = if ltb source_len room then source_len else room in
      if ltb 8 (add64 have source_len) && not flexible
      then answer (reset zl) z_data_error dest_len source_len
      else answer
          (record zl {
            gzip_footer = store have (take len source) zl.gzip_footer;
            gzip_footer_bytes = some (have + len);
          })
          z_ok 0 (sub64 source_len len)

module _ (z : Zlib) where
  open z use {Internal, crc32}

  -- What the header parser's answer means for the call.
  unfoldable pub after_header :
      ZLib Internal → (dest_len : ℕ) → Bytes → (source_len : ℕ) → Status → Phase Internal
  unfolding reset
  after_header zl dest_len source source_len (incomplete_header h) =
      returns (answer (record zl { gzip_header = h }) z_ok 0 0)
  after_header zl dest_len source source_len (invalid_header h) =
      returns (answer (reset zl) z_data_error dest_len source_len)
  after_header zl dest_len source source_len (complete_header h n) =
      goes_on (record zl { gzip_header = h; crc = crc32 0 [] }) (drop n source) (sub64 source_len n)

  unfoldable pub parse_header :
      ZLib Internal → (dest_len : ℕ) → Bytes → (source_len : ℕ) → Run (Phase Internal)
  unfolding after_header
  parse_header zl dest_len source source_len = do
    status ← read_more zl.gzip_header source (low32 source_len)
    done (after_header zl dest_len source source_len status)

  -- The header of the first chunk, or the footer behind the data.
  unfoldable pub header_phase :
      Bool → ZLib Internal → (dest_len : ℕ) → Bytes → (source_len : ℕ) → Run (Phase Internal)
  unfolding read_footer parse_header
  header_phase flexible zl dest_len source source_len =
      let first = record zl { gzip_footer_bytes = none } in
      if zl.first_chunk
      then (if zl.settings.gzip_header_mode
          then parse_header first dest_len source source_len
          else done (goes_on first source source_len))
      else elim zl.gzip_footer_bytes [
        | none ↦ done (goes_on zl source source_len)
        | some have ↦ done (returns (read_footer flexible zl have dest_len source source_len))
      ]
