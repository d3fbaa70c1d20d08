-- ===== src/Zlib/Compress.antt =====
-- fleetbench/compression/zlibwrapper.cc, compress mode.
pub mod Bounds
pub mod Whole
pub mod New
pub mod NewImage
use fleetbench.Prelude.{
  ℕ, suc, ◌+◌, ◌-◌, ◌*◌, ◌/◌, ◌%◌, ◌^◌, Bool, true, false, not, ◌&&◌, ◌||◌, List, [], ◌∷◌, ◌++◌,
  ltb, ◌==◌, if◌then◌else◌, Run, done, fatal, Bytes, length, take, ℤ, int_eq, negate, low32,
  sign_extend, add64, sub64,
}
use fleetbench.Zlib.Library.{
  Zlib, Stream, Reply, Flush, z_sync_flush, z_finish, Code, z_ok, z_stream_end, z_buf_error, is_ok,
  is_stream_end, is_buf_error,
}
use fleetbench.Zlib.State.{Settings, ZLib, reset, end_comp, reset_comp, min_footer_size}
use fleetbench.Zlib.Call.{Write, Call, write_gzip_header, write_gzip_footer}
use fleetbench.Zlib.CompressInit.{compress_error_init, compress_init}

-- The set-up for the first chunk: it fails with a code, or goes on with the `int` that
-- `compressed_size` holds. The writes come last.
pub record Started (I : Type 0) : Type 0 where
  pub zlib : ZLib I
  pub code : Code
  pub compressed_size : ℕ
  pub writes : List Write

-- What is decided after `deflate`: the call goes on with a code, returns one, or does so after
-- `CompressErrorInit`.
pub data Verdict : Type 0 where
  proceed give_up fail : Code → Verdict

unfoldable pub judge_deflate : Code → (avail_in avail_out : ℕ) → Verdict
judge_deflate err avail_in avail_out =
    if (is_stream_end err || is_ok err) && avail_in == 0 && not (avail_out == 0)
    then proceed err
    else if is_stream_end err && ltb 0 avail_in
    then give_up z_buf_error
    else if not (is_ok err) && not (is_stream_end err) && not (is_buf_error err)
    then fail err
    else if avail_out == 0
    then proceed z_buf_error
    else proceed err

-- `if (err == Z_STREAM_END) err = Z_OK`.
abbrev pub hide_stream_end : Code → Code
hide_stream_end err = if is_stream_end err then z_ok else err

module _ (z : Zlib) where
  open z use {Internal, deflate_set_dictionary, deflate, crc32}

  -- "Append the gzip header before we start compressing".
  unfoldable pub start_header : ZLib Internal → (compressed_size : ℕ) → Started Internal
  unfolding write_gzip_header
  start_header zl size =
      let (zl', err, writes) = write_gzip_header zl in
      if not zl.settings.gzip_header_mode
      then record { zlib = zl; code = z_ok; compressed_size = size; writes = [] }
      else if is_ok err
      then record {
        zlib = record zl' { crc = crc32 0 [] };
        code = z_ok;
        compressed_size = low32 (size + 2 ^ 32 - 10);
        writes = writes;
      }
      else record { zlib = zl'; code = err; compressed_size = size; writes = writes }

  -- "Initialize the dictionary just before we start compressing".
  unfoldable pub start_dictionary : Started Internal → Started Internal
  start_dictionary st =
      let s = st.zlib.settings in
      let r = deflate_set_dictionary s.dictionary s.dict_len st.zlib.comp_stream in
      let zl = record st.zlib { comp_stream = r.stream } in
      if s.dictionary == 0
      then st
      else if is_ok r.code
      then record st {
        zlib = record zl {
          init_settings = record zl.init_settings {
            dictionary = s.dictionary;
            dict_len = s.dict_len;
          };
        };
      }
      else record st { zlib = zl; code = r.code }

  unfoldable pub start_first_chunk : ZLib Internal → (compressed_size : ℕ) → Started Internal
  unfolding start_header start_dictionary
  start_first_chunk zl size =
      let header = start_header zl size in
      let st = start_dictionary header in
      if not (is_ok header.code)
      then header
      else if not (is_ok st.code)
      then st
      else record st { zlib = record st.zlib { uncompressed_size = 0; first_chunk = false } }

  -- The rest of `CompressAtMostOrAll`, from the call of `deflate` on.
  unfoldable pub compress_body :
      Started Internal → (dest_len : ℕ) → Bytes → (source_len : ℕ) → Flush → Call Internal
  unfolding judge_deflate compress_error_init
  compress_body st dest_len source source_len flush =
      let r = deflate flush st.zlib.comp_stream in
      let zl = record st.zlib { comp_stream = r.stream } in
      let consumed = sub64 source_len r.stream.avail_in in
      let writes =
        st.writes ++ record { at = st.zlib.comp_stream.next_out; bytes = r.wrote } ∷ [] in
      let size = low32 (sub64 r.stream.total_out (sign_extend st.compressed_size)) in
      elim (judge_deflate r.code r.stream.avail_in r.stream.avail_out) [
        | proceed err ↦ record {
          zlib = record zl {
            uncompressed_size = add64 zl.uncompressed_size consumed;
            crc =
                if zl.settings.gzip_header_mode
                then crc32 zl.crc (take consumed source)
                else zl.crc;
          };
          code = hide_stream_end err;
          dest_len = sign_extend size;
          source_len = r.stream.avail_in;
          writes = writes;
        }
        | give_up err ↦ record {
          zlib = zl;
          code = err;
          dest_len = dest_len;
          source_len = r.stream.avail_in;
          writes = writes;
        }
        | fail err ↦ record {
          zlib = compress_error_init z zl;
          code = err;
          dest_len = dest_len;
          source_len = r.stream.avail_in;
          writes = writes;
        }
      ]

  -- `CompressAtMostOrAll`.
  unfoldable pub compress_at_most_or_all :
      ZLib Internal → (dest_len : ℕ) → Bytes → (source_len : ℕ) → Flush → Call Internal
  unfolding compress_init start_first_chunk compress_body
  compress_at_most_or_all zl dest_len source source_len flush =
      let (zl1, err) = compress_init z zl dest_len source source_len in
      let size = low32 zl1.comp_stream.total_out in
      let st =
        if zl1.first_chunk
        then start_first_chunk zl1 size
        else record { zlib = zl1; code = z_ok; compressed_size = size; writes = [] } in
      if not (is_ok err)
      then record {
        zlib = zl1;
        code = err;
        dest_len = dest_len;
        source_len = source_len;
        writes = [];
      }
      else if not (is_ok st.code)
      then record {
        zlib = st.zlib;
        code = st.code;
        dest_len = dest_len;
        source_len = source_len;
        writes = st.writes;
      }
      else compress_body st dest_len source source_len flush

  -- `CompressChunkOrAll`; the caller's `sourceLen` is passed by value.
  unfoldable pub compress_chunk_or_all :
      ZLib Internal → (dest_len : ℕ) → Bytes → (source_len : ℕ) → Flush → Call Internal
  unfolding compress_at_most_or_all compress_error_init
  compress_chunk_or_all zl dest_len source source_len flush =
      let c = compress_at_most_or_all zl dest_len source source_len flush in
      if is_buf_error c.code then record c { zlib = compress_error_init z c.zlib } else c

  -- `CompressChunk` and `CompressAtMost`.
  unfoldable pub compress_chunk :
      ZLib Internal → (dest_len : ℕ) → Bytes → (source_len : ℕ) → Call Internal
  unfolding compress_chunk_or_all
  compress_chunk zl dest_len source source_len =
      compress_chunk_or_all zl dest_len source source_len z_sync_flush

  unfoldable pub compress_at_most :
      ZLib Internal → (dest_len : ℕ) → Bytes → (source_len : ℕ) → Call Internal
  unfolding compress_at_most_or_all
  compress_at_most zl dest_len source source_len =
      compress_at_most_or_all zl dest_len source source_len z_sync_flush

  -- The common end of `Compress` and `CompressChunkDone`: the footer, where there is one, behind the
  -- `*destLen` bytes that the call has reported.
  unfoldable pub add_footer : (orig_dest_len : ℕ) → Call Internal → Call Internal
  unfolding write_gzip_footer
  add_footer orig c =
      let (err, writes) = write_gzip_footer c.zlib c.dest_len (sub64 orig c.dest_len) in
      if not c.zlib.settings.gzip_header_mode
      then record c { code = z_ok }
      else if is_ok err
      then record c { code = z_ok; dest_len = add64 c.dest_len 8; writes = c.writes ++ writes }
      else record c { code = err }

  -- `CompressChunkDone`. Its assert is that a chunk was begun. The one readable byte at the source
  -- pointer is the `dummy`.
  unfoldable pub compress_chunk_done : ZLib Internal → (dest_len : ℕ) → Run (Call Internal)
  unfolding min_footer_size compress_chunk_or_all reset add_footer
  compress_chunk_done zl dest_len =
      let c = compress_chunk_or_all zl dest_len (0 ∷ []) 0 z_finish in
      if ltb dest_len (min_footer_size zl)
      then done
          (record { zlib = zl; code = z_buf_error; dest_len = 0; source_len = 0; writes = [] })
      else if zl.first_chunk || not zl.comp_init
      then fatal
      else if not (is_ok c.code)
      then done (record c { zlib = reset c.zlib })
      else done (add_footer dest_len (record c { zlib = reset c.zlib }))

  -- `Compress`.
  unfoldable pub compress :
      ZLib Internal → (dest_len : ℕ) → Bytes → (source_len : ℕ) → Call Internal
  unfolding compress_chunk_or_all reset add_footer
  compress zl dest_len source source_len =
      let c = compress_chunk_or_all zl dest_len source source_len z_finish in
      if not (is_ok c.code) then c else add_footer dest_len (record c { zlib = reset c.zlib })
