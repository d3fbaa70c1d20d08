-- ===== src/Zlib/Inflate.antt =====
-- fleetbench/compression/zlibwrapper.cc: the call of `inflate` and what follows it.
pub mod Settled
pub mod Ended
use fleetbench.Prelude.{
  ℕ, Bool, true, false, not, ◌&&◌, ◌||◌, [], ◌∷◌, ◌++◌, Option, none, some, ltb, leb, ◌==◌, min,
  if◌then◌else◌, Bytes, take, drop, sub64, Run, done, fatal,
}
use fleetbench.Zlib.Library.{
  Zlib, Flush, Code, z_ok, z_data_error, z_buf_error, is_ok, is_stream_end, is_buf_error,
  is_need_dict,
}
use fleetbench.Zlib.State.{ZLib}
use fleetbench.Zlib.Call.{Call}
use fleetbench.Zlib.UncompressInit.{uncompress_error_init}
use fleetbench.Zlib.UncompressHeader.{store}

-- What is decided after `inflate`.
pub data Judgement : Type 0 where
  found_footer proceed extra_data fail : Judgement
  out_of_room : Judgement

pub below_eight : Option ℕ → Bool
below_eight none = true
below_eight (some n) = ltb n 8

unfoldable pub judge_inflate :
    Bool → Code → (footer : Option ℕ) → (avail_in avail_out : ℕ) → Judgement
unfolding below_eight
judge_inflate flexible err footer avail_in avail_out =
    if is_stream_end err && below_eight footer && (leb avail_in 8 || flexible)
    then found_footer
    else if (is_stream_end err || is_ok err) && avail_in == 0
    then proceed
    else if is_stream_end err && ltb 0 avail_in
    then extra_data
    else if not (is_ok err) && not (is_stream_end err) && not (is_buf_error err)
    then fail
    else if avail_out == 0
    then out_of_room
    else proceed

-- `inflate`, once more behind a dictionary that the data asked for. The code of a dictionary that
-- is refused comes with `true`. What is written comes last.
pub record Inflated (I : Type 0) : Type 0 where
  pub zlib : ZLib I
  pub code : Code
  pub refused : Bool
  pub wrote : Bytes

module _ (z : Zlib) where
  open z use {Internal, inflate_set_dictionary, inflate, crc32}

  -- `inflateSetDictionary`, and `UncompressErrorInit` where it fails.
  unfoldable pub set_inflate_dictionary : ZLib Internal → ZLib Internal × Code
  set_inflate_dictionary zl =
      let s = zl.settings in
      let r = inflate_set_dictionary s.dictionary s.dict_len zl.uncomp_stream in
      let zl' = record zl { uncomp_stream = r.stream } in
      if is_ok r.code
      then (
        record zl' {
          init_settings = record zl.init_settings {
            dictionary = s.dictionary;
            dict_len = s.dict_len;
          };
        },
        r.code,
      )
      else (uncompress_error_init z zl', r.code)

  unfoldable pub inflate_phase : ZLib Internal → Flush → Inflated Internal
  unfolding set_inflate_dictionary uncompress_error_init
  inflate_phase zl flush =
      let r = inflate flush zl.uncomp_stream in
      let zl1 = record zl { uncomp_stream = r.stream } in
      let (zl2, err) = set_inflate_dictionary zl1 in
      let r' = inflate flush zl2.uncomp_stream in
      if not (not (zl.settings.dictionary == 0) && is_need_dict r.code)
      then record { zlib = zl1; code = r.code; refused = false; wrote = r.wrote }
      else if not (is_ok err)
      then record { zlib = zl2; code = err; refused = true; wrote = r.wrote }
      else record {
        zlib = record zl2 { uncomp_stream = r'.stream };
        code = r'.code;
        refused = false;
        wrote = r.wrote ++ r'.wrote;
      }

  -- The end of the call: the code that is shown, the sizes and the checksum.
  unfoldable pub finish_inflate :
      ZLib Internal → Code → (old_total_out source_len : ℕ) → (wrote : Bytes) → Call Internal
  finish_inflate zl err old_total_out source_len wrote =
      let produced = sub64 zl.uncomp_stream.total_out old_total_out in
      record {
        zlib = record zl {
          uncompressed_size = zl.uncomp_stream.total_out;
          crc = if zl.settings.gzip_header_mode then crc32 zl.crc (take produced wrote) else zl.crc;
        };
        code = if is_stream_end err && not zl.settings.dont_hide_zstream_end then z_ok else err;
        dest_len = produced;
        source_len = source_len;
        writes = record { at = 0; bytes = wrote } ∷ [];
      }

  -- A call that fails after `inflate` gives the stream up.
  unfoldable pub failed_inflate : Inflated Internal → Code → (dest_len : ℕ) → Call Internal
  unfolding uncompress_error_init
  failed_inflate i code dest_len = record {
    zlib = uncompress_error_init z i.zlib;
    code = code;
    dest_len = dest_len;
    source_len = i.zlib.uncomp_stream.avail_in;
    writes = record { at = 0; bytes = i.wrote } ∷ [];
  }

  -- What is behind the data, up to eight bytes, is kept as the footer.
  unfoldable pub keep_footer : ZLib Internal → (bytes_read : ℕ) → Bytes → ZLib Internal
  unfolding store
  keep_footer zl bytes_read source =
      let n = min zl.uncomp_stream.avail_in 8 in
      record zl {
        gzip_footer_bytes = some n;
        gzip_footer = store 0 (take n (drop bytes_read source)) zl.gzip_footer;
      }

  unfoldable pub conclude :
      Judgement
      → Inflated Internal
      → (old_total_out bytes_read dest_len : ℕ) → Bytes
      → Call Internal
  unfolding failed_inflate keep_footer finish_inflate
  conclude found_footer i old bytes_read dest_len source =
      let avail_in = i.zlib.uncomp_stream.avail_in in
      finish_inflate (keep_footer i.zlib bytes_read source) i.code old
        (sub64 avail_in (min avail_in 8)) i.wrote
  conclude proceed i old bytes_read dest_len source =
      finish_inflate i.zlib i.code old i.zlib.uncomp_stream.avail_in i.wrote
  conclude extra_data i old bytes_read dest_len source = failed_inflate i z_data_error dest_len
  conclude fail i old bytes_read dest_len source = failed_inflate i i.code dest_len
  conclude out_of_room i old bytes_read dest_len source =
      finish_inflate i.zlib z_buf_error old i.zlib.uncomp_stream.avail_in i.wrote

  -- What follows `inflate`, for `source` with `source_len` bytes; `zl` is the object before it.
  unfoldable pub after_inflate :
      Bool
      → ZLib Internal
      → Inflated Internal
      → (dest_len : ℕ) → Bytes
      → (source_len : ℕ) → Run (Call Internal)
  unfolding judge_inflate conclude
  after_inflate flexible zl i dest_len source source_len =
      let s = i.zlib.uncomp_stream in
      let bytes_read = sub64 s.total_in zl.uncomp_stream.total_in in
      let judgement =
        judge_inflate flexible i.code i.zlib.gzip_footer_bytes s.avail_in s.avail_out in
      if i.refused
      then done (record {
        zlib = i.zlib;
        code = i.code;
        dest_len = dest_len;
        source_len = source_len;
        writes = record { at = 0; bytes = i.wrote } ∷ [];
      })
      else if ltb source_len bytes_read
      then fatal
      else done (conclude judgement i zl.uncomp_stream.total_out bytes_read dest_len source)

  -- From the call of `inflate` on.
  unfoldable pub uncompress_body :
      Bool → ZLib Internal → (dest_len : ℕ) → Bytes → (source_len : ℕ) → Flush → Run (Call Internal)
  unfolding inflate_phase after_inflate
  uncompress_body flexible zl dest_len source source_len flush =
      after_inflate flexible zl (inflate_phase zl flush) dest_len source source_len
