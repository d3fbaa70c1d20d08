-- ===== src/Zlib/UncompressInit.antt =====
-- fleetbench/compression/zlibwrapper.cc: setting up the uncompressing stream.
pub mod Opened
pub mod New
use fleetbench.Prelude.{ℕ, true, false, not, ◌&&◌, ◌||◌, ◌==◌, if◌then◌else◌, Bytes, low32}
use fleetbench.Zlib.Library.{Zlib, Code, z_ok, z_buf_error, is_ok}
use fleetbench.Zlib.State.{ZLib, reset, end_uncomp, inflate_wbits}

module _ (z : Zlib) where
  open z use {Internal, inflate_init2, inflate_reset2, inflate_end}

  -- `UncompressErrorInit`.
  unfoldable pub uncompress_error_init : ZLib Internal → ZLib Internal
  unfolding end_uncomp reset
  uncompress_error_init zl = reset (end_uncomp z zl)

  -- `init_settings_.no_header_mode_ = settings_.no_header_mode_`.
  abbrev note_mode : ZLib Internal → ZLib Internal
  note_mode zl = record zl {
    init_settings = record zl.init_settings { no_header_mode = zl.settings.no_header_mode };
  }

  -- `InflateInit`.
  unfoldable pub inflate_init : ZLib Internal → ZLib Internal × Code
  inflate_init zl =
      let r = inflate_init2 (inflate_wbits zl) zl.uncomp_stream in
      let zl' = record zl { uncomp_stream = r.stream } in
      (if is_ok r.code then note_mode zl' else zl', r.code)

  -- The stream is given up if the dictionary has changed.
  unfoldable pub drop_changed_dictionary : ZLib Internal → ZLib Internal
  drop_changed_dictionary zl =
      if zl.uncomp_init
        && (not (zl.init_settings.dictionary == zl.settings.dictionary)
            || not (zl.init_settings.dict_len == zl.settings.dict_len))
      then record zl { uncomp_stream = inflate_end zl.uncomp_stream; uncomp_init = false }
      else zl

  -- "Reuse if we've already initted the object."
  unfoldable pub reuse_uncomp : ZLib Internal → ZLib Internal
  unfolding uncompress_error_init
  reuse_uncomp zl =
      let r = inflate_reset2 (inflate_wbits zl) zl.uncomp_stream in
      let zl' = record zl { uncomp_stream = r.stream } in
      if zl.uncomp_init
      then (if is_ok r.code then note_mode zl' else uncompress_error_init zl')
      else zl

  unfoldable pub ensure_uncomp : ZLib Internal → ZLib Internal × Code
  unfolding inflate_init
  ensure_uncomp zl =
      let (zl', err) = inflate_init zl in
      if zl.uncomp_init
      then (zl, z_ok)
      else if is_ok err
      then (record zl' { uncomp_init = true }, z_ok)
      else (zl', err)

  -- `UncompressInit`.
  unfoldable pub uncompress_init :
      ZLib Internal → (dest_len : ℕ) → Bytes → (source_len : ℕ) → ZLib Internal × Code
  unfolding drop_changed_dictionary reuse_uncomp ensure_uncomp
  uncompress_init zl dest_len source source_len =
      let s = record zl.uncomp_stream { next_in = source; avail_in = low32 source_len } in
      let s' = record s { next_out = 0; avail_out = low32 dest_len } in
      let zl' = record zl { uncomp_stream = s' } in
      if not (low32 source_len == source_len)
      then (record zl { uncomp_stream = s }, z_buf_error)
      else if not (low32 dest_len == dest_len)
      then (zl', z_buf_error)
      else if not zl.first_chunk
      then (zl', z_ok)
      else ensure_uncomp (reuse_uncomp (drop_changed_dictionary zl'))
