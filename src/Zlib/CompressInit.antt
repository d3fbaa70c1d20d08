-- ===== src/Zlib/CompressInit.antt =====
-- fleetbench/compression/zlibwrapper.cc: setting up the compressing stream.
pub mod Ready
use fleetbench.Prelude.{
  ℕ, suc, ◌+◌, ◌-◌, ◌*◌, ◌/◌, ◌%◌, ◌^◌, Bool, true, false, not, ◌&&◌, ◌||◌, List, [], ◌∷◌, ◌++◌,
  ltb, ◌==◌, if◌then◌else◌, Bytes, length, take, ℤ, int_eq, negate, low32, sign_extend, add64,
  sub64,
}
use fleetbench.Zlib.Library.{
  Zlib, Stream, Reply, Flush, z_sync_flush, z_finish, Code, z_ok, z_stream_end, z_buf_error, is_ok,
  is_stream_end, is_buf_error,
}
use fleetbench.Zlib.State.{Settings, ZLib, reset, end_comp, reset_comp, min_footer_size}

module _ (z : Zlib) where
  open z use {Internal, deflate_init2, deflate_params, deflate_end}

  -- `CompressErrorInit`.
  unfoldable pub compress_error_init : ZLib Internal → ZLib Internal
  unfolding end_comp reset
  compress_error_init zl = reset (end_comp z zl)

  -- `DeflateInit`.
  unfoldable pub deflate_init : ZLib Internal → ZLib Internal × Code
  deflate_init zl =
      let s = zl.settings in
      let r =
        deflate_init2 s.compression_level
          (if s.no_header_mode then negate s.window_bits else s.window_bits) s.mem_level
          zl.comp_stream in
      (
        if is_ok r.code
            then record zl {
              comp_stream = r.stream;
              init_settings = record zl.init_settings {
                compression_level = s.compression_level;
                window_bits = s.window_bits;
                mem_level = s.mem_level;
                no_header_mode = s.no_header_mode;
              };
            }
            else record zl { comp_stream = r.stream },
        r.code,
      )

  pub same_bool : Bool → Bool → Bool
  same_bool true b = b
  same_bool false b = not b

  -- The settings that only a new initialisation can change.
  unfoldable pub comp_settings_changed : Settings → Settings → Bool
  unfolding same_bool
  comp_settings_changed old new =
      not (old.dictionary == new.dictionary)
      || not (old.dict_len == new.dict_len)
      || not (int_eq old.window_bits new.window_bits)
      || not (int_eq old.mem_level new.mem_level)
      || not (same_bool old.no_header_mode new.no_header_mode)

  -- "Force full reinit if properties have changed in a way we can't adjust."
  unfoldable pub drop_changed : ZLib Internal → ZLib Internal
  unfolding comp_settings_changed
  drop_changed zl =
      if zl.comp_init && comp_settings_changed zl.init_settings zl.settings
      then record zl { comp_stream = deflate_end zl.comp_stream; comp_init = false }
      else zl

  -- "If compression level has changed, try to reconfigure instead of reinit".
  unfoldable pub adjust_level : ZLib Internal → ZLib Internal
  adjust_level zl =
      let level = zl.settings.compression_level in
      let r = deflate_params level zl.comp_stream in
      if zl.comp_init && not (int_eq zl.init_settings.compression_level level)
      then (if is_ok r.code
          then record zl {
            comp_stream = r.stream;
            init_settings = record zl.init_settings { compression_level = level };
          }
          else record zl { comp_stream = deflate_end r.stream; comp_init = false })
      else zl

  -- "First use or previous state was not reusable with current settings."
  unfoldable pub ensure_comp : ZLib Internal → ZLib Internal × Code
  unfolding deflate_init
  ensure_comp zl =
      let (zl', err) = deflate_init zl in
      if zl.comp_init
      then (zl, z_ok)
      else if is_ok err
      then (record zl' { comp_init = true }, z_ok)
      else (zl', err)

  -- `CompressInit`.
  unfoldable pub compress_init :
      ZLib Internal → (dest_len : ℕ) → Bytes → (source_len : ℕ) → ZLib Internal × Code
  unfolding drop_changed reset_comp adjust_level ensure_comp
  compress_init zl dest_len source source_len =
      let s = record zl.comp_stream { next_in = source; avail_in = low32 source_len } in
      let s' = record s { next_out = 0; avail_out = low32 dest_len } in
      let zl' = record zl { comp_stream = s' } in
      if not (low32 source_len == source_len)
      then (record zl { comp_stream = s }, z_buf_error)
      else if not (low32 dest_len == dest_len)
      then (zl', z_buf_error)
      else if not zl.first_chunk
      then (zl', z_ok)
      else ensure_comp (adjust_level (reset_comp z (drop_changed zl')))
