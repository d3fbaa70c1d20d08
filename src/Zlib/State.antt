-- ===== src/Zlib/State.antt =====
-- The fields of the class ZLib (fleetbench/compression/zlibwrapper.h) and the operations of
-- zlibwrapper.cc that set it up, reset it or change a setting.
use fleetbench.Prelude.{
  ℕ, ◌+◌, ◌/◌, Bool, true, false, not, ◌&&◌, ◌||◌, Option, none, ◌==◌, if◌then◌else◌, Bytes, Run,
  done, fatal, ◌>>=◌, ℤ, pos, negsuc, negate, add64,
}
use fleetbench.Gzip
use fleetbench.Gzip.{Header}
use fleetbench.Zlib.Library.{Zlib, Stream, is_ok}

-- A dictionary is an address, 0 for the null pointer.
pub record Settings : Type 0 where
  pub dictionary : ℕ
  pub dict_len : ℕ
  pub compression_level : ℤ
  pub window_bits : ℤ
  pub mem_level : ℤ
  pub no_header_mode : Bool
  pub gzip_header_mode : Bool
  pub dont_hide_zstream_end : Bool

-- `gzip_footer_bytes` is `none` where the source has -1.
pub record ZLib (I : Type 0) : Type 0 where
  pub settings : Settings
  pub init_settings : Settings
  pub comp_stream : Stream I
  pub comp_init : Bool
  pub uncomp_stream : Stream I
  pub uncomp_init : Bool
  pub crc : ℕ
  pub uncompressed_size : ℕ
  pub gzip_header : Header
  pub gzip_footer : Bytes
  pub gzip_footer_bytes : Option ℕ
  pub first_chunk : Bool

-- `MAX_WBITS` of zlib.
abbrev pub max_wbits : ℤ
max_wbits = pos 15

-- The settings that `Reinit` gives; -1 is `Z_DEFAULT_COMPRESSION`.
abbrev pub default_settings : Settings
default_settings = record {
  dictionary = 0;
  dict_len = 0;
  compression_level = negsuc 0;
  window_bits = max_wbits;
  mem_level = pos 8;
  no_header_mode = false;
  gzip_header_mode = false;
  dont_hide_zstream_end = false;
}

-- `Reset`.
unfoldable pub reset : {I : Type 0} → ZLib I → ZLib I
reset zl = record zl { first_chunk = true; gzip_header = Gzip.initial }

-- The window bits that inflating uses: negative for a bare stream with no header.
abbrev pub inflate_wbits : {I : Type 0} → ZLib I → ℤ
inflate_wbits zl = if zl.settings.no_header_mode then negate max_wbits else max_wbits

-- `CheckValidParams`, which stops the process on a dictionary without zlib headers.
unfoldable pub check_valid_params : {I : Type 0} → ZLib I → Run (ZLib I)
check_valid_params zl =
    if not (zl.settings.dictionary == 0)
      && (zl.settings.no_header_mode || zl.settings.gzip_header_mode)
    then fatal
    else done zl

module _ (z : Zlib) where
  open z use {Internal, deflate_reset, deflate_end, inflate_reset2, inflate_end}

  -- `if (comp_init_) { deflateEnd(&comp_stream_); comp_init_ = false; }`.
  unfoldable pub end_comp : ZLib Internal → ZLib Internal
  end_comp zl =
      if zl.comp_init
      then record zl { comp_stream = deflate_end zl.comp_stream; comp_init = false }
      else zl

  unfoldable pub end_uncomp : ZLib Internal → ZLib Internal
  end_uncomp zl =
      if zl.uncomp_init
      then record zl { uncomp_stream = inflate_end zl.uncomp_stream; uncomp_init = false }
      else zl

  -- `if (comp_init_)`, reset the stream, and give it up where that fails.
  unfoldable pub reset_comp : ZLib Internal → ZLib Internal
  reset_comp zl =
      let r = deflate_reset zl.comp_stream in
      if zl.comp_init
      then (if is_ok r.code
          then record zl { comp_stream = r.stream }
          else record zl { comp_stream = deflate_end r.stream; comp_init = false })
      else zl

  -- The part of `Reinit` on `uncomp_stream_`.
  unfoldable pub reset_uncomp : ZLib Internal → ZLib Internal
  reset_uncomp zl =
      let r = inflate_reset2 (inflate_wbits zl) zl.uncomp_stream in
      if zl.uncomp_init
      then (if is_ok r.code
          then record zl {
            uncomp_stream = r.stream;
            init_settings = record zl.init_settings { no_header_mode = zl.settings.no_header_mode };
          }
          else record zl { uncomp_stream = inflate_end r.stream; uncomp_init = false })
      else zl

  -- `Reinit`.
  unfoldable pub reinit : ZLib Internal → ZLib Internal
  unfolding reset_comp reset_uncomp
  reinit zl = record (reset_uncomp (reset_comp (record zl { settings = default_settings }))) {
    crc = 0;
    uncompressed_size = 0;
    gzip_header = Gzip.initial;
    gzip_footer_bytes = none;
    first_chunk = true;
  }

  -- The constructor, over streams and a footer that hold whatever the memory did.
  unfoldable pub construct : Stream Internal → Stream Internal → Bytes → ZLib Internal
  unfolding reinit
  construct comp uncomp footer =
      let zl = reinit (record {
        settings = default_settings;
        init_settings = default_settings;
        comp_stream = comp;
        comp_init = false;
        uncomp_stream = uncomp;
        uncomp_init = false;
        crc = 0;
        uncompressed_size = 0;
        gzip_header = Gzip.initial;
        gzip_footer = footer;
        gzip_footer_bytes = none;
        first_chunk = true;
      }) in
      record zl { init_settings = zl.settings }

  -- The destructor ends the streams that are open.
  unfoldable pub destruct : ZLib Internal → ZLib Internal
  unfolding end_comp end_uncomp
  destruct zl = end_uncomp (end_comp zl)

  same_mode : Bool → Bool → Bool
  same_mode true b = b
  same_mode false b = not b

  -- `SetNoHeaderMode`.
  unfoldable pub set_no_header_mode : Bool → ZLib Internal → Run (ZLib Internal)
  unfolding same_mode end_comp end_uncomp reset check_valid_params
  set_no_header_mode mode zl =
      let zl1 = record zl { settings = record zl.settings { no_header_mode = mode } } in
      check_valid_params (
        if not (same_mode zl1.init_settings.no_header_mode mode)
        then end_uncomp (end_comp zl1)
        else reset zl1)

  -- `SetGzipHeaderMode`.
  unfoldable pub set_gzip_header_mode : ZLib Internal → Run (ZLib Internal)
  unfolding set_no_header_mode check_valid_params
  set_gzip_header_mode zl = do
    zl1 ←
        set_no_header_mode true
          (record zl { settings = record zl.settings { gzip_header_mode = true } })
    check_valid_params zl1

  -- `SetDictionary`.
  unfoldable pub set_dictionary : (dictionary dict_len : ℕ) → ZLib Internal → Run (ZLib Internal)
  unfolding check_valid_params
  set_dictionary d n zl =
      check_valid_params
        (record zl { settings = record zl.settings { dictionary = d; dict_len = n } })

module _ {I : Type 0} where
  -- `SetDontHideStreamEnd`.
  pub set_dont_hide_stream_end : ZLib I → ZLib I
  set_dont_hide_stream_end zl = record zl {
    settings = record zl.settings { dont_hide_zstream_end = true };
  }

  -- `SetCompressionLevel`, `SetCompressionWindowSizeInBits`, `SetCompressionMemLevel`.
  pub set_compression_level : ℤ → ZLib I → ZLib I
  set_compression_level level zl = record zl {
    settings = record zl.settings { compression_level = level };
  }

  pub set_compression_window_size_in_bits : ℤ → ZLib I → ZLib I
  set_compression_window_size_in_bits bits zl = record zl {
    settings = record zl.settings { window_bits = bits };
  }

  pub set_compression_mem_level : ℤ → ZLib I → ZLib I
  set_compression_mem_level level zl = record zl {
    settings = record zl.settings { mem_level = level };
  }

  -- `MinFooterSize`.
  unfoldable pub min_footer_size : ZLib I → ℕ
  min_footer_size zl = if zl.settings.gzip_header_mode then 2 + 8 else 2

-- `MinCompressbufSize`.
pub min_compressbuf_size : ℕ → ℕ
min_compressbuf_size n = add64 (add64 n (n / 1000)) 40
