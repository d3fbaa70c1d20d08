-- ===== src/Tests/Compressor.antt =====
-- The compressor over a zlib that stores its input as it is.
use fleetbench.Prelude.{
  ℕ, ◌+◌, ◌-◌, ◌≤◌, ◌≡◌, refl, ap, min, true, false, [], ◌∷◌, ◌++◌, Bytes, length, take, drop,
  replicate, length-append, length-take, length-replicate, ltb, if◌then◌else◌, add64, low32, arith,
  none, Returns,
}
use fleetbench.Gzip.{initial}
use fleetbench.Zlib.Library.{
  Zlib, Stream, Reply, Moved, Flush, z_sync_flush, z_finish, z_ok, z_stream_end, Deflates,
  SameBuffers, Moves,
}
use fleetbench.Zlib.State.{ZLib, default_settings}
use fleetbench.Zlib.CompressInit.Ready.{CompReady}
use fleetbench.Zlib.Compress.{compress, compress_chunk_or_all, compress_chunk_done}
use fleetbench.Zlib.Compress.Bounds.{Stored}
use fleetbench.Zlib.Compress.Whole.{
  compress-Stored, compress_chunk_or_all-Stored, compress_chunk_done-Stored,
}

abbrev at_once : Stream ℕ → Reply ℕ
at_once s = record { code = z_ok; stream = s }

abbrev moved_bytes : Stream ℕ → Bytes
moved_bytes s = take (min s.avail_in s.avail_out) (s.next_in ++ replicate s.avail_in 0)

abbrev store_bytes : Flush → Stream ℕ → Moved ℕ
store_bytes f s =
    let n = min s.avail_in s.avail_out in
    record {
      code = elim f [
        | z_finish ↦ if ltb n s.avail_out then z_stream_end else z_ok
        | z_sync_flush ↦ z_ok
      ];
      stream = record s {
        next_in = drop n s.next_in;
        avail_in = s.avail_in - n;
        next_out = s.next_out + n;
        avail_out = s.avail_out - n;
        total_in = add64 s.total_in n;
        total_out = add64 s.total_out n;
      };
      wrote = moved_bytes s;
    }

-- A checksum that adds the bytes up.
abbrev add_up : ℕ → Bytes → ℕ
add_up crc [] = crc
add_up crc (b ∷ bs) = add_up (low32 (crc + b)) bs

abbrev storing : Zlib
storing = record {
  Internal = ℕ;
  deflate_init2 = λ l w m s. at_once (record s { total_in = 0; total_out = 0 });
  deflate_reset = λ s. at_once (record s { total_in = 0; total_out = 0 });
  deflate_params = λ l s. at_once s;
  deflate_set_dictionary = λ d n s. at_once s;
  deflate = store_bytes;
  deflate_end = λ s. s;
  inflate_init2 = λ w s. at_once s;
  inflate_reset2 = λ w s. at_once s;
  inflate_set_dictionary = λ d n s. at_once s;
  inflate = store_bytes;
  inflate_end = λ s. s;
  crc32 = add_up;
}

moved-length : (s : Stream ℕ) → length (moved_bytes s) ≡ min s.avail_in s.avail_out
moved-length s = omega (
  arith,
  length-take (min s.avail_in s.avail_out) (s.next_in ++ replicate s.avail_in 0),
  length-append s.next_in (replicate s.avail_in 0),
  length-replicate {A = ℕ} s.avail_in 0,
)

abbrev storing-same : (s : Stream ℕ) → SameBuffers s s
storing-same s = record { same_avail_in = refl; same_next_out = refl; same_avail_out = refl }

storing-Moves : (f : Flush) (s : Stream ℕ) → Moves s (store_bytes f s)
storing-Moves f s = record {
  read_within = omega arith;
  wrote_within = omega (arith, moved-length s);
  counts_in = ap (add64 s.total_in) (omega arith);
  counts_out = ap (add64 s.total_out) (omega (arith, moved-length s));
}

abbrev storing-Deflates : Deflates storing
storing-Deflates = record {
  Live = λ i. i ≤ i;
  init2_live = λ l w m s e. omega arith;
  init2_same =
      λ l w m s. record { same_avail_in = refl; same_next_out = refl; same_avail_out = refl };
  reset_live = λ s h. h;
  reset_same = λ s. record { same_avail_in = refl; same_next_out = refl; same_avail_out = refl };
  params_live = λ l s h. h;
  params_same = λ l s. storing-same s;
  dictionary_live = λ d n s h. h;
  dictionary_same = λ d n s. storing-same s;
  dictionary_total = λ d n s. refl;
  end_same = λ s. storing-same s;
  deflate_live = λ f s h. h;
  deflate_moves = λ f s h. storing-Moves f s;
  deflate_stops = λ f s h e. omega arith;
}

abbrev no_stream : Stream ℕ
no_stream = record {
  next_in = [];
  avail_in = 0;
  next_out = 0;
  avail_out = 0;
  total_in = 0;
  total_out = 0;
  internal = 0;
}

-- A new object in gzip mode.
abbrev pub fresh : ZLib ℕ
fresh = record {
  settings = record default_settings { gzip_header_mode = true };
  init_settings = record default_settings { gzip_header_mode = true };
  comp_stream = no_stream;
  comp_init = false;
  uncomp_stream = no_stream;
  uncomp_init = false;
  crc = 0;
  uncompressed_size = 0;
  gzip_header = initial;
  gzip_footer = replicate 8 0;
  gzip_footer_bytes = none;
  first_chunk = true;
}

fresh-CompReady : CompReady storing storing-Deflates fresh
fresh-CompReady = record { live = λ e. omega arith; begun = λ e. cc }

-- The header, the three bytes, and the footer with their sum and number.
compress_run :
    (compress storing fresh 40 (5 ∷ 6 ∷ 7 ∷ []) 3).writes
    ≡ record { at = 0; bytes = 31 ∷ 139 ∷ 8 ∷ 0 ∷ 0 ∷ 0 ∷ 0 ∷ 0 ∷ 2 ∷ 255 ∷ [] }
      ∷ record { at = 10; bytes = 5 ∷ 6 ∷ 7 ∷ [] }
      ∷ record { at = 13; bytes = 18 ∷ 0 ∷ 0 ∷ 0 ∷ 3 ∷ 0 ∷ 0 ∷ 0 ∷ [] }
      ∷ []
unfolding compress
compress_run = refl

compress-Stored_example :
    Stored storing storing-Deflates 40 3 (compress storing fresh 40 (5 ∷ 6 ∷ 7 ∷ []) 3)
compress-Stored_example =
    compress-Stored storing storing-Deflates 40 3 (omega arith) fresh (5 ∷ 6 ∷ 7 ∷ [])
      fresh-CompReady

-- The object after a first chunk.
abbrev chunked : ZLib ℕ
chunked = (compress_chunk_or_all storing fresh 40 (5 ∷ 6 ∷ 7 ∷ []) 3 z_sync_flush).zlib

chunked-CompReady : CompReady storing storing-Deflates chunked
chunked-CompReady =
    (compress_chunk_or_all-Stored storing storing-Deflates fresh 40 (5 ∷ 6 ∷ 7 ∷ []) 3 z_sync_flush
      fresh-CompReady).ready

chunked_begun : (chunked.first_chunk ≡ false) × (chunked.comp_init ≡ true)
unfolding compress_chunk_or_all
chunked_begun = (refl, refl)

compress_chunk_done-Stored_example :
    Returns (Stored storing storing-Deflates 40 0) (compress_chunk_done storing chunked 40)
compress_chunk_done-Stored_example =
    compress_chunk_done-Stored storing storing-Deflates 40 (omega arith) chunked chunked-CompReady
      chunked_begun.0 chunked_begun.1
