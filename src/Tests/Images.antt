-- ===== src/Tests/Images.antt =====
-- Images that are made and read again, with the theorems on them.
use fleetbench.Prelude.{
  ℕ, ◌^◌, ◌<◌, ◌≡◌, refl, ap, ◌∙◌, true, false, [], ◌∷◌, Bytes, length, replicate, arith, none,
  done, Returns,
}
use fleetbench.Gzip.{Header, initial, in_header_flg, incomplete_header, read_more}
use fleetbench.Gzip.Scan.{scan, settle, take_byte, read_more-scan}
use fleetbench.Zlib.Library.{Stream, z_ok, z_data_error}
use fleetbench.Zlib.State.{ZLib, default_settings}
use fleetbench.Zlib.Call.{Call}
use fleetbench.Zlib.CompressInit.Ready.{CompReady}
use fleetbench.Zlib.Compress.{compress}
use fleetbench.Zlib.Compress.New.{IsUnused}
use fleetbench.Zlib.Compress.NewImage.{contents}
use fleetbench.Zlib.UncompressInit.Opened.{UncompReady}
use fleetbench.Zlib.UncompressInit.New.{IsUnread}
use fleetbench.Zlib.Inflate.Settled.{Inside}
use fleetbench.Zlib.Footer.{uncompress}
use fleetbench.Zlib.Footer.Restarts.{AtStart, uncompress-AtStart}
use fleetbench.Zlib.Footer.Image.{IsImage, uncompress-IsImage}
use fleetbench.Zlib.Footer.Accepted.{Restores}
use fleetbench.Zlib.Footer.RoundTrip.{uncompress-compress}
use fleetbench.Zlib.Footer.Cut.{uncompress-cut_header}
use fleetbench.Tests.Coding.{
  coding, coding-Deflates, coding-Finishes, coding-Inflates, coding-Inverts, packs,
}

abbrev idle : Stream ℕ
idle = record {
  next_in = [];
  avail_in = 0;
  next_out = 0;
  avail_out = 0;
  total_in = 0;
  total_out = 0;
  internal = 0;
}

-- A new object after `SetGzipHeaderMode`.
abbrev new : ZLib ℕ
new = record {
  settings = record default_settings { gzip_header_mode = true; no_header_mode = true };
  init_settings = default_settings;
  comp_stream = idle;
  comp_init = false;
  uncomp_stream = idle;
  uncomp_init = false;
  crc = 0;
  uncompressed_size = 0;
  gzip_header = initial;
  gzip_footer = replicate 8 0;
  gzip_footer_bytes = none;
  first_chunk = true;
}

new-CompReady : CompReady coding coding-Deflates new
new-CompReady = record { live = λ e. tt; begun = λ e. cc }

new-UncompReady : UncompReady coding coding-Inflates new
new-UncompReady = record { live = λ e. tt; begun = λ e. cc }

new-IsUnused : IsUnused new 14
new-IsUnused = record {
  unused = refl;
  first = refl;
  bare = refl;
  gzip = refl;
  raw = refl;
  bits = refl;
}

new-IsUnread : IsUnread new
new-IsUnread = record {
  unread = refl;
  first = refl;
  bare = refl;
  gzip = refl;
  raw = refl;
  hides = refl;
}

-- The header, the count with the three bytes, and the footer.
abbrev packed : Bytes
packed =
    31 ∷ 139 ∷ 8 ∷ 0 ∷ 0 ∷ 0 ∷ 0 ∷ 0 ∷ 2 ∷ 255 ∷ 3 ∷ 5 ∷ 6 ∷ 7 ∷ 18 ∷ 0 ∷ 0 ∷ 0 ∷ 3 ∷ 0 ∷ 0 ∷ 0 ∷ []

abbrev made : Call ℕ
made = compress coding new 40 (5 ∷ 6 ∷ 7 ∷ []) 3

made_packed : contents made.writes ≡ packed
unfolding compress packs
made_packed = refl

made_ok : made.code ≡ z_ok
unfolding compress packs
made_ok = refl

made_short : length (contents made.writes) < 2 ^ 31
made_short = omega (arith, ap length made_packed)

uncompress-compress_example :
    Returns
      (Restores (5 ∷ 6 ∷ 7 ∷ []))
      (uncompress coding false new 9 (contents made.writes) (length (contents made.writes)))
uncompress-compress_example =
    uncompress-compress coding coding-Deflates coding-Finishes coding-Inflates coding-Inverts new
      new 14 40 9 (5 ∷ 6 ∷ 7 ∷ []) made new-CompReady new-IsUnused (omega arith) new-UncompReady
      new-IsUnread refl refl (omega arith) (omega arith) refl made_ok made_short

uncompress-IsImage_example :
    Returns (λ c. c.code ≡ z_ok → IsImage coding packed c) (uncompress coding false new 9 packed 22)
uncompress-IsImage_example =
    uncompress-IsImage coding coding-Inflates packed (omega arith) new 9 new-UncompReady refl refl
      refl refl refl

-- An image cut off in its header.
uncompress-AtStart_example :
    Returns
      (λ c. AtStart coding coding-Inflates c.zlib × Inside 9 c.writes)
      (uncompress coding false new 9 (31 ∷ 139 ∷ 8 ∷ 0 ∷ []) 4)
uncompress-AtStart_example =
    uncompress-AtStart coding coding-Inflates false new 9 (31 ∷ 139 ∷ 8 ∷ 0 ∷ []) new-UncompReady
      refl (omega arith)

abbrev behind_three : Header
behind_three = record { state = in_header_flg; flags = 0; extra_length = 0 }

three_scanned : scan 0 initial (31 ∷ 139 ∷ 8 ∷ []) ≡ incomplete_header behind_three
unfolding scan settle take_byte
three_scanned = refl

three_read : read_more initial (31 ∷ 139 ∷ 8 ∷ []) 3 ≡ done (incomplete_header behind_three)
three_read = read_more-scan initial (31 ∷ 139 ∷ 8 ∷ []) (omega arith) ∙ ap done three_scanned

uncompress-cut_header_example :
    uncompress coding false new 9 (31 ∷ 139 ∷ 8 ∷ []) 3
    ≡ done (record {
      zlib = record new { gzip_header = behind_three };
      code = z_data_error;
      dest_len = 0;
      source_len = 0;
      writes = [];
    })
uncompress-cut_header_example =
    uncompress-cut_header coding false new 9 (31 ∷ 139 ∷ 8 ∷ []) behind_three refl refl
      (omega arith) three_read
