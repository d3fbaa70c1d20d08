-- ===== src/Zlib/Footer/RoundTrip.antt =====
-- zlibwrapper.cc: uncompressing gives back what was compressed.
use fleetbench.Prelude.{
  ℕ, ◌^◌, ◌≤◌, ◌<◌, ◌≡◌, ◌∙◌, ap, subst, sym, false, Bytes, length, length-append, take, take_all,
  arith, Returns, [],
}
use fleetbench.Gzip.{initial}
use fleetbench.Zlib.Library.{Zlib, Deflates, z_finish, z_ok, is_ok}
use fleetbench.Zlib.Inflates.{Inflates, Inverts}
use fleetbench.Zlib.State.{ZLib}
use fleetbench.Zlib.Call.{Call, footer_bytes}
use fleetbench.Zlib.CompressInit.Ready.{CompReady}
use fleetbench.Zlib.Compress.{compress}
use fleetbench.Zlib.Compress.New.{Finishes, IsUnused}
use fleetbench.Zlib.Compress.NewImage.{contents, compress-IsNewImage}
use fleetbench.Zlib.UncompressInit.Opened.{UncompReady}
use fleetbench.Zlib.UncompressInit.New.{IsUnread}
use fleetbench.Zlib.Footer.{uncompress}
use fleetbench.Zlib.Footer.Accepted.{Inflatable, Restores, length-footer_bytes, uncompress-Restores}

module _ (z : Zlib) (d : Deflates z) (f : Finishes z d) (e : Inflates z) (v : Inverts z) where
  compressed-Restores :
      (sender receiver : ZLib z.Internal) (w room dest_len : ℕ) (plain : Bytes)
      → CompReady z d sender
      → IsUnused sender w
      → w < 15
      → UncompReady z e receiver
      → IsUnread receiver
      → receiver.gzip_header ≡ initial
      → length receiver.gzip_footer ≡ 8
      → length plain ≤ dest_len
      → dest_len < 2 ^ 32
      → let c = compress z sender room plain (length plain) in
        c.code ≡ z_ok
        → length (contents c.writes) < 2 ^ 31
        → Returns
            (Restores plain)
            (uncompress z false receiver dest_len (contents c.writes) (length (contents c.writes)))
  compressed-Restores sender receiver w room dest_len plain cr o narrow ur p begins array fits small
        ok short =
      let c = compress z sender room plain (length plain) in
      let m = compress-IsNewImage z d f sender w room plain o cr (ap is_ok ok) in
      let packed = (z.deflate z_finish m.stream).wrote in
      let footer = footer_bytes m.from in
      let i : Inflatable z e receiver p ur begins array m.from packed plain dest_len = record {
        opens = v.opens;
        inflates = λ b t fresh input input_len output.
            let (ended, wrote, left) =
              v.inverts sender.settings.compression_level sender.settings.mem_level w _ m.stream b t
                footer narrow m.ok m.inside m.ended m.all_read fresh input
                (input_len ∙ length-append packed footer)
                (omega (arith, m.input_len, fits, output)) in
            (
              ended,
              wrote
                  ∙ ap (take m.stream.avail_in) m.input
                  ∙ take_all m.stream.avail_in plain (omega (arith, m.input_len)),
              left ∙ length-footer_bytes m.from,
            );
        crc_small = omega (arith, m.summed, v.crc32_small (z.crc32 0 []) plain);
        summed = m.summed;
        counted = m.counted;
        dest_fits = small;
        short = subst (λ (x : Bytes). length x < 2 ^ 31) m.laid_out short;
      } in
      subst
        (λ (x : Bytes).
          Returns (Restores plain) (uncompress z false receiver dest_len x (length x)))
        (sym m.laid_out)
        (uncompress-Restores z e receiver p ur begins array m.from packed plain dest_len i)

  -- What a first `Compress` in gzip mode stores with Z_OK, a first `Uncompress` in gzip mode gives back
  -- with Z_OK: the same bytes at the start of its buffer, and their number. (Both objects are valid and
  -- have no dictionary, the window has at most 2^15 bytes, the image is shorter than 2^31 bytes, and
  -- the buffer to uncompress into holds the data and is shorter than 2^32 bytes. zlib is assumed to
  -- behave as documented: `inflate` undoes `deflate`, and there is memory for its stream.)
  pub uncompress-compress :
      (sender receiver : ZLib z.Internal) (w room dest_len : ℕ) (plain : Bytes)
      (c : Call z.Internal)
      → CompReady z d sender
      → IsUnused sender w
      → w < 15
      → UncompReady z e receiver
      → IsUnread receiver
      → receiver.gzip_header ≡ initial
      → length receiver.gzip_footer ≡ 8
      → length plain ≤ dest_len
      → dest_len < 2 ^ 32
      → compress z sender room plain (length plain) ≡ c
      → c.code ≡ z_ok
      → length (contents c.writes) < 2 ^ 31
      → Returns
          (Restores plain)
          (uncompress z false receiver dest_len (contents c.writes) (length (contents c.writes)))
  uncompress-compress sender receiver w room dest_len plain c cr o narrow ur p begins array fits
        small made =
      subst
        (λ (c : Call z.Internal).
          c.code ≡ z_ok
          → length (contents c.writes) < 2 ^ 31
          → Returns (Restores plain) (
              uncompress z false receiver dest_len (contents c.writes)
                (length (contents c.writes))))
        made
        (compressed-Restores sender receiver w room dest_len plain cr o narrow ur p begins array
          fits small)
