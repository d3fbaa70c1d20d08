-- ===== src/Zlib/Compress/Whole.antt =====
-- zlibwrapper.cc: `Compress`, `CompressChunk` and `CompressChunkDone` store within the caller's
-- buffer, the footer included.
use fleetbench.Prelude.{
  ℕ, ◌+◌, ◌^◌, ◌≤◌, ◌<◌, ◌≡◌, refl, List, [], ◌∷◌, ◌++◌, ltb, if◌then◌else◌, if_cases, if_not_cases,
  Bytes, arith, true, false, not, ◌||◌, Returns, add64, sub64,
}
use fleetbench.Zlib.Library.{Zlib, Flush, z_finish, Code, z_ok, is_ok, is_buf_error, Deflates}
use fleetbench.Zlib.State.{ZLib, reset, end_comp, min_footer_size}
use fleetbench.Zlib.Call.{Write, Call, footer_bytes, write_gzip_footer}
use fleetbench.Zlib.CompressInit.{compress_error_init}
use fleetbench.Zlib.CompressInit.Ready.{CompReady, is_ok_lem}
use fleetbench.Zlib.Compress.{
  compress_at_most_or_all, compress_chunk_or_all, add_footer, compress, compress_chunk_done,
}
use fleetbench.Zlib.Compress.Bounds.{Packed-concat, Stored, compress_at_most_or_all-Stored}

module _ (z : Zlib) (d : Deflates z) where
  given_up-CompReady : (zl : ZLib z.Internal) → CompReady z d (compress_error_init z zl)
  unfolding compress_error_init end_comp reset
  given_up-CompReady zl = ground arith

  reset-CompReady : (zl : ZLib z.Internal) → CompReady z d zl → CompReady z d (reset zl)
  unfolding reset
  reset-CompReady zl v = record { live = v.live; begun = λ e. cc }

  -- A chunk call on a valid object, whatever its code, stores contiguous bytes from the start of the
  -- buffer to a point within it and leaves the object valid; with Z_OK, and a buffer below 2^31 bytes,
  -- `*destLen` is that point. (zlib is assumed to behave as documented.)
  pub compress_chunk_or_all-Stored :
      (zl : ZLib z.Internal) (dest_len : ℕ) (source : Bytes) (source_len : ℕ) (flush : Flush)
      → CompReady z d zl
      → Stored z d dest_len source_len (compress_chunk_or_all z zl dest_len source source_len flush)
  unfolding compress_chunk_or_all
  compress_chunk_or_all-Stored zl dest_len source source_len flush v =
      let c = compress_at_most_or_all z zl dest_len source source_len flush in
      let s = compress_at_most_or_all-Stored z d dest_len source_len zl source flush v in
      if_cases (Stored z d dest_len source_len) (is_buf_error c.code) _ _
        (λ full. record {
          end_at = s.end_at;
          packed = s.packed;
          within = s.within;
          ready = given_up-CompReady c.zlib;
          reported = s.reported;
        })
        (λ _. s)

  module _ (dest_len source_len : ℕ) (small : dest_len < 2 ^ 31) where
    reset-Stored :
        (c : Call z.Internal)
        → Stored z d dest_len source_len c
        → Stored z d dest_len source_len (record c { zlib = reset c.zlib })
    reset-Stored c s = record {
      end_at = s.end_at;
      packed = s.packed;
      within = s.within;
      ready = reset-CompReady c.zlib s.ready;
      reported = s.reported;
    }

    add_footer-Stored :
        (c : Call z.Internal)
        → Stored z d dest_len source_len c
        → c.code ≡ z_ok
        → Stored z d dest_len source_len (add_footer z dest_len c)
    unfolding add_footer write_gzip_footer footer_bytes
    add_footer-Stored c s ok =
        let e : c.dest_len ≡ s.end_at = s.reported small ok in
        if_not_cases (Stored z d dest_len source_len) c.zlib.settings.gzip_header_mode _ _
          (λ _. record {
            end_at = s.end_at;
            packed = s.packed;
            within = s.within;
            ready = s.ready;
            reported = λ _ _. e;
          })
          (λ _.
            if_cases
              (λ (w : Code × List Write). Stored z d dest_len source_len (
                if is_ok w.0
                then record c {
                  code = z_ok;
                  dest_len = add64 c.dest_len 8;
                  writes = c.writes ++ w.1;
                }
                else record c { code = w.0 }))
              (ltb (sub64 dest_len c.dest_len) 8) _ _
              (λ _. record {
                end_at = s.end_at;
                packed = s.packed;
                within = s.within;
                ready = s.ready;
                reported = λ _ no. cc;
              })
              (λ room.
                let fits : c.dest_len + 8 ≤ dest_len = ground (arith, s.within, e, room) in
                record {
                  end_at = c.dest_len + 8;
                  packed =
                      Packed-concat c.writes 0 c.dest_len (c.dest_len + 8) (footer_bytes c.zlib)
                        (rw (e) s.packed) refl;
                  within = fits;
                  ready = s.ready;
                  reported = λ _ _. omega arith;
                }))

    -- `Compress` on a valid object and a buffer below 2^31 bytes, whatever its code, stores contiguous
    -- bytes, header and footer included, from the start of the buffer to a point within it, and leaves
    -- the object valid; with Z_OK, `*destLen` is that point. (zlib is assumed to behave as
    -- documented.)
    pub compress-Stored :
        (zl : ZLib z.Internal) (source : Bytes)
        → CompReady z d zl
        → Stored z d dest_len source_len (compress z zl dest_len source source_len)
    unfolding compress
    compress-Stored zl source v =
        let c = compress_chunk_or_all z zl dest_len source source_len z_finish in
        let s = compress_chunk_or_all-Stored zl dest_len source source_len z_finish v in
        if_not_cases (Stored z d dest_len source_len) (is_ok c.code) _ _ (λ _. s)
          (λ ok. add_footer-Stored _ (reset-Stored c s) (is_ok_lem _ ok))

  -- `CompressChunkDone`, on a valid object that has begun a chunk and a buffer below 2^31 bytes, does
  -- the same: it returns, stores contiguous bytes within the buffer, the footer included, and leaves
  -- the object valid; with Z_OK, `*destLen` is their number. (zlib is assumed to behave as
  -- documented.)
  pub compress_chunk_done-Stored :
      (dest_len : ℕ)
      → dest_len < 2 ^ 31
      → (zl : ZLib z.Internal) → CompReady z d zl
      → zl.first_chunk ≡ false
      → zl.comp_init ≡ true
      → Returns (Stored z d dest_len 0) (compress_chunk_done z zl dest_len)
  unfolding compress_chunk_done
  compress_chunk_done-Stored dest_len small zl v later begun =
      let Q = Returns (Stored z d dest_len 0) in
      let c = compress_chunk_or_all z zl dest_len (0 ∷ []) 0 z_finish in
      let s = compress_chunk_or_all-Stored zl dest_len (0 ∷ []) 0 z_finish v in
      let r = reset-Stored dest_len 0 small c s in
      if_cases Q (ltb dest_len (min_footer_size zl)) _ _
        (λ _. record {
          end_at = 0;
          packed = refl;
          within = omega arith;
          ready = v;
          reported = λ _ _. refl;
        })
        (λ _.
          if_cases Q (zl.first_chunk || not zl.comp_init) _ _
            (λ refused. absurd (ground (arith, refused, later, begun)))
            (λ _.
              if_not_cases Q (is_ok c.code) _ _ (λ _. r)
                (λ ok. add_footer-Stored dest_len 0 small _ r (is_ok_lem _ ok))))
