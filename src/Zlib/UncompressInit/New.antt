-- ===== src/Zlib/UncompressInit/New.antt =====
-- zlibwrapper.cc: the first stream that `UncompressInit` sets up for an object in gzip mode.
use fleetbench.Prelude.{
  ℕ, ◌≡◌, refl, true, false, ◌==◌, if_cases, if_not_cases, Bytes, negsuc, low32, arith, ◌∙◌, ap,
  sym, subst,
}
use fleetbench.Zlib.Library.{Zlib, Reply, Code, z_ok, is_ok}
use fleetbench.Zlib.State.{ZLib, inflate_wbits}
use fleetbench.Zlib.UncompressInit.{
  inflate_init, drop_changed_dictionary, reuse_uncomp, ensure_uncomp, uncompress_init,
}

-- An object in gzip mode that has not uncompressed yet, with no dictionary.
pub record IsUnread {I : Type 0} (zl : ZLib I) : Type 0 where
  pub unread : zl.uncomp_init ≡ false
  pub first : zl.first_chunk ≡ true
  pub bare : zl.settings.dictionary ≡ 0
  pub gzip : zl.settings.gzip_header_mode ≡ true
  pub raw : zl.settings.no_header_mode ≡ true
  pub hides : zl.settings.dont_hide_zstream_end ≡ false

module _ (z : Zlib) (zl : ZLib z.Internal) (o : IsUnread zl) (dest_len : ℕ) (source : Bytes)
    (source_len : ℕ) where
  abbrev placed : ZLib z.Internal
  placed = record zl {
    uncomp_stream = record zl.uncomp_stream {
      next_in = source;
      avail_in = low32 source_len;
      next_out = 0;
      avail_out = low32 dest_len;
    };
  }

  -- The answer of `inflateInit2` on the caller's buffers: a stream without a header.
  abbrev pub initialised : Reply z.Internal
  initialised = z.inflate_init2 (negsuc 14) placed.uncomp_stream

  untouched : reuse_uncomp z (drop_changed_dictionary z placed) ≡ placed
  unfolding reuse_uncomp drop_changed_dictionary
  untouched =
      let dropped : drop_changed_dictionary z placed ≡ placed = ground (arith, o.unread) in
      let reused : reuse_uncomp z placed ≡ placed = ground (arith, o.unread) in
      ap (reuse_uncomp z) dropped ∙ reused

  abbrev pub NewStream : ZLib z.Internal × Code → Type 0
  NewStream r =
      (r.1 ≡ z_ok)
      × (r.0.uncomp_stream.internal ≡ initialised.stream.internal)
      × (r.0.uncomp_init ≡ true)

  ensure_uncomp-NewStream : is_ok initialised.code ≡ true → NewStream (ensure_uncomp z placed)
  unfolding ensure_uncomp inflate_init
  ensure_uncomp-NewStream ok =
      let bits : inflate_wbits placed ≡ negsuc 14 = ground (arith, o.raw) in
      let answer : z.inflate_init2 (inflate_wbits placed) placed.uncomp_stream ≡ initialised =
        ap (λ b. z.inflate_init2 b placed.uncomp_stream) bits in
      let good : is_ok (z.inflate_init2 (inflate_wbits placed) placed.uncomp_stream).code ≡ true =
        ap (λ (a : Reply z.Internal). is_ok a.code) answer ∙ ok in
      if_cases NewStream zl.uncomp_init _ _ (λ used. absurd (ground (arith, used, o.unread)))
        (λ _. rw good (refl, ap (λ (a : Reply z.Internal). a.stream.internal) answer, refl))

  -- With lengths that fit and memory for the stream, the call succeeds and has just initialised it.
  pub uncompress_init-NewStream :
      low32 source_len ≡ source_len
      → low32 dest_len ≡ dest_len
      → is_ok initialised.code ≡ true
      → NewStream (uncompress_init z zl dest_len source source_len)
  unfolding uncompress_init
  uncompress_init-NewStream source_fits dest_fits ok =
      if_not_cases NewStream (low32 source_len == source_len) _ _
        (λ big. absurd (ground (arith, big, source_fits)))
        (λ _.
          if_not_cases NewStream (low32 dest_len == dest_len) _ _
            (λ big. absurd (ground (arith, big, dest_fits)))
            (λ _.
              if_not_cases NewStream zl.first_chunk _ _
                (λ later. absurd (ground (arith, later, o.first)))
                (λ _.
                  subst (λ zl'. NewStream (ensure_uncomp z zl')) (sym untouched)
                    (ensure_uncomp-NewStream ok))))
