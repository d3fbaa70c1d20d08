-- ===== src/Zlib/UncompressInit/Opened.antt =====
-- zlibwrapper.cc: `UncompressInit` hands a live stream to `inflate`, on the caller's buffers.
use fleetbench.Prelude.{
  ℕ, ◌≡◌, refl, true, false, not, ◌==◌, if◌then◌else◌, Bytes, arith, if_not_cases, ==_iff, ◌∙◌,
  low32,
}
use fleetbench.Zlib.Library.{Zlib, Stream, Code, z_ok, z_buf_error, is_ok, is_buf_error}
use fleetbench.Zlib.State.{ZLib, reset, end_uncomp, inflate_wbits}
use fleetbench.Zlib.Inflates.{KeepsBuffers, Inflates}
use fleetbench.Zlib.CompressInit.Ready.{is_ok_lem}
use fleetbench.Zlib.UncompressInit.{
  uncompress_error_init, inflate_init, drop_changed_dictionary, reuse_uncomp, ensure_uncomp,
  uncompress_init,
}

module _ (z : Zlib) (d : Inflates z) where
  -- `uncomp_init_` says that the stream is live, and between chunks it is set.
  pub record UncompReady (zl : ZLib z.Internal) : Type 0 where
    pub live : zl.uncomp_init ≡ true → d.Live zl.uncomp_stream.internal
    pub begun : zl.first_chunk ≡ false → zl.uncomp_init ≡ true

  -- `new` differs from `old` in the stream, what is known of it, and the header parser. Where the
  -- stream was set up or reset, its counts start at 0.
  pub record Holds (old new : ZLib z.Internal) : Type 0 where
    pub buffers : KeepsBuffers old.uncomp_stream new.uncomp_stream
    pub settings_same : new.settings ≡ old.settings
    pub first_same : new.first_chunk ≡ old.first_chunk
    pub crc_same : new.crc ≡ old.crc
    pub footer_same : new.gzip_footer ≡ old.gzip_footer
    pub footer_bytes_same : new.gzip_footer_bytes ≡ old.gzip_footer_bytes
    pub live_after : new.uncomp_init ≡ true → d.Live new.uncomp_stream.internal

  abbrev Counts : ZLib z.Internal → Type 0
  Counts zl =
      zl.uncomp_init ≡ true → (zl.uncomp_stream.total_in ≡ 0) × (zl.uncomp_stream.total_out ≡ 0)

  abbrev LiveIf : ZLib z.Internal → Type 0
  LiveIf zl = zl.uncomp_init ≡ true → d.Live zl.uncomp_stream.internal

  drop_changed_dictionary-Holds :
      (zl : ZLib z.Internal) → LiveIf zl → Holds zl (drop_changed_dictionary z zl)
  unfolding drop_changed_dictionary
  drop_changed_dictionary-Holds zl v = ground (arith, d.end_keeps zl.uncomp_stream)

  -- On the first chunk.
  reuse_uncomp-Holds :
      (zl : ZLib z.Internal)
      → LiveIf zl
      → zl.first_chunk ≡ true
      → Holds zl (reuse_uncomp z zl) × Counts (reuse_uncomp z zl)
  unfolding reuse_uncomp uncompress_error_init end_uncomp reset
  reuse_uncomp-Holds zl v first =
      let w = inflate_wbits zl in
      let s = zl.uncomp_stream in
      ground (
        arith,
        d.reset2_live w s,
        d.reset2_keeps w s,
        d.reset2_in w s,
        d.reset2_out w s,
        d.end_keeps (z.inflate_reset2 w s).stream,
        is_ok_lem (z.inflate_reset2 w s).code,
      )

  ensure_uncomp-Holds :
      (zl : ZLib z.Internal)
      → LiveIf zl
      → Counts zl
      → let r = ensure_uncomp z zl in
        Holds zl r.0 × (r.1 ≡ z_ok → r.0.uncomp_init ≡ true) × (r.1 ≡ z_ok → Counts r.0)
  unfolding ensure_uncomp inflate_init
  ensure_uncomp-Holds zl v n =
      let w = inflate_wbits zl in
      let s = zl.uncomp_stream in
      ground (
        arith,
        d.init2_live w s,
        d.init2_keeps w s,
        d.init2_in w s,
        d.init2_out w s,
        is_ok_lem (z.inflate_init2 w s).code,
      )

  Holds-trans : {a b c : ZLib z.Internal} → Holds a b → Holds b c → Holds a c
  Holds-trans p q = ground arith

  ensured-Holds :
      (zl : ZLib z.Internal)
      → LiveIf zl
      → zl.first_chunk ≡ true
      → let r = ensure_uncomp z (reuse_uncomp z (drop_changed_dictionary z zl)) in
        Holds zl r.0 × (r.1 ≡ z_ok → r.0.uncomp_init ≡ true) × (r.1 ≡ z_ok → Counts r.0)
  ensured-Holds zl v first =
      let p = drop_changed_dictionary-Holds zl v in
      let (q, n) = reuse_uncomp-Holds _ p.live_after (p.first_same ∙ first) in
      let (r, on, m) = ensure_uncomp-Holds _ q.live_after n in
      (Holds-trans p (Holds-trans q r), on, m)

  -- What `UncompressInit` leaves: always a valid object with the same settings, checksum and footer,
  -- and on success a live stream on the caller's buffers, whose counts are 0 for the first chunk.
  pub record Opened (zl : ZLib z.Internal) (dest_len : ℕ) (source : Bytes) (source_len : ℕ)
      (r : ZLib z.Internal × Code) : Type 0 where
    pub settings_same : r.0.settings ≡ zl.settings
    pub first_same : r.0.first_chunk ≡ zl.first_chunk
    pub crc_same : r.0.crc ≡ zl.crc
    pub footer_same : r.0.gzip_footer ≡ zl.gzip_footer
    pub footer_bytes_same : r.0.gzip_footer_bytes ≡ zl.gzip_footer_bytes
    pub ready : UncompReady r.0
    pub is_live : r.1 ≡ z_ok → d.Live r.0.uncomp_stream.internal
    pub is_set : r.1 ≡ z_ok → r.0.uncomp_init ≡ true
    pub in_at : r.1 ≡ z_ok → r.0.uncomp_stream.next_in ≡ source
    pub in_all : r.1 ≡ z_ok → r.0.uncomp_stream.avail_in ≡ source_len
    pub out_all : r.1 ≡ z_ok → r.0.uncomp_stream.avail_out ≡ dest_len
    pub no_input : r.1 ≡ z_ok → zl.first_chunk ≡ true → r.0.uncomp_stream.total_in ≡ 0
    pub no_output : r.1 ≡ z_ok → zl.first_chunk ≡ true → r.0.uncomp_stream.total_out ≡ 0
    -- On a later chunk only lengths that do not fit fail.
    pub later_ok :
        zl.first_chunk ≡ false
        → low32 source_len ≡ source_len
        → low32 dest_len ≡ dest_len
        → r.1 ≡ z_ok
    pub small_in : r.1 ≡ z_ok → low32 source_len ≡ source_len
    pub small_out : r.1 ≡ z_ok → low32 dest_len ≡ dest_len
    pub restarted : is_ok r.1 ≡ false → is_buf_error r.1 ≡ false → r.0.first_chunk ≡ true

  -- The object with the caller's buffers in the stream.
  abbrev pub on_buffers :
      ZLib z.Internal → (dest_len : ℕ) → Bytes → (source_len : ℕ) → ZLib z.Internal
  on_buffers zl dest_len source source_len = record zl {
    uncomp_stream = record zl.uncomp_stream {
      next_in = source;
      avail_in = low32 source_len;
      next_out = 0;
      avail_out = low32 dest_len;
    };
  }

  module _ (zl : ZLib z.Internal) (dest_len : ℕ) (source : Bytes) (source_len : ℕ)
      (v : UncompReady zl) where
    abbrev Result : ZLib z.Internal × Code → Type 0
    Result = Opened zl dest_len source source_len

    refused-Opened :
        (t : Stream z.Internal)
        → t.internal ≡ zl.uncomp_stream.internal
        → (low32 source_len ≡ source_len → low32 dest_len ≡ dest_len → ⊥)
        → Result (record zl { uncomp_stream = t }, z_buf_error)
    refused-Opened t e big = record {
      settings_same = refl;
      first_same = refl;
      crc_same = refl;
      footer_same = refl;
      footer_bytes_same = refl;
      ready = record { live = λ on. rw e (v.live on); begun = v.begun };
      is_live = λ e. cc;
      is_set = λ e. cc;
      in_at = λ e. cc;
      in_all = λ e. cc;
      out_all = λ e. cc;
      no_input = λ e. cc;
      no_output = λ e. cc;
      later_ok = λ _ p q. absurd (big p q);
      small_in = λ e. cc;
      small_out = λ e. cc;
      restarted = λ _ e. cc;
    }

    module _ (source_fits : low32 source_len ≡ source_len)
        (dest_fits : low32 dest_len ≡ dest_len) where
      abbrev placed : ZLib z.Internal
      placed = on_buffers zl dest_len source source_len

      later-Opened : zl.first_chunk ≡ false → Result (placed, z_ok)
      later-Opened later = record {
        settings_same = refl;
        first_same = refl;
        crc_same = refl;
        footer_same = refl;
        footer_bytes_same = refl;
        ready = record { live = v.live; begun = v.begun };
        is_live = λ e. v.live (v.begun later);
        is_set = λ e. v.begun later;
        in_at = λ e. refl;
        in_all = λ e. source_fits;
        out_all = λ e. dest_fits;
        no_input = λ _ first. cc;
        no_output = λ _ first. cc;
        later_ok = λ _ _ _. refl;
        small_in = λ _. source_fits;
        small_out = λ _. dest_fits;
        restarted = λ e. cc;
      }

      first-Opened :
          zl.first_chunk ≡ true
          → (r : ZLib z.Internal × Code)
          → Holds placed r.0 × (r.1 ≡ z_ok → r.0.uncomp_init ≡ true) × (r.1 ≡ z_ok → Counts r.0)
          → Result r
      first-Opened first r (k, set, counts) = record {
        settings_same = k.settings_same;
        first_same = k.first_same;
        crc_same = k.crc_same;
        footer_same = k.footer_same;
        footer_bytes_same = k.footer_bytes_same;
        ready = record { live = k.live_after; begun = λ e. cc (k.first_same) };
        is_live = λ e. k.live_after (set e);
        is_set = set;
        in_at = λ e. k.buffers.same_next_in;
        in_all = λ e. k.buffers.same_avail_in ∙ source_fits;
        out_all = λ e. k.buffers.same_avail_out ∙ dest_fits;
        no_input = λ e _. (counts e (set e)).0;
        no_output = λ e _. (counts e (set e)).1;
        later_ok = λ later _ _. cc;
        small_in = λ _. source_fits;
        small_out = λ _. dest_fits;
        restarted = λ _ _. k.first_same ∙ first;
      }

      fitting-Opened : Result (
          if not zl.first_chunk
          then (placed, z_ok)
          else ensure_uncomp z (reuse_uncomp z (drop_changed_dictionary z placed)))
      fitting-Opened =
          if_not_cases Result zl.first_chunk _ _ later-Opened
            (λ first. first-Opened first _ (ensured-Holds placed v.live first))

    -- `UncompressInit` on a valid object.
    pub uncompress_init-Opened :
        Opened zl dest_len source source_len (uncompress_init z zl dest_len source source_len)
    unfolding uncompress_init
    uncompress_init-Opened =
        if_not_cases Result (low32 source_len == source_len) _ _
          (λ big. refused-Opened _ refl (λ p _. ground arith))
          (λ fits.
            if_not_cases Result (low32 dest_len == dest_len) _ _
              (λ big. refused-Opened _ refl (λ _ q. ground arith))
              (λ fits'. fitting-Opened ((==_iff _ _).0 fits) ((==_iff _ _).0 fits')))
