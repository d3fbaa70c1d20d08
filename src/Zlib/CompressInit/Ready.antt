-- ===== src/Zlib/CompressInit/Ready.antt =====
-- zlibwrapper.cc: `CompressInit` hands a live stream to `deflate`, on the caller's buffers.
use fleetbench.Prelude.{
  ℕ, ◌≡◌, refl, true, false, not, ◌==◌, if◌then◌else◌, Bytes, arith, if_not_cases, ==_iff, ◌∙◌,
  low32, negate,
}
use fleetbench.Zlib.Library.{Zlib, Stream, Code, z_ok, z_buf_error, is_ok, SameBuffers, Deflates}
use fleetbench.Zlib.State.{ZLib, reset_comp}
use fleetbench.Zlib.CompressInit.{
  deflate_init, drop_changed, adjust_level, ensure_comp, compress_init,
}

pub is_ok_lem : (c : Code) → is_ok c ≡ true → c ≡ z_ok
is_ok_lem z_ok e = refl
is_ok_lem _ e = cc

module _ (z : Zlib) (d : Deflates z) where
  -- `comp_init_` says that the stream is live, and between chunks it is set.
  pub record CompReady (zl : ZLib z.Internal) : Type 0 where
    pub live : zl.comp_init ≡ true → d.Live zl.comp_stream.internal
    pub begun : zl.first_chunk ≡ false → zl.comp_init ≡ true

  -- `new` differs from `old` in the stream and what is known of it, and the stream still has the
  -- caller's buffers.
  pub record Keeps (old new : ZLib z.Internal) : Type 0 where
    pub buffers : SameBuffers old.comp_stream new.comp_stream
    pub settings_same : new.settings ≡ old.settings
    pub first_same : new.first_chunk ≡ old.first_chunk
    pub crc_same : new.crc ≡ old.crc
    pub size_same : new.uncompressed_size ≡ old.uncompressed_size
    pub live_after : new.comp_init ≡ true → d.Live new.comp_stream.internal

  abbrev LiveIf : ZLib z.Internal → Type 0
  LiveIf zl = zl.comp_init ≡ true → d.Live zl.comp_stream.internal

  drop_changed-Keeps : (zl : ZLib z.Internal) → LiveIf zl → Keeps zl (drop_changed z zl)
  unfolding drop_changed
  drop_changed-Keeps zl v = ground (arith, d.end_same zl.comp_stream)

  reset_comp-Keeps : (zl : ZLib z.Internal) → LiveIf zl → Keeps zl (reset_comp z zl)
  unfolding reset_comp
  reset_comp-Keeps zl v = ground (
    arith,
    d.reset_same zl.comp_stream,
    d.reset_live zl.comp_stream,
    d.end_same (z.deflate_reset zl.comp_stream).stream,
  )

  adjust_level-Keeps : (zl : ZLib z.Internal) → LiveIf zl → Keeps zl (adjust_level z zl)
  unfolding adjust_level
  adjust_level-Keeps zl v = ground (
    arith,
    d.params_same zl.settings.compression_level zl.comp_stream,
    d.params_live zl.settings.compression_level zl.comp_stream,
    d.end_same (z.deflate_params zl.settings.compression_level zl.comp_stream).stream,
  )

  deflate_init-Keeps :
      (zl : ZLib z.Internal)
      → let r = deflate_init z zl in
        SameBuffers zl.comp_stream r.0.comp_stream
        × (r.0.settings ≡ zl.settings)
        × (r.0.first_chunk ≡ zl.first_chunk)
        × (r.0.crc ≡ zl.crc)
        × (r.0.uncompressed_size ≡ zl.uncompressed_size)
        × (r.0.comp_init ≡ zl.comp_init)
        × (r.1 ≡ z_ok → d.Live r.0.comp_stream.internal)
  unfolding deflate_init
  deflate_init-Keeps zl =
      let s = zl.settings in
      let bits = if s.no_header_mode then negate s.window_bits else s.window_bits in
      let same = d.init2_same s.compression_level bits s.mem_level zl.comp_stream in
      let live = d.init2_live s.compression_level bits s.mem_level zl.comp_stream in
      (
        ground (arith, same),
        ground arith,
        ground arith,
        ground arith,
        ground arith,
        ground arith,
        ground (arith, live),
      )

  ensure_comp-Keeps :
      (zl : ZLib z.Internal)
      → LiveIf zl
      → Keeps zl (ensure_comp z zl).0
        × ((ensure_comp z zl).1 ≡ z_ok → (ensure_comp z zl).0.comp_init ≡ true)
  unfolding ensure_comp
  ensure_comp-Keeps zl v = ground (arith, deflate_init-Keeps zl, is_ok_lem (deflate_init z zl).1)

  Keeps-trans : {a b c : ZLib z.Internal} → Keeps a b → Keeps b c → Keeps a c
  Keeps-trans p q = ground arith

  set_up-Keeps :
      (zl : ZLib z.Internal)
      → LiveIf zl
      → Keeps zl (adjust_level z (reset_comp z (drop_changed z zl)))
  set_up-Keeps zl v =
      let p = drop_changed-Keeps zl v in
      let q = reset_comp-Keeps _ p.live_after in
      Keeps-trans p (Keeps-trans q (adjust_level-Keeps _ q.live_after))

  ensured-Keeps :
      (zl : ZLib z.Internal)
      → LiveIf zl
      → let r = ensure_comp z (adjust_level z (reset_comp z (drop_changed z zl))) in
        Keeps zl r.0 × (r.1 ≡ z_ok → r.0.comp_init ≡ true)
  ensured-Keeps zl v =
      let p = set_up-Keeps zl v in
      let q = ensure_comp-Keeps _ p.live_after in (Keeps-trans p q.0, q.1)

  -- What `CompressInit` leaves: always a valid object of the same settings, and on success a live
  -- stream on the caller's buffers.
  pub record Begun (zl : ZLib z.Internal) (dest_len source_len : ℕ) (r : ZLib z.Internal × Code)
      : Type 0 where
    pub settings_same : r.0.settings ≡ zl.settings
    pub first_same : r.0.first_chunk ≡ zl.first_chunk
    pub crc_same : r.0.crc ≡ zl.crc
    pub size_same : r.0.uncompressed_size ≡ zl.uncompressed_size
    pub ready : CompReady r.0
    pub is_live : r.1 ≡ z_ok → d.Live r.0.comp_stream.internal
    pub is_set : r.1 ≡ z_ok → r.0.comp_init ≡ true
    pub in_all : r.1 ≡ z_ok → r.0.comp_stream.avail_in ≡ source_len
    pub out_start : r.1 ≡ z_ok → r.0.comp_stream.next_out ≡ 0
    pub out_all : r.1 ≡ z_ok → r.0.comp_stream.avail_out ≡ dest_len

  -- The object with the caller's buffers in the stream.
  abbrev on_buffers : ZLib z.Internal → (dest_len : ℕ) → Bytes → (source_len : ℕ) → ZLib z.Internal
  on_buffers zl dest_len source source_len = record zl {
    comp_stream = record zl.comp_stream {
      next_in = source;
      avail_in = low32 source_len;
      next_out = 0;
      avail_out = low32 dest_len;
    };
  }

  -- The object has only its stream changed, and the call says so.
  refused-Begun :
      (zl : ZLib z.Internal) (t : Stream z.Internal) (dest_len source_len : ℕ)
      → CompReady zl
      → t.internal ≡ zl.comp_stream.internal
      → Begun zl dest_len source_len (record zl { comp_stream = t }, z_buf_error)
  refused-Begun zl t dest_len source_len v e = record {
    settings_same = refl;
    first_same = refl;
    crc_same = refl;
    size_same = refl;
    ready = record { live = λ on. rw e (v.live on); begun = v.begun };
    is_live = λ e. cc;
    is_set = λ e. cc;
    in_all = λ e. cc;
    out_start = λ e. cc;
    out_all = λ e. cc;
  }

  module _ (zl : ZLib z.Internal) (dest_len : ℕ) (source : Bytes) (source_len : ℕ)
      (v : CompReady zl) (source_fits : low32 source_len ≡ source_len)
      (dest_fits : low32 dest_len ≡ dest_len) where
    abbrev zl' : ZLib z.Internal
    zl' = on_buffers zl dest_len source source_len

    later-Begun : zl.first_chunk ≡ false → Begun zl dest_len source_len (zl', z_ok)
    later-Begun later = record {
      settings_same = refl;
      first_same = refl;
      crc_same = refl;
      size_same = refl;
      ready = record { live = v.live; begun = v.begun };
      is_live = λ e. v.live (v.begun later);
      is_set = λ e. v.begun later;
      in_all = λ e. source_fits;
      out_start = λ e. refl;
      out_all = λ e. dest_fits;
    }

    first-Begun :
        zl.first_chunk ≡ true
        → (r : ZLib z.Internal × Code) → Keeps zl' r.0 × (r.1 ≡ z_ok → r.0.comp_init ≡ true)
        → Begun zl dest_len source_len r
    first-Begun first r (k, set) = record {
      settings_same = k.settings_same;
      first_same = k.first_same;
      crc_same = k.crc_same;
      size_same = k.size_same;
      ready = record { live = k.live_after; begun = λ e. cc (k.first_same) };
      is_live = λ e. k.live_after (set e);
      is_set = set;
      in_all = λ e. k.buffers.same_avail_in ∙ source_fits;
      out_start = λ e. k.buffers.same_next_out;
      out_all = λ e. k.buffers.same_avail_out ∙ dest_fits;
    }

    fitting-Begun : Begun zl dest_len source_len (
        if not zl.first_chunk
        then (zl', z_ok)
        else ensure_comp z (adjust_level z (reset_comp z (drop_changed z zl'))))
    fitting-Begun =
        if_not_cases (Begun zl dest_len source_len) zl.first_chunk _ _ later-Begun
          (λ first. first-Begun first _ (ensured-Keeps zl' v.live))

  -- `CompressInit` on a valid object leaves a valid object with the same settings, checksum, length and
  -- chunk state, and with Z_OK a live stream on exactly the caller's buffers. (zlib is assumed to
  -- behave as documented.)
  pub compress_init-Begun :
      (zl : ZLib z.Internal) (dest_len : ℕ) (source : Bytes) (source_len : ℕ)
      → CompReady zl
      → Begun zl dest_len source_len (compress_init z zl dest_len source source_len)
  unfolding compress_init
  compress_init-Begun zl dest_len source source_len v =
      let P = Begun zl dest_len source_len in
      if_not_cases P (low32 source_len == source_len) _ _
        (λ big. refused-Begun zl _ dest_len source_len v refl)
        (λ fits.
          if_not_cases P (low32 dest_len == dest_len) _ _
            (λ big. refused-Begun zl _ dest_len source_len v refl)
            (λ fits'.
              fitting-Begun zl dest_len source source_len v ((==_iff _ _).0 fits)
                ((==_iff _ _).0 fits')))
