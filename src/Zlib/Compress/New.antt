-- ===== src/Zlib/Compress/New.antt =====
-- zlibwrapper.cc: the image that the first `Compress` of an object in gzip mode makes.
use fleetbench.Prelude.{
  ℕ, suc, ◌^◌, ◌<◌, ◌≡◌, refl, true, false, not, [], ◌∷◌, ◌++◌, ◌==◌, ==_iff, if◌then◌else◌,
  if_cases, if_not_cases, Bytes, length, take, ℤ, pos, negsuc, negate, low32, add64, sub64, arith,
  ◌∙◌, ap, sym, subst,
}
use fleetbench.Zlib.Library.{
  Zlib, Stream, Reply, z_finish, Code, z_ok, z_stream_end, is_ok, is_stream_end, Deflates,
}
use fleetbench.Zlib.State.{ZLib, reset_comp}
use fleetbench.Zlib.Call.{Call, gzip_header_bytes, write_gzip_header}
use fleetbench.Zlib.CompressInit.{
  deflate_init, drop_changed, adjust_level, ensure_comp, compress_init,
}
use fleetbench.Zlib.CompressInit.Ready.{CompReady, compress_init-Begun, is_ok_lem}
use fleetbench.Zlib.Compress.{
  Started, start_header, start_dictionary, start_first_chunk, judge_deflate, compress_body,
  compress_at_most_or_all,
}

-- What zlib.h documents of `deflate` with Z_FINISH, and of the input pointer in a new stream.
pub record Finishes (z : Zlib) (d : Deflates z) : Type 1 where
  -- "If deflate returns with Z_OK or Z_BUF_ERROR, this function must be called again with Z_FINISH
  -- and more output space."
  pub finish_full :
      (s : Stream z.Internal)
      → d.Live s.internal
      → (z.deflate z_finish s).code ≡ z_ok
      → (z.deflate z_finish s).stream.avail_out ≡ 0
  pub init2_next_in :
      (level window_bits mem_level : ℤ) (s : Stream z.Internal)
      → (z.deflate_init2 level window_bits mem_level s).stream.next_in ≡ s.next_in

-- An object in gzip mode that has not compressed yet, with a window of 2 ^ (w + 1) bytes and no
-- dictionary.
pub record IsUnused {I : Type 0} (zl : ZLib I) (w : ℕ) : Type 0 where
  pub unused : zl.comp_init ≡ false
  pub first : zl.first_chunk ≡ true
  pub bare : zl.settings.dictionary ≡ 0
  pub gzip : zl.settings.gzip_header_mode ≡ true
  pub raw : zl.settings.no_header_mode ≡ true
  pub bits : zl.settings.window_bits ≡ pos (suc w)

module _ (z : Zlib) (d : Deflates z) (f : Finishes z d) (zl : ZLib z.Internal) (w room : ℕ)
    (source : Bytes) (o : IsUnused zl w) where
  -- The stream on the caller's buffers, and the answer of `deflateInit2` to it.
  abbrev pub placed : ZLib z.Internal
  placed = record zl {
    comp_stream = record zl.comp_stream {
      next_in = source;
      avail_in = low32 (length source);
      next_out = 0;
      avail_out = low32 room;
    };
  }

  abbrev pub initialised : Reply z.Internal
  initialised =
      z.deflate_init2 zl.settings.compression_level (negsuc w) zl.settings.mem_level
        placed.comp_stream

  -- A first call sets up a new stream, and what fails has a code.
  pub record IsNew (r : ZLib z.Internal × Code) : Type 0 where
    pub settings_same : r.0.settings ≡ zl.settings
    pub first_same : r.0.first_chunk ≡ true
    pub ok : initialised.code ≡ z_ok
    pub stream_new : r.0.comp_stream ≡ initialised.stream
    pub source_fits : low32 (length source) ≡ length source

  untouched : adjust_level z (reset_comp z (drop_changed z placed)) ≡ placed
  unfolding adjust_level reset_comp drop_changed
  untouched =
      let same : (f : ZLib z.Internal → ZLib z.Internal)
          → f placed ≡ placed
          → (zl' : ZLib z.Internal) → zl' ≡ placed
          → f zl' ≡ placed =
        λ f e zl' e'. ap f e' ∙ e in
      same (adjust_level z) (ground arith) (reset_comp z (drop_changed z placed))
        (same (reset_comp z) (ground arith) (drop_changed z placed) (ground arith))

  set_up-IsNew :
      low32 (length source) ≡ length source
      → is_ok (ensure_comp z placed).1 ≡ true
      → IsNew (ensure_comp z placed)
  unfolding ensure_comp deflate_init
  set_up-IsNew fits ok =
      let s = zl.settings in
      let b : (if s.no_header_mode then negate s.window_bits else s.window_bits) ≡ negsuc w =
        ground (arith, o.raw, o.bits) in
      let answer : z.deflate_init2 s.compression_level
            (if s.no_header_mode then negate s.window_bits else s.window_bits) s.mem_level
            placed.comp_stream
          ≡ initialised =
        ap (λ k. z.deflate_init2 s.compression_level k s.mem_level placed.comp_stream) b in
      let good : is_ok
            (z.deflate_init2 s.compression_level
              (if s.no_header_mode then negate s.window_bits else s.window_bits) s.mem_level
              placed.comp_stream).code
          ≡ true =
        ground (arith, o.unused) in
      record {
        settings_same = ground arith;
        first_same = ground arith;
        ok = sym (ap (λ (a : Reply z.Internal). a.code) answer) ∙ is_ok_lem _ good;
        stream_new =
            if_cases (λ (r : ZLib z.Internal × Code). r.0.comp_stream ≡ initialised.stream)
              placed.comp_init _ _ (λ used. absurd (cc))
              (λ _. rw good (ap (λ (a : Reply z.Internal). a.stream) answer));
        source_fits = fits;
      }

  compress_init-IsNew :
      is_ok (compress_init z zl room source (length source)).1 ≡ true
      → IsNew (compress_init z zl room source (length source))
  unfolding compress_init
  compress_init-IsNew =
      let P : ZLib z.Internal × Code → Type 0 = λ r. is_ok r.1 ≡ true → IsNew r in
      if_not_cases P (low32 (length source) == length source) _ _ (λ _ ok. cc)
        (λ fits.
          if_not_cases P (low32 room == room) _ _ (λ _ ok. cc)
            (λ _.
              if_not_cases P zl.first_chunk _ _ (λ later. absurd (cc))
                (λ _.
                  subst (λ zl'. P (ensure_comp z zl')) (sym untouched)
                    (set_up-IsNew ((==_iff _ _).0 fits)))))

  -- The header is stored and the data begins: the stream differs from `zl1`'s in its output alone.
  pub record HeaderStored (zl1 : ZLib z.Internal) (st : Started z.Internal) : Type 0 where
    pub inside_same : st.zlib.comp_stream.internal ≡ zl1.comp_stream.internal
    pub next_in_same : st.zlib.comp_stream.next_in ≡ zl1.comp_stream.next_in
    pub avail_in_same : st.zlib.comp_stream.avail_in ≡ zl1.comp_stream.avail_in
    pub fresh_crc : st.zlib.crc ≡ z.crc32 0 []
    pub no_size : st.zlib.uncompressed_size ≡ 0
    pub gzip_same : st.zlib.settings ≡ zl1.settings
    pub stored :
        st.writes ≡ record { at = zl1.comp_stream.next_out; bytes = gzip_header_bytes } ∷ []

  start_first_chunk-HeaderStored :
      (zl1 : ZLib z.Internal) (size : ℕ)
      → zl1.settings.dictionary ≡ 0
      → zl1.settings.gzip_header_mode ≡ true
      → is_ok (start_first_chunk z zl1 size).code ≡ true
      → HeaderStored zl1 (start_first_chunk z zl1 size)
  unfolding start_first_chunk start_header start_dictionary write_gzip_header
  start_first_chunk-HeaderStored zl1 size bare1 gzip1 ok = ground arith

  -- What `deflate` has done when the call succeeds.
  pub record Finished (st : Started z.Internal) (c : Call z.Internal) : Type 0 where
    pub ended : (z.deflate z_finish st.zlib.comp_stream).code ≡ z_stream_end
    pub all_read : (z.deflate z_finish st.zlib.comp_stream).stream.avail_in ≡ 0
    pub summed : c.zlib.crc ≡ z.crc32 st.zlib.crc (take (length source) source)
    pub counted : c.zlib.uncompressed_size ≡ add64 st.zlib.uncompressed_size (length source)
    pub settings_same : c.zlib.settings ≡ st.zlib.settings
    pub appended :
        c.writes
        ≡ st.writes
          ++ record {
            at = st.zlib.comp_stream.next_out;
            bytes = (z.deflate z_finish st.zlib.comp_stream).wrote;
          }
            ∷ []

  is_stream_end_lem : (c : Code) → is_stream_end c ≡ true → c ≡ z_stream_end
  is_stream_end_lem z_stream_end e = refl
  is_stream_end_lem _ e = cc

  compress_body-Finished :
      (st : Started z.Internal)
      → d.Live st.zlib.comp_stream.internal
      → st.zlib.settings.gzip_header_mode ≡ true
      → length source < 2 ^ 32
      → is_ok (compress_body z st room source (length source) z_finish).code ≡ true
      → Finished st (compress_body z st room source (length source) z_finish)
  unfolding compress_body judge_deflate
  compress_body-Finished st live gzip1 small ok =
      let s = st.zlib.comp_stream in
      let r = z.deflate z_finish s in
      let full = f.finish_full s live in
      let all_read : r.stream.avail_in ≡ 0 =
        ground (arith, full, ok, is_stream_end_lem r.code, is_ok_lem r.code) in
      let consumed : sub64 (length source) r.stream.avail_in ≡ length source =
        omega (arith, all_read) in
      record {
        ended = ground (arith, full, ok, is_stream_end_lem r.code, is_ok_lem r.code);
        all_read = all_read;
        summed =
            ground (arith, ok, gzip1, ap (λ (n : ℕ). z.crc32 st.zlib.crc (take n source)) consumed);
        counted = ground (arith, ok, consumed);
        settings_same = ground (arith, ok);
        appended = ground (arith, ok);
      }

  abbrev pub first_set : ZLib z.Internal × Code
  first_set = compress_init z zl room source (length source)

  -- A successful first call, step by step.
  pub record Made (c : Call z.Internal) : Type 0 where
    pub started : Started z.Internal
    pub new : IsNew first_set
    pub header : HeaderStored first_set.0 started
    pub finished : Finished started c

  abbrev pub Succeeds : Call z.Internal → Type 0
  Succeeds c = is_ok c.code ≡ true → Made c

  abbrev first_started : Started z.Internal
  first_started = start_first_chunk z first_set.0 (low32 first_set.0.comp_stream.total_out)

  started-Made :
      CompReady z d zl
      → (new : IsNew first_set) → is_ok first_set.1 ≡ true
      → Succeeds (
          if not (is_ok first_started.code)
          then record {
            zlib = first_started.zlib;
            code = first_started.code;
            dest_len = room;
            source_len = length source;
            writes = first_started.writes;
          }
          else compress_body z first_started room source (length source) z_finish)
  started-Made v new begun =
      let b = compress_init-Begun z d zl room source (length source) v in
      if_not_cases Succeeds (is_ok first_started.code) _ _
        (λ bad ok. absurd (ground (arith, bad, ok)))
        (λ good ok.
          let h =
            start_first_chunk-HeaderStored first_set.0 _ (ground (arith, new.settings_same, o.bare))
              (ground (arith, new.settings_same, o.gzip)) good in
          record {
            started = first_started;
            new = new;
            header = h;
            finished =
                compress_body-Finished first_started
                  (subst d.Live (sym h.inside_same) (b.is_live (is_ok_lem _ begun)))
                  (ground (arith, h.gzip_same, new.settings_same, o.gzip))
                  (omega (arith, new.source_fits)) ok;
          })

  pub at_most-Made :
      CompReady z d zl
      → Succeeds (compress_at_most_or_all z zl room source (length source) z_finish)
  unfolding compress_at_most_or_all
  at_most-Made v =
      let size = low32 first_set.0.comp_stream.total_out in
      let b = compress_init-Begun z d zl room source (length source) v in
      if_not_cases Succeeds (is_ok first_set.1) _ _ (λ bad ok. absurd (ground (arith, bad, ok)))
        (λ begun.
          let new = compress_init-IsNew begun in
          let go : Started z.Internal → Call z.Internal = λ st.
            if not (is_ok st.code)
            then record {
              zlib = st.zlib;
              code = st.code;
              dest_len = room;
              source_len = length source;
              writes = st.writes;
            }
            else compress_body z st room source (length source) z_finish in
          if_cases (λ st. Succeeds (go st)) first_set.0.first_chunk _ _
            (λ _. started-Made v new begun)
            (λ later. absurd (ground (arith, later, new.first_same))))
