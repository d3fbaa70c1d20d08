-- ===== src/Zlib/Compress/NewImage.antt =====
-- zlibwrapper.cc: the image that the first `Compress` of an object makes, byte for byte.
use fleetbench.Prelude.{
  ℕ, ◌≡◌, refl, true, List, [], ◌∷◌, ◌++◌, append-nil, append_assoc, ltb, if◌then◌else◌, if_cases,
  if_not_cases, Bytes, length, take_all, negsuc, add64, sub64, arith, ◌∙◌, ap,
}
use fleetbench.Zlib.Library.{
  Zlib, Stream, z_finish, Code, z_ok, z_stream_end, is_ok, is_buf_error, Deflates,
}
use fleetbench.Zlib.State.{ZLib, reset}
use fleetbench.Zlib.Call.{Write, Call, gzip_header_bytes, footer_bytes, write_gzip_footer}
use fleetbench.Zlib.CompressInit.Ready.{CompReady}
use fleetbench.Zlib.Compress.{compress_at_most_or_all, compress_chunk_or_all, add_footer, compress}
use fleetbench.Zlib.Compress.New.{Finishes, IsUnused, placed, initialised, Made, at_most-Made}

-- What a call has stored, in order. Where the writes are packed, this is what the buffer begins with.
abbrev pub contents : List Write → Bytes
contents [] = []
contents (w ∷ ws) = w.bytes ++ contents ws

contents-append : (ws vs : List Write) → contents (ws ++ vs) ≡ contents ws ++ contents vs
contents-append [] vs = refl
contents-append (w ∷ ws) vs = simp (contents-append ws vs, append_assoc)

not_both : (c : Code) → is_buf_error c ≡ true → is_ok c ≡ true → ⊥
not_both c full ok = ground arith

module _ (z : Zlib) (d : Deflates z) (f : Finishes z d) (zl : ZLib z.Internal) (w room : ℕ)
    (source : Bytes) (o : IsUnused zl w) where
  -- The image of `source`: the header, what `deflate` made of it in one call on the new stream, and the
  -- footer with its checksum and length.
  pub record IsNewImage (c : Call z.Internal) : Type 0 where
    pub stream : Stream z.Internal
    pub from : ZLib z.Internal
    pub ok : (initialised z d f zl w room source o).code ≡ z_ok
    pub inside : stream.internal ≡ (initialised z d f zl w room source o).stream.internal
    pub input : stream.next_in ≡ source
    pub input_len : stream.avail_in ≡ length source
    pub ended : (z.deflate z_finish stream).code ≡ z_stream_end
    pub all_read : (z.deflate z_finish stream).stream.avail_in ≡ 0
    pub summed : from.crc ≡ z.crc32 (z.crc32 0 []) source
    pub counted : from.uncompressed_size ≡ length source
    pub laid_out :
        contents c.writes
        ≡ gzip_header_bytes ++ ((z.deflate z_finish stream).wrote ++ footer_bytes from)

  abbrev Makes : Call z.Internal → Type 0
  Makes c = is_ok c.code ≡ true → Made z d f zl w room source o c

  chunk_or_all-Made :
      CompReady z d zl → Makes (compress_chunk_or_all z zl room source (length source) z_finish)
  unfolding compress_chunk_or_all
  chunk_or_all-Made v =
      let c = compress_at_most_or_all z zl room source (length source) z_finish in
      if_cases Makes (is_buf_error c.code) _ _ (λ full ok. absurd (not_both c.code full ok))
        (λ _. at_most-Made z d f zl w room source o v)

  footer-laid_out :
      (c : Call z.Internal) (wrote : Bytes)
      → c.zlib.settings.gzip_header_mode ≡ true
      → contents c.writes ≡ gzip_header_bytes ++ wrote
      → is_ok (add_footer z room (record c { zlib = reset c.zlib })).code ≡ true
      → contents (add_footer z room (record c { zlib = reset c.zlib })).writes
        ≡ gzip_header_bytes ++ (wrote ++ footer_bytes (reset c.zlib))
  unfolding add_footer write_gzip_footer reset
  footer-laid_out c wrote gzip before =
      let footer = footer_bytes (reset c.zlib) in
      let Q : Call z.Internal → Type 0 =
        λ c'. is_ok c'.code ≡ true → contents c'.writes ≡ gzip_header_bytes ++ (wrote ++ footer) in
      if_not_cases Q c.zlib.settings.gzip_header_mode _ _ (λ no. absurd (ground (arith, no, gzip)))
        (λ _.
          if_cases
            (λ (p : Code × List Write). Q (
              if is_ok p.0
              then record c {
                zlib = reset c.zlib;
                code = z_ok;
                dest_len = add64 c.dest_len 8;
                writes = c.writes ++ p.1;
              }
              else record c { zlib = reset c.zlib; code = p.0 }))
            (ltb (sub64 room c.dest_len) 8) _ _ (λ _ ok. cc)
            (λ _ _.
              contents-append c.writes _
              ∙ ap (λ (bs : Bytes). bs ++ (footer ++ [])) before
              ∙ append_assoc gzip_header_bytes wrote (footer ++ [])
              ∙ ap (λ (bs : Bytes). gzip_header_bytes ++ (wrote ++ bs)) (append-nil footer)))

  footed-IsNewImage :
      (c : Call z.Internal)
      → Made z d f zl w room source o c
      → is_ok (add_footer z room (record c { zlib = reset c.zlib })).code ≡ true
      → IsNewImage (add_footer z room (record c { zlib = reset c.zlib }))
  unfolding reset
  footed-IsNewImage c m ok =
      let st = m.started in
      let s = st.zlib.comp_stream in
      let r = z.deflate z_finish s in
      let n = m.new in
      let gzip : c.zlib.settings.gzip_header_mode ≡ true =
        ground (arith, m.finished.settings_same, m.header.gzip_same, n.settings_same, o.gzip) in
      let before : contents c.writes ≡ gzip_header_bytes ++ r.wrote =
        ap contents m.finished.appended
        ∙ contents-append st.writes _
        ∙ ap (λ (ws : List Write). contents ws ++ (r.wrote ++ [])) m.header.stored
        ∙ ap (λ (bs : Bytes). gzip_header_bytes ++ bs) (append-nil r.wrote) in
      let level = zl.settings.compression_level in
      let memory = zl.settings.mem_level in
      let set = placed z d f zl w room source o in
      record {
        stream = s;
        from = reset c.zlib;
        ok = n.ok;
        inside = m.header.inside_same ∙ ap (λ (t : Stream z.Internal). t.internal) n.stream_new;
        input =
            m.header.next_in_same
            ∙ ap (λ (t : Stream z.Internal). t.next_in) n.stream_new
            ∙ f.init2_next_in level (negsuc w) memory set.comp_stream;
        input_len =
            m.header.avail_in_same
            ∙ ap (λ (t : Stream z.Internal). t.avail_in) n.stream_new
            ∙ (d.init2_same level (negsuc w) memory set.comp_stream).same_avail_in
            ∙ n.source_fits;
        ended = m.finished.ended;
        all_read = m.finished.all_read;
        summed =
            m.finished.summed
            ∙ ap (z.crc32 st.zlib.crc) (take_all (length source) source (omega arith))
            ∙ ap (λ (q : ℕ). z.crc32 q source) m.header.fresh_crc;
        counted = omega (arith, m.finished.counted, m.header.no_size, n.source_fits);
        laid_out = footer-laid_out c r.wrote gzip before ok;
      }

  -- A first `Compress` that succeeds has made the image of the source.
  pub compress-IsNewImage :
      CompReady z d zl
      → is_ok (compress z zl room source (length source)).code ≡ true
      → IsNewImage (compress z zl room source (length source))
  unfolding compress
  compress-IsNewImage v =
      let c = compress_chunk_or_all z zl room source (length source) z_finish in
      let P : Call z.Internal → Type 0 = λ c. is_ok c.code ≡ true → IsNewImage c in
      if_not_cases P (is_ok c.code) _ _ (λ bad ok. absurd (ground (arith, bad, ok)))
        (λ good. footed-IsNewImage c (chunk_or_all-Made v good))
