-- ===== src/Zlib/Footer/Image.antt =====
-- zlibwrapper.cc: what `Uncompress` accepts in gzip mode is a whole image, and what it writes is the
-- image's data.
use fleetbench.Prelude.{
  ℕ, ◌+◌, ◌-◌, ◌^◌, ◌<◌, ◌≡◌, inl, inr, refl, Bool, true, false, not, ◌&&◌, ◌||◌, [], ◌∷◌, ◌++◌,
  none, if_cases, if_not_cases, Bytes, length, take, drop, get_or, length-append, length-drop,
  length-take, take_all, take-append-drop, drop-append, get_or-append_front, ap, subst, low32,
  sub64, arith, ◌∙◌, sym, done, Returns, Returns-bind, Returns-mono, Returns-and, ◌==◌,
  if◌then◌else◌,
}
use fleetbench.Gzip.{Status, incomplete_header, invalid_header, complete_header, read_more, initial}
use fleetbench.Gzip.Scan.{read_more-scan}
use fleetbench.Gzip.Layout.{IsHeader}
use fleetbench.Gzip.Layout.Sound.{read_more-IsHeader}
use fleetbench.Zlib.Library.{
  Zlib, Stream, z_finish, Code, z_ok, z_stream_end, z_data_error, is_ok, is_buf_error,
}
use fleetbench.Zlib.State.{ZLib, reset}
use fleetbench.Zlib.Call.{Call}
use fleetbench.Zlib.Inflates.{Inflates}
use fleetbench.Zlib.CompressInit.Ready.{is_ok_lem}
use fleetbench.Zlib.UncompressInit.{uncompress_init}
use fleetbench.Zlib.UncompressInit.Opened.{UncompReady, uncompress_init-Opened}
use fleetbench.Zlib.UncompressHeader.{
  Phase, returns, goes_on, answer, store, after_header, parse_header, header_phase,
}
use fleetbench.Zlib.Inflate.{set_inflate_dictionary}
use fleetbench.Zlib.Inflate.Settled.{given_up-UncompReady}
use fleetbench.Zlib.Inflate.Ended.{Ended, Outcome, uncompress_body-Outcome}
use fleetbench.Zlib.Uncompress.{
  first_phase, after_first, with_stream, uncompress_at_most_or_all, uncompress_chunk_or_all,
}
use fleetbench.Zlib.Footer.{from_little_endian, finish_uncompress, uncompress}
use fleetbench.Zlib.Footer.Restarts.{Restarted, uncompress_chunk_or_all-Restarted}
use fleetbench.Zlib.Footer.Confirmed.{Confirmed, uncompress_chunk_done-Confirmed}

pub store_front : (bytes old : Bytes) → store 0 bytes old ≡ bytes ++ drop (length bytes) old
unfolding store
store_front bytes old = ap (λ (n : ℕ). bytes ++ drop n old) (omega arith)

module _ (z : Zlib) where
  -- `source` is a header of the layout, a body, and a footer of eight bytes. `inflate` took the body
  -- as a whole stream, and what it gave has the checksum and the length that the footer states; the
  -- call has stored it at the start of the buffer and reports its length.
  pub record IsImage (source : Bytes) (c : Call z.Internal) : Type 0 where
    pub header : Bytes
    pub body : Bytes
    pub footer : Bytes
    pub stream : Stream z.Internal
    pub header_ok : IsHeader header
    pub whole : source ≡ header ++ (body ++ footer)
    pub eight : length footer ≡ 8
    pub input : stream.next_in ≡ body ++ footer
    pub input_len : stream.avail_in ≡ length body + 8
    pub ended : (z.inflate z_finish stream).code ≡ z_stream_end
    pub left : (z.inflate z_finish stream).stream.avail_in ≡ 8
    pub checksum :
        from_little_endian
          (get_or footer 0 0)
          (get_or footer 1 0)
          (get_or footer 2 0)
          (get_or footer 3 0)
        ≡ z.crc32 (z.crc32 0 []) (z.inflate z_finish stream).wrote
    pub size :
        from_little_endian
          (get_or footer 4 0)
          (get_or footer 5 0)
          (get_or footer 6 0)
          (get_or footer 7 0)
        ≡ length (z.inflate z_finish stream).wrote
    pub written : c.writes ≡ record { at = 0; bytes = (z.inflate z_finish stream).wrote } ∷ []
    pub reported : c.dest_len ≡ length (z.inflate z_finish stream).wrote

  relabelled-IsImage :
      (source : Bytes) (c : Call z.Internal) (zl : ZLib z.Internal) (code : Code)
      → IsImage source c
      → IsImage source (record c { zlib = zl; code = code })
  relabelled-IsImage source c zl code i = record {
    header = i.header;
    body = i.body;
    footer = i.footer;
    stream = i.stream;
    header_ok = i.header_ok;
    whole = i.whole;
    eight = i.eight;
    input = i.input;
    input_len = i.input_len;
    ended = i.ended;
    left = i.left;
    checksum = i.checksum;
    size = i.size;
    written = i.written;
    reported = i.reported;
  }

module _ (z : Zlib) (d : Inflates z) (source : Bytes) (small : length source < 2 ^ 31) where
  -- The header is read, and the rest of the source is `rest`.
  record HeaderFound (zl : ZLib z.Internal) (rest : Bytes) (rest_len : ℕ) : Type 0 where
    header : Bytes
    header_ok : IsHeader header
    whole : source ≡ header ++ rest
    sized : rest_len ≡ length rest
    fresh_crc : zl.crc ≡ z.crc32 0 []
    no_footer : zl.gzip_footer_bytes ≡ none
    first : zl.first_chunk ≡ true
    bare : zl.settings.dictionary ≡ 0
    gzip : zl.settings.gzip_header_mode ≡ true
    ready : UncompReady z d zl

  abbrev HeaderPhase : Phase z.Internal → Type 0
  HeaderPhase (returns c) =
      (c.zlib.gzip_footer_bytes ≡ none)
      × (c.zlib.settings.dictionary ≡ 0)
      × (c.zlib.settings.gzip_header_mode ≡ true)
  HeaderPhase (goes_on zl rest rest_len) = HeaderFound zl rest rest_len

  module _ (zl : ZLib z.Internal) (v : UncompReady z d zl) (first : zl.first_chunk ≡ true)
      (bare : zl.settings.dictionary ≡ 0) (gzip : zl.settings.gzip_header_mode ≡ true)
      (begins : zl.gzip_header ≡ initial) where
    after_header-HeaderPhase :
        (dest_len : ℕ) (s : Status)
        → read_more initial source (length source) ≡ done s
        → HeaderPhase (
            after_header z
              (record zl { gzip_footer_bytes = none })
              dest_len
              source
              (length source)
              s)
    unfolding after_header reset
    after_header-HeaderPhase dest_len (incomplete_header h) e = (refl, bare, gzip)
    after_header-HeaderPhase dest_len (invalid_header h) e = (refl, bare, gzip)
    after_header-HeaderPhase dest_len (complete_header h n) e =
        let (bytes, rest, ok, whole, at) = read_more-IsHeader source h n small e in
        let cut : drop n source ≡ rest =
          ap (λ (k : ℕ). drop k source) at
          ∙ ap (drop (length bytes)) whole
          ∙ drop-append bytes rest in
        record {
          header = bytes;
          header_ok = ok;
          whole = rw cut whole;
          sized = omega (arith, at, ap length whole, length-append bytes rest, ap length cut);
          fresh_crc = refl;
          no_footer = refl;
          first = first;
          bare = bare;
          gzip = gzip;
          ready = record { live = v.live; begun = v.begun };
        }

    header_phase-HeaderPhase :
        (dest_len : ℕ)
        → Returns HeaderPhase (header_phase z false zl dest_len source (length source))
    unfolding header_phase parse_header
    header_phase-HeaderPhase dest_len =
        let P = Returns HeaderPhase in
        let low : low32 (length source) ≡ length source = omega arith in
        if_cases P zl.first_chunk _ _
          (λ _.
            if_cases P zl.settings.gzip_header_mode _ _
              (λ _.
                rw (begins, low, read_more-scan initial source small)
                  (after_header-HeaderPhase dest_len _ (read_more-scan initial source small)))
              (λ no. cc))
          (λ no. cc)

  -- A call that keeps the settings, and whose success with a confirmed footer means an image.
  record Accepts (c : Call z.Internal) : Type 0 where
    bare : c.zlib.settings.dictionary ≡ 0
    gzip : c.zlib.settings.gzip_header_mode ≡ true
    image : is_ok c.code ≡ true → Confirmed c.zlib → IsImage z source c

  no_footer-Accepts :
      (c : Call z.Internal)
      → c.zlib.gzip_footer_bytes ≡ none
      → c.zlib.settings.dictionary ≡ 0
      → c.zlib.settings.gzip_header_mode ≡ true
      → Accepts c
  no_footer-Accepts c e bare gzip = record {
    bare = bare;
    gzip = gzip;
    image = λ _ f. absurd (ground (arith, e, f.eight));
  }

  -- The eight bytes behind what was read are the footer.
  ended-IsImage :
      (zl : ZLib z.Internal) (rest : Bytes) (rest_len : ℕ) (c : Call z.Internal)
      → HeaderFound zl rest rest_len
      → (zl' : ZLib z.Internal) → d.Live zl'.uncomp_stream.internal
      → zl'.uncomp_stream.next_in ≡ rest
      → zl'.uncomp_stream.avail_in ≡ rest_len
      → zl'.uncomp_stream.avail_out < 2 ^ 32
      → zl'.uncomp_stream.total_in ≡ 0
      → zl'.uncomp_stream.total_out ≡ 0
      → zl'.crc ≡ z.crc32 0 []
      → zl'.settings.gzip_header_mode ≡ true
      → Ended z d zl' rest (z.inflate z_finish zl'.uncomp_stream) c
      → Confirmed c.zlib
      → IsImage z source c
  ended-IsImage zl rest rest_len c h zl' live at all room no_in no_out crc gzip f k =
      let s = zl'.uncomp_stream in
      let r = z.inflate z_finish s in
      let m = d.inflate_moves z_finish s live in
      let left : r.stream.avail_in ≡ 8 = ground (arith, f.kept, k.eight) in
      let cut = length rest - 8 in
      let old = zl'.gzip_footer in
      let fits : rest_len < 2 ^ 31 =
        omega (arith, ap length h.whole, length-append h.header rest, h.sized) in
      let read : sub64 r.stream.total_in s.total_in ≡ cut =
        omega (arith, m.read_within, m.counts_in, h.sized) in
      let made : sub64 r.stream.total_out s.total_out ≡ length r.wrote =
        omega (arith, m.wrote_within, m.counts_out) in
      let size : r.stream.total_out ≡ length r.wrote =
        omega (arith, m.wrote_within, m.counts_out) in
      let footer = drop cut rest in
      let eight : length footer ≡ 8 = omega (arith, length-drop cut rest, m.read_within, h.sized) in
      let kept : c.zlib.gzip_footer ≡ footer ++ drop (length footer) old =
        f.footer
        ∙ ap (λ (n : ℕ). store 0 (take n (drop (sub64 r.stream.total_in s.total_in) rest)) old) left
        ∙ ap (λ (n : ℕ). store 0 (take 8 (drop n rest)) old) read
        ∙ ap (λ (x : Bytes). store 0 x old) (take_all 8 footer (omega (arith, eight)))
        ∙ store_front footer old in
      let summed : c.zlib.crc ≡ z.crc32 (z.crc32 0 []) r.wrote =
        f.checksum gzip
        ∙ ap (λ (n : ℕ). z.crc32 zl'.crc (take n r.wrote)) made
        ∙ ap (z.crc32 zl'.crc) (take_all (length r.wrote) r.wrote (omega arith))
        ∙ ap (λ (q : ℕ). z.crc32 q r.wrote) crc in
      let byte : (i : ℕ) → i < 8 → get_or c.zlib.gzip_footer i 0 ≡ get_or footer i 0 =
        λ i lt. rw kept (get_or-append_front footer _ i 0 (omega arith)) in
      record {
        header = h.header;
        body = take cut rest;
        footer = footer;
        stream = s;
        header_ok = h.header_ok;
        whole = rw (take-append-drop cut rest) h.whole;
        eight = eight;
        input = at ∙ sym (take-append-drop cut rest);
        input_len = omega (arith, length-take cut rest, all, h.sized, m.read_within);
        ended = f.ended;
        left = left;
        checksum = omega (
          arith,
          byte 0 (omega arith),
          byte 1 (omega arith),
          byte 2 (omega arith),
          byte 3 (omega arith),
          k.checksum,
          summed,
        );
        size = omega (
          arith,
          byte 4 (omega arith),
          byte 5 (omega arith),
          byte 6 (omega arith),
          byte 7 (omega arith),
          k.size,
          f.size,
          size,
          m.wrote_within,
        );
        written = f.written;
        reported = f.reported ∙ made;
      }

  module _ (zl : ZLib z.Internal) (rest : Bytes) (rest_len dest_len : ℕ)
      (h : HeaderFound zl rest rest_len) where
    abbrev opened : ZLib z.Internal × Code
    opened = uncompress_init z zl dest_len rest rest_len

    -- The object with which `inflate` is called.
    abbrev begun : ZLib z.Internal
    begun = record opened.0 { first_chunk = false }

    body-Accepts :
        opened.1 ≡ z_ok
        → Returns Accepts (after_first z false dest_len z_finish (goes_on begun rest rest_len))
    unfolding after_first
    body-Accepts ok =
        let o = uncompress_init-Opened z d zl dest_len rest rest_len h.ready in
        let r = z.inflate z_finish opened.0.uncomp_stream in
        let fits : rest_len < 2 ^ 31 =
          omega (arith, ap length h.whole, length-append h.header rest, h.sized) in
        let bare : opened.0.settings.dictionary ≡ 0 = ground (arith, o.settings_same, h.bare) in
        let gzip : opened.0.settings.gzip_header_mode ≡ true =
          ground (arith, o.settings_same, h.gzip) in
        Returns-mono (Outcome z d begun rest r) Accepts _
          (λ c p. record {
            bare = ground (arith, p.settings_same, bare);
            gzip = ground (arith, p.settings_same, gzip);
            image = λ good f. elim (p.either good) [
              | inl e ↦
                  ended-IsImage zl rest rest_len c h begun (o.is_live ok) (o.in_at ok) (o.in_all ok)
                    (omega (arith, o.out_all ok, o.small_out ok)) (o.no_input ok h.first)
                    (o.no_output ok h.first) (o.crc_same ∙ h.fresh_crc) gzip e f
              | inr same ↦ absurd (ground (arith, same, o.footer_bytes_same, h.no_footer, f.eight))
            ];
          })
          (uncompress_body-Outcome z d begun dest_len rest rest_len z_finish bare (o.is_live ok)
            (o.in_all ok) (omega arith))

    abbrev After : Phase z.Internal → Type 0
    After p = Returns Accepts (after_first z false dest_len z_finish p)

    -- The rest of the first phase, from the answer on the dictionary on.
    abbrev from_dictionary : ZLib z.Internal × Code → Phase z.Internal
    from_dictionary r =
        let zl2 = record r.0 { first_chunk = false } in
        if not opened.0.first_chunk
        then goes_on opened.0 rest rest_len
        else if not (is_ok r.1)
        then returns (answer r.0 r.1 dest_len rest_len)
        else if rest_len == 0
        then returns (answer zl2 z_ok 0 rest_len)
        else goes_on zl2 rest rest_len

    first_phase-Accepts : opened.1 ≡ z_ok → After (first_phase z opened.0 dest_len rest rest_len)
    unfolding first_phase after_first
    first_phase-Accepts ok =
        let o = uncompress_init-Opened z d zl dest_len rest rest_len h.ready in
        let s = opened.0.settings in
        let bare : s.dictionary ≡ 0 = ground (arith, o.settings_same, h.bare) in
        let gzip : s.gzip_header_mode ≡ true = ground (arith, o.settings_same, h.gzip) in
        let none_set : (if (s.gzip_header_mode || s.no_header_mode) && not (s.dictionary == 0)
              then set_inflate_dictionary z opened.0
              else (opened.0, z_ok))
            ≡ (opened.0, z_ok) =
          if_cases (λ r. r ≡ (opened.0, z_ok))
            ((s.gzip_header_mode || s.no_header_mode) && not (s.dictionary == 0)) _ _
            (λ yes_. absurd (ground arith)) (λ _. refl) in
        subst (λ r. After (from_dictionary r)) (sym none_set)
          (if_not_cases After opened.0.first_chunk _ _
            (λ later. absurd (ground (arith, later, o.first_same, h.first)))
            (λ _.
              if_cases After (rest_len == 0) _ _
                (λ _. no_footer-Accepts _ (o.footer_bytes_same ∙ h.no_footer) bare gzip)
                (λ _. body-Accepts ok)))

    with_stream-Accepts :
        Returns Accepts (with_stream z false dest_len z_finish (goes_on zl rest rest_len))
    unfolding with_stream
    with_stream-Accepts =
        let o = uncompress_init-Opened z d zl dest_len rest rest_len h.ready in
        if_not_cases (Returns Accepts) (is_ok opened.1) _ _
          (λ bad.
            no_footer-Accepts _ (o.footer_bytes_same ∙ h.no_footer)
              (ground (arith, o.settings_same, h.bare)) (ground (arith, o.settings_same, h.gzip)))
          (λ ok. first_phase-Accepts (is_ok_lem _ ok))

  onwards-Accepts :
      (dest_len : ℕ) (p : Phase z.Internal)
      → HeaderPhase p
      → Returns Accepts (with_stream z false dest_len z_finish p)
  unfolding with_stream
  onwards-Accepts dest_len (returns c) (e, bare, gzip) = no_footer-Accepts c e bare gzip
  onwards-Accepts dest_len (goes_on zl rest rest_len) h =
      with_stream-Accepts zl rest rest_len dest_len h

  module _ (zl : ZLib z.Internal) (dest_len : ℕ) (v : UncompReady z d zl)
      (first : zl.first_chunk ≡ true) (bare : zl.settings.dictionary ≡ 0)
      (gzip : zl.settings.gzip_header_mode ≡ true) (begins : zl.gzip_header ≡ initial) where
    chunk_or_all-Accepts :
        Returns Accepts
          (uncompress_chunk_or_all z false zl dest_len source (length source) z_finish)
    unfolding uncompress_chunk_or_all uncompress_at_most_or_all
    chunk_or_all-Accepts =
        Returns-bind Accepts Accepts _ _
          (Returns-bind HeaderPhase Accepts _ _
            (header_phase-HeaderPhase zl v first bare gzip begins dest_len)
            (onwards-Accepts dest_len))
          (λ c a.
            let (ready, again, same) = given_up-UncompReady z d c.zlib in
            if_cases Accepts (is_buf_error c.code) _ _
              (λ full. record {
                bare = ground (arith, same, a.bare);
                gzip = ground (arith, same, a.gzip);
                image = λ ok. absurd (ground arith);
              })
              (λ _. a))

    -- In gzip mode `Uncompress` returns on any buffer below 2^31 bytes, and only on an image with
    -- Z_OK: a header of the layout, a body that is a whole stream for `inflate`, and eight bytes of
    -- footer with the checksum and the length of what `inflate` gave. It has then stored just that at
    -- the start of the caller's buffer, and `*destLen` is its length. (The object is valid, at the
    -- start of an image, has no dictionary and does not show Z_STREAM_END; the flag for a loose footer
    -- is off. zlib is assumed to behave as documented.)
    pub uncompress-IsImage :
        zl.settings.dont_hide_zstream_end ≡ false
        → Returns
            (λ c. c.code ≡ z_ok → IsImage z source c)
            (uncompress z false zl dest_len source (length source))
    unfolding uncompress finish_uncompress
    uncompress-IsImage hides =
        let P : Call z.Internal → Type 0 = λ c. c.code ≡ z_ok → IsImage z source c in
        Returns-bind (λ c. Accepts c × Restarted z d dest_len c) P _ _
          (Returns-and Accepts (Restarted z d dest_len) _ chunk_or_all-Accepts (
            uncompress_chunk_or_all-Restarted z d false zl dest_len source (length source) z_finish
              v hides (λ _. (refl, small))))
          (λ c (a, (ready, inside, hides', again)).
            if_not_cases (Returns P) (is_ok c.code) _ _ (λ bad e. absurd (ground (arith, bad, e)))
              (λ ok.
                Returns-bind (λ (r : ZLib z.Internal × Bool). r.1 ≡ true → Confirmed c.zlib) P _ _
                  (uncompress_chunk_done-Confirmed z d c.zlib ready a.bare a.gzip)
                  (λ r confirmed e.
                    let sure : r.1 ≡ true = ground arith in
                    relabelled-IsImage z source c r.0 (if not r.1 then z_data_error else z_ok)
                      (a.image ok (confirmed sure)))))
