-- ===== src/Zlib/Footer/Accepted.antt =====
-- zlibwrapper.cc: the first `Uncompress` of an object accepts an image whose body `inflate` takes.
use fleetbench.Prelude.{
  ℕ, ◌+◌, ◌^◌, ◌<◌, ◌≡◌, refl, Bool, true, false, not, ◌&&◌, ◌||◌, [], ◌∷◌, ◌++◌, none, some,
  append-nil, if_cases, if_not_cases, Bytes, length, take, drop, length-append, take_all, drop_all,
  drop-append, ap, subst, low32, sub64, arith, ◌∙◌, sym, Returns, Returns-bind, Returns-mono, ◌==◌,
  if◌then◌else◌, negsuc,
}
use fleetbench.Gzip.{initial}
use fleetbench.Gzip.Layout.Accepts.{IsHeader-accepted}
use fleetbench.Zlib.Library.{
  Zlib, Stream, Moved, z_finish, Code, z_ok, z_stream_end, z_data_error, is_ok, is_buf_error,
}
use fleetbench.Zlib.State.{ZLib}
use fleetbench.Zlib.Call.{Call, gzip_header_bytes, footer_bytes}
use fleetbench.Zlib.Inflates.{Inflates}
use fleetbench.Zlib.UncompressInit.{uncompress_init}
use fleetbench.Zlib.UncompressInit.Opened.{UncompReady, Opened, uncompress_init-Opened}
use fleetbench.Zlib.UncompressInit.New.{IsUnread, NewStream, uncompress_init-NewStream}
use fleetbench.Zlib.UncompressHeader.{
  Phase, returns, goes_on, answer, store, after_header, parse_header, header_phase,
}
use fleetbench.Zlib.Inflate.{set_inflate_dictionary}
use fleetbench.Zlib.Inflate.Ended.{Delivered, uncompress_body-Delivered}
use fleetbench.Zlib.Uncompress.{
  first_phase, after_first, with_stream, uncompress_at_most_or_all, uncompress_chunk_or_all,
}
use fleetbench.Zlib.Footer.{finish_uncompress, uncompress}
use fleetbench.Zlib.Footer.Written.{gzip_header_bytes-IsHeader, little_endian_value}
use fleetbench.Zlib.Footer.Confirmed.{Confirmed, uncompress_chunk_done-accepts}
use fleetbench.Zlib.Footer.Image.{store_front}

-- `plain` is stored at the start of the caller's buffer, with Z_OK and its length.
abbrev pub Restores : {I : Type 0} → Bytes → Call I → Type 0
Restores plain c =
    (c.code ≡ z_ok)
    × (c.writes ≡ record { at = 0; bytes = plain } ∷ [])
    × (c.dest_len ≡ length plain)

pub length-footer_bytes : {I : Type 0} (zl : ZLib I) → length (footer_bytes zl) ≡ 8
unfolding footer_bytes
length-footer_bytes zl = refl

-- What follows a part of a buffer, stored over as many bytes.
store_tail :
    (part buffer tail old : Bytes) (n k : ℕ)
    → buffer ≡ part ++ tail
    → k ≡ length part
    → n ≡ length tail
    → length old ≡ length tail
    → store 0 (take n (drop k buffer)) old ≡ tail
store_tail part buffer tail old n k h read all array =
    ap (λ (k : ℕ). store 0 (take n (drop k buffer)) old) read
    ∙ ap (λ (x : Bytes). store 0 (take n (drop (length part) x)) old) h
    ∙ ap (λ (x : Bytes). store 0 (take n x) old) (drop-append part tail)
    ∙ ap (λ (x : Bytes). store 0 x old) (take_all n tail (omega (arith, all)))
    ∙ store_front tail old
    ∙ ap (λ (x : Bytes). tail ++ x) (drop_all (length tail) old (omega (arith, array)))
    ∙ append-nil tail

-- The checksum of all that was written.
sum_of_all :
    (z : Zlib) {crc fresh k : ℕ} (wrote plain : Bytes)
    → k ≡ length wrote
    → wrote ≡ plain
    → crc ≡ fresh
    → z.crc32 crc (take k wrote) ≡ z.crc32 fresh plain
sum_of_all z {crc} {fresh} {k} wrote plain made same start =
    ap (z.crc32 crc) (take_all k wrote (omega (arith, made)) ∙ same)
    ∙ ap (λ (c : ℕ). z.crc32 c plain) start

module _ (z : Zlib) (e : Inflates z) (zl : ZLib z.Internal) (o : IsUnread zl)
    (v : UncompReady z e zl) (begins : zl.gzip_header ≡ initial) (array : length zl.gzip_footer ≡ 8)
    (from : ZLib z.Internal) (packed plain : Bytes) (dest_len : ℕ) where
  abbrev pub rest : Bytes
  rest = packed ++ footer_bytes from

  abbrev pub image : Bytes
  image = gzip_header_bytes ++ rest

  rest_len : length rest ≡ length packed + 8
  rest_len =
      length-append packed (footer_bytes from)
      ∙ ap (λ (n : ℕ). length packed + n) (length-footer_bytes from)

  -- The header is read.
  record HeaderDone (zl1 : ZLib z.Internal) (source : Bytes) (source_len : ℕ) : Type 0 where
    left : source ≡ rest
    left_len : source_len ≡ length rest
    fresh_crc : zl1.crc ≡ z.crc32 0 []
    no_footer : zl1.gzip_footer_bytes ≡ none
    footer_same : zl1.gzip_footer ≡ zl.gzip_footer
    unread : IsUnread zl1
    ready : UncompReady z e zl1

  abbrev HeaderPhase : Phase z.Internal → Type 0
  HeaderPhase (returns c) = ⊥
  HeaderPhase (goes_on zl1 source source_len) = HeaderDone zl1 source source_len

  module _ (short : length image < 2 ^ 31) where
    header_phase-HeaderPhase :
        Returns HeaderPhase (header_phase z false zl dest_len image (length image))
    unfolding header_phase parse_header after_header
    header_phase-HeaderPhase =
        let P = Returns HeaderPhase in
        let (k, accepted) =
          IsHeader-accepted gzip_header_bytes rest gzip_header_bytes-IsHeader short in
        let low : low32 (length image) ≡ length image = omega arith in
        if_cases P zl.first_chunk _ _
          (λ _.
            if_cases P zl.settings.gzip_header_mode _ _
              (λ _.
                rw (begins, low, accepted)
                  (record {
                    left = refl;
                    left_len = omega arith;
                    fresh_crc = refl;
                    no_footer = refl;
                    footer_same = refl;
                    unread = record {
                      unread = o.unread;
                      first = o.first;
                      bare = o.bare;
                      gzip = o.gzip;
                      raw = o.raw;
                      hides = o.hides;
                    };
                    ready = record { live = v.live; begun = v.begun };
                  }))
              (λ no. absurd (ground (arith, no, o.gzip))))
          (λ no. absurd (ground (arith, no, o.first)))

  -- What `inflate` does with the rest of the image, on a stream that was just initialised.
  pub record Inflatable : Type 1 where
    pub opens : (s : Stream z.Internal) → (z.inflate_init2 (negsuc 14) s).code ≡ z_ok
    pub inflates :
        (b t : Stream z.Internal)
        → t.internal ≡ (z.inflate_init2 (negsuc 14) b).stream.internal
        → t.next_in ≡ rest
        → t.avail_in ≡ length rest
        → t.avail_out ≡ dest_len
        → ((z.inflate z_finish t).code ≡ z_stream_end)
          × ((z.inflate z_finish t).wrote ≡ plain)
          × ((z.inflate z_finish t).stream.avail_in ≡ 8)
    pub crc_small : from.crc < 2 ^ 32
    pub summed : from.crc ≡ z.crc32 (z.crc32 0 []) plain
    pub counted : from.uncompressed_size ≡ length plain
    pub dest_fits : dest_len < 2 ^ 32
    pub short : length image < 2 ^ 31

  -- The call has written the data and kept a footer that agrees with it.
  record Unpacked (c : Call z.Internal) : Type 0 where
    ok : c.code ≡ z_ok
    written : c.writes ≡ record { at = 0; bytes = plain } ∷ []
    reported : c.dest_len ≡ length plain
    confirmed : Confirmed c.zlib
    later : c.zlib.first_chunk ≡ false
    on : c.zlib.uncomp_init ≡ true
    gzip : c.zlib.settings.gzip_header_mode ≡ true

  footer-Confirmed :
      (zl' : ZLib z.Internal)
      → zl'.gzip_footer ≡ footer_bytes from
      → zl'.gzip_footer_bytes ≡ some 8
      → zl'.crc ≡ from.crc
      → zl'.uncompressed_size ≡ from.uncompressed_size
      → from.crc < 2 ^ 32
      → Confirmed zl'
  unfolding footer_bytes
  footer-Confirmed zl' kept eight crc size small = record {
    eight = eight;
    checksum = rw kept (little_endian_value from.crc ∙ omega arith);
    size = rw kept (little_endian_value from.uncompressed_size ∙ ap low32 (sym size));
  }

  module _ (i : Inflatable) where
    module _ (zl1 : ZLib z.Internal) (source : Bytes) (source_len : ℕ)
        (h : HeaderDone zl1 source source_len) where
      abbrev opened : ZLib z.Internal × Code
      opened = uncompress_init z zl1 dest_len source source_len

      abbrev begun : ZLib z.Internal
      begun = record opened.0 { first_chunk = false }

      abbrev reply : Moved z.Internal
      reply = z.inflate z_finish opened.0.uncomp_stream

      source_small : source_len < 2 ^ 31
      source_small = omega (arith, i.short, h.left_len)

      opened_new : NewStream z zl1 h.unread dest_len source source_len opened
      opened_new =
          uncompress_init-NewStream z zl1 h.unread dest_len source source_len
            (omega (arith, source_small)) (omega (arith, i.dest_fits)) (ap is_ok (i.opens _))

      opened_right : Opened z e zl1 dest_len source source_len opened
      opened_right = uncompress_init-Opened z e zl1 dest_len source source_len h.ready

      inflated : (reply.code ≡ z_stream_end) × (reply.wrote ≡ plain) × (reply.stream.avail_in ≡ 8)
      inflated =
          let ok = opened_new.0 in
          i.inflates _ opened.0.uncomp_stream opened_new.1 (opened_right.in_at ok ∙ h.left)
            (opened_right.in_all ok ∙ h.left_len) (opened_right.out_all ok)

      Delivered-Unpacked : (c : Call z.Internal) → Delivered z e begun source reply c → Unpacked c
      Delivered-Unpacked c q =
          let p = opened_right in
          let ok = opened_new.0 in
          let s = opened.0.uncomp_stream in
          let m = e.inflate_moves z_finish s (p.is_live ok) in
          let no_in : s.total_in ≡ 0 = p.no_input ok h.unread.first in
          let no_out : s.total_out ≡ 0 = p.no_output ok h.unread.first in
          let room : s.avail_out < 2 ^ 32 = omega (arith, p.out_all ok, i.dest_fits) in
          let filled : s.avail_in ≡ length packed + 8 = p.in_all ok ∙ h.left_len ∙ rest_len in
          let left = inflated.2 in
          let small = source_small in
          let fits : s.avail_in < 2 ^ 31 = omega (arith, p.in_all ok) in
          let read : sub64 reply.stream.total_in s.total_in ≡ length packed =
            omega (arith, m.read_within, m.counts_in) in
          let made : sub64 reply.stream.total_out s.total_out ≡ length reply.wrote =
            omega (arith, m.wrote_within, m.counts_out) in
          let total : reply.stream.total_out ≡ length reply.wrote =
            omega (arith, m.wrote_within, m.counts_out) in
          let many : length reply.wrote ≡ length plain = ap length inflated.1 in
          let old = opened.0.gzip_footer in
          let n = reply.stream.avail_in in
          let footer = footer_bytes from in
          let kept : c.zlib.gzip_footer ≡ footer =
            q.all.footer
            ∙ store_tail packed source footer old n _ h.left read
                (omega (arith, left, (length-footer_bytes from)))
                (omega (
                  arith,
                  array,
                  (length-footer_bytes from),
                  ap length p.footer_same,
                  ap length h.footer_same,
                )) in
          let gzip : opened.0.settings.gzip_header_mode ≡ true =
            ground (arith, p.settings_same, h.unread.gzip) in
          let summed : c.zlib.crc ≡ z.crc32 (z.crc32 0 []) plain =
            q.all.checksum gzip
            ∙ sum_of_all z reply.wrote plain made inflated.1 (p.crc_same ∙ h.fresh_crc) in
          record {
            ok = q.ok;
            written =
                q.all.written ∙ ap (λ (x : Bytes). record { at = 0; bytes = x } ∷ []) inflated.1;
            reported = q.all.reported ∙ made ∙ many;
            confirmed =
                footer-Confirmed c.zlib kept (q.all.kept ∙ ap some left) (summed ∙ sym i.summed)
                  (q.all.size ∙ total ∙ many ∙ sym i.counted) i.crc_small;
            later = q.first_same;
            on = q.on_same ∙ opened_new.2;
            gzip = ground (arith, q.settings_same, gzip);
          }

      body-Unpacked :
          Returns Unpacked (after_first z false dest_len z_finish (goes_on begun source source_len))
      unfolding after_first
      body-Unpacked =
          let p = opened_right in
          let ok = opened_new.0 in
          Returns-mono (Delivered z e begun source reply) Unpacked _ Delivered-Unpacked (
            uncompress_body-Delivered z e begun dest_len source source_len z_finish
              (ground (arith, p.settings_same, h.unread.bare))
              (ground (arith, p.settings_same, h.unread.hides)) (p.footer_bytes_same ∙ h.no_footer)
              (p.is_live ok) (p.in_all ok) (omega (arith, source_small)) inflated.0
              (omega (arith, inflated.2)))

      abbrev After : Phase z.Internal → Type 0
      After p = Returns Unpacked (after_first z false dest_len z_finish p)

      -- The rest of the first phase, from the answer on the dictionary on.
      abbrev from_dictionary : ZLib z.Internal × Code → Phase z.Internal
      from_dictionary r =
          let zl2 = record r.0 { first_chunk = false } in
          if not opened.0.first_chunk
          then goes_on opened.0 source source_len
          else if not (is_ok r.1)
          then returns (answer r.0 r.1 dest_len source_len)
          else if source_len == 0
          then returns (answer zl2 z_ok 0 source_len)
          else goes_on zl2 source source_len

      first_phase-Unpacked : After (first_phase z opened.0 dest_len source source_len)
      unfolding first_phase after_first
      first_phase-Unpacked =
          let p = opened_right in
          let s = opened.0.settings in
          let bare : s.dictionary ≡ 0 = ground (arith, p.settings_same, h.unread.bare) in
          let none_set : (if (s.gzip_header_mode || s.no_header_mode) && not (s.dictionary == 0)
                then set_inflate_dictionary z opened.0
                else (opened.0, z_ok))
              ≡ (opened.0, z_ok) =
            if_cases (λ r. r ≡ (opened.0, z_ok))
              ((s.gzip_header_mode || s.no_header_mode) && not (s.dictionary == 0)) _ _
              (λ yes_. absurd (ground arith)) (λ _. refl) in
          subst (λ r. After (from_dictionary r)) (sym none_set)
            (if_not_cases After opened.0.first_chunk _ _
              (λ later. absurd (ground (arith, later, p.first_same, h.unread.first)))
              (λ _.
                if_cases After (source_len == 0) _ _
                  (λ empty. absurd (ground (arith, empty, h.left_len, rest_len)))
                  (λ _. body-Unpacked)))

      with_stream-Unpacked :
          Returns Unpacked (with_stream z false dest_len z_finish (goes_on zl1 source source_len))
      unfolding with_stream
      with_stream-Unpacked =
          if_not_cases (Returns Unpacked) (is_ok opened.1) _ _
            (λ bad. absurd (ground (arith, bad, opened_new.0))) (λ _. first_phase-Unpacked)

    after_header-Unpacked :
        (p : Phase z.Internal)
        → HeaderPhase p
        → Returns Unpacked (with_stream z false dest_len z_finish p)
    unfolding with_stream
    after_header-Unpacked (returns c) h = absurd h
    after_header-Unpacked (goes_on zl1 source source_len) h =
        with_stream-Unpacked zl1 source source_len h

    chunk_or_all-Unpacked :
        Returns Unpacked (uncompress_chunk_or_all z false zl dest_len image (length image) z_finish)
    unfolding uncompress_chunk_or_all uncompress_at_most_or_all
    chunk_or_all-Unpacked =
        Returns-bind Unpacked Unpacked _ _
          (Returns-bind HeaderPhase Unpacked _ _ (header_phase-HeaderPhase i.short)
            after_header-Unpacked)
          (λ c u.
            if_cases Unpacked (is_buf_error c.code) _ _
              (λ full. absurd (ground (arith, full, u.ok))) (λ _. u))

    pub uncompress-Restores :
        Returns (Restores plain) (uncompress z false zl dest_len image (length image))
    unfolding uncompress finish_uncompress
    uncompress-Restores = Returns-bind Unpacked (Restores plain) _ _ chunk_or_all-Unpacked (λ c u.
        if_not_cases (Returns (Restores plain)) (is_ok c.code) _ _
          (λ bad. absurd (ground (arith, bad, u.ok)))
          (λ _.
            Returns-bind (λ (r : ZLib z.Internal × Bool). r.1 ≡ true) (Restores plain) _ _
              (uncompress_chunk_done-accepts z e c.zlib u.later u.on u.confirmed u.gzip)
              (λ r accepted.
                let ok : (if not r.1 then z_data_error else z_ok) ≡ z_ok = rw accepted refl in
                (ok, u.written, u.reported))))
