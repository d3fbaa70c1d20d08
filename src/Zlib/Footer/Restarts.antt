-- ===== src/Zlib/Footer/Restarts.antt =====
-- zlibwrapper.cc: `Uncompress` returns on any buffer, and leaves the object at the start of an image.
use fleetbench.Prelude.{
  ℕ, ◌^◌, ◌<◌, ◌≡◌, refl, Bool, true, false, not, ◌&&◌, ◌||◌, [], ◌∷◌, ◌==◌, none, Option-cases,
  inl, inr, if◌then◌else◌, if_cases, if_not_cases, Bytes, length, arith, low32, ltb, add64, Returns,
  Returns-bind,
}
use fleetbench.Gzip.{Status, incomplete_header, invalid_header, complete_header}
use fleetbench.Gzip.Scan.{read_more-scan}
use fleetbench.Zlib.Library.{Zlib, Flush, z_finish, z_ok, is_ok, is_buf_error}
use fleetbench.Zlib.State.{ZLib, reset}
use fleetbench.Zlib.Call.{Call}
use fleetbench.Zlib.Inflates.{Inflates}
use fleetbench.Zlib.CompressInit.Ready.{is_ok_lem}
use fleetbench.Zlib.UncompressInit.{uncompress_init}
use fleetbench.Zlib.UncompressInit.Opened.{UncompReady, uncompress_init-Opened}
use fleetbench.Zlib.UncompressHeader.{
  Phase, returns, goes_on, read_footer, after_header, parse_header, header_phase,
}
use fleetbench.Zlib.Inflate.{set_inflate_dictionary}
use fleetbench.Zlib.Inflate.Settled.{
  Inside, Settled, given_up-UncompReady, dictionary-kept, uncompress_body-Settled,
}
use fleetbench.Zlib.Uncompress.{
  first_phase, after_first, with_stream, uncompress_at_most_or_all, uncompress_chunk_or_all,
}
use fleetbench.Zlib.Footer.{close_chunks, uncompress_chunk_done, finish_uncompress, uncompress}

module _ (z : Zlib) (d : Inflates z) where
  abbrev Hides : ZLib z.Internal → Type 0
  Hides zl = zl.settings.dont_hide_zstream_end ≡ false

  -- A phase that goes on has a valid object of the same settings.
  abbrev HeaderRead : (dest_len : ℕ) → Phase z.Internal → Type 0
  HeaderRead dest_len (returns c) = Settled z d dest_len c
  HeaderRead dest_len (goes_on zl source source_len) = UncompReady z d zl × Hides zl

  reset-UncompReady :
      (zl : ZLib z.Internal)
      → UncompReady z d zl
      → UncompReady z d (reset zl)
        × ((reset zl).first_chunk ≡ true)
        × ((reset zl).settings ≡ zl.settings)
  unfolding reset
  reset-UncompReady zl v = ground arith

  after_header-HeaderRead :
      (zl : ZLib z.Internal) (dest_len : ℕ) (source : Bytes) (source_len : ℕ) (s : Status)
      → UncompReady z d zl
      → Hides zl
      → HeaderRead dest_len (after_header z zl dest_len source source_len s)
  unfolding after_header
  after_header-HeaderRead zl dest_len source source_len (incomplete_header h) v hides = ground arith
  after_header-HeaderRead zl dest_len source source_len (invalid_header h) v hides =
      let (ready, first, same) = reset-UncompReady zl v in
      record { ready = ready; inside = tt; hides = ground arith; restarted = λ _ _. first }
  after_header-HeaderRead zl dest_len source source_len (complete_header h n) v hides = ground arith

  read_footer-Settled :
      (flexible : Bool) (zl : ZLib z.Internal) (have dest_len : ℕ) (source : Bytes) (source_len : ℕ)
      → UncompReady z d zl
      → Hides zl
      → Settled z d dest_len (read_footer flexible zl have dest_len source source_len)
  unfolding read_footer
  read_footer-Settled flexible zl have dest_len source source_len v hides =
      let (ready, first, same) = reset-UncompReady zl v in
      if_cases (Settled z d dest_len) (ltb 8 (add64 have source_len) && not flexible) _ _
        (λ _. record { ready = ready; inside = tt; hides = ground arith; restarted = λ _ _. first })
        (λ _. record {
          ready = record { live = v.live; begun = v.begun };
          inside = tt;
          hides = hides;
          restarted = λ e. cc;
        })

  module _ (flexible : Bool) (zl : ZLib z.Internal) (dest_len : ℕ) (source : Bytes) (source_len : ℕ)
      (v : UncompReady z d zl) (hides : Hides zl)
      (sized : zl.first_chunk ≡ true → (length source ≡ source_len) × (source_len < 2 ^ 31)) where
    header_phase-HeaderRead :
        Returns (HeaderRead dest_len) (header_phase z flexible zl dest_len source source_len)
    unfolding header_phase parse_header
    header_phase-HeaderRead =
        let P = Returns (HeaderRead dest_len) in
        let w : UncompReady z d (record zl { gzip_footer_bytes = none }) = record {
          live = v.live;
          begun = v.begun;
        } in
        if_cases P zl.first_chunk _ _
          (λ first.
            if_cases P zl.settings.gzip_header_mode _ _
              (λ _.
                let (e, small) = sized first in
                let low : low32 source_len ≡ length source = omega arith in
                rw (low, read_more-scan zl.gzip_header source (omega arith))
                  (after_header-HeaderRead _ dest_len source _ _ w hides))
              (λ _. (w, hides)))
          (λ _. elim (Option-cases zl.gzip_footer_bytes) [
            | inl e ↦ rw e (v, hides)
            | inr (have, e) ↦
                rw e (read_footer-Settled flexible zl have dest_len source source_len v hides)
          ])

  -- A live stream on the caller's buffers.
  pub record CanInflate (dest_len source_len : ℕ) (zl : ZLib z.Internal) : Type 0 where
    pub is_live : d.Live zl.uncomp_stream.internal
    pub is_set : zl.uncomp_init ≡ true
    pub hides : Hides zl
    pub in_all : zl.uncomp_stream.avail_in ≡ source_len
    pub in_small : source_len < 2 ^ 32
    pub out_all : zl.uncomp_stream.avail_out ≡ dest_len

  abbrev Started : (dest_len : ℕ) → Phase z.Internal → Type 0
  Started dest_len (returns c) = Settled z d dest_len c
  Started dest_len (goes_on zl source source_len) = CanInflate dest_len source_len zl

  first_phase-Started :
      (zl : ZLib z.Internal) (dest_len : ℕ) (source : Bytes) (source_len : ℕ)
      → CanInflate dest_len source_len zl
      → Started dest_len (first_phase z zl dest_len source source_len)
  unfolding first_phase
  first_phase-Started zl dest_len source source_len g =
      let s = zl.settings in
      let r =
        if (s.gzip_header_mode || s.no_header_mode) && not (s.dictionary == 0)
        then set_inflate_dictionary z zl
        else (zl, z_ok) in
      let (kept, refused) = dictionary-kept z d zl g.is_live in
      let good : is_ok r.1 ≡ true
          → CanInflate dest_len source_len (record r.0 { first_chunk = false }) =
        λ ok. ground (arith, kept) in
      let bad : is_ok r.1 ≡ false → UncompReady z d r.0 × (r.0.first_chunk ≡ true) × Hides r.0 =
        λ no. ground (arith, refused, g.hides) in
      let P = Started dest_len in
      if_not_cases P zl.first_chunk _ _ (λ _. g)
        (λ _.
          if_not_cases P (is_ok r.1) _ _
            (λ no. record {
              ready = (bad no).0;
              inside = tt;
              hides = (bad no).2;
              restarted = λ _ _. (bad no).1;
            })
            (λ ok.
              let h = good ok in
              if_cases P (source_len == 0) _ _
                (λ _. record {
                  ready = record { live = λ _. h.is_live; begun = λ _. h.is_set };
                  inside = tt;
                  hides = h.hides;
                  restarted = λ e. cc;
                })
                (λ _. h)))

  after_first-Settled :
      (flexible : Bool) (dest_len : ℕ) (flush : Flush) (phase : Phase z.Internal)
      → Started dest_len phase
      → Returns (Settled z d dest_len) (after_first z flexible dest_len flush phase)
  unfolding after_first
  after_first-Settled flexible dest_len flush (returns c) h = h
  after_first-Settled flexible dest_len flush (goes_on zl source source_len) g =
      uncompress_body-Settled z d flexible zl dest_len source source_len flush g.is_live g.is_set
        g.hides g.in_all g.in_small g.out_all

  with_stream-Settled :
      (flexible : Bool) (dest_len : ℕ) (flush : Flush) (phase : Phase z.Internal)
      → HeaderRead dest_len phase
      → Returns (Settled z d dest_len) (with_stream z flexible dest_len flush phase)
  unfolding with_stream
  with_stream-Settled flexible dest_len flush (returns c) h = h
  with_stream-Settled flexible dest_len flush (goes_on zl source source_len) (v, hides) =
      let r = uncompress_init z zl dest_len source source_len in
      let o = uncompress_init-Opened z d zl dest_len source source_len v in
      if_not_cases (Returns (Settled z d dest_len)) (is_ok r.1) _ _
        (λ bad. record {
          ready = o.ready;
          inside = tt;
          hides = ground (arith, o.settings_same);
          restarted = o.restarted;
        })
        (λ ok.
          let e = is_ok_lem _ ok in
          after_first-Settled flexible dest_len flush _ (
            first_phase-Started r.0 dest_len source source_len (record {
              is_live = o.is_live e;
              is_set = o.is_set e;
              hides = ground (arith, o.settings_same);
              in_all = o.in_all e;
              in_small = omega (arith, o.small_in e);
              out_all = o.out_all e;
            })))

  -- After any failure the object is at the start of an image.
  abbrev pub Restarted : (dest_len : ℕ) → Call z.Internal → Type 0
  Restarted dest_len c =
      UncompReady z d c.zlib
      × Inside dest_len c.writes
      × Hides c.zlib
      × (is_ok c.code ≡ false → c.zlib.first_chunk ≡ true)

  module _ (flexible : Bool) (zl : ZLib z.Internal) (dest_len : ℕ) (source : Bytes) (source_len : ℕ)
      (flush : Flush) (v : UncompReady z d zl) (hides : Hides zl)
      (sized : zl.first_chunk ≡ true → (length source ≡ source_len) × (source_len < 2 ^ 31)) where
    pub uncompress_at_most_or_all-Settled :
        Returns
          (Settled z d dest_len)
          (uncompress_at_most_or_all z flexible zl dest_len source source_len flush)
    unfolding uncompress_at_most_or_all
    uncompress_at_most_or_all-Settled =
        Returns-bind (HeaderRead dest_len) (Settled z d dest_len) _ _
          (header_phase-HeaderRead flexible zl dest_len source source_len v hides sized)
          (with_stream-Settled flexible dest_len flush)

    pub uncompress_chunk_or_all-Restarted :
        Returns
          (Restarted dest_len)
          (uncompress_chunk_or_all z flexible zl dest_len source source_len flush)
    unfolding uncompress_chunk_or_all
    uncompress_chunk_or_all-Restarted =
        Returns-bind (Settled z d dest_len) (Restarted dest_len) _ _
          uncompress_at_most_or_all-Settled
          (λ c s.
            let (ready, first, same) = given_up-UncompReady z d c.zlib in
            if_cases (Restarted dest_len) (is_buf_error c.code) _ _
              (λ _. (ready, s.inside, ground (arith, s.hides), λ _. first))
              (λ no. (s.ready, s.inside, s.hides, λ e. s.restarted e no)))

  -- A valid object at the first chunk of an image.
  abbrev pub AtStart : ZLib z.Internal → Type 0
  AtStart zl = UncompReady z d zl × (zl.first_chunk ≡ true)

  close_chunks-AtStart :
      (flexible : Bool) (c : Call z.Internal)
      → UncompReady z d c.zlib
      → (is_ok c.code ≡ false → c.zlib.first_chunk ≡ true)
      → AtStart (close_chunks z flexible c).0
  unfolding close_chunks
  close_chunks-AtStart flexible c v restarted =
      let (ready, first, same) = reset-UncompReady c.zlib v in
      if_not_cases (λ (r : ZLib z.Internal × Bool). AtStart r.0) (is_ok c.code) _ _
        (λ bad. (v, restarted bad)) (λ _. (ready, first))

  uncompress_chunk_done-AtStart :
      (flexible : Bool) (zl : ZLib z.Internal)
      → UncompReady z d zl
      → Hides zl
      → Returns (λ (r : ZLib z.Internal × Bool). AtStart r.0) (uncompress_chunk_done z flexible zl)
  unfolding uncompress_chunk_done
  uncompress_chunk_done-AtStart flexible zl v hides =
      let P : ZLib z.Internal × Bool → Type 0 = λ r. AtStart r.0 in
      if_cases (Returns P) (zl.first_chunk || not zl.uncomp_init) _ _
        (λ idle. let first : zl.first_chunk ≡ true = ground (arith, v.begun) in (v, first))
        (λ busy.
          let later : zl.first_chunk ≡ true → (1 ≡ 0) × (0 < 2 ^ 31) =
            λ first. absurd (ground arith) in
          Returns-bind (Restarted 0) P _ _
            (uncompress_chunk_or_all-Restarted flexible zl 0 (0 ∷ []) 0 z_finish v hides later)
            (λ c s. close_chunks-AtStart flexible c s.0 s.3))

  -- `Uncompress` on any buffer below 2^31 bytes, corrupt or cut short, returns with a code: it writes
  -- only within the caller's buffer and leaves a valid object at the first chunk of an image. (The
  -- object is valid and does not show Z_STREAM_END. zlib is assumed to behave as documented.)
  pub uncompress-AtStart :
      (flexible : Bool) (zl : ZLib z.Internal) (dest_len : ℕ) (source : Bytes)
      → UncompReady z d zl
      → zl.settings.dont_hide_zstream_end ≡ false
      → length source < 2 ^ 31
      → Returns
          (λ c. AtStart c.zlib × Inside dest_len c.writes)
          (uncompress z flexible zl dest_len source (length source))
  unfolding uncompress finish_uncompress
  uncompress-AtStart flexible zl dest_len source v hides small =
      let P : Call z.Internal → Type 0 = λ c. AtStart c.zlib × Inside dest_len c.writes in
      Returns-bind (Restarted dest_len) P _ _
        (uncompress_chunk_or_all-Restarted flexible zl dest_len source (length source) z_finish v
          hides (λ _. (refl, small)))
        (λ c (ready, inside, hides', _).
          let (again, first, same) = reset-UncompReady c.zlib ready in
          if_not_cases (Returns P) (is_ok c.code) _ _ (λ _. ((again, first), inside))
            (λ _.
              Returns-bind (λ (r : ZLib z.Internal × Bool). AtStart r.0) P _ _
                (uncompress_chunk_done-AtStart flexible c.zlib ready hides')
                (λ r start. (start, inside))))
