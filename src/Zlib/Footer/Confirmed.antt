-- ===== src/Zlib/Footer/Confirmed.antt =====
-- zlibwrapper.cc: `UncompressChunkDone` in gzip mode returns true only behind a whole footer that
-- agrees with the data. No dictionary is set, and the flag for a loose footer is off.
use fleetbench.Prelude.{
  ℕ, ◌≡◌, ◌≢◌, inl, inr, refl, Bool, true, false, not, ◌&&◌, ◌||◌, [], ◌∷◌, ◌++◌, none, some,
  Option, Option-cases, ltb, if◌then◌else◌, if_cases, if_not_cases, Bytes, take, drop, get_or,
  take-append-drop, low32, add64, sub64, arith, ◌∙◌, ap, sym, Run, done, ◌>>=◌, Returns,
  Returns-bind, Returns-mono, subst,
}
use fleetbench.Zlib.Library.{Zlib, z_finish, z_ok, is_ok, is_buf_error}
use fleetbench.Zlib.State.{ZLib, reset}
use fleetbench.Zlib.Call.{Call}
use fleetbench.Zlib.Inflates.{Inflates}
use fleetbench.Zlib.UncompressInit.{uncompress_init}
use fleetbench.Zlib.UncompressInit.Opened.{UncompReady, uncompress_init-Opened}
use fleetbench.Zlib.UncompressHeader.{Phase, store, read_footer, header_phase, goes_on, returns}
use fleetbench.Zlib.Inflate.Settled.{given_up-UncompReady}
use fleetbench.Zlib.Inflate.Ended.{Outcome, uncompress_body-Outcome}
use fleetbench.Zlib.Uncompress.{
  first_phase, after_first, with_stream, uncompress_at_most_or_all, uncompress_chunk_or_all,
}
use fleetbench.Zlib.Footer.{
  from_little_endian, is_gzip_footer_complete, is_gzip_footer_valid, footer_accepted, close_chunks,
  uncompress_chunk_done,
}

-- The footer that the object has kept is whole and agrees with its checksum and length.
pub record Confirmed {I : Type 0} (zl : ZLib I) : Type 0 where
  pub eight : zl.gzip_footer_bytes ≡ some 8
  pub checksum :
      from_little_endian
        (get_or zl.gzip_footer 0 0)
        (get_or zl.gzip_footer 1 0)
        (get_or zl.gzip_footer 2 0)
        (get_or zl.gzip_footer 3 0)
      ≡ zl.crc
  pub size :
      from_little_endian
        (get_or zl.gzip_footer 4 0)
        (get_or zl.gzip_footer 5 0)
        (get_or zl.gzip_footer 6 0)
        (get_or zl.gzip_footer 7 0)
      ≡ low32 zl.uncompressed_size

module _ {I : Type 0} where
  footer_accepted-Confirmed :
      (zl : ZLib I)
      → zl.settings.gzip_header_mode ≡ true
      → footer_accepted false zl ≡ true
      → Confirmed zl
  unfolding footer_accepted is_gzip_footer_valid is_gzip_footer_complete
  footer_accepted-Confirmed zl gzip yes_ = ground arith

store_nothing : (have : ℕ) (footer : Bytes) → store have [] footer ≡ footer
unfolding store
store_nothing have footer =
    ap (λ (n : ℕ). take have footer ++ drop n footer) (omega arith) ∙ take-append-drop have footer

module _ {I : Type 0} where
  Confirmed-footer_accepted : (zl : ZLib I) → Confirmed zl → footer_accepted false zl ≡ true
  unfolding footer_accepted is_gzip_footer_valid is_gzip_footer_complete
  Confirmed-footer_accepted zl f = ground arith

  read_footer-whole :
      (zl : ZLib I)
      → Confirmed zl
      → (read_footer false zl 8 0 (0 ∷ []) 0).code ≡ z_ok
        × Confirmed (reset (read_footer false zl 8 0 (0 ∷ []) 0).zlib)
  unfolding read_footer reset
  read_footer-whole zl f =
      let e = sym (store_nothing 8 zl.gzip_footer) in
      (
        refl,
        record {
          eight = refl;
          checksum =
              subst
                (λ b.
                  from_little_endian (get_or b 0 0) (get_or b 1 0) (get_or b 2 0) (get_or b 3 0)
                  ≡ zl.crc)
                e f.checksum;
          size =
              subst
                (λ b.
                  from_little_endian (get_or b 4 0) (get_or b 5 0) (get_or b 6 0) (get_or b 7 0)
                  ≡ low32 zl.uncompressed_size)
                e f.size;
        },
      )

module _ (z : Zlib) (d : Inflates z) where
  -- A call with no input, on an object behind the first chunk.
  record Kept (zl : ZLib z.Internal) (c : Call z.Internal) : Type 0 where
    settings_same : c.zlib.settings ≡ zl.settings
    unended : zl.gzip_footer_bytes ≡ none → is_ok c.code ≡ true → c.zlib.gzip_footer_bytes ≢ some 8
    waited :
        (have : ℕ)
        → zl.gzip_footer_bytes ≡ some have
        → is_ok c.code ≡ true
        → (c.zlib.gzip_footer_bytes ≡ some have)
          × (c.zlib.gzip_footer ≡ zl.gzip_footer)
          × (c.zlib.crc ≡ zl.crc)
          × (c.zlib.uncompressed_size ≡ zl.uncompressed_size)

  read_footer-Kept :
      (zl : ZLib z.Internal) (have : ℕ)
      → zl.gzip_footer_bytes ≡ some have
      → Kept zl (read_footer false zl have 0 (0 ∷ []) 0)
  unfolding read_footer reset
  read_footer-Kept zl have e =
      let none_left : (if ltb 0 (sub64 8 have) then 0 else sub64 8 have) ≡ 0 = ground arith in
      if_cases (Kept zl) (ltb 8 (add64 have 0) && true) _ _
        (λ _. record { settings_same = refl; unended = λ n. cc; waited = λ h f. cc })
        (λ _. record {
          settings_same = refl;
          unended = λ n. cc;
          waited = λ h f _. (
            rw none_left (ap some (omega arith)) ∙ sym e ∙ f,
            rw none_left (store_nothing have zl.gzip_footer),
            refl,
            refl,
          );
        })

  body-Kept :
      (zl zl' : ZLib z.Internal)
      → zl'.settings ≡ zl.settings
      → zl.gzip_footer_bytes ≡ none
      → zl'.gzip_footer_bytes ≡ none
      → zl.settings.dictionary ≡ 0
      → d.Live zl'.uncomp_stream.internal
      → zl'.uncomp_stream.avail_in ≡ 0
      → Returns (Kept zl) (after_first z false 0 z_finish (goes_on zl' (0 ∷ []) 0))
  unfolding after_first
  body-Kept zl zl' same old e bare live no_input =
      let m = d.inflate_moves z_finish zl'.uncomp_stream live in
      let r = z.inflate z_finish zl'.uncomp_stream in
      Returns-mono (Outcome z d zl' (0 ∷ []) r) (Kept zl) _
        (λ c o. record {
          settings_same = o.settings_same ∙ same;
          unended = λ _ ok eight. elim (o.either ok) [
            | inl f ↦ absurd (ground (arith, f.kept, m.read_within))
            | inr s ↦ cc
          ];
          waited = λ have h _. absurd (ground (arith, old, h));
        })
        (uncompress_body-Outcome z d zl' 0 (0 ∷ []) 0 z_finish (ground (arith, same)) live no_input
          (omega arith))

  first_phase-later :
      (zl : ZLib z.Internal) (dest_len : ℕ) (source : Bytes) (source_len : ℕ)
      → zl.first_chunk ≡ false
      → first_phase z zl dest_len source source_len ≡ goes_on zl source source_len
  unfolding first_phase
  first_phase-later zl dest_len source source_len later =
      if_not_cases (λ p. p ≡ goes_on zl source source_len) zl.first_chunk _ _ (λ _. refl)
        (λ first. cc)

  with_stream-Kept :
      (zl : ZLib z.Internal)
      → UncompReady z d zl
      → zl.first_chunk ≡ false
      → zl.settings.dictionary ≡ 0
      → zl.gzip_footer_bytes ≡ none
      → Returns (Kept zl) (with_stream z false 0 z_finish (goes_on zl (0 ∷ []) 0))
  unfolding with_stream
  with_stream-Kept zl v later bare e =
      let r = uncompress_init z zl 0 (0 ∷ []) 0 in
      let o = uncompress_init-Opened z d zl 0 (0 ∷ []) 0 v in
      let ok : r.1 ≡ z_ok = o.later_ok later refl refl in
      if_not_cases (Returns (Kept zl)) (is_ok r.1) _ _ (λ bad. absurd (ground (arith, ok, bad)))
        (λ _.
          subst (λ p. Returns (Kept zl) (after_first z false 0 z_finish p))
            (sym (first_phase-later r.0 0 (0 ∷ []) 0 (o.first_same ∙ later)))
            (body-Kept zl r.0 o.settings_same e (o.footer_bytes_same ∙ e) bare (o.is_live ok)
              (o.in_all ok)))

  in_state-Kept :
      (zl : ZLib z.Internal) (state : Option ℕ)
      → UncompReady z d zl
      → zl.first_chunk ≡ false
      → zl.settings.dictionary ≡ 0
      → zl.gzip_footer_bytes ≡ state
      → let phase : Run (Phase z.Internal) = elim state [
        | none ↦ done (goes_on zl (0 ∷ []) 0)
        | some have ↦ done (returns (read_footer false zl have 0 (0 ∷ []) 0))
      ] in
        Returns (Kept zl) (phase >>= with_stream z false 0 z_finish)
  unfolding with_stream
  in_state-Kept zl none v later bare e = with_stream-Kept zl v later bare e
  in_state-Kept zl (some have) v later bare e = read_footer-Kept zl have e

  at_most-Kept :
      (zl : ZLib z.Internal)
      → UncompReady z d zl
      → zl.first_chunk ≡ false
      → zl.settings.dictionary ≡ 0
      → Returns (Kept zl) (uncompress_at_most_or_all z false zl 0 (0 ∷ []) 0 z_finish)
  unfolding uncompress_at_most_or_all header_phase
  at_most-Kept zl v later bare =
      let P : Run (Phase z.Internal) → Type 0 =
        λ m. Returns (Kept zl) (m >>= with_stream z false 0 z_finish) in
      if_cases P zl.first_chunk _ _ (λ first. cc)
        (λ _. in_state-Kept zl zl.gzip_footer_bytes v later bare refl)

  chunk_or_all-Kept :
      (zl : ZLib z.Internal)
      → UncompReady z d zl
      → zl.first_chunk ≡ false
      → zl.settings.dictionary ≡ 0
      → Returns (Kept zl) (uncompress_chunk_or_all z false zl 0 (0 ∷ []) 0 z_finish)
  unfolding uncompress_chunk_or_all
  chunk_or_all-Kept zl v later bare =
      Returns-bind (Kept zl) (Kept zl) _ _ (at_most-Kept zl v later bare) (λ c k.
        let (ready, first, same) = given_up-UncompReady z d c.zlib in
        if_cases (Kept zl) (is_buf_error c.code) _ _
          (λ full. record {
            settings_same = same ∙ k.settings_same;
            unended = λ _ ok. absurd (ground arith);
            waited = λ _ _ ok. absurd (ground arith);
          })
          (λ _. k))

  before-Confirmed :
      (zl : ZLib z.Internal) (c : Call z.Internal)
      → Kept zl c
      → is_ok c.code ≡ true
      → Confirmed (reset c.zlib)
      → Confirmed zl
  unfolding reset
  before-Confirmed zl c k ok f = elim (Option-cases zl.gzip_footer_bytes) [
    | inl e ↦ absurd (k.unended e ok f.eight)
    | inr (have, e) ↦
        let w = k.waited have e ok in
        record {
          eight = e ∙ sym w.0 ∙ f.eight;
          checksum = ground (arith, w, f.checksum);
          size = ground (arith, w, f.size);
        }
  ]

  close_chunks-Confirmed :
      (zl : ZLib z.Internal) (c : Call z.Internal)
      → zl.settings.gzip_header_mode ≡ true
      → Kept zl c
      → (close_chunks z false c).1 ≡ true
      → Confirmed zl
  unfolding close_chunks reset
  close_chunks-Confirmed zl c gzip k =
      if_not_cases (λ (r : ZLib z.Internal × Bool). r.1 ≡ true → Confirmed zl) (is_ok c.code) _ _
        (λ bad e. cc)
        (λ ok accepted.
          before-Confirmed zl c k ok
            (footer_accepted-Confirmed (reset c.zlib) (ground (arith, k.settings_same)) accepted))

  -- Where `UncompressChunkDone` returns, and with true, the footer is confirmed.
  pub uncompress_chunk_done-Confirmed :
      (zl : ZLib z.Internal)
      → UncompReady z d zl
      → zl.settings.dictionary ≡ 0
      → zl.settings.gzip_header_mode ≡ true
      → Returns
          (λ (r : ZLib z.Internal × Bool). r.1 ≡ true → Confirmed zl)
          (uncompress_chunk_done z false zl)
  unfolding uncompress_chunk_done
  uncompress_chunk_done-Confirmed zl v bare gzip =
      let P : ZLib z.Internal × Bool → Type 0 = λ r. r.1 ≡ true → Confirmed zl in
      if_cases (Returns P) (zl.first_chunk || not zl.uncomp_init) _ _ (λ idle e. cc)
        (λ busy.
          let later : zl.first_chunk ≡ false = ground arith in
          Returns-bind (Kept zl) P _ _ (chunk_or_all-Kept zl v later bare)
            (λ c k. close_chunks-Confirmed zl c gzip k))

  -- A call with no input behind a confirmed footer succeeds, and leaves it confirmed.
  abbrev Stays : Call z.Internal → Type 0
  Stays c = c.code ≡ z_ok × Confirmed (reset c.zlib) × (c.zlib.settings.gzip_header_mode ≡ true)

  in_state-Stays :
      (zl : ZLib z.Internal) (state : Option ℕ)
      → Confirmed zl
      → zl.settings.gzip_header_mode ≡ true
      → zl.gzip_footer_bytes ≡ state
      → let phase : Run (Phase z.Internal) = elim state [
        | none ↦ done (goes_on zl (0 ∷ []) 0)
        | some have ↦ done (returns (read_footer false zl have 0 (0 ∷ []) 0))
      ] in
        Returns Stays (phase >>= with_stream z false 0 z_finish)
  unfolding with_stream
  in_state-Stays zl none f gzip e = absurd (ground (arith, f.eight, e))
  in_state-Stays zl (some have) f gzip e =
      let whole : have ≡ 8 = ground (arith, f.eight, e) in
      let k = read_footer-Kept zl 8 f.eight in
      let (ok, still) = read_footer-whole zl f in
      subst (λ (h : ℕ). Stays (read_footer false zl h 0 (0 ∷ []) 0)) (sym whole)
        (ok, still, ground (arith, k.settings_same, gzip))

  at_most-Stays :
      (zl : ZLib z.Internal)
      → zl.first_chunk ≡ false
      → Confirmed zl
      → zl.settings.gzip_header_mode ≡ true
      → Returns Stays (uncompress_at_most_or_all z false zl 0 (0 ∷ []) 0 z_finish)
  unfolding uncompress_at_most_or_all header_phase
  at_most-Stays zl later f gzip =
      let P : Run (Phase z.Internal) → Type 0 =
        λ m. Returns Stays (m >>= with_stream z false 0 z_finish) in
      if_cases P zl.first_chunk _ _ (λ first. cc)
        (λ _. in_state-Stays zl zl.gzip_footer_bytes f gzip refl)

  -- `UncompressChunkDone` returns true behind a confirmed footer.
  pub uncompress_chunk_done-accepts :
      (zl : ZLib z.Internal)
      → zl.first_chunk ≡ false
      → zl.uncomp_init ≡ true
      → Confirmed zl
      → zl.settings.gzip_header_mode ≡ true
      → Returns (λ (r : ZLib z.Internal × Bool). r.1 ≡ true) (uncompress_chunk_done z false zl)
  unfolding uncompress_chunk_done uncompress_chunk_or_all close_chunks
  uncompress_chunk_done-accepts zl later on f gzip =
      let P : ZLib z.Internal × Bool → Type 0 = λ r. r.1 ≡ true in
      if_cases (Returns P) (zl.first_chunk || not zl.uncomp_init) _ _
        (λ idle. absurd (ground (arith, later, on)))
        (λ _.
          Returns-bind Stays P _ _
            (Returns-bind Stays Stays _ _ (at_most-Stays zl later f gzip) (λ c (ok, still, gzip').
              if_cases Stays (is_buf_error c.code) _ _ (λ full. absurd (ground (arith, full, ok)))
                (λ _. (ok, still, gzip'))))
            (λ c (ok, still, _).
              if_not_cases P (is_ok c.code) _ _ (λ bad. absurd (ground (arith, bad, ok)))
                (λ _. Confirmed-footer_accepted (reset c.zlib) still)))
