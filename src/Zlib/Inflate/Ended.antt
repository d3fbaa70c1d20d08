-- ===== src/Zlib/Inflate/Ended.antt =====
-- zlibwrapper.cc: what a call that returns Z_OK has kept of a footer behind the data. No dictionary
-- is set.
use fleetbench.Prelude.{
  ℕ, ◌^◌, ◌≤◌, ◌<◌, ◌≡◌, ◌⊎◌, inl, inr, refl, true, false, ◌&&◌, [], ◌∷◌, none, some, Option, ltb,
  ◌==◌, min, if_cases, Bytes, take, drop, arith, ap, sub64, Returns, ◌∙◌, sym, subst, not,
  if_not_cases,
}
use fleetbench.Zlib.Library.{
  Zlib, Moved, Flush, Code, z_ok, z_stream_end, z_data_error, is_ok, is_stream_end, is_need_dict,
}
use fleetbench.Zlib.State.{ZLib}
use fleetbench.Zlib.Call.{Call}
use fleetbench.Zlib.Inflates.{Inflates}
use fleetbench.Zlib.UncompressHeader.{store}
use fleetbench.Zlib.Inflate.{
  Judgement, found_footer, proceed, extra_data, fail, out_of_room, judge_inflate, Inflated,
  inflate_phase, finish_inflate, failed_inflate, keep_footer, conclude, after_inflate,
  uncompress_body,
}
use fleetbench.Zlib.Inflate.Settled.{given_up-UncompReady}

module _ (z : Zlib) (d : Inflates z) where
  abbrev bytes_read : ZLib z.Internal → Moved z.Internal → ℕ
  bytes_read zl r = sub64 r.stream.total_in zl.uncomp_stream.total_in

  abbrev produced : ZLib z.Internal → Moved z.Internal → ℕ
  produced zl r = sub64 r.stream.total_out zl.uncomp_stream.total_out

  -- The data has ended, and what was left of the input, eight bytes at most, is kept.
  pub record Ended (zl : ZLib z.Internal) (source : Bytes) (r : Moved z.Internal)
      (c : Call z.Internal) : Type 0 where
    pub ended : r.code ≡ z_stream_end
    pub few : r.stream.avail_in ≤ 8
    pub kept : c.zlib.gzip_footer_bytes ≡ some r.stream.avail_in
    pub footer :
        c.zlib.gzip_footer
        ≡ store 0 (take r.stream.avail_in (drop (bytes_read zl r) source)) zl.gzip_footer
    pub checksum :
        zl.settings.gzip_header_mode ≡ true
        → c.zlib.crc ≡ z.crc32 zl.crc (take (produced zl r) r.wrote)
    pub size : c.zlib.uncompressed_size ≡ r.stream.total_out
    pub reported : c.dest_len ≡ produced zl r
    pub written : c.writes ≡ record { at = 0; bytes = r.wrote } ∷ []

  -- The settings stay, and after Z_OK the data has ended or no footer was touched.
  pub record Outcome (zl : ZLib z.Internal) (source : Bytes) (r : Moved z.Internal)
      (c : Call z.Internal) : Type 0 where
    pub settings_same : c.zlib.settings ≡ zl.settings
    pub either :
        is_ok c.code ≡ true
        → Ended zl source r c ⊎ (c.zlib.gzip_footer_bytes ≡ zl.gzip_footer_bytes)

  is_stream_end_lem : (c : Code) → is_stream_end c ≡ true → c ≡ z_stream_end
  is_stream_end_lem z_stream_end e = refl
  is_stream_end_lem _ e = cc

  judge_inflate-found :
      (err : Code) (footer : Option ℕ) (avail_in avail_out : ℕ)
      → judge_inflate false err footer avail_in avail_out ≡ found_footer
      → (err ≡ z_stream_end) × (avail_in ≤ 8)
  unfolding judge_inflate
  judge_inflate-found err footer avail_in avail_out e = ground (arith, is_stream_end_lem err)

  judge_inflate-fail :
      (err : Code) (footer : Option ℕ) (avail_in avail_out : ℕ)
      → judge_inflate false err footer avail_in avail_out ≡ fail
      → is_ok err ≡ false
  unfolding judge_inflate
  judge_inflate-fail err footer avail_in avail_out e = ground arith

  module _ (zl : ZLib z.Internal) (source : Bytes) (r : Moved z.Internal) where
    abbrev reached : Inflated z.Internal
    reached = record {
      zlib = record zl { uncomp_stream = r.stream };
      code = r.code;
      refused = false;
      wrote = r.wrote;
    }

    failed-Outcome :
        (code : Code) (dest_len : ℕ)
        → is_ok code ≡ false
        → Outcome zl source r (failed_inflate z reached code dest_len)
    unfolding failed_inflate
    failed-Outcome code dest_len bad =
        let (ready, first, same) = given_up-UncompReady z d reached.zlib in
        record { settings_same = same; either = λ ok. cc }

    abbrev concluded : (dest_len : ℕ) → Call z.Internal
    concluded dest_len =
        conclude z found_footer reached zl.uncomp_stream.total_out (bytes_read zl r) dest_len source

    found-Ended :
        (dest_len : ℕ)
        → r.code ≡ z_stream_end
        → r.stream.avail_in ≤ 8
        → Ended zl source r (concluded dest_len)
    unfolding conclude finish_inflate keep_footer
    found-Ended dest_len ended few =
        let all : min r.stream.avail_in 8 ≡ r.stream.avail_in = omega arith in
        record {
          ended = ended;
          few = few;
          kept = ap some all;
          footer = rw all refl;
          checksum = λ gzip. rw gzip refl;
          size = refl;
          reported = refl;
          written = refl;
        }

    -- The data ends in this call, with Z_OK.
    pub record Delivered (c : Call z.Internal) : Type 0 where
      pub ok : c.code ≡ z_ok
      pub all : Ended zl source r c
      pub settings_same : c.zlib.settings ≡ zl.settings
      pub first_same : c.zlib.first_chunk ≡ zl.first_chunk
      pub on_same : c.zlib.uncomp_init ≡ zl.uncomp_init

    found-Delivered :
        (dest_len : ℕ)
        → r.code ≡ z_stream_end
        → r.stream.avail_in ≤ 8
        → zl.settings.dont_hide_zstream_end ≡ false
        → Delivered (concluded dest_len)
    unfolding conclude finish_inflate keep_footer
    found-Delivered dest_len ended few hides = record {
      ok = rw (ended, hides) refl;
      all = found-Ended dest_len ended few;
      settings_same = refl;
      first_same = refl;
      on_same = refl;
    }

    conclude-Outcome :
        (j : Judgement) (dest_len : ℕ)
        → (j ≡ found_footer → (r.code ≡ z_stream_end) × (r.stream.avail_in ≤ 8))
        → (j ≡ fail → is_ok r.code ≡ false)
        → Outcome zl source r
            (conclude z j reached zl.uncomp_stream.total_out (bytes_read zl r) dest_len source)
    unfolding conclude finish_inflate keep_footer
    conclude-Outcome found_footer dest_len found bad =
        let (ended, few) = found refl in
        record { settings_same = refl; either = λ ok. inl (found-Ended dest_len ended few) }
    conclude-Outcome proceed dest_len found bad = record {
      settings_same = refl;
      either = λ ok. inr refl;
    }
    conclude-Outcome extra_data dest_len found bad = failed-Outcome z_data_error dest_len refl
    conclude-Outcome fail dest_len found bad = failed-Outcome r.code dest_len (bad refl)
    conclude-Outcome out_of_room dest_len found bad = record {
      settings_same = refl;
      either = λ ok. cc;
    }

  inflate_phase-bare :
      (zl : ZLib z.Internal) (flush : Flush)
      → zl.settings.dictionary ≡ 0
      → inflate_phase z zl flush ≡ reached zl [] (z.inflate flush zl.uncomp_stream)
  unfolding inflate_phase
  inflate_phase-bare zl flush bare =
      if_not_cases (λ i. i ≡ reached zl [] (z.inflate flush zl.uncomp_stream))
        (not (zl.settings.dictionary == 0) && is_need_dict (z.inflate flush zl.uncomp_stream).code)
        _ _ (λ _. refl) (λ needs. absurd (ground arith))

  pub uncompress_body-Outcome :
      (zl : ZLib z.Internal) (dest_len : ℕ) (source : Bytes) (source_len : ℕ) (flush : Flush)
      → zl.settings.dictionary ≡ 0
      → d.Live zl.uncomp_stream.internal
      → zl.uncomp_stream.avail_in ≡ source_len
      → source_len < 2 ^ 32
      → Returns
          (Outcome zl source (z.inflate flush zl.uncomp_stream))
          (uncompress_body z false zl dest_len source source_len flush)
  unfolding uncompress_body
  uncompress_body-Outcome zl dest_len source source_len flush bare live all small =
      let r = z.inflate flush zl.uncomp_stream in
      let m = d.inflate_moves flush zl.uncomp_stream live in
      let P = Returns (Outcome zl source r) in
      subst (λ i. P (after_inflate z false zl i dest_len source source_len))
        (sym (inflate_phase-bare zl flush bare))
        (if_cases P (ltb source_len (bytes_read zl r)) _ _
          (λ past. ground (arith, m.read_within, m.counts_in))
          (λ _.
            conclude-Outcome zl source r _ dest_len
              (judge_inflate-found r.code zl.gzip_footer_bytes r.stream.avail_in r.stream.avail_out)
              (judge_inflate-fail r.code zl.gzip_footer_bytes r.stream.avail_in
                r.stream.avail_out)))

  judge_inflate-ended :
      (err : Code) (avail_in avail_out : ℕ)
      → err ≡ z_stream_end
      → avail_in ≤ 8
      → judge_inflate false err none avail_in avail_out ≡ found_footer
  unfolding judge_inflate
  judge_inflate-ended err avail_in avail_out ended few = ground (arith, ended)

  -- Where `inflate` ends the data with at most eight bytes left, the call succeeds.
  pub uncompress_body-Delivered :
      (zl : ZLib z.Internal) (dest_len : ℕ) (source : Bytes) (source_len : ℕ) (flush : Flush)
      → zl.settings.dictionary ≡ 0
      → zl.settings.dont_hide_zstream_end ≡ false
      → zl.gzip_footer_bytes ≡ none
      → d.Live zl.uncomp_stream.internal
      → zl.uncomp_stream.avail_in ≡ source_len
      → source_len < 2 ^ 32
      → (z.inflate flush zl.uncomp_stream).code ≡ z_stream_end
      → (z.inflate flush zl.uncomp_stream).stream.avail_in ≤ 8
      → Returns
          (Delivered zl source (z.inflate flush zl.uncomp_stream))
          (uncompress_body z false zl dest_len source source_len flush)
  unfolding uncompress_body
  uncompress_body-Delivered zl dest_len source source_len flush bare hides fresh live all small
        ended few =
      let r = z.inflate flush zl.uncomp_stream in
      let m = d.inflate_moves flush zl.uncomp_stream live in
      let P = Returns (Delivered zl source r) in
      let found : judge_inflate false r.code zl.gzip_footer_bytes r.stream.avail_in
            r.stream.avail_out
          ≡ found_footer =
        ap (λ b. judge_inflate false r.code b r.stream.avail_in r.stream.avail_out) fresh
        ∙ judge_inflate-ended r.code r.stream.avail_in r.stream.avail_out ended few in
      subst (λ i. P (after_inflate z false zl i dest_len source source_len))
        (sym (inflate_phase-bare zl flush bare))
        (if_cases P (ltb source_len (bytes_read zl r)) _ _
          (λ past. ground (arith, m.read_within, m.counts_in))
          (λ _.
            subst
              (λ j. Delivered zl source r (
                conclude z j (reached zl source r) zl.uncomp_stream.total_out (bytes_read zl r)
                  dest_len source))
              (sym found) (found-Delivered zl source r dest_len ended few hides)))
