-- ===== src/Zlib/Inflate/Settled.antt =====
-- zlibwrapper.cc: from the call of `inflate` on, uncompressing returns, writes within the buffer and
-- leaves a valid object.
use fleetbench.Prelude.{
  ℕ, ◌+◌, ◌-◌, ◌^◌, ◌≤◌, ◌<◌, ◌≡◌, refl, Bool, true, false, ◌||◌, Option, List, [], ◌∷◌, ltb,
  if_cases, Bytes, length, length-append, arith, add64, sub64, Run, Returns,
}
use fleetbench.Zlib.Library.{Zlib, Flush, Code, z_buf_error, is_ok, is_stream_end, is_buf_error}
use fleetbench.Zlib.State.{ZLib, reset, end_uncomp}
use fleetbench.Zlib.Call.{Write, Call}
use fleetbench.Zlib.Inflates.{Inflates}
use fleetbench.Zlib.UncompressInit.{uncompress_error_init}
use fleetbench.Zlib.UncompressInit.Opened.{UncompReady}
use fleetbench.Zlib.Inflate.{
  Judgement, found_footer, proceed, extra_data, fail, out_of_room, judge_inflate, Inflated,
  set_inflate_dictionary, inflate_phase, finish_inflate, failed_inflate, keep_footer, conclude,
  uncompress_body,
}

-- Every write lies in the buffer.
abbrev pub Inside : (dest_len : ℕ) → List Write → Type 0
Inside dest_len [] = Unit
Inside dest_len (w ∷ ws) = (w.at + length w.bytes ≤ dest_len) × Inside dest_len ws

module _ (z : Zlib) (d : Inflates z) where
  pub given_up-UncompReady :
      (zl : ZLib z.Internal)
      → UncompReady z d (uncompress_error_init z zl)
        × ((uncompress_error_init z zl).first_chunk ≡ true)
        × ((uncompress_error_init z zl).settings ≡ zl.settings)
  unfolding uncompress_error_init end_uncomp reset
  given_up-UncompReady zl = ground arith

  -- What a successful `inflateSetDictionary` changes is only the stream's inside.
  pub dictionary-kept :
      (zl : ZLib z.Internal)
      → d.Live zl.uncomp_stream.internal
      → let r = set_inflate_dictionary z zl in
        (is_ok r.1 ≡ true
          → d.Live r.0.uncomp_stream.internal
            × (r.0.uncomp_stream.avail_in ≡ zl.uncomp_stream.avail_in)
            × (r.0.uncomp_stream.avail_out ≡ zl.uncomp_stream.avail_out)
            × (r.0.uncomp_stream.total_in ≡ zl.uncomp_stream.total_in)
            × (r.0.uncomp_stream.total_out ≡ zl.uncomp_stream.total_out)
            × (r.0.uncomp_init ≡ zl.uncomp_init)
            × (r.0.settings ≡ zl.settings)
            × (r.0.first_chunk ≡ zl.first_chunk)
            × (r.0.gzip_footer_bytes ≡ zl.gzip_footer_bytes))
        × (is_ok r.1 ≡ false
            → UncompReady z d r.0 × (r.0.first_chunk ≡ true) × (r.0.settings ≡ zl.settings))
  unfolding set_inflate_dictionary
  dictionary-kept zl live =
      let s = zl.settings in
      let r = z.inflate_set_dictionary s.dictionary s.dict_len zl.uncomp_stream in
      ground (
        arith,
        d.dictionary_live s.dictionary s.dict_len zl.uncomp_stream,
        d.dictionary_keeps s.dictionary s.dict_len zl.uncomp_stream,
        d.dictionary_in s.dictionary s.dict_len zl.uncomp_stream,
        d.dictionary_out s.dictionary s.dict_len zl.uncomp_stream,
        given_up-UncompReady (record zl { uncomp_stream = r.stream }),
      )

  -- `inflate` has gone on from `zl`, within the buffers, or the dictionary was refused.
  pub record Went (zl : ZLib z.Internal) (i : Inflated z.Internal) : Type 0 where
    pub wrote_inside : length i.wrote ≤ zl.uncomp_stream.avail_out
    pub is_live : i.refused ≡ false → d.Live i.zlib.uncomp_stream.internal
    pub is_set : i.refused ≡ false → i.zlib.uncomp_init ≡ true
    pub settings_same : i.zlib.settings ≡ zl.settings
    pub read_within : i.refused ≡ false → i.zlib.uncomp_stream.avail_in ≤ zl.uncomp_stream.avail_in
    pub counts_in :
        i.refused ≡ false
        → i.zlib.uncomp_stream.total_in
          ≡ add64 zl.uncomp_stream.total_in
              (zl.uncomp_stream.avail_in - i.zlib.uncomp_stream.avail_in)
    pub turned_down :
        i.refused ≡ true
        → UncompReady z d i.zlib × (i.zlib.first_chunk ≡ true) × (is_ok i.code ≡ false)

  inflate_phase-Went :
      (zl : ZLib z.Internal) (flush : Flush)
      → d.Live zl.uncomp_stream.internal
      → zl.uncomp_init ≡ true
      → Went zl (inflate_phase z zl flush)
  unfolding inflate_phase
  inflate_phase-Went zl flush live on =
      let s = zl.uncomp_stream in
      let r = z.inflate flush s in
      let zl1 = record zl { uncomp_stream = r.stream } in
      let m = d.inflate_moves flush s live in
      let live1 = d.inflate_live flush s live in
      let k = dictionary-kept zl1 live1 in
      let t = (set_inflate_dictionary z zl1).0.uncomp_stream in
      ground (
        arith,
        m,
        live1,
        k,
        d.inflate_moves flush t,
        d.inflate_live flush t,
        length-append r.wrote (z.inflate flush t).wrote,
      )

  -- What a call leaves: a valid object, and only bytes within the buffer written. A failure other
  -- than Z_BUF_ERROR has the object at the start of an image.
  pub record Settled (dest_len : ℕ) (c : Call z.Internal) : Type 0 where
    pub ready : UncompReady z d c.zlib
    pub inside : Inside dest_len c.writes
    pub hides : c.zlib.settings.dont_hide_zstream_end ≡ false
    pub restarted : is_ok c.code ≡ false → is_buf_error c.code ≡ false → c.zlib.first_chunk ≡ true

  finish_inflate-Settled :
      (zl : ZLib z.Internal) (err : Code) (old source_len dest_len : ℕ) (wrote : Bytes)
      → d.Live zl.uncomp_stream.internal
      → zl.uncomp_init ≡ true
      → zl.settings.dont_hide_zstream_end ≡ false
      → length wrote ≤ dest_len
      → is_ok err || is_stream_end err || is_buf_error err ≡ true
      → Settled dest_len (finish_inflate z zl err old source_len wrote)
  unfolding finish_inflate
  finish_inflate-Settled zl err old source_len dest_len wrote live on hides fits known = record {
    ready = record { live = λ _. live; begun = λ _. on };
    inside = (omega arith, tt);
    hides = hides;
    restarted = λ p q. ground arith;
  }

  failed_inflate-Settled :
      (i : Inflated z.Internal) (code : Code) (dest_len : ℕ)
      → i.zlib.settings.dont_hide_zstream_end ≡ false
      → length i.wrote ≤ dest_len
      → Settled dest_len (failed_inflate z i code dest_len)
  unfolding failed_inflate
  failed_inflate-Settled i code dest_len hides fits =
      let (ready, first, same) = given_up-UncompReady i.zlib in
      record {
        ready = ready;
        inside = (omega arith, tt);
        hides = ground arith;
        restarted = λ _ _. first;
      }

  -- Where the judgement goes on, the code is one of three.
  judge_inflate-known :
      (flexible : Bool) (err : Code) (footer : Option ℕ) (avail_in avail_out : ℕ)
      → let j = judge_inflate flexible err footer avail_in avail_out in
        (j ≡ found_footer → is_ok err || is_stream_end err || is_buf_error err ≡ true)
        × (j ≡ proceed → is_ok err || is_stream_end err || is_buf_error err ≡ true)
  unfolding judge_inflate
  judge_inflate-known flexible err footer avail_in avail_out = ground arith

  conclude-Settled :
      (j : Judgement) (i : Inflated z.Internal) (old bytes_read dest_len : ℕ) (source : Bytes)
      → d.Live i.zlib.uncomp_stream.internal
      → i.zlib.uncomp_init ≡ true
      → i.zlib.settings.dont_hide_zstream_end ≡ false
      → length i.wrote ≤ dest_len
      → ((j ≡ found_footer → is_ok i.code || is_stream_end i.code || is_buf_error i.code ≡ true)
          × (j ≡ proceed → is_ok i.code || is_stream_end i.code || is_buf_error i.code ≡ true))
      → Settled dest_len (conclude z j i old bytes_read dest_len source)
  unfolding conclude keep_footer
  conclude-Settled found_footer i old bytes_read dest_len source live on hides fits known =
      finish_inflate-Settled (keep_footer z i.zlib bytes_read source) i.code old _ dest_len i.wrote
        live on hides fits (known.0 refl)
  conclude-Settled proceed i old bytes_read dest_len source live on hides fits known =
      finish_inflate-Settled i.zlib i.code old _ dest_len i.wrote live on hides fits (known.1 refl)
  conclude-Settled extra_data i old bytes_read dest_len source live on hides fits known =
      failed_inflate-Settled i _ dest_len hides fits
  conclude-Settled fail i old bytes_read dest_len source live on hides fits known =
      failed_inflate-Settled i _ dest_len hides fits
  conclude-Settled out_of_room i old bytes_read dest_len source live on hides fits known =
      finish_inflate-Settled i.zlib z_buf_error old _ dest_len i.wrote live on hides fits refl

  -- From the call of `inflate` on, a call returns, and leaves the object settled.
  pub uncompress_body-Settled :
      (flexible : Bool) (zl : ZLib z.Internal) (dest_len : ℕ) (source : Bytes) (source_len : ℕ)
      (flush : Flush)
      → d.Live zl.uncomp_stream.internal
      → zl.uncomp_init ≡ true
      → zl.settings.dont_hide_zstream_end ≡ false
      → zl.uncomp_stream.avail_in ≡ source_len
      → source_len < 2 ^ 32
      → zl.uncomp_stream.avail_out ≡ dest_len
      → Returns (Settled dest_len) (uncompress_body z flexible zl dest_len source source_len flush)
  unfolding uncompress_body
  uncompress_body-Settled flexible zl dest_len source source_len flush live on hides size small
        room =
      let i = inflate_phase z zl flush in
      let w = inflate_phase-Went zl flush live on in
      let s = i.zlib.uncomp_stream in
      let P : Run (Call z.Internal) → Type 0 = Returns (Settled dest_len) in
      let fits : length i.wrote ≤ dest_len = omega (arith, w.wrote_inside) in
      if_cases P i.refused _ _
        (λ no.
          let (ready, first, failed) = w.turned_down no in
          record {
            ready = ready;
            inside = (omega arith, tt);
            hides = ground (arith, w.settings_same);
            restarted = λ _ _. first;
          })
        (λ went.
          if_cases P (ltb source_len (sub64 s.total_in zl.uncomp_stream.total_in)) _ _
            (λ past.
              let read : s.avail_in ≤ zl.uncomp_stream.avail_in = w.read_within went in
              ground (arith, w.counts_in went))
            (λ _.
              conclude-Settled _ i zl.uncomp_stream.total_out _ dest_len source (w.is_live went)
                (w.is_set went) (ground (arith, w.settings_same)) fits
                (judge_inflate-known flexible i.code i.zlib.gzip_footer_bytes s.avail_in
                  s.avail_out)))
