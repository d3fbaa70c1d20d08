-- ===== src/Zlib/Compress/Bounds.antt =====
-- zlibwrapper.cc, compress mode: what a call stores lies in the caller's buffer, without gaps, and
-- `*destLen` is its length.
use fleetbench.Prelude.{
  ℕ, ◌+◌, ◌-◌, ◌^◌, ◌≤◌, ◌<◌, ◌≡◌, refl, sym, ◌∙◌, true, false, List, [], ◌∷◌, ◌++◌, if◌then◌else◌,
  if_cases, if_not_cases, Bytes, length, arith, low32, sign_extend, add64, sub64,
}
use fleetbench.Zlib.Library.{Zlib, Flush, Code, z_ok, is_ok, Deflates}
use fleetbench.Zlib.State.{ZLib, reset, end_comp}
use fleetbench.Zlib.Call.{Write, Call, write_gzip_header}
use fleetbench.Zlib.CompressInit.{compress_error_init, compress_init}
use fleetbench.Zlib.CompressInit.Ready.{CompReady, compress_init-Begun, is_ok_lem}
use fleetbench.Zlib.Compress.{
  Started, start_header, start_dictionary, start_first_chunk, judge_deflate, compress_body,
  compress_at_most_or_all,
}

-- The writes follow one another from `from` to `to`.
abbrev pub Packed : ℕ → List Write → ℕ → Type 0
Packed from [] to = from ≡ to
Packed from (w ∷ ws) to = (w.at ≡ from) × Packed (from + length w.bytes) ws to

pub Packed-concat :
    (ws : List Write) (from at to : ℕ) (bytes : Bytes)
    → Packed from ws at
    → at + length bytes ≡ to
    → Packed from (ws ++ record { at = at; bytes = bytes } ∷ []) to
Packed-concat [] from at to bytes p e = (sym p, rw p e)
Packed-concat (w ∷ ws) from at to bytes p e = (p.0, Packed-concat ws _ at to bytes p.1 e)

-- `compressed_size` counts back from the stream's total, in 32 bits; the difference at the end is
-- right as long as it fits an `int`.
pub compressed_size_lem :
    (total wrote before : ℕ)
    → before + wrote < 2 ^ 31
    → sign_extend
        (low32 (sub64 (add64 total wrote) (sign_extend (low32 (total + 2 ^ 32 - before)))))
      ≡ before + wrote
compressed_size_lem total wrote before h = ground arith

module _ (z : Zlib) (d : Deflates z) (dest_len source_len : ℕ) where
  -- A set-up that can go on: a live stream that stands behind what is written, with the rest of the
  -- buffer before it.
  pub record CanGoOn (st : Started z.Internal) : Type 0 where
    pub is_live : d.Live st.zlib.comp_stream.internal
    pub is_set : st.zlib.comp_init ≡ true
    pub in_all : st.zlib.comp_stream.avail_in ≡ source_len
    pub packed : Packed 0 st.writes st.zlib.comp_stream.next_out
    pub room : st.zlib.comp_stream.next_out + st.zlib.comp_stream.avail_out ≡ dest_len
    pub size :
        st.compressed_size
        ≡ low32 (st.zlib.comp_stream.total_out + 2 ^ 32 - st.zlib.comp_stream.next_out)

  start_header-CanGoOn :
      (zl : ZLib z.Internal)
      → CanGoOn (record {
        zlib = zl;
        code = z_ok;
        compressed_size = low32 zl.comp_stream.total_out;
        writes = [];
      })
      → zl.comp_stream.next_out ≡ 0
      → let st = start_header z zl (low32 zl.comp_stream.total_out) in
        CanGoOn st × (st.zlib.settings ≡ zl.settings)
  unfolding start_header write_gzip_header
  start_header-CanGoOn zl g start = ground (arith)

  start_dictionary-CanGoOn :
      (st : Started z.Internal)
      → CanGoOn st
      → let st' = start_dictionary z st in CanGoOn st' × (st'.zlib.settings ≡ st.zlib.settings)
  unfolding start_dictionary
  start_dictionary-CanGoOn st g = ground (
    arith,
    d.dictionary_same st.zlib.settings.dictionary st.zlib.settings.dict_len st.zlib.comp_stream,
    d.dictionary_live st.zlib.settings.dictionary st.zlib.settings.dict_len st.zlib.comp_stream,
    d.dictionary_total st.zlib.settings.dictionary st.zlib.settings.dict_len st.zlib.comp_stream,
  )

  marked-CanGoOn :
      (st : Started z.Internal)
      → CanGoOn st
      → CanGoOn (record st { zlib = record st.zlib { uncompressed_size = 0; first_chunk = false } })
  marked-CanGoOn st g = record {
    is_live = g.is_live;
    is_set = g.is_set;
    in_all = g.in_all;
    packed = g.packed;
    room = g.room;
    size = g.size;
  }

  start_first_chunk-CanGoOn :
      (zl : ZLib z.Internal)
      → CanGoOn (record {
        zlib = zl;
        code = z_ok;
        compressed_size = low32 zl.comp_stream.total_out;
        writes = [];
      })
      → zl.comp_stream.next_out ≡ 0
      → let st = start_first_chunk z zl (low32 zl.comp_stream.total_out) in
        CanGoOn st × (st.zlib.settings ≡ zl.settings)
  unfolding start_first_chunk
  start_first_chunk-CanGoOn zl g start =
      let size = low32 zl.comp_stream.total_out in
      let (h, e) = start_header-CanGoOn zl g start in
      let (k, f) = start_dictionary-CanGoOn (start_header z zl size) h in
      let P : Started z.Internal → Type 0 = λ st. CanGoOn st × (st.zlib.settings ≡ zl.settings) in
      if_not_cases P (is_ok (start_header z zl size).code) _ _ (λ _. (h, e))
        (λ _.
          if_not_cases P (is_ok (start_dictionary z (start_header z zl size)).code) _ _
            (λ _. (k, f ∙ e)) (λ _. (marked-CanGoOn _ k, f ∙ e)))

  -- What a call leaves: its writes are packed at the start of the buffer and end within it, the
  -- object is valid, and on success `*destLen` is where the writes end.
  pub record Stored (c : Call z.Internal) : Type 0 where
    pub end_at : ℕ
    pub packed : Packed 0 c.writes end_at
    pub within : end_at ≤ dest_len
    pub ready : CompReady z d c.zlib
    pub reported : dest_len < 2 ^ 31 → c.code ≡ z_ok → c.dest_len ≡ end_at

  compress_body-Stored :
      (st : Started z.Internal) (source : Bytes) (flush : Flush)
      → CanGoOn st
      → Stored (compress_body z st dest_len source source_len flush)
  unfolding compress_body judge_deflate compress_error_init end_comp reset
  compress_body-Stored st source flush g =
      let s = st.zlib.comp_stream in
      let r = z.deflate flush s in
      let m = d.deflate_moves flush s g.is_live in
      let live = d.deflate_live flush s g.is_live in
      let end : ℕ = s.next_out + length r.wrote in
      record {
        end_at = end;
        packed = ground (arith, Packed-concat st.writes 0 s.next_out end r.wrote g.packed refl);
        within = omega arith;
        ready = ground (arith, live, g.is_set);
        reported = λ small ok. ground (
          arith,
          compressed_size_lem s.total_out (length r.wrote) s.next_out (omega arith),
          g.size,
          m.counts_out,
        );
      }

  -- A call that has stored nothing, or only what the set-up has.
  early-Stored :
      (c : Call z.Internal) (n : ℕ)
      → Packed 0 c.writes n
      → n ≤ dest_len
      → CompReady z d c.zlib
      → is_ok c.code ≡ false
      → Stored c
  early-Stored c n p w v e = record {
    end_at = n;
    packed = p;
    within = w;
    ready = v;
    reported = λ _ ok. cc;
  }

  CanGoOn-CompReady : (st : Started z.Internal) → CanGoOn st → CompReady z d st.zlib
  CanGoOn-CompReady st g = record { live = λ _. g.is_live; begun = λ _. g.is_set }

  module _ (zl : ZLib z.Internal) (source : Bytes) (flush : Flush) (v : CompReady z d zl) where
    abbrev inited : ZLib z.Internal × Code
    inited = compress_init z zl dest_len source source_len

    abbrev started : Started z.Internal
    started =
        let size = low32 inited.0.comp_stream.total_out in
        if inited.0.first_chunk
        then start_first_chunk z inited.0 size
        else record { zlib = inited.0; code = z_ok; compressed_size = size; writes = [] }

    started-CanGoOn : inited.1 ≡ z_ok → CanGoOn started
    started-CanGoOn ok =
        let b = compress_init-Begun z d zl dest_len source source_len v in
        let no : inited.0.comp_stream.next_out ≡ 0 = b.out_start ok in
        let g : CanGoOn (record {
          zlib = inited.0;
          code = z_ok;
          compressed_size = low32 inited.0.comp_stream.total_out;
          writes = [];
        }) =
          record {
            is_live = b.is_live ok;
            is_set = b.is_set ok;
            in_all = b.in_all ok;
            packed = sym no;
            room = omega (arith, b.out_all ok);
            size = omega arith;
          } in
        if_cases CanGoOn inited.0.first_chunk _ _ (λ _. (start_first_chunk-CanGoOn inited.0 g no).0)
          (λ _. g)

    pub compress_at_most_or_all-Stored :
        Stored (compress_at_most_or_all z zl dest_len source source_len flush)
    unfolding compress_at_most_or_all
    compress_at_most_or_all-Stored =
        let b = compress_init-Begun z d zl dest_len source source_len v in
        if_not_cases Stored (is_ok inited.1) _ _
          (λ bad. early-Stored _ 0 refl (omega arith) b.ready bad)
          (λ ok.
            let g = started-CanGoOn (is_ok_lem _ ok) in
            if_not_cases Stored (is_ok started.code) _ _
              (λ bad.
                early-Stored _ started.zlib.comp_stream.next_out g.packed (omega (arith, g.room))
                  (CanGoOn-CompReady started g) bad)
              (λ _. compress_body-Stored started source flush g))
