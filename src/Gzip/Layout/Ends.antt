-- ===== src/Gzip/Layout/Ends.antt =====
-- Stages of gzipheader.cc's parser that end in a complete header.
use fleetbench.Prelude.{
  ℕ, ◌+◌, ◌*◌, ◌/◌, ◌%◌, ◌^◌, ◌<◌, true, false, [], ◌∷◌, ◌==◌, Bytes, ◌≡◌, refl, arith, ◌∙◌, ap,
}
use fleetbench.Gzip.{
  State, in_xlen_byte_0, in_fextra, in_fname, in_fcomment, in_fhcrc_byte_0, in_done, number, Header,
  initial, flag_fhcrc, flag_fextra, flag_fname, flag_fcomment, has, clear, known_flags, at_end,
  complete_header,
}
use fleetbench.Gzip.Scan.{settle, take_byte, end_extra, scan, scan_same}
use fleetbench.Gzip.Layout.{fixed_part}

-- From `h` the reference finds the end of the header at offset `n`.
abbrev pub EndsAt : ℕ → Header → Bytes → ℕ → Type 0
EndsAt pos h bs n = (k : Header) × (scan pos h bs ≡ complete_header k n)

-- A field that is absent is skipped: also at the end of the bytes, where only the flags count.
pub EndsAt-skip :
    (pos f x : ℕ) (s s' : State) (bs : Bytes) (n : ℕ)
    → 9 < number s
    → 9 < number s'
    → settle s (record { state = s; flags = f; extra_length = x })
      ≡ settle s' (record { state = s'; flags = f; extra_length = x })
    → EndsAt pos (record { state = s'; flags = f; extra_length = x }) bs n
    → EndsAt pos (record { state = s; flags = f; extra_length = x }) bs n
unfolding scan at_end
EndsAt-skip pos f x s s' [] n p q e (k, h) =
    (record { state = s; flags = f; extra_length = x }, ground arith)
EndsAt-skip pos f x s s' (b ∷ bs) n p q e (k, h) = (k, scan_same _ _ pos b bs e ∙ h)

-- Where the flag of a field is clear, its state settles as the next one does.
pub settle_no_extra :
    (f x : ℕ)
    → has flag_fextra f ≡ false
    → settle in_xlen_byte_0 (record { state = in_xlen_byte_0; flags = f; extra_length = x })
      ≡ settle in_fname (record { state = in_fname; flags = f; extra_length = x })
unfolding settle
settle_no_extra f x off = ground arith

pub settle_no_name :
    (f x : ℕ)
    → has flag_fname f ≡ false
    → settle in_fname (record { state = in_fname; flags = f; extra_length = x })
      ≡ settle in_fcomment (record { state = in_fcomment; flags = f; extra_length = x })
unfolding settle
settle_no_name f x off = ground arith

pub settle_no_comment :
    (f x : ℕ)
    → has flag_fcomment f ≡ false
    → settle in_fcomment (record { state = in_fcomment; flags = f; extra_length = x })
      ≡ settle in_fhcrc_byte_0 (record { state = in_fhcrc_byte_0; flags = f; extra_length = x })
unfolding settle
settle_no_comment f x off = ground arith

pub clear_off : (k f : ℕ) → has k f ≡ false → clear k f ≡ f
clear_off k f off = let e : (f / 2 ^ k) % 2 ≡ 0 = ground arith in rw e (omega arith)

-- The ten fixed bytes.
pub scan-fixed_part :
    (flg m0 m1 m2 m3 xfl os : ℕ) (rest : Bytes)
    → scan 0 initial (fixed_part flg m0 m1 m2 m3 xfl os rest)
      ≡ scan 10 (record { state = in_xlen_byte_0; flags = known_flags flg; extra_length = 0 }) rest
unfolding scan settle take_byte
scan-fixed_part flg m0 m1 m2 m3 xfl os rest = refl

pub scan_length :
    (pos f x lo hi : ℕ) (bs : Bytes)
    → has flag_fextra f ≡ true
    → scan pos (record { state = in_xlen_byte_0; flags = f; extra_length = x }) (lo ∷ hi ∷ bs)
      ≡ scan
          (pos + 1 + 1)
          (end_extra
            (record { state = in_fextra; flags = f; extra_length = (lo + hi * 2 ^ 8) % 2 ^ 16 }))
          bs
unfolding scan settle take_byte
scan_length pos f x lo hi bs on = ground arith

pub scan_crc :
    (pos f x lo hi : ℕ) (bs : Bytes)
    → has flag_fhcrc f ≡ true
    → scan pos (record { state = in_fhcrc_byte_0; flags = f; extra_length = x }) (lo ∷ hi ∷ bs)
      ≡ scan
          (pos + 1 + 1)
          (record { state = in_done; flags = clear flag_fhcrc f; extra_length = x })
          bs
unfolding scan settle take_byte
scan_crc pos f x lo hi bs on = ground arith

-- Clearing the flags of the fields that are behind leaves those of the fields ahead.
pub flags_behind :
    (flg : ℕ)
    → let f = known_flags flg in
      let f1 = clear flag_fextra f in
      let f2 = clear flag_fname f1 in
      let f3 = clear flag_fcomment f2 in
      ((f / 2 ^ flag_fextra) % 2 ≡ (flg / 2 ^ flag_fextra) % 2)
      × ((f1 / 2 ^ flag_fname) % 2 ≡ (flg / 2 ^ flag_fname) % 2)
      × ((f2 / 2 ^ flag_fcomment) % 2 ≡ (flg / 2 ^ flag_fcomment) % 2)
      × ((f3 / 2 ^ flag_fhcrc) % 2 ≡ (flg / 2 ^ flag_fhcrc) % 2)
      × (f3 ≡ 2 * ((f3 / 2) % 2))
flags_behind flg = omega arith

-- A test of a flag, read off the flags byte.
abbrev pub Reads : ℕ → ℕ → ℕ → Type 0
Reads k f flg = (f / 2 ^ k) % 2 ≡ (flg / 2 ^ k) % 2

pub has-Reads : (k f flg : ℕ) → Reads k f flg → has k f ≡ has k flg
has-Reads k f flg e = ap (λ t. t == 1) e
