-- ===== src/Gzip/Scan.antt =====
-- A reference for gzipheader.cc that reads one byte at a time, and the proof that the loop of
-- `ReadMore`, which skips fields in bulk, computes the same.
use fleetbench.Prelude.{
  ℕ, zero, suc, ◌+◌, ◌-◌, ◌*◌, ◌%◌, ◌^◌, ◌≤◌, ◌<◌, min, Bool, true, [], ◌∷◌, Option, none, some,
  ◌==◌, if◌then◌else◌, Bytes, length, take, drop, length-drop, take_all, lt→ltb, done, ◌≡◌, refl,
  arith, Bool-cases, Option-cases, ◌∙◌, inl, inr, ap,
}
use fleetbench.Gzip.{
  State, in_header_id1, in_header_id2, in_header_cm, in_header_flg, in_xlen_byte_0, in_xlen_byte_1,
  in_fextra, in_fname, in_fcomment, in_fhcrc_byte_0, in_fhcrc_byte_1, in_done, number, Header,
  flag_fhcrc, flag_fextra, flag_fname, flag_fcomment, has, clear, known_flags, Round, invalid,
  complete, continue, advance, memchr, skip_text, round, Status, invalid_header, complete_header,
  at_end, loop, fuel_for, read_more,
}

-- An optional field that is absent is passed over without reading a byte.
pub settle_fhcrc : Header → Header
settle_fhcrc h =
    if has flag_fhcrc h.flags
    then record h { state = in_fhcrc_byte_0 }
    else record h { state = in_done }

pub settle_fcomment : Header → Header
unfolding settle_fhcrc
settle_fcomment h =
    if has flag_fcomment h.flags then record h { state = in_fcomment } else settle_fhcrc h

pub settle_fname : Header → Header
unfolding settle_fcomment
settle_fname h = if has flag_fname h.flags then record h { state = in_fname } else settle_fcomment h

-- The end of the extra field, when nothing of it is left.
unfoldable pub end_extra : Header → Header
end_extra h =
    if h.extra_length == 0
    then record h { state = in_fname; flags = clear flag_fextra h.flags }
    else h

unfoldable pub settle : State → Header → Header
unfolding settle_fname
settle in_xlen_byte_0 h = if has flag_fextra h.flags then h else settle_fname h
settle in_fextra h =
    if h.extra_length == 0
    then settle_fname (record h { state = in_fname; flags = clear flag_fextra h.flags })
    else h
settle in_fname h = settle_fname h
settle in_fcomment h = settle_fcomment h
settle in_fhcrc_byte_0 h = settle_fhcrc h
settle _ h = h

abbrev pub require : Bool → Header → Option Header
require b h = if b then some h else none

-- What one byte does to a settled state; `none` refuses it.
unfoldable pub take_byte : State → Header → ℕ → Option Header
unfolding end_extra
take_byte in_header_id1 h b = require (b == 0x1f) (advance h)
take_byte in_header_id2 h b = require (b == 0x8b) (advance h)
take_byte in_header_cm h b = require (b == 8) (advance h)
take_byte in_header_flg h b = some (record (advance h) { flags = known_flags b })
take_byte in_xlen_byte_0 h b = some (record (advance h) { extra_length = b })
take_byte in_xlen_byte_1 h b =
    some (end_extra (record (advance h) { extra_length = (h.extra_length + b * 2 ^ 8) % 2 ^ 16 }))
take_byte in_fextra h b = some (end_extra (record h { extra_length = h.extra_length - 1 }))
take_byte in_fname h b =
    some (if b == 0 then record h { flags = clear flag_fname h.flags; state = in_fcomment } else h)
take_byte in_fcomment h b = some (
    if b == 0 then record h { flags = clear flag_fcomment h.flags; state = in_fhcrc_byte_0 } else h)
take_byte in_fhcrc_byte_1 h b = some (record (advance h) { flags = clear flag_fhcrc h.flags })
take_byte _ h b = some (advance h)

abbrev pub is_done : State → Bool
is_done s = number s == 17

unfoldable pub scan : ℕ → Header → Bytes → Status
unfolding at_end
scan pos h [] = at_end h pos
scan pos h (b ∷ bs) =
    let s = settle h.state h in
    if is_done s.state
    then complete_header s pos
    else elim (take_byte s.state s b) [ none ↦ invalid_header s | some h' ↦ scan (pos + 1) h' bs ]

-- How far the loop may still go: rounds are bounded by it.
abbrev measure : Header → Bytes → ℕ
measure h bs = 18 * length bs + (17 - number h.state)

-- One round does what the reference does with the bytes that the round reads.
abbrev Agrees : ℕ → Header → Bytes → Round → Status → Type 0
Agrees pos h bs (invalid h') r = r ≡ invalid_header h'
Agrees pos h bs (complete h') r = r ≡ complete_header h' pos
Agrees pos h bs (continue h' used rest) r =
    (r ≡ scan (pos + used) h' rest) × (measure h' rest < measure h bs)

scan_extra_step :
    (b : ℕ) (bs : Bytes) (pos f x : ℕ)
    → scan pos (end_extra (record { state = in_fextra; flags = f; extra_length = suc x })) (b ∷ bs)
      ≡ scan
          (pos + 1)
          (end_extra (record { state = in_fextra; flags = f; extra_length = suc x - 1 }))
          bs
unfolding scan end_extra settle take_byte
scan_extra_step b bs pos f x = ground arith

pub scan_extra :
    (bs : Bytes) (pos f x : ℕ)
    → scan pos (end_extra (record { state = in_fextra; flags = f; extra_length = x })) bs
      ≡ scan
          (pos + min x (length bs))
          (end_extra
            (record { state = in_fextra; flags = f; extra_length = x - min x (length bs) }))
          (drop (min x (length bs)) bs)
scan_extra [] pos f x =
    let e : min x 0 ≡ 0 = omega arith in
    let d : x - min x 0 ≡ x = omega arith in let p : pos + 0 ≡ pos = omega arith in rw (d, e, p)
scan_extra (b ∷ bs) pos f zero =
    let e : min 0 (suc (length bs)) ≡ 0 = omega arith in
    let d : 0 - min 0 (suc (length bs)) ≡ 0 = omega arith in
    let p : pos + 0 ≡ pos = omega arith in rw (d, e, p)
scan_extra (b ∷ bs) pos f (suc x) =
    let e : min (suc x) (suc (length bs)) ≡ suc (min x (length bs)) = omega arith in
    let d : suc x - min (suc x) (suc (length bs)) ≡ x - min x (length bs) = omega arith in
    let o : suc x - 1 ≡ x = omega arith in
    let p : pos + suc (min x (length bs)) ≡ pos + 1 + min x (length bs) = omega arith in
    scan_extra_step b bs pos f x ∙ rw (d, e, o, p) (scan_extra bs (pos + 1) f x)

-- Text up to its NUL, or to the end of the bytes at hand.
module _ (inside after : Header) where
  abbrev pub EatsText : Type 0
  EatsText =
      (b : ℕ) (bs : Bytes) (pos : ℕ)
      → scan pos inside (b ∷ bs) ≡ scan (pos + 1) (if b == 0 then after else inside) bs

  pub scan_text :
      (bs : Bytes) (pos : ℕ)
      → EatsText
      → scan pos inside bs ≡ (elim (memchr 0 bs) [
        | some i ↦ scan (pos + suc i) after (drop (suc i) bs)
        | none ↦ scan (pos + length bs) inside []
      ])
  unfolding memchr
  scan_text [] pos eats = let p : pos + 0 ≡ pos = omega arith in rw p
  scan_text (b ∷ bs) pos eats = elim (Bool-cases (b == 0)) [
    | inl nul ↦ rw nul (eats b bs pos ∙ rw nul)
    | inr more ↦ rw more (
        eats b bs pos
        ∙ rw more (elim (Option-cases (memchr 0 bs)) [
          | inl e ↦
              let p : pos + suc (length bs) ≡ pos + 1 + length bs = omega arith in
              rw (e, p) (rw e at (scan_text bs (pos + 1) eats))
          | inr (i, e) ↦
              let p : pos + suc (suc i) ≡ pos + 1 + suc i = omega arith in
              rw (e, p) (rw e at (scan_text bs (pos + 1) eats))
        ]))
  ]

pub scan_fname-EatsText :
    (f x : ℕ)
    → has flag_fname f ≡ true
    → EatsText
        (record { state = in_fname; flags = f; extra_length = x })
        (record { state = in_fcomment; flags = clear flag_fname f; extra_length = x })
unfolding scan settle take_byte
scan_fname-EatsText f x on b bs pos = ground arith

pub scan_fcomment-EatsText :
    (f x : ℕ)
    → has flag_fcomment f ≡ true
    → EatsText
        (record { state = in_fcomment; flags = f; extra_length = x })
        (record { state = in_fhcrc_byte_0; flags = clear flag_fcomment f; extra_length = x })
unfolding scan settle take_byte
scan_fcomment-EatsText f x on b bs pos = ground arith

-- The bulk skip of the extra field, entered at `pos + used` with `rest` unread.
skip_extra-scan :
    (f x pos used : ℕ) (rest : Bytes)
    → scan (pos + used) (end_extra (record { state = in_fextra; flags = f; extra_length = x })) rest
      ≡ scan
          (pos + (used + min x (length rest)))
          (end_extra
            (record { state = in_fextra; flags = f; extra_length = x - min x (length rest) }))
          (drop (min x (length rest)) rest)
skip_extra-scan f x pos used rest =
    let p : pos + (used + min x (length rest)) ≡ pos + used + min x (length rest) = omega arith in
    rw p (scan_extra rest (pos + used) f x)

-- Before a byte, only the settled state counts.
pub scan_same :
    (h h' : Header) (pos b : ℕ) (bs : Bytes)
    → settle h.state h ≡ settle h'.state h'
    → scan pos h (b ∷ bs) ≡ scan pos h' (b ∷ bs)
unfolding scan
scan_same h h' pos b bs e =
    ap
      (λ s. if is_done s.state then complete_header s pos else elim (take_byte s.state s b) [
        | none ↦ invalid_header s
        | some k ↦ scan (pos + 1) k bs
      ])
      e

scan-settle :
    (h h' : Header) (pos b : ℕ) (bs : Bytes)
    → settle h.state h ≡ settle h'.state h'
    → scan pos h (b ∷ bs) ≡ scan (pos + 0) h' (b ∷ bs)
scan-settle h h' pos b bs e =
    let p : pos + 0 ≡ pos = omega arith in rw p (scan_same h h' pos b bs e)

scan_fextra :
    (f x pos b : ℕ) (bs : Bytes)
    → scan pos (record { state = in_fextra; flags = f; extra_length = x }) (b ∷ bs)
      ≡ scan
          (pos + 0)
          (end_extra (record { state = in_fextra; flags = f; extra_length = x }))
          (b ∷ bs)
unfolding settle end_extra
scan_fextra f zero pos b bs = scan-settle _ _ pos b bs refl
scan_fextra f (suc x) pos b bs = scan-settle _ _ pos b bs (ground arith)

pub scan_xlen_byte_1 :
    (f x pos b : ℕ) (bs : Bytes)
    → scan pos (record { state = in_xlen_byte_1; flags = f; extra_length = x }) (b ∷ bs)
      ≡ scan
          (pos + 1)
          (end_extra
            (record { state = in_fextra; flags = f; extra_length = (x + b * 2 ^ 8) % 2 ^ 16 }))
          bs
unfolding scan settle take_byte
scan_xlen_byte_1 f x pos b bs = refl

end_extra-measure :
    (f x : ℕ) (rest : Bytes)
    → measure
        (end_extra
          (record { state = in_fextra; flags = f; extra_length = x - min x (length rest) }))
        (drop (min x (length rest)) rest)
      ≤ 18 * (length rest - min x (length rest)) + (if x - min x (length rest) == 0 then 4 else 5)
unfolding end_extra
end_extra-measure f x rest = ground (arith, length-drop (min x (length rest)) rest)

module _ (f x pos b : ℕ) (bs : Bytes) where
  abbrev RoundAgrees : State → Type 0
  RoundAgrees s =
      let h : Header = record { state = s; flags = f; extra_length = x } in
      Agrees pos h (b ∷ bs) (round s h b bs) (scan pos h (b ∷ bs))

  in_xlen_byte_1-Agrees : RoundAgrees in_xlen_byte_1
  unfolding round end_extra
  in_xlen_byte_1-Agrees =
      let len = (x + b * 2 ^ 8) % 2 ^ 16 in
      (
        scan_xlen_byte_1 f x pos b bs ∙ skip_extra-scan f len pos 1 bs,
        ground (arith, end_extra-measure f len bs),
      )

  in_fextra-Agrees : RoundAgrees in_fextra
  unfolding round end_extra
  in_fextra-Agrees = (
    scan_fextra f x pos b bs ∙ skip_extra-scan f x pos 0 (b ∷ bs),
    ground (arith, end_extra-measure f x (b ∷ bs)),
  )

  skip_text-Agrees :
      (flag : ℕ) (inside after : State)
      → EatsText
          (record { state = inside; flags = f; extra_length = x })
          (record { state = after; flags = clear flag f; extra_length = x })
      → let h : Header = record { state = inside; flags = f; extra_length = x } in
        Agrees pos h (b ∷ bs) (skip_text flag after h (b ∷ bs)) (scan pos h (b ∷ bs))
  unfolding skip_text
  skip_text-Agrees flag inside after eats = elim (Option-cases (memchr 0 (b ∷ bs))) [
    | inl e ↦ rw (e, skip_text) (rw e at (scan_text _ _ (b ∷ bs) pos eats), ground arith)
    | inr (i, e) ↦
        rw (e, skip_text)
          (rw e at (scan_text _ _ (b ∷ bs) pos eats), ground (arith, length-drop i bs))
  ]

  in_fname-Agrees : RoundAgrees in_fname
  unfolding round
  in_fname-Agrees = elim (Bool-cases (has flag_fname f)) [
    | inl on ↦
        rw (on, round)
          (skip_text-Agrees flag_fname in_fname in_fcomment (scan_fname-EatsText f x on))
    | inr off ↦
        rw (off, round) (scan-settle _ _ pos b bs (unfold settle in ground arith), omega arith)
  ]

  in_fcomment-Agrees : RoundAgrees in_fcomment
  unfolding round
  in_fcomment-Agrees = elim (Bool-cases (has flag_fcomment f)) [
    | inl on ↦
        rw (on, round)
          (skip_text-Agrees flag_fcomment in_fcomment in_fhcrc_byte_0
            (scan_fcomment-EatsText f x on))
    | inr off ↦
        rw (off, round) (scan-settle _ _ pos b bs (unfold settle in ground arith), omega arith)
  ]

  round-Agrees : (s : State) → RoundAgrees s
  unfolding round scan settle take_byte
  round-Agrees in_xlen_byte_1 = in_xlen_byte_1-Agrees
  round-Agrees in_fextra = in_fextra-Agrees
  round-Agrees in_fname = in_fname-Agrees
  round-Agrees in_fcomment = in_fcomment-Agrees
  round-Agrees _ = ground arith

abbrev LoopsTo : ℕ → Type 0
LoopsTo fuel =
    (h : Header) (pos : ℕ) (bs : Bytes)
    → measure h bs < fuel
    → loop fuel h pos bs ≡ done (scan pos h bs)

loop_round :
    (fuel : ℕ) (h : Header) (pos : ℕ) (bs : Bytes) (r : Round)
    → LoopsTo fuel
    → measure h bs < suc fuel
    → Agrees pos h bs r (scan pos h bs)
    → (elim r [
      | invalid h' ↦ done (invalid_header h')
      | complete h' ↦ done (complete_header h' pos)
      | continue h' used rest ↦ loop fuel h' (pos + used) rest
    ])
      ≡ done (scan pos h bs)
loop_round fuel h pos bs (invalid h') ih m e = rw e
loop_round fuel h pos bs (complete h') ih m e = rw e
loop_round fuel h pos bs (continue h' used rest) ih m (e, less) =
    ih h' (pos + used) rest (omega arith) ∙ rw e

-- With its measure below the fuel the loop computes the reference.
pub loop-scan : (fuel : ℕ) → LoopsTo fuel
unfolding loop
loop-scan fuel h pos [] m = unfold scan in refl
loop-scan zero h pos (b ∷ bs) m = absurd (omega arith)
loop-scan (suc fuel) h pos (b ∷ bs) m =
    loop_round fuel h pos (b ∷ bs) (round h.state h b bs) (loop-scan fuel) m
      (round-Agrees h.flags h.extra_length pos b bs h.state)

-- `ReadMore` with its bulk skips computes what the byte-by-byte reference does, from every parser
-- state and on every buffer that is shorter than 2 ^ 31 bytes; so it always returns.
pub read_more-scan :
    (h : Header) (bs : Bytes) → length bs < 2 ^ 31 → read_more h bs (length bs) ≡ done (scan 0 h bs)
unfolding read_more fuel_for
read_more-scan h bs fits =
    let all : take (length bs) bs ≡ bs = take_all (length bs) bs (omega arith) in
    rw (lt→ltb _ _ fits, all) (loop-scan (18 * suc (length bs)) h 0 bs (omega arith))
