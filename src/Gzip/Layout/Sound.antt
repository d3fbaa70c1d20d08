-- ===== src/Gzip/Layout/Sound.antt =====
-- Whatever gzipheader.cc accepts as a complete header is one, and ends where it says.
use fleetbench.Prelude.{
  ℕ, suc, ◌+◌, ◌-◌, ◌*◌, ◌/◌, ◌%◌, ◌^◌, ◌<◌, ◌≤◌, min, Bool, true, false, [], ◌∷◌, ◌++◌,
  append_assoc, ◌==◌, Bytes, length, length-append, length-take, drop, take, take-append-drop,
  drop_all, done, ◌≡◌, ◌≢◌, refl, arith, Bool-cases, sym, ◌∙◌, inl, inr, ap,
}
use native.Mathlib.Decide.{dec_lt}
use fleetbench.Gzip.{
  State, in_xlen_byte_0, in_xlen_byte_1, in_fextra, in_fname, in_fcomment, in_fhcrc_byte_0,
  in_fhcrc_byte_1, in_done, Header, initial, flag_fhcrc, flag_fextra, flag_fname, flag_fcomment,
  has, clear, known_flags, at_end, complete_header, read_more,
}
use fleetbench.Gzip.Scan.{
  settle, take_byte, end_extra, scan, scan_extra, EatsText, scan_fname-EatsText,
  scan_fcomment-EatsText, read_more-scan,
}
use fleetbench.Gzip.Chunks.{scan_drained}
use fleetbench.Gzip.Layout.{IsExtra, IsText, IsCrc, NoNul, fixed_part, IsHeader}
use fleetbench.Gzip.Layout.Ends.{
  EndsAt, EndsAt-skip, settle_no_extra, settle_no_name, settle_no_comment, clear_off,
  scan-fixed_part, scan_length, scan_crc, flags_behind, has-Reads,
}

-- With a flag left, the end of the bytes is not the end of the header.
not_at_end :
    (pos f x n : ℕ) (s : State)
    → f ≢ 0
    → EndsAt pos (record { state = s; flags = f; extra_length = x }) [] n
    → ⊥
unfolding scan at_end
not_at_end pos f x n s some_left (k, e) = ground arith

on-ne-zero : (k f : ℕ) → has k f ≡ true → f ≢ 0
on-ne-zero k f on zero_flags = let e : (f / 2 ^ k) % 2 ≡ 1 = ground arith in omega arith

IsCrc-sound :
    (pos f x n : ℕ) (on : Bool) (bs : Bytes)
    → has flag_fhcrc f ≡ on
    → f ≡ 2 * ((f / 2) % 2)
    → EndsAt pos (record { state = in_fhcrc_byte_0; flags = f; extra_length = x }) bs n
    → (crc : Bytes) × (rest : Bytes) × IsCrc on crc × (bs ≡ crc ++ rest) × (n ≡ pos + length crc)
IsCrc-sound pos f x n false bs off only (k, e) =
    let (k', d) =
      scan_drained bs pos (record { state = in_fhcrc_byte_0; flags = f; extra_length = x }) tt
        (ground arith) in
    ([], bs, IsCrc.absent, refl, ground arith)
IsCrc-sound pos f x n true [] on only e =
    absurd (not_at_end pos f x n in_fhcrc_byte_0 (on-ne-zero flag_fhcrc f on) e)
IsCrc-sound pos f x n true (b ∷ []) on only (k, e) = absurd (
    not_at_end (pos + 1) f x n in_fhcrc_byte_1 (on-ne-zero flag_fhcrc f on)
      (k, unfold scan settle take_byte in ground arith))
IsCrc-sound pos f x n true (lo ∷ hi ∷ rest) on only (k, e) =
    let (k', d) =
      scan_drained rest (pos + 1 + 1)
        (record { state = in_done; flags = clear flag_fhcrc f; extra_length = x }) tt
        (ground arith) in
    let s = scan_crc pos f x lo hi rest on in
    (lo ∷ hi ∷ [], rest, IsCrc.present lo hi, refl, ground arith)

module _ (inside after : Header) (eats : EatsText inside after) where
  text_sound :
      (bs : Bytes) (pos n : ℕ)
      → ((p : ℕ) → EndsAt p inside [] n → ⊥)
      → EndsAt pos inside bs n
      → (text : Bytes) × (rest : Bytes) × NoNul text
        × (bs ≡ (text ++ 0 ∷ []) ++ rest)
        × EndsAt (pos + length (text ++ 0 ∷ [])) after rest n
  text_sound [] pos n more e = absurd (more pos e)
  text_sound (b ∷ bs) pos n more (k, e) = elim (Bool-cases (b == 0)) [
    | inl nul ↦
        let z : b ≡ 0 = ground arith in ([], bs, tt, rw z, (k, rw nul at (sym (eats b bs pos) ∙ e)))
    | inr text ↦
        let (t, r, clean, split, tail) =
          text_sound bs (pos + 1) n more (k, rw text at (sym (eats b bs pos) ∙ e)) in
        let p : pos + suc (length (t ++ 0 ∷ [])) ≡ pos + 1 + length (t ++ 0 ∷ []) = omega arith in
        (b ∷ t, r, (ground arith, clean), ap (◌∷◌ b) split, rw p tail)
  ]

comment_sound :
    (pos f x n : ℕ) (on : Bool) (bs : Bytes)
    → has flag_fcomment f ≡ on
    → EndsAt pos (record { state = in_fcomment; flags = f; extra_length = x }) bs n
    → (text : Bytes) × (rest : Bytes) × IsText on text
      × (bs ≡ text ++ rest)
      × EndsAt
          (pos + length text)
          (record { state = in_fhcrc_byte_0; flags = clear flag_fcomment f; extra_length = x })
          rest
          n
comment_sound pos f x n false bs off e =
    let p : pos + 0 ≡ pos = omega arith in
    (
      [],
      bs,
      IsText.absent,
      refl,
      rw (clear_off flag_fcomment f off, p)
          (EndsAt-skip pos f x in_fhcrc_byte_0 in_fcomment bs n (omega arith) (omega arith)
            (sym (settle_no_comment f x off)) e),
    )
comment_sound pos f x n true bs on e =
    let (t, r, clean, split, tail) =
      text_sound _ _ (scan_fcomment-EatsText f x on) bs pos n
        (λ p. not_at_end p f x n in_fcomment (on-ne-zero flag_fcomment f on)) e in
    (t ++ 0 ∷ [], r, IsText.present t clean, split, tail)

name_sound :
    (pos f x n : ℕ) (on : Bool) (bs : Bytes)
    → has flag_fname f ≡ on
    → EndsAt pos (record { state = in_fname; flags = f; extra_length = x }) bs n
    → (text : Bytes) × (rest : Bytes) × IsText on text
      × (bs ≡ text ++ rest)
      × EndsAt
          (pos + length text)
          (record { state = in_fcomment; flags = clear flag_fname f; extra_length = x })
          rest
          n
name_sound pos f x n false bs off e =
    let p : pos + 0 ≡ pos = omega arith in
    (
      [],
      bs,
      IsText.absent,
      refl,
      rw (clear_off flag_fname f off, p)
          (EndsAt-skip pos f x in_fcomment in_fname bs n (omega arith) (omega arith)
            (sym (settle_no_name f x off)) e),
    )
name_sound pos f x n true bs on e =
    let (t, r, clean, split, tail) =
      text_sound _ _ (scan_fname-EatsText f x on) bs pos n
        (λ p. not_at_end p f x n in_fname (on-ne-zero flag_fname f on)) e in
    (t ++ 0 ∷ [], r, IsText.present t clean, split, tail)

-- The extra field cannot end before its `len` bytes.
body_sound :
    (pos f len n : ℕ) (bs : Bytes)
    → has flag_fextra f ≡ true
    → EndsAt pos (end_extra (record { state = in_fextra; flags = f; extra_length = len })) bs n
    → (len ≤ length bs)
      × EndsAt
          (pos + len)
          (record { state = in_fname; flags = clear flag_fextra f; extra_length = 0 })
          (drop len bs)
          n
unfolding end_extra
body_sound pos f len n bs on (k, e) = elim (dec_lt (length bs) len) [
  | yes short ↦
      let m : min len (length bs) ≡ length bs = omega arith in
      let z : (len - length bs == 0) ≡ false = ground arith in
      absurd (
        not_at_end (pos + length bs) f (len - length bs) n in_fextra (on-ne-zero flag_fextra f on) (
          k,
          rw (m, drop_all (length bs) bs (omega arith), z) at (sym (scan_extra bs pos f len) ∙ e),
        ))
  | no enough ↦
      let m : min len (length bs) ≡ len = omega arith in
      let z : len - len ≡ 0 = omega arith in
      (omega arith, (k, rw (m, z) at (sym (scan_extra bs pos f len) ∙ e)))
]

IsExtra-sound :
    (pos f x n : ℕ) (on : Bool) (bs : Bytes)
    → has flag_fextra f ≡ on
    → EndsAt pos (record { state = in_xlen_byte_0; flags = f; extra_length = x }) bs n
    → (extra : Bytes) × (rest : Bytes) × (x' : ℕ) × IsExtra on extra
      × (bs ≡ extra ++ rest)
      × EndsAt
          (pos + length extra)
          (record { state = in_fname; flags = clear flag_fextra f; extra_length = x' })
          rest
          n
IsExtra-sound pos f x n false bs off e =
    let p : pos + 0 ≡ pos = omega arith in
    (
      [],
      bs,
      x,
      IsExtra.absent,
      refl,
      rw (clear_off flag_fextra f off, p)
          (EndsAt-skip pos f x in_fname in_xlen_byte_0 bs n (omega arith) (omega arith)
            (sym (settle_no_extra f x off)) e),
    )
IsExtra-sound pos f x n true [] on e =
    absurd (not_at_end pos f x n in_xlen_byte_0 (on-ne-zero flag_fextra f on) e)
IsExtra-sound pos f x n true (lo ∷ []) on (k, e) = absurd (
    not_at_end (pos + 1) f lo n in_xlen_byte_1 (on-ne-zero flag_fextra f on)
      (k, unfold scan settle take_byte in ground arith))
IsExtra-sound pos f x n true (lo ∷ hi ∷ bs) on (k, e) =
    let len = (lo + hi * 2 ^ 8) % 2 ^ 16 in
    let (enough, tail) =
      body_sound (pos + 1 + 1) f len n bs on (k, sym (scan_length pos f x lo hi bs on) ∙ e) in
    let size : length (take len bs) ≡ len = omega (arith, length-take len bs) in
    let p : pos + suc (suc len) ≡ pos + 1 + 1 + len = omega arith in
    (
      lo ∷ hi ∷ take len bs,
      drop len bs,
      0,
      IsExtra.present lo hi (take len bs) size,
      ap (λ t. lo ∷ hi ∷ t) (sym (take-append-drop len bs)),
      rw (size, p) tail,
    )

-- The first ten bytes.
record StartsFixed (n : ℕ) (bs : Bytes) : Type 0 where
  flg : ℕ
  m0 : ℕ
  m1 : ℕ
  m2 : ℕ
  m3 : ℕ
  xfl : ℕ
  os : ℕ
  rest : Bytes
  starts : bs ≡ fixed_part flg m0 m1 m2 m3 xfl os rest
  later :
      EndsAt 10
        (record { state = in_xlen_byte_0; flags = known_flags flg; extra_length = 0 })
        rest
        n

magic_sound :
    (a b c flg m0 m1 m2 m3 xfl os n : ℕ) (rest : Bytes)
    → EndsAt 0 initial (a ∷ b ∷ c ∷ flg ∷ m0 ∷ m1 ∷ m2 ∷ m3 ∷ xfl ∷ os ∷ rest) n
    → (a ≡ 0x1f) × (b ≡ 0x8b) × (c ≡ 8)
unfolding scan settle take_byte
magic_sound a b c flg m0 m1 m2 m3 xfl os n rest (k, e) = ground arith

fixed_sound : (bs : Bytes) (n : ℕ) → EndsAt 0 initial bs n → StartsFixed n bs
fixed_sound (a ∷ b ∷ c ∷ flg ∷ m0 ∷ m1 ∷ m2 ∷ m3 ∷ xfl ∷ os ∷ rest) n (k, e) =
    let (p, q, r) = magic_sound a b c flg m0 m1 m2 m3 xfl os n rest (k, e) in
    record {
      flg = flg;
      m0 = m0;
      m1 = m1;
      m2 = m2;
      m3 = m3;
      xfl = xfl;
      os = os;
      rest = rest;
      starts = rw (p, q, r);
      later = (k, sym (scan-fixed_part flg m0 m1 m2 m3 xfl os rest) ∙ rw (p, q, r) at e);
    }
fixed_sound _ n (k, e) = absurd (unfold scan settle take_byte at_end in ground arith)

-- What is found behind the fixed part, read off the flags byte.
record Fields (flg n : ℕ) (bs : Bytes) : Type 0 where
  extra : Bytes
  name : Bytes
  comment : Bytes
  crc : Bytes
  rest : Bytes
  extra_ok : IsExtra (has flag_fextra flg) extra
  name_ok : IsText (has flag_fname flg) name
  comment_ok : IsText (has flag_fcomment flg) comment
  crc_ok : IsCrc (has flag_fhcrc flg) crc
  split : bs ≡ extra ++ (name ++ (comment ++ (crc ++ rest)))
  end_at : n ≡ 10 + length extra + length name + length comment + length crc

Fields-sound :
    (flg n : ℕ) (bs : Bytes)
    → EndsAt 10 (record { state = in_xlen_byte_0; flags = known_flags flg; extra_length = 0 }) bs n
    → Fields flg n bs
Fields-sound flg n bs e =
    let (r0, r1, r2, r3, only) = flags_behind flg in
    let (extra, bs1, x, extra_ok, s0, e1) =
      IsExtra-sound 10 _ 0 n _ bs (has-Reads flag_fextra _ flg r0) e in
    let (name, bs2, name_ok, s1, e2) =
      name_sound _ _ x n _ bs1 (has-Reads flag_fname _ flg r1) e1 in
    let (comment, bs3, comment_ok, s2, e3) =
      comment_sound _ _ x n _ bs2 (has-Reads flag_fcomment _ flg r2) e2 in
    let (crc, rest, crc_ok, s3, end_at) =
      IsCrc-sound _ _ x n _ bs3 (has-Reads flag_fhcrc _ flg r3) only e3 in
    record {
      extra = extra;
      name = name;
      comment = comment;
      crc = crc;
      rest = rest;
      extra_ok = extra_ok;
      name_ok = name_ok;
      comment_ok = comment_ok;
      crc_ok = crc_ok;
      split = s0 ∙ ap (◌++◌ extra) (s1 ∙ ap (◌++◌ name) (s2 ∙ ap (◌++◌ comment) s3));
      end_at = end_at;
    }

header_sound :
    (bs : Bytes) (n : ℕ)
    → EndsAt 0 initial bs n
    → (bytes : Bytes) × (rest : Bytes) × IsHeader bytes × (bs ≡ bytes ++ rest) × (n ≡ length bytes)
header_sound bs n e =
    let s = fixed_sound bs n e in
    let f = Fields-sound s.flg n s.rest s.later in
    let behind = f.extra ++ (f.name ++ (f.comment ++ f.crc)) in
    let regroup : f.extra ++ (f.name ++ (f.comment ++ (f.crc ++ f.rest))) ≡ behind ++ f.rest =
      simp append_assoc in
    (
      fixed_part s.flg s.m0 s.m1 s.m2 s.m3 s.xfl s.os behind,
      f.rest,
      record {
        flg = s.flg;
        m0 = s.m0;
        m1 = s.m1;
        m2 = s.m2;
        m3 = s.m3;
        xfl = s.xfl;
        os = s.os;
        extra = f.extra;
        name = f.name;
        comment = f.comment;
        crc = f.crc;
        extra_ok = f.extra_ok;
        name_ok = f.name_ok;
        comment_ok = f.comment_ok;
        crc_ok = f.crc_ok;
        whole = refl;
      },
      s.starts ∙ ap (fixed_part s.flg s.m0 s.m1 s.m2 s.m3 s.xfl s.os) (f.split ∙ regroup),
      omega (
        arith,
        f.end_at,
        length-append f.extra (f.name ++ (f.comment ++ f.crc)),
        length-append f.name (f.comment ++ f.crc),
        length-append f.comment f.crc,
      ),
    )

-- Whatever `ReadMore` accepts from the start as a complete header begins with a header of the
-- layout, and the offset that it returns is that header's length. (The buffer is shorter than
-- 2 ^ 31 bytes.)
pub read_more-IsHeader :
    (bs : Bytes) (k : Header) (n : ℕ)
    → length bs < 2 ^ 31
    → read_more initial bs (length bs) ≡ done (complete_header k n)
    → (bytes : Bytes) × (rest : Bytes) × IsHeader bytes × (bs ≡ bytes ++ rest) × (n ≡ length bytes)
read_more-IsHeader bs k n fits e = header_sound bs n (k, cc (read_more-scan initial bs fits))
