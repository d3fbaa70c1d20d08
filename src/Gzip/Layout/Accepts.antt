-- ===== src/Gzip/Layout/Accepts.antt =====
-- gzipheader.cc accepts every header of the layout, and finds its end.
use fleetbench.Prelude.{
  ℕ, suc, ◌+◌, ◌-◌, ◌*◌, ◌/◌, ◌%◌, ◌^◌, ◌<◌, min, Bool, [], ◌∷◌, ◌++◌, append_assoc, some, Bytes,
  length, length-append, drop, drop-append, done, ◌≡◌, refl, arith, ◌∙◌, ap,
}
use fleetbench.Gzip.{
  in_xlen_byte_0, in_fextra, in_fname, in_fcomment, in_fhcrc_byte_0, in_done, Header, initial,
  flag_fhcrc, flag_fextra, flag_fname, flag_fcomment, has, clear, known_flags, memchr,
  complete_header, read_more,
}
use fleetbench.Gzip.Scan.{
  end_extra, scan_extra, scan_text, EatsText, scan_fname-EatsText, scan_fcomment-EatsText,
  read_more-scan,
}
use fleetbench.Gzip.Chunks.{scan_drained}
use fleetbench.Gzip.Layout.{IsExtra, IsText, IsCrc, NoNul, IsHeader}
use fleetbench.Gzip.Layout.Ends.{
  EndsAt, EndsAt-skip, flags_behind, has-Reads, settle_no_extra, settle_no_name, settle_no_comment,
  clear_off, scan-fixed_part, scan_length, scan_crc,
}

memchr-append : (t r : Bytes) → NoNul t → memchr 0 (t ++ 0 ∷ r) ≡ some (length t)
unfolding memchr
memchr-append [] r n = refl
memchr-append (b ∷ t) r n = ground (arith, memchr-append t r n.1)

drop_past : (t : Bytes) (b : ℕ) (r : Bytes) → drop (suc (length t)) (t ++ b ∷ r) ≡ r
drop_past [] b r = refl
drop_past (x ∷ t) b r = drop_past t b r

crc_ends :
    (pos f x : ℕ) {on : Bool} (crc rest : Bytes)
    → has flag_fhcrc f ≡ on
    → f ≡ 2 * ((f / 2) % 2)
    → IsCrc on crc
    → EndsAt pos
        (record { state = in_fhcrc_byte_0; flags = f; extra_length = x })
        (crc ++ rest)
        (pos + length crc)
crc_ends pos f x _ rest off only IsCrc.absent =
    let p : pos + 0 ≡ pos = omega arith in rw p (scan_drained rest pos _ tt (ground arith))
crc_ends pos f x _ rest on only (IsCrc.present lo hi) =
    let p : pos + 2 ≡ pos + 1 + 1 = omega arith in
    let (k, e) =
      scan_drained rest (pos + 1 + 1)
        (record { state = in_done; flags = clear flag_fhcrc f; extra_length = x }) tt
        (ground arith) in
    rw p (k, scan_crc pos f x lo hi rest on ∙ e)

text_ends :
    (inside after : Header) (pos n : ℕ) (text rest : Bytes)
    → EatsText inside after
    → NoNul text
    → EndsAt (pos + length (text ++ 0 ∷ [])) after rest n
    → EndsAt pos inside ((text ++ 0 ∷ []) ++ rest) n
text_ends inside after pos n text rest eats clean (k, e) =
    let p : pos + length (text ++ 0 ∷ []) ≡ pos + suc (length text) =
      omega (arith, length-append text (0 ∷ [])) in
    rw append_assoc (
      k,
      scan_text inside after (text ++ 0 ∷ rest) pos eats
          ∙ rw (memchr-append text rest clean, drop_past text 0 rest, ← p) e,
    )

comment_ends :
    (pos f x n : ℕ) {on : Bool} (text rest : Bytes)
    → has flag_fcomment f ≡ on
    → IsText on text
    → EndsAt
        (pos + length text)
        (record { state = in_fhcrc_byte_0; flags = clear flag_fcomment f; extra_length = x })
        rest
        n
    → EndsAt pos (record { state = in_fcomment; flags = f; extra_length = x }) (text ++ rest) n
comment_ends pos f x n _ rest off IsText.absent e =
    let p : pos + 0 ≡ pos = omega arith in
    EndsAt-skip pos f x in_fcomment in_fhcrc_byte_0 rest n (omega arith) (omega arith)
      (settle_no_comment f x off) (rw (clear_off flag_fcomment f off, p) at e)
comment_ends pos f x n _ rest on (IsText.present text clean) e =
    text_ends _ _ pos n text rest (scan_fcomment-EatsText f x on) clean e

name_ends :
    (pos f x n : ℕ) {on : Bool} (text rest : Bytes)
    → has flag_fname f ≡ on
    → IsText on text
    → EndsAt
        (pos + length text)
        (record { state = in_fcomment; flags = clear flag_fname f; extra_length = x })
        rest
        n
    → EndsAt pos (record { state = in_fname; flags = f; extra_length = x }) (text ++ rest) n
name_ends pos f x n _ rest off IsText.absent e =
    let p : pos + 0 ≡ pos = omega arith in
    EndsAt-skip pos f x in_fname in_fcomment rest n (omega arith) (omega arith)
      (settle_no_name f x off) (rw (clear_off flag_fname f off, p) at e)
name_ends pos f x n _ rest on (IsText.present text clean) e =
    text_ends _ _ pos n text rest (scan_fname-EatsText f x on) clean e

body_ends :
    (pos f n len : ℕ) (body rest : Bytes)
    → length body ≡ len
    → EndsAt
        (pos + length body)
        (record { state = in_fname; flags = clear flag_fextra f; extra_length = 0 })
        rest
        n
    → EndsAt pos
        (end_extra (record { state = in_fextra; flags = f; extra_length = len }))
        (body ++ rest)
        n
unfolding end_extra
body_ends pos f n len body rest size (k, e) =
    let m : min len (length (body ++ rest)) ≡ length body =
      omega (arith, length-append body rest) in
    let z : len - length body ≡ 0 = omega arith in
    (k, scan_extra (body ++ rest) pos f len ∙ rw (m, z, drop-append body rest) e)

extra_ends :
    (pos f x n : ℕ) {on : Bool} (extra rest : Bytes)
    → has flag_fextra f ≡ on
    → IsExtra on extra
    → ((x' : ℕ)
        → EndsAt
            (pos + length extra)
            (record { state = in_fname; flags = clear flag_fextra f; extra_length = x' })
            rest
            n)
    → EndsAt pos (record { state = in_xlen_byte_0; flags = f; extra_length = x }) (extra ++ rest) n
extra_ends pos f x n _ rest off IsExtra.absent e =
    let p : pos + 0 ≡ pos = omega arith in
    EndsAt-skip pos f x in_xlen_byte_0 in_fname rest n (omega arith) (omega arith)
      (settle_no_extra f x off) (rw (clear_off flag_fextra f off, p) at (e x))
extra_ends pos f x n _ rest on (IsExtra.present lo hi body size) e =
    let p : pos + suc (suc (length body)) ≡ pos + 1 + 1 + length body = omega arith in
    let (k, d) = body_ends (pos + 1 + 1) f n _ body rest size (rw p at (e 0)) in
    (k, scan_length pos f x lo hi (body ++ rest) on ∙ d)

fields_end :
    (flg : ℕ) (extra name comment crc rest : Bytes)
    → IsExtra (has flag_fextra flg) extra
    → IsText (has flag_fname flg) name
    → IsText (has flag_fcomment flg) comment
    → IsCrc (has flag_fhcrc flg) crc
    → EndsAt 10
        (record { state = in_xlen_byte_0; flags = known_flags flg; extra_length = 0 })
        (extra ++ (name ++ (comment ++ (crc ++ rest))))
        (10 + length extra + length name + length comment + length crc)
fields_end flg extra name comment crc rest e n c h =
    let (r0, r1, r2, r3, only) = flags_behind flg in
    extra_ends 10 _ 0 _ extra _ (has-Reads flag_fextra _ flg r0) e (λ x.
      name_ends _ _ x _ name _ (has-Reads flag_fname _ flg r1) n (
        comment_ends _ _ x _ comment _ (has-Reads flag_fcomment _ flg r2) c
          (crc_ends _ _ x crc rest (has-Reads flag_fhcrc _ flg r3) only h)))

-- Every header of the layout is accepted, whatever bytes follow it, and its end is found exactly.
-- (The buffer is shorter than 2 ^ 31 bytes.)
pub IsHeader-accepted :
    (bytes rest : Bytes)
    → IsHeader bytes
    → length (bytes ++ rest) < 2 ^ 31
    → (k : Header) × (read_more initial (bytes ++ rest) (length (bytes ++ rest))
        ≡ done (complete_header k (length bytes)))
IsHeader-accepted bytes rest h fits =
    let (k, e) =
      fields_end h.flg h.extra h.name h.comment h.crc rest h.extra_ok h.name_ok h.comment_ok
        h.crc_ok in
    let size : length bytes
        ≡ 10 + length h.extra + length h.name + length h.comment + length h.crc =
      omega (
        arith,
        ap length h.whole,
        length-append h.extra (h.name ++ (h.comment ++ h.crc)),
        length-append h.name (h.comment ++ h.crc),
        length-append h.comment h.crc,
      ) in
    (
      k,
      rw (read_more-scan initial (bytes ++ rest) fits, size)
          (rw h.whole (
            simp append_assoc
              (ap done (scan-fixed_part h.flg h.m0 h.m1 h.m2 h.m3 h.xfl h.os _ ∙ e)))),
    )
