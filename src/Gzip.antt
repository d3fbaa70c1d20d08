-- ===== src/Gzip.antt =====
-- fleetbench/compression/gzipheader.h and gzipheader.cc: the incremental parser of gzip headers.
pub mod Scan
pub mod Chunks
pub mod Layout
use fleetbench.Prelude.{
  ℕ, zero, suc, ◌+◌, ◌-◌, ◌*◌, ◌/◌, ◌%◌, ◌^◌, min, Bool, true, false, ◌&&◌, List, [], ◌∷◌, Option,
  none, some, ltb, ◌==◌, if◌then◌else◌, Bytes, length, take, drop, Run, done, fatal, stuck,
}

pub data State : Type 0 where
  in_header_id1 in_header_id2 in_header_cm in_header_flg : State
  in_header_mtime_byte_0 in_header_mtime_byte_1 in_header_mtime_byte_2 : State
  in_header_mtime_byte_3 in_header_xfl in_header_os : State
  in_xlen_byte_0 in_xlen_byte_1 in_fextra in_fname in_fcomment : State
  in_fhcrc_byte_0 in_fhcrc_byte_1 in_done : State

-- The number of a state in the enumeration: the source keeps it in an `int`.
abbrev pub number : State → ℕ
number in_header_id1 = 0
number in_header_id2 = 1
number in_header_cm = 2
number in_header_flg = 3
number in_header_mtime_byte_0 = 4
number in_header_mtime_byte_1 = 5
number in_header_mtime_byte_2 = 6
number in_header_mtime_byte_3 = 7
number in_header_xfl = 8
number in_header_os = 9
number in_xlen_byte_0 = 10
number in_xlen_byte_1 = 11
number in_fextra = 12
number in_fname = 13
number in_fcomment = 14
number in_fhcrc_byte_0 = 15
number in_fhcrc_byte_1 = 16
number in_done = 17

-- `state_++`; the last state has no successor, and the code never advances from it.
abbrev pub next : State → State
next in_header_id1 = in_header_id2
next in_header_id2 = in_header_cm
next in_header_cm = in_header_flg
next in_header_flg = in_header_mtime_byte_0
next in_header_mtime_byte_0 = in_header_mtime_byte_1
next in_header_mtime_byte_1 = in_header_mtime_byte_2
next in_header_mtime_byte_2 = in_header_mtime_byte_3
next in_header_mtime_byte_3 = in_header_xfl
next in_header_xfl = in_header_os
next in_header_os = in_xlen_byte_0
next in_xlen_byte_0 = in_xlen_byte_1
next in_xlen_byte_1 = in_fextra
next in_fextra = in_fname
next in_fname = in_fcomment
next in_fcomment = in_fhcrc_byte_0
next in_fhcrc_byte_0 = in_fhcrc_byte_1
next in_fhcrc_byte_1 = in_done
next in_done = in_done

pub record Header : Type 0 where
  pub state : State
  pub flags : ℕ
  pub extra_length : ℕ

-- `Reset`.
abbrev pub initial : Header
initial = record { state = in_header_id1; flags = 0; extra_length = 0 }

-- The bits of the flags byte, by position: FLAG_FHCRC is 2 ^ 1, and so on.
abbrev pub flag_fhcrc : ℕ
flag_fhcrc = 1

abbrev pub flag_fextra : ℕ
flag_fextra = 2

abbrev pub flag_fname : ℕ
flag_fname = 3

abbrev pub flag_fcomment : ℕ
flag_fcomment = 4

-- `flags & FLAG`, as a test.
abbrev pub has : ℕ → ℕ → Bool
has k flags = (flags / 2 ^ k) % 2 == 1

-- `flags & ~FLAG`.
abbrev pub clear : ℕ → ℕ → ℕ
clear k flags = flags - ((flags / 2 ^ k) % 2) * 2 ^ k

-- `byte & (FLAG_FHCRC | FLAG_FEXTRA | FLAG_FNAME | FLAG_FCOMMENT)`, that is, bits 1 to 4.
abbrev pub known_flags : ℕ → ℕ
known_flags byte = byte % 32 - byte % 2

-- One round of the loop: it returns, or goes on `used` bytes further with `rest` unread.
pub data Round : Type 0 where
  invalid : Header → Round
  complete : Header → Round
  continue : Header → (used : ℕ) → (rest : Bytes) → Round

abbrev pub advance : Header → Header
advance h = record h { state = next h.state }

-- `memchr`: the index of the first occurrence.
pub memchr : ℕ → Bytes → Option ℕ
memchr c [] = none
memchr c (b ∷ bs) =
    if b == c then some 0 else elim (memchr c bs) [ none ↦ none | some i ↦ some (suc i) ]

expect : ℕ → Header → ℕ → Bytes → Round
expect magic h b rest = if b == magic then continue (advance h) 1 rest else invalid h

-- `case IN_FEXTRA`, entered with `used` bytes read in this round.
skip_extra : Header → ℕ → Bytes → Round
skip_extra h used rest =
    let num_extra_bytes = min h.extra_length (length rest) in
    let left = h.extra_length - num_extra_bytes in
    continue
      (if left == 0
        then record { state = in_fname; flags = clear flag_fextra h.flags; extra_length = left }
        else record h { extra_length = left })
      (used + num_extra_bytes) (drop num_extra_bytes rest)

-- `case IN_FNAME` and `case IN_FCOMMENT` behind their guards.
skip_text : ℕ → State → Header → Bytes → Round
skip_text flag after h bytes = elim (memchr 0 bytes) [
  | some i ↦
      continue (record h { flags = clear flag h.flags; state = after }) (suc i) (drop (suc i) bytes)
  | none ↦ continue h (length bytes) []
]

-- The body of the `while` loop: the `switch` on the state, at the byte `b` with `bs` behind it.
round : State → Header → ℕ → Bytes → Round
unfolding expect skip_extra skip_text memchr
round in_header_id1 h b bs = expect 0x1f h b bs
round in_header_id2 h b bs = expect 0x8b h b bs
round in_header_cm h b bs = expect 8 h b bs
round in_header_flg h b bs = continue (record (advance h) { flags = known_flags b }) 1 bs
round in_header_mtime_byte_0 h b bs = continue (advance h) 1 bs
round in_header_mtime_byte_1 h b bs = continue (advance h) 1 bs
round in_header_mtime_byte_2 h b bs = continue (advance h) 1 bs
round in_header_mtime_byte_3 h b bs = continue (advance h) 1 bs
round in_header_xfl h b bs = continue (advance h) 1 bs
round in_header_os h b bs = continue (advance h) 1 bs
round in_xlen_byte_0 h b bs =
    if has flag_fextra h.flags
    then continue (record (advance h) { extra_length = b }) 1 bs
    else continue (record h { state = in_fname }) 0 (b ∷ bs)
round in_xlen_byte_1 h b bs =
    skip_extra (record (advance h) { extra_length = (h.extra_length + b * 2 ^ 8) % 2 ^ 16 }) 1 bs
round in_fextra h b bs = skip_extra h 0 (b ∷ bs)
round in_fname h b bs =
    if has flag_fname h.flags
    then skip_text flag_fname in_fcomment h (b ∷ bs)
    else continue (record h { state = in_fcomment }) 0 (b ∷ bs)
round in_fcomment h b bs =
    if has flag_fcomment h.flags
    then skip_text flag_fcomment in_fhcrc_byte_0 h (b ∷ bs)
    else continue (record h { state = in_fhcrc_byte_0 }) 0 (b ∷ bs)
round in_fhcrc_byte_0 h b bs =
    if has flag_fhcrc h.flags
    then continue (advance h) 1 bs
    else continue (record h { state = in_done }) 0 (b ∷ bs)
round in_fhcrc_byte_1 h b bs =
    continue (record (advance h) { flags = clear flag_fhcrc h.flags }) 1 bs
round in_done h b bs = complete h

-- What `ReadMore` returns, with the parser's state behind it; `complete_header` carries the offset
-- that `*header_end` is set to.
pub data Status : Type 0 where
  incomplete_header : Header → Status
  invalid_header : Header → Status
  complete_header : Header → ℕ → Status

-- The test behind the loop.
pub at_end : Header → ℕ → Status
at_end h pos =
    if ltb 9 (number h.state) && h.flags == 0 then complete_header h pos else incomplete_header h

pub loop : ℕ → Header → ℕ → Bytes → Run Status
loop fuel h pos [] = done (at_end h pos)
loop zero h pos (b ∷ bs) = stuck
loop (suc fuel) h pos (b ∷ bs) = elim (round h.state h b bs) [
  | invalid h' ↦ done (invalid_header h')
  | complete h' ↦ done (complete_header h' pos)
  | continue h' used rest ↦ loop fuel h' (pos + used) rest
]

-- Each round reads a byte or moves on to a later state, so this fuel is enough.
pub fuel_for : Bytes → ℕ
fuel_for bytes = 18 * suc (length bytes)

-- `ReadMore`. `inbuf_len` is the bit pattern of an `int`, and CHECK_GE stops at a negative one.
unfoldable pub read_more : Header → Bytes → ℕ → Run Status
unfolding loop round at_end fuel_for
read_more h inbuf inbuf_len =
    let bytes = take inbuf_len inbuf in
    if ltb inbuf_len (2 ^ 31) then loop (fuel_for bytes) h 0 bytes else fatal
