-- ===== src/Tests/Headers.antt =====
-- The gzip header parser on concrete headers.
use fleetbench.Prelude.{◌≡◌, refl, ap, ◌∙◌, [], ◌∷◌, ◌++◌, Bytes, length, take, drop, done, arith}
use fleetbench.Gzip.{
  Header, in_header_mtime_byte_1, initial, read_more, incomplete_header, complete_header,
}
use fleetbench.Gzip.Scan.{scan, settle, take_byte, read_more-scan}
use fleetbench.Gzip.Chunks.{initial-IsValid, Continues, read_more-append}
use fleetbench.Gzip.Layout.{IsHeader, absent, present}
use fleetbench.Gzip.Layout.Accepts.{IsHeader-accepted}
use fleetbench.Gzip.Layout.Sound.{read_more-IsHeader}

-- A header with an extra field of two bytes and the name "a".
abbrev named : Bytes
named = 0x1f ∷ 0x8b ∷ 8 ∷ 12 ∷ 0 ∷ 0 ∷ 0 ∷ 0 ∷ 0 ∷ 3 ∷ 2 ∷ 0 ∷ 7 ∷ 8 ∷ 97 ∷ 0 ∷ []

abbrev named-IsHeader : IsHeader named
named-IsHeader = record {
  flg = 12;
  m0 = 0;
  m1 = 0;
  m2 = 0;
  m3 = 0;
  xfl = 0;
  os = 3;
  extra = 2 ∷ 0 ∷ 7 ∷ 8 ∷ [];
  name = 97 ∷ 0 ∷ [];
  comment = [];
  crc = [];
  extra_ok = present 2 0 (7 ∷ 8 ∷ []) refl;
  name_ok = present (97 ∷ []) (omega arith, tt);
  comment_ok = absent;
  crc_ok = absent;
  whole = refl;
}

read_more-scan_example : read_more initial named 16 ≡ done (scan 0 initial named)
read_more-scan_example = read_more-scan initial named (omega arith)

IsHeader-accepted_example :
    (k : Header) × (read_more initial (named ++ 1 ∷ 2 ∷ []) 18 ≡ done (complete_header k 16))
IsHeader-accepted_example = IsHeader-accepted named (1 ∷ 2 ∷ []) named-IsHeader (omega arith)

-- The parser behind the first five bytes.
abbrev behind_five : Header
behind_five = record { state = in_header_mtime_byte_1; flags = 12; extra_length = 0 }

five_scanned : scan 0 initial (take 5 named) ≡ incomplete_header behind_five
unfolding scan settle take_byte
five_scanned = refl

five_read : read_more initial (take 5 named) 5 ≡ done (incomplete_header behind_five)
five_read = read_more-scan initial (take 5 named) (omega arith) ∙ ap done five_scanned

read_more-append_example :
    Continues initial (take 5 named) (drop 5 named) (incomplete_header behind_five)
read_more-append_example =
    read_more-append initial (take 5 named) (drop 5 named) initial-IsValid (omega arith)
      (incomplete_header behind_five) five_read

named_read : (k : Header) × (read_more initial named 16 ≡ done (complete_header k 16))
named_read = IsHeader-accepted named [] named-IsHeader (omega arith)

read_more-IsHeader_example :
    (bytes : Bytes) × (rest : Bytes) × IsHeader bytes
    × (named ≡ bytes ++ rest)
    × (16 ≡ length bytes)
read_more-IsHeader_example = read_more-IsHeader named named_read.0 16 (omega arith) named_read.1
