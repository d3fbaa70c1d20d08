-- ===== src/Zlib/Footer/Written.antt =====
-- zlibwrapper.cc: the header and footer that compress mode writes are what uncompress mode reads.
use fleetbench.Prelude.{
  ℕ, zero, suc, ◌+◌, ◌-◌, ◌/◌, ◌%◌, ◌^◌, ◌≡◌, ◌<◌, ◌↔◌, refl, ap, true, false, List, [], ◌∷◌, ◌++◌,
  some, Bytes, length, get_or, leb, if_cases, low32, Run, done, ◌>>=◌, arith,
}
use fleetbench.Gzip.{Status, complete_header}
use fleetbench.Gzip.Layout.{IsHeader, absent}
use fleetbench.Gzip.Layout.Accepts.{IsHeader-accepted}
use fleetbench.Zlib.State.{ZLib}
use fleetbench.Zlib.Call.{gzip_header_bytes, footer_bytes}
use fleetbench.Zlib.Footer.{
  from_little_endian, is_gzip_footer_complete, is_gzip_footer_valid, gzip_uncompressed_length,
  has_gzip_header,
}

pub little_endian_value :
    (v : ℕ)
    → from_little_endian (v / 2 ^ 0 % 256) (v / 2 ^ 8 % 256) (v / 2 ^ 16 % 256) (v / 2 ^ 24 % 256)
      ≡ low32 v
little_endian_value v = omega arith

get_or-append_back {ℓ} :
    {A : Type ℓ} (front back : List A) (i n : ℕ) (d : A)
    → i ≡ length front + n
    → get_or (front ++ back) i d ≡ get_or back n d
get_or-append_back [] back i n d e = ap (λ m. get_or back m d) (omega (arith, e))
get_or-append_back (x ∷ front) back zero n d e = absurd (omega arith)
get_or-append_back (x ∷ front) back (suc i) n d e =
    get_or-append_back front back i n d (omega arith)

module _ {I : Type 0} where
  -- A complete footer that an object with a 32-bit checksum has written is valid exactly for the
  -- objects with the same checksum and the same length modulo 2^32.
  pub is_gzip_footer_valid-written :
      (from to : ZLib I)
      → from.crc < 2 ^ 32
      → to.gzip_footer ≡ footer_bytes from
      → to.gzip_footer_bytes ≡ some 8
      → (is_gzip_footer_valid to ≡ true)
        ↔ ((to.crc ≡ from.crc) × (low32 to.uncompressed_size ≡ low32 from.uncompressed_size))
  unfolding is_gzip_footer_valid is_gzip_footer_complete footer_bytes
  is_gzip_footer_valid-written from to small e b =
      rw (e, b, little_endian_value from.crc, little_endian_value from.uncompressed_size)
        (ground arith)

  -- The length that is read from the end of an image is the one that its footer was written with,
  -- modulo 2^32.
  pub gzip_uncompressed_length-written :
      (from : ZLib I) (front : Bytes)
      → gzip_uncompressed_length (front ++ footer_bytes from) (length front + 8)
        ≡ low32 from.uncompressed_size
  unfolding gzip_uncompressed_length footer_bytes
  gzip_uncompressed_length-written from front =
      let back = footer_bytes from in
      let end = length front + 8 in
      let at : (i n : ℕ)
          → end - i ≡ length front + n
          → get_or (front ++ back) (end - i) 0 ≡ get_or back n 0 =
        λ i n e. get_or-append_back front back (end - i) n 0 e in
      if_cases (λ v. v ≡ low32 from.uncompressed_size) (leb end 4) _ _
        (λ short. absurd (ground arith))
        (λ _.
          rw
            (at 4 4 (omega arith), at 3 5 (omega arith), at 2 6 (omega arith), at 1 7 (omega arith))
            (little_endian_value from.uncompressed_size))

pub gzip_header_bytes-IsHeader : IsHeader gzip_header_bytes
gzip_header_bytes-IsHeader = record {
  flg = 0;
  m0 = 0;
  m1 = 0;
  m2 = 0;
  m3 = 0;
  xfl = 2;
  os = 255;
  extra = [];
  name = [];
  comment = [];
  crc = [];
  extra_ok = absent;
  name_ok = absent;
  comment_ok = absent;
  crc_ok = absent;
  whole = refl;
}

-- What begins with the header that compress mode writes has a gzip header. (The buffer is shorter than
-- 2^31 bytes.)
pub has_gzip_header-written :
    (rest : Bytes)
    → length (gzip_header_bytes ++ rest) < 2 ^ 31
    → has_gzip_header (gzip_header_bytes ++ rest) (length (gzip_header_bytes ++ rest)) ≡ done true
unfolding has_gzip_header
has_gzip_header-written rest fits =
    let (k, e) = IsHeader-accepted gzip_header_bytes rest gzip_header_bytes-IsHeader fits in
    ap
      (λ (o : Run Status).
        o >>= λ status. done (elim status [ complete_header h n ↦ true | _ ↦ false ]))
      e
