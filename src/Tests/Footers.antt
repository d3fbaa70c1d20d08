-- ===== src/Tests/Footers.antt =====
-- Footers and headers that are written and read again.
use fleetbench.Prelude.{
  ℕ, ◌+◌, ◌^◌, ◌≡◌, ◌↔◌, refl, true, false, [], ◌∷◌, ◌++◌, some, low32, done, arith,
}
use fleetbench.Zlib.State.{ZLib}
use fleetbench.Zlib.Call.{gzip_header_bytes, footer_bytes}
use fleetbench.Zlib.UncompressHeader.{read_footer}
use fleetbench.Zlib.Footer.{is_gzip_footer_valid, gzip_uncompressed_length, has_gzip_header}
use fleetbench.Zlib.Footer.Written.{
  is_gzip_footer_valid-written, gzip_uncompressed_length-written, has_gzip_header-written,
}
use fleetbench.Zlib.Footer.Pieces.{read_footer-append}
use fleetbench.Tests.Compressor.{fresh}

abbrev sender : ZLib ℕ
sender = record fresh { crc = 0x01020304; uncompressed_size = 2 ^ 32 + 5 }

abbrev receiver : ZLib ℕ
receiver = record fresh {
  crc = 0x01020304;
  uncompressed_size = 5;
  gzip_footer = 4 ∷ 3 ∷ 2 ∷ 1 ∷ 5 ∷ 0 ∷ 0 ∷ 0 ∷ [];
  gzip_footer_bytes = some 8;
}

footer_sent : receiver.gzip_footer ≡ footer_bytes sender
unfolding footer_bytes
footer_sent = refl

is_gzip_footer_valid-written_example : (is_gzip_footer_valid receiver ≡ true) ↔ (
    (receiver.crc ≡ sender.crc)
    × (low32 receiver.uncompressed_size ≡ low32 sender.uncompressed_size))
is_gzip_footer_valid-written_example =
    is_gzip_footer_valid-written sender receiver (omega arith) footer_sent refl

gzip_uncompressed_length-written_example :
    gzip_uncompressed_length ((7 ∷ 8 ∷ []) ++ footer_bytes sender) 10 ≡ 5
gzip_uncompressed_length-written_example = gzip_uncompressed_length-written sender (7 ∷ 8 ∷ [])

has_gzip_header-written_example : has_gzip_header (gzip_header_bytes ++ 1 ∷ 2 ∷ []) 12 ≡ done true
has_gzip_header-written_example = has_gzip_header-written (1 ∷ 2 ∷ []) (omega arith)

read_footer-append_example :
    read_footer false (read_footer false fresh 0 9 (4 ∷ 3 ∷ []) 2).zlib 2 9 (2 ∷ 1 ∷ 5 ∷ []) 3
    ≡ read_footer false fresh 0 9 (4 ∷ 3 ∷ 2 ∷ 1 ∷ 5 ∷ []) 5
read_footer-append_example =
    read_footer-append false fresh 0 9 (4 ∷ 3 ∷ []) (2 ∷ 1 ∷ 5 ∷ []) refl (omega arith)
