-- ===== src/Gzip/Layout.antt =====
-- The layout of a gzip header (RFC 1952), as the comments of gzipheader.h refer to it: a description
-- of the accepted bytes that is independent of the parser in gzipheader.cc.
mod Ends
pub mod Accepts
pub mod Sound
use fleetbench.Prelude.{
  ℕ, suc, ◌+◌, ◌*◌, ◌%◌, ◌^◌, Bool, true, false, List, [], ◌∷◌, ◌++◌, ◌≡◌, ◌≢◌, Bytes, length,
}
use fleetbench.Gzip.{flag_fhcrc, flag_fextra, flag_fname, flag_fcomment, has}

-- The extra field: a two-byte little-endian length, and that many bytes.
pub data IsExtra : Bool → Bytes → Type 0 where
  absent : IsExtra false []
  present :
      (lo hi : ℕ) (body : Bytes)
      → length body ≡ (lo + hi * 2 ^ 8) % 2 ^ 16
      → IsExtra true (lo ∷ hi ∷ body)

abbrev pub NoNul : Bytes → Type 0
NoNul [] = Unit
NoNul (b ∷ bs) = (b ≢ 0) × NoNul bs

-- The file name, and the comment: text that a NUL ends.
pub data IsText : Bool → Bytes → Type 0 where
  absent : IsText false []
  present : (text : Bytes) → NoNul text → IsText true (text ++ 0 ∷ [])

-- The two bytes of the header's own checksum, which nobody checks.
pub data IsCrc : Bool → Bytes → Type 0 where
  absent : IsCrc false []
  present : (lo hi : ℕ) → IsCrc true (lo ∷ hi ∷ [])

-- The ten bytes that every header has.
abbrev pub fixed_part : (flg m0 m1 m2 m3 xfl os : ℕ) → Bytes → Bytes
fixed_part flg m0 m1 m2 m3 xfl os rest = 0x1f ∷ 0x8b ∷ 8 ∷ flg ∷ m0 ∷ m1 ∷ m2 ∷ m3 ∷ xfl ∷ os ∷ rest

-- `bytes` is a whole header, and nothing behind it. Bit 0 and bits 5 to 7 of the flags are ignored.
pub record IsHeader (bytes : Bytes) : Type 0 where
  pub flg : ℕ
  pub m0 : ℕ
  pub m1 : ℕ
  pub m2 : ℕ
  pub m3 : ℕ
  pub xfl : ℕ
  pub os : ℕ
  pub extra : Bytes
  pub name : Bytes
  pub comment : Bytes
  pub crc : Bytes
  pub extra_ok : IsExtra (has flag_fextra flg) extra
  pub name_ok : IsText (has flag_fname flg) name
  pub comment_ok : IsText (has flag_fcomment flg) comment
  pub crc_ok : IsCrc (has flag_fhcrc flg) crc
  pub whole : bytes ≡ fixed_part flg m0 m1 m2 m3 xfl os (extra ++ (name ++ (comment ++ crc)))
