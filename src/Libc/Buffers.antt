-- ===== src/Libc/Buffers.antt =====
-- fleetbench/libc/utils.h and utils.cc, and the loops of mem_benchmark.cc that mark, compare and reset_mark
-- a buffer. A pointer into a buffer is an offset.
pub mod Marks
use fleetbench.Prelude.{
  ℕ, zero, suc, ◌+◌, ◌-◌, ◌%◌, ◌^◌, ◌*◌, ◌≡◌, ◌≤◌, Bool, true, false, List, [], ◌∷◌, ltb,
  if◌then◌else◌, Bytes, length, set, replicate, add64, sub64,
}

-- `memset(src_, 0xFF, size)`, in the constructor.
abbrev pub fresh_buffer : (size : ℕ) → Bytes
fresh_buffer size = replicate size 255

-- `mismatch_pos` is a `size_t`, as the sum of the offsets is.
abbrev pub mark_at : (offset mismatch_pos : ℕ) → ℕ
mark_at offset mismatch_pos = sub64 (add64 offset mismatch_pos) 1

-- In both, a write outside the buffer, which is undefined, changes nothing here.
unfoldable pub mark : Bytes → (offset mismatch_pos : ℕ) → Bytes
mark buf offset mismatch_pos =
    if ltb 0 mismatch_pos then set buf (mark_at offset mismatch_pos) 0 else buf

unfoldable pub reset_mark : Bytes → (offset mismatch_pos : ℕ) → Bytes
reset_mark buf offset mismatch_pos =
    if ltb 0 mismatch_pos then set buf (mark_at offset mismatch_pos) 255 else buf

-- A position, an `int32_t` that is not negative, as it is stored in a `std::vector<int16_t>` and read
-- as a `size_t`.
abbrev pub stored_position : ℕ → ℕ
stored_position pos =
    let low = pos % 2 ^ 16 in if ltb low (2 ^ 15) then low else low + (2 ^ 64 - 2 ^ 16)

-- The parameters of one comparison.
pub record Comparison : Type 0 where
  pub size_bytes : ℕ
  pub src_offset : ℕ
  pub dst_offset : ℕ
  pub mismatch_pos : ℕ

module _ {Res : Type 0} (cmp : Bytes → (dst src size : ℕ) → Res) where
  -- One turn of the loop of `CmpFunction`; `cmp` is `memcmp` or `bcmp`.
  unfoldable pub compare_once : Comparison → Bytes → Res × Bytes
  unfolding mark reset_mark
  compare_once c buf =
      let pos = stored_position c.mismatch_pos in
      let marked = mark buf c.dst_offset pos in
      (cmp marked c.dst_offset c.src_offset c.size_bytes, reset_mark marked c.dst_offset pos)

  -- The `for` loop over the parameters.
  unfoldable pub compare_all : List Comparison → Bytes → List Res × Bytes
  unfolding compare_once
  compare_all [] buf = ([], buf)
  compare_all (c ∷ cs) buf =
      let (r, buf') = compare_once c buf in let (rs, buf'') = compare_all cs buf' in (r ∷ rs, buf'')
