-- ===== src/Zlib/Library.antt =====
-- What fleetbench/compression/zlibwrapper.cc uses of zlib (zlib.h), which is not in the repository:
-- its codes, its stream structure, and its functions as a parameter.
use fleetbench.Prelude.{ℕ, ◌+◌, ◌-◌, ◌≤◌, ◌≡◌, ◌⊎◌, Bool, true, false, Bytes, length, ℤ, add64}

-- The return codes.
pub data Code : Type 0 where
  z_ok z_stream_end z_need_dict z_errno z_stream_error : Code
  z_data_error z_mem_error z_buf_error z_version_error : Code

abbrev pub is_ok : Code → Bool
is_ok z_ok = true
is_ok _ = false

abbrev pub is_stream_end : Code → Bool
is_stream_end z_stream_end = true
is_stream_end _ = false

abbrev pub is_buf_error : Code → Bool
is_buf_error z_buf_error = true
is_buf_error _ = false

abbrev pub is_need_dict : Code → Bool
is_need_dict z_need_dict = true
is_need_dict _ = false

pub data Flush : Type 0 where
  z_sync_flush z_finish : Flush

-- `z_stream`. `next_in` is the memory from the input pointer on; `next_out` is the offset of the
-- output pointer in the caller's buffer; `internal` is what zlib keeps behind the structure.
pub record Stream (I : Type 0) : Type 0 where
  pub next_in : Bytes
  pub avail_in : ℕ
  pub next_out : ℕ
  pub avail_out : ℕ
  pub total_in : ℕ
  pub total_out : ℕ
  pub internal : I

-- The result of a call that sets a stream up. (`deflateParams` can also write, but not directly after
-- a reset, where alone zlibwrapper.cc calls it.)
pub record Reply (I : Type 0) : Type 0 where
  pub code : Code
  pub stream : Stream I

-- The result of a call that moves data, with the bytes that it wrote from `next_out` on.
pub record Moved (I : Type 0) : Type 0 where
  pub code : Code
  pub stream : Stream I
  pub wrote : Bytes

pub record Zlib : Type 1 where
  pub Internal : Type 0
  pub deflate_init2 : (level window_bits mem_level : ℤ) → Stream Internal → Reply Internal
  pub deflate_reset : Stream Internal → Reply Internal
  pub deflate_params : (level : ℤ) → Stream Internal → Reply Internal
  pub deflate_set_dictionary : (dictionary dict_len : ℕ) → Stream Internal → Reply Internal
  pub deflate : Flush → Stream Internal → Moved Internal
  pub deflate_end : Stream Internal → Stream Internal
  pub inflate_init2 : (window_bits : ℤ) → Stream Internal → Reply Internal
  pub inflate_reset2 : (window_bits : ℤ) → Stream Internal → Reply Internal
  pub inflate_set_dictionary : (dictionary dict_len : ℕ) → Stream Internal → Reply Internal
  pub inflate : Flush → Stream Internal → Moved Internal
  pub inflate_end : Stream Internal → Stream Internal
  pub crc32 : ℕ → Bytes → ℕ

module _ {I : Type 0} where
  -- The fields that the caller sets stay as they are.
  pub record SameBuffers (s t : Stream I) : Type 0 where
    pub same_avail_in : t.avail_in ≡ s.avail_in
    pub same_next_out : t.next_out ≡ s.next_out
    pub same_avail_out : t.avail_out ≡ s.avail_out

  -- A call reads from the input and writes to the output, within the room that it was given, and
  -- counts what it moved.
  pub record Moves (s : Stream I) (r : Moved I) : Type 0 where
    pub read_within : r.stream.avail_in ≤ s.avail_in
    pub wrote_within : length r.wrote + r.stream.avail_out ≡ s.avail_out
    pub counts_in : r.stream.total_in ≡ add64 s.total_in (s.avail_in - r.stream.avail_in)
    pub counts_out : r.stream.total_out ≡ add64 s.total_out (length r.wrote)

-- What zlib.h documents of the calls on a compressing stream, as far as zlibwrapper.cc relies on it.
-- `Live` holds of a stream from a successful initialisation to its end; of another one only the
-- calls that can start it are described.
pub record Deflates (z : Zlib) : Type 1 where
  pub Live : z.Internal → Type 0
  pub init2_live :
      (level window_bits mem_level : ℤ) (s : Stream z.Internal)
      → (z.deflate_init2 level window_bits mem_level s).code ≡ z_ok
      → Live (z.deflate_init2 level window_bits mem_level s).stream.internal
  pub init2_same :
      (level window_bits mem_level : ℤ) (s : Stream z.Internal)
      → SameBuffers s (z.deflate_init2 level window_bits mem_level s).stream
  pub reset_live :
      (s : Stream z.Internal) → Live s.internal → Live (z.deflate_reset s).stream.internal
  pub reset_same : (s : Stream z.Internal) → SameBuffers s (z.deflate_reset s).stream
  pub params_live :
      (level : ℤ) (s : Stream z.Internal)
      → Live s.internal
      → Live (z.deflate_params level s).stream.internal
  pub params_same :
      (level : ℤ) (s : Stream z.Internal) → SameBuffers s (z.deflate_params level s).stream
  pub dictionary_live :
      (d n : ℕ) (s : Stream z.Internal)
      → Live s.internal
      → Live (z.deflate_set_dictionary d n s).stream.internal
  pub dictionary_same :
      (d n : ℕ) (s : Stream z.Internal) → SameBuffers s (z.deflate_set_dictionary d n s).stream
  pub dictionary_total :
      (d n : ℕ) (s : Stream z.Internal)
      → (z.deflate_set_dictionary d n s).stream.total_out ≡ s.total_out
  pub end_same : (s : Stream z.Internal) → SameBuffers s (z.deflate_end s)
  pub deflate_live :
      (f : Flush) (s : Stream z.Internal) → Live s.internal → Live (z.deflate f s).stream.internal
  pub deflate_moves :
      (f : Flush) (s : Stream z.Internal) → Live s.internal → Moves s (z.deflate f s)
  -- "deflate compresses as much data as possible, and stops when the input buffer becomes empty or
  -- the output buffer becomes full."
  pub deflate_stops :
      (f : Flush) (s : Stream z.Internal)
      → Live s.internal
      → (z.deflate f s).code ≡ z_ok
      → ((z.deflate f s).stream.avail_in ≡ 0) ⊎ ((z.deflate f s).stream.avail_out ≡ 0)
