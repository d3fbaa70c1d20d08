-- ===== src/Tests/Coding.antt =====
-- Uncompressing, over a zlib whose streams are a count and that many bytes.
use fleetbench.Prelude.{
  ℕ, suc, ◌+◌, ◌-◌, ◌≤◌, ◌≡◌, refl, ap, ◌∙◌, sym, Bool, true, false, ◌&&◌, [], ◌∷◌, ◌++◌,
  Bool-cases, inl, inr, subst, Bytes, length, take, drop, length-append, length-take, take-append,
  leb, ltb, if◌then◌else◌, if_cases, add64, low32, arith,
}
use fleetbench.Zlib.Library.{
  Zlib, Stream, Reply, Moved, Flush, z_finish, z_sync_flush, z_ok, z_stream_end, z_buf_error,
  Deflates, SameBuffers, Moves,
}
use fleetbench.Zlib.Inflates.{KeepsBuffers, Inflates, Inverts}
use fleetbench.Zlib.Compress.New.{Finishes}

abbrev pub zeroed : Stream ℕ → Reply ℕ
zeroed s = record { code = z_ok; stream = record s { total_in = 0; total_out = 0 } }

abbrev pub unmoved : Stream ℕ → Moved ℕ
unmoved s = record {
  code = z_buf_error;
  stream = record s { total_in = add64 s.total_in 0; total_out = add64 s.total_out 0 };
  wrote = [];
}

-- `read` bytes of the input are taken, and `bytes` written.
abbrev pub carried : Stream ℕ → (read : ℕ) → Bytes → Moved ℕ
carried s read bytes = record {
  code = z_stream_end;
  stream = record s {
    next_in = drop read s.next_in;
    avail_in = s.avail_in - read;
    next_out = s.next_out + length bytes;
    avail_out = s.avail_out - length bytes;
    total_in = add64 s.total_in read;
    total_out = add64 s.total_out (length bytes);
  };
  wrote = bytes;
}

unfoldable pub packs : Stream ℕ → Bool
packs s = ltb s.avail_in 256 && leb s.avail_in (length s.next_in) && ltb s.avail_in s.avail_out

abbrev pub pack : Flush → Stream ℕ → Moved ℕ
pack z_finish s =
    if packs s then carried s s.avail_in (s.avail_in ∷ take s.avail_in s.next_in) else unmoved s
pack z_sync_flush s = unmoved s

unfoldable pub unpacks : ℕ → Bytes → Stream ℕ → Bool
unpacks n bytes s = ltb n s.avail_in && leb n (length bytes) && leb n s.avail_out

abbrev pub unpack_from : Bytes → Stream ℕ → Moved ℕ
unpack_from [] s = unmoved s
unpack_from (n ∷ bytes) s =
    if unpacks n bytes s then carried s (suc n) (take n bytes) else unmoved s

abbrev pub unpack : Flush → Stream ℕ → Moved ℕ
unpack f s = unpack_from s.next_in s

abbrev pub add_up : ℕ → Bytes → ℕ
add_up crc [] = crc
add_up crc (b ∷ bs) = add_up (crc + b) bs

abbrev pub coding : Zlib
coding = record {
  Internal = ℕ;
  deflate_init2 = λ l w m s. zeroed s;
  deflate_reset = λ s. zeroed s;
  deflate_params = λ l s. record { code = z_ok; stream = s };
  deflate_set_dictionary = λ d n s. record { code = z_ok; stream = s };
  deflate = pack;
  deflate_end = λ s. s;
  inflate_init2 = λ w s. zeroed s;
  inflate_reset2 = λ w s. zeroed s;
  inflate_set_dictionary = λ d n s. record { code = z_ok; stream = s };
  inflate = unpack;
  inflate_end = λ s. s;
  crc32 = λ crc bytes. low32 (add_up crc bytes);
}

unmoved-Moves : (s : Stream ℕ) → Moves s (unmoved s)
unmoved-Moves s = record {
  read_within = omega arith;
  wrote_within = omega arith;
  counts_in = ap (add64 s.total_in) (omega arith);
  counts_out = refl;
}

carried-Moves :
    (s : Stream ℕ) (read : ℕ) (bytes : Bytes)
    → read ≤ s.avail_in
    → length bytes ≤ s.avail_out
    → Moves s (carried s read bytes)
carried-Moves s read bytes reads fits = record {
  read_within = omega arith;
  wrote_within = omega arith;
  counts_in = ap (add64 s.total_in) (omega arith);
  counts_out = refl;
}

pub pack-Moves : (f : Flush) (s : Stream ℕ) → Moves s (pack f s)
unfolding packs
pack-Moves z_finish s =
    if_cases (Moves s) (packs s) _ _
      (λ fits.
        carried-Moves s s.avail_in _ (omega arith)
          (ground (arith, length-take s.avail_in s.next_in)))
      (λ _. unmoved-Moves s)
pack-Moves z_sync_flush s = unmoved-Moves s

pub unpack_from-Moves : (bytes : Bytes) (s : Stream ℕ) → Moves s (unpack_from bytes s)
unfolding unpacks
unpack_from-Moves [] s = unmoved-Moves s
unpack_from-Moves (n ∷ bytes) s =
    if_cases (Moves s) (unpacks n bytes s) _ _
      (λ fits. carried-Moves s (suc n) _ (ground arith) (ground (arith, length-take n bytes)))
      (λ _. unmoved-Moves s)

abbrev pub same : (s : Stream ℕ) → SameBuffers s s
same s = record { same_avail_in = refl; same_next_out = refl; same_avail_out = refl }

pub zeroed-same : (s : Stream ℕ) → SameBuffers s (zeroed s).stream
zeroed-same s = record { same_avail_in = refl; same_next_out = refl; same_avail_out = refl }

abbrev pub keeps : (s : Stream ℕ) → KeepsBuffers s s
keeps s = record { same_next_in = refl; same_avail_in = refl; same_avail_out = refl }

pub zeroed-keeps : (s : Stream ℕ) → KeepsBuffers s (zeroed s).stream
zeroed-keeps s = record { same_next_in = refl; same_avail_in = refl; same_avail_out = refl }

pub pack-ne-z_ok : (f : Flush) (s : Stream ℕ) → (pack f s).code ≡ z_ok → ⊥
pack-ne-z_ok z_finish s e =
    if_cases (λ (r : Moved ℕ). r.code ≡ z_ok → ⊥) (packs s) _ _ (λ _ f. cc) (λ _ f. cc) e
pack-ne-z_ok z_sync_flush s e = cc

abbrev pub coding-Deflates : Deflates coding
coding-Deflates = record {
  Live = λ i. Unit;
  init2_live = λ l w m s e. tt;
  init2_same = λ l w m s. zeroed-same s;
  reset_live = λ s h. tt;
  reset_same = zeroed-same;
  params_live = λ l s h. tt;
  params_same = λ l s. same s;
  dictionary_live = λ d n s h. tt;
  dictionary_same = λ d n s. same s;
  dictionary_total = λ d n s. refl;
  end_same = λ s. same s;
  deflate_live = λ f s h. tt;
  deflate_moves = λ f s h. pack-Moves f s;
  deflate_stops = λ f s h e. absurd (pack-ne-z_ok f s e);
}

abbrev pub coding-Finishes : Finishes coding coding-Deflates
coding-Finishes = record {
  finish_full = λ s h e. absurd (pack-ne-z_ok z_finish s e);
  init2_next_in = λ l w m s. refl;
}

abbrev pub coding-Inflates : Inflates coding
coding-Inflates = record {
  Live = λ i. Unit;
  init2_live = λ w s e. tt;
  init2_keeps = λ w s. zeroed-keeps s;
  init2_in = λ w s e. refl;
  init2_out = λ w s e. refl;
  reset2_live = λ w s h. tt;
  reset2_keeps = λ w s. zeroed-keeps s;
  reset2_in = λ w s e. refl;
  reset2_out = λ w s e. refl;
  dictionary_live = λ d n s h. tt;
  dictionary_keeps = λ d n s. keeps s;
  dictionary_in = λ d n s. refl;
  dictionary_out = λ d n s. refl;
  end_keeps = keeps;
  inflate_live = λ f s h. tt;
  inflate_moves = λ f s h. unpack_from-Moves s.next_in s;
}

packs-ended : (s : Stream ℕ) → (pack z_finish s).code ≡ z_stream_end → packs s ≡ true
packs-ended s e = elim (Bool-cases (packs s)) [
  | inl fits ↦ fits
  | inr full ↦ absurd (ground (arith, e, full))
]

packs-size : (s : Stream ℕ) → packs s ≡ true → length (take s.avail_in s.next_in) ≡ s.avail_in
unfolding packs
packs-size s fits = ground (arith, length-take s.avail_in s.next_in)

unpacks-fits :
    (t : Stream ℕ) (n : ℕ) (bytes rest : Bytes)
    → length bytes ≡ n
    → t.avail_in ≡ suc n + length rest
    → n ≤ t.avail_out
    → unpacks n (bytes ++ rest) t ≡ false
    → ⊥
unfolding unpacks
unpacks-fits t n bytes rest size input_len room unfit = ground (arith, length-append bytes rest)

-- What a count and its bytes give, with more bytes behind them.
unpack_lem :
    (t : Stream ℕ) (n : ℕ) (bytes rest : Bytes)
    → length bytes ≡ n
    → t.next_in ≡ (n ∷ bytes) ++ rest
    → t.avail_in ≡ suc n + length rest
    → n ≤ t.avail_out
    → ((unpack z_finish t).code ≡ z_stream_end)
      × ((unpack z_finish t).wrote ≡ bytes)
      × ((unpack z_finish t).stream.avail_in ≡ length rest)
unpack_lem t n bytes rest size input input_len room =
    let P : Moved ℕ → Type 0 =
      λ r. (r.code ≡ z_stream_end) × (r.wrote ≡ bytes) × (r.stream.avail_in ≡ length rest) in
    subst (λ (i : Bytes). P (unpack_from i t)) (sym input)
      (if_cases P (unpacks n (bytes ++ rest) t) _ _
        (λ _. (
          refl,
          ap (λ (k : ℕ). take k (bytes ++ rest)) (sym size) ∙ take-append bytes rest,
          omega arith,
        ))
        (λ no. absurd (unpacks-fits t n bytes rest size input_len room no)))

pub coding-inverts :
    (s t : Stream ℕ) (rest : Bytes)
    → (pack z_finish s).code ≡ z_stream_end
    → t.next_in ≡ (pack z_finish s).wrote ++ rest
    → t.avail_in ≡ length (pack z_finish s).wrote + length rest
    → s.avail_in ≤ t.avail_out
    → ((unpack z_finish t).code ≡ z_stream_end)
      × ((unpack z_finish t).wrote ≡ take s.avail_in s.next_in)
      × ((unpack z_finish t).stream.avail_in ≡ length rest)
coding-inverts s t rest ended input input_len room =
    let fits = packs-ended s ended in
    let wrote : (pack z_finish s).wrote ≡ s.avail_in ∷ take s.avail_in s.next_in =
      if_cases (λ (r : Moved ℕ). r.wrote ≡ s.avail_in ∷ take s.avail_in s.next_in) (packs s) _ _
        (λ _. refl) (λ no. absurd (ground (arith, fits, no))) in
    let size : length (take s.avail_in s.next_in) ≡ s.avail_in = packs-size s fits in
    unpack_lem t s.avail_in (take s.avail_in s.next_in) rest size
      (input ∙ ap (λ (x : Bytes). x ++ rest) wrote) (omega (arith, ap length wrote, size)) room

abbrev pub coding-Inverts : Inverts coding
coding-Inverts = record {
  opens = λ s. refl;
  inverts = λ l m w a s b t rest narrow ok inside ended all_read fresh input input_len room.
      coding-inverts s t rest ended input input_len room;
  crc32_small = λ crc bytes. omega arith;
}
