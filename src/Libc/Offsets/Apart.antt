-- ===== src/Libc/Offsets/Apart.antt =====
-- mem_benchmark.cc: the do-while loop of `GetNextSrcDstOffsetWithOverlap` comes to an end.
use mathlib.Core.List.{Perm}
use mathlib.Core.List.Perm
use fleetbench.Prelude.{
  any, any-Perm, ℕ, zero, suc, ◌+◌, ◌≤◌, ◌<◌, ◌≡◌, inl, inr, refl, sym, ap, subst, ◌∙◌, Bool, true,
  false, not, List, [], ◌∷◌, ◌==◌, if_cases, Run, done, ◌>>=◌, Bool-cases, arith,
}
use fleetbench.Libc.Offsets.{
  Engine, keep_if, fits, first_fit, is_accessed, check_overlap, move_used, Next, get_next_offset,
  pick_apart,
}
use fleetbench.Libc.Offsets.Fits.{
  first_fit-fits, IsShuffle, move_used-Perm, get_next_offset-eq-done,
}
use fleetbench.Libc.Offsets.Position.{
  any-keep_if, position, position-append, position-without_first,
}

-- A block is safe where it fits, the operands do not overlap at it, and no block that they overlap at
-- reaches it.
pub record IsSafe (src_offset size_bytes block_offset buffer_size t : ℕ) : Type 0 where
  pub fit : fits size_bytes block_offset buffer_size 0 0 t ≡ true
  pub apart : check_overlap src_offset (t + block_offset) size_bytes ≡ false
  pub unreached :
      (b : ℕ)
      → check_overlap src_offset (b + block_offset) size_bytes ≡ true
      → is_accessed b (block_offset + size_bytes) t ≡ false

pub any-fits :
    (p : ℕ → Bool) (t : ℕ) (xs : List ℕ) → p t ≡ true → any (◌==◌ t) xs ≡ true → any p xs ≡ true
any-fits p t [] k h = cc
any-fits p t (x ∷ xs) k h = ground (arith, any-fits p t xs k)

module _ (e : Engine) (s : IsShuffle e) where
  move_used-nearer :
      (t block span : ℕ) (xs : List ℕ) (g : e.Gen)
      → (t == block) ≡ false
      → is_accessed block span t ≡ false
      → any (◌==◌ t) xs ≡ true
      → position t (keep_if (λ b. not (is_accessed block span b)) xs) < position t xs
      → position t (move_used e block span xs g).0 < position t xs
  unfolding move_used
  move_used-nearer t block span [] g q a h k = cc
  move_used-nearer t block span (front ∷ rest) g q a h k =
      let kept = keep_if (λ b. not (is_accessed block span b)) (front ∷ rest) in
      let stays : any (◌==◌ t) kept ≡ true =
        any-keep_if (λ b. not (is_accessed block span b)) t (front ∷ rest) (rw (a) refl) h in
      if_cases (λ (m : List ℕ × e.Gen). position t m.0 < position t (front ∷ rest)) (block == front)
        _ _ (λ f. ground (arith, position-append t rest (block ∷ [])))
        (λ f. subst (λ n. n < position t (front ∷ rest)) (sym (position-append t kept _ stays)) k)

  -- An operation that does not access a block that fits brings it nearer to the front.
  move_used-position :
      (ok : ℕ → Bool) (t unset span : ℕ) (xs : List ℕ) (g : e.Gen)
      → ok t ≡ true
      → any (◌==◌ t) xs ≡ true
      → 0 < span
      → is_accessed (first_fit ok xs unset) span t ≡ false
      → position t (move_used e (first_fit ok xs unset) span xs g).0 < position t xs
  move_used-position ok t unset span xs g o h more a =
      let block = first_fit ok xs unset in
      move_used-nearer t block span xs g (ground arith) a h (
        position-without_first (λ b. not (is_accessed block span b)) ok t unset xs (rw (a) refl) o h
          (ground arith))

  module _ (unset fuel src size off buf : ℕ) (lru : List ℕ) (g : e.Gen) (n : Next e) where
    judge : Next e → Bool → Run (Next e)
    judge m true = pick_apart e unset fuel src size off buf m.blocks_lru m.gen
    judge m false = done m

    pick_apart-turn :
        (over : Bool)
        → get_next_offset e unset lru size off buf 0 0 g ≡ done n
        → check_overlap src n.offset size ≡ over
        → pick_apart e unset (suc fuel) src size off buf lru g ≡ judge n over
    unfolding pick_apart judge
    pick_apart-turn over got h =
        ap (λ r. r >>= λ (m : Next e). judge m (check_overlap src m.offset size)) got
        ∙ ap (judge n) h

  -- With a safe block in the list, the loop ends within as many turns as there are blocks, at an offset
  -- where the operands lie apart.
  pub pick_apart-done :
      (unset fuel src_offset size_bytes block_offset buffer_size t : ℕ) (lru : List ℕ) (g : e.Gen)
      → IsSafe src_offset size_bytes block_offset buffer_size t
      → any (◌==◌ t) lru ≡ true
      → position t lru < fuel
      → (n : Next e) × (pick_apart e unset fuel src_offset size_bytes block_offset buffer_size lru g
          ≡ done n)
        × (check_overlap src_offset n.offset size_bytes ≡ false)
        × (n.offset + size_bytes ≤ buffer_size)
        × Perm n.blocks_lru lru
  unfolding judge
  pick_apart-done unset zero src size off buf t lru g v h f = absurd (omega arith)
  pick_apart-done unset (suc fuel) src size off buf t lru g v h f =
      let ok = fits size off buf 0 0 in
      let block = first_fit ok lru unset in
      let moved = move_used e block (off + size) lru g in
      let some_fit : any ok lru ≡ true = any-fits ok t lru v.fit h in
      let fit : ok block ≡ true = first_fit-fits ok lru unset some_fit in
      let got = get_next_offset-eq-done e s unset lru size off buf 0 0 g some_fit in
      let same : Perm moved.0 lru = move_used-Perm e s block (off + size) lru g in
      let n : Next e = record { offset = block + off; blocks_lru = moved.0; gen = moved.1 } in
      elim (Bool-cases (check_overlap src (block + off) size)) [
        | inl over ↦
            let (m, on, apart, inside, again) =
              pick_apart-done unset fuel src size off buf t moved.0 moved.1 v
                (any-Perm (◌==◌ t) moved.0 lru same ∙ h)
                (omega (
                  arith,
                  move_used-position ok t unset (off + size) lru g v.fit h (ground arith)
                      (v.unreached block over),
                )) in
            (
              m,
              pick_apart-turn unset fuel src size off buf lru g n true got over ∙ on,
              apart,
              inside,
              Perm.trans again same,
            )
        | inr apart ↦ (
          n,
          pick_apart-turn unset fuel src size off buf lru g n false got apart,
          apart,
          ground (arith, fit),
          same,
        )
      ]
