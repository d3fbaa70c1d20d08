-- ===== src/Libc/Sizes/Sampled.antt =====
-- mem_benchmark.cc: `SampleSizeBytes` passes its second CHECK, and what its sizes are then.
use fleetbench.Prelude.{
  length-Perm, any, any-Perm, weigh, weigh-Perm, ℕ, zero, suc, ◌+◌, ◌*◌, ◌^◌, ◌≡◌, ◌≤◌, ◌<◌, refl,
  sym, subst, ap, ◌∙◌, true, not, List, [], ◌∷◌, min, leb, ◌==◌, if◌then◌else◌, if_cases, length,
  length-set, length-replicate, set, replicate, Run, done, fatal, ◌>>=◌, >>=-eq-done, arith,
}
use fleetbench.Libc.Offsets.{Engine}
use fleetbench.Libc.Offsets.Fits.{IsShuffle}
use fleetbench.Libc.Sizes.{
  Doubles, total_bytes, settle_all, sum_up, fill_size, fill_sizes, adjust_sizes, sample_size_bytes,
}
use fleetbench.Libc.Sizes.Adjusted.{all_at_most, settle_all-IsSettled}

total_bytes-weigh : (xs : List ℕ) → total_bytes xs ≡ weigh (λ x. x) xs
total_bytes-weigh [] = refl
total_bytes-weigh (x ∷ xs) = omega (arith, total_bytes-weigh xs)

all_at_most-any : (m : ℕ) (xs : List ℕ) → all_at_most m xs ≡ not (any (λ x. not (leb x m)) xs)
all_at_most-any m [] = refl
all_at_most-any m (x ∷ xs) = ground (arith, all_at_most-any m xs)

all_at_most-set :
    (m i v : ℕ) (xs : List ℕ) → v ≤ m → all_at_most m xs ≡ true → all_at_most m (set xs i v) ≡ true
all_at_most-set m i v [] h k = refl
all_at_most-set m zero v (x ∷ xs) h k = ground arith
all_at_most-set m (suc i) v (x ∷ xs) h k = ground (arith, all_at_most-set m i v xs h (ground arith))

all_at_most-replicate : (m n : ℕ) → all_at_most m (replicate n 0) ≡ true
all_at_most-replicate m zero = refl
all_at_most-replicate m (suc n) = ground (arith, all_at_most-replicate m n)

-- Sizes as the vector has them while it is filled.
abbrev IsFilled : (max_size n_samples : ℕ) → List ℕ → Type 0
IsFilled max_size n_samples size_bytes =
    (length size_bytes ≡ n_samples) × (all_at_most max_size size_bytes ≡ true)

run_sizes :
    {k k' : ℕ} {xs ys : List ℕ}
    → ◌≡◌ {A = Run (ℕ × List ℕ)} (done (k, xs)) (done (k', ys))
    → xs ≡ ys
run_sizes e = cc

module _ (r : Doubles) (max_size n_samples : ℕ) where
  same_sizes :
      (xs ys : List ℕ) → IsFilled max_size n_samples xs → xs ≡ ys → IsFilled max_size n_samples ys
  same_sizes xs ys v e = subst (IsFilled max_size n_samples) e v

  fill_size-IsFilled :
      (fuel bytes : ℕ) (share : r.Real) (k : ℕ) (size_bytes : List ℕ) (k' : ℕ) (filled : List ℕ)
      → bytes ≤ max_size
      → IsFilled max_size n_samples size_bytes
      → fill_size r fuel bytes share k size_bytes ≡ done (k', filled)
      → IsFilled max_size n_samples filled
  unfolding fill_size
  fill_size-IsFilled zero bytes share k size_bytes k' filled h v e = cc
  fill_size-IsFilled (suc fuel) bytes share k size_bytes k' filled h v e =
      if_cases
        (λ (m : Run (ℕ × List ℕ)). m ≡ done (k', filled) → IsFilled max_size n_samples filled)
        (r.exceeds (r.minus share (r.of_size k)) r.nearly_one) _ _
        (λ _ f.
          fill_size-IsFilled fuel bytes share (suc k) (set size_bytes k bytes) k' filled h
            (length-set size_bytes k bytes ∙ v.0, all_at_most-set max_size k bytes size_bytes h v.1)
            f)
        (λ _ f. same_sizes size_bytes filled v (run_sizes f)) e

  fill_sizes-IsFilled :
      (distribution : List (ℕ × r.Real)) (cur total : r.Real) (k : ℕ) (size_bytes : List ℕ) (k' : ℕ)
      (filled : List ℕ)
      → IsFilled max_size n_samples size_bytes
      → fill_sizes r max_size n_samples distribution cur total k size_bytes ≡ done (k', filled)
      → IsFilled max_size n_samples filled
  unfolding fill_sizes
  fill_sizes-IsFilled [] cur total k size_bytes k' filled v e =
      same_sizes size_bytes filled v (run_sizes e)
  fill_sizes-IsFilled ((size, p) ∷ rest) cur total k size_bytes k' filled v e =
      let ((j, part), first, later) =
        >>=-eq-done
          (fill_size r (suc n_samples) (min size max_size)
            (r.over (r.times (r.of_size n_samples) (r.plus cur p)) total) k size_bytes)
          (λ (j, part). fill_sizes r max_size n_samples rest (r.plus cur p) total j part) e in
      fill_sizes-IsFilled rest (r.plus cur p) total j part k' filled
        (fill_size-IsFilled (suc n_samples) (min size max_size)
          (r.over (r.times (r.of_size n_samples) (r.plus cur p)) total) k size_bytes j part
          (omega arith) v first)
        later

-- `expected_bytes` and `percentage_sum`.
abbrev pub expected_bytes : (r : Doubles) (n_samples : ℕ) → List (ℕ × r.Real) → ℕ
expected_bytes r n_samples distribution =
    r.to_int64 (sum_up r n_samples distribution r.none_yet r.none_yet).0

abbrev pub percentage_sum : (r : Doubles) (n_samples : ℕ) → List (ℕ × r.Real) → r.Real
percentage_sum r n_samples distribution = (sum_up r n_samples distribution r.none_yet r.none_yet).1

module _ (e : Engine) (s : IsShuffle e) (max_size expected : ℕ) (filled : List ℕ) (g : e.Gen)
    (m : max_size < 2 ^ 31) (b : total_bytes filled < 2 ^ 61)
    (over : total_bytes filled < expected + 2 ^ 31)
    (under : expected + max_size < total_bytes filled + 2 ^ 31)
    (enough : expected ≤ length filled * max_size)
    (small : all_at_most max_size filled ≡ true) where
  adjust_sizes-adds_up :
      (sizes : List ℕ) × (g' : e.Gen) × (adjust_sizes e max_size expected filled g
        ≡ done (sizes, g'))
      × (length sizes ≡ length filled)
      × (total_bytes sizes ≡ expected)
      × (all_at_most max_size sizes ≡ true)
  unfolding adjust_sizes
  adjust_sizes-adds_up =
      let settled = settle_all max_size expected filled (total_bytes filled) in
      let v =
        settle_all-IsSettled max_size expected (total_bytes filled) m (omega arith) (omega arith)
          over under filled small (omega arith) in
      let met : settled.1 ≡ expected = ground (arith, v.balance, v.outcome) in
      let reached : (settled.1 == expected) ≡ true = ground arith in
      let same = s settled.0 g in
      let sizes = (e.shuffle settled.0 g).0 in
      (
        sizes,
        (e.shuffle settled.0 g).1,
        rw (reached) refl,
        length-Perm sizes settled.0 same ∙ v.same_length,
        total_bytes-weigh sizes
            ∙ weigh-Perm (λ x. x) sizes settled.0 same
            ∙ sym (total_bytes-weigh settled.0)
            ∙ omega (arith, v.balance, met),
        all_at_most-any max_size sizes
            ∙ ap not (any-Perm (λ x. not (leb x max_size)) sizes settled.0 same)
            ∙ sym (all_at_most-any max_size settled.0)
            ∙ v.at_most,
      )

-- `SampleSizeBytes` returns as many sizes as wanted, none above the largest one, which add up to
-- exactly the expected number of bytes. (The percentages fill all samples; the expected bytes are at
-- most the number of samples times the largest size, and differ from the bytes of the filled samples
-- by less than 2^31, with the largest size on top where they are more; the filled samples have less
-- than 2^61 bytes, and the largest size is below 2^31.)
pub sample_size_bytes-adds_up :
    (r : Doubles) (e : Engine) (max_size n_samples : ℕ) (distribution : List (ℕ × r.Real))
    (filled : List ℕ) (g : e.Gen)
    → IsShuffle e
    → fill_sizes r max_size n_samples distribution r.none_yet
        (percentage_sum r n_samples distribution)
        0
        (replicate n_samples 0)
      ≡ done (n_samples, filled)
    → max_size < 2 ^ 31
    → total_bytes filled < 2 ^ 61
    → total_bytes filled < expected_bytes r n_samples distribution + 2 ^ 31
    → expected_bytes r n_samples distribution + max_size < total_bytes filled + 2 ^ 31
    → expected_bytes r n_samples distribution ≤ n_samples * max_size
    → (sizes : List ℕ) × (g' : e.Gen) × (sample_size_bytes r e distribution max_size n_samples g
        ≡ done (sizes, g'))
      × (length sizes ≡ n_samples)
      × (total_bytes sizes ≡ expected_bytes r n_samples distribution)
      × (all_at_most max_size sizes ≡ true)
unfolding sample_size_bytes
sample_size_bytes-adds_up r e max_size n_samples distribution filled g s fill m b over under
      enough =
    let expected = expected_bytes r n_samples distribution in
    let v : IsFilled max_size n_samples filled =
      fill_sizes-IsFilled r max_size n_samples distribution r.none_yet
        (percentage_sum r n_samples distribution) 0 (replicate n_samples 0) n_samples filled
        (length-replicate n_samples 0, all_at_most-replicate max_size n_samples) fill in
    let full : (n_samples == length filled) ≡ true = ground (arith, v.0) in
    let (sizes, g', on, len, sum, most) =
      adjust_sizes-adds_up e s max_size expected filled g m b over under (rw (v.0) enough) v.1 in
    let go : ℕ × List ℕ → Run (List ℕ × e.Gen) = λ (k, size_bytes).
      if not (k == length size_bytes)
      then fatal
      else adjust_sizes e max_size expected size_bytes g in
    (sizes, g', ap (λ m. m >>= go) fill ∙ rw (full) on, len ∙ v.0, sum, most)
