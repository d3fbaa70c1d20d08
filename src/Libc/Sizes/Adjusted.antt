-- ===== src/Libc/Sizes/Adjusted.antt =====
-- mem_benchmark.cc: the sizes that `SampleSizeBytes` returns add up to the expected number of bytes.
use fleetbench.Prelude.{
  ℕ, ◌+◌, ◌-◌, ◌*◌, ◌^◌, ◌≡◌, ◌≤◌, ◌<◌, ◌⊎◌, inl, refl, Bool, true, ◌&&◌, List, [], ◌∷◌, min, ltb,
  leb, if_cases, length, sign_extend, add64, sub64, arith,
}
use fleetbench.Libc.Sizes.{total_bytes, signed_lt, fewer_bytes, more_bytes, settle_one, settle_all}

-- Every size is at most `m`.
abbrev pub all_at_most : ℕ → List ℕ → Bool
all_at_most m [] = true
all_at_most m (b ∷ bs) = leb b m && all_at_most m bs

fewer_bytes-eq :
    (old actual expected : ℕ)
    → old < 2 ^ 31
    → actual < 2 ^ 62
    → expected < actual
    → actual < expected + 2 ^ 31
    → fewer_bytes old actual expected ≡ old - (actual - expected)
fewer_bytes-eq old actual expected o s l f = ground arith

more_bytes-eq :
    (max_size old actual expected : ℕ)
    → max_size < 2 ^ 31
    → old < 2 ^ 31
    → expected < 2 ^ 62
    → actual < expected
    → old + expected < actual + 2 ^ 31
    → more_bytes max_size old actual expected ≡ min max_size (old + (expected - actual))
more_bytes-eq max_size old actual expected m o s l f = ground arith

signed_lt-eq : (a b : ℕ) → a < 2 ^ 62 → b < 2 ^ 62 → signed_lt a b ≡ ltb a b
signed_lt-eq a b h k = ground arith

exchange-eq :
    (b old new : ℕ)
    → old < 2 ^ 31
    → new < 2 ^ 31
    → b < 2 ^ 62
    → old ≤ b + new
    → add64 (sub64 b (sign_extend old)) (sign_extend new) ≡ b + new - old
exchange-eq b old new o n s l = ground arith

-- What the loop has made of some last samples, where `actual` was the sum before.
pub record IsSettled (max_size expected : ℕ) (olds : List ℕ) (actual : ℕ) (after : List ℕ × ℕ)
    : Type 0 where
  pub at_most : all_at_most max_size after.0 ≡ true
  pub same_length : length after.0 ≡ length olds
  pub balance : after.1 + total_bytes olds ≡ actual + total_bytes after.0
  pub outcome :
      (after.1 ≡ expected)
      ⊎ ((expected < after.1) × (after.1 ≤ actual) × (total_bytes after.0 ≡ 0))
      ⊎ ((after.1 < expected) × (actual ≤ after.1) × (total_bytes after.0 ≡ length olds * max_size))

module _ (max_size expected actual : ℕ) (m : max_size < 2 ^ 31) (a : actual < 2 ^ 62)
    (x : expected < 2 ^ 62) (over : actual < expected + 2 ^ 31)
    (under : expected + max_size < actual + 2 ^ 31) where
  settle_one-IsSettled :
      (old : ℕ) (olds news : List ℕ) (b : ℕ)
      → all_at_most max_size (old ∷ olds) ≡ true
      → total_bytes (old ∷ olds) ≤ actual
      → IsSettled max_size expected olds actual (news, b)
      → IsSettled max_size expected (old ∷ olds) actual (settle_one max_size expected old (news, b))
  unfolding settle_one
  settle_one-IsSettled old olds news b h t v =
      let o : old ≤ max_size = ground arith in
      if_cases (IsSettled max_size expected (old ∷ olds) actual) (signed_lt expected b) _ _
        (λ e.
          let high : (expected < b) × (b ≤ actual) × (total_bytes news ≡ 0) =
            ground (arith, v.outcome) in
          let new = old - (b - expected) in
          rw
            (
              fewer_bytes-eq old b expected (omega arith) (omega (arith, high)) high.0
                  (omega (arith, high)),
              exchange-eq b old new (omega arith) (omega arith) (omega (arith, high))
                  (omega (arith, v.balance)),
            )
            (record {
              at_most = ground (arith, v.at_most);
              same_length = ground (arith, v.same_length);
              balance = omega (arith, v.balance);
              outcome = ground (arith, high);
            }))
        (λ e.
          if_cases (IsSettled max_size expected (old ∷ olds) actual) (signed_lt b expected) _ _
            (λ f.
              let low : (b < expected)
                  × (actual ≤ b)
                  × (total_bytes news ≡ length olds * max_size) =
                ground (arith, v.outcome) in
              let new = min max_size (old + (expected - b)) in
              rw
                (
                  more_bytes-eq max_size old b expected m (omega arith) x low.0
                      (omega (arith, low)),
                  exchange-eq b old new (omega arith) (omega arith) (omega (arith, low))
                      (omega (arith, v.balance, low)),
                )
                (record {
                  at_most = ground (arith, v.at_most);
                  same_length = ground (arith, v.same_length);
                  balance = omega (arith, v.balance);
                  outcome = ground (arith, low);
                }))
            (λ f. record {
              at_most = ground (arith, v.at_most);
              same_length = ground (arith, v.same_length);
              balance = omega (arith, v.balance);
              outcome = inl (ground arith);
            }))

  pub settle_all-IsSettled :
      (olds : List ℕ)
      → all_at_most max_size olds ≡ true
      → total_bytes olds ≤ actual
      → IsSettled max_size expected olds actual (settle_all max_size expected olds actual)
  unfolding settle_all
  settle_all-IsSettled [] h t = record {
    at_most = refl;
    same_length = refl;
    balance = omega arith;
    outcome = ground arith;
  }
  settle_all-IsSettled (old ∷ olds) h t =
      let (news, b) = settle_all max_size expected olds actual in
      settle_one-IsSettled old olds news b h t
        (settle_all-IsSettled olds (ground arith) (omega arith))
