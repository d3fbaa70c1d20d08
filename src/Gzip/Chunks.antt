-- ===== src/Gzip/Chunks.antt =====
-- gzipheader.cc on a header that arrives in pieces.
use fleetbench.Prelude.{
  ℕ, suc, ◌&&◌, ltb, ◌+◌, ◌^◌, ◌<◌, true, [], ◌∷◌, ◌++◌, some, ◌==◌, Bytes, length, length-append,
  done, ◌>>=◌, ◌≡◌, refl, arith, Option-cases, Bool-cases, subst, ◌∙◌, inl, inr, ap,
}
use fleetbench.Gzip.{
  State, in_xlen_byte_0, in_xlen_byte_1, in_fextra, in_fhcrc_byte_0, in_fhcrc_byte_1, Header,
  initial, flag_fhcrc, flag_fextra, has, Status, incomplete_header, invalid_header, complete_header,
  at_end, number, read_more,
}
use fleetbench.Gzip.Scan.{settle, take_byte, is_done, scan, read_more-scan}

-- Inside an optional field, the flag of that field is still set.
abbrev FieldFlag : State → ℕ → Type 0
FieldFlag in_xlen_byte_1 flags = has flag_fextra flags ≡ true
FieldFlag in_fextra flags = has flag_fextra flags ≡ true
FieldFlag in_fhcrc_byte_1 flags = has flag_fhcrc flags ≡ true
FieldFlag _ flags = Unit

abbrev pub IsValid : Header → Type 0
IsValid h = FieldFlag h.state h.flags

pub initial-IsValid : IsValid initial
initial-IsValid = tt

-- What a settled state knows besides: it waits for an optional field only if there is one.
abbrev SettledFlag : State → ℕ → Type 0
SettledFlag in_xlen_byte_0 flags = has flag_fextra flags ≡ true
SettledFlag in_fhcrc_byte_0 flags = has flag_fhcrc flags ≡ true
SettledFlag s flags = FieldFlag s flags

settle-SettledFlag :
    (s : State) (f x : ℕ)
    → FieldFlag s f
    → let h = settle s (record { state = s; flags = f; extra_length = x }) in
      SettledFlag h.state h.flags
unfolding settle
settle-SettledFlag in_fextra f x v = ground arith
settle-SettledFlag _ f x v = ground arith

take_byte-IsValid :
    (s : State) (f x b : ℕ) (h' : Header)
    → SettledFlag s f
    → take_byte s (record { state = s; flags = f; extra_length = x }) b ≡ some h'
    → IsValid h'
unfolding take_byte
take_byte-IsValid in_xlen_byte_0 f x b h' v e = ground arith
take_byte-IsValid in_fextra f x b h' v e = ground arith
take_byte-IsValid _ f x b h' v e = ground arith

-- The same result, met `offset` bytes later.
abbrev pub shift : ℕ → Status → Status
shift offset (incomplete_header h) = incomplete_header h
shift offset (invalid_header h) = invalid_header h
shift offset (complete_header h n) = complete_header h (offset + n)

at_end-shift : (h : Header) (p q : ℕ) → at_end h (p + q) ≡ shift p (at_end h q)
unfolding at_end
at_end-shift h p q = ground arith

scan-shift : (bs : Bytes) (h : Header) (p q : ℕ) → scan (p + q) h bs ≡ shift p (scan q h bs)
unfolding scan
scan-shift [] h p q = at_end-shift h p q
scan-shift (b ∷ bs) h p q = elim (Bool-cases (is_done (settle h.state h).state)) [
  | inl e ↦ rw e refl
  | inr e ↦ rw e (elim (Option-cases (take_byte (settle h.state h).state (settle h.state h) b)) [
    | inl stop ↦ rw stop refl
    | inr (k, more) ↦
        let o : p + q + 1 ≡ p + (q + 1) = omega arith in rw (more, o) (scan-shift bs k p (q + 1))
  ])
]

-- One byte of the reference, read off its result: it stops at once, or goes on from `k`.
data Goes (pos : ℕ) (h : Header) (b : ℕ) : Type 0 where
  stops :
      (s : Status)
      → ((bs : Bytes) → scan pos h (b ∷ bs) ≡ s)
      → ((k : Header) → s ≡ incomplete_header k → ⊥)
      → Goes pos h b
  steps :
      (k : Header)
      → ((bs : Bytes) → scan pos h (b ∷ bs) ≡ scan (pos + 1) k bs)
      → (IsValid h → IsValid k)
      → Goes pos h b

scan-Goes : (pos : ℕ) (h : Header) (b : ℕ) → Goes pos h b
unfolding scan
scan-Goes pos h b = elim (Bool-cases (is_done (settle h.state h).state)) [
  | inl e ↦ stops (complete_header (settle h.state h) pos) (λ bs. rw e) (λ k. cc)
  | inr e ↦ elim (Option-cases (take_byte (settle h.state h).state (settle h.state h) b)) [
    | inl stop ↦ stops (invalid_header (settle h.state h)) (λ bs. rw (e, stop)) (λ k. cc)
    | inr (k, more) ↦
        steps k (λ bs. rw (e, more))
          (λ v.
            take_byte-IsValid _ _ _ b k (settle-SettledFlag h.state h.flags h.extra_length v) more)
  ]
]

-- With no flag left nothing is left to read, whatever the state.
settle_drained :
    (s : State) (f x : ℕ)
    → FieldFlag s f
    → ltb 9 (number s) && f == 0 ≡ true
    → is_done (settle s (record { state = s; flags = f; extra_length = x })).state ≡ true
unfolding settle
settle_drained in_fextra f x v e = ground arith
settle_drained _ f x v e = ground arith

pub scan_drained :
    (b : Bytes) (pos : ℕ) (h : Header)
    → IsValid h
    → ltb 9 (number h.state) && h.flags == 0 ≡ true
    → (k : Header) × (scan pos h b ≡ complete_header k pos)
unfolding scan at_end
scan_drained [] pos h v e = (h, rw e)
scan_drained (c ∷ cs) pos h v e =
    (settle h.state h, rw (settle_drained h.state h.flags h.extra_length v e))

module _ (b : Bytes) where
  -- What the first piece's result says of both pieces together.
  abbrev Resumed : ℕ → Header → Bytes → Status → Type 0
  Resumed pos h a (incomplete_header k) =
      (scan pos h (a ++ b) ≡ scan (pos + length a) k b) × (IsValid h → IsValid k)
  Resumed pos h a (invalid_header k) = scan pos h (a ++ b) ≡ invalid_header k
  Resumed pos h a (complete_header k n) =
      IsValid h → (k' : Header) × (scan pos h (a ++ b) ≡ complete_header k' n)

  scan_at_end : (h : Header) (pos : ℕ) → Resumed pos h [] (at_end h pos)
  unfolding at_end
  scan_at_end h pos = elim (Bool-cases (ltb 9 (number h.state) && h.flags == 0)) [
    | inl e ↦ rw e (λ v. scan_drained b pos h v e)
    | inr e ↦ let p : pos + 0 ≡ pos = omega arith in rw (e, p) (refl, λ v. v)
  ]

  scan_stops :
      (x : ℕ) (a : Bytes) (pos : ℕ) (h : Header) (s : Status)
      → ((bs : Bytes) → scan pos h (x ∷ bs) ≡ s)
      → ((k : Header) → s ≡ incomplete_header k → ⊥)
      → Resumed pos h (x ∷ a) s
  scan_stops x a pos h (incomplete_header k) e no_more = absurd (no_more k refl)
  scan_stops x a pos h (invalid_header k) e no_more = e (a ++ b)
  scan_stops x a pos h (complete_header k n) e no_more = λ v. (k, e (a ++ b))

  scan_steps :
      (x : ℕ) (a : Bytes) (pos : ℕ) (h k : Header) (s : Status)
      → scan pos h (x ∷ (a ++ b)) ≡ scan (pos + 1) k (a ++ b)
      → (IsValid h → IsValid k)
      → Resumed (pos + 1) k a s
      → Resumed pos h (x ∷ a) s
  scan_steps x a pos h k (incomplete_header l) e keep (r, v) =
      let p : pos + suc (length a) ≡ pos + 1 + length a = omega arith in
      rw p (e ∙ r, λ u. v (keep u))
  scan_steps x a pos h k (invalid_header l) e keep r = e ∙ r
  scan_steps x a pos h k (complete_header l n) e keep r =
      λ v. let (k', c) = r (keep v) in (k', e ∙ c)

  scan-Resumed : (a : Bytes) (pos : ℕ) (h : Header) → Resumed pos h a (scan pos h a)
  scan-Resumed [] pos h = unfold scan in scan_at_end h pos
  scan-Resumed (x ∷ a) pos h = elim (scan-Goes pos h x) [
    | stops s e no_more ↦ rw (e a) (scan_stops x a pos h s e no_more)
    | steps k e keep ↦
        rw (e a) (scan_steps x a pos h k _ (e (a ++ b)) keep (scan-Resumed a (pos + 1) k))
  ]

-- What `ReadMore` says of the buffer `a ++ b`, given its result on `a`.
abbrev pub Continues : Header → Bytes → Bytes → Status → Type 0
Continues h a b (incomplete_header k) =
    (read_more h (a ++ b) (length (a ++ b))
      ≡ (read_more k b (length b) >>= λ s. done (shift (length a) s)))
    × IsValid k
Continues h a b (invalid_header k) =
    read_more h (a ++ b) (length (a ++ b)) ≡ done (invalid_header k)
Continues h a b (complete_header k n) =
    (k' : Header) × (read_more h (a ++ b) (length (a ++ b)) ≡ done (complete_header k' n))

module _ (h : Header) (a b : Bytes) (v : IsValid h) (fits : length (a ++ b) < 2 ^ 31) where
  Resumed-Continues : (s : Status) → Resumed b 0 h a s → Continues h a b s
  Resumed-Continues (incomplete_header k) (e, keep) =
      let p : 0 + length a ≡ length a + 0 = omega arith in
      (
        rw (read_more-scan h (a ++ b) fits, read_more-scan k b (omega (arith, length-append a b)))
            (ap done (e ∙ rw p (scan-shift b k (length a) 0))),
        keep v,
      )
  Resumed-Continues (invalid_header k) e = rw (read_more-scan h (a ++ b) fits) (ap done e)
  Resumed-Continues (complete_header k n) f =
      let (k', e) = f v in (k', rw (read_more-scan h (a ++ b) fits) (ap done e))

-- `ReadMore` gives the same answer however the bytes are cut into pieces: an incomplete first piece
-- leaves a valid parser that answers on the second as the first parser would on both, with the end
-- counted from the start of the first; an invalid or complete header stays so, at the same end,
-- whatever follows. (For a valid parser, and pieces that together have less than 2 ^ 31 bytes.)
pub read_more-append :
    (h : Header) (a b : Bytes)
    → IsValid h
    → length (a ++ b) < 2 ^ 31
    → (s : Status) → read_more h a (length a) ≡ done s
    → Continues h a b s
read_more-append h a b v fits s e =
    let same : scan 0 h a ≡ s = cc (read_more-scan h a (omega (arith, length-append a b))) in
    Resumed-Continues h a b v fits s (subst (Resumed b 0 h a) same (scan-Resumed b a 0 h))
