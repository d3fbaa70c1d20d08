-- ===== src/Zlib/Footer/Pieces.antt =====
-- zlibwrapper.cc: a gzip footer that arrives in pieces.
use fleetbench.Prelude.{
  ℕ, zero, suc, ◌+◌, ◌≡◌, ◌≤◌, refl, sym, ap, ◌∙◌, Bool, false, List, [], ◌∷◌, ◌++◌, append_assoc,
  some, Bytes, length, take, drop, ltb, if◌then◌else◌, take_all, take-append, drop-append,
  length-append, length-take, add64, sub64, arith,
}
use fleetbench.Zlib.Library.{z_ok}
use fleetbench.Zlib.State.{ZLib}
use fleetbench.Zlib.Call.{Call}
use fleetbench.Zlib.UncompressHeader.{store, answer, read_footer}

drop_sum {ℓ} : {A : Type ℓ} (m n : ℕ) (xs : List A) → drop (m + n) xs ≡ drop n (drop m xs)
drop_sum zero n xs = let e : 0 + n ≡ n = omega arith in ap (λ k. drop k xs) e
drop_sum (suc m) zero [] = let e : suc m + 0 ≡ suc m = omega arith in ap (λ k. drop k []) e
drop_sum (suc m) (suc n) [] =
    let e : suc m + suc n ≡ suc (m + suc n) = omega arith in ap (λ k. drop k []) e
drop_sum (suc m) n (x ∷ xs) =
    let e : suc m + n ≡ suc (m + n) = omega arith in ap (λ k. drop k (x ∷ xs)) e ∙ drop_sum m n xs

store-store :
    (at : ℕ) (a b f : Bytes)
    → at + length a + length b ≤ length f
    → store (at + length a) b (store at a f) ≡ store at (a ++ b) f
unfolding store
store-store at a b f fits =
    let front = take at f ++ a in
    let tail = drop (at + length a) f in
    let size : at + length a ≡ length front =
      omega (arith, length-append (take at f) a, length-take at f) in
    let whole : take at f ++ (a ++ tail) ≡ front ++ tail = sym (append_assoc (take at f) a tail) in
    let head : take (at + length a) (take at f ++ (a ++ tail)) ≡ front =
      ap (take (at + length a)) whole
      ∙ ap (λ k. take k (front ++ tail)) size
      ∙ take-append front tail in
    let sum : at + length a + length b ≡ at + length (a ++ b) = omega (arith, length-append a b) in
    let last : drop (at + length a + length b) (take at f ++ (a ++ tail))
        ≡ drop (at + length (a ++ b)) f =
      ap (drop (at + length a + length b)) whole
      ∙ drop_sum (at + length a) (length b) (front ++ tail)
      ∙ ap (drop (length b)) (ap (λ k. drop k (front ++ tail)) size ∙ drop-append front tail)
      ∙ sym (drop_sum (at + length a) (length b) f)
      ∙ ap (λ k. drop k f) sum in
    rw (head, last) (simp append_assoc refl)

module _ {I : Type 0} where
  -- The answer of a call that leaves `n` bytes of footer in `footer`.
  abbrev kept : ZLib I → (footer : Bytes) → (n : ℕ) → Call I
  kept zl footer n =
      answer (record zl { gzip_footer = footer; gzip_footer_bytes = some n }) z_ok 0 0

  read_footer-fits :
      (flexible : Bool) (zl : ZLib I) (have dest_len : ℕ) (a : Bytes)
      → have + length a ≤ 8
      → read_footer flexible zl have dest_len a (length a)
        ≡ kept zl (store have a zl.gzip_footer) (have + length a)
  unfolding read_footer store
  read_footer-fits flexible zl have dest_len a fits =
      let room = sub64 8 have in
      let all : take (if ltb (length a) room then length a else room) a ≡ a =
        take_all _ a (ground arith) in
      let used : (if ltb (length a) room then length a else room) ≡ length a = ground arith in
      let inside : ltb 8 (add64 have (length a)) ≡ false = ground arith in
      let none_left : sub64 (length a) (length a) ≡ 0 = omega arith in
      rw (all, used, inside)
        (ap
          (λ n.
            answer
              (record zl {
                gzip_footer = store have a zl.gzip_footer;
                gzip_footer_bytes = some (have + length a);
              })
              z_ok 0 n)
          none_left)

  -- A footer of at most eight bytes that arrives in two pieces is stored as one that arrives whole:
  -- the two calls leave the object and the answer of the single one.
  pub read_footer-append :
      (flexible : Bool) (zl : ZLib I) (have dest_len : ℕ) (a b : Bytes)
      → length zl.gzip_footer ≡ 8
      → have + length (a ++ b) ≤ 8
      → read_footer flexible
          (read_footer flexible zl have dest_len a (length a)).zlib
          (have + length a)
          dest_len
          b
          (length b)
        ≡ read_footer flexible zl have dest_len (a ++ b) (length (a ++ b))
  read_footer-append flexible zl have dest_len a b eight fits =
      let size = length-append a b in
      let first = read_footer-fits flexible zl have dest_len a (omega (arith, size)) in
      let both = read_footer-fits flexible zl have dest_len (a ++ b) fits in
      let zl' : ZLib I = record zl {
        gzip_footer = store have a zl.gzip_footer;
        gzip_footer_bytes = some (have + length a);
      } in
      let second =
        read_footer-fits flexible zl' (have + length a) dest_len b (omega (arith, size)) in
      ap (λ (c : Call I). read_footer flexible c.zlib (have + length a) dest_len b (length b)) first
      ∙ second
      ∙ ap (λ f. kept zl f (have + length a + length b))
          (store-store have a b zl.gzip_footer (omega (arith, size)))
      ∙ ap (kept zl (store have (a ++ b) zl.gzip_footer)) (omega (arith, size))
      ∙ sym both
