-- ===== src/Tcmalloc/Registration/Threads.antt =====
-- empirical_driver.cc: the thread ranges that are registered for a distribution.
use fleetbench.Prelude.{
  ℕ, ◌+◌, ◌≡◌, ◌≤◌, Bool, inl, inr, Bool-cases, ◌&&◌, List, [], ◌∷◌, leb, if◌then◌else◌, Bytes,
  same_text, arith,
}
use fleetbench.Tcmalloc.Registration.{Family, default_distribution, register_distribution}

-- How many of the families have `threads` in their range.
abbrev pub covering : (threads : ℕ) → List Family → ℕ
covering threads [] = 0
covering threads (f ∷ fs) =
    (if leb f.min_threads threads && leb threads f.max_threads then 1 else 0) + covering threads fs

-- On a machine with at least one processor, whatever the flag for explicit iteration counts says, a
-- number of threads is in exactly one of the thread ranges that are registered for a distribution
-- if it is between 1 and the number of processors, and in none otherwise.
pub register_distribution-covering :
    (explicit_iterations : Bool) (max_threads : ℕ) (name : Bytes) (threads : ℕ)
    → 1 ≤ max_threads
    → covering threads (register_distribution explicit_iterations max_threads name)
      ≡ (if leb 1 threads && leb threads max_threads then 1 else 0)
unfolding register_distribution
register_distribution-covering explicit_iterations max_threads name threads some_thread =
    elim (Bool-cases (same_text name default_distribution)) [
      | inl default ↦ elim (Bool-cases explicit_iterations) [
        | inl set ↦ rw (default, set) (ground arith)
        | inr unset ↦ rw (default, unset) (ground arith)
      ]
      | inr other ↦ elim (Bool-cases explicit_iterations) [
        | inl set ↦ rw (other, set) (omega arith)
        | inr unset ↦ rw (other, unset) (omega arith)
      ]
    ]
