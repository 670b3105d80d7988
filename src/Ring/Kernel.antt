-- ===== src/Ring/Kernel.antt =====
-- What src/engines/linux.rs relies on of io_uring.
use asynchstream.Base.{
  ℕ, suc, ◌+◌, ◌≤◌, ◌<◌, List, [], ◌∷◌, ◌++◌, ◌≡◌, Bool, true, false, ◌||◌, ℤ, length, is_some,
}
use asynchstream.Exec.{is_ok}
use asynchstream.Ring.{Sqe, user_data, IoUring}
use asynchstream.Ring.Completed.{lookup, Honest}

-- What io_uring documents, of a kernel that is not interrupted: a request that was accepted is under way
-- until its completion is taken. While the completion queue has room for all that are under way, a wait
-- for no more of them than these returns with that many completions to take, and a submission queue that
-- was full has room after a wait; where it has not, a wait may fail (EBUSY), but one for a single
-- completion returns once the completion queue has been emptied.
pub record Kernel {K : Type 0} (io : IoUring K) (answer : ℕ → ℤ) : Type 0 where
  -- The requests whose completion has not been taken, and how many they are.
  pub pending : K → ℕ → Bool
  pub count : K → ℕ
  -- How many completions their queue holds.
  pub capacity : ℕ
  -- The requests that were accepted so far, in their order.
  pub pushed : K → List Sqe
  pub push-pushed :
      (e : Sqe) (k : K) → (io.push e k).0 ≡ true → pushed (io.push e k).1 ≡ pushed k ++ (e ∷ [])
  pub refused-pushed :
      (e : Sqe) (k : K) → (io.push e k).0 ≡ false → pushed (io.push e k).1 ≡ pushed k
  pub submit-pushed : (k : K) → pushed (io.submit k).1 ≡ pushed k
  pub wait-pushed : (n : ℕ) (k : K) → pushed (io.submit_and_wait n k).1 ≡ pushed k
  pub completion-pushed : (k : K) → pushed (io.completion k).1 ≡ pushed k
  pub push-pending :
      (e : Sqe) (k : K) (i : ℕ) → pending k i ≡ true → pending (io.push e k).1 i ≡ true
  pub push-taken :
      (e : Sqe) (k : K)
      → (io.push e k).0 ≡ true
      → (pending (io.push e k).1 (user_data e) ≡ true) × (count (io.push e k).1 ≡ suc (count k))
  pub push-refused :
      (e : Sqe) (k : K)
      → (io.push e k).0 ≡ false
      → count k < capacity
      → let k1 = (io.push e k).1 in
        (count k1 ≡ count k)
        × (is_ok (io.submit_and_wait 1 k1).0 ≡ true)
        × ((io.push e (io.submit_and_wait 1 k1).1).0 ≡ true)
  pub submit-pending : (k : K) (i : ℕ) → pending k i ≡ true → pending (io.submit k).1 i ≡ true
  pub submit-count : (k : K) → count (io.submit k).1 ≡ count k
  pub wait-pending :
      (n : ℕ) (k : K) (i : ℕ) → pending k i ≡ true → pending (io.submit_and_wait n k).1 i ≡ true
  pub wait-count : (n : ℕ) (k : K) → count (io.submit_and_wait n k).1 ≡ count k
  pub wait-returns :
      (n : ℕ) (k : K)
      → n ≤ count k
      → count k ≤ capacity
      → (is_ok (io.submit_and_wait n k).0 ≡ true)
        × (n ≤ length (io.completion (io.submit_and_wait n k).1).0)
  pub wait-reaped :
      (k0 : K)
      → let k = (io.completion k0).1 in
        1 ≤ count k
        → (is_ok (io.submit_and_wait 1 k).0 ≡ true)
          × (1 ≤ length (io.completion (io.submit_and_wait 1 k).1).0)
  pub pending-count : (k : K) (i : ℕ) → pending k i ≡ true → 1 ≤ count k
  pub completion-pending :
      (k : K) (i : ℕ)
      → pending k i ≡ true
      → (is_some (lookup i (io.completion k).0) || pending (io.completion k).1 i) ≡ true
  pub completion-Honest : (k : K) → Honest answer (io.completion k).0
  pub completion-count : (k : K) → count (io.completion k).1 + length (io.completion k).0 ≡ count k
