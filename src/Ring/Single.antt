-- ===== src/Ring/Single.antt =====
-- src/engines/linux.rs: what a single request returns, whatever else is under way.
use asynchstream.Exec.{Result}
use asynchstream.Base.{
  [], ◌∷◌, ◌++◌, ◌∙◌, ◌-◌, take, ℕ, ◌+◌, ◌^◌, ◌%◌, ◌<◌, ◌≡◌, refl, Bool, Option, List, ℤ, pos,
  negsuc, arith,
}
use asynchstream.Ring.{
  Sqe, splice, user_data, IoUring, RingState, Thread, checked, push_entry, read_entry, write_entry,
  truncated, submit_one, submit_uring_read, submit_uring_write, submit_uring_splice,
}
use asynchstream.Ring.Completed.{Honest}
use asynchstream.Ring.Kernel.{Kernel}
use asynchstream.Ring.Waiting.{poll_completion_for_id-Polls, idle-small}
use asynchstream.Ring.Pushing.{push_entry-Pushes, AllOwed}
use asynchstream.Ring.InOrder.{outcome, accepted, thread}

checked-outcome :
    {K A : Type 0} (f : ℕ → A) (res : ℤ) (loop : Bool) (t : Thread K)
    → (checked f res loop t).0 ≡ outcome f res
checked-outcome f (pos n) loop t = refl
checked-outcome f (negsuc n) loop t = refl

module _ {K : Type 0} (io : IoUring K) (answer : ℕ → ℤ) (kernel : Kernel io answer)
    (ring_size : Option ℕ) (fuel start : ℕ) (loop : Bool) (s : RingState K)
    (honest : Honest answer s.completed) (room : kernel.count s.ring < kernel.capacity)
    (enough : kernel.count s.ring + 2 < fuel) where
  -- The result of a request, and the requests that were accepted.
  abbrev pub Submits : {A : Type 0} → Sqe → Result A → Result A × Thread K → Type 0
  Submits e r out =
      (out.0 ≡ r) × (accepted io answer kernel out.1 ≡ kernel.pushed s.ring ++ (e ∷ []))

  checked-accepted :
      {A : Type 0} (f : ℕ → A) (res : ℤ) (t : Thread K) (l : List Sqe)
      → accepted io answer kernel t ≡ l
      → accepted io answer kernel (checked f res loop t).1 ≡ l
  checked-accepted f (pos n) t l h = h
  checked-accepted f (negsuc n) t l h = h

  submit_one-outcome :
      {A : Type 0} (make : ℕ → Sqe) (got : ℕ → ℕ → A)
      → user_data (make start) ≡ start
      → Submits
          (make start)
          (outcome (got start) (answer start))
          (submit_one io ring_size fuel make got loop (thread start s))
  unfolding submit_one AllOwed
  submit_one-outcome make got numbered =
      let p = push_entry-Pushes io answer kernel loop (make start) s room in
      let s1 = (push_entry io (make start) loop s).1 in
      let c = p.more in
      let i = idle-small (io.completion s1.ring).0 in
      let q =
        poll_completion_for_id-Polls io answer kernel loop fuel start s1 (rw p.same honest)
          (rw (numbered) at p.taken.0) (omega arith) in
      rw (p.value, q.value)
        (
          checked-outcome (got start) (answer start) loop _,
          checked-accepted (got start) (answer start) _ _ (q.log ∙ p.log),
        )

  -- For a kernel that keeps what io_uring documents, is not interrupted, and has one result for every
  -- request, on a thread whose ring is made and keeps only true results, given more fuel than the requests
  -- under way and two: a read, a write and a splice return the result of their own request, a read its buffer
  -- cut to that length, or an OSError where it failed.
  pub single_requests :
      (fd fd_out offset size : ℕ) (buf : List ℕ)
      → Submits
          (Sqe.read fd offset (size % 2 ^ 32) start)
          (outcome (λ n. take n (io.buffer start)) (answer start))
          (submit_uring_read io ring_size fuel fd offset size loop (thread start s))
        × Submits
            (Sqe.write fd buf (2 ^ 64 - 1) start)
            (outcome (λ n. n) (answer start))
            (submit_uring_write io ring_size fuel fd buf loop (thread start s))
        × Submits
            (splice fd fd_out (size % 2 ^ 32) start)
            (outcome (λ n. n) (answer start))
            (submit_uring_splice io ring_size fuel fd fd_out size loop (thread start s))
  unfolding submit_uring_read submit_uring_write submit_uring_splice
  single_requests fd fd_out offset size buf = (
    submit_one-outcome (λ id. read_entry fd id (offset, size)) (truncated io) refl,
    submit_one-outcome (λ id. write_entry fd id buf) (λ id n. n) refl,
    submit_one-outcome (splice fd fd_out (size % 2 ^ 32)) (λ id n. n) refl,
  )
