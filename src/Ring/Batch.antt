-- ===== src/Ring/Batch.antt =====
-- src/engines/linux.rs: the batches of reads and writes, from their entries to their results.
use asynchstream.Base.{
  ℕ, ◌+◌, ◌%◌, ◌^◌, ◌-◌, ◌<◌, ◌≤◌, ◌≡◌, refl, sym, ap, ◌∙◌, ◌++◌, append-nil, take, Bool, Option,
  List, [], ◌∷◌, map, ℤ, arith, length,
}
use asynchstream.Ring.{
  Sqe, user_data, IoUring, RingState, wait_for, push_all, entries_from, ids_from, submit_batch,
  truncated, read_entry, write_entry, submit_uring_read_batch, submit_uring_write_batch,
}
use asynchstream.Ring.Completed.{Honest}
use asynchstream.Ring.Kernel.{Kernel}
use asynchstream.Ring.Waiting.{is_ok-cases, wait-Later}
use asynchstream.Ring.Pushing.{AllOwed-later, Pushes, push_all-Pushes}
use asynchstream.Ring.InOrder.{in_order, accepted, Absent, Distinct, thread, collect-in_order}

module _ {X : Type 0} (make : ℕ → X → Sqe)
    (numbered : (id : ℕ) (x : X) → user_data (make id x) ≡ id) where
  user_data-entries_from :
      (id : ℕ) (xs : List X) → map user_data (entries_from make id xs) ≡ ids_from id xs
  unfolding entries_from ids_from
  user_data-entries_from id [] = refl
  user_data-entries_from id (x ∷ xs) =
      rw (numbered id x, user_data-entries_from ((id + 1) % 2 ^ 64) xs) refl

  length-entries_from : (id : ℕ) (xs : List X) → length (entries_from make id xs) ≡ length xs
  unfolding entries_from
  length-entries_from id [] = refl
  length-entries_from id (x ∷ xs) = omega (arith, length-entries_from ((id + 1) % 2 ^ 64) xs)

small_mod : (n : ℕ) → n < 2 ^ 64 → n % 2 ^ 64 ≡ n
small_mod n h = omega arith

ids_from-Absent :
    {X : Type 0} (id j : ℕ) (xs : List X)
    → id < j
    → j + length xs < 2 ^ 64
    → Absent id (ids_from j xs)
unfolding ids_from Absent
ids_from-Absent id j [] l h = tt
ids_from-Absent id j (x ∷ xs) l h =
    rw (small_mod (j + 1) (omega arith))
      (ground arith, ids_from-Absent id (j + 1) xs (omega arith) (omega arith))

ids_from-Distinct :
    {X : Type 0} (id : ℕ) (xs : List X) → id + length xs < 2 ^ 64 → Distinct (ids_from id xs)
unfolding ids_from Distinct
ids_from-Distinct id [] h = tt
ids_from-Distinct id (x ∷ xs) h = rw (small_mod (id + 1) (omega arith)) (
  ids_from-Absent id (id + 1) xs (omega arith) (omega arith),
  ids_from-Distinct (id + 1) xs (omega arith),
)

length-ids_from : {X : Type 0} (id : ℕ) (xs : List X) → length (ids_from id xs) ≡ length xs
unfolding ids_from
length-ids_from id [] = refl
length-ids_from id (x ∷ xs) = rw (length-ids_from ((id + 1) % 2 ^ 64) xs) refl

module _ {K : Type 0} (io : IoUring K) (answer : ℕ → ℤ) (kernel : Kernel io answer) where
  entries-Pushes :
      {X : Type 0} (loop : Bool) (s : RingState K) (make : ℕ → X → Sqe)
      → ((id : ℕ) (x : X) → user_data (make id x) ≡ id)
      → (start : ℕ) (xs : List X) → kernel.count s.ring + length xs ≤ kernel.capacity
      → Pushes io answer kernel s
          (entries_from make start xs)
          (ids_from start xs)
          (push_all io (entries_from make start xs) loop s)
  entries-Pushes loop s make numbered start xs room =
      let len = length-entries_from make numbered start xs in
      rw⁻¹ (user_data-entries_from make numbered start xs) (
        push_all-Pushes io answer kernel loop (entries_from make start xs) s
          (omega (arith, room, len)))

-- The reads of a batch: each spec at its own offset and of its own size, cut to 32 bits, with the next
-- number.
unfoldable pub reads_of : ℕ → ℕ → List (ℕ × ℕ) → List Sqe
reads_of fd id [] = []
reads_of fd id ((offset, size) ∷ specs) =
    Sqe.read fd offset (size % 2 ^ 32) id ∷ reads_of fd (id + 1) specs

entries_from-reads_of :
    (fd id : ℕ) (specs : List (ℕ × ℕ))
    → id + length specs < 2 ^ 64
    → entries_from (read_entry fd) id specs ≡ reads_of fd id specs
unfolding entries_from reads_of
entries_from-reads_of fd id [] h = refl
entries_from-reads_of fd id ((offset, size) ∷ specs) h =
    rw
      (
        small_mod (id + 1) (omega (arith, h)),
        entries_from-reads_of fd (id + 1) specs (omega (arith, h)),
      )
      refl

-- The writes of a batch: each chunk at the current position.
unfoldable pub writes_of : ℕ → ℕ → List (List ℕ) → List Sqe
writes_of fd id [] = []
writes_of fd id (chunk ∷ chunks) = Sqe.write fd chunk (2 ^ 64 - 1) id ∷ writes_of fd (id + 1) chunks

entries_from-writes_of :
    (fd id : ℕ) (chunks : List (List ℕ))
    → id + length chunks < 2 ^ 64
    → entries_from (write_entry fd) id chunks ≡ writes_of fd id chunks
unfolding entries_from writes_of
entries_from-writes_of fd id [] h = refl
entries_from-writes_of fd id (chunk ∷ chunks) h =
    rw
      (
        small_mod (id + 1) (omega (arith, h)),
        entries_from-writes_of fd (id + 1) chunks (omega (arith, h)),
      )
      refl

module _ {K : Type 0} (io : IoUring K) (answer : ℕ → ℤ) (kernel : Kernel io answer)
    (ring_size : Option ℕ) (fuel start : ℕ) (loop : Bool) (s : RingState K) where
  submit_batch-in_order :
      {X A : Type 0} (make : ℕ → X → Sqe) (got : ℕ → ℕ → A) (xs : List X)
      → ((id : ℕ) (x : X) → user_data (make id x) ≡ id)
      → Honest answer s.completed
      → start + length xs < 2 ^ 64
      → kernel.count s.ring + length xs ≤ kernel.capacity
      → kernel.count s.ring + length xs + 1 < fuel
      → let out = submit_batch io ring_size fuel make got xs loop (thread start s) in
        (out.0 ≡ in_order answer got (ids_from start xs))
        × (accepted io answer kernel out.1 ≡ kernel.pushed s.ring ++ entries_from make start xs)
  unfolding submit_batch
  submit_batch-in_order make got xs numbered h b room f =
      let es = entries_from make start xs in
      let p = entries-Pushes io answer kernel loop s make numbered start xs room in
      let s1 = (push_all io es loop s).1 in
      let c = p.more in
      let e = length-ids_from start xs in
      let (r, l) =
        kernel.wait-returns (length xs) s1.ring (omega arith) (omega (arith, c, e, room)) in
      let (n, q) = is_ok-cases (io.submit_and_wait (length xs) s1.ring).0 r in
      let w = wait-Later io answer kernel (length xs) s1 in
      let s2 = (wait_for io (length xs) loop s1).1 in
      let c2 = w.fewer in
      let o = AllOwed-later io answer kernel s1 s2 (ids_from start xs) w.owes p.taken in
      let (r, l) =
        collect-in_order io answer kernel ring_size got loop fuel ((start + length xs) % 2 ^ 64) s2
          (ids_from start xs) (rw p.same h) o (ids_from-Distinct start xs b) (omega arith) in
      rw (p.value, q) (r, l ∙ (w.log ∙ p.log))

  -- For a kernel that keeps what io_uring documents, is not interrupted, and has one result for every
  -- request, on a thread whose ring is made and keeps only true results, where the numbers of the batch do
  -- not overflow, the completion queue has room for the batch and all that is under way, and given more fuel
  -- than these and one: the ring accepts just one read for each spec, in their order, of the descriptor, at
  -- the offset and of the size of the spec, cut to 32 bits, under the next number; and
  -- `submit_uring_read_batch` returns what the kernel answered to these numbers in the order of the specs,
  -- every buffer cut to its length, or the OSError of the first that failed, in whatever order the
  -- completions come in.
  pub read_batch_in_order :
      (fd : ℕ) (specs : List (ℕ × ℕ))
      → Honest answer s.completed
      → start + length specs < 2 ^ 64
      → kernel.count s.ring + length specs ≤ kernel.capacity
      → kernel.count s.ring + length specs + 1 < fuel
      → let out = submit_uring_read_batch io ring_size fuel fd specs loop (thread start s) in
        (out.0 ≡ in_order answer (λ id n. take n (io.buffer id)) (ids_from start specs))
        × (accepted io answer kernel out.1 ≡ kernel.pushed s.ring ++ reads_of fd start specs)
  unfolding submit_uring_read_batch in_order ids_from reads_of
  read_batch_in_order fd [] h b room f = (refl, sym (append-nil (kernel.pushed s.ring)))
  read_batch_in_order fd (spec ∷ specs) h b room f =
      let (r, l) =
        submit_batch-in_order (read_entry fd) (truncated io) (spec ∷ specs) (λ id x. refl) h b room
          f in
      (
        r,
        l ∙ ap (λ es. kernel.pushed s.ring ++ es) (entries_from-reads_of fd start (spec ∷ specs) b),
      )

  -- The same of `submit_uring_write_batch`, which returns the lengths that were written.
  write_batch_in_order :
      (fd : ℕ) (chunks : List (List ℕ))
      → Honest answer s.completed
      → start + length chunks < 2 ^ 64
      → kernel.count s.ring + length chunks ≤ kernel.capacity
      → kernel.count s.ring + length chunks + 1 < fuel
      → let out = submit_uring_write_batch io ring_size fuel fd chunks loop (thread start s) in
        (out.0 ≡ in_order answer (λ id n. n) (ids_from start chunks))
        × (accepted io answer kernel out.1 ≡ kernel.pushed s.ring ++ writes_of fd start chunks)
  unfolding submit_uring_write_batch in_order ids_from writes_of
  write_batch_in_order fd [] h b room f = (refl, sym (append-nil (kernel.pushed s.ring)))
  write_batch_in_order fd (chunk ∷ chunks) h b room f =
      let (r, l) =
        submit_batch-in_order (write_entry fd) (λ id n. n) (chunk ∷ chunks) (λ id x. refl) h b room
          f in
      (
        r,
        l
            ∙ ap (λ es. kernel.pushed s.ring ++ es)
                (entries_from-writes_of fd start (chunk ∷ chunks) b),
      )
