-- ===== src/Native/OverRings.antt =====
-- src/file_io.rs over src/engines/linux.rs: a native file whose requests go to the thread's io_uring.
use asynchstream.Base.{
  [], ◌∷◌, ◌++◌, ◌-◌, ◌%◌, ◌≤◌, map, inl, inr, Option-cases, arith, pos, negsuc, none, take, sym,
  ap, ◌∙◌, ℕ, ◌+◌, ◌^◌, ◌<◌, ◌≡◌, refl, Bool, Option, some, List, ℤ, length,
}
use asynchstream.Object.{Chunk, Spec, just_size, at_offset}
use asynchstream.File.{linux}
use asynchstream.Native.{
  Os, NativeFile, Open, ReadSpec, if_ok, read_specs, sizes_of, tuples_of, read_again, append_again,
  read_batch_again, native_aread, native_awrite, native_aread_batch, size_or, ring_size, payload,
}
use asynchstream.Exec.{Exec, Result}
use asynchstream.Ring.{
  Sqe, IoUring, RingState, Thread, ids_from, submit_uring_read, submit_uring_write,
  submit_uring_read_batch,
}
use asynchstream.Ring.Completed.{Honest}
use asynchstream.Ring.Kernel.{Kernel}
use asynchstream.Ring.InOrder.{in_order, outcome, accepted, thread}
use asynchstream.Ring.Single.{Submits, single_requests}
use asynchstream.Ring.Batch.{reads_of, read_batch_in_order}
use asynchstream.Native.Host.{
  Host, OnFiles, over_rings, if_ok-OnFiles, append_again-OnFiles, read_again-OnFiles,
  read_batch_again-OnFiles,
}

-- The length that `aread` asks for: the size, or 65536 where none or a negative one is given.
abbrev pub wanted : Option ℤ → ℕ
wanted (some (pos n)) = n
wanted _ = 65536

-- A size is read at the current position, and a pair at its offset.
abbrev pub spec_read : Spec → ReadSpec
spec_read (just_size (pos n)) = (2 ^ 64 - 1, n)
spec_read (at_offset (pos offset) (pos n)) = (offset, n)
spec_read _ = (0, 0)

sizes_of-map :
    (specs : List Spec) (reads : List ReadSpec)
    → sizes_of specs ≡ some reads
    → reads ≡ map spec_read specs
sizes_of-map [] reads h = ground (arith, h)
sizes_of-map (just_size (pos n) ∷ specs) reads h = elim (Option-cases (sizes_of specs)) [
  | inl e ↦ ground (arith, e, h)
  | inr (l, e) ↦ ground (arith, e, h, sizes_of-map specs l e)
]
sizes_of-map (just_size (negsuc n) ∷ specs) reads h = cc
sizes_of-map (at_offset offset size ∷ specs) reads h = cc

tuples_of-map :
    (specs : List Spec) (reads : List ReadSpec)
    → tuples_of specs ≡ some reads
    → reads ≡ map spec_read specs
tuples_of-map [] reads h = ground (arith, h)
tuples_of-map (just_size n ∷ specs) reads h = cc
tuples_of-map (at_offset (pos n) (pos size) ∷ specs) reads h =
    elim (Option-cases (tuples_of specs)) [
      | inl e ↦ ground (arith, e, h)
      | inr (l, e) ↦ ground (arith, e, h, tuples_of-map specs l e)
    ]
tuples_of-map (at_offset (negsuc n) size ∷ specs) reads h = cc
tuples_of-map (at_offset (pos n) (negsuc size) ∷ specs) reads h = cc

read_specs-map :
    (specs : List Spec) (reads : List ReadSpec)
    → read_specs specs ≡ some reads
    → reads ≡ map spec_read specs
read_specs-map specs reads h = elim (Option-cases (sizes_of specs)) [
  | inl e ↦ tuples_of-map specs reads (rw e at h)
  | inr (l, e) ↦ sizes_of-map specs reads (e ∙ (rw e at h))
]

ring_size-wanted : (size : Option ℤ) → ring_size (size_or size) ≡ wanted size
ring_size-wanted none = refl
ring_size-wanted (some (pos n)) = refl
ring_size-wanted (some (negsuc n)) = refl

module _ {W K : Type 0} (io : IoUring K) (settle : Thread K → Thread K → W → W) (answer : ℕ → ℤ)
    (kernel : Kernel io answer) (start_id : ℕ) (s : RingState K) (f : ℕ) (loop : Bool) (w : W) where
  -- The ring accepted the requests `es` and no others, what the kernel did to the files stands, and then
  -- `m` is what was done on the files.
  abbrev pub Answered : {A : Type 0} → List Sqe → Exec W A → Result A × Open (Host W K) → Type 0
  Answered es m out =
      let t = out.1.world.worker in
      (accepted io answer kernel t ≡ kernel.pushed s.ring ++ es)
      × ((out.0, out.1.world.files) ≡ m loop (settle (thread start_id s) t w))
      × (out.1.file ≡ some f)

module _ {W K : Type 0} (io : IoUring K) (settle : Thread K → Thread K → W → W) (answer : ℕ → ℤ)
    (kernel : Kernel io answer) (ring_entries : Option ℕ) (fuel start_id : ℕ) (s : RingState K)
    (honest : Honest answer s.completed) (os : Os W) (self : NativeFile) (f : ℕ) (loop : Bool)
    (w : W) where
  abbrev pub opened : Open (Host W K)
  opened = record { file = some f; world = record { files = w; worker = thread start_id s } }

  abbrev pub host : Os (Host W K)
  host = over_rings io settle ring_entries fuel os

  -- A request of a ring, and on an error an action on the files.
  request-Answered :
      {A : Type 0} (es : List Sqe) (r : Result A) (q : Result A × Thread K) (m : Exec (Host W K) A)
      (m' : Exec W A)
      → (q.0 ≡ r) × (accepted io answer kernel q.1 ≡ kernel.pushed s.ring ++ es)
      → OnFiles m m'
      → let h : Host W K = record { files = settle (thread start_id s) q.1 w; worker = q.1 } in
        let out = if_ok q.0 m loop h in
        Answered io settle answer kernel start_id s f loop w es
          (if_ok r m')
          (out.0, record { file = some f; world = out.1 })
  request-Answered es r q m m' (e, l) p =
      let h : Host W K = record { files = settle (thread start_id s) q.1 w; worker = q.1 } in
      let (v, k) = if_ok-OnFiles q.0 m m' loop h p in
      (
        ap (λ t. accepted io answer kernel t) k ∙ l,
        v
            ∙ (ap (λ x. if_ok x m' loop (settle (thread start_id s) q.1 w)) e
                ∙ ap (λ t. if_ok r m' loop (settle (thread start_id s) t w)) (sym k)),
        refl,
      )

  -- On Linux, with such a kernel, a worker thread whose ring is made and keeps only true results, numbers that
  -- do not overflow, room in the completion queue and fuel as for a batch: for specs that are all sizes or
  -- all pairs that fit, `aread_batch` of an open native file submits just one read of that file for each spec,
  -- a size at the current position and a pair at its offset; it returns what the kernel answered, in the order
  -- of the specs, with the files as the kernel has left them; or, where one of these reads failed, it does
  -- from there what reading the whole batch again by the path does. The file stays open.
  pub aread_batch_over_rings :
      (specs : List Spec) (reads : List ReadSpec)
      → read_specs specs ≡ some reads
      → start_id + length reads < 2 ^ 64
      → kernel.count s.ring + length reads ≤ kernel.capacity
      → kernel.count s.ring + length reads + 1 < fuel
      → (reads ≡ map spec_read specs)
        × Answered io settle answer kernel start_id s f loop w
            (reads_of f start_id reads)
            (if_ok
              (in_order answer (λ id n. take n (io.buffer id)) (ids_from start_id reads))
              (read_batch_again os linux self reads))
            (native_aread_batch host linux self specs loop opened)
  unfolding native_aread_batch
  aread_batch_over_rings specs reads r b room c =
      let e =
        read_batch_in_order io answer kernel ring_entries fuel start_id loop s f reads honest b room
          c in
      (
        read_specs-map specs reads r,
        rw r (
            request-Answered (reads_of f start_id reads)
              (in_order answer (λ id n. take n (io.buffer id)) (ids_from start_id reads))
              (submit_uring_read_batch io ring_entries fuel f reads loop (thread start_id s))
              (read_batch_again host linux self reads) (read_batch_again os linux self reads) e
              (read_batch_again-OnFiles io settle ring_entries fuel os self reads)),
      )

  -- On Linux, with such a kernel and worker thread, room in the completion queue for one more, and more fuel
  -- than the requests under way and two: `aread` of an open native file submits just one read of it, at offset
  -- 0, of the size or of 65536 bytes where none or a negative one is given; `awrite` of bytes, or of a text
  -- that has an encoding, submits just one write of these bytes at the current position. They return what the
  -- kernel answered, with the files as the kernel has left them, or, where the request failed, do from there
  -- what reading or appending by the path does. The file stays open.
  pub requests_over_rings :
      (size : Option ℤ) (b : Chunk) (buf : List ℕ)
      → payload b ≡ some buf
      → kernel.count s.ring < kernel.capacity
      → kernel.count s.ring + 2 < fuel
      → Answered io settle answer kernel start_id s f loop w
          (Sqe.read f 0 (wanted size % 2 ^ 32) start_id ∷ [])
          (if_ok
            (outcome (λ n. take n (io.buffer start_id)) (answer start_id))
            (read_again os linux self (size_or size)))
          (native_aread host linux self size loop opened)
        × Answered io settle answer kernel start_id s f loop w
            (Sqe.write f buf (2 ^ 64 - 1) start_id ∷ [])
            (if_ok (outcome (λ n. n) (answer start_id)) (append_again os linux self buf))
            (native_awrite host linux self b loop opened)
  unfolding native_aread native_awrite
  requests_over_rings size b buf p room c =
      let (er, ew, es) =
        single_requests io answer kernel ring_entries fuel start_id loop s honest room c f 0 0
          (ring_size (size_or size)) buf in
      let er' : Submits io answer kernel ring_entries fuel start_id loop s honest room c
          (Sqe.read f 0 (wanted size % 2 ^ 32) start_id)
          (outcome (λ n. take n (io.buffer start_id)) (answer start_id))
          (submit_uring_read io ring_entries fuel f 0 (ring_size (size_or size)) loop
            (thread start_id s)) =
        rw (← ring_size-wanted size) er in
      (
        request-Answered (Sqe.read f 0 (wanted size % 2 ^ 32) start_id ∷ [])
            (outcome (λ n. take n (io.buffer start_id)) (answer start_id))
            (submit_uring_read io ring_entries fuel f 0 (ring_size (size_or size)) loop
              (thread start_id s))
            (read_again host linux self (size_or size)) (read_again os linux self (size_or size))
            er' (read_again-OnFiles io settle ring_entries fuel os self (size_or size)),
        rw p (
            request-Answered (Sqe.write f buf (2 ^ 64 - 1) start_id ∷ [])
              (outcome (λ n. n) (answer start_id))
              (submit_uring_write io ring_entries fuel f buf loop (thread start_id s))
              (append_again host linux self buf) (append_again os linux self buf) ew
              (append_again-OnFiles io settle ring_entries fuel os self buf)),
      )
