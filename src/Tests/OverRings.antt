-- ===== src/Tests/OverRings.antt =====
-- The theorems on native files over the rings, at a file of a few bytes.
use asynchstream.Base.{
  ℕ, ◌≡◌, refl, true, none, some, List, [], ◌∷◌, ◌++◌, ◌^◌, ◌-◌, take, map, minus_one, pos, arith,
}
use asynchstream.Object.{bytes, Spec, just_size}
use asynchstream.File.{linux}
use asynchstream.Native.{
  Open, u64_max, ReadSpec, if_ok, read_again, append_again, read_batch_again, native_aread,
  native_awrite, native_aread_batch,
}
use asynchstream.Native.Host.{Host, over_rings}
use asynchstream.Native.OverRings.{spec_read, Answered, aread_batch_over_rings, requests_over_rings}
use asynchstream.Ring.{Sqe, Thread, ids_from}
use asynchstream.Ring.Batch.{reads_of}
use asynchstream.Ring.Completed.{Honest}
use asynchstream.Ring.InOrder.{in_order, outcome, thread}
use asynchstream.Tests.Rings.{Queue, newest_first, answer, newest_first_kernel, idle_ring}
use asynchstream.Tests.Native.{os, read_only_file}

abbrev opened_over : Open (Host (List ℕ) Queue)
opened_over = record {
  file = some 3;
  world = record { files = 7 ∷ 8 ∷ []; worker = thread 4 idle_ring };
}

abbrev two_specs : List Spec
two_specs = just_size (pos 2) ∷ just_size (pos 5) ∷ []

abbrev two_reads : List ReadSpec
two_reads = (u64_max, 2) ∷ (u64_max, 5) ∷ []

abbrev two_bytes : List ℕ
two_bytes = 7 ∷ 8 ∷ []

-- The position moves by a byte for every request.
abbrev settle : Thread Queue → Thread Queue → List ℕ → List ℕ
settle t t' w = w ++ (t'.next_user_data ∷ [])

aread_batch_over_rings_example :
    (two_reads ≡ map spec_read two_specs)
    × Answered newest_first settle answer newest_first_kernel 4 idle_ring 3 true two_bytes
        (Sqe.read 3 u64_max 2 4 ∷ Sqe.read 3 u64_max 5 5 ∷ [])
        (if_ok
          (in_order answer (λ id n. take n (newest_first.buffer id)) (ids_from 4 two_reads))
          (read_batch_again os linux read_only_file two_reads))
        (native_aread_batch
          (over_rings newest_first settle none 9 os)
          linux
          read_only_file
          two_specs
          true
          opened_over)
unfolding Honest reads_of
aread_batch_over_rings_example =
    aread_batch_over_rings newest_first settle answer newest_first_kernel none 9 4 idle_ring tt os
      read_only_file 3 true two_bytes two_specs two_reads refl (omega arith) (omega arith)
      (omega arith)

requests_over_rings_example :
    Answered newest_first settle answer newest_first_kernel 4 idle_ring 3 true two_bytes
      (Sqe.read 3 0 65536 4 ∷ [])
      (if_ok
        (outcome (λ n. take n (newest_first.buffer 4)) (answer 4))
        (read_again os linux read_only_file minus_one))
      (native_aread
        (over_rings newest_first settle none 9 os)
        linux
        read_only_file
        none
        true
        opened_over)
    × Answered newest_first settle answer newest_first_kernel 4 idle_ring 3 true two_bytes
        (Sqe.write 3 (1 ∷ []) (2 ^ 64 - 1) 4 ∷ [])
        (if_ok (outcome (λ n. n) (answer 4)) (append_again os linux read_only_file (1 ∷ [])))
        (native_awrite
          (over_rings newest_first settle none 9 os)
          linux
          read_only_file
          (bytes (1 ∷ []))
          true
          opened_over)
unfolding Honest
requests_over_rings_example =
    requests_over_rings newest_first settle answer newest_first_kernel none 9 4 idle_ring tt os
      read_only_file 3 true two_bytes none (bytes (1 ∷ [])) (1 ∷ []) refl (omega arith)
      (omega arith)
