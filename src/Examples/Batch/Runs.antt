-- ===== src/Examples/Batch/Runs.antt =====
-- examples/01_sync_and_async_file_io.py: the five benchmarks, one by one.
use asynchstream.Base.{true, ℕ, ◌≡◌, refl, ◌∙◌, some, List, length, pos}
use asynchstream.Exec.{Exec, ok, call, run}
use asynchstream.Object.{bytes, just_size, spec_size, Stream}
use asynchstream.Stream.{base_aread_batch, base_awrite_batch}
use asynchstream.Examples.{Gather}
use asynchstream.Examples.Gather.{IsGather}
use asynchstream.Examples.Batch.{
  repeat, Descriptors, run_os_sync_benchmark, run_aiofiles_benchmark, run_builtin_sync_benchmark,
  run_async_pipelined_benchmark, run_async_batch_api_benchmark,
}
use asynchstream.Examples.Batch.Shared.{comprehension-repeat, gather-repeat}
use asynchstream.Examples.Batch.ReadBack.{
  IsPlain, IsDescriptor, IsAsync, OpensEmpty, Unwritten, Unread, write-IsRepeatable,
  read-IsRepeatable, warmed_up, turned_around,
}

-- The action, awaited or called in a running loop, returns this.
abbrev pub Returns : {W A : Type 0} → W → Exec W A → A → Type 0
Returns w m a = (w' : _) × (m true w ≡ (ok a, w'))

module _ {W : Type 0} (behind ahead : W → List ℕ) (open_file : Exec W (Stream W)) (size : ℕ)
    (payload : List ℕ) (w : W) where
  pub builtin_reads_back :
      OpensEmpty behind ahead (IsPlain behind ahead) open_file
      → Returns w (run_builtin_sync_benchmark open_file size payload) (repeat size (bytes payload))
  unfolding run_builtin_sync_benchmark
  builtin_reads_back opening =
      let (f, w0, r0, t, b, a) = opening.opens w in
      let (w1, w2, r1, r2, h2) =
        warmed_up behind ahead size payload (call f.write) (run f.flush) t.puts t.keeps w0 b a in
      let (w3, r3, h3) =
        comprehension-repeat true (call f.write (bytes payload)) (length payload)
          (Unwritten behind ahead size payload)
          (write-IsRepeatable behind ahead size payload (call f.write) t.puts) (call f.write)
          (bytes payload) refl size w2 h2 in
      let (n, w4, w5, r4, r5, h5) =
        turned_around behind ahead size payload f (call f.write) (call f.read) (run f.flush) t w3
          h3 in
      let (w6, r6, h6) =
        comprehension-repeat true (call f.read (pos (length payload))) (bytes payload)
          (Unread behind ahead size payload)
          (read-IsRepeatable behind ahead size payload (call f.read) t.gets) (call f.read)
          (pos (length payload)) refl size w5 h5 in
      let (w7, r7) = t.closes w6 in (w7, rw (r0, r1, r2, r3, r4, r5, r6, r7) refl)

  pub pipelined_reads_back :
      OpensEmpty behind ahead (IsAsync behind ahead) open_file
      → (gather : Gather W) → IsGather 1 gather
      → Returns w
          (run_async_pipelined_benchmark open_file size payload gather)
          (repeat size (length payload), repeat size (bytes payload))
  unfolding run_async_pipelined_benchmark
  pipelined_reads_back opening gather g =
      let (f, w0, r0, bt, b, a) = opening.opens w in
      let t = bt.tape in
      let (w1, w2, r1, r2, h2) =
        warmed_up behind ahead size payload (call f.awrite) (run f.aflush) t.puts t.keeps w0 b a in
      let (w3, r3, h3) =
        gather-repeat true (call f.awrite (bytes payload)) (length payload)
          (Unwritten behind ahead size payload)
          (write-IsRepeatable behind ahead size payload (call f.awrite) t.puts) gather g size w2
          h2 in
      let (n, w4, w5, r4, r5, h5) =
        turned_around behind ahead size payload f (call f.awrite) (call f.aread) (run f.aflush) t w3
          h3 in
      let (w6, r6, h6) =
        gather-repeat true (call f.aread (pos (length payload))) (bytes payload)
          (Unread behind ahead size payload)
          (read-IsRepeatable behind ahead size payload (call f.aread) t.gets) gather g size w5 h5 in
      let (w7, r7) = t.closes w6 in (w7, rw (r0, r1, r2, r3, r4, r5, r6, r7) refl)

  pub batch_reads_back :
      OpensEmpty behind ahead (IsAsync behind ahead) open_file
      → Returns w
          (run_async_batch_api_benchmark open_file size payload)
          (repeat size (length payload), repeat size (bytes payload))
  unfolding run_async_batch_api_benchmark base_aread_batch base_awrite_batch
  batch_reads_back opening =
      let (f, w0, r0, bt, b, a) = opening.opens w in
      let t = bt.tape in
      let (w1, w2, r1, r2, h2) =
        warmed_up behind ahead size payload (call f.awrite) (run f.aflush) t.puts t.keeps w0 b a in
      let (w3, r3, h3) =
        comprehension-repeat true (call bt.self.awrite (bytes payload)) (length payload)
          (Unwritten behind ahead size payload)
          (write-IsRepeatable behind ahead size payload (call bt.self.awrite) bt.self_puts)
          (call bt.self.awrite) (bytes payload) refl size w2 h2 in
      let (n, w4, w5, r4, r5, h5) =
        turned_around behind ahead size payload f (call f.awrite) (call f.aread) (run f.aflush) t w3
          h3 in
      let (w6, r6, h6) =
        comprehension-repeat true (call bt.self.aread (pos (length payload))) (bytes payload)
          (Unread behind ahead size payload)
          (read-IsRepeatable behind ahead size payload (call bt.self.aread) bt.self_gets)
          (λ sz. call bt.self.aread (spec_size sz)) (just_size (pos (length payload))) refl size w5
          h5 in
      let (w7, r7) = t.closes w6 in
      (
        w7,
        rw (r0, r1, r2, bt.awrites, bt.no_awrites, r3, r4, r5, bt.areads, bt.no_areads, r6, r7)
            refl,
      )

  pub aiofiles_reads_back :
      OpensEmpty behind ahead (IsPlain behind ahead) open_file
      → (gather : Gather W) → IsGather 1 gather
      → Returns w
          (run_aiofiles_benchmark size payload gather (some open_file))
          (repeat size (length payload), repeat size (bytes payload))
  unfolding run_aiofiles_benchmark
  aiofiles_reads_back opening gather g =
      let (f, w0, r0, t, b, a) = opening.opens w in
      let (w1, w2, r1, r2, h2) =
        warmed_up behind ahead size payload (call f.write) (run f.flush) t.puts t.keeps w0 b a in
      let (w3, r3, h3) =
        gather-repeat true (call f.write (bytes payload)) (length payload)
          (Unwritten behind ahead size payload)
          (write-IsRepeatable behind ahead size payload (call f.write) t.puts) gather g size w2
          h2 in
      let (n, w4, w5, r4, r5, h5) =
        turned_around behind ahead size payload f (call f.write) (call f.read) (run f.flush) t w3
          h3 in
      let (w6, r6, h6) =
        gather-repeat true (call f.read (pos (length payload))) (bytes payload)
          (Unread behind ahead size payload)
          (read-IsRepeatable behind ahead size payload (call f.read) t.gets) gather g size w5 h5 in
      let (w7, r7) = t.closes w6 in (w7, rw (r0, r1, r2, r3, r4, r5, r6, r7) refl)

  pub os_reads_back :
      (os : Descriptors W)
      → OpensEmpty behind ahead (IsDescriptor behind ahead os) os.open_fd
      → Returns w (run_os_sync_benchmark os size payload) (repeat size (bytes payload))
  unfolding run_os_sync_benchmark
  os_reads_back os opening =
      let (f, w0, r0, t, b, a) = opening.opens w in
      let (w2, r1, b2, a2) = t.puts w0 payload a in
      let h2 : Unwritten behind ahead size payload size w2 = (rw (b2, b) refl, a2) in
      let (w3, r3, h3) =
        comprehension-repeat true (os.write f (bytes payload)) (length payload)
          (Unwritten behind ahead size payload)
          (write-IsRepeatable behind ahead size payload (os.write f) t.puts) (os.write f)
          (bytes payload) refl size w2 h2 in
      let (n, w5, r5, a5) = t.rewinds w3 in
      let h5 : Unread behind ahead size payload size w5 = a5 ∙ rw (h3.1) (h3.0) in
      let (w6, r6, h6) =
        comprehension-repeat true (os.read f (pos (length payload))) (bytes payload)
          (Unread behind ahead size payload)
          (read-IsRepeatable behind ahead size payload (os.read f) t.gets) (os.read f)
          (pos (length payload)) refl size w5 h5 in
      let (w7, r7) = t.closes w6 in (w7, rw (r0, r1, r3, r5, r6, r7) refl)
