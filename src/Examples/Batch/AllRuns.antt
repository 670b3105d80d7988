-- ===== src/Examples/Batch/AllRuns.antt =====
-- examples/01_sync_and_async_file_io.py: the five benchmarks agree, for every size of the payload.
use mathlib.Core.Path.{subst}
use asynchstream.Base.{ℕ, ◌*◌, ◌<◌, ◌≡◌, some, List, length, ℤ}
use asynchstream.Exec.{Exec}
use asynchstream.Object.{Chunk, bytes, Stream}
use asynchstream.Examples.{Gather}
use asynchstream.Examples.Gather.{IsGather}
use asynchstream.Examples.Batch.{
  repeat, Descriptors, run_os_sync_benchmark, run_builtin_sync_benchmark, run_aiofiles_benchmark,
  run_async_pipelined_benchmark, run_async_batch_api_benchmark, make_payload, payload_size_kb,
}
use asynchstream.Examples.Batch.Payload.{length-make_payload}
use asynchstream.Examples.Batch.ReadBack.{IsPlain, IsDescriptor, IsAsync, OpensEmpty}
use asynchstream.Examples.Batch.Runs.{
  Returns, os_reads_back, builtin_reads_back, aiofiles_reads_back, pipelined_reads_back,
  batch_reads_back,
}

-- For a chunk that is not empty, any requested size, any number of operations, files that write at the end
-- and read on from their position, the batches of `AsyncIOBase`, and a `gather` that lets its coroutines
-- go on in any order, each at least once: the payload has its clamped size, each of the five benchmarks
-- returns, having read the payload at every read, and the three that count their writes have written it
-- whole each time.
pub benchmarks_read_back :
    {W : Type 0} (behind ahead : W → List ℕ) (os : Descriptors W)
    (orig_open aio_open open_file : Exec W (Stream W))
    → OpensEmpty behind ahead (IsDescriptor behind ahead os) os.open_fd
    → OpensEmpty behind ahead (IsPlain behind ahead) orig_open
    → OpensEmpty behind ahead (IsPlain behind ahead) aio_open
    → OpensEmpty behind ahead (IsAsync behind ahead) open_file
    → (gather : Gather W) → IsGather 1 gather
    → (base_chunk : List ℕ) (kb : ℤ) → 0 < length base_chunk
    → (size : ℕ) (w : W)
    → let payload = make_payload base_chunk kb in
      let n = payload_size_kb kb * 1024 in
      (length payload ≡ n)
      × Returns w (run_os_sync_benchmark os size payload) (repeat size (bytes payload))
      × Returns w (run_builtin_sync_benchmark orig_open size payload) (repeat size (bytes payload))
      × Returns w
          (run_aiofiles_benchmark size payload gather (some aio_open))
          (repeat size n, repeat size (bytes payload))
      × Returns w
          (run_async_pipelined_benchmark open_file size payload gather)
          (repeat size n, repeat size (bytes payload))
      × Returns w
          (run_async_batch_api_benchmark open_file size payload)
          (repeat size n, repeat size (bytes payload))
benchmarks_read_back behind ahead os orig_open aio_open open_file hd ho ha hf gather g base_chunk kb
      h size w =
    let p = make_payload base_chunk kb in
    let len = length-make_payload base_chunk kb h in
    let answer = λ (m : Exec _ (List ℕ × List Chunk)) (k : ℕ).
      Returns w m (repeat size k, repeat size (bytes p)) in
    (
      len,
      os_reads_back behind ahead orig_open size p w os hd,
      builtin_reads_back behind ahead orig_open size p w ho,
      subst (answer (run_aiofiles_benchmark size p gather (some aio_open))) len
          (aiofiles_reads_back behind ahead aio_open size p w ha gather g),
      subst (answer (run_async_pipelined_benchmark open_file size p gather)) len
          (pipelined_reads_back behind ahead open_file size p w hf gather g),
      subst (answer (run_async_batch_api_benchmark open_file size p)) len
          (batch_reads_back behind ahead open_file size p w hf),
    )
