-- ===== src/Examples/Batch.antt =====
-- examples/01_sync_and_async_file_io.py: its five benchmarks, each of which writes a payload often
-- and reads it back. Opening the file and `asyncio.gather` are parameters, as is the payload.
pub mod Shared
pub mod ReadBack
pub mod Payload
pub mod Runs
pub mod AllRuns
use asynchstream.Base.{
  ℕ, zero, suc, ◌+◌, ◌*◌, ◌/◌, List, [], ◌∷◌, ◌++◌, length, take, ltb, ℤ, pos, negsuc, Option, none,
  some, if◌then◌else◌,
}
use asynchstream.Exec.{
  Exec, Result, ok, err, too_deep, pure, raise, attribute_error, call, run, comprehension, ◌>>=◌,
}
use asynchstream.Object.{Chunk, bytes, just_size, Stream, empty}
use asynchstream.Examples.{Gather}

-- `[x] * n`
abbrev pub repeat {ℓ} : {A : Type ℓ} → ℕ → A → List A
repeat zero x = []
repeat (suc n) x = x ∷ repeat n x

-- `b * n`, for bytes.
abbrev pub copies : ℕ → List ℕ → List ℕ
copies zero b = []
copies (suc n) b = b ++ copies n b

-- `max(1, min(kb, 2048))`
abbrev pub payload_size_kb : ℤ → ℕ
payload_size_kb (pos kb) = if ltb kb 1 then 1 else (if ltb kb 2048 then kb else 2048)
payload_size_kb (negsuc kb) = 1

unfoldable pub make_payload : List ℕ → ℤ → List ℕ
make_payload base_chunk kb =
    let payload_bytes = payload_size_kb kb * 1024 in
    take payload_bytes (copies (payload_bytes / length base_chunk + 1) base_chunk)

-- What `try: m finally: c` comes to, once `c` has run after `m`.
abbrev pub after : {A : Type 0} → Result A → Result (Unit {0}) → Result A
after r (ok u) = r
after r (err e) = err e
after r too_deep = too_deep

module _ {W : Type 0} where
  -- An awaitable of one operation, before and after it is done.
  abbrev pub go_on : {A : Type 0} → Exec W A → Option A → Exec W (Option A)
  go_on op none = do a ← op; pure (some a)
  go_on op (some a) = pure (some a)

  -- `f.seek(0)`
  abbrev pub rewind : Stream W → Exec W ℕ
  rewind f = go f.seek
    where
      go : Option (ℤ → ℤ → Exec W ℕ) → Exec W ℕ
      go none = raise attribute_error
      go (some m) = m (pos 0) (pos 0)

  abbrev pub finally : {A : Type 0} → Exec W A → Exec W (Unit {0}) → Exec W A
  finally m c loop w = let (r, w1) = m loop w in let (q, w2) = c loop w1 in (after r q, w2)

-- `os.open` of the file, `os.write`, `os.read`, `os.lseek` and `os.close`.
pub record Descriptors (W : Type 0) : Type 0 where
  pub open_fd : Exec W ℤ
  pub write : ℤ → Chunk → Exec W ℕ
  pub read : ℤ → ℤ → Exec W Chunk
  pub lseek : ℤ → ℤ → ℤ → Exec W ℕ
  pub close : ℤ → Exec W (Unit {0})

-- What seeks and closes a descriptor.
abbrev pub fd_stream : {W : Type 0} → Descriptors W → ℤ → Stream W
fd_stream os fd = record empty { seek = some (os.lseek fd); close = some (os.close fd) }

module _ {W : Type 0} (os : Descriptors W) (batch_size : ℕ) (payload : List ℕ) where
  unfoldable pub run_os_sync_benchmark : Exec W (List Chunk)
  run_os_sync_benchmark = do
    fd ← os.open_fd
    finally
        (do
          warmup ← os.write fd (bytes payload)
          writes ← comprehension (os.write fd) (repeat batch_size (bytes payload))
          start ← os.lseek fd (pos 0) (pos 0)
          comprehension (os.read fd) (repeat batch_size (pos (length payload))))
        (os.close fd)

module _ {W : Type 0} (open_file : Exec W (Stream W)) (batch_size : ℕ) (payload : List ℕ) where
  unfoldable pub run_builtin_sync_benchmark : Exec W (List Chunk)
  run_builtin_sync_benchmark = do
    f ← open_file
    finally
        (do
          warmup ← call f.write (bytes payload)
          flushed ← run f.flush
          writes ← comprehension (call f.write) (repeat batch_size (bytes payload))
          flushed_again ← run f.flush
          start ← rewind f
          comprehension (call f.read) (repeat batch_size (pos (length payload))))
        (run f.close)

  unfoldable pub run_async_pipelined_benchmark : Gather W → Exec W (List ℕ × List Chunk)
  run_async_pipelined_benchmark gather = do
    f ← open_file
    warmup ← call f.awrite (bytes payload)
    flushed ← run f.aflush
    write_results ←
        gather (Option ℕ) ℕ (go_on (call f.awrite (bytes payload))) (λ s. s)
          (repeat batch_size none)
    flushed_again ← run f.aflush
    start ← rewind f
    async_reads ←
        gather (Option Chunk) Chunk (go_on (call f.aread (pos (length payload)))) (λ s. s)
          (repeat batch_size none)
    closed ← run f.close
    pure (write_results, async_reads)

  unfoldable pub run_async_batch_api_benchmark : Exec W (List ℕ × List Chunk)
  run_async_batch_api_benchmark = do
    f ← open_file
    warmup ← call f.awrite (bytes payload)
    flushed ← run f.aflush
    write_results ← call f.awrite_batch (repeat batch_size (bytes payload))
    flushed_again ← run f.aflush
    start ← rewind f
    async_batch_reads ← call f.aread_batch (repeat batch_size (just_size (pos (length payload))))
    closed ← run f.close
    pure (write_results, async_batch_reads)

module _ {W : Type 0} (batch_size : ℕ) (payload : List ℕ) (gather : Gather W) where
  -- Leaving `async with` closes the file.
  abbrev run_with_aiofiles : Stream W → Exec W (List ℕ × List Chunk)
  run_with_aiofiles f =
      finally
        (do
          warmup ← call f.write (bytes payload)
          flushed ← run f.flush
          write_results ←
              gather (Option ℕ) ℕ (go_on (call f.write (bytes payload))) (λ s. s)
                (repeat batch_size none)
          flushed_again ← run f.flush
          start ← rewind f
          aio_reads ←
              gather (Option Chunk) Chunk (go_on (call f.read (pos (length payload)))) (λ s. s)
                (repeat batch_size none)
          pure (write_results, aio_reads))
        (run f.close)

  -- `aiofiles` may not be there; if it is, it opens the file.
  unfoldable pub run_aiofiles_benchmark : Option (Exec W (Stream W)) → Exec W (List ℕ × List Chunk)
  run_aiofiles_benchmark none = pure ([], [])
  run_aiofiles_benchmark (some open_file) = do f ← open_file; run_with_aiofiles f
