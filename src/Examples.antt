-- ===== src/Examples.antt =====
-- examples/07_scale_5000_files_benchmark.py: many files written and read at once. The functions
-- `open` and `asyncio.gather`, the payload and the numbers of the benchmark are parameters, and so
-- are the names of the files, which `os.path.join` makes; times and printing are left out.
pub mod Gather
pub mod Batch
pub mod Chunks
pub mod Files
pub mod Writers
pub mod Readers
pub mod InTurn
pub mod Scale
use asynchstream.Base.{
  ℕ, zero, suc, ◌+◌, ◌-◌, List, [], ◌∷◌, map, take, ltb, minus_one, Option, none, some,
  if◌then◌else◌,
}
use asynchstream.Exec.{Exec, pure, call, run, comprehension, ◌>>=◌}
use asynchstream.Object.{Chunk, bytes, Stream}

-- `asyncio.gather(*coroutines)`. A coroutine of a function is a state of it: where it stands, with
-- what it has in its variables. `step` goes on to the next await, and `result` is what it returns.
abbrev pub Gather : Type 0 → Type 1
Gather W = (S A : Type 0) → (S → Exec W S) → (S → Option A) → List S → Exec W (List A)

-- Where a `write_async_file` stands.
pub data WriteFile (W : Type 0) : Type 0 where
  before_open : List ℕ → WriteFile W
  before_awrite before_aflush before_close : Stream W → WriteFile W
  finished : WriteFile W

-- Where a `read_async_file` stands.
pub data ReadFile (W : Type 0) : Type 0 where
  before_open : List ℕ → ReadFile W
  before_aread : Stream W → ReadFile W
  before_close : Stream W → Chunk → ReadFile W
  returned : Chunk → ReadFile W

-- `xs[i:j]`
abbrev pub drop {ℓ} : {A : Type ℓ} → ℕ → List A → List A
drop zero xs = xs
drop (suc n) [] = []
drop (suc n) (x ∷ xs) = drop n xs

abbrev pub slice {ℓ} : {A : Type ℓ} → List A → ℕ → ℕ → List A
slice xs i j = take (j - i) (drop i xs)

-- `range(i, stop, step)`, which has at most `fuel` numbers.
unfoldable pub range_from : ℕ → ℕ → ℕ → ℕ → List ℕ
range_from zero i stop step = []
range_from (suc fuel) i stop step =
    let rest = range_from fuel (i + step) stop step in if ltb i stop then i ∷ rest else []

abbrev pub w_plus_b : List ℕ
w_plus_b = b'w' ∷ b'+' ∷ b'b' ∷ []

abbrev pub r_b : List ℕ
r_b = b'r' ∷ b'b' ∷ []

module _ {W : Type 0} where
  -- `write_async_file` returns `None`.
  unfoldable pub written : WriteFile W → Option (Unit {0})
  written finished = some tt
  written s = none

  -- `return data`
  unfoldable pub data_of : ReadFile W → Option Chunk
  data_of (returned data_read) = some data_read
  data_of s = none

module _ {W : Type 0} (open_file : List ℕ → List ℕ → Exec W (Stream W)) (payload : List ℕ) where
  unfoldable pub write_async_file : WriteFile W → Exec W (WriteFile W)
  write_async_file (WriteFile.before_open path) = do
    f ← open_file path w_plus_b
    pure (before_awrite f)
  write_async_file (before_awrite f) = do n ← call f.awrite (bytes payload); pure (before_aflush f)
  write_async_file (before_aflush f) = do u ← run f.aflush; pure (WriteFile.before_close f)
  write_async_file (WriteFile.before_close f) = do u ← run f.close; pure finished
  write_async_file finished = pure finished

  unfoldable pub read_async_file : ReadFile W → Exec W (ReadFile W)
  read_async_file (ReadFile.before_open path) = do f ← open_file path r_b; pure (before_aread f)
  read_async_file (before_aread f) = do
    data_read ← call f.aread minus_one
    pure (ReadFile.before_close f data_read)
  read_async_file (ReadFile.before_close f data_read) = do
    u ← run f.close
    pure (returned data_read)
  read_async_file (returned data_read) = pure (returned data_read)

  -- A round of the first loop of `run_sync_benchmark`.
  unfoldable pub write_sync_file : List ℕ → Exec W (Unit {0})
  write_sync_file path = do
    f ← open_file path w_plus_b
    n ← call f.write (bytes payload)
    u ← run f.flush
    run f.close

  -- A round of the second loop, with what it reads.
  unfoldable pub read_sync_file : List ℕ → Exec W Chunk
  read_sync_file path = do
    f ← open_file path r_b
    data_read ← call f.read minus_one
    u ← run f.close
    pure data_read

  unfoldable pub run_sync_benchmark : List (List ℕ) → Exec W (List Chunk)
  run_sync_benchmark file_paths = do
    writes ← comprehension write_sync_file file_paths
    comprehension read_sync_file file_paths

  module _ (gather : Gather W) (num_files chunk_size : ℕ) (file_paths : List (List ℕ)) where
    -- `file_paths[i : i + chunk_size]`
    abbrev pub chunk_paths : ℕ → List (List ℕ)
    chunk_paths i = slice file_paths i (i + chunk_size)

    -- `range(0, NUM_FILES, chunk_size)`
    abbrev pub chunk_starts : List ℕ
    chunk_starts = range_from num_files 0 num_files chunk_size

    abbrev pub write_chunk : ℕ → Exec W (List (Unit {0}))
    write_chunk i =
        gather (WriteFile W) Unit write_async_file written
          (map WriteFile.before_open (chunk_paths i))

    abbrev pub read_chunk : ℕ → Exec W (List Chunk)
    read_chunk i =
        gather (ReadFile W) Chunk read_async_file data_of (map ReadFile.before_open (chunk_paths i))

    -- The chunks that were read take the place of the times.
    unfoldable pub run_async_benchmark : Exec W (List (List Chunk))
    run_async_benchmark = do
      writes ← comprehension write_chunk chunk_starts
      comprehension read_chunk chunk_starts

  -- The two halves, one after the other, as `main` runs them.
  unfoldable pub run_benchmarks :
      Gather W → ℕ → ℕ → List (List ℕ) → List (List ℕ) → Exec W (List Chunk × List (List Chunk))
  unfolding run_sync_benchmark run_async_benchmark
  run_benchmarks gather num_files chunk_size sync_paths async_paths = do
    sync_reads ← run_sync_benchmark sync_paths
    async_reads ← run_async_benchmark gather num_files chunk_size async_paths
    pure (sync_reads, async_reads)
