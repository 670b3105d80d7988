-- ===== src/Tests/Tapes.antt =====
-- The theorem on reading back, at a file kept in memory.
use asynchstream.Base.{
  ℕ, zero, suc, ◌≡◌, refl, some, List, [], ◌∷◌, ◌++◌, length, take, ℤ, pos, negsuc, arith,
}
use asynchstream.Exec.{Exec, ok, pure}
use asynchstream.Object.{Chunk, bytes, str, Stream, empty}
use asynchstream.Stream.{base_aread_batch, base_awrite_batch}
use asynchstream.Examples.{drop}
use asynchstream.Examples.Batch.{
  Descriptors, run_os_sync_benchmark, run_aiofiles_benchmark, repeat, make_payload,
  run_builtin_sync_benchmark, run_async_pipelined_benchmark, run_async_batch_api_benchmark,
}
use asynchstream.Examples.Batch.ReadBack.{IsPlain, IsDescriptor, IsAsync, OpensEmpty}
use asynchstream.Examples.Batch.Runs.{Returns}
use asynchstream.Examples.Batch.AllRuns.{benchmarks_read_back}
use asynchstream.Tests.Examples.{nested_gather, nested_gather-IsGather}

record Tape : Type 0 where
  behind : List ℕ
  ahead : List ℕ

abbrev put : Chunk → Exec Tape ℕ
put (bytes b) loop w =
    (ok (length b), record { behind = w.behind ++ b; ahead = drop (length b) w.ahead })
put (str t) loop w = (ok 0, w)

abbrev get : ℤ → Exec Tape Chunk
get (pos n) loop w = (
  ok (bytes (take n w.ahead)),
  record { behind = w.behind ++ take n w.ahead; ahead = drop n w.ahead },
)
get (negsuc n) loop w = (ok (bytes w.ahead), record { behind = w.behind ++ w.ahead; ahead = [] })

abbrev to_start : ℤ → ℤ → Exec Tape ℕ
to_start offset whence loop w = (ok 0, record { behind = []; ahead = w.behind ++ w.ahead })

abbrev plain : Stream Tape
plain = record empty {
  write = some put;
  read = some get;
  flush = some (pure tt);
  awrite = some put;
  aread = some get;
  aflush = some (pure tt);
  seek = some to_start;
  close = some (pure tt);
}

abbrev with_batches : Stream Tape
with_batches = record plain {
  awrite_batch = some (base_awrite_batch plain);
  aread_batch = some (base_aread_batch plain);
}

abbrev open_plain : Exec Tape (Stream Tape)
open_plain loop w = (ok plain, record { behind = []; ahead = [] })

abbrev open_async : Exec Tape (Stream Tape)
open_async loop w = (ok with_batches, record { behind = []; ahead = [] })

drop-nil : (n : ℕ) → drop {A = ℕ} n [] ≡ []
drop-nil zero = refl
drop-nil (suc n) = refl

abbrev behind_of : Tape → List ℕ
behind_of w = w.behind

abbrev ahead_of : Tape → List ℕ
ahead_of w = w.ahead

put_end : (w : Tape) (b : List ℕ) → w.ahead ≡ [] → drop (length b) w.ahead ≡ []
put_end w b a = rw a (drop-nil (length b))

plain-IsPlain : IsPlain behind_of ahead_of plain
plain-IsPlain = record {
  puts = λ w b a. (_, refl, refl, put_end w b a);
  gets = λ w n. (_, refl, refl);
  keeps = λ w. (w, refl, refl, refl);
  rewinds = λ w. (0, _, refl, refl);
  closes = λ w. (w, refl);
}

with_batches-IsAsync : IsAsync behind_of ahead_of with_batches
with_batches-IsAsync = record {
  tape = record {
    puts = λ w b a. (_, refl, refl, put_end w b a);
    gets = λ w n. (_, refl, refl);
    keeps = λ w. (w, refl, refl, refl);
    rewinds = λ w. (0, _, refl, refl);
    closes = λ w. (w, refl);
  };
  self = plain;
  self_puts = λ w b a. (_, refl, refl, put_end w b a);
  self_gets = λ w n. (_, refl, refl);
  awrites = refl;
  areads = refl;
  no_awrites = refl;
  no_areads = refl;
}

abbrev blank : Tape
blank = record { behind = []; ahead = [] }

abbrev two_kb : List ℕ
two_kb = make_payload (7 ∷ 8 ∷ 9 ∷ []) (pos 2)

abbrev memory_os : Descriptors Tape
memory_os = record {
  open_fd = λ loop w. (ok (pos 3), blank);
  write = λ fd. put;
  read = λ fd. get;
  lseek = λ fd. to_start;
  close = λ fd. pure tt;
}

memory_os-IsDescriptor : IsDescriptor behind_of ahead_of memory_os (pos 3)
memory_os-IsDescriptor = record {
  puts = λ w b a. (_, refl, refl, put_end w b a);
  gets = λ w n. (_, refl, refl);
  keeps = λ w. (w, refl, refl, refl);
  rewinds = λ w. (0, _, refl, refl);
  closes = λ w. (w, refl);
}

memory_os-OpensEmpty :
    OpensEmpty behind_of ahead_of (IsDescriptor behind_of ahead_of memory_os) memory_os.open_fd
memory_os-OpensEmpty = record {
  opens = λ w. (pos 3, blank, refl, memory_os-IsDescriptor, refl, refl);
}

open_plain-OpensEmpty : OpensEmpty behind_of ahead_of (IsPlain behind_of ahead_of) open_plain
open_plain-OpensEmpty = record { opens = λ w. (plain, blank, refl, plain-IsPlain, refl, refl) }

open_async-OpensEmpty : OpensEmpty behind_of ahead_of (IsAsync behind_of ahead_of) open_async
open_async-OpensEmpty = record {
  opens = λ w. (with_batches, blank, refl, with_batches-IsAsync, refl, refl);
}

benchmarks_read_back_example :
    (length two_kb ≡ 2048)
    × Returns blank (run_os_sync_benchmark memory_os 3 two_kb) (repeat 3 (bytes two_kb))
    × Returns blank (run_builtin_sync_benchmark open_plain 3 two_kb) (repeat 3 (bytes two_kb))
    × Returns blank
        (run_aiofiles_benchmark 3 two_kb nested_gather (some open_plain))
        (repeat 3 2048, repeat 3 (bytes two_kb))
    × Returns blank
        (run_async_pipelined_benchmark open_async 3 two_kb nested_gather)
        (repeat 3 2048, repeat 3 (bytes two_kb))
    × Returns blank
        (run_async_batch_api_benchmark open_async 3 two_kb)
        (repeat 3 2048, repeat 3 (bytes two_kb))
benchmarks_read_back_example =
    benchmarks_read_back behind_of ahead_of memory_os open_plain open_plain open_async
      memory_os-OpensEmpty open_plain-OpensEmpty open_plain-OpensEmpty open_async-OpensEmpty
      nested_gather (nested_gather-IsGather 1 (omega arith)) (7 ∷ 8 ∷ 9 ∷ []) (pos 2) (omega arith)
      3 blank
