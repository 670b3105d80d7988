-- ===== src/Tests/Streams.antt =====
-- Small streams, and the theorems on classes and on `AsyncIOBase` at them.
use mathlib.Core.Path.{subst}
use asynchstream.Base.{
  ℕ, ◌≤◌, ◌≡◌, refl, ap, true, false, Option, none, some, List, [], ◌∷◌, ◌++◌, ℤ, pos, length, take,
  arith, append-nil,
}
use asynchstream.Exec.{Exec, Result, ok, err, too_deep, call, run, pure, value_error}
use asynchstream.Object.{
  Chunk, bytes, str, Sink, Target, obj, Namespace, Stream, empty, instantiate,
}
use asynchstream.Meta
use asynchstream.Meta.{new_class, has}
use asynchstream.Meta.Synthesis.{listed, listed-synthesized}
use asynchstream.Meta.Wrappers.{sync_class_runs_in_thread}
use asynchstream.Stream.{base_read, base_write, base_aread, base_awrite, base_asplice}
use asynchstream.Stream.Loops.{sync_over_async, base_methods_never_return}
use asynchstream.Stream.Splice.{
  IsReader, IsWriter, IsTarget, Moves, splice_limit, base_asplice-Moves,
}

-- A pipe: the bytes that are still to be read, and those that have been written.
pub record Pipe : Type 0 where
  pub pending : List ℕ
  pub written : List ℕ

-- One byte at a time, as a slow device gives it.
abbrev pub give_front : List ℕ → Pipe → Result Chunk × Pipe
give_front [] p = (ok (bytes []), p)
give_front (x ∷ l) p = (ok (bytes (x ∷ [])), record p { pending = l })

abbrev pub slow_read : ℤ → Exec Pipe Chunk
slow_read size loop p = give_front p.pending p

abbrev accept : Chunk → Pipe → Result ℕ × Pipe
accept (bytes []) p = (ok 0, p)
accept (bytes (x ∷ l)) p = (ok 1, record p { written = p.written ++ (x ∷ []) })
accept (str l) p = (err value_error, p)

abbrev slow_write : Chunk → Exec Pipe ℕ
slow_write b loop p = accept b p

abbrev nothing : Exec Pipe Unit
nothing = pure tt

-- A class body with synchronous methods only.
abbrev sync_body : Namespace Pipe
sync_body = record empty {
  read = some (λ self size. slow_read size);
  write = some (λ self b. slow_write b);
  close = some (λ self. nothing);
  flush = some (λ self. nothing);
}

-- One with async methods only.
abbrev async_body : Namespace Pipe
async_body = record empty {
  aread = some (λ self size. slow_read size);
  awrite = some (λ self b. slow_write b);
}

abbrev pub start : Pipe
start = record { pending = 7 ∷ 8 ∷ 9 ∷ []; written = [] }

listed-synthesized_example :
    listed Meta.AsyncName.aread_batch (new_class async_body sync_body).synthesized ≡ true
listed-synthesized_example = listed-synthesized async_body sync_body Meta.AsyncName.aread_batch

sync_class_runs_in_thread_example :
    let self = instantiate 2 (new_class sync_body empty).cls in
    let o = instantiate 3 (new_class sync_body empty).cls in
    (call o.aread (pos 2) true start ≡ slow_read (pos 2) false start)
    × (call o.awrite (bytes (1 ∷ [])) true start ≡ slow_write (bytes (1 ∷ [])) false start)
    × (run o.aclose true start ≡ nothing false start)
    × (run o.aflush true start ≡ nothing false start)
sync_class_runs_in_thread_example =
    sync_class_runs_in_thread sync_body empty 2 (refl, refl) (refl, refl) (refl, refl) (refl, refl)
      (pos 2) (bytes (1 ∷ [])) true start

-- A class with async methods of its own and the synchronous ones of `AsyncIOBase`.
abbrev async_cls : Namespace Pipe
async_cls = record async_body { read = some base_read; write = some base_write }

sync_over_async_example :
    let o = instantiate 2 async_cls in
    (call o.read (pos 1) false start ≡ slow_read (pos 1) true start)
    × (call o.write (bytes (5 ∷ [])) false start ≡ slow_write (bytes (5 ∷ [])) true start)
sync_over_async_example =
    sync_over_async async_cls 0 refl refl refl refl (pos 1) (bytes (5 ∷ [])) false start

abbrev bare_cls : Namespace Pipe
bare_cls = record empty {
  read = some base_read;
  aread = some base_aread;
  write = some base_write;
  awrite = some base_awrite;
}

base_methods_never_return_example :
    let o = instantiate 5 bare_cls in
    (call o.aread (pos 1) true start ≡ (too_deep, start))
    × (call o.read (pos 1) false start ≡ (too_deep, start))
    × (call o.awrite (bytes []) true start ≡ (too_deep, start))
    × (call o.write (bytes []) false start ≡ (too_deep, start))
base_methods_never_return_example =
    base_methods_never_return bare_cls 5 (pos 1) (bytes []) start refl refl refl refl

abbrev pub reading : Stream Pipe
reading = record empty { aread = some slow_read }

abbrev pub src : Pipe → List ℕ
src p = p.pending

abbrev pub dst : Pipe → List ℕ
dst p = p.written

pub slow_read-IsReader : IsReader src dst slow_read
slow_read-IsReader = record {
  reads = λ size loop w w' c h. given w.pending w w' c refl h;
  at_most = λ size loop w w' l h. ground arith;
}
  where
    given :
        (l : List ℕ) (w w' : Pipe) (c : Chunk)
        → w.pending ≡ l
        → give_front l w ≡ (ok c, w')
        → (t : List ℕ) × (c ≡ bytes t) × (w.pending ≡ t ++ w'.pending) × (w'.written ≡ w.written)
    given [] w w' c e h = ([], ground (arith, h), ground (arith, h, e), ground (arith, h))
    given (x ∷ l) w w' c e h = (x ∷ [], ground (arith, h), ground (arith, h, e), ground (arith, h))

slow_write-IsWriter : IsWriter src dst slow_write
slow_write-IsWriter = record { writes = λ l loop w w' n h. taken l w w' n h }
  where
    taken :
        (l : List ℕ) (w w' : Pipe) (n : ℕ)
        → accept (bytes l) w ≡ (ok n, w')
        → (n ≤ length l) × (w'.written ≡ w.written ++ take n l) × (w'.pending ≡ w.pending)
    taken [] w w' n h = ground (arith, h, append-nil w.written)
    taken (x ∷ l) w w' n h = ground (arith, h)

abbrev or_this : {A : Type 0} → A → Option A → A
or_this d none = d
or_this d (some a) = a

abbrev sink : Sink Pipe
sink = record { fileno = none; awrite = some slow_write; write = none }

sink-IsTarget : IsTarget src dst sink
sink-IsTarget = record {
  by_awrite = λ m e. subst (IsWriter src dst) (ap (or_this slow_write) e) slow_write-IsWriter;
  by_write = λ m e. cc;
  by_fileno = λ m e. cc;
}

after_splice : Pipe
after_splice = record { pending = 8 ∷ 9 ∷ []; written = 7 ∷ [] }

abbrev pub nowhere : ℤ → Chunk → Exec Pipe ℕ
nowhere n = slow_write

base_asplice_runs :
    base_asplice nowhere reading (obj sink) (pos 4) true start ≡ (ok 1, after_splice)
unfolding base_asplice after_splice
base_asplice_runs = refl

base_asplice-Moves_example :
    (l : List ℕ) × Moves src dst start after_splice 1 l × (length l ≤ splice_limit (pos 4))
base_asplice-Moves_example =
    base_asplice-Moves src dst slow_read slow_read-IsReader nowhere reading (obj sink) refl refl
      (λ n. slow_write-IsWriter) (λ s e. subst (IsTarget src dst) (obj-injective s e) sink-IsTarget)
      (pos 4) true start after_splice 1 base_asplice_runs
  where
    sink_of : Target Pipe → Sink Pipe
    sink_of (obj s) = s
    sink_of (Target.fd n) = sink

    obj-injective : (s : Sink Pipe) → obj sink ≡ obj s → sink ≡ s
    obj-injective s e = ap sink_of e
