-- ===== src/Patch/InThread.antt =====
-- py_native_io/patch.py: what the methods that `patch_stream` makes do when they are called.
use asynchstream.Base.{ℕ, suc, ℤ, List, ◌≡◌, refl, Bool, true, false, some}
use asynchstream.Exec.{Exec, call, run, comprehension, to_thread}
use asynchstream.Object.{Chunk, Spec, spec_size, Namespace, Stream, instantiate}
use asynchstream.Patch.{
  attributes, patch_stream, patched_aread, patched_aread_batch, patched_awrite,
  patched_awrite_batch, patched_aclose, patched_aflush,
}
use asynchstream.Patch.Sync.{
  IsSync, object_of, with_methods, patch_stream-mutable, patch_stream-immutable,
}

-- The async methods of `s` run the synchronous ones in a thread, the batches one item after another.
abbrev pub RunsSync :
    {W : Type 0} {d c : Namespace W}
    → IsSync d c
    → Stream W
    → ℤ
    → Chunk
    → List Spec
    → List Chunk
    → Bool
    → W
    → Type 0
RunsSync sync s size b specs chunks running w =
    (call s.aread size running w ≡ sync.read size false w)
    × (call s.awrite b running w ≡ sync.write b false w)
    × (run s.aclose running w ≡ sync.close false w)
    × (run s.aflush running w ≡ sync.flush false w)
    × (call s.aread_batch specs running w
        ≡ comprehension (λ sz. to_thread (sync.read (spec_size sz))) specs running w)
    × (call s.awrite_batch chunks running w
        ≡ comprehension (λ b. to_thread (sync.write b)) chunks running w)

-- The methods that `patch_stream` makes, on any namespace that has them and their synchronous ones.
module _ {W : Type 0} (depth : ℕ) (n : Namespace W) where
  call-aread :
      (read : ℤ → Exec W Chunk)
      → n.read ≡ some (λ self. read)
      → n.aread ≡ some patched_aread
      → (size : ℤ) (running : Bool) (w : W)
      → call (instantiate (suc (suc (suc depth))) n).aread size running w ≡ read size false w
  unfolding instantiate patched_aread
  call-aread read h e size running w = rw (h, e) refl

  call-awrite :
      (write : Chunk → Exec W ℕ)
      → n.write ≡ some (λ self. write)
      → n.awrite ≡ some patched_awrite
      → (b : Chunk) (running : Bool) (w : W)
      → call (instantiate (suc (suc (suc depth))) n).awrite b running w ≡ write b false w
  unfolding instantiate patched_awrite
  call-awrite write h e b running w = rw (h, e) refl

  run-aclose :
      (close : Exec W Unit)
      → n.close ≡ some (λ self. close)
      → n.aclose ≡ some patched_aclose
      → (running : Bool) (w : W)
      → run (instantiate (suc (suc (suc depth))) n).aclose running w ≡ close false w
  unfolding instantiate patched_aclose
  run-aclose close h e running w = rw (h, e) refl

  run-aflush :
      (flush : Exec W Unit)
      → n.flush ≡ some (λ self. flush)
      → n.aflush ≡ some patched_aflush
      → (running : Bool) (w : W)
      → run (instantiate (suc (suc (suc depth))) n).aflush running w ≡ flush false w
  unfolding instantiate patched_aflush
  run-aflush flush h e running w = rw (h, e) refl

  call-aread_batch :
      (read : ℤ → Exec W Chunk)
      → n.read ≡ some (λ self. read)
      → n.aread ≡ some patched_aread
      → n.aread_batch ≡ some patched_aread_batch
      → (specs : List Spec) (running : Bool) (w : W)
      → call (instantiate (suc (suc (suc depth))) n).aread_batch specs running w
        ≡ comprehension (λ sz. to_thread (read (spec_size sz))) specs running w
  unfolding instantiate patched_aread patched_aread_batch
  call-aread_batch read h e e2 specs running w = rw (h, e, e2) refl

  call-awrite_batch :
      (write : Chunk → Exec W ℕ)
      → n.write ≡ some (λ self. write)
      → n.awrite ≡ some patched_awrite
      → n.awrite_batch ≡ some patched_awrite_batch
      → (chunks : List Chunk) (running : Bool) (w : W)
      → call (instantiate (suc (suc (suc depth))) n).awrite_batch chunks running w
        ≡ comprehension (λ b. to_thread (write b)) chunks running w
  unfolding instantiate patched_awrite patched_awrite_batch
  call-awrite_batch write h e e2 chunks running w = rw (h, e, e2) refl

-- For an object that takes attributes and has `read`, `write`, `close` and `flush`, which call no other of
-- its methods, and none of the seven async methods, whether its class takes attributes or not: after
-- `patch_stream`, each of `aread`, `awrite`, `aclose` and `aflush` does what the synchronous method does in
-- a thread with no running event loop, and the batches do so one item after another.
pub patched_runs_in_thread :
    {W : Type 0} (d c : Namespace W) (sync : IsSync d c) (loop mutable : Bool) (depth : ℕ)
    (size : ℤ) (b : Chunk) (specs : List Spec) (chunks : List Chunk) (running : Bool) (w : W)
    → let o = (patch_stream loop (object_of mutable d c)).1 in
      RunsSync sync
        (instantiate (suc (suc (suc depth))) (attributes o))
        size
        b
        specs
        chunks
        running
        w
patched_runs_in_thread d c sync loop true depth size b specs chunks running w =
    let n = attributes (object_of true (with_methods d) (with_methods c)) in
    rw (patch_stream-mutable d c sync loop) (
      call-aread depth n sync.read sync.has_read refl size running w,
      call-awrite depth n sync.write sync.has_write refl b running w,
      run-aclose depth n sync.close sync.has_close refl running w,
      run-aflush depth n sync.flush sync.has_flush refl running w,
      call-aread_batch depth n sync.read sync.has_read refl refl specs running w,
      call-awrite_batch depth n sync.write sync.has_write refl refl chunks running w,
    )
patched_runs_in_thread d c sync loop false depth size b specs chunks running w =
    let n = attributes (object_of false (with_methods d) c) in
    rw (patch_stream-immutable d c sync loop) (
      call-aread depth n sync.read sync.has_read refl size running w,
      call-awrite depth n sync.write sync.has_write refl b running w,
      run-aclose depth n sync.close sync.has_close refl running w,
      run-aflush depth n sync.flush sync.has_flush refl running w,
      call-aread_batch depth n sync.read sync.has_read refl refl specs running w,
      call-awrite_batch depth n sync.write sync.has_write refl refl chunks running w,
    )
