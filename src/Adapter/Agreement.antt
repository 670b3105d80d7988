-- ===== src/Adapter/Agreement.antt =====
-- py_native_io/patch.py: a stream wrapped in the adapter and the same stream patched in place.
use asynchstream.Base.{ℕ, suc, ℤ, List, ◌≡◌, refl, sym, ◌∙◌, Bool, false, none, some}
use asynchstream.Exec.{Exec, call, run, comprehension, to_thread}
use asynchstream.Object.{Chunk, Spec, spec_size, Namespace, Stream, instantiate}
use asynchstream.Meta.{
  new_class, synth_aread, synth_aread_batch, synth_awrite, synth_awrite_batch, synth_aclose,
  synth_aflush,
}
use asynchstream.Patch.{attributes, patch_stream}
use asynchstream.Patch.Sync.{IsSync, object_of, not_yet}
use asynchstream.Patch.InThread.{RunsSync, patched_runs_in_thread}
use asynchstream.Adapter.{adapter_body, adapter_class, wrap_stream}

-- An adapter whose inner stream has the synchronous methods and not the async ones.
module _ {W : Type 0} (os_write : ℤ → Chunk → Exec W ℕ) (io_base : Namespace W) (depth : ℕ)
    (inner : Stream W) (running : Bool) (w : W) where
  abbrev adapter : Stream W
  adapter = instantiate (suc (suc depth)) (adapter_class os_write io_base inner)

  adapter-aread :
      (read : ℤ → Exec W Chunk)
      → inner.read ≡ some read
      → inner.aread ≡ none
      → (size : ℤ) → call adapter.aread size running w ≡ read size false w
  unfolding instantiate adapter_body new_class synth_aread synth_aread_batch synth_awrite
      synth_awrite_batch synth_aclose synth_aflush
  adapter-aread read h e size = rw (h, e) refl

  adapter-awrite :
      (write : Chunk → Exec W ℕ)
      → inner.write ≡ some write
      → inner.awrite ≡ none
      → (b : Chunk) → call adapter.awrite b running w ≡ write b false w
  unfolding instantiate adapter_body new_class synth_aread synth_aread_batch synth_awrite
      synth_awrite_batch synth_aclose synth_aflush
  adapter-awrite write h e b = rw (h, e) refl

  adapter-aclose :
      (close : Exec W Unit)
      → inner.close ≡ some close
      → inner.aclose ≡ none
      → run adapter.aclose running w ≡ close false w
  unfolding instantiate adapter_body new_class synth_aread synth_aread_batch synth_awrite
      synth_awrite_batch synth_aclose synth_aflush
  adapter-aclose close h e = rw (h, e) refl

  adapter-aflush :
      (flush : Exec W Unit)
      → inner.flush ≡ some flush
      → inner.aflush ≡ none
      → run adapter.aflush running w ≡ flush false w
  unfolding instantiate adapter_body new_class synth_aread synth_aread_batch synth_awrite
      synth_awrite_batch synth_aclose synth_aflush
  adapter-aflush flush h e = rw (h, e) refl

  adapter-aread_batch :
      (read : ℤ → Exec W Chunk)
      → inner.read ≡ some read
      → inner.aread ≡ none
      → inner.aread_batch ≡ none
      → (specs : List Spec)
      → call adapter.aread_batch specs running w
        ≡ comprehension (λ sz. to_thread (read (spec_size sz))) specs running w
  unfolding instantiate adapter_body new_class synth_aread synth_aread_batch synth_awrite
      synth_awrite_batch synth_aclose synth_aflush
  adapter-aread_batch read h e e2 specs = rw (h, e, e2) refl

  adapter-awrite_batch :
      (write : Chunk → Exec W ℕ)
      → inner.write ≡ some write
      → inner.awrite ≡ none
      → inner.awrite_batch ≡ none
      → (chunks : List Chunk)
      → call adapter.awrite_batch chunks running w
        ≡ comprehension (λ b. to_thread (write b)) chunks running w
  unfolding instantiate adapter_body new_class synth_aread synth_aread_batch synth_awrite
      synth_awrite_batch synth_aclose synth_aflush
  adapter-awrite_batch write h e e2 chunks = rw (h, e, e2) refl

module _ {W : Type 0} (os_write : ℤ → Chunk → Exec W ℕ) (io_base : Namespace W) (d c : Namespace W)
    (sync : IsSync d c) (mutable : Bool) (depth : ℕ) (size : ℤ) (b : Chunk) (specs : List Spec)
    (chunks : List Chunk) (running : Bool) (w : W) where
  abbrev original : Namespace W
  original = attributes (object_of mutable d c)

  wrap_stream-original :
      (k : ℕ)
      → wrap_stream os_write io_base k original
        ≡ adapter_class os_write io_base (instantiate k original)
  unfolding wrap_stream
  wrap_stream-original k = rw (not_yet d c sync mutable) refl

  adapted_runs_in_thread :
      RunsSync sync
        (instantiate (suc (suc (suc depth))) (wrap_stream os_write io_base (suc depth) original))
        size
        b
        specs
        chunks
        running
        w
  unfolding instantiate
  adapted_runs_in_thread =
      let inner = instantiate (suc depth) original in
      rw (wrap_stream-original (suc depth)) (
        adapter-aread os_write io_base (suc depth) inner running w sync.read (rw sync.has_read refl)
            (rw (sync.no_aread.0, sync.no_aread.1) refl) size,
        adapter-awrite os_write io_base (suc depth) inner running w sync.write
            (rw sync.has_write refl) (rw (sync.no_awrite.0, sync.no_awrite.1) refl) b,
        adapter-aclose os_write io_base (suc depth) inner running w sync.close
            (rw sync.has_close refl) (rw (sync.no_aclose.0, sync.no_aclose.1) refl),
        adapter-aflush os_write io_base (suc depth) inner running w sync.flush
            (rw sync.has_flush refl) (rw (sync.no_aflush.0, sync.no_aflush.1) refl),
        adapter-aread_batch os_write io_base (suc depth) inner running w sync.read
            (rw sync.has_read refl) (rw (sync.no_aread.0, sync.no_aread.1) refl)
            (rw (sync.no_aread_batch.0, sync.no_aread_batch.1) refl) specs,
        adapter-awrite_batch os_write io_base (suc depth) inner running w sync.write
            (rw sync.has_write refl) (rw (sync.no_awrite.0, sync.no_awrite.1) refl)
            (rw (sync.no_awrite_batch.0, sync.no_awrite_batch.1) refl) chunks,
      )

-- For an object that takes attributes and has `read`, `write`, `close` and `flush`, which call no other of
-- its methods, and none of the seven async methods: the adapter that `wrap_stream` makes of it and the
-- object that `patch_stream` has patched in place agree on `aread`, `awrite`, `aclose`, `aflush` and the
-- two batches, in results, errors and state.
pub adapter_agrees_with_patch :
    {W : Type 0} (os_write : ℤ → Chunk → Exec W ℕ) (io_base : Namespace W) (d c : Namespace W)
    (sync : IsSync d c) (loop mutable : Bool) (depth : ℕ) (size : ℤ) (b : Chunk) (specs : List Spec)
    (chunks : List Chunk) (running : Bool) (w : W)
    → let original = object_of mutable d c in
      let p = instantiate (suc (suc (suc depth))) (attributes (patch_stream loop original).1) in
      let s =
        instantiate
          (suc (suc (suc depth)))
          (wrap_stream os_write io_base (suc depth) (attributes original)) in
      (call s.aread size running w ≡ call p.aread size running w)
      × (call s.awrite b running w ≡ call p.awrite b running w)
      × (run s.aclose running w ≡ run p.aclose running w)
      × (run s.aflush running w ≡ run p.aflush running w)
      × (call s.aread_batch specs running w ≡ call p.aread_batch specs running w)
      × (call s.awrite_batch chunks running w ≡ call p.awrite_batch chunks running w)
adapter_agrees_with_patch os_write io_base d c sync loop mutable depth size b specs chunks running
      w =
    let (a1, a2, a3, a4, a5, a6) =
      adapted_runs_in_thread os_write io_base d c sync mutable depth size b specs chunks running
        w in
    let (p1, p2, p3, p4, p5, p6) =
      patched_runs_in_thread d c sync loop mutable depth size b specs chunks running w in
    (a1 ∙ sym p1, a2 ∙ sym p2, a3 ∙ sym p3, a4 ∙ sym p4, a5 ∙ sym p5, a6 ∙ sym p6)
