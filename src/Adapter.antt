-- ===== src/Adapter.antt =====
-- py_native_io/patch.py: the class `AsyncStreamAdapter`, `wrap_stream` and `ensure_async_stream`.
pub mod Delegation
pub mod Agreement
use asynchstream.Base.{ℕ, Bool, true, false, Option, none, some, List, ℤ, if◌then◌else◌}
use asynchstream.Exec.{
  Exec, ok, pure, raise, attribute_error, call, run, to_thread, comprehension, ◌>>=◌, ◌>>◌,
}
use asynchstream.Object.{Chunk, Spec, spec_size, Method, Namespace, Stream, empty, instantiate}
use asynchstream.Meta.{new_class}
use asynchstream.Stream.{is_async_io_stream, async_io_base}
use asynchstream.Patch.{PyObject, attributes, patch_stream}

module _ {W : Type 0} where
  -- `self._inner_stream.seek(offset, whence)`
  abbrev pub seek_on : Option (ℤ → ℤ → Exec W ℕ) → ℤ → ℤ → Exec W ℕ
  seek_on none offset whence = raise attribute_error
  seek_on (some seek) offset whence = seek offset whence

  -- `bool(inner.name()) if hasattr(inner, name) else default`
  abbrev ask : Bool → Option (Exec W Bool) → Exec W Bool
  ask default none = pure default
  ask default (some m) = m

  flush_if : Option (Exec W Unit) → Exec W Unit
  flush_if none = pure tt
  flush_if (some flush) = flush

  -- `aread`, `awrite`: the inner method if there is one, else the synchronous one in a thread.
  delegate : {A B : Type 0} → Option (A → Exec W B) → Option (A → Exec W B) → A → Exec W B
  delegate (some native) sync a = native a
  delegate none sync a = to_thread (call sync a)

  delegate_aread_batch :
      Option (List Spec → Exec W (List Chunk)) → Stream W → List Spec → Exec W (List Chunk)
  delegate_aread_batch (some native) self specs = native specs
  delegate_aread_batch none self specs = comprehension (λ sz. call self.aread (spec_size sz)) specs

  delegate_awrite_batch :
      Option (List Chunk → Exec W (List ℕ)) → Stream W → List Chunk → Exec W (List ℕ)
  delegate_awrite_batch (some native) self chunks = native chunks
  delegate_awrite_batch none self chunks = comprehension (call self.awrite) chunks

  delegate_aclose : Option (Exec W Unit) → Option (Exec W Unit) → Exec W Unit
  delegate_aclose (some aclose) close = aclose
  delegate_aclose none close = to_thread (run close)

  delegate_aflush : Option (Exec W Unit) → Option (Exec W Unit) → Exec W Unit
  delegate_aflush (some aflush) flush = aflush
  delegate_aflush none (some flush) = to_thread flush
  delegate_aflush none none = pure tt

  -- The body of `AsyncStreamAdapter`, for an adapter whose `_inner_stream` is `inner`.
  unfoldable pub adapter_body : Stream W → Namespace W
  unfolding flush_if delegate delegate_aread_batch delegate_awrite_batch delegate_aclose
      delegate_aflush
  adapter_body inner = record empty {
    read = some (λ self size. call inner.read size);
    write = some (λ self b. call inner.write b);
    close = some (λ self. run inner.close);
    flush = some (λ self. flush_if inner.flush);
    seek = some (λ self offset whence. seek_on inner.seek offset whence);
    tell = some (λ self. run inner.tell);
    readable = some (λ self. ask true inner.readable);
    writable = some (λ self. ask true inner.writable);
    seekable = some (λ self. ask false inner.seekable);
    closed = some (λ self. ask false inner.closed);
    aread = some (λ self size. delegate inner.aread inner.read size);
    aread_batch = some (λ self specs. delegate_aread_batch inner.aread_batch self specs);
    awrite = some (λ self b. delegate inner.awrite inner.write b);
    awrite_batch = some (λ self chunks. delegate_awrite_batch inner.awrite_batch self chunks);
    aclose = some (λ self. delegate_aclose inner.aclose inner.close);
    aflush = some (λ self. delegate_aflush inner.aflush inner.flush);
  }

-- `os.write` and what `io.IOBase` gives are parameters; `depth` bounds the inner object's own calls.
module _ {W : Type 0} (os_write : ℤ → Chunk → Exec W ℕ) (io_base : Namespace W) where
  abbrev pub adapter_class : Stream W → Namespace W
  adapter_class inner = (new_class (adapter_body inner) (async_io_base os_write io_base)).cls

  unfoldable pub wrap_stream : ℕ → Namespace W → Namespace W
  wrap_stream depth stream =
      if is_async_io_stream stream then stream else adapter_class (instantiate depth stream)

  -- The object that the caller gets back, by its attributes.
  unfoldable pub ensure_async_stream : ℕ → Bool → Exec (PyObject W) (Namespace W)
  ensure_async_stream depth in_place loop o =
      if is_async_io_stream (attributes o)
      then (ok (attributes o), o)
      else if in_place
      then (do patch_stream; λ loop p. (ok (attributes p), p)) loop o
      else (ok (wrap_stream depth (attributes o)), o)
