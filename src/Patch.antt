-- ===== src/Patch.antt =====
-- py_native_io/patch.py: `patch_stream`, which gives an existing object the methods of the protocol in
-- place. `asyncio.to_thread`, `types.MethodType` and attribute assignment are Python's own.
pub mod Tame
mod Steps
mod Gives
mod Presence
pub mod Sync
pub mod InThread
pub mod Conformance
pub mod Siblings
use asynchstream.Base.{
  ℕ, Bool, true, false, not, ◌&&◌, ◌||◌, Option, none, some, List, ℤ, pos, is_positive, is_some,
  if◌then◌else◌,
}
use asynchstream.Exec.{
  Exec, ok, err, pure, raise, attribute_error, unsupported_operation, call, run, to_thread,
  comprehension, ◌>>=◌, ◌>>◌,
}
use asynchstream.Object.{
  Chunk, is_falsy, Spec, spec_size, Sink, Target, fd, obj, Method, Namespace, inherit,
}
use asynchstream.Stream.{is_async_io_stream}

-- A Python object: what its own dictionary holds, what its class and the bases of that give it,
-- whether the class takes new attributes (a built-in one does not), and whether the object does.
pub record PyObject (W : Type 0) : Type 0 where
  pub instance_dict : Namespace W
  pub cls : Namespace W
  pub cls_mutable : Bool
  pub has_dict : Bool

-- Attribute lookup on the object.
abbrev pub attributes : {W : Type 0} → PyObject W → Namespace W
attributes o = inherit o.instance_dict o.cls

module _ {W : Type 0} where
  unfoldable pub patched_aread : Method W (ℤ → Exec W Chunk)
  patched_aread self size = to_thread (call self.read size)

  unfoldable pub patched_aread_batch : Method W (List Spec → Exec W (List Chunk))
  unfolding comprehension
  patched_aread_batch self specs = comprehension (λ sz. call self.aread (spec_size sz)) specs

  unfoldable pub patched_awrite : Method W (Chunk → Exec W ℕ)
  patched_awrite self b = to_thread (call self.write b)

  unfoldable pub patched_awrite_batch : Method W (List Chunk → Exec W (List ℕ))
  unfolding comprehension
  patched_awrite_batch self chunks = comprehension (call self.awrite) chunks

  unfoldable pub patched_aclose : Method W (Exec W Unit)
  patched_aclose self = to_thread (run self.close)

  unfoldable pub patched_aflush : Method W (Exec W Unit)
  patched_aflush self = to_thread (run self.flush)

  write_chunk : Option (Chunk → Exec W ℕ) → Option (Chunk → Exec W ℕ) → Chunk → Exec W ℕ
  write_chunk (some awrite) _ chunk = awrite chunk
  write_chunk none (some write) chunk = to_thread (write chunk)
  write_chunk none none chunk = pure 0

  -- An integer has neither `awrite` nor `write`.
  send : Target W → Chunk → Exec W ℕ
  unfolding write_chunk
  send (fd n) chunk = write_chunk none none chunk
  send (obj sink) chunk = write_chunk sink.awrite sink.write chunk

  unfoldable pub patched_asplice : Method W (Target W → ℤ → Exec W ℕ)
  unfolding send
  patched_asplice self target size = do
    chunk ← call self.aread (if is_positive size then size else pos 65536)
    if is_falsy chunk then pure 0 else send target chunk

  -- The stubs, for a class that is left without a method.
  unfoldable pub aread_stub : Method W (ℤ → Exec W Chunk)
  aread_stub self size = raise unsupported_operation

  unfoldable pub awrite_stub : Method W (Chunk → Exec W ℕ)
  awrite_stub self b = raise unsupported_operation

  -- `_aclose_stub` and `_aflush_stub`
  unfoldable pub call_stub : Method W (Exec W Unit)
  call_stub self = pure tt

  unfoldable pub asplice_stub : Method W (Target W → ℤ → Exec W ℕ)
  asplice_stub self target size = pure 0

module _ {W : Type 0} where
  -- `cls.name = f`, with TypeError and AttributeError suppressed.
  set_on_class : (Namespace W → Namespace W) → PyObject W → PyObject W
  set_on_class put o = if o.cls_mutable then record o { cls = put o.cls } else o

  -- `stream.name = types.MethodType(f, stream)`
  set_on_instance : (Namespace W → Namespace W) → Exec (PyObject W) Unit
  set_on_instance put loop o =
      if o.has_dict
      then (ok tt, record o { instance_dict = put o.instance_dict })
      else (err attribute_error, o)

  -- One `if` of `patch_stream`: a test on the stream, and the assignments under it.
  pub install : (Namespace W → Bool) → (Namespace W → Namespace W) → Exec (PyObject W) Unit
  unfolding set_on_class set_on_instance
  install test put loop o =
      if test (attributes o) then set_on_instance put loop (set_on_class put o) else (ok tt, o)

  -- One `if not hasattr(cls, …)`, and the assignment under it.
  pub install_stub : (Namespace W → Bool) → (Namespace W → Namespace W) → Exec (PyObject W) Unit
  unfolding set_on_class
  install_stub missing put loop o =
      if missing o.cls then (ok tt, set_on_class put o) else (ok tt, o)

  abbrev pub lacks_aread : Namespace W → Bool
  lacks_aread n = is_some n.read && not (is_some n.aread)

  abbrev pub lacks_aread_batch : Namespace W → Bool
  lacks_aread_batch n = (is_some n.aread || is_some n.read) && not (is_some n.aread_batch)

  abbrev pub lacks_awrite : Namespace W → Bool
  lacks_awrite n = is_some n.write && not (is_some n.awrite)

  abbrev pub lacks_awrite_batch : Namespace W → Bool
  lacks_awrite_batch n = (is_some n.awrite || is_some n.write) && not (is_some n.awrite_batch)

  abbrev pub lacks_aclose : Namespace W → Bool
  lacks_aclose n = is_some n.close && not (is_some n.aclose)

  abbrev pub lacks_aflush : Namespace W → Bool
  lacks_aflush n = is_some n.flush && not (is_some n.aflush)

  abbrev pub lacks_asplice : Namespace W → Bool
  lacks_asplice n = not (is_some n.asplice)

  pub add_methods : Exec (PyObject W) Unit
  add_methods = do
    install lacks_aread (λ n. record n { aread = some patched_aread })
    install lacks_aread_batch (λ n. record n { aread_batch = some patched_aread_batch })
    install lacks_awrite (λ n. record n { awrite = some patched_awrite })
    install lacks_awrite_batch (λ n. record n { awrite_batch = some patched_awrite_batch })
    install lacks_aclose (λ n. record n { aclose = some patched_aclose })
    install lacks_aflush (λ n. record n { aflush = some patched_aflush })
    install lacks_asplice (λ n. record n { asplice = some patched_asplice })

  pub add_stubs : Exec (PyObject W) Unit
  add_stubs = do
    install_stub (λ n. not (is_some n.aread)) (λ n. record n { aread = some aread_stub })
    install_stub (λ n. not (is_some n.awrite)) (λ n. record n { awrite = some awrite_stub })
    install_stub (λ n. not (is_some n.aclose)) (λ n. record n { aclose = some call_stub })
    install_stub (λ n. not (is_some n.aflush)) (λ n. record n { aflush = some call_stub })
    install_stub (λ n. not (is_some n.asplice)) (λ n. record n { asplice = some asplice_stub })

  -- `patch_stream(stream)`, as an action on the object and its class.
  pub patch_stream : Exec (PyObject W) Unit
  patch_stream loop o =
      if is_async_io_stream (attributes o) then (ok tt, o) else (do add_methods; add_stubs) loop o
