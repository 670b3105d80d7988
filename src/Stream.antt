-- ===== src/Stream.antt =====
-- py_native_io/base.py: the protocol `AsyncIOStream` and the class `AsyncIOBase`, from which every
-- stream class of the package inherits.
pub mod Loops
pub mod Batch
pub mod Splice
pub mod SpliceAll
use asynchstream.Base.{
  ℕ, Bool, true, false, ◌&&◌, Option, none, some, List, ℤ, pos, is_negative, is_positive,
  is_minus_one, minus_one, is_some, if◌then◌else◌,
}
use asynchstream.Exec.{
  Exec, pure, raise, runtime_error, call, run, to_thread, asyncio_run, in_running_loop,
  comprehension, ◌>>=◌,
}
use asynchstream.Object.{
  Chunk, is_falsy, Spec, spec_size, Sink, Target, fd, obj, Attrs, Method, Namespace, Stream, empty,
}
use asynchstream.Meta.{new_class}

-- `isinstance(stream, AsyncIOStream)`: a runtime protocol asks for its methods by name.
abbrev pub is_async_io_stream : {W : Type 0} {F : Type 0 → Type 0} → Attrs W F → Bool
is_async_io_stream s =
    is_some s.aread
    && (is_some s.awrite && (is_some s.aclose && (is_some s.aflush && is_some s.asplice)))

module _ {W : Type 0} where
  -- The two ways of reading and writing for a class that has one of them.
  unfoldable pub base_aread : Method W (ℤ → Exec W Chunk)
  base_aread self size = to_thread (call self.read size)

  unfoldable pub base_awrite : Method W (Chunk → Exec W ℕ)
  base_awrite self b = to_thread (call self.write b)

  unfoldable pub base_read : Method W (ℤ → Exec W Chunk)
  base_read self size =
      in_running_loop
        λ running. if running then raise runtime_error else asyncio_run (call self.aread size)

  unfoldable pub base_write : Method W (Chunk → Exec W ℕ)
  base_write self b =
      in_running_loop
        λ running. if running then raise runtime_error else asyncio_run (call self.awrite b)

  one_by_one : Option (List Spec → Exec W (List Chunk)) → Stream W → List Spec → Exec W (List Chunk)
  one_by_one (some ext_aread_batch) self specs = ext_aread_batch specs
  one_by_one none self specs = comprehension (λ sz. call self.aread (spec_size sz)) specs

  unfoldable pub base_aread_batch : Method W (List Spec → Exec W (List Chunk))
  unfolding one_by_one comprehension
  base_aread_batch self specs = one_by_one self.ext_aread_batch self specs

  write_one_by_one : Option (List Chunk → Exec W (List ℕ)) → Stream W → List Chunk → Exec W (List ℕ)
  write_one_by_one (some ext_awrite_batch) self chunks = ext_awrite_batch chunks
  write_one_by_one none self chunks = comprehension (call self.awrite) chunks

  unfoldable pub base_awrite_batch : Method W (List Chunk → Exec W (List ℕ))
  unfolding write_one_by_one comprehension
  base_awrite_batch self chunks = write_one_by_one self.ext_awrite_batch self chunks

  unfoldable pub base_aclose : Method W (Exec W Unit)
  base_aclose self = to_thread (run self.close)

  unfoldable pub base_aflush : Method W (Exec W Unit)
  base_aflush self = to_thread (run self.flush)

  -- `target.fileno() if hasattr(target, "fileno") else -1`
  unfoldable pub object_fd : Option (Exec W ℤ) → Exec W ℤ
  object_fd none = pure minus_one
  object_fd (some fileno) = fileno

  unfoldable pub target_fd : Target W → Exec W ℤ
  unfolding object_fd
  target_fd (fd n) = pure n
  target_fd (obj sink) = object_fd sink.fileno

-- What `os.write` does is a parameter.
module _ {W : Type 0} (os_write : ℤ → Chunk → Exec W ℕ) where
  -- The chain of `hasattr` tests at the end, on `target.awrite` and `target.write`.
  unfoldable pub hand_over :
      Option (Chunk → Exec W ℕ) → Option (Chunk → Exec W ℕ) → ℤ → Chunk → Exec W ℕ
  hand_over (some awrite) _ n chunk = awrite chunk
  hand_over none (some write) n chunk = to_thread (write chunk)
  hand_over none none n chunk = if is_minus_one n then pure 0 else to_thread (os_write n chunk)

  unfoldable pub deliver : Target W → ℤ → Chunk → Exec W ℕ
  unfolding hand_over
  deliver (fd m) n chunk = hand_over none none n chunk
  deliver (obj sink) n chunk = hand_over sink.awrite sink.write n chunk

  unfoldable pub copy_chunk : Stream W → Target W → ℤ → ℤ → Exec W ℕ
  unfolding deliver
  copy_chunk self target n size = do
    chunk ← call self.aread (if is_positive size then size else pos 65536)
    if is_falsy chunk then pure 0 else deliver target n chunk

  unfoldable pub splice_to : Option (ℤ → ℤ → Exec W ℕ) → Stream W → Target W → ℤ → ℤ → Exec W ℕ
  unfolding copy_chunk
  splice_to none self target n size = copy_chunk self target n size
  splice_to (some ext_asplice) self target n size =
      if is_minus_one n then copy_chunk self target n size else ext_asplice n size

  unfoldable pub base_asplice : Method W (Target W → ℤ → Exec W ℕ)
  unfolding target_fd splice_to
  base_asplice self target size = do
    n ← target_fd target
    splice_to self.ext_asplice self target n size

  -- The body of the class.
  abbrev pub base_body : Namespace W
  base_body = record empty {
    aread = some base_aread;
    aread_batch = some base_aread_batch;
    awrite = some base_awrite;
    awrite_batch = some base_awrite_batch;
    aclose = some base_aclose;
    aflush = some base_aflush;
    asplice = some base_asplice;
    read = some base_read;
    write = some base_write;
  }

  -- The class `AsyncIOBase`, over what `io.IOBase` gives it.
  abbrev pub async_io_base : Namespace W → Namespace W
  async_io_base io_base = (new_class base_body io_base).cls
