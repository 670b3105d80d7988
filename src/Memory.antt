-- ===== src/Memory.antt =====
-- py_native_io/memory.py: the classes `AsyncBytesIO` and `AsyncStringIO`, whose bodies are the same. What
-- `io.BytesIO` and `io.StringIO` give is a parameter.
pub mod Methods
use asynchstream.Base.{ℕ, Option, none, some, ℤ, pos, is_positive, if◌then◌else◌}
use asynchstream.Exec.{Exec, call, run, pure, to_thread, ◌>>=◌}
use asynchstream.Object.{Chunk, is_falsy, Sink, Target, fd, obj, Method, Namespace, empty, inherit}
use asynchstream.Meta.{new_class}
use asynchstream.Stream.{async_io_base}

module _ {W : Type 0} where
  unfoldable pub memory_aread : Method W (ℤ → Exec W Chunk)
  memory_aread self size = call self.read size

  unfoldable pub memory_awrite : Method W (Chunk → Exec W ℕ)
  memory_awrite self b = call self.write b

  unfoldable pub memory_aclose : Method W (Exec W Unit)
  memory_aclose self = run self.close

  unfoldable pub memory_aflush : Method W (Exec W Unit)
  memory_aflush self = run self.flush

  pub give_chunk : Option (Chunk → Exec W ℕ) → Option (Chunk → Exec W ℕ) → Chunk → Exec W ℕ
  give_chunk (some awrite) _ chunk = awrite chunk
  give_chunk none (some write) chunk = to_thread (write chunk)
  give_chunk none none chunk = pure 0

  -- An integer has neither `awrite` nor `write`.
  pub give : Target W → Chunk → Exec W ℕ
  unfolding give_chunk
  give (fd n) chunk = give_chunk none none chunk
  give (obj sink) chunk = give_chunk sink.awrite sink.write chunk

  unfoldable pub memory_asplice : Method W (Target W → ℤ → Exec W ℕ)
  unfolding give
  memory_asplice self target size = do
    chunk ← call self.aread (if is_positive size then size else pos 65536)
    if is_falsy chunk then pure 0 else give target chunk

  -- The body of either class.
  unfoldable pub memory_body : Namespace W
  memory_body = record empty {
    aread = some memory_aread;
    awrite = some memory_awrite;
    aclose = some memory_aclose;
    aflush = some memory_aflush;
    asplice = some memory_asplice;
  }

-- The class, over `io.BytesIO` or `io.StringIO` first and then `AsyncIOBase`.
abbrev pub memory_class :
    {W : Type 0} → (ℤ → Chunk → Exec W ℕ) → Namespace W → Namespace W → Namespace W
memory_class os_write standard io_base =
    (new_class memory_body (inherit standard (async_io_base os_write io_base))).cls
