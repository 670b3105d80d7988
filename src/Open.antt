-- ===== src/Open.antt =====
-- py_native_io/patch.py: `patched_open` and `patched_socket_makefile`, up to the log lines. The classes
-- of the standard library that they construct are parameters, and so is the socket.
pub mod Shape
pub mod Objects
use asynchstream.Base.{
  ℕ, Bool, true, false, not, ◌&&◌, ◌||◌, Option, none, some, List, ℤ, pos, is_some, contains,
  if◌then◌else◌, is_zero,
}
use asynchstream.Exec.{Exec, Result, ok, err, raise, value_error, pure, ◌>>=◌, ◌>>◌}
use asynchstream.Object.{Stream}
use asynchstream.Modes.{
  Mode, Kind, reader, writer, random, raw_mode, open_kind, makefile_kind, buffer_size,
}
use asynchstream.File.{
  FileArg, path, path_like, descriptor, object, OpenCall, Raw, create_default_file_io,
}

-- What the functions use of Python, and of the extension module.
pub record Python (W : Type 0) : Type 0 where
  pub orig_open : OpenCall W → Exec W (Stream W)
  pub native_open : FileArg W → Mode → Exec W (Stream W)
  pub native_ok : Bool
  pub default_buffer_size : ℤ
  -- The constructors of the buffered classes and of the text class, over a raw stream `R`.
  pub init_buffered : Kind → Raw W → ℤ → Exec W Unit
  pub init_text : Kind → Raw W → Option (List ℕ) → Option (List ℕ) → Option (List ℕ) → Exec W Unit

-- A stream as it is composed: a raw one, one buffer over a raw one, or text over such a buffer. `R` is
-- the type of the raw stream.
pub data Opened (W R : Type 0) : Type 0 where
  original : Stream W → Opened W R
  raw_stream : R → Opened W R
  buffered : Kind → R → ℤ → Opened W R
  text : Kind → R → ℤ → Option (List ℕ) → Option (List ℕ) → Option (List ℕ) → Opened W R

-- `isinstance(file, (str, bytes, os.PathLike, int))`
abbrev pub is_file_name : {W : Type 0} → FileArg W → Bool
is_file_name (object o) = false
is_file_name (path p) = true
is_file_name (path_like p) = true
is_file_name (descriptor n) = true

module _ {W : Type 0} (py : Python W) where
  -- `AsyncBuffered…(raw, buffer_size=…)`
  make_buffered : Kind → Raw W → ℤ → Exec W (Opened W (Raw W))
  make_buffered kind raw buffering = do
    let size = buffer_size py.default_buffer_size buffering
    py.init_buffered kind raw size
    pure (buffered kind raw size)

  make_text : Kind → Raw W → OpenCall W → Exec W (Opened W (Raw W))
  make_text kind raw c = do
    let size = buffer_size py.default_buffer_size c.buffering
    py.init_buffered kind raw size
    py.init_text kind raw c.encoding c.errors c.newline
    pure (text kind raw size c.encoding c.errors c.newline)

  -- What stands behind the opening of the raw stream.
  pub over_raw : OpenCall W → Raw W → Exec W (Opened W (Raw W))
  unfolding make_buffered make_text
  over_raw c raw =
      if contains b'b' c.mode
      then (if is_zero c.buffering
          then pure (raw_stream raw)
          else make_buffered (open_kind c.mode) raw c.buffering)
      else if is_zero c.buffering
      then raise value_error
      else make_text (open_kind c.mode) raw c

  open_original : OpenCall W → Exec W (Opened W (Raw W))
  open_original c = do o ← py.orig_open c; pure (original o)

  unfoldable pub open_raw : OpenCall W → Exec W (Raw W)
  open_raw c =
      create_default_file_io py.orig_open py.native_open py.native_ok c.file (raw_mode c.mode)
        c.closefd c.opener

  unfoldable pub patched_open : OpenCall W → Exec W (Opened W (Raw W))
  unfolding over_raw open_original open_raw
  patched_open c =
      if is_some c.opener || not (is_file_name c.file)
      then open_original c
      else (do raw ← open_raw c; over_raw c raw)
