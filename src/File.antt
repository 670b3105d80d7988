-- ===== src/File.antt =====
-- py_native_io/file.py: the thread-pool stream `FallbackFileIO`, the choice of the engine, and
-- `create_default_file_io`. The built-in `open` and the native engine's constructor are parameters.
pub mod Fallback
use asynchstream.Base.{
  ℕ, Bool, true, false, ◌&&◌, ◌||◌, Option, none, some, List, ℤ, minus_one, is_some, if◌then◌else◌,
}
use asynchstream.Exec.{
  Exec, Result, ok, err, too_deep, raise, attribute_error, not_implemented_error, is_exception,
  call, run, pure, ◌>>=◌,
}
use asynchstream.Object.{Chunk, Stream, Namespace, empty}
use asynchstream.Modes.{Mode}
use asynchstream.Adapter.{seek_on}

-- The `file` argument: a `str` or `bytes`, an object with `__fspath__`, an `int`, or any other object.
pub data FileArg (W : Type 0) : Type 0 where
  path : List ℕ → FileArg W
  path_like : List ℕ → FileArg W
  descriptor : ℤ → FileArg W
  object : Stream W → FileArg W

-- A call of the built-in `open`. An opener is known by a number.
pub record OpenCall (W : Type 0) : Type 0 where
  pub file : FileArg W
  pub mode : Mode
  pub buffering : ℤ
  pub encoding : Option (List ℕ)
  pub errors : Option (List ℕ)
  pub newline : Option (List ℕ)
  pub closefd : Bool
  pub opener : Option ℕ

-- The arguments that a call leaves out.
abbrev pub open_call : {W : Type 0} → FileArg W → Mode → OpenCall W
open_call file mode = record {
  file = file;
  mode = mode;
  buffering = minus_one;
  encoding = none;
  errors = none;
  newline = none;
  closefd = true;
  opener = none;
}

module _ {W : Type 0} where
  -- The body of `FallbackFileIO`, for an instance whose `_sync_stream` is `sync`.
  unfoldable pub fallback_body : Stream W → Namespace W
  fallback_body sync = record empty {
    read = some (λ self size. call sync.read size);
    readinto = some (λ self b. call sync.readinto b);
    write = some (λ self b. call sync.write b);
    close = some (λ self. run sync.close);
    flush = some (λ self. run sync.flush);
    closed = some (λ self. run sync.closed);
    seek = some (λ self offset whence. seek_on sync.seek offset whence);
    tell = some (λ self. run sync.tell);
    readable = some (λ self. run sync.readable);
    writable = some (λ self. run sync.writable);
    seekable = some (λ self. run sync.seekable);
    fileno = some (λ self. run sync.fileno);
    isatty = some (λ self. run sync.isatty);
  }

module _ {W : Type 0} (orig_open : OpenCall W → Exec W (Stream W)) where
  sync_stream_of_object : Mode → Stream W → Exec W (Stream W)
  sync_stream_of_object mode o =
      if is_some o.read || is_some o.write then pure o else orig_open (open_call (object o) mode)

  -- `FallbackFileIO.__init__`: the stream that it keeps as `_sync_stream`.
  unfoldable pub fallback_init : FileArg W → Mode → Bool → Option ℕ → Exec W (Stream W)
  unfolding sync_stream_of_object
  fallback_init file mode closefd (some opener) =
      orig_open (record (open_call file mode) { closefd = closefd; opener = some opener })
  fallback_init (descriptor n) mode closefd none =
      orig_open (record (open_call (descriptor n) mode) { closefd = closefd })
  fallback_init (object o) mode closefd none = sync_stream_of_object mode o
  fallback_init (path p) mode closefd none = orig_open (open_call (path p) mode)
  fallback_init (path_like p) mode closefd none = orig_open (open_call (path_like p) mode)

-- `sys.platform`, as far as the module tests it.
pub data Platform : Type 0 where
  linux win darwin other_platform : Platform

-- The classes among which `DefaultFileIO` is chosen.
pub data FileClass : Type 0 where
  linux_uring windows_io_ring mac_os_kqueue native_file_io fallback_file_io : FileClass

unfoldable pub default_file_io : Bool → Platform → FileClass
default_file_io true linux = linux_uring
default_file_io true win = windows_io_ring
default_file_io true darwin = mac_os_kqueue
default_file_io true other_platform = native_file_io
default_file_io false platform = fallback_file_io

-- `_ext.is_kernel_ring_supported() if _ext is not None else False`
unfoldable pub use_native : Option Bool → Bool
use_native none = false
use_native (some supported) = supported

-- The constructor of `NativeFileIO` that stands in when there is no extension module.
unfoldable pub dummy_native_file_io : {W : Type 0} → FileArg W → Mode → Exec W (Stream W)
dummy_native_file_io file mode = raise not_implemented_error

-- A raw stream: a native one, or a `FallbackFileIO` over its `_sync_stream`.
pub data Raw (W : Type 0) : Type 0 where
  native : Stream W → Raw W
  fallback : Stream W → Raw W

module _ {W : Type 0} (orig_open : OpenCall W → Exec W (Stream W)) where
  -- The fallback at the end of `create_default_file_io`.
  unfoldable pub open_fallback : FileArg W → Mode → Bool → Option ℕ → Exec W (Raw W)
  open_fallback file mode closefd opener = do
    sync ← fallback_init orig_open file mode closefd opener
    pure (fallback sync)

module _ {W : Type 0} (orig_open : OpenCall W → Exec W (Stream W))
    (native_open : FileArg W → Mode → Exec W (Stream W)) (native_ok : Bool) where
  -- `isinstance(file, (str, bytes)) or hasattr(file, "__fspath__")`
  abbrev pub is_path : FileArg W → Bool
  is_path (path p) = true
  is_path (path_like p) = true
  is_path (descriptor n) = false
  is_path (object o) = false

  -- `except Exception: pass`, and the code below it.
  unfoldable pub after_native : Exec W (Raw W) → Result (Stream W) → Exec W (Raw W)
  after_native otherwise (ok inst) = pure (native inst)
  after_native otherwise (err e) = if is_exception e then otherwise else raise e
  after_native otherwise too_deep = λ loop w. (too_deep, w)

  unfoldable pub create_default_file_io : FileArg W → Mode → Bool → Option ℕ → Exec W (Raw W)
  unfolding open_fallback after_native
  create_default_file_io file mode closefd opener loop w =
      if native_ok && is_path file
      then (let (r, w') = native_open file mode loop w in
          after_native (open_fallback orig_open file mode closefd opener) r loop w')
      else open_fallback orig_open file mode closefd opener loop w
