-- ===== src/Lib.antt =====
-- py-native-io: streams with synchronous and asynchronous methods for Python.
--
-- The program (py_native_io/) gives every stream one contract, the protocol `AsyncIOStream`. Its parts
-- and the files that model them:
--
-- - Base, Exec, Object: shared. `Exec W A` is a Python statement: it reads whether its thread has a
--   running event loop, changes a world `W`, and returns a value or an exception. Awaiting a coroutine
--   is performing its action; `asyncio.to_thread` and `asyncio.run` only set the loop flag. An object is
--   the record of its attributes, each one there or not, so that `hasattr` is `is_some`; a class is the
--   same record of functions that wait for `self`. `instantiate` binds them, and its number bounds how
--   deep the methods of one object may call one another: past it a call ends in `too_deep`, which no
--   handler catches. Theorems hold at every depth, or at every depth above the calls that the code makes.
-- - Meta: the metaclass `AsyncIOBaseMeta` of base.py, on the body of a class and what its bases give.
-- - Stream: the protocol and the class `AsyncIOBase` of base.py, with splicing and batches.
-- - Patch: `patch_stream` of patch.py, as an action on an object and its class.
-- - Adapter: `AsyncStreamAdapter`, `wrap_stream` and `ensure_async_stream` of patch.py.
-- - Modes, Open: the modes of `patched_open` and the streams that it composes (patch.py).
-- - File: `FallbackFileIO`, the choice of the engine and `create_default_file_io` of file.py.
-- - Socket: `AsyncSocketIO` of socket.py and `patched_socket_makefile` of patch.py. The loop of `read`
--   has fuel; more fuel than there are bytes to come is enough, since each round takes a byte.
-- - Print: `aprint` and the streams made on first use of print.py, with UTF-8 encoding.
-- - Utf8: Python's UTF-8 with strict errors, for printing and for text streams.
-- - Buffered: the buffered classes and the text class of buffered.py; Open/Objects is the streams that
--   `patched_open` composes of these, as objects.
-- - Memory: the class body that the in-memory streams of memory.py share.
-- - Install: `patch_python_io` of patch.py, the body of the package (__init__.py) and sitecustomize.py
--   (from the repository's root).
-- - Native: `FileMode`, `SeekingWhence` and `NativeFileIO` of the Rust crate (src/file_mode.rs,
--   src/seek_whence.rs, src/file_io.rs).
-- - Ring: the requests of src/engines/linux.rs on the thread's io_uring, and how their results are
--   waited for; Ring/Support is the test whether rings are used, and Ring/Kernel states what io_uring
--   documents. The waiting loop has fuel: every turn but the first takes a completion, so more fuel than
--   the requests under way and one is enough.
-- - Native/Host, Native/OverRings and Native/OnWindows put native files over the requests of these engines,
--   which `Native` itself takes as parameters. What the kernel does to the files for the ring's requests is
--   a parameter, `settle`.
-- - Engine: the test whether a platform's rings are used, of src/engines/mod.rs, and the requests of
--   src/engines/windows.rs; Engine/Choice is what file.py makes of the test.
-- - Examples: the benchmark of examples/07_scale_5000_files_benchmark.py. A coroutine is what is left of
--   it between two awaits, `asyncio.gather` is a parameter, and `IsGather` says that it lets them go on in
--   any order. The list of a range has fuel; as many as its end are enough, since each step is positive.
--   Examples/Files states what the benchmark relies on of `open` and of the streams it gives.
-- - Examples/Batch: the payload and the five benchmarks of examples/01_sync_and_async_file_io.py,
--   over what Examples/Batch/ReadBack states of their streams; aiofiles and the calls of `os` are parameters.
-- - Tests: runs, and the theorems at concrete inputs.
--
-- `Meta.new_class` builds every class of the package; `Stream` is the base of `File`, `Socket` and
-- `Adapter`; `Open` calls `File` for the raw stream, `Adapter` calls `Patch`; `Print` writes to any stream.
--
-- What the program does not implement is a parameter: the built-in `open`, the constructors of the
-- native engine and of the standard library's buffered and text classes, sockets, `os.write`, encodings
-- other than UTF-8, `asyncio.gather`, aiofiles, `str` of an object, `sys.stdout`, the operating
-- system's files, the crate io_uring with the kernel behind it, and what `io.IOBase` and the standard
-- stream classes give. Log lines are left out, but for the registry of logged classes. Attribute lookup
-- knows the object's dictionary and its class; descriptors and slots are left out.
--
-- Not modelled: the other examples, which run at fixed inputs, the tests and the scripts; and of the two
-- benchmarks the times, the arguments, the names of the files and what is printed.
pub mod Base
pub mod Exec
pub mod Object
pub mod Meta
pub mod Stream
pub mod Patch
pub mod Adapter
pub mod Modes
pub mod File
pub mod Open
pub mod Socket
pub mod Utf8
pub mod Print
pub mod Memory
pub mod Buffered
pub mod Install
pub mod Native
pub mod Ring
pub mod Engine
pub mod Examples
mod Tests
