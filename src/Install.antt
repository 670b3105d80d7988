-- ===== src/Install.antt =====
-- py_native_io/patch.py: `patch_python_io`, over the names of the interpreter that it assigns;
-- py_native_io/__init__.py: what importing the package runs; sitecustomize.py.
pub mod Once
use asynchstream.Base.{ℕ, Bool, true, false, Option, none, some, is_some, if◌then◌else◌}
use asynchstream.Exec.{Exec, Exc, Result, ok, err, too_deep, import_error, pure, raise, ◌>>=◌, ◌>>◌}
use asynchstream.File.{FileClass}

-- A function or a class that a name of the interpreter stands for. Those that are not of the package
-- have a number.
pub data Callable : Type 0 where
  foreign : ℕ → Callable
  patched_open patched_socket_makefile : Callable
  default_file_io : FileClass → Callable
  async_bytes_io async_string_io async_io_base : Callable
  async_buffered_reader async_buffered_writer async_buffered_random : Callable
  async_text_io_wrapper : Callable

-- The names of the module `builtins`; `_orig_open` is there or not.
pub record Builtins : Type 0 where
  pub open_function : Callable
  pub orig_open : Option Callable

-- Those of the module `io`.
pub record IoModule : Type 0 where
  pub open_function : Callable
  pub orig_open : Option Callable
  pub file_io : Callable
  pub bytes_io : Callable
  pub string_io : Callable
  pub buffered_reader : Callable
  pub buffered_writer : Callable
  pub buffered_random : Callable
  pub text_io_wrapper : Callable
  pub async_io_base : Option Callable

-- The class `socket.socket`.
pub record SocketClass : Type 0 where
  pub makefile : Option Callable
  pub orig_makefile : Option Callable

-- `imported` says whether the package is in `sys.modules`.
pub record Interpreter : Type 0 where
  pub builtins : Builtins
  pub io : IoModule
  pub socket : SocketClass
  pub imported : Bool

-- The assignments to the names of `io`, but for `open`.
patch_classes : FileClass → IoModule → IoModule
patch_classes file_class io = record io {
  file_io = default_file_io file_class;
  bytes_io = async_bytes_io;
  string_io = async_string_io;
  buffered_reader = async_buffered_reader;
  buffered_writer = async_buffered_writer;
  buffered_random = async_buffered_random;
  text_io_wrapper = async_text_io_wrapper;
  async_io_base = some Callable.async_io_base;
}

-- `if hasattr(socket.socket, "makefile")`, and the assignments under it.
patch_makefile : Option Callable → SocketClass → SocketClass
patch_makefile none s = s
patch_makefile (some makefile) s = record s {
  orig_makefile = some makefile;
  makefile = some patched_socket_makefile;
}

-- What `patch_python_io` assigns.
assignments : FileClass → Interpreter → Interpreter
unfolding patch_classes patch_makefile
assignments file_class s = record s {
  builtins = record { open_function = patched_open; orig_open = some s.builtins.open_function };
  io = record (patch_classes file_class s.io) {
    open_function = patched_open;
    orig_open = some s.io.open_function;
  };
  socket = patch_makefile s.socket.makefile s.socket;
}

unfoldable pub patch_python_io : FileClass → Exec Interpreter Unit
unfolding assignments
patch_python_io file_class loop s =
    if is_some s.builtins.orig_open then (ok tt, s) else (ok tt, assignments file_class s)

-- `getattr(builtins, "_orig_open", builtins.open)`, in `patched_open` and in `FallbackFileIO`.
abbrev pub or_open : Option Callable → Callable → Callable
or_open none open_function = open_function
or_open (some orig_open) _ = orig_open

abbrev pub found_open : Interpreter → Callable
found_open s = or_open s.builtins.orig_open s.builtins.open_function

-- The body of the package's module, which runs unless the package is in `sys.modules`. `available` says
-- whether the package is found; its submodules only define names.
set_imported : Exec Interpreter Unit
set_imported loop s = (ok tt, record s { imported = true })

import_body : FileClass → Bool → Exec Interpreter Unit
unfolding set_imported
import_body file_class false = raise import_error
import_body file_class true = do patch_python_io file_class; set_imported

pub import_package : FileClass → Bool → Exec Interpreter Unit
unfolding import_body
import_package file_class available loop s =
    if s.imported then (ok tt, s) else import_body file_class available loop s

-- `except ImportError: pass`
abbrev suppress_import_error : Result (Unit {0}) → Exec Interpreter Unit
suppress_import_error (ok a) = pure a
suppress_import_error (err import_error) = pure tt
suppress_import_error (err e) = raise e
suppress_import_error too_deep = λ loop w. (too_deep, w)

-- The module `sitecustomize`, which Python runs at its start.
pub sitecustomize : FileClass → Bool → Exec Interpreter Unit
unfolding import_package
sitecustomize file_class available loop s =
    let (r, s') = (do import_package file_class available; patch_python_io file_class) loop s in
    suppress_import_error r loop s'
