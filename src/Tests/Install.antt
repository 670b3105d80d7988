-- ===== src/Tests/Install.antt =====
-- The theorems on the patching of the interpreter, at small inputs.
use asynchstream.Base.{◌≡◌, refl, true, false, none, some}
use asynchstream.File.{fallback_file_io}
use asynchstream.Install.{foreign, Interpreter, patch_python_io, found_open}
use asynchstream.Install.Once.{patch, rebind_open, here, later, IsForeign, found_open-IsForeign}

abbrev fresh : Interpreter
fresh = record {
  builtins = record { open_function = foreign 1; orig_open = none };
  io = record {
    open_function = foreign 1;
    orig_open = none;
    file_io = foreign 2;
    bytes_io = foreign 3;
    string_io = foreign 4;
    buffered_reader = foreign 5;
    buffered_writer = foreign 6;
    buffered_random = foreign 7;
    text_io_wrapper = foreign 8;
    async_io_base = none;
  };
  socket = record { makefile = some (foreign 9); orig_makefile = none };
  imported = false;
}

patched : Interpreter
patched = (patch_python_io fallback_file_io true fresh).1

-- Other code has put in its own `open` since.
rebound : Interpreter
rebound = record patched { builtins = record patched.builtins { open_function = foreign 10 } }

rebound_runs : found_open rebound ≡ foreign 1
unfolding rebound patched patch_python_io
rebound_runs = refl

found_open-IsForeign_example :
    IsForeign (found_open rebound) × (found_open rebound ≡ found_open patched)
unfolding rebound patched patch_python_io
found_open-IsForeign_example =
    found_open-IsForeign 1 refl (later {t = fresh} here (patch fallback_file_io true refl))
      (later {t = patched} here (rebind_open 10 refl)) refl
