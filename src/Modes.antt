-- ===== src/Modes.antt =====
-- py_native_io/patch.py: what `patched_open` and `patched_socket_makefile` read off a mode string. A
-- text is the list of its code points.
pub mod Letters
use asynchstream.Base.{
  ℕ, Bool, true, false, not, ◌&&◌, ◌||◌, List, [], ◌∷◌, ◌++◌, ℤ, pos, is_positive, contains, ◌==◌,
  if◌then◌else◌,
}

abbrev pub Mode : Type 0
Mode = List ℕ

-- `mode.replace("+", "b+")`
unfoldable pub replace_plus : Mode → Mode
replace_plus [] = []
replace_plus (c ∷ m) = if c == b'+' then b'b' ∷ b'+' ∷ replace_plus m else c ∷ replace_plus m

-- The mode in which the raw stream is opened; both functions compute it alike.
unfoldable pub raw_mode : Mode → Mode
raw_mode mode =
    if not (contains b'b' mode) && not (contains b't' mode)
    then (if contains b'+' mode then replace_plus mode else mode ++ (b'b' ∷ []))
    else mode

-- The classes AsyncBufferedReader, AsyncBufferedWriter and AsyncBufferedRandom.
pub data Kind : Type 0 where
  reader writer random : Kind

-- The tests of `patched_open`, which are the same on its binary and on its text branch.
unfoldable pub open_kind : Mode → Kind
open_kind mode =
    if contains b'w' mode || (contains b'a' mode || contains b'+' mode)
    then (if contains b'r' mode || contains b'+' mode then random else writer)
    else reader

-- Those of `patched_socket_makefile`.
unfoldable pub makefile_kind : Mode → Kind
makefile_kind mode = if contains b'w' mode || contains b'a' mode then writer else reader

-- `buffering if buffering > 0 else io.DEFAULT_BUFFER_SIZE`
unfoldable pub buffer_size : ℤ → ℤ → ℤ
buffer_size default buffering = if is_positive buffering then buffering else default
