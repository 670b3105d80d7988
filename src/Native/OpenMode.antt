-- ===== src/Native/OpenMode.antt =====
-- src/file_mode.rs: the mode of a native file, and the options that it is opened with; src/seek_whence.rs:
-- where a seek goes. `OpenOptions` and `SeekFrom` are those of Rust's standard library.
use asynchstream.Base.{
  ℕ, zero, suc, ◌-◌, ◌^◌, Bool, true, false, not, ◌&&◌, ◌||◌, Option, none, some, [], ◌∷◌, ℤ, pos,
  negsuc, is_empty, contains, if◌then◌else◌,
}
use asynchstream.Modes.{Mode}

pub record FileMode : Type 0 where
  pub readable : Bool
  pub writable : Bool
  pub append : Bool
  pub truncate : Bool
  pub binary : Bool

-- An empty mode is "rb".
abbrev pub mode_or_rb : Mode → Mode
mode_or_rb mode = if is_empty mode then b'r' ∷ b'b' ∷ [] else mode

unfoldable pub parse : Mode → FileMode
parse mode =
    let mode_str = mode_or_rb mode in
    record {
      readable =
          contains b'r' mode_str
          || (contains b'+' mode_str
              || (not (contains b'w' mode_str) && not (contains b'a' mode_str)));
      writable = contains b'w' mode_str || (contains b'a' mode_str || contains b'+' mode_str);
      append = contains b'a' mode_str;
      truncate = contains b'w' mode_str;
      binary = contains b'b' mode_str;
    }

pub record OpenOptions : Type 0 where
  pub read : Bool
  pub write : Bool
  pub append : Bool
  pub truncate : Bool
  pub create : Bool

-- `OpenOptions::new()`
abbrev pub new_options : OpenOptions
new_options = record {
  read = false;
  write = false;
  append = false;
  truncate = false;
  create = false;
}

configure_write : FileMode → OpenOptions → OpenOptions
configure_write mode options =
    if mode.truncate
    then record options { write = true; create = true; truncate = true }
    else if mode.append
    then record options { write = true; create = true; append = true }
    else record options { write = true; create = true }

unfoldable pub configure_open_options : FileMode → OpenOptions → OpenOptions
unfolding configure_write
configure_open_options mode options =
    let written = configure_write mode options in
    if mode.writable
    then (if mode.readable then record written { read = true } else written)
    else record options { read = true }

pub data SeekFrom : Type 0 where
  start : ℕ → SeekFrom
  current end : ℤ → SeekFrom

-- `pos as u64`, of a 64-bit integer.
unfoldable pub as_u64 : ℤ → ℕ
as_u64 (pos n) = n
as_u64 (negsuc n) = 2 ^ 64 - suc n

-- `none` is the ValueError "invalid whence".
unfoldable pub to_seek_from : ℤ → ℤ → Option SeekFrom
to_seek_from (pos zero) p = some (start (as_u64 p))
to_seek_from (pos (suc zero)) p = some (current p)
to_seek_from (pos (suc (suc zero))) p = some (end p)
to_seek_from _ p = none
