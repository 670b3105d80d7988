-- ===== src/Native/Modes.antt =====
-- src/file_mode.rs and src/seek_whence.rs: the modes of a native file, against those of `patched_open` and
-- what `open` documents; the numbers of a seek.
use asynchstream.Base.{
  ℕ, suc, ltb, ◌-◌, ◌^◌, ◌<◌, ◌≡◌, ◌≢◌, refl, Bool, true, false, ◌||◌, some, [], ◌∷◌, ℤ, pos,
  negsuc, is_empty, contains, arith, if◌then◌else◌, ap, ◌∙◌,
}
use asynchstream.Modes.{Mode, Kind, reader, writer, random, raw_mode, replace_plus, open_kind}
use asynchstream.Modes.Letters.{
  Action, reading, writing, appending, exclusive, Request, Spells, raw_mode_letters,
}
use asynchstream.Native.OpenMode.{
  FileMode, parse, mode_or_rb, OpenOptions, new_options, configure_open_options, start, as_u64,
  to_seek_from,
}

-- The buffered class that fits a file which is open so.
abbrev pub fitting : FileMode → Kind
fitting mode = if mode.writable then (if mode.readable then random else writer) else reader

raw_mode-nonempty : (m : Mode) → is_empty (raw_mode m) ≡ false
unfolding raw_mode replace_plus
raw_mode-nonempty [] = refl
raw_mode-nonempty (x ∷ m) = ground arith

-- The letters that `parse` tests are those of the mode that `open` was given.
letter_lem : (m : Mode) (c : ℕ) → c ≢ b'b' → contains c (mode_or_rb (raw_mode m)) ≡ contains c m
letter_lem m c h =
    let e : mode_or_rb (raw_mode m) ≡ raw_mode m = rw (raw_mode-nonempty m) refl in
    ap (contains c) e ∙ (raw_mode_letters m c).1 h

module _ (m : Mode) where
  letter_r : contains b'r' (mode_or_rb (raw_mode m)) ≡ contains b'r' m
  letter_r = letter_lem m b'r' (λ h. ground (arith, h))

  letter_w : contains b'w' (mode_or_rb (raw_mode m)) ≡ contains b'w' m
  letter_w = letter_lem m b'w' (λ h. ground (arith, h))

  letter_a : contains b'a' (mode_or_rb (raw_mode m)) ≡ contains b'a' m
  letter_a = letter_lem m b'a' (λ h. ground (arith, h))

  letter_plus : contains b'+' (mode_or_rb (raw_mode m)) ≡ contains b'+' m
  letter_plus = letter_lem m b'+' (λ h. ground (arith, h))

-- For every mode, the buffered class that `patched_open` puts over a raw file is the one that fits the
-- capabilities that the native engine reads off the raw file's mode; and that file reads or writes.
pub open_kind-parse :
    (m : Mode)
    → (open_kind m ≡ fitting (parse (raw_mode m)))
      × ((parse (raw_mode m)).readable || (parse (raw_mode m)).writable ≡ true)
unfolding open_kind parse
open_kind-parse m =
    let r = letter_r m in
    let w = letter_w m in
    let a = letter_a m in
    let p = letter_plus m in (ground (arith, r, w, a, p), ground (arith, r, w, a, p))

-- What `open` documents: reading wants a file that is there, writing empties or makes it, and appending
-- makes it or adds to its end. Exclusive creation wants `create_new`, which is not among these options.
abbrev pub documented_options : Action → Bool → OpenOptions
documented_options reading update = record {
  read = true;
  write = update;
  append = false;
  truncate = false;
  create = false;
}
documented_options writing update = record {
  read = update;
  write = true;
  append = false;
  truncate = true;
  create = true;
}
documented_options appending update = record {
  read = update;
  write = true;
  append = true;
  truncate = false;
  create = true;
}
documented_options exclusive update = record {
  read = update;
  write = true;
  append = false;
  truncate = false;
  create = true;
}

-- For a mode that spells a request, in any order of its letters, other than exclusive creation: the native
-- engine opens the raw file with the options that `open` documents, but that updating always makes the file.
pub configure-documented :
    (m : Mode) (q : Request)
    → Spells m q
    → q.action ≢ exclusive
    → configure_open_options (parse (raw_mode m)) new_options
      ≡ record (documented_options q.action q.update) {
        create = (documented_options q.action q.update).create || q.update;
      }
unfolding configure_open_options parse
configure-documented m q s x =
    let r = letter_r m in
    let w = letter_w m in let a = letter_a m in let p = letter_plus m in ground (arith, r, w, a, p)

-- The number that a 64-bit pattern stands for, as the operating system reads an offset.
abbrev pub signed : ℕ → ℤ
signed n = if ltb n (2 ^ 63) then pos n else negsuc (2 ^ 64 - n - 1)

-- A 64-bit integer.
abbrev pub IsI64 : ℤ → Type 0
IsI64 (pos n) = n < 2 ^ 63
IsI64 (negsuc n) = n < 2 ^ 63

-- For a 64-bit position, a seek from the start goes to a number below 2^64 that, read as a signed 64-bit
-- integer, is the position, negative ones included.
pub to_seek_from_bounds :
    (p : ℤ)
    → IsI64 p
    → (n : ℕ) × (to_seek_from (pos 0) p ≡ some (start n)) × (n < 2 ^ 64) × (signed n ≡ p)
unfolding to_seek_from as_u64
to_seek_from_bounds (pos n) h = (n, refl, omega arith, ground (arith, h))
to_seek_from_bounds (negsuc n) h = (2 ^ 64 - suc n, refl, omega arith, ground (arith, h))
