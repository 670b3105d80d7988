-- ===== src/Tests/Native.antt =====
-- The theorems on native files, at small inputs.
use asynchstream.Base.{
  ℕ, ◌^◌, ◌<◌, ◌≡◌, refl, true, false, ◌||◌, none, some, List, [], ◌∷◌, ◌++◌, take, pos, minus_one,
  arith,
}
use asynchstream.Exec.{is_ok, ok, pure, raise, os_error}
use asynchstream.Object.{bytes}
use asynchstream.Modes.{Mode, raw_mode, open_kind}
use asynchstream.Modes.Letters.{Action, Request}
use asynchstream.File.{linux}
use asynchstream.Native.{Os, NativeFile, Open, native_close, native_awrite, new_native}
use asynchstream.Native.OpenMode.{parse, new_options, configure_open_options, start, to_seek_from}
use asynchstream.Native.Modes.{
  fitting, open_kind-parse, documented_options, configure-documented, signed, to_seek_from_bounds,
}
use asynchstream.Native.Closed.{read, write, close, perform, perform_all, closed_forever}
use asynchstream.Native.Offsets.{awrite_appends}

-- One file, whose bytes are the world. Its descriptor does not write, and the ring refuses it.
abbrev pub os : Os (List ℕ)
os = record {
  open_file = λ path options. pure 4;
  close_file = λ f w. w;
  read = λ f n loop w. (ok (take n w), w);
  read_to_end = λ f loop w. (ok w, w);
  write_all = λ f b loop w. (ok tt, w ++ b);
  seek = λ f seek_from. pure 0;
  submit_uring_read = λ f offset n loop w. (ok (take n w), w);
  submit_uring_write = λ f b. raise os_error;
  submit_uring_read_batch = λ f specs. raise os_error;
  submit_uring_write_batch = λ f bufs. raise os_error;
  submit_uring_splice = λ f target len. raise os_error;
  submit_ioring_read = λ f n. raise os_error;
  submit_ioring_write = λ f b. raise os_error;
}

abbrev reading_bytes : Mode
reading_bytes = b'r' ∷ b'b' ∷ []

pub read_only_file : NativeFile
read_only_file = record { path = b'f' ∷ []; mode = parse reading_bytes }

abbrev pub opened : Open (List ℕ)
opened = record { file = some 3; world = 7 ∷ 8 ∷ 9 ∷ [] }

new_native_runs :
    new_native os linux (b'f' ∷ []) reading_bytes true [] ≡ (ok (read_only_file, 4), [])
unfolding new_native read_only_file
new_native_runs = refl

-- The file is open for reading only.
awrite_appends_example :
    native_awrite os linux read_only_file (bytes (1 ∷ [])) true opened
    ≡ (ok 1, record opened { world = 7 ∷ 8 ∷ 9 ∷ 1 ∷ [] })
awrite_appends_example =
    awrite_appends os read_only_file (bytes (1 ∷ [])) (1 ∷ []) 3 4 os_error true opened
      (7 ∷ 8 ∷ 9 ∷ []) (7 ∷ 8 ∷ 9 ∷ []) (7 ∷ 8 ∷ 9 ∷ 1 ∷ []) refl refl refl refl refl

closed_forever_example :
    let t = (native_close os linux read_only_file true opened).1 in
    (perform_all os linux read_only_file true (read none ∷ write (bytes (1 ∷ [])) ∷ close ∷ []) t
      ≡ t)
    × (is_ok (perform os linux read_only_file (read (some (pos 1))) true t).0 ≡ false)
closed_forever_example =
    closed_forever os linux read_only_file (read none ∷ write (bytes (1 ∷ [])) ∷ close ∷ [])
      (read (some (pos 1))) true opened refl

abbrev updating : Mode
updating = b'r' ∷ b'+' ∷ []

open_kind-parse_example :
    (open_kind updating ≡ fitting (parse (raw_mode updating)))
    × ((parse (raw_mode updating)).readable || (parse (raw_mode updating)).writable ≡ true)
open_kind-parse_example = open_kind-parse updating

abbrev update_request : Request
update_request = record { action = Action.reading; update = true; binary = false }

configure-documented_example :
    configure_open_options (parse (raw_mode updating)) new_options
    ≡ record (documented_options Action.reading true) { create = true }
configure-documented_example =
    configure-documented updating update_request
      (record {
        letter_r = refl;
        letter_w = refl;
        letter_a = refl;
        letter_x = refl;
        letter_plus = refl;
        letter_b = refl;
      })
      (λ h. cc)

to_seek_from_bounds_example :
    (n : ℕ) × (to_seek_from (pos 0) minus_one ≡ some (start n))
    × (n < 2 ^ 64)
    × (signed n ≡ minus_one)
to_seek_from_bounds_example = to_seek_from_bounds minus_one (omega arith)
