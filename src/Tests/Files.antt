-- ===== src/Tests/Files.antt =====
-- The theorems on `open`, sockets and the fallback, at small inputs.
use asynchstream.Base.{
  ℕ, suc, ◌≡◌, ◌≢◌, refl, true, false, none, some, List, [], ◌∷◌, ◌++◌, ℤ, pos, inr, is_empty,
  arith, minus_one,
}
use asynchstream.Exec.{Exec, ok, err, pure, raise, os_error, value_error}
use asynchstream.Object.{Chunk, bytes, Stream, empty}
use asynchstream.Modes.{reader, writer, random, replace_plus, raw_mode, open_kind, buffer_size}
use asynchstream.Modes.Letters
use asynchstream.Modes.Letters.{Request, Spells, raw_mode_letters}
use asynchstream.File.{path, OpenCall, open_call, Raw, create_default_file_io, fallback_init}
use asynchstream.File.Fallback.{NativeOrPython, create_default_file_io_cases}
use asynchstream.Open.{Python, Opened, buffered, patched_open, open_raw}
use asynchstream.Open.Shape.{
  documented_shape, shape_of, shape, binary_over, patched_open-shape, exclusive_opens_reader,
  unbuffered_text_fails_late,
}
use asynchstream.Socket.{Sock, SocketIo, socket_io, MakefileCall, socket_read}
use asynchstream.Socket.Drain.{IsPeer, socket_read_all}

-- A Python whose `open` always works; a file is a number of bytes.
abbrev nothing_inside : Stream ℕ
nothing_inside = empty

abbrev python : Python ℕ
python = record {
  orig_open = λ c. pure nothing_inside;
  native_open = λ file mode. raise os_error;
  native_ok = true;
  default_buffer_size = pos 8192;
  init_buffered = λ kind raw size. pure tt;
  init_text = λ kind raw encoding errors newline. pure tt;
}

abbrev update_call : OpenCall ℕ
update_call = open_call (path (b'f' ∷ [])) (b'r' ∷ b'b' ∷ b'+' ∷ [])

-- The native engine refuses, and the built-in `open` serves.
abbrev opened_update : Opened ℕ (Raw ℕ)
opened_update = buffered random (Raw.fallback nothing_inside) (pos 8192)

update_opens : patched_open python update_call true 0 ≡ (ok opened_update, 0)
unfolding patched_open raw_mode replace_plus open_kind buffer_size create_default_file_io
    fallback_init
update_opens = refl

patched_open-shape_example :
    documented_shape
      (record { action = Letters.Action.reading; update = true; binary = true })
      (pos 8192)
      minus_one
    ≡ some (binary_over random (pos 8192))
patched_open-shape_example =
    patched_open-shape python update_call refl refl
      (record { action = Letters.Action.reading; update = true; binary = true })
      (record {
        letter_r = refl;
        letter_w = refl;
        letter_a = refl;
        letter_x = refl;
        letter_plus = refl;
        letter_b = refl;
      })
      (inr refl) refl (λ e. cc) true 0 0 opened_update update_opens

abbrev exclusive_call : OpenCall ℕ
exclusive_call = open_call (path (b'f' ∷ [])) (b'x' ∷ b'b' ∷ [])

abbrev opened_exclusive : Opened ℕ (Raw ℕ)
opened_exclusive = buffered reader (Raw.fallback nothing_inside) (pos 8192)

exclusive_opens : patched_open python exclusive_call true 0 ≡ (ok opened_exclusive, 0)
unfolding patched_open raw_mode replace_plus open_kind buffer_size create_default_file_io
    fallback_init
exclusive_opens = refl

abbrev exclusive_request : Request
exclusive_request = record { action = Letters.Action.exclusive; update = false; binary = true }

exclusive_opens_reader_example :
    (shape_of reader true (pos 8192) minus_one ≡ some (shape opened_exclusive))
    × (documented_shape exclusive_request (pos 8192) minus_one ≢ some (shape opened_exclusive))
exclusive_opens_reader_example =
    exclusive_opens_reader python exclusive_call refl refl exclusive_request
      (record {
        letter_r = refl;
        letter_w = refl;
        letter_a = refl;
        letter_x = refl;
        letter_plus = refl;
        letter_b = refl;
      })
      refl refl refl true 0 0 opened_exclusive exclusive_opens

abbrev unbuffered_call : OpenCall ℕ
unbuffered_call = record (open_call (path (b'f' ∷ [])) (b'w' ∷ [])) { buffering = pos 0 }

raw_opens : open_raw python unbuffered_call true 0 ≡ (ok (Raw.fallback nothing_inside), 0)
unfolding open_raw create_default_file_io fallback_init
raw_opens = refl

unbuffered_text_fails_late_example :
    patched_open python unbuffered_call true 0 ≡ (err value_error, 0)
unbuffered_text_fails_late_example =
    unbuffered_text_fails_late python unbuffered_call refl refl refl refl true 0 0
      (Raw.fallback nothing_inside) raw_opens

create_default_file_io_cases_example :
    NativeOrPython python.orig_open python.native_open
      (b'r' ∷ [])
      true
      true
      0
      (path [])
      (err os_error)
      0
      (create_default_file_io python.orig_open python.native_open true
        (path [])
        (b'r' ∷ [])
        true
        none
        true
        0)
create_default_file_io_cases_example =
    create_default_file_io_cases python.orig_open python.native_open (b'r' ∷ []) true true 0
      (path []) refl (err os_error) 0 refl (λ e. cc)

-- A synchronous stream that counts its reads.
abbrev counter : Stream ℕ
counter = record empty {
  read = some (λ size loop w. (ok (bytes (w ∷ [])), suc w));
  write = some (λ b loop w. (ok 1, w));
  close = some (pure tt);
  flush = some (pure tt);
}

abbrev os_write : ℤ → Chunk → Exec ℕ ℕ
os_write n b = pure 0

-- A peer that has sent some bytes; each `recv` takes one of them.
abbrev head_of : List ℕ → List ℕ
head_of [] = []
head_of (x ∷ l) = x ∷ []

abbrev tail_of : List ℕ → List ℕ
tail_of [] = []
tail_of (x ∷ l) = l

abbrev sock : Sock (List ℕ)
sock = record {
  recv = λ n loop w. (ok (head_of w), tail_of w);
  recv_into = λ n loop w. (ok (head_of w), tail_of w);
  send = λ b loop w. (ok 0, w);
  close = pure tt;
  fileno = pure (pos 3);
}

head_and_tail : (l : List ℕ) → l ≡ head_of l ++ tail_of l
head_and_tail [] = refl
head_and_tail (x ∷ l) = refl

no_head : (l : List ℕ) → is_empty (head_of l) ≡ true → l ≡ []
no_head [] h = refl
no_head (x ∷ l) h = cc

sock-IsPeer : IsPeer sock (λ w. w)
sock-IsPeer = record {
  chunk = λ n loop w. head_of w;
  after = λ n loop w. tail_of w;
  recv_lem = λ n loop w. refl;
  takes = λ n loop w. head_and_tail w;
  at_end = λ n loop w h. no_head w h;
}

socket_read_all_example :
    (w' : List ℕ) × (socket_read sock 3 minus_one false (4 ∷ 2 ∷ [])
      ≡ (ok (bytes (4 ∷ 2 ∷ [])), w'))
    × (w' ≡ [])
socket_read_all_example =
    socket_read_all sock (λ w. w) sock-IsPeer 3 0 false (4 ∷ 2 ∷ []) (omega arith)

abbrev duplex_call : MakefileCall
duplex_call = record {
  mode = b'r' ∷ b'w' ∷ b'b' ∷ [];
  buffering = minus_one;
  encoding = none;
  errors = none;
  newline = none;
}

abbrev duplex : Opened ℕ SocketIo
duplex = buffered writer (socket_io (b'r' ∷ b'w' ∷ b'b' ∷ [])) (pos 8192)
