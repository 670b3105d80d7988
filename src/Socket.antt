-- ===== src/Socket.antt =====
-- py_native_io/socket.py: the class `AsyncSocketIO`; py_native_io/patch.py: `patched_socket_makefile`,
-- up to its log line and the unreachable code behind its `return`. The socket is a parameter.
pub mod Drain
pub mod Makefile
use asynchstream.Base.{
  ℕ, zero, suc, Bool, true, false, not, ◌&&◌, ◌||◌, Option, none, some, List, [], ◌∷◌, ◌++◌, ℤ, pos,
  minus_one, is_negative, is_zero, is_empty, contains, is_minus_one, if◌then◌else◌,
}
use asynchstream.Exec.{Exec, raise, value_error, give_up, pure, ◌>>=◌, ◌>>◌}
use asynchstream.Object.{Chunk, bytes, Namespace, empty}
use asynchstream.Modes.{Mode, Kind, raw_mode, makefile_kind, buffer_size}
use asynchstream.Open.{Opened, raw_stream, buffered, text}

-- What the program uses of `socket.socket`.
pub record Sock (W : Type 0) : Type 0 where
  pub recv : ℕ → Exec W (List ℕ)
  pub recv_into : ℕ → Exec W (List ℕ)
  pub send : Chunk → Exec W ℕ
  pub close : Exec W Unit
  pub fileno : Exec W ℤ

-- An `AsyncSocketIO`: `_mode`, `_is_read` and `_is_write`.
pub record SocketIo : Type 0 where
  pub mode : Mode
  pub is_read : Bool
  pub is_write : Bool

unfoldable pub socket_io : Mode → SocketIo
socket_io mode = record {
  mode = mode;
  is_read = contains b'r' mode || contains b'+' mode;
  is_write = contains b'w' mode || (contains b'a' mode || contains b'+' mode);
}

-- `b"".join(bufs)`
abbrev pub join : List (List ℕ) → List ℕ
join [] = []
join (chunk ∷ bufs) = chunk ++ join bufs

module _ {W : Type 0} (sock : Sock W) where
  -- The `while True` loop of `read`, with fuel, and the chunks so far in `bufs`.
  unfoldable pub drain : ℕ → List (List ℕ) → Exec W Chunk
  drain zero bufs = give_up
  drain (suc fuel) bufs = do
    chunk ← sock.recv 65536
    let rest = drain fuel (bufs ++ (chunk ∷ []))
    if is_empty chunk then pure (bytes (join bufs)) else rest

  -- `read(size)`, where a negative size reads to the end.
  unfoldable pub socket_read : ℕ → ℤ → Exec W Chunk
  unfolding drain
  socket_read fuel (pos n) = do res ← sock.recv n; pure (bytes res)
  socket_read fuel (ℤ.negsuc n) = drain fuel []

  -- The body of the class; the loop of `read` has the fuel.
  unfoldable pub socket_body : ℕ → SocketIo → Namespace W
  socket_body fuel io = record empty {
    read = some (λ self size. socket_read fuel size);
    readinto = some (λ self b. sock.recv_into b);
    write = some (λ self b. sock.send b);
    close = some (λ self. sock.close);
    closed = some (λ self. do n ← sock.fileno; pure (is_minus_one n));
    readable = some (λ self. pure io.is_read);
    writable = some (λ self. pure io.is_write);
    seekable = some (λ self. pure false);
    fileno = some (λ self. sock.fileno);
  }

-- A call of `makefile`.
pub record MakefileCall : Type 0 where
  pub mode : Mode
  pub buffering : ℤ
  pub encoding : Option (List ℕ)
  pub errors : Option (List ℕ)
  pub newline : Option (List ℕ)

-- The constructors of the standard library's buffered and text classes are parameters.
module _ {W : Type 0} (default_buffer_size : ℤ) (init_buffered : Kind → SocketIo → ℤ → Exec W Unit)
    (init_text : Kind → SocketIo → Exec W Unit) where
  buffered_socket : Kind → SocketIo → ℤ → Exec W (Opened W SocketIo)
  buffered_socket kind raw buffering = do
    let size = buffer_size default_buffer_size buffering
    init_buffered kind raw size
    pure (buffered kind raw size)

  text_socket : Kind → SocketIo → MakefileCall → Exec W (Opened W SocketIo)
  text_socket kind raw c = do
    let size = buffer_size default_buffer_size c.buffering
    init_buffered kind raw size
    init_text kind raw
    pure (text kind raw size c.encoding c.errors c.newline)

  unfoldable pub patched_socket_makefile : MakefileCall → Exec W (Opened W SocketIo)
  unfolding buffered_socket text_socket
  patched_socket_makefile c =
      let raw = socket_io (raw_mode c.mode) in
      if contains b'b' c.mode
      then (if is_zero c.buffering || contains b'+' c.mode
          then pure (raw_stream raw)
          else buffered_socket (makefile_kind c.mode) raw c.buffering)
      else if is_zero c.buffering
      then raise value_error
      else text_socket (makefile_kind c.mode) raw c
