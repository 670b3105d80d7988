-- ===== src/Native.antt =====
-- src/file_io.rs: the class `NativeFileIO`. The operating system's files are a parameter, and so are the
-- kernel rings of src/engines. A poisoned lock is left out; nothing here panics with the lock held.
pub mod OpenMode
pub mod Modes
pub mod Closed
pub mod Offsets
pub mod Host
pub mod OverRings
pub mod OnWindows
use asynchstream.Base.{
  ◌-◌, ◌^◌, ◌==◌, ◌&&◌, leb, ℕ, zero, suc, Bool, true, false, Option, none, some, not, first, List,
  [], ◌∷◌, ℤ, pos, negsuc, length, is_some, if◌then◌else◌,
}
use asynchstream.Exec.{
  Exec, Result, ok, err, too_deep, os_error, type_error, value_error, raise, pure, comprehension,
  ◌>>=◌, ◌>>◌,
}
use asynchstream.Object.{Chunk, bytes, str, Spec, just_size, at_offset}
use asynchstream.Modes.{Mode}
use asynchstream.Utf8.{Text, encode_utf8}
use asynchstream.File.{Platform, linux, win, darwin, other_platform}
use asynchstream.Native.OpenMode.{
  FileMode, parse, OpenOptions, new_options, configure_open_options, SeekFrom, start, to_seek_from,
}

-- A read of a batch: an offset, `u64::MAX` for the current position, and a size.
abbrev pub ReadSpec : Type 0
ReadSpec = ℕ × ℕ

abbrev pub u64_max : ℕ
u64_max = 2 ^ 64 - 1

-- Rust's `File`, by descriptors, and the rings. An operation that fails raises an OSError.
pub record Os (W : Type 0) : Type 0 where
  pub open_file : List ℕ → OpenOptions → Exec W ℕ
  pub close_file : ℕ → W → W
  pub read : ℕ → ℕ → Exec W (List ℕ)
  pub read_to_end : ℕ → Exec W (List ℕ)
  pub write_all : ℕ → List ℕ → Exec W Unit
  pub seek : ℕ → SeekFrom → Exec W ℕ
  pub submit_uring_read : ℕ → ℕ → ℕ → Exec W (List ℕ)
  pub submit_uring_write : ℕ → List ℕ → Exec W ℕ
  pub submit_uring_read_batch : ℕ → List ReadSpec → Exec W (List (List ℕ))
  pub submit_uring_write_batch : ℕ → List (List ℕ) → Exec W (List ℕ)
  pub submit_uring_splice : ℕ → ℕ → ℕ → Exec W ℕ
  pub submit_ioring_read : ℕ → ℕ → Exec W (List ℕ)
  pub submit_ioring_write : ℕ → List ℕ → Exec W ℕ

-- The fields that do not change: `path` and `mode`.
pub record NativeFile : Type 0 where
  pub path : List ℕ
  pub mode : FileMode

-- The field `file`, and the world.
pub record Open (W : Type 0) : Type 0 where
  pub file : Option ℕ
  pub world : W

module _ {W A : Type 0} where
  -- An action that does not see the field.
  abbrev pub on_os : Exec W A → Exec (Open W) A
  on_os m loop s = let (r, w) = m loop s.world in (r, record s { world = w })

  -- "I/O operation on closed file."
  abbrev pub with_file : (ℕ → Exec W A) → Option ℕ → Exec (Open W) A
  with_file k none = raise os_error
  with_file k (some f) = on_os (k f)

  abbrev pub guarded : (ℕ → Exec W A) → Exec (Open W) A
  guarded k loop s = with_file k s.file loop s

  -- `if let Ok(res) = attempt { return Ok(res) }`, where the platform has an attempt.
  abbrev pub if_ok : Result A → Exec W A → Exec W A
  if_ok (ok a) otherwise = pure a
  if_ok (err e) otherwise = otherwise
  if_ok too_deep otherwise = λ loop w. (too_deep, w)

  abbrev pub attempt : Option (Exec W A) → Exec W A → Exec W A
  attempt none otherwise loop w = otherwise loop w
  attempt (some m) otherwise loop w = let (r, w') = m loop w in if_ok r otherwise loop w'

abbrev on_linux : {A : Type 0} → Platform → A → Option A
on_linux linux a = some a
on_linux _ a = none

abbrev on_either : {A : Type 0} → Platform → A → A → Option A
on_either linux a b = some a
on_either win a b = some b
on_either _ a b = none

-- What `write` and `awrite` take: bytes, or text that has an encoding.
abbrev pub payload : Chunk → Option (List ℕ)
payload (bytes b) = some b
payload (str s) = encode_utf8 s

abbrev pub or_type_error : {W A : Type 0} → Option A → Exec W A
or_type_error none = raise type_error
or_type_error (some a) = pure a

abbrev pub or_value_error : {W A : Type 0} → Option A → Exec W A
or_value_error none = raise value_error
or_value_error (some a) = pure a

-- `size.unwrap_or(-1)`
abbrev pub size_or : Option ℤ → ℤ
size_or none = negsuc 0
size_or (some s) = s

-- `if s < 0 { 65536 } else { s }`
abbrev pub ring_size : ℤ → ℕ
ring_size (pos n) = n
ring_size (negsuc n) = 65536

-- `File::open(&path)`, and the options of the fallback of `awrite`.
abbrev pub read_only : OpenOptions
read_only = record new_options { read = true }

abbrev pub append_to : OpenOptions
append_to = record new_options { create = true; append = true }

module _ {W : Type 0} (os : Os W) where
  -- A file that is open for one action, and closed at its end.
  using : {A : Type 0} → List ℕ → OpenOptions → (ℕ → Exec W A) → Exec W A
  using path options k = do
    f ← os.open_file path options
    λ loop w. let (r, w') = k f loop w in (r, os.close_file f w')

  -- `if s < 0 { read_to_end } else { read }`
  read_sized : ℤ → ℕ → Exec W (List ℕ)
  read_sized (negsuc n) f = os.read_to_end f
  read_sized (pos n) f = os.read f n

  -- A read at a place of the file, or at the current position.
  seek_first : ℕ → ℕ → Exec W Unit
  seek_first offset f =
      if offset == u64_max then pure tt else (do os.seek f (start offset); pure tt)

  read_spec : ℕ → ReadSpec → Exec W (List ℕ)
  unfolding seek_first
  read_spec f (offset, size) = do seek_first offset f; os.read f size

  write_whole : ℕ → List ℕ → Exec W ℕ
  write_whole f chunk = do os.write_all f chunk; pure (length chunk)

-- `whence.unwrap_or(0)` and `size.unwrap_or(65536)`
abbrev whence_or : Option ℤ → ℤ
whence_or none = pos 0
whence_or (some whence) = whence

abbrev len_or : Option ℕ → ℕ
len_or none = 65536
len_or (some len) = len

abbrev attempt_only : {W : Type 0} → Option (Exec W Unit) → Exec W Unit
attempt_only none = pure tt
attempt_only (some m) = m

-- `specs.extract::<Vec<usize>>()`, or else `specs.extract::<Vec<(u64, usize)>>()`; a number that does
-- not fit in 64 bits is refused.
abbrev cons_spec : ReadSpec → Option (List ReadSpec) → Option (List ReadSpec)
cons_spec spec none = none
cons_spec spec (some specs) = some (spec ∷ specs)

abbrev pub sizes_of : List Spec → Option (List ReadSpec)
sizes_of [] = some []
sizes_of (just_size (pos n) ∷ specs) =
    let rest = sizes_of specs in if leb n u64_max then cons_spec (u64_max, n) rest else none
sizes_of (just_size (negsuc n) ∷ specs) = none
sizes_of (at_offset offset size ∷ specs) = none

abbrev pub tuples_of : List Spec → Option (List ReadSpec)
tuples_of [] = some []
tuples_of (just_size n ∷ specs) = none
tuples_of (at_offset (pos n) (pos size) ∷ specs) =
    let rest = tuples_of specs in
    if leb n u64_max && leb size u64_max then cons_spec (n, size) rest else none
tuples_of (at_offset (negsuc n) size ∷ specs) = none
tuples_of (at_offset (pos n) (negsuc size) ∷ specs) = none

abbrev read_specs : List Spec → Option (List ReadSpec)
read_specs specs = first (sizes_of specs) (tuples_of specs)

abbrev cons_payload : Option (List ℕ) → Option (List (List ℕ)) → Option (List (List ℕ))
cons_payload (some b) (some rest) = some (b ∷ rest)
cons_payload _ _ = none

abbrev payloads : List Chunk → Option (List (List ℕ))
payloads [] = some []
payloads (c ∷ chunks) = cons_payload (payload c) (payloads chunks)

module _ {W : Type 0} (os : Os W) (platform : Platform) where
  -- `NativeFileIO::new`
  unfoldable pub new_native : List ℕ → Mode → Exec W (NativeFile × ℕ)
  unfolding parse configure_open_options
  new_native path mode = do
    let parsed_mode = parse mode
    f ← os.open_file path (configure_open_options parsed_mode new_options)
    pure (record { path = path; mode = parsed_mode }, f)

  module _ (self : NativeFile) where
    pub native_read : Option ℤ → Exec (Open W) (List ℕ)
    unfolding read_sized
    native_read size = guarded (read_sized os (size_or size))

    pub native_readinto : ℕ → Exec (Open W) (List ℕ)
    native_readinto total_len = guarded λ f. os.read f total_len

    pub native_write : Chunk → Exec (Open W) ℕ
    unfolding write_whole
    native_write b = do buf ← or_type_error (payload b); guarded λ f. write_whole os f buf

    pub read_again : ℤ → Exec W (List ℕ)
    unfolding using read_sized
    read_again size = using os self.path read_only (read_sized os size)

    pub native_aread : Option ℤ → Exec (Open W) (List ℕ)
    unfolding read_again
    native_aread size = guarded λ f.
        attempt
          (on_either platform (os.submit_uring_read f 0 (ring_size (size_or size)))
            (os.submit_ioring_read f (ring_size (size_or size))))
          (read_again (size_or size))

    pub append_again : List ℕ → Exec W ℕ
    unfolding using write_whole
    append_again buf = using os self.path append_to (λ f. write_whole os f buf)

    pub native_awrite : Chunk → Exec (Open W) ℕ
    unfolding append_again
    native_awrite b = do
      buf ← or_type_error (payload b)
      guarded λ f.
          attempt (on_either platform (os.submit_uring_write f buf) (os.submit_ioring_write f buf))
            (append_again buf)

    pub read_batch_again : List ReadSpec → Exec W (List (List ℕ))
    unfolding using read_spec comprehension
    read_batch_again specs =
        using os self.path read_only (λ f. comprehension (read_spec os f) specs)

    pub native_aread_batch : List Spec → Exec (Open W) (List (List ℕ))
    unfolding read_batch_again
    native_aread_batch specs = do
      reads ← or_type_error (read_specs specs)
      guarded λ f.
          attempt (on_linux platform (os.submit_uring_read_batch f reads)) (read_batch_again reads)

    pub append_batch_again : List (List ℕ) → Exec W (List ℕ)
    unfolding using write_whole comprehension
    append_batch_again chunks =
        using os self.path append_to (λ f. comprehension (write_whole os f) chunks)

    pub native_awrite_batch : List Chunk → Exec (Open W) (List ℕ)
    unfolding append_batch_again
    native_awrite_batch chunks = do
      bufs ← or_type_error (payloads chunks)
      guarded λ f.
          attempt (on_linux platform (os.submit_uring_write_batch f bufs)) (append_batch_again bufs)

    -- Dropping the file closes it.
    drop_file : Option ℕ → W → W
    drop_file none w = w
    drop_file (some f) w = os.close_file f w

    -- `close`, `aclose` and `__exit__`
    pub native_close : Exec (Open W) Unit
    unfolding drop_file
    native_close loop s = (ok tt, record { file = none; world = drop_file s.file s.world })

    pub native_closed : Exec (Open W) Bool
    native_closed loop s = (ok (not (is_some s.file)), s)

    pub native_seek : ℤ → Option ℤ → Exec (Open W) ℕ
    unfolding to_seek_from
    native_seek p whence =
        guarded λ f. do
          seek_from ← or_value_error (to_seek_from (whence_or whence) p)
          os.seek f seek_from

    pub native_tell : Exec (Open W) ℕ
    unfolding native_seek
    native_tell = native_seek (pos 0) (some (pos 1))

    pub native_fileno : Exec (Open W) ℕ
    native_fileno = guarded λ f. pure f

    pub native_readable : Exec (Open W) Bool
    native_readable = pure self.mode.readable

    pub native_writable : Exec (Open W) Bool
    native_writable = pure self.mode.writable

    pub native_seekable : Exec (Open W) Bool
    native_seekable = pure true

    -- `flush` and `aflush`
    pub native_flush : Exec (Open W) Unit
    native_flush = pure tt

    -- On Linux the fallback writes to the target; elsewhere it only reads.
    write_target : ℕ → List ℕ → Exec W Unit
    write_target target_fd buf = attempt_only (on_linux platform (os.write_all target_fd buf))

    copy_out : ℕ → ℕ → ℕ → Exec W ℕ
    unfolding write_target
    copy_out target_fd len f = do buf ← os.read f len; write_target target_fd buf; pure (length buf)

    -- The file is opened anew by its path.
    pub native_asplice : ℕ → Option ℕ → Exec W ℕ
    unfolding using copy_out
    native_asplice target_fd size = using os self.path read_only (λ f.
        attempt (on_linux platform (os.submit_uring_splice f target_fd (len_or size)))
          (copy_out target_fd (len_or size) f))
