-- ===== src/Native/Closed.antt =====
-- src/file_io.rs: a native file after it is closed.
use asynchstream.Base.{ℕ, ◌≡◌, refl, Bool, true, false, Option, none, List, [], ◌∷◌, ℤ, arith}
use asynchstream.Exec.{Exec, is_ok, pure, ◌>>◌}
use asynchstream.Object.{Chunk, Spec}
use asynchstream.File.{Platform}
use asynchstream.Native.{
  Os, NativeFile, Open, native_read, native_readinto, native_write, native_aread, native_awrite,
  native_aread_batch, native_awrite_batch, native_close, native_seek, native_tell, native_fileno,
  native_flush, native_closed,
}

-- A call of a method that looks at the field `file`, its result left out, and of `flush`.
pub data Call : Type 0 where
  read aread : Option ℤ → Call
  readinto : ℕ → Call
  write awrite : Chunk → Call
  aread_batch : List Spec → Call
  awrite_batch : List Chunk → Call
  seek : ℤ → Option ℤ → Call
  tell fileno closed close flush : Call

-- Those that work on the open file.
abbrev pub uses_file : Call → Bool
uses_file closed = false
uses_file close = false
uses_file flush = false
uses_file _ = true

module _ {W : Type 0} (os : Os W) (platform : Platform) (self : NativeFile) where
  pub perform : Call → Exec (Open W) Unit
  perform (read size) = do native_read os platform self size; pure tt
  perform (aread size) = do native_aread os platform self size; pure tt
  perform (readinto n) = do native_readinto os platform self n; pure tt
  perform (write b) = do native_write os platform self b; pure tt
  perform (awrite b) = do native_awrite os platform self b; pure tt
  perform (aread_batch specs) = do native_aread_batch os platform self specs; pure tt
  perform (awrite_batch chunks) = do native_awrite_batch os platform self chunks; pure tt
  perform (seek p whence) = do native_seek os platform self p whence; pure tt
  perform tell = do native_tell os platform self; pure tt
  perform fileno = do native_fileno os platform self; pure tt
  perform closed = do native_closed os platform self; pure tt
  perform close = native_close os platform self
  perform flush = native_flush os platform self

  -- One call after another, whatever each raises.
  pub perform_all : Bool → List Call → Open W → Open W
  perform_all loop [] s = s
  perform_all loop (c ∷ calls) s = perform_all loop calls (perform c loop s).1

  closed_keeps : (c : Call) (loop : Bool) (s : Open W) → s.file ≡ none → (perform c loop s).1 ≡ s
  unfolding perform native_read native_readinto native_write native_aread native_awrite
      native_aread_batch native_awrite_batch native_close native_seek native_tell native_fileno
      native_flush native_closed
  closed_keeps (read size) loop s h = ground (arith, h)
  closed_keeps (aread size) loop s h = ground (arith, h)
  closed_keeps (readinto n) loop s h = ground (arith, h)
  closed_keeps (write b) loop s h = ground (arith, h)
  closed_keeps (awrite b) loop s h = ground (arith, h)
  closed_keeps (aread_batch specs) loop s h = ground (arith, h)
  closed_keeps (awrite_batch chunks) loop s h = ground (arith, h)
  closed_keeps (seek p whence) loop s h = ground (arith, h)
  closed_keeps tell loop s h = ground (arith, h)
  closed_keeps fileno loop s h = ground (arith, h)
  closed_keeps closed loop s h = refl
  closed_keeps close loop s h = ground (arith, h)
  closed_keeps flush loop s h = refl

  closed_fails :
      (c : Call) (loop : Bool) (s : Open W)
      → uses_file c ≡ true
      → s.file ≡ none
      → is_ok (perform c loop s).0 ≡ false
  unfolding perform native_read native_readinto native_write native_aread native_awrite
      native_aread_batch native_awrite_batch native_seek native_tell native_fileno
  closed_fails (read size) loop s u h = ground (arith, h)
  closed_fails (aread size) loop s u h = ground (arith, h)
  closed_fails (readinto n) loop s u h = ground (arith, h)
  closed_fails (write b) loop s u h = ground (arith, h)
  closed_fails (awrite b) loop s u h = ground (arith, h)
  closed_fails (aread_batch specs) loop s u h = ground (arith, h)
  closed_fails (awrite_batch chunks) loop s u h = ground (arith, h)
  closed_fails (seek p whence) loop s u h = ground (arith, h)
  closed_fails tell loop s u h = ground (arith, h)
  closed_fails fileno loop s u h = ground (arith, h)
  closed_fails closed loop s u h = ground (arith, u)
  closed_fails close loop s u h = ground (arith, u)
  closed_fails flush loop s u h = ground (arith, u)

  perform_all-closed :
      (calls : List Call) (loop : Bool) (s : Open W) → s.file ≡ none → perform_all loop calls s ≡ s
  unfolding perform_all
  perform_all-closed [] loop s h = refl
  perform_all-closed (c ∷ calls) loop s h =
      rw (closed_keeps c loop s h) (perform_all-closed calls loop s h)

  -- After `close`, any sequence of calls of the methods that look at the open file, and of `flush`, changes
  -- nothing, and each call that works on the file fails.
  pub closed_forever :
      (calls : List Call) (c : Call) (loop : Bool) (s : Open W)
      → uses_file c ≡ true
      → let t = (native_close os platform self loop s).1 in
        (perform_all loop calls t ≡ t) × (is_ok (perform c loop t).0 ≡ false)
  unfolding native_close
  closed_forever calls c loop s u =
      let t = (native_close os platform self loop s).1 in
      (perform_all-closed calls loop t refl, closed_fails c loop t u refl)
