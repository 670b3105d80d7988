-- ===== src/Native/OnWindows.antt =====
-- src/file_io.rs over src/engines/windows.rs: the async methods of a native file on Windows.
use asynchstream.Base.{ℕ, ◌≡◌, Bool, some, List, pos, arith}
use asynchstream.Exec.{ok}
use asynchstream.Object.{Chunk}
use asynchstream.File.{win}
use asynchstream.Native.{
  Os, NativeFile, Open, payload, native_read, native_write, native_aread, native_awrite, read_sized,
  write_whole,
}
use asynchstream.Engine.{over_windows}

module _ {W : Type 0} (os : Os W) (self : NativeFile) (f : ℕ) (loop : Bool) (s : Open W) where
  -- On Windows, on an open native file, where the file reads and takes the bytes: `aread` of a size that is not
  -- negative does what `read` does, at the position of the file, and `awrite` does what `write` does.
  pub windows_in_place :
      (n : ℕ) (got : List ℕ) (b : Chunk) (buf : List ℕ) (w1 w2 : W)
      → s.file ≡ some f
      → os.read f n loop s.world ≡ (ok got, w1)
      → payload b ≡ some buf
      → os.write_all f buf loop s.world ≡ (ok tt, w2)
      → (native_aread (over_windows os) win self (some (pos n)) loop s
          ≡ native_read os win self (some (pos n)) loop s)
        × (native_awrite (over_windows os) win self b loop s ≡ native_write os win self b loop s)
  unfolding native_aread native_read native_awrite native_write read_sized write_whole
  windows_in_place n got b buf w1 w2 h r p w = (ground (arith, h, r), ground (arith, h, p, w))
