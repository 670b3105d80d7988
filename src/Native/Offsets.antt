-- ===== src/Native/Offsets.antt =====
-- src/file_io.rs: where the async methods read and write.
use asynchstream.Base.{ℕ, ◌≡◌, Bool, some, List, arith, length}
use asynchstream.Exec.{Exc, ok, err}
use asynchstream.Object.{Chunk}
use asynchstream.File.{linux}
use asynchstream.Native.{Os, NativeFile, Open, payload, append_to, native_awrite}

module _ {W : Type 0} (os : Os W) (self : NativeFile) where
  -- On Linux, whatever the mode of the file: where the ring refuses a write, and opening the path to append
  -- and writing there succeed, `awrite` returns the length of the bytes, which went there.
  pub awrite_appends :
      (b : Chunk) (buf : List ℕ) (f g : ℕ) (e : Exc) (loop : Bool) (s : Open W) (w1 w2 w3 : W)
      → s.file ≡ some f
      → payload b ≡ some buf
      → os.submit_uring_write f buf loop s.world ≡ (err e, w1)
      → os.open_file self.path append_to loop w1 ≡ (ok g, w2)
      → os.write_all g buf loop w2 ≡ (ok tt, w3)
      → native_awrite os linux self b loop s
        ≡ (ok (length buf), record s { world = os.close_file g w3 })
  unfolding native_awrite
  awrite_appends b buf f g e loop s w1 w2 w3 h p r o w = ground (arith, h, p, r, o, w)
