-- ===== src/Stream/Loops.antt =====
-- py_native_io/base.py: the synchronous and the asynchronous methods of `AsyncIOBase`, which are
-- defined by one another.
use asynchstream.Base.{ℕ, zero, suc, ◌≡◌, Bool, true, false, some, ℤ, if◌then◌else◌}
use asynchstream.Exec.{Exec, err, too_deep, runtime_error, call}
use asynchstream.Object.{Chunk, Method, Namespace, instantiate}
use asynchstream.Stream.{base_read, base_write, base_aread, base_awrite}

module _ {W : Type 0} (cls : Namespace W) where
  -- On a class that takes `read` and `write` from `AsyncIOBase` and has some `aread` and `awrite`, the
  -- synchronous calls raise RuntimeError inside a running event loop and change nothing; outside one they
  -- are the async methods, run with a running loop.
  pub sync_over_async :
      (depth : ℕ) {m : Method W (ℤ → Exec W Chunk)} {k : Method W (Chunk → Exec W ℕ)}
      → cls.read ≡ some base_read
      → cls.aread ≡ some m
      → cls.write ≡ some base_write
      → cls.awrite ≡ some k
      → (size : ℤ) (b : Chunk) (loop : Bool) (s : W)
      → let self = instantiate depth cls in
        let o = instantiate (suc (suc depth)) cls in
        (call o.read size loop s ≡ (if loop then (err runtime_error, s) else m self size true s))
        × (call o.write b loop s ≡ (if loop then (err runtime_error, s) else k self b true s))
  unfolding instantiate base_read base_write
  sync_over_async depth r a w k size b true s = (simp r, simp w)
  sync_over_async depth r a w k size b false s = (simp (r, a), simp (w, k))

  -- Reading, without a method of the class's own, goes round and round.
  read_round :
      (depth : ℕ) (size : ℤ) (s : W)
      → cls.read ≡ some base_read
      → cls.aread ≡ some base_aread
      → let o = instantiate depth cls in
        (call o.aread size false s ≡ (too_deep, s))
        × (call o.aread size true s ≡ (too_deep, s))
        × (call o.read size false s ≡ (too_deep, s))
  unfolding instantiate base_read base_aread
  read_round zero size s r a = (simp a, simp a, simp r)
  read_round (suc depth) size s r a =
      let h = read_round depth size s r a in (simp a h.2, simp a h.2, simp r h.1)

  -- And so does writing.
  write_round :
      (depth : ℕ) (b : Chunk) (s : W)
      → cls.write ≡ some base_write
      → cls.awrite ≡ some base_awrite
      → let o = instantiate depth cls in
        (call o.awrite b false s ≡ (too_deep, s))
        × (call o.awrite b true s ≡ (too_deep, s))
        × (call o.write b false s ≡ (too_deep, s))
  unfolding instantiate base_write base_awrite
  write_round zero b s r a = (simp a, simp a, simp r)
  write_round (suc depth) b s r a =
      let h = write_round depth b s r a in (simp a h.2, simp a h.2, simp r h.1)

  -- A class that takes `read`, `aread`, `write` and `awrite` from `AsyncIOBase` has methods that never
  -- return: however deep their calls of one another may go, `aread` and `awrite` awaited in a loop, and
  -- `read` and `write` called outside one, use up that depth.
  pub base_methods_never_return :
      (depth : ℕ) (size : ℤ) (b : Chunk) (s : W)
      → cls.read ≡ some base_read
      → cls.aread ≡ some base_aread
      → cls.write ≡ some base_write
      → cls.awrite ≡ some base_awrite
      → let o = instantiate depth cls in
        (call o.aread size true s ≡ (too_deep, s))
        × (call o.read size false s ≡ (too_deep, s))
        × (call o.awrite b true s ≡ (too_deep, s))
        × (call o.write b false s ≡ (too_deep, s))
  base_methods_never_return depth size b s r a w k =
      let (x, y, z) = read_round depth size s r a in
      let (x', y', z') = write_round depth b s w k in (y, z, y', z')
