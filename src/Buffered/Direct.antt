-- ===== src/Buffered/Direct.antt =====
-- py_native_io/buffered.py: the async methods go to the raw stream and leave the buffer where it is.
use asynchstream.Base.{ℕ, suc, ◌≡◌, refl, Bool, some, List, [], ◌++◌, ℤ, append_assoc, ◌∙◌, arith}
use asynchstream.Exec.{Exec, Result, ok, err, too_deep, pure, call, run, ◌>>=◌, ◌>>◌}
use asynchstream.Object.{Chunk, bytes, Stream, Namespace, instantiate}
use asynchstream.Meta.{
  new_class, synth_aread, synth_aread_batch, synth_awrite, synth_awrite_batch, synth_aclose,
  synth_aflush,
}
use asynchstream.Modes.{writer}
use asynchstream.Buffered.{buffered_awrite, buffered_body, buffered_class}

-- Two views of a file with a reader's buffer over it: the bytes that the buffer has read ahead, and those
-- that the raw stream has still to give. A raw `aread` gives the next bytes of the raw stream.
pub record ReadsRaw {W : Type 0} (ahead rest : W → List ℕ) (m : ℤ → Exec W Chunk) : Type 0 where
  pub reads :
      (size : ℤ) (loop : Bool) (w w' : W) (c : Chunk)
      → m size loop w ≡ (ok c, w')
      → (l : List ℕ) × (c ≡ bytes l) × (rest w ≡ l ++ rest w') × (ahead w' ≡ ahead w)

-- The synchronous `read` of the standard class: the buffer comes first, and may be filled anew.
pub record ReadsAhead {W : Type 0} (ahead rest : W → List ℕ) (m : ℤ → Exec W Chunk) : Type 0 where
  pub reads :
      (size : ℤ) (loop : Bool) (w w' : W) (c : Chunk)
      → m size loop w ≡ (ok c, w')
      → (l : List ℕ) × (c ≡ bytes l) × (ahead w ++ rest w ≡ l ++ (ahead w' ++ rest w'))

-- Two views of a writer's: the bytes that the raw stream has taken, and those in the buffer.
pub record WritesRaw {W : Type 0} (taken kept : W → List ℕ) (m : Chunk → Exec W ℕ) : Type 0 where
  pub writes :
      (l : List ℕ) (loop : Bool) (w w' : W) (n : ℕ)
      → m (bytes l) loop w ≡ (ok n, w')
      → (taken w' ≡ taken w ++ l) × (kept w' ≡ kept w)

-- A synchronous `write` of the standard class that only fills the buffer, and a `flush` that empties it.
pub record KeepsWrites {W : Type 0} (taken kept : W → List ℕ) (write : Chunk → Exec W ℕ)
    (flush : Exec W Unit) : Type 0 where
  pub write_keeps :
      (l : List ℕ) (loop : Bool) (w w' : W) (n : ℕ)
      → write (bytes l) loop w ≡ (ok n, w')
      → (taken w' ≡ taken w) × (kept w' ≡ kept w ++ l)
  pub flush_gives :
      (loop : Bool) (w w' : W)
      → flush loop w ≡ (ok tt, w')
      → (taken w' ≡ taken w ++ kept w) × (kept w' ≡ [])

module _ {W : Type 0} (taken kept : W → List ℕ) (m write : Chunk → Exec W ℕ) (flush : Exec W Unit)
    (a : WritesRaw taken kept m) (b : KeepsWrites taken kept write flush) where
  after_flush :
      (loop : Bool) (w w' : W) (l : List ℕ)
      → flush loop w ≡ (ok tt, w')
      → taken w ++ kept w ≡ l
      → taken w' ≡ l
  after_flush loop w w' l h e = let f = b.flush_gives loop w w' h in f.0 ∙ e

  -- A synchronous write, one that goes past the buffer, and a flush.
  second_first :
      (first second : List ℕ) (loop : Bool) (w w' : W)
      → kept w ≡ []
      → (do write (bytes first); m (bytes second); flush) loop w ≡ (ok tt, w')
      → taken w' ≡ taken w ++ (second ++ first)
  second_first first second loop w w' k h =
      go (write (bytes first) loop w).0 (m (bytes second) loop w1).0 refl refl
    where
      w1 : W
      w1 = (write (bytes first) loop w).1

      w2 : W
      w2 = (m (bytes second) loop w1).1

      go :
          (r1 r2 : Result ℕ)
          → (write (bytes first) loop w).0 ≡ r1
          → (m (bytes second) loop w1).0 ≡ r2
          → taken w' ≡ taken w ++ (second ++ first)
      go (ok n1) (ok n2) e1 e2 =
          let (p, q) = b.write_keeps first loop w w1 n1 (λ i. (e1 i, w1)) in
          let (u, v) = a.writes second loop w1 w2 n2 (λ i. (e2 i, w2)) in
          let f : flush loop w2 ≡ (ok tt, w') = ground (arith, e1, e2, h) in
          after_flush loop w2 w' _ f (rw (u, v, p, q, k) (append_assoc (taken w) second first))
      go (ok n1) (err x) e1 e2 = ground (arith, e1, e2, h)
      go (ok n1) too_deep e1 e2 = ground (arith, e1, e2, h)
      go (err x) r2 e1 e2 = ground (arith, e1, h)
      go too_deep r2 e1 e2 = ground (arith, e1, h)

-- A `read`, an `aread`, and a `read` again.
abbrev pub three_reads :
    {W : Type 0}
    → (ℤ → Exec W Chunk)
    → (ℤ → Exec W Chunk)
    → ℤ
    → ℤ
    → ℤ
    → Exec W (Chunk × Chunk × Chunk)
three_reads read aread n1 n2 n3 = do a ← read n1; b ← aread n2; c ← read n3; pure (a, b, c)

-- Three reads give `l1`, `l2` and `l3` in turn, where `l2` stands after `kept` in the file, and the
-- third goes back to `kept`.
abbrev pub OutOfOrder :
    {W : Type 0} (ahead rest : W → List ℕ) → W → W → Chunk → Chunk → Chunk → Type 0
OutOfOrder ahead rest w w' c1 c2 c3 =
    (l1 l2 l3 kept left : List ℕ) × (c1 ≡ bytes l1)
    × (c2 ≡ bytes l2)
    × (c3 ≡ bytes l3)
    × (ahead w ++ rest w ≡ l1 ++ (kept ++ (l2 ++ left)))
    × (kept ++ left ≡ l3 ++ (ahead w' ++ rest w'))

module _ {W : Type 0} (os_write : ℤ → Chunk → Exec W ℕ) (standard io_base : Namespace W)
    (depth : ℕ) where
  -- On an AsyncBufferedWriter with an empty buffer, over a raw stream with `awrite`, where the standard
  -- `write` fills the buffer: if a `write`, an `awrite` and a `flush` succeed, then the raw stream has taken
  -- the bytes of the `awrite` first and those of the `write` after them.
  pub awrite_overtakes_write :
      (taken kept : W → List ℕ) (raw : Stream W) (m write : Chunk → Exec W ℕ) (flush : Exec W Unit)
      (first second : List ℕ) (loop : Bool) (w w' : W)
      → raw.awrite ≡ some m
      → standard.write ≡ some (λ self. write)
      → standard.flush ≡ some (λ self. flush)
      → WritesRaw taken kept m
      → KeepsWrites taken kept write flush
      → kept w ≡ []
      → let o = instantiate (suc depth) (buffered_class os_write standard io_base writer raw) in
        (do call o.write (bytes first); call o.awrite (bytes second); run o.flush) loop w
          ≡ (ok tt, w')
        → taken w' ≡ taken w ++ (second ++ first)
  unfolding instantiate buffered_body buffered_awrite new_class synth_aread synth_aread_batch
      synth_awrite synth_awrite_batch synth_aclose synth_aflush
  awrite_overtakes_write taken kept raw m write flush first second loop w w' e f g a b k h =
      second_first taken kept m write flush a b first second loop w w' k (simp (e, f, g) at h)
