-- ===== src/Stream/Splice.antt =====
-- py_native_io/base.py: what `AsyncIOBase.asplice` moves from a stream to its target.
use asynchstream.Base.{
  ℕ, zero, suc, ◌≤◌, ◌≡◌, refl, Bool, false, Option, none, some, List, ◌++◌, ℤ, pos, negsuc,
  is_positive, is_minus_one, length, take, arith, append-nil, if◌then◌else◌,
}
use asynchstream.Exec.{Exec, Result, ok, err, too_deep, continue, to_thread, pure}
use asynchstream.Object.{Chunk, bytes, str, is_falsy, Sink, Target, fd, obj, Stream}
use asynchstream.Stream.{base_asplice, target_fd, object_fd, copy_chunk, deliver, hand_over}

-- `src` shows the bytes that a stream still has to give, and `dst` those that a target has taken.
module _ {W : Type 0} (src dst : W → List ℕ) where
  -- A successful read gives the next bytes, and at most as many as were asked for.
  pub record IsReader (m : ℤ → Exec W Chunk) : Type 0 where
    pub reads :
        (size : ℤ) (loop : Bool) (w w' : W) (c : Chunk)
        → m size loop w ≡ (ok c, w')
        → (l : List ℕ) × (c ≡ bytes l) × (src w ≡ l ++ src w') × (dst w' ≡ dst w)
    pub at_most :
        (size : ℕ) (loop : Bool) (w w' : W) (l : List ℕ)
        → m (pos (suc size)) loop w ≡ (ok (bytes l), w')
        → length l ≤ suc size

  -- A successful write takes the first `n` of the bytes, and returns `n`.
  pub record IsWriter (m : Chunk → Exec W ℕ) : Type 0 where
    pub writes :
        (l : List ℕ) (loop : Bool) (w w' : W) (n : ℕ)
        → m (bytes l) loop w ≡ (ok n, w')
        → (n ≤ length l) × (dst w' ≡ dst w ++ take n l) × (src w' ≡ src w)

  -- Asking for the descriptor moves no bytes.
  pub record IsQuiet {A : Type 0} (m : Exec W A) : Type 0 where
    pub moves_nothing :
        (loop : Bool) (w w' : W) (a : A)
        → m loop w ≡ (ok a, w')
        → (src w' ≡ src w) × (dst w' ≡ dst w)

  pub record IsTarget (sink : Sink W) : Type 0 where
    pub by_awrite : (m : Chunk → Exec W ℕ) → sink.awrite ≡ some m → IsWriter m
    pub by_write : (m : Chunk → Exec W ℕ) → sink.write ≡ some m → IsWriter m
    pub by_fileno : (m : Exec W ℤ) → sink.fileno ≡ some m → IsQuiet m

  -- The bytes `l` left the stream, and the target took the first `n` of them.
  abbrev pub Moves : W → W → ℕ → List ℕ → Type 0
  Moves w w' n l = (src w ≡ l ++ src w') × (dst w' ≡ dst w ++ take n l) × (n ≤ length l)

  nothing-writes : IsWriter (λ _. pure 0)
  nothing-writes = record { writes = λ l loop w w' n h. ground (arith, append-nil (dst w)) }

  -- A test that picks one of two writers picks a writer.
  if-writes :
      (test : Chunk → Bool) (a b : Chunk → Exec W ℕ)
      → IsWriter a
      → IsWriter b
      → IsWriter (λ c. if test c then a c else b c)
  if-writes test a b ha hb = record {
    writes = λ l loop w w' n h. ground (arith, ha.writes l loop w w' n, hb.writes l loop w w' n);
  }

  to_thread-writes : (m : Chunk → Exec W ℕ) → IsWriter m → IsWriter (λ c. to_thread (m c))
  to_thread-writes m h = record { writes = λ l loop. h.writes l false }

  module _ (os_write : ℤ → Chunk → Exec W ℕ) (os : (n : ℤ) → IsWriter (os_write n)) where
    hand_over-writes :
        (a b : Option (Chunk → Exec W ℕ))
        → ((m : Chunk → Exec W ℕ) → a ≡ some m → IsWriter m)
        → ((m : Chunk → Exec W ℕ) → b ≡ some m → IsWriter m)
        → (n : ℤ) → IsWriter (hand_over os_write a b n)
    unfolding hand_over
    hand_over-writes (some a) b ha hb n = ha a refl
    hand_over-writes none (some b) ha hb n = to_thread-writes b (hb b refl)
    hand_over-writes none none ha hb n =
        if-writes (λ _. is_minus_one n) _ _ nothing-writes (to_thread-writes _ (os n))

    deliver-writes :
        (target : Target W)
        → ((sink : Sink W) → target ≡ obj sink → IsTarget sink)
        → (n : ℤ) → IsWriter (deliver os_write target n)
    unfolding deliver
    deliver-writes (fd m) h n = hand_over-writes none none (λ m e. cc) (λ m e. cc) n
    deliver-writes (obj sink) h n =
        hand_over-writes sink.awrite sink.write (h sink refl).by_awrite (h sink refl).by_write n

-- How many bytes one call may take from the stream.
abbrev pub splice_limit : ℤ → ℕ
splice_limit (pos zero) = 65536
splice_limit (pos (suc n)) = suc n
splice_limit (negsuc n) = 65536

module _ {W : Type 0} (src dst : W → List ℕ) (m : ℤ → Exec W Chunk)
    (reader : IsReader src dst m) where
  limit_lem :
      (size : ℤ) (loop : Bool) (w w' : W) (l : List ℕ)
      → m (if is_positive size then size else pos 65536) loop w ≡ (ok (bytes l), w')
      → length l ≤ splice_limit size
  limit_lem (pos zero) loop w w' l h = reader.at_most 65535 loop w w' l h
  limit_lem (pos (suc n)) loop w w' l h = reader.at_most n loop w w' l h
  limit_lem (negsuc n) loop w w' l h = reader.at_most 65535 loop w w' l h

  -- A read, and then a write of what was read.
  read_then_write :
      (k : Chunk → Exec W ℕ) (writer : IsWriter src dst k) (size : ℤ) (loop : Bool) (w w1 w' : W)
      (n : ℕ) (r : Result Chunk)
      → m (if is_positive size then size else pos 65536) loop w ≡ (r, w1)
      → continue r k loop w1 ≡ (ok n, w')
      → (l : List ℕ) × Moves src dst w w' n l × (length l ≤ splice_limit size)
  read_then_write k writer size loop w w1 w' n (err e) hr h = cc
  read_then_write k writer size loop w w1 w' n too_deep hr h = cc
  read_then_write k writer size loop w w1 w' n (ok (str t)) hr h =
      cc ((reader.reads _ loop w w1 (str t) hr).1)
  read_then_write k writer size loop w w1 w' n (ok (bytes t)) hr h =
      let (l, e, gives, still) = reader.reads _ loop w w1 (bytes t) hr in
      let (few, takes, rest) = writer.writes t loop w1 w' n h in
      (t, (ground arith, ground arith, few), limit_lem size loop w w1 t hr)

  copy_chunk-Moves :
      (os_write : ℤ → Chunk → Exec W ℕ) (self : Stream W)
      → self.aread ≡ some m
      → (target : Target W) (fd : ℤ) → IsWriter src dst (deliver os_write target fd)
      → (size : ℤ) (loop : Bool) (w w' : W) (n : ℕ)
      → copy_chunk os_write self target fd size loop w ≡ (ok n, w')
      → (l : List ℕ) × Moves src dst w w' n l × (length l ≤ splice_limit size)
  unfolding copy_chunk
  copy_chunk-Moves os_write self e target n writer size loop w w' k h =
      read_then_write _ (if-writes src dst is_falsy _ _ (nothing-writes src dst) writer) size loop w
        (m (if is_positive size then size else pos 65536) loop w).1 w' k
        (m (if is_positive size then size else pos 65536) loop w).0 refl (simp e at h)

  -- What is moved after the target has been asked for its descriptor.
  after_fd :
      (os_write : ℤ → Chunk → Exec W ℕ) (self : Stream W)
      → self.aread ≡ some m
      → (target : Target W) → ((n : ℤ) → IsWriter src dst (deliver os_write target n))
      → (size : ℤ) (loop : Bool) (w w1 w' : W) (k : ℕ) (r : Result ℤ)
      → ((n : ℤ) → r ≡ ok n → (src w1 ≡ src w) × (dst w1 ≡ dst w))
      → continue r (λ n. copy_chunk os_write self target n size) loop w1 ≡ (ok k, w')
      → (l : List ℕ) × Moves src dst w w' k l × (length l ≤ splice_limit size)
  after_fd os_write self e target writer size loop w w1 w' k (err x) quiet h = cc
  after_fd os_write self e target writer size loop w w1 w' k too_deep quiet h = cc
  after_fd os_write self e target writer size loop w w1 w' k (ok n) quiet h =
      let (l, (gives, takes, few), within) =
        copy_chunk-Moves os_write self e target n (writer n) size loop w1 w' k h in
      let (a, b) = quiet n refl in (l, (ground arith, ground arith, few), within)

  target_fd-IsQuiet :
      (target : Target W)
      → ((sink : Sink W) → target ≡ obj sink → IsTarget src dst sink)
      → IsQuiet src dst (target_fd target)
  unfolding target_fd
  target_fd-IsQuiet (fd n) h = record { moves_nothing = λ loop w w' a e. ground arith }
  target_fd-IsQuiet (obj sink) h = object_fd-IsQuiet sink.fileno (h sink refl).by_fileno
    where
      object_fd-IsQuiet :
          (o : Option (Exec W ℤ))
          → ((f : Exec W ℤ) → o ≡ some f → IsQuiet src dst f)
          → IsQuiet src dst (object_fd o)
      object_fd-IsQuiet none q = record { moves_nothing = λ loop w w' a e. ground arith }
      object_fd-IsQuiet (some f) q = q f refl

  -- Over a stream whose `aread` is a reader, with no native splice, and over a target whose `awrite` and
  -- `write`, and `os.write`, are writers (they may write less than they are given) and whose `fileno` moves
  -- nothing: if `asplice` returns `n`, then some bytes left the front of the stream, at most `size` of them
  -- (65536 if `size` is not positive), and the target took the first `n` of these and nothing else.
  pub base_asplice-Moves :
      (os_write : ℤ → Chunk → Exec W ℕ) (self : Stream W) (target : Target W)
      → self.aread ≡ some m
      → self.ext_asplice ≡ none
      → ((n : ℤ) → IsWriter src dst (os_write n))
      → ((sink : Sink W) → target ≡ obj sink → IsTarget src dst sink)
      → (size : ℤ) (loop : Bool) (w w' : W) (n : ℕ)
      → base_asplice os_write self target size loop w ≡ (ok n, w')
      → (l : List ℕ) × Moves src dst w w' n l × (length l ≤ splice_limit size)
  unfolding base_asplice
  base_asplice-Moves os_write self target e x os ht size loop w w' k h =
      let (r, w1) = target_fd target loop w in
      after_fd os_write self e target (deliver-writes src dst os_write os target ht) size loop w w1
        w' k r (λ n er. (target_fd-IsQuiet target ht).moves_nothing loop w w1 n (λ i. (er i, w1)))
        (simp x at h)
