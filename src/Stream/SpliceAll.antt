-- ===== src/Stream/SpliceAll.antt =====
-- py_native_io/base.py: `AsyncIOBase.asplice` where nothing fails and the target takes all that it is given.
use asynchstream.Base.{
  ℕ, zero, suc, ◌≤◌, ◌≡◌, ◌≢◌, refl, sym, Bool, Option, none, some, List, [], ◌∷◌, ◌++◌, ℤ, pos,
  negsuc, is_positive, length, take, arith, append-nil, if◌then◌else◌,
}
use asynchstream.Exec.{Exec, Result, ok, pure, ◌>>=◌}
use asynchstream.Object.{Chunk, bytes, is_falsy, Sink, obj, Stream}
use asynchstream.Stream.{
  base_asplice, target_fd, object_fd, splice_to, copy_chunk, deliver, hand_over,
}
use asynchstream.Stream.Splice.{IsReader, IsWriter, IsQuiet, splice_limit}

module _ {W : Type 0} (src dst : W → List ℕ) where
  -- A read returns, and gives something while there is something to give.
  pub record IsSteady (m : ℤ → Exec W Chunk) : Type 0 where
    pub reader : IsReader src dst m
    pub gives :
        (n : ℕ) (loop : Bool) (w : W)
        → (l : List ℕ) × (w' : W) × (m (pos (suc n)) loop w ≡ (ok (bytes l), w'))
          × (src w ≢ [] → l ≢ [])

  -- A write returns, having taken everything.
  pub record IsGreedy (m : Chunk → Exec W ℕ) : Type 0 where
    pub writer : IsWriter src dst m
    pub takes :
        (l : List ℕ) (loop : Bool) (w : W) → (w' : W) × (m (bytes l) loop w ≡ (ok (length l), w'))

  pub record IsPrompt (m : Exec W ℤ) : Type 0 where
    pub quiet : IsQuiet src dst m
    pub answers : (loop : Bool) (w : W) → (n : ℤ) × (w' : W) × (m loop w ≡ (ok n, w'))

  -- All of `l`, and no more than that, went from the stream to the target.
  abbrev pub MovesAll : W → W → List ℕ → Type 0
  MovesAll w w' l = (src w ≡ l ++ src w') × (dst w' ≡ dst w ++ l)

  pub take_all : (l : List ℕ) → take (length l) l ≡ l
  take_all [] = refl
  take_all (x ∷ l) = rw (take_all l)

  -- The outcome of a splice from `w` that has moved everything that it read.
  abbrev pub Spliced : ℤ → W → Result ℕ × W → Type 0
  Spliced size w out =
      (l : List ℕ) × (w' : W) × (out ≡ (ok (length l), w'))
      × MovesAll w w' l
      × (length l ≤ splice_limit size)
      × (src w ≢ [] → l ≢ [])

  limit_cases :
      (size : ℤ)
      → (n : ℕ) × ((if is_positive size then size else pos 65536) ≡ pos (suc n))
        × (suc n ≡ splice_limit size)
  limit_cases (pos zero) = (65535, refl, refl)
  limit_cases (pos (suc n)) = (n, refl, refl)
  limit_cases (negsuc n) = (65535, refl, refl)

  module _ (m : ℤ → Exec W Chunk) (steady : IsSteady m) (k : Chunk → Exec W ℕ) (greedy : IsGreedy k)
      (size : ℤ) (loop : Bool) where
    -- What was read is handed over, if it is anything.
    hand_on : Chunk → Exec W ℕ
    hand_on chunk = if is_falsy chunk then pure 0 else k chunk

    handed :
        (l : List ℕ) (w : W)
        → (w' : W) × (hand_on (bytes l) loop w ≡ (ok (length l), w'))
          × (dst w' ≡ dst w ++ l)
          × (src w' ≡ src w)
    unfolding hand_on
    handed [] w = (w, refl, sym (append-nil (dst w)), refl)
    handed (x ∷ l) w =
        let (w', e) = greedy.takes (x ∷ l) loop w in
        let (few, d, s) = greedy.writer.writes (x ∷ l) loop w w' (length (x ∷ l)) e in
        (w', e, rw (take_all (x ∷ l)) at d, s)

    copied :
        (w : W)
        → Spliced size w ((m (if is_positive size then size else pos 65536) >>= hand_on) loop w)
    copied w =
        let (n, e, lim) = limit_cases size in
        let (l, w1, r, some_if) = steady.gives n loop w in
        let (l', q, s, d) = steady.reader.reads (pos (suc n)) loop w w1 (bytes l) r in
        let (w2, h, d2, s2) = handed l w1 in
        let few = steady.reader.at_most n loop w w1 l r in
        (l, w2, rw (e, r) h, (ground arith, ground arith), omega (arith, lim, few), some_if)

  -- The descriptor of the target, asked for without moving anything.
  asked :
      (o : Option (Exec W ℤ)) (loop : Bool) (w : W)
      → ((f : Exec W ℤ) → o ≡ some f → IsPrompt f)
      → (n : ℤ) × (w1 : W) × (object_fd o loop w ≡ (ok n, w1)) × (src w1 ≡ src w) × (dst w1 ≡ dst w)
  unfolding object_fd
  asked none loop w h = (_, w, refl, refl, refl)
  asked (some f) loop w h =
      let (n, w1, e) = (h f refl).answers loop w in
      let (a, b) = (h f refl).quiet.moves_nothing loop w w1 n e in (n, w1, e, a, b)

  -- Over a stream whose `aread` is a reader that always answers a positive size with bytes, some where
  -- some are left, with no native splice, and a target whose `awrite` is a writer that takes all that it is
  -- given, and whose `fileno` returns and moves nothing:
  -- `asplice` returns the number of bytes that it moved, all of what it read, at most `size` (65536 if
  -- `size` is not positive), and at least one if the stream had any left.
  pub base_asplice-Spliced :
      (os_write : ℤ → Chunk → Exec W ℕ) (self : Stream W) (sink : Sink W) (m : ℤ → Exec W Chunk)
      (k : Chunk → Exec W ℕ)
      → self.aread ≡ some m
      → IsSteady m
      → self.ext_asplice ≡ none
      → sink.awrite ≡ some k
      → IsGreedy k
      → ((f : Exec W ℤ) → sink.fileno ≡ some f → IsPrompt f)
      → (size : ℤ) (loop : Bool) (w : W)
      → Spliced size w (base_asplice os_write self (obj sink) size loop w)
  unfolding base_asplice target_fd splice_to copy_chunk deliver hand_over hand_on
  base_asplice-Spliced os_write self sink m k ha steady hx hw greedy hf size loop w =
      let (n, w1, e, a, b) = asked sink.fileno loop w hf in
      let (l, w2, q, (gives, takes), few, some_if) = copied m steady k greedy size loop w1 in
      (l, w2, rw (e, hx, ha, hw) q, (ground arith, ground arith), few, λ ne. some_if (rw a ne))
