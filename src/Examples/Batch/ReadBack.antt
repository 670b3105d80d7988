-- ===== src/Examples/Batch/ReadBack.antt =====
-- examples/01_sync_and_async_file_io.py: what the benchmarks read back.
use asynchstream.Base.{
  true, ℕ, suc, ◌≡◌, refl, ap, ◌∙◌, none, some, List, [], ◌∷◌, ◌++◌, append_assoc, length, take, ℤ,
  pos,
}
use asynchstream.Exec.{Exec, ok, pure, call, run}
use asynchstream.Object.{Chunk, bytes, Stream}
use asynchstream.Stream.{base_aread_batch, base_awrite_batch}
use asynchstream.Examples.{drop}
use asynchstream.Examples.Batch.{copies, rewind, Descriptors, fd_stream}
use asynchstream.Examples.Batch.Shared.{IsRepeatable}

-- `behind` and `ahead` show the bytes of the open file before and after its position.
module _ {W : Type 0} (behind ahead : W → List ℕ) where
  abbrev Puts : (Chunk → Exec W ℕ) → Type 0
  Puts m =
      (w : W) (b : List ℕ)
      → ahead w ≡ []
      → (w' : W) × (m (bytes b) true w ≡ (ok (length b), w'))
        × (behind w' ≡ behind w ++ b)
        × (ahead w' ≡ [])

  abbrev Gets : (ℤ → Exec W Chunk) → Type 0
  Gets m =
      (w : W) (n : ℕ)
      → (w' : W) × (m (pos n) true w ≡ (ok (bytes (take n (ahead w))), w'))
        × (ahead w' ≡ drop n (ahead w))

  abbrev Keeps : Exec W Unit → Type 0
  Keeps m =
      (w : W) → (w' : W) × (m true w ≡ (ok tt, w')) × (behind w' ≡ behind w) × (ahead w' ≡ ahead w)

  -- A stream that writes at the end, reads on from its position, and goes back to the start.
  pub record IsTape (f : Stream W) (put : Chunk → Exec W ℕ) (get : ℤ → Exec W Chunk)
      (flush : Exec W Unit) : Type 0 where
    pub puts : Puts put
    pub gets : Gets get
    pub keeps : Keeps flush
    pub rewinds :
        (w : W)
        → (n : ℕ) × (w' : W) × (rewind f true w ≡ (ok n, w')) × (ahead w' ≡ behind w ++ ahead w)
    pub closes : (w : W) → (w' : W) × (run f.close true w ≡ (ok tt, w'))

  -- A built-in stream, or one of aiofiles, whose methods are coroutines.
  abbrev pub IsPlain : Stream W → Type 0
  IsPlain f = IsTape f (call f.write) (call f.read) (run f.flush)

  -- A descriptor. Nothing is there to be flushed.
  abbrev pub IsDescriptor : Descriptors W → ℤ → Type 0
  IsDescriptor os fd = IsTape (fd_stream os fd) (os.write fd) (os.read fd) (pure tt)

  -- An async stream, with the batches of `AsyncIOBase` over single methods that do the same.
  pub record IsAsync (f : Stream W) : Type 0 where
    pub tape : IsTape f (call f.awrite) (call f.aread) (run f.aflush)
    pub self : Stream W
    pub self_puts : Puts (call self.awrite)
    pub self_gets : Gets (call self.aread)
    pub awrites : f.awrite_batch ≡ some (base_awrite_batch self)
    pub areads : f.aread_batch ≡ some (base_aread_batch self)
    pub no_awrites : self.ext_awrite_batch ≡ none
    pub no_areads : self.ext_aread_batch ≡ none

  -- Opening gives such a stream, or descriptor, of an empty file.
  pub record OpensEmpty {F : Type 0} (Good : F → Type 0) (open_file : Exec W F) : Type 0 where
    pub opens :
        (w : W)
        → (f : F) × (w' : W) × (open_file true w ≡ (ok f, w'))
          × Good f
          × (behind w' ≡ [])
          × (ahead w' ≡ [])

  pub take-append : (p q : List ℕ) → take (length p) (p ++ q) ≡ p
  take-append [] q = refl
  take-append (x ∷ p) q = ap (λ l. x ∷ l) (take-append p q)

  pub drop-append : (p q : List ℕ) → drop (length p) (p ++ q) ≡ q
  drop-append [] q = refl
  drop-append (x ∷ p) q = drop-append p q

  module _ (size : ℕ) (payload : List ℕ) where
    -- `n` more writes make the file whole.
    abbrev pub Unwritten : ℕ → W → Type 0
    Unwritten n w = (behind w ++ copies n payload ≡ copies (suc size) payload) × (ahead w ≡ [])

    -- One copy more than the reads to come.
    abbrev pub Unread : ℕ → W → Type 0
    Unread n w = ahead w ≡ copies (suc n) payload

    pub write-IsRepeatable :
        (m : Chunk → Exec W ℕ)
        → Puts m
        → IsRepeatable true (m (bytes payload)) (length payload) Unwritten
    write-IsRepeatable m puts = record {
      does = λ n w (h, a).
          let (w', r, b, a') = puts w payload a in
          (w', r, (rw b (append_assoc (behind w) payload (copies n payload) ∙ h), a'));
    }

    pub read-IsRepeatable :
        (m : ℤ → Exec W Chunk)
        → Gets m
        → IsRepeatable true (m (pos (length payload))) (bytes payload) Unread
    read-IsRepeatable m gets = record {
      does = λ n w h.
          let (w', r, a) = gets w (length payload) in
          let front = ap (take (length payload)) h ∙ take-append payload (copies (suc n) payload) in
          let rest = ap (drop (length payload)) h ∙ drop-append payload (copies (suc n) payload) in
          (w', rw (r, front) refl, a ∙ rest);
    }

    -- The warm-up write.
    pub warmed_up :
        (m : Chunk → Exec W ℕ) (flush : Exec W Unit)
        → Puts m
        → Keeps flush
        → (w : W) → behind w ≡ []
        → ahead w ≡ []
        → (w1 w2 : W) × (m (bytes payload) true w ≡ (ok (length payload), w1))
          × (flush true w1 ≡ (ok tt, w2))
          × Unwritten size w2
    warmed_up m flush puts keeps w b a =
        let (w1, r1, b1, a1) = puts w payload a in
        let (w2, r2, b2, a2) = keeps w1 in (w1, w2, r1, r2, (rw (b2, b1, b) refl, a2 ∙ a1))

    -- From the last write to the first read.
    pub turned_around :
        (f : Stream W) (put : Chunk → Exec W ℕ) (get : ℤ → Exec W Chunk) (flush : Exec W Unit)
        → IsTape f put get flush
        → (w : W) → Unwritten 0 w
        → (n : ℕ) × (w1 w2 : W) × (flush true w ≡ (ok tt, w1))
          × (rewind f true w1 ≡ (ok n, w2))
          × Unread size w2
    turned_around f put get flush t w (h, a) =
        let (w1, r1, b1, a1) = t.keeps w in
        let (n, w2, r2, a2) = t.rewinds w1 in
        let all : behind w1 ++ ahead w1 ≡ copies (suc size) payload = rw (b1, a1, a) h in
        (n, w1, w2, r1, r2, a2 ∙ all)
