-- ===== src/Examples/Files.antt =====
-- examples/07_scale_5000_files_benchmark.py: what the benchmark relies on of `open` and of the streams.
use asynchstream.Base.{ℕ, true, ◌≡◌, ◌≢◌, List, [], ◌++◌, length, minus_one}
use asynchstream.Exec.{Exec, ok, call, run}
use asynchstream.Object.{bytes, Stream}
use asynchstream.Examples.{w_plus_b, r_b}

-- What is known of a file by its path: a stream is open to write it and has taken these bytes, a
-- stream is open to read it and has read nothing, a stream is open and the file holds these bytes,
-- the file is closed and holds them.
module _ {W : Type 0} (open_file : List ℕ → List ℕ → Exec W (Stream W))
    (Writing Reading Opened : W → Stream W → List ℕ → List ℕ → Type 0)
    (Saved : W → List ℕ → List ℕ → Type 0) where
  -- Nothing happened to the other files.
  abbrev pub Only : List ℕ → W → W → Type 0
  Only p w w' =
      (q : List ℕ)
      → q ≢ p
      → ((f : Stream W) (c : List ℕ) → Writing w f q c → Writing w' f q c)
        × ((f : Stream W) (c : List ℕ) → Reading w f q c → Reading w' f q c)
        × ((f : Stream W) (c : List ℕ) → Opened w f q c → Opened w' f q c)
        × ((c : List ℕ) → Saved w q c → Saved w' q c)

  -- `open` and the streams of files do what the standard library documents.
  pub record IsFileSystem : Type 0 where
    pub opens_to_write :
        (w : W) (p : List ℕ)
        → (f : Stream W) × (w' : W) × (open_file p w_plus_b true w ≡ (ok f, w'))
          × Writing w' f p []
          × Only p w w'
    pub opens_to_read :
        (w : W) (p c : List ℕ)
        → Saved w p c
        → (f : Stream W) × (w' : W) × (open_file p r_b true w ≡ (ok f, w'))
          × Reading w' f p c
          × Only p w w'
    pub writes :
        (w : W) (f : Stream W) (p c b : List ℕ)
        → Writing w f p c
        → (w' : W) × (call f.awrite (bytes b) true w ≡ (ok (length b), w'))
          × Writing w' f p (c ++ b)
          × Only p w w'
    pub flushes :
        (w : W) (f : Stream W) (p c : List ℕ)
        → Writing w f p c
        → (w' : W) × (run f.aflush true w ≡ (ok tt, w')) × Opened w' f p c × Only p w w'
    pub reads :
        (w : W) (f : Stream W) (p c : List ℕ)
        → Reading w f p c
        → (w' : W) × (call f.aread minus_one true w ≡ (ok (bytes c), w'))
          × Opened w' f p c
          × Only p w w'
    pub writes_sync :
        (w : W) (f : Stream W) (p c b : List ℕ)
        → Writing w f p c
        → (w' : W) × (call f.write (bytes b) true w ≡ (ok (length b), w'))
          × Writing w' f p (c ++ b)
          × Only p w w'
    pub flushes_sync :
        (w : W) (f : Stream W) (p c : List ℕ)
        → Writing w f p c
        → (w' : W) × (run f.flush true w ≡ (ok tt, w')) × Opened w' f p c × Only p w w'
    pub reads_sync :
        (w : W) (f : Stream W) (p c : List ℕ)
        → Reading w f p c
        → (w' : W) × (call f.read minus_one true w ≡ (ok (bytes c), w'))
          × Opened w' f p c
          × Only p w w'
    pub closes :
        (w : W) (f : Stream W) (p c : List ℕ)
        → Opened w f p c
        → (w' : W) × (run f.close true w ≡ (ok tt, w')) × Saved w' p c × Only p w w'
