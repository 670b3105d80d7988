-- ===== src/Examples/Readers.antt =====
-- examples/07_scale_5000_files_benchmark.py: a chunk of files is read.
use asynchstream.Base.{true, ℕ, suc, ◌≤◌, ◌≡◌, refl, ap, List, [], ◌∷◌, arith, some}
use asynchstream.Exec.{Exec, ok}
use asynchstream.Object.{bytes, Stream}
use asynchstream.Examples.{
  Gather, ReadFile, before_aread, returned, read_async_file, data_of, chunk_paths, read_chunk,
}
use asynchstream.Examples.Gather.{Each, IsGather, IsProgress, Spares, gather-Each}
use asynchstream.Examples.Chunks.{IsBatch}
use asynchstream.Examples.Files.{Only, IsFileSystem}

module _ {W : Type 0} (open_file : List ℕ → List ℕ → Exec W (Stream W))
    (Writing Reading Opened : W → Stream W → List ℕ → List ℕ → Type 0)
    (Saved : W → List ℕ → List ℕ → Type 0)
    (fs : IsFileSystem open_file Writing Reading Opened Saved) (payload : List ℕ) where
  -- Where `read_async_file` stands after `k` turns.
  unfoldable pub ReadInv : W → List ℕ → ReadFile W → ℕ → Type 0
  ReadInv w p (ReadFile.before_open path) k = Saved w p payload × (path ≡ p) × (k ≡ 0)
  ReadInv w p (before_aread f) k = Reading w f p payload × (k ≡ 1)
  ReadInv w p (ReadFile.before_close f got) k =
      Opened w f p payload × (got ≡ bytes payload) × (k ≡ 2)
  ReadInv w p (returned got) k = Saved w p payload × (got ≡ bytes payload) × (3 ≤ k)

  abbrev Full : W → List ℕ → Type 0
  Full w p = Saved w p payload

  read-Spares :
      (w w' : W) (p : List ℕ)
      → Only open_file Writing Reading Opened Saved p w w'
      → Spares ReadInv Full (p ∷ []) w w'
  unfolding ReadInv
  read-Spares w w' p only q (n, u) = (keep, (only q n).3 payload)
    where
      keep : (s : ReadFile W) (k : ℕ) → ReadInv w q s k → ReadInv w' q s k
      keep (ReadFile.before_open path) k (h, e, z) = ((only q n).3 payload h, e, z)
      keep (before_aread f) k (h, e) = ((only q n).1 f payload h, e)
      keep (ReadFile.before_close f got) k (h, e, z) = ((only q n).2 f payload h, e, z)
      keep (returned got) k (h, e, z) = ((only q n).3 payload h, e, z)

  read-IsProgress : IsProgress (read_async_file open_file payload) data_of true ReadInv Full
  unfolding read_async_file ReadInv
  read-IsProgress = record { goes_on = go }
    where
      go :
          (w : W) (p : List ℕ) (s : ReadFile W) (k : ℕ)
          → ReadInv w p s k
          → (s' : ReadFile W) × (w' : W) × (read_async_file open_file payload s true w
              ≡ (ok s', w'))
            × ReadInv w' p s' (suc k)
            × Spares ReadInv Full (p ∷ []) w w'
      go w p (ReadFile.before_open path) k (h, e, n) =
          let (f, w', r, h', o) = fs.opens_to_read w p payload h in
          (before_aread f, w', rw (e, r) refl, (h', omega (arith, n)), read-Spares w w' p o)
      go w p (before_aread f) k (h, n) =
          let (w', r, h', o) = fs.reads w f p payload h in
          (
            ReadFile.before_close f (bytes payload),
            w',
            rw r refl,
            (h', refl, omega (arith, n)),
            read-Spares w w' p o,
          )
      go w p (ReadFile.before_close f got) k (h, e, n) =
          let (w', r, h', o) = fs.closes w f p payload h in
          (returned got, w', rw r refl, (h', e, omega (arith, n)), read-Spares w w' p o)
      go w p (returned got) k (h, e, n) =
          (returned got, w, refl, (h, e, omega (arith, n)), λ q f. (λ s k i. i, λ i. i))

  read-ends :
      (w : W) (p : List ℕ) (s : ReadFile W) (k : ℕ)
      → ReadInv w p s k
      → 4 ≤ k
      → (data_of s ≡ some (bytes payload)) × Full w p
  unfolding ReadInv data_of
  read-ends w p (ReadFile.before_open path) k (h, e, n) l = absurd (omega (arith, n, l))
  read-ends w p (before_aread f) k (h, n) l = absurd (omega (arith, n, l))
  read-ends w p (ReadFile.before_close f got) k (h, e, n) l = absurd (omega (arith, n, l))
  read-ends w p (returned got) k (h, e, n) l = (ap some e, h)

  module _ (gather : Gather W) (g : IsGather 4 gather) (n chunk_size : ℕ)
      (paths : List (List ℕ)) where
    pub read-IsBatch :
        IsBatch true
          (read_chunk open_file payload gather n chunk_size paths)
          (chunk_paths open_file payload gather n chunk_size paths)
          (λ p. bytes payload)
          Full
          Full
    unfolding ReadInv
    read-IsBatch = record {
      does = λ i w d h.
          let ps = chunk_paths open_file payload gather n chunk_size paths i in
          let (w', e, kept, spares) =
            gather-Each (read_async_file open_file payload) data_of true ReadInv Full
              read-IsProgress 4 (λ p. bytes payload) ReadFile.before_open read-ends gather g w ps d
              (all_start w ps h) in
          (w', e, kept, λ q f. ((spares q f).1, (spares q f).1));
    }
      where
        all_start :
            (w : W) (ps : List (List ℕ))
            → Each (Full w) ps
            → Each (λ p. ReadInv w p (ReadFile.before_open p) 0) ps
        all_start w [] h = tt
        all_start w (p ∷ ps) (h, t) = ((h, refl, refl), all_start w ps t)
