-- ===== src/Examples/Writers.antt =====
-- examples/07_scale_5000_files_benchmark.py: a chunk of files is written.
use asynchstream.Base.{true, ℕ, suc, ◌≤◌, ◌≡◌, refl, List, [], ◌∷◌, arith, some}
use asynchstream.Exec.{Exec, ok}
use asynchstream.Object.{Stream}
use asynchstream.Examples.{
  Gather, WriteFile, before_awrite, before_aflush, finished, write_async_file, written, chunk_paths,
  write_chunk,
}
use asynchstream.Examples.Gather.{Each, IsGather, IsProgress, Spares, gather-Each}
use asynchstream.Examples.Chunks.{IsBatch}
use asynchstream.Examples.Files.{Only, IsFileSystem}

module _ {W : Type 0} (open_file : List ℕ → List ℕ → Exec W (Stream W))
    (Writing Reading Opened : W → Stream W → List ℕ → List ℕ → Type 0)
    (Saved : W → List ℕ → List ℕ → Type 0)
    (fs : IsFileSystem open_file Writing Reading Opened Saved) (payload : List ℕ) where
  -- Where `write_async_file` stands after `k` turns.
  unfoldable pub WriteInv : W → List ℕ → WriteFile W → ℕ → Type 0
  WriteInv w p (WriteFile.before_open path) k = (path ≡ p) × (k ≡ 0)
  WriteInv w p (before_awrite f) k = Writing w f p [] × (k ≡ 1)
  WriteInv w p (before_aflush f) k = Writing w f p payload × (k ≡ 2)
  WriteInv w p (WriteFile.before_close f) k = Opened w f p payload × (k ≡ 3)
  WriteInv w p finished k = Saved w p payload × (4 ≤ k)

  abbrev Full : W → List ℕ → Type 0
  Full w p = Saved w p payload

  write-Spares :
      (w w' : W) (p : List ℕ)
      → Only open_file Writing Reading Opened Saved p w w'
      → Spares WriteInv Full (p ∷ []) w w'
  unfolding WriteInv
  write-Spares w w' p only q (n, u) = (keep, (only q n).3 payload)
    where
      keep : (s : WriteFile W) (k : ℕ) → WriteInv w q s k → WriteInv w' q s k
      keep (WriteFile.before_open path) k h = h
      keep (before_awrite f) k (h, e) = ((only q n).0 f [] h, e)
      keep (before_aflush f) k (h, e) = ((only q n).0 f payload h, e)
      keep (WriteFile.before_close f) k (h, e) = ((only q n).2 f payload h, e)
      keep finished k (h, e) = ((only q n).3 payload h, e)

  write-IsProgress : IsProgress (write_async_file open_file payload) written true WriteInv Full
  unfolding write_async_file WriteInv
  write-IsProgress = record { goes_on = go }
    where
      go :
          (w : W) (p : List ℕ) (s : WriteFile W) (k : ℕ)
          → WriteInv w p s k
          → (s' : WriteFile W) × (w' : W) × (write_async_file open_file payload s true w
              ≡ (ok s', w'))
            × WriteInv w' p s' (suc k)
            × Spares WriteInv Full (p ∷ []) w w'
      go w p (WriteFile.before_open path) k (e, n) =
          let (f, w', r, h, o) = fs.opens_to_write w p in
          (before_awrite f, w', rw (e, r) refl, (h, omega (arith, n)), write-Spares w w' p o)
      go w p (before_awrite f) k (h, n) =
          let (w', r, h', o) = fs.writes w f p [] payload h in
          (before_aflush f, w', rw r refl, (h', omega (arith, n)), write-Spares w w' p o)
      go w p (before_aflush f) k (h, n) =
          let (w', r, h', o) = fs.flushes w f p payload h in
          (WriteFile.before_close f, w', rw r refl, (h', omega (arith, n)), write-Spares w w' p o)
      go w p (WriteFile.before_close f) k (h, n) =
          let (w', r, h', o) = fs.closes w f p payload h in
          (finished, w', rw r refl, (h', omega (arith, n)), write-Spares w w' p o)
      go w p finished k (h, n) =
          (finished, w, refl, (h, omega (arith, n)), λ q f. (λ s k i. i, λ i. i))

  write-ends :
      (w : W) (p : List ℕ) (s : WriteFile W) (k : ℕ)
      → WriteInv w p s k
      → 4 ≤ k
      → (written s ≡ some tt) × Full w p
  unfolding WriteInv written
  write-ends w p (WriteFile.before_open path) k (e, n) l = absurd (omega (arith, n, l))
  write-ends w p (before_awrite f) k (h, n) l = absurd (omega (arith, n, l))
  write-ends w p (before_aflush f) k (h, n) l = absurd (omega (arith, n, l))
  write-ends w p (WriteFile.before_close f) k (h, n) l = absurd (omega (arith, n, l))
  write-ends w p finished k (h, n) l = (refl, h)

  module _ (gather : Gather W) (g : IsGather 4 gather) (n chunk_size : ℕ)
      (paths : List (List ℕ)) where
    pub write-IsBatch :
        IsBatch true
          (write_chunk open_file payload gather n chunk_size paths)
          (chunk_paths open_file payload gather n chunk_size paths)
          (λ p. tt)
          (λ w p. Unit)
          Full
    unfolding WriteInv
    write-IsBatch = record {
      does = λ i w d h.
          let ps = chunk_paths open_file payload gather n chunk_size paths i in
          let (w', e, kept, spares) =
            gather-Each (write_async_file open_file payload) written true WriteInv Full
              write-IsProgress 4 (λ p. tt) WriteFile.before_open write-ends gather g w ps d
              (all_start w ps) in
          (w', e, kept, λ q f. (λ u. tt, (spares q f).1));
    }
      where
        all_start :
            (w : W) (ps : List (List ℕ)) → Each (λ p. WriteInv w p (WriteFile.before_open p) 0) ps
        all_start w [] = tt
        all_start w (p ∷ ps) = ((refl, refl), all_start w ps)
