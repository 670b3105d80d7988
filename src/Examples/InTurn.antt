-- ===== src/Examples/InTurn.antt =====
-- examples/07_scale_5000_files_benchmark.py: the synchronous half, one file after another.
use asynchstream.Base.{Bool, true, ℕ, ◌≡◌, ◌≢◌, refl, sym, List, [], ◌∷◌, map}
use asynchstream.Exec.{Exec, ok, comprehension}
use asynchstream.Object.{bytes, Stream}
use asynchstream.Examples.{write_sync_file, read_sync_file, run_sync_benchmark}
use asynchstream.Examples.Gather.{Each, IsFresh, AreDistinct}
use asynchstream.Examples.Chunks.{Each-map}
use asynchstream.Examples.Files.{IsFileSystem}

module _ {W A : Type 0} (loop : Bool) (op : List ℕ → Exec W A) (value : List ℕ → A)
    (Ready Kept : W → List ℕ → Type 0) where
  abbrev Spares : List ℕ → W → W → Type 0
  Spares p w w' = (q : List ℕ) → q ≢ p → (Ready w q → Ready w' q) × (Kept w q → Kept w' q)

  -- The operation does its own file and leaves the others.
  record IsFileOp : Type 0 where
    pub does :
        (w : W) (p : List ℕ)
        → Ready w p
        → (w' : W) × (op p loop w ≡ (ok (value p), w')) × Kept w' p × Spares p w w'

  in_turn-Each :
      IsFileOp
      → (ps : List (List ℕ)) (w : W) → AreDistinct ps
      → Each (Ready w) ps
      → (w' : W) × (comprehension op ps loop w ≡ (ok (map value ps), w'))
        × Each (Kept w') ps
        × ((q : List ℕ) → IsFresh ps q → Kept w q → Kept w' q)
  unfolding comprehension
  in_turn-Each b [] w d h = (w, refl, tt, λ q f k. k)
  in_turn-Each b (p ∷ ps) w (f, d) (h, hs) =
      let (w1, e, kept, spares) = b.does w p h in
      let ready =
        Each-map (λ q. p ≢ q) (Ready w) (Ready w1) ps (λ q n. (spares q (λ e. n (sym e))).0) f hs in
      let (w2, es, kepts, spares2) = in_turn-Each b ps w1 d ready in
      (w2, rw (e, es) refl, (spares2 p f kept, kepts), λ q g k. spares2 q g.1 ((spares q g.0).1 k))

module _ {W : Type 0} (open_file : List ℕ → List ℕ → Exec W (Stream W))
    (Writing Reading Opened : W → Stream W → List ℕ → List ℕ → Type 0)
    (Saved : W → List ℕ → List ℕ → Type 0)
    (fs : IsFileSystem open_file Writing Reading Opened Saved) (payload : List ℕ) where
  abbrev Full : W → List ℕ → Type 0
  Full w p = Saved w p payload

  write_sync_file-IsFileOp :
      IsFileOp true (write_sync_file open_file payload) (λ p. tt) (λ w p. Unit {0}) Full
  unfolding write_sync_file
  write_sync_file-IsFileOp = record { does = go }
    where
      go :
          (w : W) (p : List ℕ) (u : Unit {0})
          → (w' : W) × (write_sync_file open_file payload p true w ≡ (ok tt, w'))
            × Full w' p
            × Spares true
                (write_sync_file open_file payload)
                (λ p. tt)
                (λ w p. Unit {0})
                Full
                p
                w
                w'
      go w p u =
          let (f, w1, r1, h1, o1) = fs.opens_to_write w p in
          let (w2, r2, h2, o2) = fs.writes_sync w1 f p [] payload h1 in
          let (w3, r3, h3, o3) = fs.flushes_sync w2 f p payload h2 in
          let (w4, r4, h4, o4) = fs.closes w3 f p payload h3 in
          (
            w4,
            rw (r1, r2, r3) r4,
            h4,
            λ q n. (
              λ u. tt,
              λ k.
                  (o4 q n).3 payload
                    ((o3 q n).3 payload ((o2 q n).3 payload ((o1 q n).3 payload k))),
            ),
          )

  read_sync_file-IsFileOp :
      IsFileOp true (read_sync_file open_file payload) (λ p. bytes payload) Full Full
  unfolding read_sync_file
  read_sync_file-IsFileOp = record { does = go }
    where
      go :
          (w : W) (p : List ℕ)
          → Full w p
          → (w' : W) × (read_sync_file open_file payload p true w ≡ (ok (bytes payload), w'))
            × Full w' p
            × Spares true (read_sync_file open_file payload) (λ p. bytes payload) Full Full p w w'
      go w p h =
          let (f, w1, r1, h1, o1) = fs.opens_to_read w p payload h in
          let (w2, r2, h2, o2) = fs.reads_sync w1 f p payload h1 in
          let (w3, r3, h3, o3) = fs.closes w2 f p payload h2 in
          let keep = λ (q : List ℕ) (n : q ≢ p) (k : Full w q).
            (o3 q n).3 payload ((o2 q n).3 payload ((o1 q n).3 payload k)) in
          (w3, rw (r1, r2, r3) refl, h3, λ q n. (keep q n, keep q n))

  pub run_sync_benchmark-Saved :
      (paths : List (List ℕ))
      → AreDistinct paths
      → (w : W)
      → (w' : W) × (run_sync_benchmark open_file payload paths true w
          ≡ (ok (map (λ p. bytes payload) paths), w'))
        × Each (Full w') paths
  unfolding run_sync_benchmark
  run_sync_benchmark-Saved paths d w =
      let (w1, e1, kept1, s1) =
        in_turn-Each true _ (λ p. tt) (λ w p. Unit {0}) Full write_sync_file-IsFileOp paths w d
          (all_ready paths) in
      let (w2, e2, kept2, s2) =
        in_turn-Each true _ (λ p. bytes payload) Full Full read_sync_file-IsFileOp paths w1 d
          kept1 in
      (w2, rw e1 e2, kept2)
    where
      all_ready : (ps : List (List ℕ)) → Each (λ p. Unit {0}) ps
      all_ready [] = tt
      all_ready (p ∷ ps) = (tt, all_ready ps)
