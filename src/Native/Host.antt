-- ===== src/Native/Host.antt =====
-- src/file_io.rs over src/engines/linux.rs: the files and the ring together, and the actions that only
-- work on the files.
use asynchstream.Base.{
  ℕ, ◌≡◌, refl, Bool, true, false, ◌==◌, Option, List, [], ◌∷◌, ℤ, pos, negsuc, if◌then◌else◌,
}
use asynchstream.Exec.{Exec, Result, ok, err, too_deep, continue, comprehension, ◌>>=◌}
use asynchstream.File.{linux}
use asynchstream.Native.{
  Os, u64_max, NativeFile, ReadSpec, if_ok, using, read_spec, seek_first, read_sized, read_again,
  append_again, read_batch_again, read_only, append_to, write_whole,
}
use asynchstream.Native.OpenMode.{OpenOptions, start}
use asynchstream.Ring.{
  IoUring, Thread, submit_uring_read, submit_uring_write, submit_uring_read_batch,
  submit_uring_write_batch, submit_uring_splice,
}

-- The operating system's files, and the ring of the thread that the requests run on.
pub record Host (W K : Type 0) : Type 0 where
  pub files : W
  pub worker : Thread K

module _ {W K A : Type 0} where
  abbrev pub on_files : Exec W A → Exec (Host W K) A
  on_files m loop h = let (r, w) = m loop h.files in (r, record h { files = w })

  abbrev pub on_worker : (Thread K → Thread K → W → W) → Exec (Thread K) A → Exec (Host W K) A
  on_worker settle m loop h =
      let (r, t) = m loop h.worker in (r, record { files = settle h.worker t h.files; worker = t })

-- The files, with the requests of linux.rs for the rings. `settle` says what the kernel does to the
-- files, by reads that move positions and by writes, while the ring goes from one state to another.
abbrev pub over_rings :
    {W K : Type 0} → IoUring K → (Thread K → Thread K → W → W) → Option ℕ → ℕ → Os W → Os (Host W K)
over_rings io settle size fuel os = record {
  open_file = λ path options. on_files (os.open_file path options);
  close_file = λ f h. record h { files = os.close_file f h.files };
  read = λ f n. on_files (os.read f n);
  read_to_end = λ f. on_files (os.read_to_end f);
  write_all = λ f b. on_files (os.write_all f b);
  seek = λ f seek_from. on_files (os.seek f seek_from);
  submit_uring_read = λ f offset n. on_worker settle (submit_uring_read io size fuel f offset n);
  submit_uring_write = λ f b. on_worker settle (submit_uring_write io size fuel f b);
  submit_uring_read_batch =
      λ f specs. on_worker settle (submit_uring_read_batch io size fuel f specs);
  submit_uring_write_batch =
      λ f bufs. on_worker settle (submit_uring_write_batch io size fuel f bufs);
  submit_uring_splice =
      λ f target len. on_worker settle (submit_uring_splice io size fuel f target len);
  submit_ioring_read = λ f n. on_files (os.submit_ioring_read f n);
  submit_ioring_write = λ f b. on_files (os.submit_ioring_write f b);
}

-- An action that only works on the files: what it does there, and that it leaves the worker alone.
pub OnFiles : {W K A : Type 0} → Exec (Host W K) A → Exec W A → Type 0
OnFiles {W} {K} m n = (loop : Bool) (h : Host W K) → m loop h ≡ on_files n loop h

module _ {W K A B : Type 0} where
  bind-OnFiles :
      (m : Exec (Host W K) A) (m' : Exec W A) (f : A → Exec (Host W K) B) (f' : A → Exec W B)
      → OnFiles m m'
      → ((a : A) → OnFiles (f a) (f' a))
      → OnFiles (m >>= f) (m' >>= f')
  unfolding OnFiles
  bind-OnFiles m m' f f' p q loop h = rw (p loop h) (go (m' loop h.files).0 (m' loop h.files).1)
    where
      go :
          (r : Result A) (w : W)
          → continue r f loop (record h { files = w })
            ≡ (let (r', w') = continue r f' loop w in (r', record h { files = w' }))
      go (ok a) w = q a loop (record h { files = w })
      go (err e) w = refl
      go too_deep w = refl

if-OnFiles :
    {W K A : Type 0} (b : Bool) (m n : Exec (Host W K) A) (m' n' : Exec W A)
    → OnFiles m m'
    → OnFiles n n'
    → OnFiles (if b then m else n) (if b then m' else n')
if-OnFiles true m n m' n' p q = p
if-OnFiles false m n m' n' p q = q

pub if_ok-OnFiles :
    {W K A : Type 0} (r : Result A) (m : Exec (Host W K) A) (m' : Exec W A) (loop : Bool)
    (h : Host W K)
    → OnFiles m m'
    → let out = if_ok r m loop h in
      ((out.0, out.1.files) ≡ if_ok r m' loop h.files) × (out.1.worker ≡ h.worker)
unfolding OnFiles
if_ok-OnFiles (ok a) m m' loop h p = (refl, refl)
if_ok-OnFiles (err e) m m' loop h p = rw (p loop h) (refl, refl)
if_ok-OnFiles too_deep m m' loop h p = (refl, refl)

module _ {W K A B : Type 0} where
  comprehension-OnFiles :
      (f : A → Exec (Host W K) B) (f' : A → Exec W B) (xs : List A)
      → ((a : A) → OnFiles (f a) (f' a))
      → OnFiles (comprehension f xs) (comprehension f' xs)
  unfolding comprehension OnFiles
  comprehension-OnFiles f f' [] q = λ loop h. refl
  comprehension-OnFiles f f' (x ∷ xs) q = bind-OnFiles (f x) (f' x) _ _ (q x) (λ y.
      bind-OnFiles (comprehension f xs) (comprehension f' xs) _ _ (comprehension-OnFiles f f' xs q)
        (λ ys loop h. refl))

module _ {W K : Type 0} (io : IoUring K) (settle : Thread K → Thread K → W → W) (size : Option ℕ)
    (fuel : ℕ) (os : Os W) where
  abbrev both : Os (Host W K)
  both = over_rings io settle size fuel os

  using-OnFiles :
      {A : Type 0} (path : List ℕ) (options : OpenOptions) (k : ℕ → Exec (Host W K) A)
      (k' : ℕ → Exec W A)
      → ((f : ℕ) → OnFiles (k f) (k' f))
      → OnFiles (using both path options k) (using os path options k')
  unfolding using OnFiles
  using-OnFiles path options k k' q =
      bind-OnFiles (both.open_file path options) (os.open_file path options) _ _ (λ loop h. refl)
        (λ f loop h. rw (q f loop h) refl)

  read_sized-OnFiles : (n : ℤ) (f : ℕ) → OnFiles (read_sized both n f) (read_sized os n f)
  unfolding read_sized OnFiles
  read_sized-OnFiles (pos n) f loop h = refl
  read_sized-OnFiles (negsuc n) f loop h = refl

  seek_first-OnFiles : (offset f : ℕ) → OnFiles (seek_first both offset f) (seek_first os offset f)
  unfolding seek_first OnFiles
  seek_first-OnFiles offset f =
      if-OnFiles (offset == u64_max) _ _ _ _ (λ loop h. refl)
        (bind-OnFiles (both.seek f (start offset)) (os.seek f (start offset)) _ _ (λ loop h. refl)
          (λ n loop h. refl))

  read_spec-OnFiles :
      (f : ℕ) (spec : ReadSpec) → OnFiles (read_spec both f spec) (read_spec os f spec)
  unfolding read_spec OnFiles
  read_spec-OnFiles f (offset, n) =
      bind-OnFiles (seek_first both offset f) (seek_first os offset f) _ _
        (seek_first-OnFiles offset f) (λ u loop h. refl)

  module _ (self : NativeFile) where
    pub append_again-OnFiles :
        (buf : List ℕ) → OnFiles (append_again both linux self buf) (append_again os linux self buf)
    unfolding append_again write_whole OnFiles
    append_again-OnFiles buf = using-OnFiles self.path append_to _ _ (λ f.
        bind-OnFiles (both.write_all f buf) (os.write_all f buf) _ _ (λ loop h. refl)
          (λ u loop h. refl))

    pub read_again-OnFiles :
        (n : ℤ) → OnFiles (read_again both linux self n) (read_again os linux self n)
    unfolding read_again
    read_again-OnFiles n = using-OnFiles self.path read_only _ _ (read_sized-OnFiles n)

    pub read_batch_again-OnFiles :
        (specs : List ReadSpec)
        → OnFiles (read_batch_again both linux self specs) (read_batch_again os linux self specs)
    unfolding read_batch_again
    read_batch_again-OnFiles specs =
        using-OnFiles self.path read_only _ _
          (λ f. comprehension-OnFiles _ _ specs (read_spec-OnFiles f))
