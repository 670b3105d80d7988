-- ===== src/Print/Once.antt =====
-- py_native_io/print.py: `aprint` writes its text once, and when it flushes.
use asynchstream.Base.{
  ℕ, ◌≡◌, refl, Bool, true, false, ◌||◌, ◌&&◌, ◌⊎◌, inl, inr, Option, none, some, List, [], ◌∷◌,
  ◌++◌, map, is_some, arith, ap,
}
use asynchstream.Exec.{
  Exec, Result, is_ok, ok, err, too_deep, value_error, comprehension, ◌>>=◌, ◌>>◌,
}
use asynchstream.Object.{Chunk, bytes, str, Stream}
use asynchstream.Utf8.{Text, encode_utf8, is_scalar, or_unicode_error}
use asynchstream.Utf8.RoundTrip.{AreCodePoints, all, encode_utf8-surrogate}
use asynchstream.Print.{
  join_with, flush_after, is_caught, try_except, write_to, target_file, aprint,
}

-- What a write that ends so adds to the chunks that the stream took.
abbrev pub noted : Result ℕ → Chunk → List Chunk → List Chunk
noted (ok n) c log = log ++ (c ∷ [])
noted (err e) c log = log
noted too_deep c log = log

abbrev pub is_ok_or_caught : {A : Type 0} → Result A → Bool
is_ok_or_caught (ok a) = true
is_ok_or_caught (err e) = is_caught e
is_ok_or_caught too_deep = false

-- A stream that takes text, with a log of the chunks that it took: a write that returns adds its chunk,
-- one that raises adds nothing, and neither does a flush. It may refuse bytes, but not otherwise than by
-- a TypeError or a ValueError.
pub record TakesText {W : Type 0} (t : Stream W) (log : W → List Chunk) : Type 0 where
  pub awrite_notes :
      (f : Chunk → Exec W ℕ) (c : Chunk) (loop : Bool) (w : W)
      → t.awrite ≡ some f
      → log (f c loop w).1 ≡ noted (f c loop w).0 c (log w)
  pub awrite_text :
      (f : Chunk → Exec W ℕ) (s : Text) (loop : Bool) (w : W)
      → t.awrite ≡ some f
      → is_ok (f (str s) loop w).0 ≡ true
  pub awrite_bytes :
      (f : Chunk → Exec W ℕ) (b : List ℕ) (loop : Bool) (w : W)
      → t.awrite ≡ some f
      → is_ok_or_caught (f (bytes b) loop w).0 ≡ true
  pub write_text :
      (f : Chunk → Exec W ℕ) (s : Text) (loop : Bool) (w : W)
      → t.write ≡ some f
      → (is_ok (f (str s) loop w).0 ≡ true) × (log (f (str s) loop w).1 ≡ log w ++ (str s ∷ []))
  pub flush_keeps :
      (f : Exec W Unit) (loop : Bool) (w : W)
      → t.flush ≡ some f
      → ((f loop w).0 ≡ ok tt) × (log (f loop w).1 ≡ log w)
  pub aflush_keeps :
      (f : Exec W Unit) (loop : Bool) (w : W)
      → t.aflush ≡ some f
      → ((f loop w).0 ≡ ok tt) × (log (f loop w).1 ≡ log w)

-- The text itself, or its UTF-8 encoding.
pub Spelled : Text → Chunk → Type 0
Spelled output c =
    (c ≡ str output) ⊎ ((buf : List ℕ) × (encode_utf8 output ≡ some buf) × (c ≡ bytes buf))

-- The action returns, and the log gains the text once.
pub Prints : {W A : Type 0} → (W → List Chunk) → Text → Exec W A → Bool → W → Type 0
Prints log output m loop w =
    (is_ok (m loop w).0 ≡ true)
    × ((c : Chunk) × (log (m loop w).1 ≡ log w ++ (c ∷ [])) × Spelled output c)

module _ {W : Type 0} (t : Stream W) (log : W → List Chunk) (takes : TakesText t log) where
  flush_after-log :
      (flush : Bool) (fl afl : Option (Exec W Unit)) (loop : Bool) (w : W)
      → t.flush ≡ fl
      → t.aflush ≡ afl
      → ((flush_after flush t loop w).0 ≡ ok tt) × (log (flush_after flush t loop w).1 ≡ log w)
  unfolding flush_after
  flush_after-log flush none none loop w e e' = (ground arith, ground arith)
  flush_after-log flush none (some g) loop w e e' =
      let a = takes.aflush_keeps g loop w e' in (ground (arith, a), ground (arith, a))
  flush_after-log flush (some f) none loop w e e' =
      let a = takes.flush_keeps f loop w e in (ground (arith, a), ground (arith, a))
  flush_after-log flush (some f) (some g) loop w e e' =
      let a = takes.flush_keeps f loop w e in
      let b = takes.aflush_keeps g loop w e' in (ground (arith, a, b), ground (arith, a, b))

  try_except-Prints :
      (f : Chunk → Exec W ℕ) (output : Text) (buf : List ℕ) (loop : Bool) (w : W)
      → t.awrite ≡ some f
      → encode_utf8 output ≡ some buf
      → Prints log output (try_except (f (bytes buf)) (f (str output))) loop w
  unfolding Prints Spelled
  try_except-Prints f output buf loop w e q = go (f (bytes buf) loop w).0 refl
    where
      w1 : W
      w1 = (f (bytes buf) loop w).1

      go :
          (r : Result ℕ)
          → (f (bytes buf) loop w).0 ≡ r
          → Prints log output (try_except (f (bytes buf)) (f (str output))) loop w
      go (ok m) er =
          let a = takes.awrite_notes f (bytes buf) loop w e in
          (ground (arith, er), (bytes buf, ground (arith, a, er), inr (buf, q, refl)))
      go (err x) er =
          let a = takes.awrite_notes f (bytes buf) loop w e in
          let b = takes.awrite_notes f (str output) loop w1 e in
          let c = takes.awrite_text f output loop w1 e in
          let d = takes.awrite_bytes f buf loop w e in
          (ground (arith, er, c, d), (str output, ground (arith, a, b, c, d, er), inl refl))
      go too_deep er =
          let d = takes.awrite_bytes f buf loop w e in
          (ground (arith, er, d), (str output, ground (arith, er, d), inl refl))

  after_write :
      (m : Exec W ℕ) (output : Text) (flush : Bool) (loop : Bool) (w : W)
      → Prints log output m loop w
      → Prints log output (do m; flush_after flush t) loop w
  unfolding Prints
  after_write m output flush loop w (o, (c, l, s)) =
      let w1 = (m loop w).1 in
      let (r, k) = flush_after-log flush t.flush t.aflush loop w1 refl refl in
      (ground (arith, o, r), (c, ground (arith, o, l, k), s))

  write_to-Prints :
      (a wr : Option (Chunk → Exec W ℕ)) (flush : Bool) (output : Text) (buf : List ℕ) (loop : Bool)
      (w : W)
      → t.awrite ≡ a
      → t.write ≡ wr
      → is_some a || is_some wr ≡ true
      → encode_utf8 output ≡ some buf
      → Prints log output (write_to a wr t flush output buf) loop w
  unfolding Prints Spelled flush_after
  write_to-Prints (some f) wr flush output buf loop w e e' h q =
      after_write (try_except (f (bytes buf)) (f (str output))) output flush loop w
        (try_except-Prints f output buf loop w e q)
  write_to-Prints none (some f) flush output buf loop w e e' h q =
      let (o, l) = takes.write_text f output loop w e' in
      let (r, k) =
        flush_after-log false t.flush t.aflush loop (f (str output) loop w).1 refl refl in
      (ground (arith, o, r), (str output, ground (arith, o, l, k), inl refl))
  write_to-Prints none none flush output buf loop w e e' h q = ground (arith, h)

flush_after-unused :
    {W : Type 0} (t : Stream W)
    → is_some t.aflush ≡ false
    → flush_after true t ≡ flush_after false t
unfolding flush_after
flush_after-unused t h = rw h

write_to-unused :
    {W : Type 0} (t : Stream W) (a wr : Option (Chunk → Exec W ℕ))
    → is_some a && is_some t.aflush ≡ false
    → write_to a wr t true ≡ write_to a wr t false
unfolding write_to
write_to-unused t (some f) wr h =
    ap (λ after output buf. (do try_except (f (bytes buf)) (f (str output)); after))
      (flush_after-unused t h)
write_to-unused t none (some f) h = refl
write_to-unused t none none h = refl

module _ {W O : Type 0} (to_str : O → Exec W Text) (sys_stdout : Stream W) (name : O → Text)
    (to_str_lem : (o : O) (loop : Bool) (w : W) → to_str o loop w ≡ (ok (name o), w)) where
  comprehension-to_str :
      (objects : List O) (loop : Bool) (w : W)
      → comprehension to_str objects loop w ≡ (ok (map name objects), w)
  unfolding comprehension
  comprehension-to_str [] loop w = refl
  comprehension-to_str (o ∷ objects) loop w =
      ground (arith, to_str_lem o loop w, comprehension-to_str objects loop w)

  -- For objects whose `str` returns and changes nothing, a text that has an encoding, and a target that has
  -- `awrite` or `write` and takes text (it may refuse bytes, by a TypeError or a ValueError): `aprint`
  -- returns, and the target has then taken one chunk more, the joined text with its end or the encoding of it.
  pub aprint-once :
      (objects : List O) (sep end : Text) (file : Option (Stream W)) (flush : Bool) (buf : List ℕ)
      (log : W → List Chunk) (loop : Bool) (w : W)
      → TakesText (target_file sys_stdout file) log
      → is_some (target_file sys_stdout file).awrite || is_some (target_file sys_stdout file).write
        ≡ true
      → encode_utf8 (join_with sep (map name objects) ++ end) ≡ some buf
      → Prints log
          (join_with sep (map name objects) ++ end)
          (aprint to_str sys_stdout objects sep end file flush)
          loop
          w
  unfolding aprint Prints
  aprint-once objects sep end file flush buf log loop w takes h q =
      let t = target_file sys_stdout file in
      rw (comprehension-to_str objects loop w, q)
        (write_to-Prints t log takes t.awrite t.write flush _ buf loop w refl refl h q)

  -- For objects whose `str` returns and changes nothing: `aprint` of a text with a surrogate raises
  -- ValueError and does nothing, whatever the target.
  pub aprint_surrogate :
      (objects : List O) (sep end : Text) (file : Option (Stream W)) (flush : Bool) (loop : Bool)
      (w : W)
      → AreCodePoints (join_with sep (map name objects) ++ end)
      → all is_scalar (join_with sep (map name objects) ++ end) ≡ false
      → aprint to_str sys_stdout objects sep end file flush loop w ≡ (err value_error, w)
  unfolding aprint
  aprint_surrogate objects sep end file flush loop w p h =
      rw (comprehension-to_str objects loop w, encode_utf8-surrogate _ p h) refl

module _ {W O : Type 0} (to_str : O → Exec W Text) (sys_stdout : Stream W) where
  -- On a target that does not have both `awrite` and `aflush`, the argument `flush` of `aprint` changes
  -- nothing.
  pub flush-unused :
      (objects : List O) (sep end : Text) (t : Stream W) (loop : Bool) (w : W)
      → is_some t.awrite && is_some t.aflush ≡ false
      → aprint to_str sys_stdout objects sep end (some t) true loop w
        ≡ aprint to_str sys_stdout objects sep end (some t) false loop w
  unfolding aprint flush_after
  flush-unused objects sep end t loop w h =
      ap
        (λ k.
          (do
            texts ← comprehension to_str objects
            let output = join_with sep texts ++ end
            buf ← or_unicode_error (encode_utf8 output)
            k output buf)
            loop w)
        (write_to-unused t t.awrite t.write h)
