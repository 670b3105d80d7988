-- ===== src/File/Fallback.antt =====
-- py_native_io/file.py: the thread-pool stream through its async methods, and the fallback from the
-- native engine.
use asynchstream.Base.{ℕ, suc, ◌≡◌, ◌≢◌, ◌⊎◌, inl, inr, refl, Bool, true, false, none, List, ℤ}
use asynchstream.Exec.{
  Exec, Exc, Result, ok, err, too_deep, base_exception, is_exception, call, run, pure,
  comprehension, ◌>>=◌,
}
use asynchstream.Object.{Chunk, Spec, spec_size, Namespace, Stream, instantiate}
use asynchstream.Meta.{
  new_class, synth_aread, synth_aread_batch, synth_awrite, synth_awrite_batch, synth_aclose,
  synth_aflush, auto_aread, auto_awrite, auto_call,
}
use asynchstream.Stream.{async_io_base, base_aread_batch}
use asynchstream.Modes.{Mode}
use asynchstream.File.{
  FileArg, OpenCall, open_call, Raw, native, fallback, is_path, fallback_body, fallback_init,
  open_fallback, after_native, create_default_file_io,
}

module _ {W : Type 0} (os_write : ℤ → Chunk → Exec W ℕ) (io_base : Namespace W) where
  -- `FallbackFileIO`, over a synchronous stream.
  abbrev pub fallback_file_io_class : Stream W → Namespace W
  fallback_file_io_class sync =
      (new_class (fallback_body sync) (async_io_base os_write io_base)).cls

  -- On a `FallbackFileIO`, `aread`, `awrite`, `aclose` and `aflush` do what the synchronous stream's methods
  -- do in a thread with no running event loop; and if `io.IOBase` has no native batch method, `aread_batch`
  -- does such reads one after the other.
  pub fallback_async :
      (depth : ℕ) (sync : Stream W) (size : ℤ) (b : Chunk) (specs : List Spec) (loop : Bool) (w : W)
      → io_base.ext_aread_batch ≡ none
      → let o = instantiate (suc (suc depth)) (fallback_file_io_class sync) in
        (call o.aread size loop w ≡ call sync.read size false w)
        × (call o.awrite b loop w ≡ call sync.write b false w)
        × (run o.aclose loop w ≡ run sync.close false w)
        × (run o.aflush loop w ≡ run sync.flush false w)
        × (call o.aread_batch specs loop w
            ≡ comprehension (λ sz loop w. call sync.read (spec_size sz) false w) specs loop w)
  unfolding instantiate fallback_body new_class synth_aread synth_aread_batch synth_awrite
      synth_awrite_batch synth_aclose synth_aflush auto_aread auto_awrite auto_call base_aread_batch
  fallback_async depth sync size b specs loop w h = (refl, refl, refl, refl, simp h)

module _ {W : Type 0} (orig_open : OpenCall W → Exec W (Stream W))
    (native_open : FileArg W → Mode → Exec W (Stream W)) (mode : Mode) (closefd loop : Bool)
    (w : W) where
  -- The built-in `open` of the file and the mode alone, kept as the stream of a `FallbackFileIO`.
  abbrev pub opened_by_python : FileArg W → Exec W (Raw W)
  opened_by_python file = do sync ← orig_open (open_call file mode); pure (fallback sync)

  -- What comes of a native constructor that has returned or raised, leaving `w1`.
  abbrev pub NativeOrPython : FileArg W → Result (Stream W) → W → Result (Raw W) × W → Type 0
  NativeOrPython file r w1 out =
      ((s : Stream W) × (r ≡ ok s) × (out ≡ (ok (native s), w1)))
      ⊎ ((e : Exc) × (r ≡ err e) × (is_exception e ≡ true) × (out ≡ opened_by_python file loop w1))
      ⊎ ((n : ℕ) × (r ≡ err (base_exception n)) × (out ≡ (err (base_exception n), w1)))

  native_cases :
      (file : FileArg W) (r : Result (Stream W)) (w1 : W)
      → r ≢ too_deep
      → NativeOrPython file r w1
          (after_native orig_open native_open true (opened_by_python file) r loop w1)
  unfolding after_native
  native_cases file (ok s) w1 h = inl (s, refl, refl)
  native_cases file too_deep w1 h = absurd (h refl)
  native_cases file (err (base_exception n)) w1 h = inr (inr (n, refl, refl))
  native_cases file (err e) w1 h = inr (inl (e, refl, refl, refl))

  -- For a path and no opener, where the native engine is used and its constructor returns or raises:
  -- `create_default_file_io` gives the native stream; or, where an `Exception` was raised, does just what the
  -- original `open` of the file and the mode alone does from the state that the constructor left, errors
  -- included, and keeps its stream in a FallbackFileIO; or, where it is no `Exception`, raises it and does
  -- nothing more.
  pub create_default_file_io_cases :
      (file : FileArg W)
      → is_path orig_open native_open true file ≡ true
      → (r : Result (Stream W)) (w1 : W) → native_open file mode loop w ≡ (r, w1)
      → r ≢ too_deep
      → NativeOrPython file r w1
          (create_default_file_io orig_open native_open true file mode closefd none loop w)
  unfolding create_default_file_io open_fallback fallback_init
  create_default_file_io_cases (FileArg.path p) t r w1 h n =
      rw h (native_cases (FileArg.path p) r w1 n)
  create_default_file_io_cases (FileArg.path_like p) t r w1 h n =
      rw h (native_cases (FileArg.path_like p) r w1 n)
  create_default_file_io_cases (FileArg.descriptor d) t r w1 h n = cc
  create_default_file_io_cases (FileArg.object o) t r w1 h n = cc
