-- ===== src/Tests/Agreement.antt =====
-- The theorems on synchronous streams, patched and wrapped, at a counter that its calls advance.
use asynchstream.Base.{ℕ, suc, ◌+◌, ◌≡◌, refl, true, false, some, List, [], ◌∷◌, ℤ, pos}
use asynchstream.Exec.{Exec, ok, err, call, run, value_error}
use asynchstream.Object.{Chunk, bytes, Spec, just_size, at_offset, Namespace, empty, instantiate}
use asynchstream.Patch.{attributes, patch_stream}
use asynchstream.Patch.Sync.{IsSync, object_of}
use asynchstream.Patch.InThread.{RunsSync, patched_runs_in_thread}
use asynchstream.Adapter.{wrap_stream}
use asynchstream.Adapter.Agreement.{adapter_agrees_with_patch}

abbrev counter_read : ℤ → Exec ℕ Chunk
counter_read size loop n = (ok (bytes (n ∷ [])), suc n)

abbrev counter_write : Chunk → Exec ℕ ℕ
counter_write b loop n = (ok 1, 10 + n)

abbrev counter_close : Exec ℕ Unit
counter_close loop n = (ok tt, 0)

abbrev counter_flush : Exec ℕ Unit
counter_flush loop n = (err value_error, n)

abbrev counter_cls : Namespace ℕ
counter_cls = record empty {
  read = some (λ self. counter_read);
  write = some (λ self. counter_write);
  close = some (λ self. counter_close);
  flush = some (λ self. counter_flush);
}

counter-IsSync : IsSync empty counter_cls
counter-IsSync = record {
  read = counter_read;
  write = counter_write;
  close = counter_close;
  flush = counter_flush;
  has_read = refl;
  has_write = refl;
  has_close = refl;
  has_flush = refl;
  no_aread = (refl, refl);
  no_aread_batch = (refl, refl);
  no_awrite = (refl, refl);
  no_awrite_batch = (refl, refl);
  no_aclose = (refl, refl);
  no_aflush = (refl, refl);
  no_asplice = (refl, refl);
}

abbrev two_specs : List Spec
two_specs = just_size (pos 4) ∷ at_offset (pos 0) (pos 2) ∷ []

abbrev two_chunks : List Chunk
two_chunks = bytes (1 ∷ []) ∷ bytes (2 ∷ []) ∷ []

abbrev no_os_write : ℤ → Chunk → Exec ℕ ℕ
no_os_write n b loop w = (err value_error, w)

patched_runs_in_thread_example :
    let o = (patch_stream true (object_of false empty counter_cls)).1 in
    RunsSync counter-IsSync
      (instantiate 3 (attributes o))
      (pos 4)
      (bytes [])
      two_specs
      two_chunks
      true
      7
patched_runs_in_thread_example =
    patched_runs_in_thread empty counter_cls counter-IsSync true false 0 (pos 4) (bytes [])
      two_specs two_chunks true 7

adapter_agrees_with_patch_example :
    let original = object_of true empty counter_cls in
    let p = instantiate 3 (attributes (patch_stream true original).1) in
    let s = instantiate 3 (wrap_stream no_os_write empty 1 (attributes original)) in
    (call s.aread (pos 4) true 7 ≡ call p.aread (pos 4) true 7)
    × (call s.awrite (bytes []) true 7 ≡ call p.awrite (bytes []) true 7)
    × (run s.aclose true 7 ≡ run p.aclose true 7)
    × (run s.aflush true 7 ≡ run p.aflush true 7)
    × (call s.aread_batch two_specs true 7 ≡ call p.aread_batch two_specs true 7)
    × (call s.awrite_batch two_chunks true 7 ≡ call p.awrite_batch two_chunks true 7)
adapter_agrees_with_patch_example =
    adapter_agrees_with_patch no_os_write empty empty counter_cls counter-IsSync true true 0 (pos 4)
      (bytes []) two_specs two_chunks true 7
