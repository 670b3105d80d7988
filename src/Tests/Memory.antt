-- ===== src/Tests/Memory.antt =====
-- The theorems on the in-memory streams, at small inputs.
use asynchstream.Base.{ℕ, suc, ◌≡◌, refl, true, none, some, [], ◌∷◌, ℤ, pos}
use asynchstream.Exec.{Exec, ok, pure, call, run, comprehension}
use asynchstream.Object.{
  Chunk, bytes, just_size, spec_size, Sink, obj, Stream, Namespace, empty, instantiate,
}
use asynchstream.Memory.{memory_class, memory_asplice}
use asynchstream.Memory.Methods.{memory_async}

-- A stream that counts its reads, as the standard class gives it.
abbrev count_read : ℤ → Exec ℕ Chunk
count_read size loop w = (ok (bytes (w ∷ [])), suc w)

abbrev count_write : Chunk → Exec ℕ ℕ
count_write c loop w = (ok 1, suc w)

abbrev no_write : ℤ → Chunk → Exec ℕ ℕ
no_write n c = pure 0

abbrev nothing_done : Exec ℕ Unit
nothing_done = pure tt

abbrev standard : Namespace ℕ
standard = record empty {
  read = some (λ self. count_read);
  write = some (λ self. count_write);
  close = some (λ self. nothing_done);
  flush = some (λ self. nothing_done);
}

memory_async_example :
    let o = instantiate 3 (memory_class no_write standard empty) in
    (call o.aread (pos 1) true 5 ≡ (ok (bytes (5 ∷ [])), 6))
    × (call o.awrite (bytes []) true 5 ≡ (ok 1, 6))
    × (run o.aclose true 5 ≡ (ok tt, 5))
    × (run o.aflush true 5 ≡ (ok tt, 5))
    × (call o.aread_batch (just_size (pos 1) ∷ just_size (pos 1) ∷ []) true 5
        ≡ comprehension
            (λ sz. count_read (spec_size sz))
            (just_size (pos 1) ∷ just_size (pos 1) ∷ [])
            true
            5)
    × (call o.awrite_batch (bytes [] ∷ []) true 5
        ≡ comprehension count_write (bytes [] ∷ []) true 5)
memory_async_example =
    memory_async no_write 0 standard empty count_read count_write nothing_done nothing_done (pos 1)
      (bytes []) (just_size (pos 1) ∷ just_size (pos 1) ∷ []) (bytes [] ∷ []) true 5 refl refl refl
      refl

abbrev reading : Stream ℕ
reading = record empty { aread = some count_read }

abbrev sink : Sink ℕ
sink = record { fileno = none; awrite = none; write = some count_write }

memory_asplice_runs : memory_asplice reading (obj sink) (pos 4) true 5 ≡ (ok 1, 7)
unfolding memory_asplice
memory_asplice_runs = refl
