-- ===== src/Memory/Methods.antt =====
-- py_native_io/memory.py: what the async methods of the in-memory streams do.
use asynchstream.Base.{
  ℕ, suc, ◌≡◌, refl, ap, ◌∙◌, Bool, Option, none, some, List, ℤ, pos, minus_one, is_positive,
  if◌then◌else◌,
}
use asynchstream.Exec.{Exec, call, run, comprehension, pure, ◌>>=◌}
use asynchstream.Object.{
  Chunk, is_falsy, Spec, spec_size, Sink, Target, obj, Stream, Namespace, instantiate,
}
use asynchstream.Meta.{
  new_class, synth_aread, synth_aread_batch, synth_awrite, synth_awrite_batch, synth_aclose,
  synth_aflush, auto_aread_batch, auto_awrite_batch,
}
use asynchstream.Stream.{
  base_asplice, splice_to, target_fd, object_fd, copy_chunk, deliver, hand_over,
}
use asynchstream.Memory.{
  memory_aread, memory_awrite, memory_aclose, memory_aflush, memory_asplice, memory_body,
  memory_class, give, give_chunk,
}

module _ {W : Type 0} (os_write : ℤ → Chunk → Exec W ℕ) where
  -- For an in-memory stream over a standard class with `read`, `write`, `close` and `flush`: its async
  -- methods do what these do in the caller's own thread, and its batch methods do such calls one after the
  -- other.
  pub memory_async :
      (depth : ℕ) (standard io_base : Namespace W) (read : ℤ → Exec W Chunk)
      (write : Chunk → Exec W ℕ) (close flush : Exec W Unit) (size : ℤ) (b : Chunk)
      (specs : List Spec) (chunks : List Chunk) (loop : Bool) (w : W)
      → standard.read ≡ some (λ self. read)
      → standard.write ≡ some (λ self. write)
      → standard.close ≡ some (λ self. close)
      → standard.flush ≡ some (λ self. flush)
      → let o = instantiate (suc (suc (suc depth))) (memory_class os_write standard io_base) in
        (call o.aread size loop w ≡ read size loop w)
        × (call o.awrite b loop w ≡ write b loop w)
        × (run o.aclose loop w ≡ close loop w)
        × (run o.aflush loop w ≡ flush loop w)
        × (call o.aread_batch specs loop w ≡ comprehension (λ sz. read (spec_size sz)) specs loop w)
        × (call o.awrite_batch chunks loop w ≡ comprehension write chunks loop w)
  unfolding instantiate memory_body new_class synth_aread synth_aread_batch synth_awrite
      synth_awrite_batch synth_aclose synth_aflush auto_aread_batch auto_awrite_batch memory_aread
      memory_awrite memory_aclose memory_aflush
  memory_async depth standard io_base read write close flush size b specs chunks loop w r wr c f =
      (simp r, simp wr, simp c, simp f, simp r, simp wr)

  hand_over-give_chunk :
      (a b : Option (Chunk → Exec W ℕ)) → hand_over os_write a b minus_one ≡ give_chunk a b
  unfolding hand_over give_chunk
  hand_over-give_chunk (some a) b = refl
  hand_over-give_chunk none (some b) = refl
  hand_over-give_chunk none none = refl

  splice_to-copy_chunk :
      (ext : Option (ℤ → ℤ → Exec W ℕ)) (self : Stream W) (target : Target W) (size : ℤ)
      → splice_to os_write ext self target minus_one size
        ≡ copy_chunk os_write self target minus_one size
  unfolding splice_to
  splice_to-copy_chunk none self target size = refl
  splice_to-copy_chunk (some ext) self target size = refl

  -- On a target object without `fileno`, `asplice` of the in-memory streams does what `AsyncIOBase.asplice`
  -- does on the same stream.
  pub memory_asplice-base_asplice :
      (self : Stream W) (sink : Sink W) (size : ℤ) (loop : Bool) (w : W)
      → sink.fileno ≡ none
      → base_asplice os_write self (obj sink) size loop w
        ≡ memory_asplice self (obj sink) size loop w
  unfolding base_asplice memory_asplice target_fd object_fd copy_chunk deliver give
  memory_asplice-base_asplice self sink size loop w h =
      ap
        (λ o.
          (do n ← object_fd o; splice_to os_write self.ext_asplice self (obj sink) n size) loop w)
        h
      ∙ (ap (λ m. m loop w) (splice_to-copy_chunk self.ext_asplice self (obj sink) size)
          ∙ ap
              (λ k.
                (do
                  chunk ← call self.aread (if is_positive size then size else pos 65536)
                  if is_falsy chunk then pure 0 else k chunk)
                  loop w)
              (hand_over-give_chunk sink.awrite sink.write))
