-- ===== src/Adapter/Delegation.antt =====
-- py_native_io/patch.py: what the adapter and `ensure_async_stream` promise to their callers.
use asynchstream.Base.{
  ◌≡◌, refl, sym, ap, ◌∙◌, Bool, true, false, ℕ, ℤ, ◌⊎◌, Bool-cases, inl, inr, arith, if◌then◌else◌,
}
use asynchstream.Exec.{Exec, Result, ok, err, too_deep, continue, ◌>>◌}
use asynchstream.Object.{Chunk, Namespace, Stream, instantiate}
use asynchstream.Meta.{
  new_class, synth_aread, synth_aread_batch, synth_awrite, synth_awrite_batch, synth_aclose,
  synth_aflush,
}
use asynchstream.Stream.{is_async_io_stream}
use asynchstream.Patch.{PyObject, attributes, patch_stream}
use asynchstream.Patch.Conformance.{speaks_io, patch_stream_conforms}
use asynchstream.Adapter.{adapter_body, adapter_class, wrap_stream, ensure_async_stream}

module _ {W : Type 0} (os_write : ℤ → Chunk → Exec W ℕ) (io_base : Namespace W) where
  adapter_class_conforms :
      (inner : Stream W) → is_async_io_stream (adapter_class os_write io_base inner) ≡ true
  unfolding adapter_body new_class synth_aread synth_aread_batch synth_awrite synth_awrite_batch
      synth_aclose synth_aflush
  adapter_class_conforms inner = refl

  -- What `wrap_stream` returns satisfies the protocol, for every stream.
  pub wrap_stream_conforms :
      (depth : ℕ) (stream : Namespace W)
      → is_async_io_stream (wrap_stream os_write io_base depth stream) ≡ true
  unfolding wrap_stream
  wrap_stream_conforms depth stream = elim (Bool-cases (is_async_io_stream stream)) [
    | inl e ↦ rw (e, wrap_stream) e
    | inr e ↦ rw (e, wrap_stream) (adapter_class_conforms (instantiate depth stream))
  ]

  -- A result that is an object satisfies the protocol.
  satisfies : Result (Namespace W) × PyObject W → Bool
  satisfies (ok n, o) = is_async_io_stream n
  satisfies (err e, o) = true
  satisfies (too_deep, o) = true

  -- Patching in place, where it succeeds, hands back the patched object.
  in_place_conforms :
      (loop : Bool) (o : PyObject W)
      → (o.cls_mutable ≡ true) ⊎ (speaks_io (attributes o) ≡ true)
      → (n : Namespace W) (o1 o' : PyObject W) (r : Result (Unit {0}))
      → patch_stream loop o ≡ (r, o1)
      → continue r (λ _ loop p. (ok (attributes p), p)) loop o1 ≡ (ok n, o')
      → is_async_io_stream n ≡ true
  in_place_conforms loop o h n o1 o' (ok u) e q =
      let c = (patch_stream_conforms loop o h (λ i. (e i).0)).0 in ground (arith, e)
  in_place_conforms loop o h n o1 o' (err x) e q = cc
  in_place_conforms loop o h n o1 o' too_deep e q = cc

  -- If `ensure_async_stream` is not to work in place, or the class takes new attributes, or the object can
  -- read, write, close and flush, then an object that it returns satisfies the protocol; and if it is not
  -- to work in place, the stream that it was given is unchanged.
  pub ensure_async_stream_conforms :
      (depth : ℕ) (in_place loop : Bool) (o o' : PyObject W) (n : Namespace W)
      → (in_place ≡ false) ⊎ ((o.cls_mutable ≡ true) ⊎ (speaks_io (attributes o) ≡ true))
      → ensure_async_stream os_write io_base depth in_place loop o ≡ (ok n, o')
      → (is_async_io_stream n ≡ true) × (in_place ≡ false → o' ≡ o)
  unfolding ensure_async_stream satisfies
  ensure_async_stream_conforms depth in_place loop o o' n h e =
      elim (Bool-cases (is_async_io_stream (attributes o))) [
        | inl t ↦ let q = rw t at e in (sym (ap satisfies q) ∙ t, λ _. sym (λ i. (q i).1))
        | inr f ↦ go in_place h (rw f at e)
      ]
    where
      go :
          (b : Bool)
          → (b ≡ false) ⊎ ((o.cls_mutable ≡ true) ⊎ (speaks_io (attributes o) ≡ true))
          → (if b
              then (do patch_stream; λ loop p. (ok (attributes p), p)) loop o
              else (ok (wrap_stream os_write io_base depth (attributes o)), o))
            ≡ (ok n, o')
          → (is_async_io_stream n ≡ true) × (b ≡ false → o' ≡ o)
      go true (inl h) q = cc
      go true (inr h) q = (
        in_place_conforms loop o h n (patch_stream loop o).1 o' (patch_stream loop o).0 refl q,
        λ z. cc,
      )
      go false h q = (
        sym (ap satisfies q) ∙ wrap_stream_conforms depth (attributes o),
        λ _. sym (λ i. (q i).1),
      )
