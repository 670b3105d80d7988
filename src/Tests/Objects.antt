-- ===== src/Tests/Objects.antt =====
-- The theorems on patched and wrapped objects, at small objects.
use asynchstream.Base.{ℕ, ◌≡◌, refl, Bool, true, false, some, [], ◌∷◌, ℤ, pos, inl}
use asynchstream.Exec.{Exec, ok, pure}
use asynchstream.Object.{Chunk, bytes, Namespace, empty}
use asynchstream.Object.Extends.{Extends}
use asynchstream.Stream.{is_async_io_stream}
use asynchstream.Patch.{PyObject, attributes, patch_stream}
use asynchstream.Patch.Conformance.{patch_stream_keeps, patch_stream_conforms}
use asynchstream.Patch.Siblings.{IsBlind, sibling, patch_stream_shadows}
use asynchstream.Object.{instantiate}
use asynchstream.Exec.{call, err, unsupported_operation}
use asynchstream.Adapter.{wrap_stream, ensure_async_stream}
use asynchstream.Adapter.Delegation.{ensure_async_stream_conforms}

-- A third-party class with `read` and `close` only, and an object of it.
abbrev legacy_cls : Namespace ℕ
legacy_cls = record empty {
  read = some (λ self size. pure (bytes (1 ∷ [])));
  close = some (λ self. pure tt);
}

abbrev legacy : PyObject ℕ
legacy = record { instance_dict = empty; cls = legacy_cls; cls_mutable = true; has_dict = true }

-- An object of a built-in class, which takes no attributes.
abbrev sealed : PyObject ℕ
sealed = record legacy { cls_mutable = false; has_dict = false }

legacy_patched : (patch_stream true legacy).0 ≡ ok tt
legacy_patched = (patch_stream_keeps true legacy).2 refl

patch_stream_keeps_example :
    let o = (patch_stream true sealed).1 in
    Extends (attributes sealed) (attributes o)
    × Extends legacy_cls o.cls
    × (false ≡ true → (patch_stream true sealed).0 ≡ ok tt)
patch_stream_keeps_example = patch_stream_keeps true sealed

patch_stream_conforms_example :
    let o = (patch_stream true legacy).1 in
    (is_async_io_stream (attributes o) ≡ true) × (patch_stream true o ≡ (ok tt, o))
patch_stream_conforms_example = patch_stream_conforms true legacy (inl refl) legacy_patched

abbrev os_write : ℤ → Chunk → Exec ℕ ℕ
os_write n b = pure 0

abbrev wrapped : Namespace ℕ
wrapped = wrap_stream os_write empty 3 legacy_cls

ensure_wraps : ensure_async_stream os_write empty 3 false true legacy ≡ (ok wrapped, legacy)
unfolding ensure_async_stream
ensure_wraps = refl

ensure_async_stream_conforms_example :
    (is_async_io_stream wrapped ≡ true) × (◌≡◌ {A = Bool} false false → legacy ≡ legacy)
ensure_async_stream_conforms_example =
    ensure_async_stream_conforms os_write empty 3 false true legacy legacy wrapped (inl refl)
      ensure_wraps

-- A class with `close` only, an object of it, and another that has its own `read`.
abbrev closer : PyObject ℕ
closer = record legacy { cls = record empty { close = some (λ self. pure tt) } }

abbrev own_read : Namespace ℕ
own_read = record empty { read = some (λ self size. pure (bytes (1 ∷ []))) }

closer-IsBlind : IsBlind closer
closer-IsBlind = record { no_read = refl; no_cls_read = refl; no_aread = refl; no_cls_aread = refl }

patch_stream_shadows_example :
    let o = sibling true closer refl refl closer-IsBlind own_read in
    let s = instantiate 1 (attributes o) in
    (patch_stream true o ≡ (ok tt, o))
    × (call s.read (pos 5) true 0 ≡ (ok (bytes (1 ∷ [])), 0))
    × (call s.aread (pos 5) true 0 ≡ (err unsupported_operation, 0))
patch_stream_shadows_example =
    patch_stream_shadows true closer refl refl closer-IsBlind own_read _ refl refl 0 (pos 5) true 0
