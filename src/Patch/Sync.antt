-- ===== src/Patch/Sync.antt =====
-- py_native_io/patch.py: what `patch_stream` makes of a synchronous stream.
use asynchstream.Base.{
  ℕ, ℤ, ◌≡◌, refl, ◌∙◌, Bool, true, false, Bool-cases, inl, inr, none, some, first,
}
use asynchstream.Exec.{Exec, ok, ◌>>◌}
use asynchstream.Object.{Chunk, Namespace, inherit}
use asynchstream.Stream.{is_async_io_stream}
use asynchstream.Patch.Conformance.{patch_everything}
use asynchstream.Patch.{
  PyObject, attributes, install, install_stub, add_methods, add_stubs, patch_stream, patched_aread,
  patched_aread_batch, patched_awrite, patched_awrite_batch, patched_aclose, patched_aflush,
  patched_asplice, lacks_aread, lacks_aread_batch, lacks_awrite, lacks_awrite_batch, lacks_aclose,
  lacks_aflush, lacks_asplice,
}

-- A stream with the synchronous methods, which call none of its others, and with none of the async ones.
pub record IsSync {W : Type 0} (d c : Namespace W) : Type 0 where
  pub read : ℤ → Exec W Chunk
  pub write : Chunk → Exec W ℕ
  pub close : Exec W Unit
  pub flush : Exec W Unit
  pub has_read : first d.read c.read ≡ some (λ self. read)
  pub has_write : first d.write c.write ≡ some (λ self. write)
  pub has_close : first d.close c.close ≡ some (λ self. close)
  pub has_flush : first d.flush c.flush ≡ some (λ self. flush)
  pub no_aread : (d.aread ≡ none) × (c.aread ≡ none)
  pub no_aread_batch : (d.aread_batch ≡ none) × (c.aread_batch ≡ none)
  pub no_awrite : (d.awrite ≡ none) × (c.awrite ≡ none)
  pub no_awrite_batch : (d.awrite_batch ≡ none) × (c.awrite_batch ≡ none)
  pub no_aclose : (d.aclose ≡ none) × (c.aclose ≡ none)
  pub no_aflush : (d.aflush ≡ none) × (c.aflush ≡ none)
  pub no_asplice : (d.asplice ≡ none) × (c.asplice ≡ none)

abbrev pub object_of : {W : Type 0} → Bool → Namespace W → Namespace W → PyObject W
object_of mutable d c = record {
  instance_dict = d;
  cls = c;
  cls_mutable = mutable;
  has_dict = true;
}

module _ {W : Type 0} where
  -- One assignment each, as the steps of `patch_stream` make them.
  abbrev with_aread : Namespace W → Namespace W
  with_aread n = record n { aread = some patched_aread }

  abbrev with_aread_batch : Namespace W → Namespace W
  with_aread_batch n = record n { aread_batch = some patched_aread_batch }

  abbrev with_awrite : Namespace W → Namespace W
  with_awrite n = record n { awrite = some patched_awrite }

  abbrev with_awrite_batch : Namespace W → Namespace W
  with_awrite_batch n = record n { awrite_batch = some patched_awrite_batch }

  abbrev with_aclose : Namespace W → Namespace W
  with_aclose n = record n { aclose = some patched_aclose }

  abbrev with_aflush : Namespace W → Namespace W
  with_aflush n = record n { aflush = some patched_aflush }

  abbrev with_asplice : Namespace W → Namespace W
  with_asplice n = record n { asplice = some patched_asplice }

  -- The attributes of the stream, with the seven that `patch_stream` makes.
  abbrev pub with_methods : Namespace W → Namespace W
  with_methods n = with_asplice (
      with_aflush (with_aclose (with_awrite_batch (with_awrite (with_aread_batch (with_aread n))))))

module _ {W : Type 0} (loop : Bool) where
  then_lem :
      (m n : Exec (PyObject W) Unit) (o o1 : PyObject W)
      → m loop o ≡ (ok tt, o1)
      → (m >> n) loop o ≡ n loop o1
  then_lem m n o o1 h = rw h

  -- One assignment that its test lets through, by whether the class takes attributes.
  install-immutable :
      (test : Namespace W → Bool) (put : Namespace W → Namespace W) (d c : Namespace W)
      → test (inherit d c) ≡ true
      → install test put loop (object_of false d c) ≡ (ok tt, object_of false (put d) c)
  unfolding install
  install-immutable test put d c h = rw h

  install-mutable :
      (test : Namespace W → Bool) (put : Namespace W → Namespace W) (d c : Namespace W)
      → test (inherit d c) ≡ true
      → install test put loop (object_of true d c) ≡ (ok tt, object_of true (put d) (put c))
  unfolding install
  install-mutable test put d c h = rw h

  install_stub-immutable :
      (missing : Namespace W → Bool) (put : Namespace W → Namespace W) (d c : Namespace W)
      → install_stub missing put loop (object_of false d c) ≡ (ok tt, object_of false d c)
  unfolding install_stub
  install_stub-immutable missing put d c = elim (Bool-cases (missing c)) [
    | inl e ↦ rw e
    | inr e ↦ rw e
  ]

  add_stubs-immutable :
      (d c : Namespace W) → add_stubs loop (object_of false d c) ≡ (ok tt, object_of false d c)
  unfolding add_stubs
  add_stubs-immutable d c = simp install_stub-immutable

module _ {W : Type 0} (d c : Namespace W) (sync : IsSync d c) where
  pub not_yet : (mutable : Bool) → is_async_io_stream (attributes (object_of mutable d c)) ≡ false
  not_yet mutable = rw (sync.no_aread.0, sync.no_aread.1) refl

-- The names that a step assigns are in neither dictionary, and the earlier steps assign others.
module _ {W : Type 0} (d c : Namespace W) (sync : IsSync d c) (loop : Bool) where
  add_methods-immutable :
      add_methods loop (object_of false d c) ≡ (ok tt, object_of false (with_methods d) c)
  unfolding add_methods
  add_methods-immutable =
      rw
        (
          install-immutable loop lacks_aread with_aread d c
              (rw (sync.has_read, sync.no_aread.0, sync.no_aread.1) refl),
          install-immutable loop lacks_aread_batch with_aread_batch (with_aread d) c
              (rw (sync.no_aread_batch.0, sync.no_aread_batch.1) refl),
          install-immutable loop lacks_awrite with_awrite (with_aread_batch (with_aread d)) c
              (rw (sync.has_write, sync.no_awrite.0, sync.no_awrite.1) refl),
          install-immutable loop lacks_awrite_batch with_awrite_batch
              (with_awrite (with_aread_batch (with_aread d))) c
              (rw (sync.no_awrite_batch.0, sync.no_awrite_batch.1) refl),
          install-immutable loop lacks_aclose with_aclose
              (with_awrite_batch (with_awrite (with_aread_batch (with_aread d)))) c
              (rw (sync.has_close, sync.no_aclose.0, sync.no_aclose.1) refl),
          install-immutable loop lacks_aflush with_aflush
              (with_aclose (with_awrite_batch (with_awrite (with_aread_batch (with_aread d))))) c
              (rw (sync.has_flush, sync.no_aflush.0, sync.no_aflush.1) refl),
          install-immutable loop lacks_asplice with_asplice
              (with_aflush
                (with_aclose (with_awrite_batch (with_awrite (with_aread_batch (with_aread d))))))
              c (rw (sync.no_asplice.0, sync.no_asplice.1) refl),
        )
        refl

  add_methods-mutable :
      add_methods loop (object_of true d c)
      ≡ (ok tt, object_of true (with_methods d) (with_methods c))
  unfolding add_methods
  add_methods-mutable =
      rw
        (
          install-mutable loop lacks_aread with_aread d c
              (rw (sync.has_read, sync.no_aread.0, sync.no_aread.1) refl),
          install-mutable loop lacks_aread_batch with_aread_batch (with_aread d) (with_aread c)
              (rw (sync.no_aread_batch.0, sync.no_aread_batch.1) refl),
          install-mutable loop lacks_awrite with_awrite (with_aread_batch (with_aread d))
              (with_aread_batch (with_aread c))
              (rw (sync.has_write, sync.no_awrite.0, sync.no_awrite.1) refl),
          install-mutable loop lacks_awrite_batch with_awrite_batch
              (with_awrite (with_aread_batch (with_aread d)))
              (with_awrite (with_aread_batch (with_aread c)))
              (rw (sync.no_awrite_batch.0, sync.no_awrite_batch.1) refl),
          install-mutable loop lacks_aclose with_aclose
              (with_awrite_batch (with_awrite (with_aread_batch (with_aread d))))
              (with_awrite_batch (with_awrite (with_aread_batch (with_aread c))))
              (rw (sync.has_close, sync.no_aclose.0, sync.no_aclose.1) refl),
          install-mutable loop lacks_aflush with_aflush
              (with_aclose (with_awrite_batch (with_awrite (with_aread_batch (with_aread d)))))
              (with_aclose (with_awrite_batch (with_awrite (with_aread_batch (with_aread c)))))
              (rw (sync.has_flush, sync.no_aflush.0, sync.no_aflush.1) refl),
          install-mutable loop lacks_asplice with_asplice
              (with_aflush
                (with_aclose (with_awrite_batch (with_awrite (with_aread_batch (with_aread d))))))
              (with_aflush
                (with_aclose (with_awrite_batch (with_awrite (with_aread_batch (with_aread c))))))
              (rw (sync.no_asplice.0, sync.no_asplice.1) refl),
        )
        refl

  add_stubs-mutable :
      add_stubs loop (object_of true (with_methods d) (with_methods c))
      ≡ (ok tt, object_of true (with_methods d) (with_methods c))
  unfolding add_stubs install_stub
  add_stubs-mutable = refl

  pub patch_stream-mutable :
      patch_stream loop (object_of true d c)
      ≡ (ok tt, object_of true (with_methods d) (with_methods c))
  patch_stream-mutable =
      patch_everything loop (object_of true d c) (not_yet d c sync true)
      ∙ then_lem loop add_methods add_stubs (object_of true d c) _ add_methods-mutable
      ∙ add_stubs-mutable

  pub patch_stream-immutable :
      patch_stream loop (object_of false d c) ≡ (ok tt, object_of false (with_methods d) c)
  patch_stream-immutable =
      patch_everything loop (object_of false d c) (not_yet d c sync false)
      ∙ then_lem loop add_methods add_stubs (object_of false d c) _ add_methods-immutable
      ∙ add_stubs-immutable loop (with_methods d) c
