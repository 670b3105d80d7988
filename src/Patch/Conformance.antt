-- ===== src/Patch/Conformance.antt =====
-- py_native_io/patch.py: what `patch_stream` leaves of an object, and when it satisfies the protocol.
use asynchstream.Base.{
  ◌≡◌, refl, Bool, true, false, ◌&&◌, ◌||◌, ◌⊎◌, inl, inr, is_some, arith, Bool-cases,
}
use asynchstream.Exec.{ok, ◌>>◌}
use asynchstream.Object.{Namespace}
use asynchstream.Object.Extends.{Extends}
use asynchstream.Stream.{is_async_io_stream}
use asynchstream.Patch.{PyObject, attributes, patch_stream, add_methods, add_stubs}
use asynchstream.Patch.Tame.{Leads-refl, Tame, Tame-then}
use asynchstream.Patch.Steps.{add_methods-Tame, add_stubs-Tame}
use asynchstream.Patch.Presence.{
  patched_has_aread, patched_has_awrite, patched_has_aclose, patched_has_aflush,
  patched_has_asplice, patched_cls_has_aread, patched_cls_has_awrite, patched_cls_has_aclose,
  patched_cls_has_aflush, patched_cls_has_asplice,
}

-- The stream can read, write, close and flush, be it synchronously or not.
abbrev pub speaks_io : {W : Type 0} → Namespace W → Bool
speaks_io n =
    (is_some n.read || is_some n.aread)
    && ((is_some n.write || is_some n.awrite)
        && ((is_some n.close || is_some n.aclose) && (is_some n.flush || is_some n.aflush)))

all_four :
    (a b c d : Bool)
    → (a && (b && (c && d))) ≡ true
    → (a ≡ true) × (b ≡ true) × (c ≡ true) × (d ≡ true)
all_four a b c d h = ground arith

module _ {W : Type 0} where
  patch_stream-Tame : Tame {W = W} patch_stream
  unfolding patch_stream
  patch_stream-Tame = record {
    at = λ loop o. elim (Bool-cases (is_async_io_stream (attributes o))) [
      | inl e ↦ rw e (Leads-refl o (ok tt) (λ _. refl))
      | inr e ↦ rw e ((Tame-then _ _ add_methods-Tame add_stubs-Tame).at loop o)
    ];
  }

  -- `patch_stream` loses nothing, failing or not: whatever the object and its class had, they still have
  -- with the same definitions; and it succeeds on every object that takes attributes.
  pub patch_stream_keeps :
      (loop : Bool) (o : PyObject W)
      → let o' = (patch_stream loop o).1 in
        Extends (attributes o) (attributes o')
        × Extends o.cls o'.cls
        × (o.has_dict ≡ true → (patch_stream loop o).0 ≡ ok tt)
  patch_stream_keeps loop o =
      let l = patch_stream-Tame.at loop o in (l.extends, l.extends_cls, l.succeeds)

module _ {W : Type 0} (loop : Bool) (o : PyObject W) where
  abbrev patched : PyObject W
  patched = (patch_stream loop o).1

  -- The five methods by which the class of a patched object satisfies the protocol.
  cls_conforms :
      o.cls_mutable ≡ true
      → ((do add_methods; add_stubs) loop o).0 ≡ ok tt
      → is_async_io_stream ((do add_methods; add_stubs) loop o).1.cls ≡ true
  cls_conforms m e = ground (
    arith,
    patched_cls_has_aread.at loop o m e,
    patched_cls_has_awrite.at loop o m e,
    patched_cls_has_aclose.at loop o m e,
    patched_cls_has_aflush.at loop o m e,
    patched_cls_has_asplice.at loop o m e,
  )

  object_conforms :
      speaks_io (attributes o) ≡ true
      → ((do add_methods; add_stubs) loop o).0 ≡ ok tt
      → is_async_io_stream (attributes ((do add_methods; add_stubs) loop o).1) ≡ true
  object_conforms h e =
      let (r, w, c, f) = all_four _ _ _ _ h in
      ground (
        arith,
        patched_has_aread.at loop o r e,
        patched_has_awrite.at loop o w e,
        patched_has_aclose.at loop o c e,
        patched_has_aflush.at loop o f e,
        patched_has_asplice.at loop o refl e,
      )

  pub cls_gives :
      (p : PyObject W) → is_async_io_stream p.cls ≡ true → is_async_io_stream (attributes p) ≡ true
  cls_gives p h = ground arith

  pub patch_nothing : is_async_io_stream (attributes o) ≡ true → patch_stream loop o ≡ (ok tt, o)
  unfolding patch_stream
  patch_nothing h = rw h

  pub patch_everything :
      is_async_io_stream (attributes o) ≡ false
      → patch_stream loop o ≡ (do add_methods; add_stubs) loop o
  unfolding patch_stream
  patch_everything h = rw h

  conforms_after :
      (o.cls_mutable ≡ true) ⊎ (speaks_io (attributes o) ≡ true)
      → (patch_stream loop o).0 ≡ ok tt
      → is_async_io_stream (attributes patched) ≡ true
  conforms_after h e = elim (Bool-cases (is_async_io_stream (attributes o))) [
    | inl t ↦ rw (patch_nothing t, patched) t
    | inr f ↦ rw (patch_everything f, patched) (choose h (rw (patch_everything f) at e))
  ]
    where
      choose :
          (o.cls_mutable ≡ true) ⊎ (speaks_io (attributes o) ≡ true)
          → ((do add_methods; add_stubs) loop o).0 ≡ ok tt
          → is_async_io_stream (attributes ((do add_methods; add_stubs) loop o).1) ≡ true
      choose (inl m) q = cls_gives ((do add_methods; add_stubs) loop o).1 (cls_conforms m q)
      choose (inr s) q = object_conforms s q

  -- If the class takes new attributes and the object does not satisfy the protocol, then where
  -- `patch_stream` succeeds the class satisfies it too.
  pub cls_of_patched_conforms :
      o.cls_mutable ≡ true
      → is_async_io_stream (attributes o) ≡ false
      → (patch_stream loop o).0 ≡ ok tt
      → is_async_io_stream patched.cls ≡ true
  cls_of_patched_conforms m h e =
      rw (patch_everything h, patched) (cls_conforms m (rw (patch_everything h) at e))

-- If the class takes new attributes, or the object can already read, write, close and flush by
-- synchronous or async methods, then where `patch_stream` succeeds the object satisfies the protocol,
-- and patching it again succeeds and changes nothing.
pub patch_stream_conforms :
    {W : Type 0} (loop : Bool) (o : PyObject W)
    → (o.cls_mutable ≡ true) ⊎ (speaks_io (attributes o) ≡ true)
    → (patch_stream loop o).0 ≡ ok tt
    → let o' = (patch_stream loop o).1 in
      (is_async_io_stream (attributes o') ≡ true) × (patch_stream loop o' ≡ (ok tt, o'))
patch_stream_conforms loop o h e =
    let c = conforms_after loop o h e in (c, patch_nothing loop (patch_stream loop o).1 c)
