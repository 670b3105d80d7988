-- ===== src/Patch/Siblings.antt =====
-- py_native_io/patch.py: what patching one object does to the other objects of its class.
use asynchstream.Base.{
  ℕ, suc, ℤ, ◌≡◌, refl, ap, sym, ◌∙◌, Bool, true, false, not, Bool-cases, inl, inr, none, some,
  is_some,
}
use asynchstream.Exec.{Exec, Result, ok, err, too_deep, unsupported_operation, continue, call, ◌>>◌}
use asynchstream.Object.{Chunk, Method, Namespace, instantiate}
use asynchstream.Object.Extends.{Extends}
use asynchstream.Stream.{is_async_io_stream}
use asynchstream.Patch.{
  PyObject, attributes, install, install_stub, set_on_class, set_on_instance, lacks_aread,
  lacks_aread_batch, lacks_awrite, lacks_awrite_batch, lacks_aclose, lacks_aflush, lacks_asplice,
  add_methods, add_stubs, patch_stream, patched_aread, aread_stub, awrite_stub, call_stub,
  asplice_stub,
}
use asynchstream.Patch.Tame.{Tame-then, install_stub-Tame}
use asynchstream.Patch.Steps.{
  IsStub-awrite, IsStub-aclose, IsStub-aflush, IsStub-asplice, add_methods-Tame,
}
use asynchstream.Patch.Conformance.{
  patch_everything, patch_nothing, cls_gives, cls_of_patched_conforms, patch_stream_keeps,
}

-- Neither the object nor its class has `read` or `aread`.
pub record IsBlind {W : Type 0} (o : PyObject W) : Type 0 where
  pub no_read : o.instance_dict.read ≡ none
  pub no_cls_read : o.cls.read ≡ none
  pub no_aread : o.instance_dict.aread ≡ none
  pub no_cls_aread : o.cls.aread ≡ none

-- An action that leaves such an object such an object.
record KeepsBlind {W : Type 0} (m : Exec (PyObject W) Unit) : Type 0 where
  at : (loop : Bool) (o : PyObject W) → IsBlind o → IsBlind (m loop o).1

module _ {W : Type 0} where
  KeepsBlind-then :
      (m n : Exec (PyObject W) Unit) → KeepsBlind m → KeepsBlind n → KeepsBlind (m >> n)
  KeepsBlind-then m n a b = record {
    at = λ loop o h. go loop (m loop o).0 (m loop o).1 (a.at loop o h);
  }
    where
      go :
          (loop : Bool) (r : Result (Unit {0})) (o : PyObject W)
          → IsBlind o
          → IsBlind (continue r (λ _. n) loop o).1
      go loop (ok u) o h = b.at loop o h
      go loop (err e) o h = h
      go loop too_deep o h = h

  -- An assignment of any other name.
  module _ (test : Namespace W → Bool) (put : Namespace W → Namespace W)
      (keeps_read : (n : Namespace W) → (put n).read ≡ n.read)
      (keeps_aread : (n : Namespace W) → (put n).aread ≡ n.aread) (loop : Bool) where
    set-IsBlind :
        (a b : Namespace W) (m d : Bool)
        → let o : PyObject W = record {
          instance_dict = a;
          cls = b;
          cls_mutable = m;
          has_dict = d;
        } in
          IsBlind o → IsBlind (set_on_instance put loop (set_on_class put o)).1
    unfolding set_on_class set_on_instance
    set-IsBlind a b true true h = record {
      no_read = keeps_read a ∙ h.no_read;
      no_cls_read = keeps_read b ∙ h.no_cls_read;
      no_aread = keeps_aread a ∙ h.no_aread;
      no_cls_aread = keeps_aread b ∙ h.no_cls_aread;
    }
    set-IsBlind a b true false h = record {
      no_read = h.no_read;
      no_cls_read = keeps_read b ∙ h.no_cls_read;
      no_aread = h.no_aread;
      no_cls_aread = keeps_aread b ∙ h.no_cls_aread;
    }
    set-IsBlind a b false true h = record {
      no_read = keeps_read a ∙ h.no_read;
      no_cls_read = h.no_cls_read;
      no_aread = keeps_aread a ∙ h.no_aread;
      no_cls_aread = h.no_cls_aread;
    }
    set-IsBlind a b false false h = h

    install-IsBlind : (o : PyObject W) → IsBlind o → IsBlind (install test put loop o).1
    unfolding install
    install-IsBlind o h = elim (Bool-cases (test (attributes o))) [
      | inr e ↦ rw e h
      | inl e ↦ rw e (set-IsBlind o.instance_dict o.cls o.cls_mutable o.has_dict h)
    ]

  install-KeepsBlind :
      (test : Namespace W → Bool) (put : Namespace W → Namespace W)
      → ((n : Namespace W) → (put n).read ≡ n.read)
      → ((n : Namespace W) → (put n).aread ≡ n.aread)
      → KeepsBlind (install test put)
  install-KeepsBlind test put kr ka = record {
    at = λ loop o h. install-IsBlind test put kr ka loop o h;
  }

  -- There is nothing to make `aread` of.
  install_aread-KeepsBlind :
      KeepsBlind {W = W} (install lacks_aread (λ n. record n { aread = some patched_aread }))
  unfolding install
  install_aread-KeepsBlind = record { at = λ loop o h. rw (lacks_none o h) h }
    where
      lacks_none : (o : PyObject W) → IsBlind o → lacks_aread (attributes o) ≡ false
      lacks_none o h = rw (h.no_read, h.no_cls_read) refl

  add_methods-KeepsBlind : KeepsBlind {W = W} add_methods
  unfolding add_methods
  add_methods-KeepsBlind = KeepsBlind-then _ _ install_aread-KeepsBlind (
      KeepsBlind-then _ _ (install-KeepsBlind lacks_aread_batch _ (λ n. refl) (λ n. refl)) (
        KeepsBlind-then _ _ (install-KeepsBlind lacks_awrite _ (λ n. refl) (λ n. refl)) (
          KeepsBlind-then _ _ (install-KeepsBlind lacks_awrite_batch _ (λ n. refl) (λ n. refl)) (
            KeepsBlind-then _ _ (install-KeepsBlind lacks_aclose _ (λ n. refl) (λ n. refl)) (
              KeepsBlind-then _ _ (install-KeepsBlind lacks_aflush _ (λ n. refl) (λ n. refl))
                (install-KeepsBlind lacks_asplice _ (λ n. refl) (λ n. refl)))))))

  -- What a namespace defines, one that extends it defines in the same way.
  aread-Extends : (a b : Namespace W) (f : _) → Extends a b → a.aread ≡ some f → b.aread ≡ some f
  aread-Extends a b f e h = sym (ap (λ n. n.aread) e) ∙ rw h refl

  abbrev with_stub : PyObject W → PyObject W
  with_stub o = record o { cls = record o.cls { aread = some aread_stub } }

  install_stub-aread :
      (loop : Bool) (o : PyObject W)
      → o.cls_mutable ≡ true
      → o.cls.aread ≡ none
      → install_stub (λ n. not (is_some n.aread)) (λ n. record n { aread = some aread_stub }) loop o
        ≡ (ok tt, with_stub o)
  unfolding install_stub set_on_class
  install_stub-aread loop o m n = rw (missing, m) refl
    where
      missing : not (is_some o.cls.aread) ≡ true
      missing = rw n refl

  add_stubs-aread :
      (loop : Bool) (o : PyObject W)
      → o.cls_mutable ≡ true
      → o.cls.aread ≡ none
      → (add_stubs loop o).1.cls.aread ≡ some aread_stub
  unfolding add_stubs
  add_stubs-aread loop o m n =
      let others = Tame-then _ _ (install_stub-Tame (IsStub-awrite awrite_stub)) (
        Tame-then _ _ (install_stub-Tame (IsStub-aclose call_stub)) (
          Tame-then _ _ (install_stub-Tame (IsStub-aflush call_stub))
            (install_stub-Tame (IsStub-asplice asplice_stub)))) in
      rw (install_stub-aread loop o m n) (
        aread-Extends (with_stub o).cls _ aread_stub (others.at loop (with_stub o)).extends_cls
          refl)

  not_conforming : (o : PyObject W) → IsBlind o → is_async_io_stream (attributes o) ≡ false
  not_conforming o b = rw (b.no_aread, b.no_cls_aread) refl

  patched_cls_aread :
      (loop : Bool) (o : PyObject W)
      → o.cls_mutable ≡ true
      → o.has_dict ≡ true
      → IsBlind o
      → (patch_stream loop o).1.cls.aread ≡ some aread_stub
  patched_cls_aread loop o m d b =
      let o1 = (add_methods loop o).1 in
      let l = add_methods-Tame.at loop o in
      rw (patch_everything loop o (not_conforming o b), l.succeeds d)
        (add_stubs-aread loop o1 (l.mutable ∙ m) (add_methods-KeepsBlind.at loop o b).no_cls_aread)

module _ {W : Type 0} (loop : Bool) (o : PyObject W) (m : o.cls_mutable ≡ true)
    (d : o.has_dict ≡ true) (b : IsBlind o) where
  -- Another object of the class, after `o` was patched.
  abbrev pub sibling : Namespace W → PyObject W
  sibling own = record {
    instance_dict = own;
    cls = (patch_stream loop o).1.cls;
    cls_mutable = true;
    has_dict = true;
  }

  -- Where an object and its class, which both take attributes, have neither `read` nor `aread`, and another
  -- object of the class has a `read` of its own and no `aread` of its own: after `patch_stream` on the
  -- first, `patch_stream` on the other does nothing, its `read` is still its own, and its `aread` raises
  -- UnsupportedOperation.
  pub patch_stream_shadows :
      (own : Namespace W) (r : Method W (ℤ → Exec W Chunk))
      → own.read ≡ some r
      → own.aread ≡ none
      → (depth : ℕ) (size : ℤ) (running : Bool) (w : W)
      → let s = instantiate (suc depth) (attributes (sibling own)) in
        (patch_stream loop (sibling own) ≡ (ok tt, sibling own))
        × (call s.read size running w
            ≡ r (instantiate depth (attributes (sibling own))) size running w)
        × (call s.aread size running w ≡ (err unsupported_operation, w))
  unfolding instantiate aread_stub
  patch_stream_shadows own r hr ha depth size running w =
      let c =
        cls_of_patched_conforms loop o m (not_conforming o b) ((patch_stream_keeps loop o).2 d) in
      (
        patch_nothing loop (sibling own) (cls_gives loop (sibling own) (sibling own) c),
        rw hr refl,
        rw (ha, patched_cls_aread loop o m d b) refl,
      )
