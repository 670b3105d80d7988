-- ===== src/Patch/Presence.antt =====
-- py_native_io/patch.py: the five methods of the protocol, each after the whole of `patch_stream`.
use asynchstream.Base.{not, some, is_some, arith}
use asynchstream.Exec.{◌>>◌}
use asynchstream.Patch.{
  add_methods, add_stubs, install, install_stub, set_on_class, set_on_instance, patched_aread,
  patched_aread_batch, patched_awrite, patched_awrite_batch, patched_aclose, patched_aflush,
  patched_asplice, aread_stub, awrite_stub, call_stub, asplice_stub, lacks_aread, lacks_awrite,
  lacks_aclose, lacks_aflush, lacks_asplice,
}
use asynchstream.Patch.Tame.{Tame-then, install-Tame, install_stub-Tame}
use asynchstream.Patch.Steps.{
  IsPut-aread, IsPut-aread_batch, IsPut-awrite, IsPut-awrite_batch, IsPut-aclose, IsPut-aflush,
  IsPut-asplice, IsStub-aread, IsStub-awrite, IsStub-aclose, IsStub-aflush, IsStub-asplice,
  add_methods-Tame, add_stubs-Tame,
}
use asynchstream.Patch.Gives
use asynchstream.Patch.Gives.{
  Gives, Gives-first, Gives-later, is_mutable, any_object, is_mutable-IsStable, any_object-IsStable,
}

-- An assignment, or a stub, leaves its attribute behind.
module _ {W : Type 0} where
  install_aread :
      Gives {W = W} Gives.can_read Gives.has_aread
        (install lacks_aread (λ n. record n { aread = some patched_aread }))
  unfolding install set_on_class set_on_instance
  install_aread = record { at = λ loop o h e. ground arith }

  stub-Gives_aread :
      Gives {W = W} is_mutable Gives.cls_has_aread
        (install_stub (λ n. not (is_some n.aread)) (λ n. record n { aread = some aread_stub }))
  unfolding install_stub set_on_class
  stub-Gives_aread = record { at = λ loop o h e. ground arith }

  pub patched_has_aread : Gives {W = W} Gives.can_read Gives.has_aread (do add_methods; add_stubs)
  unfolding add_methods
  patched_has_aread =
      Gives-first Gives.can_read Gives.has_aread _ _ Gives.has_aread-IsStable
        (Gives-first Gives.can_read Gives.has_aread _ _ Gives.has_aread-IsStable install_aread (
          Tame-then _ _ (install-Tame (IsPut-aread_batch patched_aread_batch)) (
            Tame-then _ _ (install-Tame (IsPut-awrite patched_awrite)) (
              Tame-then _ _ (install-Tame (IsPut-awrite_batch patched_awrite_batch)) (
                Tame-then _ _ (install-Tame (IsPut-aclose patched_aclose)) (
                  Tame-then _ _ (install-Tame (IsPut-aflush patched_aflush))
                    (install-Tame (IsPut-asplice patched_asplice))))))))
        add_stubs-Tame

  pub patched_cls_has_aread :
      Gives {W = W} is_mutable Gives.cls_has_aread (do add_methods; add_stubs)
  unfolding add_stubs
  patched_cls_has_aread =
      Gives-later is_mutable Gives.cls_has_aread _ _ is_mutable-IsStable add_methods-Tame (
        Gives-first is_mutable Gives.cls_has_aread _ _ Gives.cls_has_aread-IsStable stub-Gives_aread
          (Tame-then _ _ (install_stub-Tame (IsStub-awrite awrite_stub)) (
            Tame-then _ _ (install_stub-Tame (IsStub-aclose call_stub)) (
              Tame-then _ _ (install_stub-Tame (IsStub-aflush call_stub))
                (install_stub-Tame (IsStub-asplice asplice_stub))))))

  install_awrite :
      Gives {W = W} Gives.can_write Gives.has_awrite
        (install lacks_awrite (λ n. record n { awrite = some patched_awrite }))
  unfolding install set_on_class set_on_instance
  install_awrite = record { at = λ loop o h e. ground arith }

  stub-Gives_awrite :
      Gives {W = W} is_mutable Gives.cls_has_awrite
        (install_stub (λ n. not (is_some n.awrite)) (λ n. record n { awrite = some awrite_stub }))
  unfolding install_stub set_on_class
  stub-Gives_awrite = record { at = λ loop o h e. ground arith }

  pub patched_has_awrite :
      Gives {W = W} Gives.can_write Gives.has_awrite (do add_methods; add_stubs)
  unfolding add_methods
  patched_has_awrite =
      Gives-first Gives.can_write Gives.has_awrite _ _ Gives.has_awrite-IsStable
        (Gives-later Gives.can_write Gives.has_awrite _ _ Gives.can_write-IsStable
          (install-Tame (IsPut-aread patched_aread))
          (Gives-later Gives.can_write Gives.has_awrite _ _ Gives.can_write-IsStable
            (install-Tame (IsPut-aread_batch patched_aread_batch))
            (Gives-first Gives.can_write Gives.has_awrite _ _ Gives.has_awrite-IsStable
              install_awrite
              (Tame-then _ _ (install-Tame (IsPut-awrite_batch patched_awrite_batch)) (
                Tame-then _ _ (install-Tame (IsPut-aclose patched_aclose)) (
                  Tame-then _ _ (install-Tame (IsPut-aflush patched_aflush))
                    (install-Tame (IsPut-asplice patched_asplice))))))))
        add_stubs-Tame

  pub patched_cls_has_awrite :
      Gives {W = W} is_mutable Gives.cls_has_awrite (do add_methods; add_stubs)
  unfolding add_stubs
  patched_cls_has_awrite =
      Gives-later is_mutable Gives.cls_has_awrite _ _ is_mutable-IsStable add_methods-Tame (
        Gives-later is_mutable Gives.cls_has_awrite _ _ is_mutable-IsStable
          (install_stub-Tame (IsStub-aread aread_stub))
          (Gives-first is_mutable Gives.cls_has_awrite _ _ Gives.cls_has_awrite-IsStable
            stub-Gives_awrite
            (Tame-then _ _ (install_stub-Tame (IsStub-aclose call_stub)) (
              Tame-then _ _ (install_stub-Tame (IsStub-aflush call_stub))
                (install_stub-Tame (IsStub-asplice asplice_stub))))))

  install_aclose :
      Gives {W = W} Gives.can_close Gives.has_aclose
        (install lacks_aclose (λ n. record n { aclose = some patched_aclose }))
  unfolding install set_on_class set_on_instance
  install_aclose = record { at = λ loop o h e. ground arith }

  stub-Gives_aclose :
      Gives {W = W} is_mutable Gives.cls_has_aclose
        (install_stub (λ n. not (is_some n.aclose)) (λ n. record n { aclose = some call_stub }))
  unfolding install_stub set_on_class
  stub-Gives_aclose = record { at = λ loop o h e. ground arith }

  pub patched_has_aclose :
      Gives {W = W} Gives.can_close Gives.has_aclose (do add_methods; add_stubs)
  unfolding add_methods
  patched_has_aclose =
      Gives-first Gives.can_close Gives.has_aclose _ _ Gives.has_aclose-IsStable
        (Gives-later Gives.can_close Gives.has_aclose _ _ Gives.can_close-IsStable
          (install-Tame (IsPut-aread patched_aread))
          (Gives-later Gives.can_close Gives.has_aclose _ _ Gives.can_close-IsStable
            (install-Tame (IsPut-aread_batch patched_aread_batch))
            (Gives-later Gives.can_close Gives.has_aclose _ _ Gives.can_close-IsStable
              (install-Tame (IsPut-awrite patched_awrite))
              (Gives-later Gives.can_close Gives.has_aclose _ _ Gives.can_close-IsStable
                (install-Tame (IsPut-awrite_batch patched_awrite_batch))
                (Gives-first Gives.can_close Gives.has_aclose _ _ Gives.has_aclose-IsStable
                  install_aclose
                  (Tame-then _ _ (install-Tame (IsPut-aflush patched_aflush))
                    (install-Tame (IsPut-asplice patched_asplice))))))))
        add_stubs-Tame

  pub patched_cls_has_aclose :
      Gives {W = W} is_mutable Gives.cls_has_aclose (do add_methods; add_stubs)
  unfolding add_stubs
  patched_cls_has_aclose =
      Gives-later is_mutable Gives.cls_has_aclose _ _ is_mutable-IsStable add_methods-Tame (
        Gives-later is_mutable Gives.cls_has_aclose _ _ is_mutable-IsStable
          (install_stub-Tame (IsStub-aread aread_stub))
          (Gives-later is_mutable Gives.cls_has_aclose _ _ is_mutable-IsStable
            (install_stub-Tame (IsStub-awrite awrite_stub))
            (Gives-first is_mutable Gives.cls_has_aclose _ _ Gives.cls_has_aclose-IsStable
              stub-Gives_aclose
              (Tame-then _ _ (install_stub-Tame (IsStub-aflush call_stub))
                (install_stub-Tame (IsStub-asplice asplice_stub))))))

  install_aflush :
      Gives {W = W} Gives.can_flush Gives.has_aflush
        (install lacks_aflush (λ n. record n { aflush = some patched_aflush }))
  unfolding install set_on_class set_on_instance
  install_aflush = record { at = λ loop o h e. ground arith }

  stub-Gives_aflush :
      Gives {W = W} is_mutable Gives.cls_has_aflush
        (install_stub (λ n. not (is_some n.aflush)) (λ n. record n { aflush = some call_stub }))
  unfolding install_stub set_on_class
  stub-Gives_aflush = record { at = λ loop o h e. ground arith }

  pub patched_has_aflush :
      Gives {W = W} Gives.can_flush Gives.has_aflush (do add_methods; add_stubs)
  unfolding add_methods
  patched_has_aflush =
      Gives-first Gives.can_flush Gives.has_aflush _ _ Gives.has_aflush-IsStable
        (Gives-later Gives.can_flush Gives.has_aflush _ _ Gives.can_flush-IsStable
          (install-Tame (IsPut-aread patched_aread))
          (Gives-later Gives.can_flush Gives.has_aflush _ _ Gives.can_flush-IsStable
            (install-Tame (IsPut-aread_batch patched_aread_batch))
            (Gives-later Gives.can_flush Gives.has_aflush _ _ Gives.can_flush-IsStable
              (install-Tame (IsPut-awrite patched_awrite))
              (Gives-later Gives.can_flush Gives.has_aflush _ _ Gives.can_flush-IsStable
                (install-Tame (IsPut-awrite_batch patched_awrite_batch))
                (Gives-later Gives.can_flush Gives.has_aflush _ _ Gives.can_flush-IsStable
                  (install-Tame (IsPut-aclose patched_aclose))
                  (Gives-first Gives.can_flush Gives.has_aflush _ _ Gives.has_aflush-IsStable
                    install_aflush (install-Tame (IsPut-asplice patched_asplice))))))))
        add_stubs-Tame

  pub patched_cls_has_aflush :
      Gives {W = W} is_mutable Gives.cls_has_aflush (do add_methods; add_stubs)
  unfolding add_stubs
  patched_cls_has_aflush =
      Gives-later is_mutable Gives.cls_has_aflush _ _ is_mutable-IsStable add_methods-Tame (
        Gives-later is_mutable Gives.cls_has_aflush _ _ is_mutable-IsStable
          (install_stub-Tame (IsStub-aread aread_stub))
          (Gives-later is_mutable Gives.cls_has_aflush _ _ is_mutable-IsStable
            (install_stub-Tame (IsStub-awrite awrite_stub))
            (Gives-later is_mutable Gives.cls_has_aflush _ _ is_mutable-IsStable
              (install_stub-Tame (IsStub-aclose call_stub))
              (Gives-first is_mutable Gives.cls_has_aflush _ _ Gives.cls_has_aflush-IsStable
                stub-Gives_aflush (install_stub-Tame (IsStub-asplice asplice_stub))))))

  install_asplice :
      Gives {W = W} any_object Gives.has_asplice
        (install lacks_asplice (λ n. record n { asplice = some patched_asplice }))
  unfolding install set_on_class set_on_instance
  install_asplice = record { at = λ loop o h e. ground arith }

  stub-Gives_asplice :
      Gives {W = W} is_mutable Gives.cls_has_asplice (
        install_stub (λ n. not (is_some n.asplice)) (λ n. record n { asplice = some asplice_stub }))
  unfolding install_stub set_on_class
  stub-Gives_asplice = record { at = λ loop o h e. ground arith }

  pub patched_has_asplice : Gives {W = W} any_object Gives.has_asplice (do add_methods; add_stubs)
  unfolding add_methods
  patched_has_asplice =
      Gives-first any_object Gives.has_asplice _ _ Gives.has_asplice-IsStable
        (Gives-later any_object Gives.has_asplice _ _ any_object-IsStable
          (install-Tame (IsPut-aread patched_aread))
          (Gives-later any_object Gives.has_asplice _ _ any_object-IsStable
            (install-Tame (IsPut-aread_batch patched_aread_batch))
            (Gives-later any_object Gives.has_asplice _ _ any_object-IsStable
              (install-Tame (IsPut-awrite patched_awrite))
              (Gives-later any_object Gives.has_asplice _ _ any_object-IsStable
                (install-Tame (IsPut-awrite_batch patched_awrite_batch))
                (Gives-later any_object Gives.has_asplice _ _ any_object-IsStable
                  (install-Tame (IsPut-aclose patched_aclose))
                  (Gives-later any_object Gives.has_asplice _ _ any_object-IsStable
                    (install-Tame (IsPut-aflush patched_aflush)) install_asplice))))))
        add_stubs-Tame

  pub patched_cls_has_asplice :
      Gives {W = W} is_mutable Gives.cls_has_asplice (do add_methods; add_stubs)
  unfolding add_stubs
  patched_cls_has_asplice =
      Gives-later is_mutable Gives.cls_has_asplice _ _ is_mutable-IsStable add_methods-Tame (
        Gives-later is_mutable Gives.cls_has_asplice _ _ is_mutable-IsStable
          (install_stub-Tame (IsStub-aread aread_stub))
          (Gives-later is_mutable Gives.cls_has_asplice _ _ is_mutable-IsStable
            (install_stub-Tame (IsStub-awrite awrite_stub))
            (Gives-later is_mutable Gives.cls_has_asplice _ _ is_mutable-IsStable
              (install_stub-Tame (IsStub-aclose call_stub))
              (Gives-later is_mutable Gives.cls_has_asplice _ _ is_mutable-IsStable
                (install_stub-Tame (IsStub-aflush call_stub)) stub-Gives_asplice))))
