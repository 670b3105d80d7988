-- ===== src/Patch/Steps.antt =====
-- py_native_io/patch.py: the seven assignments and the five stubs of `patch_stream`, one by one.
use asynchstream.Base.{
  ◌≡◌, refl, ap, Bool, true, false, not, ◌&&◌, Option, none, some, first, is_some,
}
use asynchstream.Object.{Namespace, Method, inherit, Chunk, Spec, Target}
use asynchstream.Base.{ℕ, ℤ, List}
use asynchstream.Exec.{Exec}
use asynchstream.Object.Extends.{Extends, Extends-refl}
use asynchstream.Patch.{
  lacks_aread, lacks_aread_batch, lacks_awrite, lacks_awrite_batch, lacks_aclose, lacks_aflush,
  lacks_asplice, add_methods, add_stubs, patched_aread, patched_aread_batch, patched_awrite,
  patched_awrite_batch, patched_aclose, patched_aflush, patched_asplice, aread_stub, awrite_stub,
  call_stub, asplice_stub,
}
use asynchstream.Patch.Tame.{IsPut, IsStub, Tame, Tame-then, install-Tame, install_stub-Tame}

eq_none_of_missing {ℓ} : {A : Type ℓ} (a : Option A) → not (is_some a) ≡ true → a ≡ none
eq_none_of_missing none h = refl
eq_none_of_missing (some a) h = cc

and_right : (a b : Bool) → (a && b) ≡ true → b ≡ true
and_right true b h = h
and_right false b h = cc

first_eq_none {ℓ} : {A : Type ℓ} (a b : Option A) → first a b ≡ none → (a ≡ none) × (b ≡ none)
first_eq_none none b h = (refl, h)
first_eq_none (some a) b h = cc

-- Lookup in `a` first does not see what a stub under it changes.
first_stub {ℓ} :
    {A : Type ℓ} (a b : Option A) (f : A)
    → b ≡ none
    → first (first a b) (first a (some f)) ≡ first a (some f)
first_stub none b f h = ap (λ o. first o (some f)) h
first_stub (some a) b f h = refl

module _ {W : Type 0} where
  aread-Extends :
      (n : Namespace W) (o : Option (Method W (ℤ → Exec W Chunk)))
      → n.aread ≡ none
      → Extends n (record n { aread = o })
  aread-Extends n o e = λ i. record (Extends-refl n i) { aread = first (e i) o }

  pub IsPut-aread :
      (f : Method W (ℤ → Exec W Chunk)) → IsPut lacks_aread (λ n. record n { aread = some f })
  IsPut-aread f = record {
    both = λ a b h. aread-Extends (inherit a b) (some f) (missing a b h);
    on_class = λ a b h. aread-Extends (inherit a b) (first a.aread (some f)) (missing a b h);
    on_instance = λ a b h. aread-Extends (inherit a b) (some f) (missing a b h);
    own = λ a b h. aread-Extends b (some f) (first_eq_none _ _ (missing a b h)).1;
  }
    where
      missing :
          (a b : Namespace W) → lacks_aread (inherit a b) ≡ true → first a.aread b.aread ≡ none
      missing a b h = eq_none_of_missing _ (and_right _ (not (is_some (first a.aread b.aread))) h)

  aread_batch-Extends :
      (n : Namespace W) (o : Option (Method W (List Spec → Exec W (List Chunk))))
      → n.aread_batch ≡ none
      → Extends n (record n { aread_batch = o })
  aread_batch-Extends n o e = λ i. record (Extends-refl n i) { aread_batch = first (e i) o }

  pub IsPut-aread_batch :
      (f : Method W (List Spec → Exec W (List Chunk)))
      → IsPut lacks_aread_batch (λ n. record n { aread_batch = some f })
  IsPut-aread_batch f = record {
    both = λ a b h. aread_batch-Extends (inherit a b) (some f) (missing a b h);
    on_class =
        λ a b h. aread_batch-Extends (inherit a b) (first a.aread_batch (some f)) (missing a b h);
    on_instance = λ a b h. aread_batch-Extends (inherit a b) (some f) (missing a b h);
    own = λ a b h. aread_batch-Extends b (some f) (first_eq_none _ _ (missing a b h)).1;
  }
    where
      missing :
          (a b : Namespace W)
          → lacks_aread_batch (inherit a b) ≡ true
          → first a.aread_batch b.aread_batch ≡ none
      missing a b h =
          eq_none_of_missing _ (and_right _ (not (is_some (first a.aread_batch b.aread_batch))) h)

  awrite-Extends :
      (n : Namespace W) (o : Option (Method W (Chunk → Exec W ℕ)))
      → n.awrite ≡ none
      → Extends n (record n { awrite = o })
  awrite-Extends n o e = λ i. record (Extends-refl n i) { awrite = first (e i) o }

  pub IsPut-awrite :
      (f : Method W (Chunk → Exec W ℕ)) → IsPut lacks_awrite (λ n. record n { awrite = some f })
  IsPut-awrite f = record {
    both = λ a b h. awrite-Extends (inherit a b) (some f) (missing a b h);
    on_class = λ a b h. awrite-Extends (inherit a b) (first a.awrite (some f)) (missing a b h);
    on_instance = λ a b h. awrite-Extends (inherit a b) (some f) (missing a b h);
    own = λ a b h. awrite-Extends b (some f) (first_eq_none _ _ (missing a b h)).1;
  }
    where
      missing :
          (a b : Namespace W) → lacks_awrite (inherit a b) ≡ true → first a.awrite b.awrite ≡ none
      missing a b h = eq_none_of_missing _ (and_right _ (not (is_some (first a.awrite b.awrite))) h)

  awrite_batch-Extends :
      (n : Namespace W) (o : Option (Method W (List Chunk → Exec W (List ℕ))))
      → n.awrite_batch ≡ none
      → Extends n (record n { awrite_batch = o })
  awrite_batch-Extends n o e = λ i. record (Extends-refl n i) { awrite_batch = first (e i) o }

  pub IsPut-awrite_batch :
      (f : Method W (List Chunk → Exec W (List ℕ)))
      → IsPut lacks_awrite_batch (λ n. record n { awrite_batch = some f })
  IsPut-awrite_batch f = record {
    both = λ a b h. awrite_batch-Extends (inherit a b) (some f) (missing a b h);
    on_class =
        λ a b h. awrite_batch-Extends (inherit a b) (first a.awrite_batch (some f)) (missing a b h);
    on_instance = λ a b h. awrite_batch-Extends (inherit a b) (some f) (missing a b h);
    own = λ a b h. awrite_batch-Extends b (some f) (first_eq_none _ _ (missing a b h)).1;
  }
    where
      missing :
          (a b : Namespace W)
          → lacks_awrite_batch (inherit a b) ≡ true
          → first a.awrite_batch b.awrite_batch ≡ none
      missing a b h =
          eq_none_of_missing _ (and_right _ (not (is_some (first a.awrite_batch b.awrite_batch))) h)

  aclose-Extends :
      (n : Namespace W) (o : Option (Method W (Exec W Unit)))
      → n.aclose ≡ none
      → Extends n (record n { aclose = o })
  aclose-Extends n o e = λ i. record (Extends-refl n i) { aclose = first (e i) o }

  pub IsPut-aclose :
      (f : Method W (Exec W Unit)) → IsPut lacks_aclose (λ n. record n { aclose = some f })
  IsPut-aclose f = record {
    both = λ a b h. aclose-Extends (inherit a b) (some f) (missing a b h);
    on_class = λ a b h. aclose-Extends (inherit a b) (first a.aclose (some f)) (missing a b h);
    on_instance = λ a b h. aclose-Extends (inherit a b) (some f) (missing a b h);
    own = λ a b h. aclose-Extends b (some f) (first_eq_none _ _ (missing a b h)).1;
  }
    where
      missing :
          (a b : Namespace W) → lacks_aclose (inherit a b) ≡ true → first a.aclose b.aclose ≡ none
      missing a b h = eq_none_of_missing _ (and_right _ (not (is_some (first a.aclose b.aclose))) h)

  aflush-Extends :
      (n : Namespace W) (o : Option (Method W (Exec W Unit)))
      → n.aflush ≡ none
      → Extends n (record n { aflush = o })
  aflush-Extends n o e = λ i. record (Extends-refl n i) { aflush = first (e i) o }

  pub IsPut-aflush :
      (f : Method W (Exec W Unit)) → IsPut lacks_aflush (λ n. record n { aflush = some f })
  IsPut-aflush f = record {
    both = λ a b h. aflush-Extends (inherit a b) (some f) (missing a b h);
    on_class = λ a b h. aflush-Extends (inherit a b) (first a.aflush (some f)) (missing a b h);
    on_instance = λ a b h. aflush-Extends (inherit a b) (some f) (missing a b h);
    own = λ a b h. aflush-Extends b (some f) (first_eq_none _ _ (missing a b h)).1;
  }
    where
      missing :
          (a b : Namespace W) → lacks_aflush (inherit a b) ≡ true → first a.aflush b.aflush ≡ none
      missing a b h = eq_none_of_missing _ (and_right _ (not (is_some (first a.aflush b.aflush))) h)

  asplice-Extends :
      (n : Namespace W) (o : Option (Method W (Target W → ℤ → Exec W ℕ)))
      → n.asplice ≡ none
      → Extends n (record n { asplice = o })
  asplice-Extends n o e = λ i. record (Extends-refl n i) { asplice = first (e i) o }

  pub IsPut-asplice :
      (f : Method W (Target W → ℤ → Exec W ℕ))
      → IsPut lacks_asplice (λ n. record n { asplice = some f })
  IsPut-asplice f = record {
    both = λ a b h. asplice-Extends (inherit a b) (some f) (missing a b h);
    on_class = λ a b h. asplice-Extends (inherit a b) (first a.asplice (some f)) (missing a b h);
    on_instance = λ a b h. asplice-Extends (inherit a b) (some f) (missing a b h);
    own = λ a b h. asplice-Extends b (some f) (first_eq_none _ _ (missing a b h)).1;
  }
    where
      missing :
          (a b : Namespace W)
          → lacks_asplice (inherit a b) ≡ true
          → first a.asplice b.asplice ≡ none
      missing a b h = eq_none_of_missing _ h

  pub IsStub-aread :
      (f : Method W (ℤ → Exec W Chunk))
      → IsStub (λ n. not (is_some n.aread)) (λ n. record n { aread = some f })
  IsStub-aread f = record {
    on_class = λ a b h i. record (Extends-refl (inherit a b) i) {
      aread = first_stub a.aread b.aread f (eq_none_of_missing b.aread h) i;
    };
    own = λ b h. aread-Extends b (some f) (eq_none_of_missing b.aread h);
  }

  pub IsStub-awrite :
      (f : Method W (Chunk → Exec W ℕ))
      → IsStub (λ n. not (is_some n.awrite)) (λ n. record n { awrite = some f })
  IsStub-awrite f = record {
    on_class = λ a b h i. record (Extends-refl (inherit a b) i) {
      awrite = first_stub a.awrite b.awrite f (eq_none_of_missing b.awrite h) i;
    };
    own = λ b h. awrite-Extends b (some f) (eq_none_of_missing b.awrite h);
  }

  pub IsStub-aclose :
      (f : Method W (Exec W Unit))
      → IsStub (λ n. not (is_some n.aclose)) (λ n. record n { aclose = some f })
  IsStub-aclose f = record {
    on_class = λ a b h i. record (Extends-refl (inherit a b) i) {
      aclose = first_stub a.aclose b.aclose f (eq_none_of_missing b.aclose h) i;
    };
    own = λ b h. aclose-Extends b (some f) (eq_none_of_missing b.aclose h);
  }

  pub IsStub-aflush :
      (f : Method W (Exec W Unit))
      → IsStub (λ n. not (is_some n.aflush)) (λ n. record n { aflush = some f })
  IsStub-aflush f = record {
    on_class = λ a b h i. record (Extends-refl (inherit a b) i) {
      aflush = first_stub a.aflush b.aflush f (eq_none_of_missing b.aflush h) i;
    };
    own = λ b h. aflush-Extends b (some f) (eq_none_of_missing b.aflush h);
  }

  pub IsStub-asplice :
      (f : Method W (Target W → ℤ → Exec W ℕ))
      → IsStub (λ n. not (is_some n.asplice)) (λ n. record n { asplice = some f })
  IsStub-asplice f = record {
    on_class = λ a b h i. record (Extends-refl (inherit a b) i) {
      asplice = first_stub a.asplice b.asplice f (eq_none_of_missing b.asplice h) i;
    };
    own = λ b h. asplice-Extends b (some f) (eq_none_of_missing b.asplice h);
  }

  pub add_methods-Tame : Tame {W = W} add_methods
  unfolding add_methods
  add_methods-Tame = Tame-then _ _ (install-Tame (IsPut-aread patched_aread)) (
      Tame-then _ _ (install-Tame (IsPut-aread_batch patched_aread_batch)) (
        Tame-then _ _ (install-Tame (IsPut-awrite patched_awrite)) (
          Tame-then _ _ (install-Tame (IsPut-awrite_batch patched_awrite_batch)) (
            Tame-then _ _ (install-Tame (IsPut-aclose patched_aclose)) (
              Tame-then _ _ (install-Tame (IsPut-aflush patched_aflush))
                ((install-Tame (IsPut-asplice patched_asplice))))))))

  pub add_stubs-Tame : Tame {W = W} add_stubs
  unfolding add_stubs
  add_stubs-Tame = Tame-then _ _ (install_stub-Tame (IsStub-aread aread_stub)) (
      Tame-then _ _ (install_stub-Tame (IsStub-awrite awrite_stub)) (
        Tame-then _ _ (install_stub-Tame (IsStub-aclose call_stub)) (
          Tame-then _ _ (install_stub-Tame (IsStub-aflush call_stub))
            ((install_stub-Tame (IsStub-asplice asplice_stub))))))
