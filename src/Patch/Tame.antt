-- ===== src/Patch/Tame.antt =====
-- py_native_io/patch.py: each step of `patch_stream` only adds attributes to an object and its class.
use asynchstream.Base.{
  ◌≡◌, refl, ◌∙◌, Bool, true, false, Option, none, some, first, Bool-cases, inl, inr,
}
use asynchstream.Exec.{Exec, Result, ok, err, attribute_error, too_deep, continue, ◌>>◌}
use asynchstream.Object.{Namespace, inherit}
use asynchstream.Object.Extends.{Extends, Extends-refl, Extends-trans}
use asynchstream.Patch.{PyObject, attributes, install, install_stub, set_on_class, set_on_instance}

-- How an action leaves an object: nothing that it had is lost, and it may only fail on an object that
-- takes no attributes.
pub record Leads {W : Type 0} (o : PyObject W) (p : Result (Unit {0}) × PyObject W) : Type 0 where
  pub extends : Extends (attributes o) (attributes p.1)
  pub extends_cls : Extends o.cls p.1.cls
  pub mutable : p.1.cls_mutable ≡ o.cls_mutable
  pub dict : p.1.has_dict ≡ o.has_dict
  pub succeeds : o.has_dict ≡ true → p.0 ≡ ok tt

pub record Tame {W : Type 0} (m : Exec (PyObject W) Unit) : Type 0 where
  pub at : (loop : Bool) (o : PyObject W) → Leads o (m loop o)

module _ {W : Type 0} where
  pub Leads-refl :
      (o : PyObject W) (r : Result (Unit {0})) → (o.has_dict ≡ true → r ≡ ok tt) → Leads o (r, o)
  Leads-refl o r h = record {
    extends = Extends-refl (attributes o);
    extends_cls = Extends-refl o.cls;
    mutable = refl;
    dict = refl;
    succeeds = h;
  }

  pub Leads-then :
      (n : Exec (PyObject W) Unit)
      → Tame n
      → (loop : Bool) (o o1 : PyObject W) (r : Result (Unit {0})) → Leads o (r, o1)
      → Leads o (continue r (λ _. n) loop o1)
  Leads-then n tame loop o o1 (err e) h = h
  Leads-then n tame loop o o1 too_deep h = h
  Leads-then n tame loop o o1 (ok u) h =
      let k = tame.at loop o1 in
      record {
        extends = Extends-trans _ _ _ h.extends k.extends;
        extends_cls = Extends-trans _ _ _ h.extends_cls k.extends_cls;
        mutable = k.mutable ∙ h.mutable;
        dict = k.dict ∙ h.dict;
        succeeds = λ d. k.succeeds (h.dict ∙ d);
      }

  pub Tame-then : (m n : Exec (PyObject W) Unit) → Tame m → Tame n → Tame (m >> n)
  Tame-then m n hm hn = record {
    at = λ loop o. Leads-then n hn loop o (m loop o).1 (m loop o).0 (hm.at loop o);
  }

first_eq_none {ℓ} : {A : Type ℓ} (a b : Option A) → first a b ≡ none → (a ≡ none) × (b ≡ none)
first_eq_none none b h = (refl, h)
first_eq_none (some a) b h = cc

-- An assignment that its test guards: the name is missing wherever it is then added.
pub record IsPut {W : Type 0} (test : Namespace W → Bool) (put : Namespace W → Namespace W)
    : Type 0 where
  pub both :
      (a b : Namespace W)
      → test (inherit a b) ≡ true
      → Extends (inherit a b) (inherit (put a) (put b))
  pub on_class :
      (a b : Namespace W) → test (inherit a b) ≡ true → Extends (inherit a b) (inherit a (put b))
  pub on_instance :
      (a b : Namespace W) → test (inherit a b) ≡ true → Extends (inherit a b) (inherit (put a) b)
  pub own : (a b : Namespace W) → test (inherit a b) ≡ true → Extends b (put b)

module _ {W : Type 0} {test : Namespace W → Bool} {put : Namespace W → Namespace W}
    (p : IsPut test put) where
  install-Leads :
      (loop : Bool) (a b : Namespace W) (m d : Bool)
      → let o : PyObject W = record { instance_dict = a; cls = b; cls_mutable = m; has_dict = d } in
        Leads o (install test put loop o)
  unfolding install
  install-Leads loop a b m d = elim (Bool-cases (test (inherit a b))) [
    | inr e ↦ rw e (Leads-refl _ (ok tt) (λ _. refl))
    | inl e ↦ rw e (fires m d e)
  ]
    where
      fires :
          (m d : Bool)
          → test (inherit a b) ≡ true
          → let o : PyObject W = record {
            instance_dict = a;
            cls = b;
            cls_mutable = m;
            has_dict = d;
          } in
            Leads o (set_on_instance put loop (set_on_class put o))
      fires true true e = record {
        extends = p.both a b e;
        extends_cls = p.own a b e;
        mutable = refl;
        dict = refl;
        succeeds = λ _. refl;
      }
      fires true false e = record {
        extends = p.on_class a b e;
        extends_cls = p.own a b e;
        mutable = refl;
        dict = refl;
        succeeds = λ h. cc;
      }
      fires false true e = record {
        extends = p.on_instance a b e;
        extends_cls = Extends-refl b;
        mutable = refl;
        dict = refl;
        succeeds = λ _. refl;
      }
      fires false false e = Leads-refl _ (err attribute_error) (λ h. cc)

  pub install-Tame : Tame (install test put)
  install-Tame = record {
    at = λ loop o. install-Leads loop o.instance_dict o.cls o.cls_mutable o.has_dict;
  }

-- The same for a stub, whose test reads the class alone.
pub record IsStub {W : Type 0} (missing : Namespace W → Bool) (put : Namespace W → Namespace W)
    : Type 0 where
  pub on_class : (a b : Namespace W) → missing b ≡ true → Extends (inherit a b) (inherit a (put b))
  pub own : (b : Namespace W) → missing b ≡ true → Extends b (put b)

module _ {W : Type 0} {missing : Namespace W → Bool} {put : Namespace W → Namespace W}
    (p : IsStub missing put) where
  install_stub-Leads :
      (loop : Bool) (a b : Namespace W) (m d : Bool)
      → let o : PyObject W = record { instance_dict = a; cls = b; cls_mutable = m; has_dict = d } in
        Leads o (install_stub missing put loop o)
  unfolding install_stub
  install_stub-Leads loop a b m d = elim (Bool-cases (missing b)) [
    | inr e ↦ rw e (Leads-refl _ (ok tt) (λ _. refl))
    | inl e ↦ rw e (fires m e)
  ]
    where
      fires :
          (m : Bool)
          → missing b ≡ true
          → let o : PyObject W = record {
            instance_dict = a;
            cls = b;
            cls_mutable = m;
            has_dict = d;
          } in
            Leads o (ok tt, set_on_class put o)
      fires true e = record {
        extends = p.on_class a b e;
        extends_cls = p.own b e;
        mutable = refl;
        dict = refl;
        succeeds = λ _. refl;
      }
      fires false e = Leads-refl _ (ok tt) (λ _. refl)

  pub install_stub-Tame : Tame (install_stub missing put)
  install_stub-Tame = record {
    at = λ loop o. install_stub-Leads loop o.instance_dict o.cls o.cls_mutable o.has_dict;
  }
