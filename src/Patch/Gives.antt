-- ===== src/Patch/Gives.antt =====
-- py_native_io/patch.py: which methods an object and its class have after `patch_stream`.
use asynchstream.Base.{
  ◌≡◌, refl, ap, sym, ◌∙◌, Bool, true, ◌||◌, Option, none, some, first, is_some, arith,
}
use asynchstream.Exec.{Exec, Result, ok, err, too_deep, continue, ◌>>◌}
use asynchstream.Object.{Namespace}
use asynchstream.Patch.{PyObject, attributes}
use asynchstream.Patch.Tame.{Leads, Tame}

-- A fact that no step of `patch_stream` destroys.
pub record IsStable {W : Type 0} (p : PyObject W → Bool) : Type 0 where
  pub keeps :
      (o : PyObject W) (q : Result (Unit {0}) × PyObject W) → Leads o q → p o ≡ true → p q.1 ≡ true

-- An action that, where it succeeds, brings about `post`.
pub record Gives {W : Type 0} (pre post : PyObject W → Bool) (m : Exec (PyObject W) Unit)
    : Type 0 where
  pub at :
      (loop : Bool) (o : PyObject W)
      → pre o ≡ true
      → (m loop o).0 ≡ ok tt
      → post (m loop o).1 ≡ true

module _ {W : Type 0} (pre post : PyObject W → Bool) where
  kept_by :
      (n : Exec (PyObject W) Unit)
      → Tame n
      → IsStable post
      → (loop : Bool) (o1 : PyObject W) (r : Result (Unit {0})) → (r ≡ ok tt → post o1 ≡ true)
      → (continue r (λ _. n) loop o1).0 ≡ ok tt
      → post (continue r (λ _. n) loop o1).1 ≡ true
  kept_by n tame stable loop o1 (ok u) h e = stable.keeps o1 (n loop o1) (tame.at loop o1) (h refl)
  kept_by n tame stable loop o1 (err x) h e = cc
  kept_by n tame stable loop o1 too_deep h e = cc

  pub Gives-first :
      (m n : Exec (PyObject W) Unit)
      → IsStable post
      → Gives pre post m
      → Tame n
      → Gives pre post (m >> n)
  Gives-first m n stable g tame = record {
    at = λ loop o h e. kept_by n tame stable loop (m loop o).1 (m loop o).0 (g.at loop o h) e;
  }

  brought_by :
      (n : Exec (PyObject W) Unit)
      → Gives pre post n
      → (loop : Bool) (o1 : PyObject W) (r : Result (Unit {0})) → pre o1 ≡ true
      → (continue r (λ _. n) loop o1).0 ≡ ok tt
      → post (continue r (λ _. n) loop o1).1 ≡ true
  brought_by n g loop o1 (ok u) h e = g.at loop o1 h e
  brought_by n g loop o1 (err x) h e = cc
  brought_by n g loop o1 too_deep h e = cc

  pub Gives-later :
      (m n : Exec (PyObject W) Unit)
      → IsStable pre
      → Tame m
      → Gives pre post n
      → Gives pre post (m >> n)
  Gives-later m n stable tame g = record {
    at = λ loop o h e.
        brought_by n g loop (m loop o).1 (m loop o).0 (stable.keeps o (m loop o) (tame.at loop o) h)
          e;
  }

module _ {W : Type 0} where
  abbrev pub is_mutable : PyObject W → Bool
  is_mutable o = o.cls_mutable

  abbrev pub any_object : PyObject W → Bool
  any_object o = true

  pub is_mutable-IsStable : IsStable is_mutable
  is_mutable-IsStable = record { keeps = λ o q l h. l.mutable ∙ h }

  pub any_object-IsStable : IsStable any_object
  any_object-IsStable = record { keeps = λ o q l h. refl }

kept_attribute {ℓ} :
    {A : Type ℓ} (a b : Option A) → first a b ≡ b → is_some a ≡ true → is_some b ≡ true
kept_attribute none b h e = cc
kept_attribute (some a) b h e = ap is_some (sym h)

either_kept :
    (a b c d : Bool)
    → (a ≡ true → c ≡ true)
    → (b ≡ true → d ≡ true)
    → (a || b) ≡ true
    → (c || d) ≡ true
either_kept a b c d h k e = ground arith

module _ {W : Type 0} where
  abbrev pub has_aread : PyObject W → Bool
  has_aread o = is_some (attributes o).aread

  abbrev pub cls_has_aread : PyObject W → Bool
  cls_has_aread o = is_some o.cls.aread

  abbrev pub can_read : PyObject W → Bool
  can_read o = is_some (attributes o).read || is_some (attributes o).aread

  pub has_aread-IsStable : IsStable has_aread
  has_aread-IsStable = record {
    keeps = λ o q l h. kept_attribute _ _ (ap (λ (n : Namespace W). n.aread) l.extends) h;
  }

  pub cls_has_aread-IsStable : IsStable cls_has_aread
  cls_has_aread-IsStable = record {
    keeps = λ o q l h. kept_attribute _ _ (ap (λ (n : Namespace W). n.aread) l.extends_cls) h;
  }

  pub can_read-IsStable : IsStable can_read
  can_read-IsStable = record {
    keeps = λ o q l h.
        either_kept _ _ _ _ (kept_attribute _ _ (ap (λ (n : Namespace W). n.read) l.extends))
          (kept_attribute _ _ (ap (λ (n : Namespace W). n.aread) l.extends)) h;
  }

  abbrev pub has_awrite : PyObject W → Bool
  has_awrite o = is_some (attributes o).awrite

  abbrev pub cls_has_awrite : PyObject W → Bool
  cls_has_awrite o = is_some o.cls.awrite

  abbrev pub can_write : PyObject W → Bool
  can_write o = is_some (attributes o).write || is_some (attributes o).awrite

  pub has_awrite-IsStable : IsStable has_awrite
  has_awrite-IsStable = record {
    keeps = λ o q l h. kept_attribute _ _ (ap (λ (n : Namespace W). n.awrite) l.extends) h;
  }

  pub cls_has_awrite-IsStable : IsStable cls_has_awrite
  cls_has_awrite-IsStable = record {
    keeps = λ o q l h. kept_attribute _ _ (ap (λ (n : Namespace W). n.awrite) l.extends_cls) h;
  }

  pub can_write-IsStable : IsStable can_write
  can_write-IsStable = record {
    keeps = λ o q l h.
        either_kept _ _ _ _ (kept_attribute _ _ (ap (λ (n : Namespace W). n.write) l.extends))
          (kept_attribute _ _ (ap (λ (n : Namespace W). n.awrite) l.extends)) h;
  }

  abbrev pub has_aclose : PyObject W → Bool
  has_aclose o = is_some (attributes o).aclose

  abbrev pub cls_has_aclose : PyObject W → Bool
  cls_has_aclose o = is_some o.cls.aclose

  abbrev pub can_close : PyObject W → Bool
  can_close o = is_some (attributes o).close || is_some (attributes o).aclose

  pub has_aclose-IsStable : IsStable has_aclose
  has_aclose-IsStable = record {
    keeps = λ o q l h. kept_attribute _ _ (ap (λ (n : Namespace W). n.aclose) l.extends) h;
  }

  pub cls_has_aclose-IsStable : IsStable cls_has_aclose
  cls_has_aclose-IsStable = record {
    keeps = λ o q l h. kept_attribute _ _ (ap (λ (n : Namespace W). n.aclose) l.extends_cls) h;
  }

  pub can_close-IsStable : IsStable can_close
  can_close-IsStable = record {
    keeps = λ o q l h.
        either_kept _ _ _ _ (kept_attribute _ _ (ap (λ (n : Namespace W). n.close) l.extends))
          (kept_attribute _ _ (ap (λ (n : Namespace W). n.aclose) l.extends)) h;
  }

  abbrev pub has_aflush : PyObject W → Bool
  has_aflush o = is_some (attributes o).aflush

  abbrev pub cls_has_aflush : PyObject W → Bool
  cls_has_aflush o = is_some o.cls.aflush

  abbrev pub can_flush : PyObject W → Bool
  can_flush o = is_some (attributes o).flush || is_some (attributes o).aflush

  pub has_aflush-IsStable : IsStable has_aflush
  has_aflush-IsStable = record {
    keeps = λ o q l h. kept_attribute _ _ (ap (λ (n : Namespace W). n.aflush) l.extends) h;
  }

  pub cls_has_aflush-IsStable : IsStable cls_has_aflush
  cls_has_aflush-IsStable = record {
    keeps = λ o q l h. kept_attribute _ _ (ap (λ (n : Namespace W). n.aflush) l.extends_cls) h;
  }

  pub can_flush-IsStable : IsStable can_flush
  can_flush-IsStable = record {
    keeps = λ o q l h.
        either_kept _ _ _ _ (kept_attribute _ _ (ap (λ (n : Namespace W). n.flush) l.extends))
          (kept_attribute _ _ (ap (λ (n : Namespace W). n.aflush) l.extends)) h;
  }

  abbrev pub has_asplice : PyObject W → Bool
  has_asplice o = is_some (attributes o).asplice

  abbrev pub cls_has_asplice : PyObject W → Bool
  cls_has_asplice o = is_some o.cls.asplice

  pub has_asplice-IsStable : IsStable has_asplice
  has_asplice-IsStable = record {
    keeps = λ o q l h. kept_attribute _ _ (ap (λ (n : Namespace W). n.asplice) l.extends) h;
  }

  pub cls_has_asplice-IsStable : IsStable cls_has_asplice
  cls_has_asplice-IsStable = record {
    keeps = λ o q l h. kept_attribute _ _ (ap (λ (n : Namespace W). n.asplice) l.extends_cls) h;
  }
