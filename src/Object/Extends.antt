-- ===== src/Object/Extends.antt =====
-- When one namespace has all that another one has, under the same names.
use asynchstream.Base.{◌≡◌, refl, ap, sym, ◌∙◌, true, Option, none, some, first, is_some}
use asynchstream.Object.{Attrs, inherit}

module _ {ℓ} {A : Type ℓ} where
  first_self : (a : Option A) → first a a ≡ a
  first_self none = refl
  first_self (some a) = refl

  pub first_assoc : (a b c : Option A) → first a (first b c) ≡ first (first a b) c
  first_assoc none b c = refl
  first_assoc (some a) b c = refl

  pub first-first : (a b : Option A) → first a (first a b) ≡ first a b
  first-first none b = refl
  first-first (some a) b = refl

  is_some-first : (a b : Option A) → is_some a ≡ true → is_some (first a b) ≡ true
  is_some-first (some a) b h = refl
  is_some-first none b h = cc

-- What `a` defines, `b` defines in the same way.
abbrev pub Extends : {W : Type 0} {F : Type 0 → Type 0} → Attrs W F → Attrs W F → Type 0
Extends a b = inherit a b ≡ b

module _ {W : Type 0} {F : Type 0 → Type 0} where
  inherit_assoc : (a b c : Attrs W F) → inherit a (inherit b c) ≡ inherit (inherit a b) c
  inherit_assoc a b c = λ i. record {
    read = first_assoc a.read b.read c.read i;
    write = first_assoc a.write b.write c.write i;
    close = first_assoc a.close b.close c.close i;
    flush = first_assoc a.flush b.flush c.flush i;
    seek = first_assoc a.seek b.seek c.seek i;
    tell = first_assoc a.tell b.tell c.tell i;
    readable = first_assoc a.readable b.readable c.readable i;
    writable = first_assoc a.writable b.writable c.writable i;
    seekable = first_assoc a.seekable b.seekable c.seekable i;
    closed = first_assoc a.closed b.closed c.closed i;
    fileno = first_assoc a.fileno b.fileno c.fileno i;
    readinto = first_assoc a.readinto b.readinto c.readinto i;
    isatty = first_assoc a.isatty b.isatty c.isatty i;
    aread = first_assoc a.aread b.aread c.aread i;
    aread_batch = first_assoc a.aread_batch b.aread_batch c.aread_batch i;
    awrite = first_assoc a.awrite b.awrite c.awrite i;
    awrite_batch = first_assoc a.awrite_batch b.awrite_batch c.awrite_batch i;
    aclose = first_assoc a.aclose b.aclose c.aclose i;
    aflush = first_assoc a.aflush b.aflush c.aflush i;
    asplice = first_assoc a.asplice b.asplice c.asplice i;
    ext_aread_batch = first_assoc a.ext_aread_batch b.ext_aread_batch c.ext_aread_batch i;
    ext_awrite_batch = first_assoc a.ext_awrite_batch b.ext_awrite_batch c.ext_awrite_batch i;
    ext_asplice = first_assoc a.ext_asplice b.ext_asplice c.ext_asplice i;
  }

  pub Extends-refl : (a : Attrs W F) → Extends a a
  Extends-refl a = λ i. record {
    read = first_self a.read i;
    write = first_self a.write i;
    close = first_self a.close i;
    flush = first_self a.flush i;
    seek = first_self a.seek i;
    tell = first_self a.tell i;
    readable = first_self a.readable i;
    writable = first_self a.writable i;
    seekable = first_self a.seekable i;
    closed = first_self a.closed i;
    fileno = first_self a.fileno i;
    readinto = first_self a.readinto i;
    isatty = first_self a.isatty i;
    aread = first_self a.aread i;
    aread_batch = first_self a.aread_batch i;
    awrite = first_self a.awrite i;
    awrite_batch = first_self a.awrite_batch i;
    aclose = first_self a.aclose i;
    aflush = first_self a.aflush i;
    asplice = first_self a.asplice i;
    ext_aread_batch = first_self a.ext_aread_batch i;
    ext_awrite_batch = first_self a.ext_awrite_batch i;
    ext_asplice = first_self a.ext_asplice i;
  }

  pub inherit-Extends : (a b : Attrs W F) → Extends a (inherit a b)
  inherit-Extends a b = λ i. record {
    read = first-first a.read b.read i;
    write = first-first a.write b.write i;
    close = first-first a.close b.close i;
    flush = first-first a.flush b.flush i;
    seek = first-first a.seek b.seek i;
    tell = first-first a.tell b.tell i;
    readable = first-first a.readable b.readable i;
    writable = first-first a.writable b.writable i;
    seekable = first-first a.seekable b.seekable i;
    closed = first-first a.closed b.closed i;
    fileno = first-first a.fileno b.fileno i;
    readinto = first-first a.readinto b.readinto i;
    isatty = first-first a.isatty b.isatty i;
    aread = first-first a.aread b.aread i;
    aread_batch = first-first a.aread_batch b.aread_batch i;
    awrite = first-first a.awrite b.awrite i;
    awrite_batch = first-first a.awrite_batch b.awrite_batch i;
    aclose = first-first a.aclose b.aclose i;
    aflush = first-first a.aflush b.aflush i;
    asplice = first-first a.asplice b.asplice i;
    ext_aread_batch = first-first a.ext_aread_batch b.ext_aread_batch i;
    ext_awrite_batch = first-first a.ext_awrite_batch b.ext_awrite_batch i;
    ext_asplice = first-first a.ext_asplice b.ext_asplice i;
  }

  pub Extends-trans : (a b c : Attrs W F) → Extends a b → Extends b c → Extends a c
  Extends-trans a b c h k =
      ap (inherit a) (sym k) ∙ inherit_assoc a b c ∙ ap (λ d. inherit d c) h ∙ k
